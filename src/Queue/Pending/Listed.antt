-- ===== src/Queue/Pending/Listed.antt =====
-- The loop over the registered classes (event_pending_handle_jobs of init/event.c): each class meets
-- the event, and the daemon stays well.
use mathlib.Core.Path.{subst}
use feature_d.Base.{
  ℕ, zero, suc, ◌+◌, ◌==◌, Bool, true, false, if◌then◌else◌, is_some, All, Bytes, Option, none,
  some, List, [], ◌∷◌, ◌≡◌, refl, sym, ap, ◌∙◌, arith, length, inl, inr,
}
use feature_d.Environ.{environ_all_valid}
use feature_d.Event.{Event, find_event}
use feature_d.Queue.{Class, Daemon, class_tree}
use feature_d.Queue.Well.{ClassOk, Well}
use feature_d.Queue.Pending.{find_of, handle_class, handle_found, handle_classes}
use feature_d.Queue.Pending.Ready.{IsSmall, Ready}
use feature_d.Queue.Pending.Stopped.{jobs_room}
use feature_d.Queue.Pending.Inducted.{Rounds}
use feature_d.Queue.Pending.Met.{start_of, ClassMeets, MeetsAt, Meeting}
use feature_d.Queue.Pending.Classes.{handle_class-Rounds}

found-All :
    (P : Class → Type 0) (i : ℕ) (cs : List Class) (c : Class)
    → find_of i cs ≡ some c
    → All P cs
    → P c
unfolding find_of
found-All P i [] c q h = absurd (ground arith)
found-All P i (x ∷ cs) c q h = branch (x.job_class.id == i) q (found-All P i cs c)
  where
    branch :
        (b : Bool)
        → (if b then some x else find_of i cs) ≡ some c
        → (find_of i cs ≡ some c → All P cs → P c)
        → P c
    branch true p f = subst (λ o. elim o [ none ↦ Unit | some y ↦ P y ]) p h.0
    branch false p f = f p h.1

-- A bound on the blockers that an event gets while so many classes handle it.
abbrev pub classes_room : ℕ → ℕ → ℕ → ℕ
classes_room l zero n = 0
classes_room l (suc k) n = jobs_room l n + (l + l + classes_room l k (suc n))

-- No class of the list is this one.
abbrev pub IsApart : ℕ → List ℕ → Type 0
IsApart k is = All (λ j. (j == k) ≡ false) is

abbrev pub AreDistinct : List ℕ → Type 0
AreDistinct [] = Unit
AreDistinct (i ∷ is) = IsApart i is × AreDistinct is

tree-find_of : (i : ℕ) (cs : List Class) → class_tree i cs ≡ start_of (find_of i cs)
unfolding class_tree find_of
tree-find_of i [] = refl
tree-find_of i (c ∷ cs) = branch (c.job_class.id == i) (tree-find_of i cs)
  where
    branch :
        (b : Bool)
        → class_tree i cs ≡ start_of (find_of i cs)
        → (if b then c.start_on else class_tree i cs)
          ≡ start_of (if b then some c else find_of i cs)
    branch true q = refl
    branch false q = q

found_class : (i : ℕ) (cs : List Class) (c : Class) → find_of i cs ≡ some c → c.job_class.id ≡ i
unfolding find_of
found_class i [] c q = absurd (ground arith)
found_class i (x ∷ cs) c q = branch (x.job_class.id == i) refl q (found_class i cs c)
  where
    branch :
        (b : Bool)
        → (x.job_class.id == i) ≡ b
        → (if b then some x else find_of i cs) ≡ some c
        → (find_of i cs ≡ some c → c.job_class.id ≡ i)
        → c.job_class.id ≡ i
    branch true e p f = ground (arith, p)
    branch false e p f = f p

-- The classes of the list have met the event, and the others are as they were.
abbrev pub AllMet : (Bytes → Bytes → Bool) → Event → List ℕ → Daemon → Option Daemon → Type 0
AllMet fnmatch event is dm none = ⊥
AllMet fnmatch event is dm (some d) =
    Well d
    × (is_some (find_event event.id d.world.events) ≡ true)
    × ((k : ℕ) → IsApart k is → find_of k d.classes ≡ find_of k dm.classes)
    × (AreDistinct is → Meeting fnmatch event dm d is)

-- Classes that the first of the list has left as they were.
classes_before :
    (fnmatch : Bytes → Bytes → Bool) (event : Event) (i : ℕ) (dm d x : Daemon) (is : List ℕ)
    → ((k : ℕ) → (i == k) ≡ false → find_of k d.classes ≡ find_of k dm.classes)
    → IsApart i is
    → Meeting fnmatch event d x is
    → Meeting fnmatch event dm x is
classes_before fnmatch event i dm d x [] f a h = tt
classes_before fnmatch event i dm d x (j ∷ is) f a (inl (h, k)) = inl (
  subst (λ o. MeetsAt fnmatch event true o (find_of j x.classes)) (f j (ground (arith, a.0))) h,
  classes_before fnmatch event i dm d x is f a.1 k,
)
classes_before fnmatch event i dm d x (j ∷ is) f a (inr h) =
    inr (
      subst (λ o. MeetsAt fnmatch event false o (find_of j x.classes)) (f j (ground (arith, a.0)))
        h)

pub handle_classes-AllMet :
    (fnmatch : Bytes → Bytes → Bool) (event : Event) (l n : ℕ) (is : List ℕ) (dm : Daemon)
    → environ_all_valid event.env ≡ true
    → Ready l event.id n (classes_room l (length is) n) dm
    → All (λ i. is_some (find_of i dm.classes) ≡ true) is
    → AllMet fnmatch event is dm (handle_classes fnmatch event is dm)
unfolding handle_classes
handle_classes-AllMet fnmatch event l n [] dm v h q = (h.well, h.here, λ k a. refl, λ a. tt)
handle_classes-AllMet fnmatch event l n (i ∷ is) dm v h q =
    found (find_of i dm.classes) refl q.0
      (λ d r a. handle_classes-AllMet fnmatch event l (suc n) is d v r a)
  where
    m : ℕ
    m = classes_room l (length is) (suc n)

    Step : Class → Option (Bool × Daemon) → Type 0
    Step c r =
        Rounds l event.id (suc n) m c.job_class.id
          (ClassMeets fnmatch event c (class_tree c.job_class.id dm.classes)) dm r

    still :
        (js : List ℕ) (d : Daemon)
        → ((k : ℕ) → is_some (find_of k d.classes) ≡ is_some (find_of k dm.classes))
        → All (λ i. is_some (find_of i dm.classes) ≡ true) js
        → All (λ i. is_some (find_of i d.classes) ≡ true) js
    still [] d e a = tt
    still (j ∷ js) d e a = (e j ∙ a.0, still js d e a.1)

    Later : Type 0
    Later =
        (d : Daemon)
        → Ready l event.id (suc n) m d
        → All (λ i. is_some (find_of i d.classes) ≡ true) is
        → AllMet fnmatch event is d (handle_classes fnmatch event is d)

    -- What the round says of the trees, it says of the class that has been found.
    at_found :
        (c : Class) (b : Bool) (d : Daemon)
        → find_of i dm.classes ≡ some c
        → ClassMeets fnmatch event c
            (class_tree c.job_class.id dm.classes)
            b
            (class_tree c.job_class.id d.classes)
        → MeetsAt fnmatch event b (find_of i dm.classes) (find_of i d.classes)
    at_found c b d e h =
        subst (λ o. MeetsAt fnmatch event b o (find_of i d.classes)) (sym e)
          (subst (λ o. ClassMeets fnmatch event c o b (start_of (find_of i d.classes)))
            (tree-find_of i dm.classes ∙ ap start_of e)
            (subst (λ o. ClassMeets fnmatch event c (class_tree i dm.classes) b o)
              (tree-find_of i d.classes)
              (subst
                (λ k.
                  ClassMeets fnmatch event c (class_tree k dm.classes) b (class_tree k d.classes))
                (found_class i dm.classes c e) h)))

    apart :
        (c : Class) (d : Daemon)
        → find_of i dm.classes ≡ some c
        → ((k : ℕ) → (c.job_class.id == k) ≡ false → find_of k d.classes ≡ find_of k dm.classes)
        → (k : ℕ) → (i == k) ≡ false
        → find_of k d.classes ≡ find_of k dm.classes
    apart c d e f k a = f k (ap (λ j. j == k) (found_class i dm.classes c e) ∙ a)

    ends :
        (c : Class) (d : Daemon) (r : Option Daemon)
        → find_of i dm.classes ≡ some c
        → ((k : ℕ) → (i == k) ≡ false → find_of k d.classes ≡ find_of k dm.classes)
        → ClassMeets fnmatch event c
            (class_tree c.job_class.id dm.classes)
            true
            (class_tree c.job_class.id d.classes)
        → AllMet fnmatch event is d r
        → AllMet fnmatch event (i ∷ is) dm r
    ends c d none e f p y = y
    ends c d (some x) e f p (w, y, g, o) = (
      w,
      y,
      λ k a. g k a.1 ∙ f k a.0,
      λ a. inl (
        subst (MeetsAt fnmatch event true (find_of i dm.classes)) (sym (g i a.0))
            (at_found c true d e p),
        classes_before fnmatch event i dm d x is f a.0 (o a.1),
      ),
    )

    next :
        (c : Class) (r : Option (Bool × Daemon))
        → find_of i dm.classes ≡ some c
        → Step c r
        → Later
        → AllMet fnmatch event (i ∷ is) dm (elim r [
          | none ↦ none
          | some (b, d) ↦ elim b [ false ↦ some d | true ↦ handle_classes fnmatch event is d ]
        ])
    next c none y s f = s
    next c (some (false, d)) y (s, e, o, p) f =
        (s.well, s.here, λ k a. apart c d y o k a.0, λ a. inr (at_found c false d y p))
    next c (some (true, d)) y (s, e, o, p) f =
        ends c d (handle_classes fnmatch event is d) y (apart c d y o) p (f d s (still is d e q.1))

    found :
        (o : Option Class)
        → find_of i dm.classes ≡ o
        → is_some o ≡ true
        → Later
        → AllMet fnmatch event (i ∷ is) dm (elim (handle_found fnmatch event o dm) [
          | none ↦ none
          | some (b, d) ↦ elim b [ false ↦ some d | true ↦ handle_classes fnmatch event is d ]
        ])
    found none e a f = absurd (ground arith)
    found (some c) e a f =
        next c (handle_class fnmatch event c dm) e
          (handle_class-Rounds fnmatch event l n m c dm v h
            (found-All ClassOk i dm.classes c e h.well.classes_ok)
            (found-All (IsSmall l) i dm.classes c e h.small_classes))
          f
