-- ===== src/Queue/Pending/Met.antt =====
-- What it means that a class has met an event (event_pending_handle_jobs of init/event.c).
use feature_d.Base.{
  inl, inr, refl, sym, ap, ◌∙◌, ◌&&◌, arith, Bool, true, false, Bytes, Option, none, some, List, [],
  ◌∷◌, ℕ, ◌≡◌, ◌⊎◌,
}
use feature_d.Event.{Event}
use feature_d.EventOperator.{EventOperator, value, Handled}
use feature_d.EventOperator.Values.{holds, IsClear, IsConsistent, Handles}
use feature_d.EventOperator.Unmatched.{Unmatched}
use feature_d.Queue.{Class, Daemon}
use feature_d.Queue.Pending.{find_of, other_session}
use feature_d.Queue.Pending.Inducted.{NameFails}

-- The `start on` of a class before the event and after it. Either it has the value that the event
-- gives it, which is not newly true; or it is true, and has been cleared for the next time. The loop
-- is left only there, where the name of the instance cannot be found.
abbrev pub TreeMeets :
    (Bytes → Bytes → Bool) → Event → Class → Bool → EventOperator → EventOperator → Type 0
TreeMeets fnmatch event c true t u =
    ((holds fnmatch event [] t ≡ some (value u))
      × IsConsistent u
      × (IsConsistent t → value u ≡ true → value t ≡ true))
    ⊎ ((holds fnmatch event [] t ≡ some true) × IsClear u)
TreeMeets fnmatch event c false t u =
    (holds fnmatch event [] t ≡ some true) × IsClear u × NameFails c

abbrev pub StartMeets :
    (Bytes → Bytes → Bool)
    → Event
    → Class
    → Option EventOperator
    → Bool
    → Option EventOperator
    → Type 0
StartMeets fnmatch event c none b o = (o ≡ none) × (b ≡ true)
StartMeets fnmatch event c (some t) b none = ⊥
StartMeets fnmatch event c (some t) b (some u) = TreeMeets fnmatch event c b t u

-- A class of another session than that of the event keeps its tree.
abbrev pub InSession :
    (Bytes → Bytes → Bool)
    → Event
    → Class
    → Bool
    → Option EventOperator
    → Bool
    → Option EventOperator
    → Type 0
InSession fnmatch event c true before b o = (o ≡ before) × (b ≡ true)
InSession fnmatch event c false before b o = StartMeets fnmatch event c before b o

abbrev pub ClassMeets :
    (Bytes → Bytes → Bool)
    → Event
    → Class
    → Option EventOperator
    → Bool
    → Option EventOperator
    → Type 0
ClassMeets fnmatch event c before b o =
    InSession fnmatch event c (other_session event.session c.job_class.session) before b o

abbrev pub start_of : Option Class → Option EventOperator
start_of none = none
start_of (some c) = c.start_on

-- A registered class before the event and after it; the loop goes on where the answer is true.
abbrev pub MeetsAt : (Bytes → Bytes → Bool) → Event → Bool → Option Class → Option Class → Type 0
MeetsAt fnmatch event b none d = ⊥
MeetsAt fnmatch event b (some c) d = ClassMeets fnmatch event c c.start_on b (start_of d)

-- Class after class has met the event, up to the last or to one whose instance has no name.
abbrev pub Meeting : (Bytes → Bytes → Bool) → Event → Daemon → Daemon → List ℕ → Type 0
Meeting fnmatch event dm d [] = Unit
Meeting fnmatch event dm d (i ∷ is) =
    (MeetsAt fnmatch event true (find_of i dm.classes) (find_of i d.classes)
      × Meeting fnmatch event dm d is)
    ⊎ MeetsAt fnmatch event false (find_of i dm.classes) (find_of i d.classes)

both : (a b : Bool) → (a && b) ≡ true → (a ≡ true) × (b ≡ true)
both true true h = (refl, refl)
both true false h = absurd (ground (arith, h))
both false b h = absurd (ground (arith, h))

not_matched : (a b : Bool) → (a && b) ≡ false → b ≡ true → a ≡ false
not_matched false b h k = refl
not_matched true b h k = absurd (ground (arith, h, k))

-- What is asked of the answer to a tree that has seen the event.
abbrev pub After : (Bool → Option EventOperator → Type 0) → Class → Option Handled → Type 0
After P c none = Unit
After P c (some r) =
    ((r.matched && value r.oper) ≡ false → P true (some r.oper))
    × ((r.matched && value r.oper) ≡ true → (u : EventOperator) → IsClear u → P true (some u))
    × ((r.matched && value r.oper) ≡ true
        → NameFails c
        → (u : EventOperator) → IsClear u
        → P false (some u))

module _ (fnmatch : Bytes → Bytes → Bool) (event : Event) where
  -- The tree of a class in the session of the event has met it.
  pub seen-StartMeets :
      (c : Class) (t : EventOperator) (b : Bool) (r : Option Handled)
      → holds fnmatch event [] t ≡ some b
      → Handles r (some b)
      → (IsConsistent t → Unmatched t r)
      → After (StartMeets fnmatch event c (some t)) c r
  seen-StartMeets c t b none e v f = tt
  seen-StartMeets c t b (some r) e v f = (
    λ x. inl (
      e ∙ ap some (sym v.1),
      v.0,
      λ k y. same_value (f k (not_matched r.matched (value r.oper) x y)) y,
    ),
    λ x u z. inr (e ∙ ap some (sym v.1 ∙ (both r.matched (value r.oper) x).1), z),
    λ x g u z. (e ∙ ap some (sym v.1 ∙ (both r.matched (value r.oper) x).1), z, g),
  )
    where
      same_value : r.oper ≡ t → value r.oper ≡ true → value t ≡ true
      same_value p y = ap value (sym p) ∙ y
