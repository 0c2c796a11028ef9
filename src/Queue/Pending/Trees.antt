-- ===== src/Queue/Pending/Trees.antt =====
-- The `start on` of a class while an event is handled (event_pending_handle_jobs of init/event.c).
use mathlib.Core.Path.{subst}
use feature_d.Base.{
  ℕ, ◌+◌, ◌≤◌, ◌==◌, Bool, true, false, if◌then◌else◌, is_some, All, Option, some, List, [], ◌∷◌,
  ◌≡◌, refl, arith,
}
use feature_d.Event.{Events, blockers_of, find_event}
use feature_d.EventOperator.{EventOperator}
use feature_d.EventOperator.Values.{HasEvents}
use feature_d.EventOperator.Counts.{refs, leaves}
use feature_d.Job.Ledger.{tree_refs, TreeOk}
use feature_d.Job.Ledger.Shapes.{SameShape}
use feature_d.Job.StopOn.Taken.{tree_leaves}
use feature_d.Queue.{Class, Daemon, class_tree}
use feature_d.Queue.Well.{ClassOk, class_refs}
use feature_d.Queue.Pending.{find_of, put_tree, with_start_on}
use feature_d.Queue.Pending.Ready.{IsSmall, Ready, still_here}

put_tree-refs :
    (j i : ℕ) (t u : EventOperator) (cs : List Class)
    → class_tree i cs ≡ some t
    → class_refs j (put_tree i u cs) + refs j t ≡ class_refs j cs + refs j u
unfolding class_tree put_tree
put_tree-refs j i t u [] q = absurd (ground arith)
put_tree-refs j i t u (c ∷ cs) q = branch (c.job_class.id == i) q (put_tree-refs j i t u cs)
  where
    held : c.start_on ≡ some t → tree_refs j c.start_on ≡ refs j t
    held p = rw p refl

    branch :
        (b : Bool)
        → (if b then c.start_on else class_tree i cs) ≡ some t
        → (class_tree i cs ≡ some t
            → class_refs j (put_tree i u cs) + refs j t ≡ class_refs j cs + refs j u)
        → class_refs j (if b then record c { start_on = some u } ∷ cs else c ∷ put_tree i u cs)
            + refs j t
          ≡ tree_refs j c.start_on + class_refs j cs + refs j u
    branch true p f = omega (arith, held p)
    branch false p f = omega (arith, f p)

put_tree-All :
    (P : Class → Type 0) (i : ℕ) (u : EventOperator) (cs : List Class)
    → ((c : Class) → P c → P (record c { start_on = some u }))
    → All P cs
    → All P (put_tree i u cs)
unfolding put_tree
put_tree-All P i u [] f h = tt
put_tree-All P i u (c ∷ cs) f h = branch (c.job_class.id == i) (put_tree-All P i u cs f h.1)
  where
    branch :
        (b : Bool)
        → All P (put_tree i u cs)
        → All P (if b then record c { start_on = some u } ∷ cs else c ∷ put_tree i u cs)
    branch true r = (f c h.0, h.1)
    branch false r = (h.0, r)

pub class_tree-put_tree :
    (i : ℕ) (t u : EventOperator) (cs : List Class)
    → class_tree i cs ≡ some t
    → class_tree i (put_tree i u cs) ≡ some u
unfolding class_tree put_tree
class_tree-put_tree i t u [] q = absurd (ground arith)
class_tree-put_tree i t u (c ∷ cs) q = ground (arith, class_tree-put_tree i t u cs)

pub put_tree_there :
    (k i : ℕ) (u : EventOperator) (cs : List Class)
    → is_some (find_of k (put_tree i u cs)) ≡ is_some (find_of k cs)
unfolding find_of put_tree
put_tree_there k i u [] = refl
put_tree_there k i u (c ∷ cs) = ground (arith, put_tree_there k i u cs)

-- The other classes stay as they are.
pub put_tree_apart :
    (k i : ℕ) (u : EventOperator) (cs : List Class)
    → (i == k) ≡ false
    → find_of k (put_tree i u cs) ≡ find_of k cs
unfolding find_of put_tree
put_tree_apart k i u [] h = refl
put_tree_apart k i u (c ∷ cs) h = ground (arith, h, put_tree_apart k i u cs h)

pub class_tree-All :
    (P : Option EventOperator → Type 0) (i : ℕ) (t : EventOperator) (cs : List Class)
    → class_tree i cs ≡ some t
    → All (λ c. P c.start_on) cs
    → P (some t)
unfolding class_tree
class_tree-All P i t [] q h = absurd (ground arith)
class_tree-All P i t (c ∷ cs) q h = branch (c.job_class.id == i) q (class_tree-All P i t cs)
  where
    branch :
        (b : Bool)
        → (if b then c.start_on else class_tree i cs) ≡ some t
        → (class_tree i cs ≡ some t → All (λ c. P c.start_on) cs → P (some t))
        → P (some t)
    branch true p f = subst P p h.0
    branch false p f = f p h.1

pub start_ok-All : (cs : List Class) → All ClassOk cs → All (λ c. TreeOk c.start_on) cs
start_ok-All [] h = tt
start_ok-All (c ∷ cs) h = (h.0.start_ok, start_ok-All cs h.1)

pub small-All :
    (l : ℕ) (cs : List Class) → All (IsSmall l) cs → All (λ c. tree_leaves c.start_on ≤ l) cs
small-All l [] h = tt
small-All l (c ∷ cs) h = (h.0.0, small-All l cs h.1)

-- Another tree with as many leaves, whose blockers have been put on or taken off.
pub with_start_on-Ready :
    (l e n m x i : ℕ) (dm : Daemon) (t u : EventOperator) (es : Events)
    → Ready l e n (x + m) dm
    → class_tree i dm.classes ≡ some t
    → SameShape dm.world.events es
    → HasEvents u
    → leaves u ≡ leaves t
    → ((j : ℕ) → blockers_of j es + refs j t ≡ blockers_of j dm.world.events + refs j u)
    → ((j : ℕ) → blockers_of j es ≤ blockers_of j dm.world.events + x)
    → Ready l e n m (with_start_on i u es dm)
with_start_on-Ready l e n m x i dm t u es h q s o k counts bound = record {
  well = record {
    jobs_ok = h.well.jobs_ok;
    classes_ok =
        put_tree-All ClassOk i u dm.classes
          (λ c ok. record { start_ok = o; stop_ok = ok.stop_ok; limit_ok = ok.limit_ok })
          h.well.classes_ok;
    older = h.well.older;
    distinct = h.well.distinct;
    covered = λ j. omega (arith, h.well.covered j, counts j, put_tree-refs j i t u dm.classes q);
    fresh = s.still_fresh dm.world.next_event h.well.fresh;
    waiting = λ j. omega (arith, s.kept j, h.well.waiting j);
    forks = h.well.forks;
  };
  here = still_here (find_event e es) (find_event e dm.world.events) (s.same_entries e) h.here;
  few = h.few;
  small_jobs = h.small_jobs;
  small_classes =
      put_tree-All (IsSmall l) i u dm.classes (λ c small. (few_leaves, small.1)) h.small_classes;
  room = λ j. omega (arith, h.room j, bound j);
}
  where
    few_leaves : leaves u ≤ l
    few_leaves = omega (
      arith,
      k,
      class_tree-All (λ o. tree_leaves o ≤ l) i t dm.classes q
          (small-All l dm.classes h.small_classes),
    )
