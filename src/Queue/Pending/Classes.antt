-- ===== src/Queue/Pending/Classes.antt =====
-- One class with its instances handles an event (the loop of event_pending_handle_jobs of
-- init/event.c).
use mathlib.Core.Path.{subst}
use feature_d.Base.{
  ℕ, zero, suc, ◌+◌, ◌≤◌, ◌==◌, ◌&&◌, Bool, true, false, if◌then◌else◌, is_some, All, Bytes, Option,
  none, some, List, [], ◌∷◌, ◌≡◌, refl, sym, ap, arith, length,
}
use feature_d.Environ.{environ_all_valid}
use feature_d.Event.{Event}
use feature_d.EventOperator.{EventOperator, value, Handled, event_operator_handle}
use feature_d.EventOperator.Values.{Handles, handle-holds, IsConsistent-HasEvents}
use feature_d.EventOperator.Unmatched.{handle-Unmatched}
use feature_d.EventOperator.Counts.{leaves, Holds, handle-counts}
use feature_d.EventOperator.Taken.{SameLeaves, handle-leaves, refs_le}
use feature_d.EventOperator.Defined.{holds_defined}
use feature_d.Job.{Job}
use feature_d.Job.Ledger.Shapes.{ShapedHandled, handle-Shaped}
use feature_d.Queue.{Class, Daemon, find_job, class_tree}
use feature_d.Queue.Well.{ClassOk}
use feature_d.Queue.Pending.{
  find_of, instances, stop_instances, other_session, start_handled, handle_tree, handle_class,
  job_class_induct_job, with_start_on,
}
use feature_d.Queue.Pending.Ready.{IsSmall, Ready, weaken-Ready, Steps}
use feature_d.Queue.Pending.Stopped.{jobs_room, stop_instances-Steps}
use feature_d.Queue.Pending.Trees.{
  with_start_on-Ready, class_tree-put_tree, put_tree_there, put_tree_apart,
}
use feature_d.Queue.Pending.Inducted.{
  Rounds, Rounds-after, tree_HasEvents, tree_small, induct-Rounds,
}
use feature_d.Queue.Pending.Met.{StartMeets, InSession, ClassMeets, After, seen-StartMeets}

jobs_room_le : (l a b : ℕ) → a ≤ b → jobs_room l a ≤ jobs_room l b
jobs_room_le l zero b h = omega arith
jobs_room_le l (suc a) zero h = absurd (omega (arith, h))
jobs_room_le l (suc a) (suc b) h = omega (arith, jobs_room_le l a b (omega (arith, h)))

instances-length : (i : ℕ) (js : List Job) → length (instances i js) ≤ length js
unfolding instances
instances-length i [] = omega arith
instances-length i (j ∷ js) = ground (arith, instances-length i js)

instances_there :
    (i : ℕ) (P : ℕ → Type 0) (js : List Job) → All (λ j. P j.id) js → All P (instances i js)
unfolding instances
instances_there i P [] h = tt
instances_there i P (j ∷ js) h = branch (j.class.id == i) (instances_there i P js h.1)
  where
    branch :
        (b : Bool)
        → All P (instances i js)
        → All P (if b then j.id ∷ instances i js else instances i js)
    branch true r = (h.0, r)
    branch false r = r

more_there :
    (j : Job) (js ks : List Job)
    → All (λ k. is_some (find_job k.id js) ≡ true) ks
    → All (λ k. is_some (find_job k.id (j ∷ js)) ≡ true) ks
unfolding find_job
more_there j js [] h = tt
more_there j js (k ∷ ks) h = (ground (arith, h.0), more_there j js ks h.1)

own_there : (js : List Job) → All (λ k. is_some (find_job k.id js) ≡ true) js
unfolding find_job
own_there [] = tt
own_there (j ∷ js) = (ground arith, more_there j js js (own_there js))

module _ (fnmatch : Bytes → Bytes → Bool) (event : Event) where
  start_handled-Rounds :
      (l n m : ℕ) (P : Bool → Option EventOperator → Type 0) (c : Class) (t : EventOperator)
      (d : Daemon) (b : Bool) (r : Option Handled)
      → Ready l event.id n (l + l + m) d
      → class_tree c.job_class.id d.classes ≡ some t
      → ClassOk c
      → IsSmall l c
      → Handles r (some b)
      → Holds t event d.world.events r
      → SameLeaves t r
      → ShapedHandled d.world.events r
      → After P c r
      → Rounds l event.id (suc n) m c.job_class.id P d (start_handled c d r)
  start_handled-Rounds l n m P c t d b none h q ok small v k s z y = absurd v
  start_handled-Rounds l n m P c t d b (some r) h q ok small v k s z y =
      branch (r.matched && value r.oper) refl
    where
      i : ℕ
      i = c.job_class.id

      next : Daemon
      next = with_start_on i r.oper r.events d

      few : leaves t ≤ l
      few = tree_small l event.id n (l + l + m) i d t h q

      ready : Ready l event.id n (l + m) next
      ready =
          with_start_on-Ready l event.id n (l + m) l i d t r.oper r.events
            (weaken-Ready l event.id n n _ _ d (omega arith) (omega arith) h) q z
            (IsConsistent-HasEvents r.oper v.0) s k.0
            (λ j. omega (arith, k.0 j, refs_le j r.oper, s, few))

      branch :
          (x : Bool)
          → (r.matched && value r.oper) ≡ x
          → Rounds l event.id
              (suc n)
              m
              i
              P
              d
              (if x then job_class_induct_job c r.oper next else some (true, next))
      branch true x =
          Rounds-after l event.id (suc n) m i P d next _ (λ k. put_tree_there k i r.oper d.classes)
            (λ k. put_tree_apart k i r.oper d.classes)
            (induct-Rounds l event.id n m P c r.oper next ready
              (class_tree-put_tree i t r.oper d.classes q) ok small (y.1 x) (y.2 x))
      branch false x = (
        weaken-Ready l event.id n (suc n) _ m next (omega arith) (omega arith) ready,
        λ k. put_tree_there k i r.oper d.classes,
        λ k. put_tree_apart k i r.oper d.classes,
        subst (P true) (sym (class_tree-put_tree i t r.oper d.classes q)) (y.0 x),
      )

  handle_tree-Rounds :
      (l n m : ℕ) (c : Class) (d : Daemon) (o : Option EventOperator)
      → environ_all_valid event.env ≡ true
      → Ready l event.id n (l + l + m) d
      → class_tree c.job_class.id d.classes ≡ o
      → ClassOk c
      → IsSmall l c
      → Rounds l event.id
          (suc n)
          m
          c.job_class.id
          (StartMeets fnmatch event c o)
          d
          (handle_tree fnmatch event c o d)
  handle_tree-Rounds l n m c d none v h q ok small = (
    weaken-Ready l event.id n (suc n) _ m d (omega arith) (omega arith) h,
    λ k. refl,
    λ k a. refl,
    (q, refl),
  )
  handle_tree-Rounds l n m c d (some t) v h q ok small =
      let (b, e) = holds_defined fnmatch event [] t v in
      let has = tree_HasEvents l event.id n (l + l + m) c.job_class.id d t h q in
      start_handled-Rounds l n m (StartMeets fnmatch event c (some t)) c t d b
        (event_operator_handle fnmatch t event [] d.world.events) h q ok small
        (subst (Handles (event_operator_handle fnmatch t event [] d.world.events)) e
          (handle-holds fnmatch t event [] d.world.events has))
        (handle-counts fnmatch t event [] d.world.events has h.here (
          omega
            (arith, h.room event.id, tree_small l event.id n (l + l + m) c.job_class.id d t h q)))
        (handle-leaves fnmatch t event [] d.world.events)
        (handle-Shaped fnmatch t event [] d.world.events)
        (seen-StartMeets fnmatch event c t b
          (event_operator_handle fnmatch t event [] d.world.events) e
          (subst (Handles (event_operator_handle fnmatch t event [] d.world.events)) e
            (handle-holds fnmatch t event [] d.world.events has))
          (handle-Unmatched fnmatch t event [] d.world.events))

  -- One class with all its instances.
  pub handle_class-Rounds :
      (l n m : ℕ) (c : Class) (dm : Daemon)
      → environ_all_valid event.env ≡ true
      → Ready l event.id n (jobs_room l n + (l + l + m)) dm
      → ClassOk c
      → IsSmall l c
      → Rounds l event.id
          (suc n)
          m
          c.job_class.id
          (ClassMeets fnmatch event c (class_tree c.job_class.id dm.classes))
          dm
          (handle_class fnmatch event c dm)
  unfolding handle_class
  handle_class-Rounds l n m c dm v h ok small =
      branch (other_session event.session c.job_class.session)
    where
      i : ℕ
      i = c.job_class.id

      before : Option EventOperator
      before = class_tree i dm.classes

      ks : List ℕ
      ks = instances c.job_class.id dm.jobs

      after :
          (r : Option Daemon)
          → Steps l event.id n (l + l + m) dm r
          → Rounds l event.id (suc n) m i (StartMeets fnmatch event c before) dm (elim r [
            | none ↦ none
            | some d ↦ handle_tree fnmatch event c (class_tree c.job_class.id d.classes) d
          ])
      after none s = s
      after (some d) (s, f) =
          Rounds-after l event.id (suc n) m i (StartMeets fnmatch event c before) dm d _
            (λ k. ap (λ cs. is_some (find_of k cs)) f.classes) (λ k a. ap (find_of k) f.classes)
            (subst
              (λ o.
                Rounds l event.id (suc n) m i (StartMeets fnmatch event c o) d
                  (handle_tree fnmatch event c (class_tree i d.classes) d))
              (ap (class_tree i) f.classes)
              (handle_tree-Rounds l n m c d (class_tree i d.classes) v s refl ok small))

      spare : length ks ≤ n
      spare = omega (arith, instances-length c.job_class.id dm.jobs, h.few)

      branch :
          (b : Bool)
          → Rounds l event.id (suc n) m i (InSession fnmatch event c b before) dm (
              if b then some (true, dm) else elim (stop_instances fnmatch event ks dm) [
                | none ↦ none
                | some d ↦ handle_tree fnmatch event c (class_tree c.job_class.id d.classes) d
              ])
      branch true = (
        weaken-Ready l event.id n (suc n) _ m dm (omega arith) (omega arith) h,
        λ k. refl,
        λ k a. refl,
        (refl, refl),
      )
      branch false = after (stop_instances fnmatch event ks dm) (
          stop_instances-Steps fnmatch event l n (l + l + m) ks dm v
            (weaken-Ready l event.id n n _ _ dm (omega arith)
              (omega (arith, jobs_room_le l (length ks) n spare)) h)
            (instances_there c.job_class.id (λ k. is_some (find_job k dm.jobs) ≡ true) dm.jobs
              (own_there dm.jobs)))
