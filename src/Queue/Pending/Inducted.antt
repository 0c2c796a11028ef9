-- ===== src/Queue/Pending/Inducted.antt =====
-- A class starts an instance for the events that it has waited for (job_class_induct_job of
-- init/job_class.c).
use mathlib.Core.Path.{subst}
use feature_d.Base.{
  ℕ, suc, ◌+◌, ◌≤◌, ◌==◌, Bool, true, false, is_some, Bytes, codes, Option, none, some, ◌≡◌, ◌≢◌,
  refl, sym, ap, ◌∙◌, arith,
}
use feature_d.Environ.{Env}
use feature_d.Environ.Expand.{ExpandError, Expanded, failed, expanded, fuel, environ_expand}
use feature_d.Environ.Expand.Total.{environ_expand_total}
use feature_d.EventOperator.{EventOperator}
use feature_d.EventOperator.Values.{IsClear, HasEvents, IsConsistent-HasEvents}
use feature_d.EventOperator.Counts.{refs, leaves, reset_ok}
use feature_d.EventOperator.Taken.{refs-LeavesQueued, environment_ok, SameLeavesTree, reset-leaves}
use feature_d.Job.{Job}
use feature_d.Job.Machine.{Ctx, Ensures}
use feature_d.Job.Invariant.{Sound}
use feature_d.Job.Ledger.{tree_refs, TreeOk}
use feature_d.Job.Ledger.Shapes.{ShapedTree, reset-Shaped}
use feature_d.Job.StopOn.Taken.{Tracks, tree_leaves, clear_refs}
use feature_d.Queue.{Class, Daemon, find_job, run_on, class_tree}
use feature_d.Queue.Held.{Found}
use feature_d.Queue.Well.{ClassOk, at, at-Sound, class_refs, drop_class-refs}
use feature_d.Queue.Pending.{
  find_of, job_class_environment, job_new, find_instance, start_job, class_reset, reset_held_class,
  reset_class, instance_of, induct_named, induct_with, job_class_induct_job,
}
use feature_d.Queue.Pending.Ready.{
  IsSmall, SmallJob, Ready, weaken-Ready, Steps, only_sound, run_on-Steps,
}
use feature_d.Queue.Pending.Started.{Started, start_job-Started}
use feature_d.Queue.Pending.Made.{job_new-Ready, job_new_there, find_instance_there}
use feature_d.Queue.Pending.Trees.{
  with_start_on-Ready, class_tree-put_tree, put_tree_there, put_tree_apart, class_tree-All,
  start_ok-All, small-All,
}

-- The daemon is ready again, with the classes that it had; those but the class `i` are as they were,
-- and of its tree and the answer `P` holds.
abbrev pub Rounds :
    ℕ
    → ℕ
    → ℕ
    → ℕ
    → ℕ
    → (Bool → Option EventOperator → Type 0)
    → Daemon
    → Option (Bool × Daemon)
    → Type 0
Rounds l e n m i P dm none = ⊥
Rounds l e n m i P dm (some (b, d)) =
    Ready l e n m d
    × ((k : ℕ) → is_some (find_of k d.classes) ≡ is_some (find_of k dm.classes))
    × ((k : ℕ) → (i == k) ≡ false → find_of k d.classes ≡ find_of k dm.classes)
    × P b (class_tree i d.classes)

pub Rounds-after :
    (l e n m i : ℕ) (P : Bool → Option EventOperator → Type 0) (dm d : Daemon)
    (r : Option (Bool × Daemon))
    → ((k : ℕ) → is_some (find_of k d.classes) ≡ is_some (find_of k dm.classes))
    → ((k : ℕ) → (i == k) ≡ false → find_of k d.classes ≡ find_of k dm.classes)
    → Rounds l e n m i P d r
    → Rounds l e n m i P dm r
Rounds-after l e n m i P dm d none s o h = h
Rounds-after l e n m i P dm d (some (b, x)) s o (h, f, g, q) =
    (h, λ k. f k ∙ s k, λ k a. g k a ∙ o k a, q)

pub weaken-Rounds :
    (l e n n' m m' i : ℕ) (P : Bool → Option EventOperator → Type 0) (dm : Daemon)
    (r : Option (Bool × Daemon))
    → n ≤ n'
    → m' ≤ m
    → Rounds l e n m i P dm r
    → Rounds l e n' m' i P dm r
weaken-Rounds l e n n' m m' i P dm none p q h = h
weaken-Rounds l e n n' m m' i P dm (some (b, d)) p q (h, f, g, z) =
    (weaken-Ready l e n n' m m' d p q h, f, g, z)

-- The tree of a class has its blockers beside all jobs.
tree_counted :
    (l e n m i : ℕ) (d : Daemon) (t : EventOperator)
    → Ready l e n m d
    → class_tree i d.classes ≡ some t
    → (j : ℕ) → refs j t ≤ class_refs j d.classes
tree_counted l e n m i d t h q j = omega (arith, drop_class-refs j i d.classes, held)
  where
    held : tree_refs j (class_tree i d.classes) ≡ refs j t
    held = rw q refl

pub tree_HasEvents :
    (l e n m i : ℕ) (d : Daemon) (t : EventOperator)
    → Ready l e n m d
    → class_tree i d.classes ≡ some t
    → HasEvents t
tree_HasEvents l e n m i d t h q =
    class_tree-All TreeOk i t d.classes q (start_ok-All d.classes h.well.classes_ok)

pub tree_small :
    (l e n m i : ℕ) (d : Daemon) (t : EventOperator)
    → Ready l e n m d
    → class_tree i d.classes ≡ some t
    → leaves t ≤ l
tree_small l e n m i d t h q =
    class_tree-All (λ o. tree_leaves o ≤ l) i t d.classes q (small-All l d.classes h.small_classes)

reset_class-Rounds :
    (l e n m i : ℕ) (P : Bool → Option EventOperator → Type 0) (b : Bool) (d : Daemon)
    (t : EventOperator)
    → Ready l e n m d
    → class_tree i d.classes ≡ some t
    → ((u : EventOperator) → IsClear u → P b (some u))
    → Rounds l e n m i P d (reset_class i b (some d))
reset_class-Rounds l e n m i P b d t h q z =
    let (u, es, p, a, c, counts) =
      reset_ok t d.world.events
        (λ j. omega (arith, h.well.covered j, tree_counted l e n m i d t h q j)) in
    subst (λ o. Rounds l e n m i P d (reset_held_class i b o d)) (sym q)
      (subst (λ r. Rounds l e n m i P d (class_reset i b d r)) (sym p)
        (
          with_start_on-Ready l e n m 0 i d t u es
              (weaken-Ready l e n n m _ d (omega arith) (omega arith) h) q
              (subst (ShapedTree d.world.events) p (reset-Shaped t d.world.events))
              (IsConsistent-HasEvents u c)
              (subst (SameLeavesTree t) p (reset-leaves t d.world.events))
              (λ j. omega (arith, counts j, clear_refs j u a)) (λ j. omega (arith, counts j)),
          λ k. put_tree_there k i u d.classes,
          λ k. put_tree_apart k i u d.classes,
          subst (P b) (sym (class_tree-put_tree i t u d.classes q)) (z u a),
        ))

loosened : (x y : ℕ) (c : Ctx) (r : Option (Unit {0} × Ctx)) → x ≤ y → Started x c r → Started y c r
loosened x y c none p h = h
loosened x y c (some (u, d)) p (s, t) = (
  s,
  record {
    accounts = t.accounts;
    bounded = λ i. omega (arith, t.bounded i, p);
    same_leaves = t.same_leaves;
  },
)

-- The instance is started, and the tree of the class is cleared.
started-Rounds :
    (l e n m i : ℕ) (P : Bool → Option EventOperator → Type 0) (k : ℕ) (t : EventOperator)
    (env : Env) (d : Daemon)
    → Ready l e n (l + m) d
    → class_tree i d.classes ≡ some t
    → is_some (find_job k d.jobs) ≡ true
    → ((u : EventOperator) → IsClear u → P true (some u))
    → Rounds l e n m i P d (reset_class i true (run_on (start_job t env) k d))
started-Rounds l e n m i P k t env d h q there z =
    after (run_on (start_job t env) k d)
      (run_on-Steps l e n m l k d (start_job t env) h there start)
  where
    start :
        (j : Job)
        → Found k d.jobs (SmallJob l) j
        → Ensures (λ _ x. Sound x × Tracks l (at j d.world) x) (start_job t env (at j d.world))
    start j f = loosened (leaves t) l (at j d.world) _ (tree_small l e n (l + m) i d t h q) (
        start_job-Started t env (at j d.world)
          (at-Sound (λ i. 0) k d j h.well (only_sound l k d.jobs j f))
          (tree_HasEvents l e n (l + m) i d t h q)
          (λ x.
            omega (arith, h.well.covered x, f.own_drop x, tree_counted l e n (l + m) i d t h q x))
          (λ x. omega (arith, h.room x, tree_small l e n (l + m) i d t h q)))

    after : (r : Option Daemon) → Steps l e n m d r → Rounds l e n m i P d (reset_class i true r)
    after none s = s
    after (some x) (s, f) =
        Rounds-after l e n m i P d x (reset_class i true (some x))
          (λ k. ap (λ cs. is_some (find_of k cs)) f.classes) (λ k a. ap (find_of k) f.classes)
          (reset_class-Rounds l e n m i P true x t s (ap (class_tree i) f.classes ∙ q) z)

-- The name of an instance of the class cannot be found in some environment.
abbrev pub NameFails : Class → Type 0
NameFails c = (env : Env) × (e : ExpandError) × (environ_expand c.instance env ≡ failed e)

-- The end of the induction: no assertion fails, and there is at most one job more.
pub induct-Rounds :
    (l e n m : ℕ) (P : Bool → Option EventOperator → Type 0) (c : Class) (t : EventOperator)
    (d : Daemon)
    → Ready l e n (l + m) d
    → class_tree c.job_class.id d.classes ≡ some t
    → ClassOk c
    → IsSmall l c
    → ((u : EventOperator) → IsClear u → P true (some u))
    → (NameFails c → (u : EventOperator) → IsClear u → P false (some u))
    → Rounds l e (suc n) m c.job_class.id P d (job_class_induct_job c t d)
unfolding job_class_induct_job job_new
induct-Rounds l e n m P c t d h q ok small z y =
    let getenv = d.world.sys.getenv in
    let (env, p) =
      environment_ok getenv t d.world.events (job_class_environment getenv d.job_environ c.env)
        (some (codes "UPSTART_EVENTS")) (tree_HasEvents l e n (l + m) i d t h q)
        (refs-LeavesQueued t d.world.events
          (λ j. omega (arith, h.well.covered j, tree_counted l e n (l + m) i d t h q j))) in
    subst (λ x. Rounds l e (suc n) m c.job_class.id P d (induct_with c t d x)) (sym p)
      (named env (environ_expand c.instance env) refl (environ_expand_total c.instance env))
  where
    i : ℕ
    i = c.job_class.id

    with_instance :
        (env : Env) (name : Bytes) (o : Option Job)
        → find_instance i name d.jobs ≡ o
        → let (k, x) = instance_of c name d o in
          Rounds l e (suc n) m i P d (reset_class i true (run_on (start_job t env) k x))
    with_instance env name none f =
        Rounds-after l e (suc n) m i P d (job_new c name d) _ (λ k. refl) (λ k a. refl)
          (started-Rounds l e (suc n) m i P d.next_job t env (job_new c name d)
            (job_new-Ready l e n (l + m) c name d h ok small) q (job_new_there c name d) z)
    with_instance env name (some j) f =
        weaken-Rounds l e n (suc n) m m i P d _ (omega arith) (omega arith)
          (started-Rounds l e n m i P j.id t env d h q (find_instance_there i name d.jobs j f) z)

    named :
        (env : Env) (r : Expanded Bytes)
        → environ_expand c.instance env ≡ r
        → r ≢ fuel
        → Rounds l e (suc n) m i P d (induct_named c t env d r)
    named env fuel g f = absurd (f refl)
    named env (failed x) g f =
        weaken-Rounds l e n (suc n) (l + m) m i P d _ (omega arith) (omega arith)
          (reset_class-Rounds l e n (l + m) i P false d t h q (y (env, x, g)))
    named env (expanded name) g f = with_instance env name (find_instance i name d.jobs) refl
