-- ===== src/Queue/Pending/Stopped.antt =====
-- The loop of event_pending_handle_jobs (init/event.c) over the instances of a class.
use mathlib.Core.Path.{subst}
use feature_d.Base.{
  ℕ, zero, suc, ◌+◌, ◌≤◌, Bool, true, is_some, All, Bytes, Option, none, some, List, [], ◌∷◌, ◌≡◌,
  refl, sym, arith, length,
}
use feature_d.Environ.{environ_all_valid}
use feature_d.Event.{Event}
use feature_d.EventOperator.{EventOperator, event_operator_handle}
use feature_d.EventOperator.Counts.{refs, leaves}
use feature_d.EventOperator.Defined.{holds_defined}
use feature_d.Job.{Job}
use feature_d.Job.Machine.{Ctx, Ensures}
use feature_d.Job.Invariant.{Sound}
use feature_d.Job.Ledger.{tree_refs, Accounts-refl}
use feature_d.Job.StopOn.{stop_handled, handle_stop_on}
use feature_d.Job.StopOn.Taken.{Tracks, Tied}
use feature_d.Job.StopOn.Kept.{Watched, handle_stop_on-Watched}
use feature_d.Queue.{Daemon, find_job, run_on}
use feature_d.Queue.Held.{Found}
use feature_d.Queue.Well.{at, at-Sound}
use feature_d.Queue.Pending.{stop_instances}
use feature_d.Queue.Pending.Ready.{
  SmallJob, Ready, Same, Steps, Steps-after, weaken-Ready, only_sound, run_on-Steps,
}

-- A bound on the blockers that an event gets from so many jobs.
abbrev pub jobs_room : ℕ → ℕ → ℕ
jobs_room l zero = 0
jobs_room l (suc n) = l + l + jobs_room l n

abbrev Kept : ℕ → Ctx → Option (Unit {0} × Ctx) → Type 0
Kept x c r = Ensures (λ _ d. Sound d × Tracks x c d) r

loosened : (x y : ℕ) (c : Ctx) (r : Option (Unit {0} × Ctx)) → x ≤ y → Watched x c r → Kept y c r
loosened x y c none p h = h
loosened x y c (some (u, d)) p (w, t) = (
  w.0,
  record {
    accounts = t.accounts;
    bounded = λ i. omega (arith, t.bounded i, p);
    same_leaves = t.same_leaves;
  },
)

module _ (fnmatch : Bytes → Bytes → Bool) (event : Event) where
  stop_one :
      (l n m k : ℕ) (dm : Daemon) (j : Job)
      → environ_all_valid event.env ≡ true
      → Ready l event.id n (l + l + m) dm
      → Found k dm.jobs (SmallJob l) j
      → (o : Option EventOperator) → j.stop_on ≡ o
      → Kept (l + l) (at j dm.world) (handle_stop_on fnmatch event (at j dm.world))
  unfolding handle_stop_on
  stop_one l n m k dm j v h f none q =
      subst
        (λ s. Kept (l + l) (at j dm.world) (elim s [
          | none ↦ some (tt, at j dm.world)
          | some u ↦
              stop_handled (event_operator_handle fnmatch u event j.env dm.world.events)
                (at j dm.world)
        ]))
        (sym q)
        (
          at-Sound (λ i. 0) k dm j h.well (only_sound l k dm.jobs j f),
          record {
            accounts = Accounts-refl (at j dm.world);
            bounded = λ i. omega arith;
            same_leaves = refl;
          },
        )
  stop_one l n m k dm j v h f (some t) q =
      let (b, d) = holds_defined fnmatch event j.env t v in
      loosened (leaves t + leaves t) (l + l) (at j dm.world) _ (omega (arith, small)) (
        handle_stop_on-Watched fnmatch event t (at j dm.world) b
          (at-Sound (λ i. 0) k dm j h.well (only_sound l k dm.jobs j f)) tied h.here
          (λ i. omega (arith, h.room i, small)) d)
    where
      small : leaves t ≤ l
      small = rw q at f.holds.1

      tied : Tied t (at j dm.world)
      tied = record {
        tree = q;
        has = rw q at f.holds.0.tree;
        counted = λ i. omega (arith, h.well.covered i, f.own_drop i, held i);
      }
        where
          held : (i : ℕ) → refs i t ≡ tree_refs i j.stop_on
          held i = rw q refl

  pub stop_instances-Steps :
      (l n m : ℕ) (ks : List ℕ) (dm : Daemon)
      → environ_all_valid event.env ≡ true
      → Ready l event.id n (jobs_room l (length ks) + m) dm
      → All (λ k. is_some (find_job k dm.jobs) ≡ true) ks
      → Steps l event.id n m dm (stop_instances fnmatch event ks dm)
  unfolding stop_instances
  stop_instances-Steps l n m [] dm v h q = (
    weaken-Ready l event.id n n _ m dm (omega arith) (omega arith) h,
    record { classes = refl; there = λ k e. e },
  )
  stop_instances-Steps l n m (k ∷ ks) dm v h q =
      next (run_on (handle_stop_on fnmatch event) k dm)
        (run_on-Steps l event.id n (jobs_room l (length ks) + m) (l + l) k dm
          (handle_stop_on fnmatch event) more q.0
          (λ j f. stop_one l n (jobs_room l (length ks) + m) k dm j v more f j.stop_on refl))
        (λ d r a. stop_instances-Steps l n m ks d v r a)
    where
      more : Ready l event.id n (l + l + (jobs_room l (length ks) + m)) dm
      more = weaken-Ready l event.id n n _ _ dm (omega arith) (omega arith) h

      still :
          (js : List ℕ) (d : Daemon)
          → Same dm d
          → All (λ k. is_some (find_job k dm.jobs) ≡ true) js
          → All (λ k. is_some (find_job k d.jobs) ≡ true) js
      still [] d e a = tt
      still (j ∷ js) d e a = (e.there j a.0, still js d e a.1)

      next :
          (r : Option Daemon)
          → Steps l event.id n (jobs_room l (length ks) + m) dm r
          → ((d : Daemon)
              → Ready l event.id n (jobs_room l (length ks) + m) d
              → All (λ k. is_some (find_job k d.jobs) ≡ true) ks
              → Steps l event.id n m d (stop_instances fnmatch event ks d))
          → Steps l event.id n m dm
              (elim r [ none ↦ none | some d ↦ stop_instances fnmatch event ks d ])
      next none s f = s
      next (some d) (r, e) f = Steps-after l event.id n m dm d _ e (f d r (still ks d e q.1))
