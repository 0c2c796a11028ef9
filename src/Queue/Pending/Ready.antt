-- ===== src/Queue/Pending/Ready.antt =====
-- What holds of the daemon while an event is handled (event_pending_handle_jobs of init/event.c),
-- and that a handler of one job keeps it.
use mathlib.Core.Path.{subst}
use feature_d.Base.{
  ℕ, ◌+◌, ◌≤◌, ◌<◌, true, is_some, All, Option, none, some, List, [], ◌∷◌, ◌≡◌, refl, sym, ◌∙◌, inr,
  arith, length,
}
use feature_d.Event.{Event, Events, Blocked, find_event}
use feature_d.EventOperator.Collect.{Room}
use feature_d.Job.{Job}
use feature_d.Job.Machine.{M, Ctx, Ensures}
use feature_d.Job.Invariant.{Sound}
use feature_d.Job.Ledger.{Fresh, entry_of}
use feature_d.Job.StopOn.Taken.{Tracks, tree_leaves}
use feature_d.Queue.{Class, Daemon, find_job, put_job, on_found, handled, put_back, run_on}
use feature_d.Queue.Held.{Found, FoundIn, find-Found, put-All}
use feature_d.Queue.Well.{JobOk, Well, at, Stays, put_back-Stays}

abbrev pub IsSmall : ℕ → Class → Type 0
IsSmall l c = (tree_leaves c.start_on ≤ l) × (tree_leaves c.stop_on ≤ l)

abbrev pub SmallJob : ℕ → Job → Type 0
SmallJob l j = JobOk j × (tree_leaves j.stop_on ≤ l)

-- The daemon is well, with the event in the queue; there are at most `n` jobs, no tree has more
-- than `l` leaves, and `m` blockers more have room on every event.
pub record Ready (l i n m : ℕ) (dm : Daemon) : Type 0 where
  pub well : Well dm
  pub here : is_some (find_event i dm.world.events) ≡ true
  pub few : length dm.jobs ≤ n
  pub small_jobs : All (λ j. tree_leaves j.stop_on ≤ l) dm.jobs
  pub small_classes : All (IsSmall l) dm.classes
  pub room : Room m dm.world.events

pub weaken-Ready :
    (l i n n' m m' : ℕ) (dm : Daemon) → n ≤ n' → m' ≤ m → Ready l i n m dm → Ready l i n' m' dm
weaken-Ready l i n n' m m' dm p q h = record {
  well = h.well;
  here = h.here;
  few = omega (arith, h.few, p);
  small_jobs = h.small_jobs;
  small_classes = h.small_classes;
  room = λ j. omega (arith, h.room j, q);
}

pub found_older : (n i : ℕ) (es : Events) → Fresh n es → is_some (find_event i es) ≡ true → i < n
unfolding find_event
found_older n i [] f q = absurd (ground arith)
found_older n i (e ∷ es) f q = ground (arith, f.0.0, found_older n i es f.1)

-- An event that keeps what it blocks is in the queue as before.
pub still_here :
    (a b : Option Event) → entry_of a ≡ entry_of b → is_some b ≡ true → is_some a ≡ true
still_here a none q h = absurd (ground arith)
still_here none (some e) q h = absurd (none_of q)
  where
    none_of : {bs : List Blocked} → none ≡ some bs → ⊥
    none_of p = ground (arith, p)
still_here (some d) (some e) q h = refl

-- How a step leaves the classes and the jobs that there were.
pub record Same (dm d : Daemon) : Type 0 where
  pub classes : d.classes ≡ dm.classes
  pub there : (k : ℕ) → is_some (find_job k dm.jobs) ≡ true → is_some (find_job k d.jobs) ≡ true

put_there :
    (d : Job) (k : ℕ) (js : List Job)
    → is_some (find_job k js) ≡ true
    → is_some (find_job k (put_job d js)) ≡ true
unfolding find_job put_job
put_there d k [] h = h
put_there d k (j ∷ js) h = ground (arith, put_there d k js)

put-length : (d : Job) (js : List Job) → length (put_job d js) ≡ length js
unfolding put_job
put-length d [] = refl
put-length d (j ∷ js) = ground (arith, put-length d js)

both-All : (P Q : Job → Type 0) (js : List Job) → All P js → All Q js → All (λ j. P j × Q j) js
both-All P Q [] h k = tt
both-All P Q (j ∷ js) h k = ((h.0, k.0), both-All P Q js h.1 k.1)

pub only_sound :
    (l k : ℕ) (jobs : List Job) (j : Job) → Found k jobs (SmallJob l) j → Found k jobs JobOk j
only_sound l k jobs j f = record {
  is_it = f.is_it;
  holds = f.holds.0;
  own_put = f.own_put;
  own_drop = f.own_drop;
  wait_put = f.wait_put;
  alone = f.alone;
  wait_drop = f.wait_drop;
}

abbrev pub Steps : ℕ → ℕ → ℕ → ℕ → Daemon → Option Daemon → Type 0
Steps l i n m dm none = ⊥
Steps l i n m dm (some d) = Ready l i n m d × Same dm d

pub Steps-after :
    (l i n m : ℕ) (dm d : Daemon) (r : Option Daemon)
    → Same dm d
    → Steps l i n m d r
    → Steps l i n m dm r
Steps-after l i n m dm d none e h = h
Steps-after l i n m dm d (some x) e (h, f) =
    (h, record { classes = f.classes ∙ e.classes; there = λ k q. f.there k (e.there k q) })

put_back-Steps :
    (l i n m x k : ℕ) (dm : Daemon) (j : Job) (d : Ctx)
    → Ready l i n (x + m) dm
    → Found k dm.jobs (SmallJob l) j
    → Sound d
    → Tracks x (at j dm.world) d
    → Steps l i n m dm (put_back dm d)
put_back-Steps l i n m x k dm j d h f s t = subst (Steps l i n m dm) (sym alive) (
  record {
    well = kept.0;
    here =
        still_here (find_event i d.world.events) (find_event i dm.world.events)
          (t.accounts.entries h.well.fresh i
            (found_older dm.world.next_event i dm.world.events h.well.fresh h.here))
          h.here;
    few = omega (arith, h.few, put-length d.job dm.jobs);
    small_jobs =
        put-All (λ x. tree_leaves x.stop_on ≤ l) d.job dm.jobs
          (omega (arith, t.same_leaves, f.holds.1)) h.small_jobs;
    small_classes = h.small_classes;
    room = λ e. omega (arith, h.room e, t.bounded e);
  },
  record { classes = refl; there = λ k. put_there d.job k dm.jobs },
)
  where
    after : Daemon
    after = record dm { jobs = put_job d.job dm.jobs; world = d.world }

    alive : put_back dm d ≡ some after
    alive = rw s.around.alive refl

    kept : Stays (λ i. 0) d.world (some after)
    kept = subst (Stays (λ i. 0) d.world) alive (
        put_back-Stays (λ i. 0) (λ i. 0) k dm j d h.well (only_sound l k dm.jobs j f)
          (record {
            settled = inr s;
            same_id = t.accounts.same_id;
            same_sys = t.accounts.same_sys;
            trees = t.accounts.trees;
            counts = t.accounts.counts;
            fresh = t.accounts.fresh;
            waiting = λ g k. omega (arith, t.accounts.waiting g k);
          }))

-- A handler that keeps its job sound and tracks the counts keeps the daemon ready.
pub run_on-Steps :
    (l i n m x k : ℕ) (dm : Daemon) (f : M (Unit {0}))
    → Ready l i n (x + m) dm
    → is_some (find_job k dm.jobs) ≡ true
    → ((j : Job)
        → Found k dm.jobs (SmallJob l) j
        → Ensures (λ _ d. Sound d × Tracks x (at j dm.world) d) (f (at j dm.world)))
    → Steps l i n m dm (run_on f k dm)
unfolding run_on
run_on-Steps l i n m x k dm f h there g =
    found (find_job k dm.jobs)
      (find-Found k dm.jobs (SmallJob l)
        (both-All JobOk (λ j. tree_leaves j.stop_on ≤ l) dm.jobs h.well.jobs_ok h.small_jobs))
      there
  where
    after :
        (j : Job)
        → Found k dm.jobs (SmallJob l) j
        → (r : Option (Unit {0} × Ctx)) → Ensures (λ _ d. Sound d × Tracks x (at j dm.world) d) r
        → Steps l i n m dm (handled dm r)
    after j q none e = e
    after j q (some (u, d)) (s, t) = put_back-Steps l i n m x k dm j d h q s t

    found :
        (r : Option Job)
        → FoundIn k dm.jobs (SmallJob l) r
        → is_some r ≡ true
        → Steps l i n m dm (on_found f dm r)
    found none q e = absurd (ground arith)
    found (some j) q e = after j q (f (at j dm.world)) (g j q)
