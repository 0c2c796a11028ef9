-- ===== src/Job/Change/Settles.antt =====
-- The loop of `job_change_state` (init/job.c) ends well from every state on the way.
use feature_d.Base.{
  ap, ℕ, suc, ◌<◌, Bool, true, false, if◌then◌else◌, is_some, Option, none, some, ◌≡◌, refl, arith,
}
use feature_d.Job.{JobState, state_is}
use feature_d.Job.Machine.{Ctx, Ensures}
use feature_d.Job.Invariant.{Around, Sound, Settled}
use feature_d.Job.Finished.{job_finished}
use feature_d.Job.Finished.Covered.{job_finished_ok, Covered-nil}
use feature_d.Job.Change.{change_round, change_state_loop}
use feature_d.Job.Change.Phases.{entered}

-- What holds of a job while the loop moves it: no process but the main one runs, no timer is set,
-- and no event is waited for.
pub record Moving (c : Ctx) : Type 0 where
  pub around : Around c
  pub free : c.job.blocker ≡ none
  pub no_timer : c.job.kill_timer ≡ none
  pub no_kill : c.job.kill_process ≡ none
  pub no_security : c.job.pid.security_slot ≡ 0
  pub no_pre_start : c.job.pid.pre_start_slot ≡ 0
  pub no_post_start : c.job.pid.post_start_slot ≡ 0
  pub no_pre_stop : c.job.pid.pre_stop_slot ≡ 0
  pub no_post_stop : c.job.pid.post_stop_slot ≡ 0
  pub main_known : 0 < c.job.pid.main_slot → is_some c.job.class.process.main_slot ≡ true

abbrev pub SettledAfter : Option (Unit {0} × Ctx) → Type 0
SettledAfter = Ensures (λ _ d. Settled d)

abbrev pub Settles : ℕ → JobState → Ctx → Type 0
Settles n s c = SettledAfter (change_state_loop n s c)

-- `job_finished` keeps a sound job sound, in its state.
pub job_finished-Sound :
    (failed : Bool) (c : Ctx)
    → Sound c
    → Ensures (λ _ d. Sound d × (d.job.state ≡ c.job.state)) (job_finished failed c)
job_finished-Sound failed c h =
    let (w, q, same, counts) = job_finished_ok failed c h.around.covered in
    rw q (
      record {
        inv = record {
          settled = h.inv.settled;
          pids = h.inv.pids;
          main_known = h.inv.main_known;
          post_start_known = h.inv.post_start_known;
          pre_stop_known = h.inv.pre_stop_known;
          blocked = h.inv.blocked;
          timer = h.inv.timer;
          timer_process = h.inv.timer_process;
          respawning = h.inv.respawning;
          idle = h.inv.idle;
        };
        around = record {
          alive = h.around.alive;
          covered = Covered-nil w.events;
          limit = h.around.limit;
          forks = λ n. rw same.sys (h.around.forks n);
        };
      },
      refl,
    )

look :
    {A : Type 0} (reached blocked : Bool) (x y : A)
    → reached ≡ false
    → blocked ≡ false
    → (if reached then x else if blocked then x else y) ≡ y
look reached blocked x y f b = rw (f, b) refl

look_end : {A : Type 0} (reached : Bool) (x y : A) → reached ≡ true → (if reached then x else y) ≡ x
look_end reached x y e = rw e refl

state_is_refl : (s t : JobState) → s ≡ t → state_is s t ≡ true
state_is_refl s t e = rw e (self t)
  where
    self : (t : JobState) → state_is t t ≡ true
    self t = ground arith

-- A round of the loop, and then the rest.
pub loop_round :
    (n : ℕ) (s : JobState) (c : Ctx)
    → state_is c.job.state s ≡ false
    → c.job.blocker ≡ none
    → change_state_loop (suc n) s c
      ≡ elim (change_round s c) [ none ↦ none | some (t, d) ↦ change_state_loop n t d ]
unfolding change_state_loop
loop_round n s c f b = look (state_is c.job.state s) (is_some c.job.blocker) _ _ f (ap is_some b)

after_round :
    (n : ℕ) (r : Option (JobState × Ctx))
    → Ensures (λ t d. Settles n t d) r
    → SettledAfter (elim r [ none ↦ none | some (t, d) ↦ change_state_loop n t d ])
after_round n none h = h
after_round n (some (t, d)) h = h

pub loop_Settles :
    (n : ℕ) (s : JobState) (c : Ctx)
    → state_is c.job.state s ≡ false
    → c.job.blocker ≡ none
    → Ensures (λ t d. Settles n t d) (change_round s c)
    → Settles (suc n) s c
loop_Settles n s c f b h = rw (loop_round n s c f b) (after_round n (change_round s c) h)

-- The loop has reached its state.
pub loop_reached :
    (n : ℕ) (s : JobState) (c : Ctx)
    → c.job.state ≡ s
    → change_state_loop (suc n) s c ≡ some (tt, c)
unfolding change_state_loop
loop_reached n s c e = look_end (state_is c.job.state s) _ _ (state_is_refl c.job.state s e)

pub loop_end : (n : ℕ) (s : JobState) (c : Ctx) → c.job.state ≡ s → Settled c → Settles (suc n) s c
loop_end n s c e h = rw (loop_reached n s c e) h

pub Moving-entered : (s : JobState) (c : Ctx) → Moving c → Moving (entered s c)
Moving-entered s c m = record {
  around = record {
    alive = m.around.alive;
    covered = m.around.covered;
    limit = m.around.limit;
    forks = m.around.forks;
  };
  free = m.free;
  no_timer = m.no_timer;
  no_kill = m.no_kill;
  no_security = m.no_security;
  no_pre_start = m.no_pre_start;
  no_post_start = m.no_post_start;
  no_pre_stop = m.no_pre_stop;
  no_post_stop = m.no_post_stop;
  main_known = m.main_known;
}
