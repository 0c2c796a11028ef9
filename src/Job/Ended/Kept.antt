-- ===== src/Job/Ended/Kept.antt =====
-- `job_failed` and changes of the goal, on the way through `job_process_terminated`
-- (init/job_process.c), keep what holds of a job.
use feature_d.Base.{
  ◌<◌, Bool, true, false, if◌then◌else◌, Option, some, [], ◌∷◌, ◌≡◌, ◌≢◌, refl, arith, ◌⊎◌,
}
use feature_d.Process.{ProcessType}
use feature_d.Job.{
  ℤ, job_stop, job_respawn, job_waiting, job_running, job_killed, job_post_start, job_pre_stop,
  state_is, goal_is,
}
use feature_d.Job.Machine.{World, Ctx, Ensures, failed_signal}
use feature_d.Job.Invariant.{Sound, runs_main, is_passing}
use feature_d.Job.Finished.{job_finished, job_failed}
use feature_d.Job.Finished.Covered.{job_finished_ok, Covered-nil}
use feature_d.Job.Change.{job_advance, job_change_goal, change_goal_by}
use feature_d.Job.Change.Settles.{Moving, SettledAfter, job_finished-Sound}
use feature_d.Job.Change.Released.{job_advance-Settled, Moving-with_goal}

-- A job that is ready to move to its next state, and neither waits nor has been asked to respawn
-- out of place.
pub record Loose (c : Ctx) : Type 0 where
  pub moving : Moving c
  pub rests : is_passing c.job.state ≡ false
  pub main_ok : 0 < c.job.pid.main_slot → runs_main c.job.state ≡ true
  pub killed : c.job.state ≡ job_killed → c.job.pid.main_slot ≡ 0
  pub respawning :
      c.job.goal ≡ job_respawn → (c.job.state ≡ job_post_start) ⊎ (c.job.state ≡ job_pre_stop)
  pub busy : c.job.state ≢ job_waiting

pub advance_Loose : (c : Ctx) → Loose c → SettledAfter (job_advance c)
advance_Loose c l = job_advance-Settled c (record {
  moving = l.moving;
  rests = l.rests;
  main_ok = l.main_ok;
  killed = l.killed;
  respawning = l.respawning;
  wanted = λ w. absurd (l.busy w);
})

-- The job with its failure recorded and its answers given, in a daemon `w`.
abbrev answered : World → Ctx → Ctx
answered w c = record c { job = record c.job { blocking = [] }; world = w }

job_finished-Loose :
    (failed : Bool) (c : Ctx)
    → Loose c
    → Ensures (λ _ d. Loose d × (d.job.state ≡ c.job.state)) (job_finished failed c)
job_finished-Loose failed c h =
    let (w, q, same, counts) = job_finished_ok failed c h.moving.around.covered in
    rw q (
      record {
        moving = record {
          around = record {
            alive = h.moving.around.alive;
            covered = Covered-nil w.events;
            limit = h.moving.around.limit;
            forks = λ n. rw same.sys (h.moving.around.forks n);
          };
          free = h.moving.free;
          no_timer = h.moving.no_timer;
          no_kill = h.moving.no_kill;
          no_security = h.moving.no_security;
          no_pre_start = h.moving.no_pre_start;
          no_post_start = h.moving.no_post_start;
          no_pre_stop = h.moving.no_pre_stop;
          no_post_stop = h.moving.no_post_stop;
          main_known = h.moving.main_known;
        };
        rests = h.rests;
        main_ok = h.main_ok;
        killed = h.killed;
        respawning = h.respawning;
        busy = h.busy;
      },
      refl,
    )

-- The record of a failure, before the answers.
abbrev failing : Option ProcessType → ℤ → Ctx → Ctx
failing p status c = record c {
  job = record c.job { failed = true; failed_process = p; exit_status = status };
  world = record c.world { out = failed_signal c.job.id status ∷ c.world.out };
}

failing-Loose :
    (p : Option ProcessType) (status : ℤ) (c : Ctx) → Loose c → Loose (failing p status c)
failing-Loose p status c h = record {
  moving = record {
    around = record {
      alive = h.moving.around.alive;
      covered = h.moving.around.covered;
      limit = h.moving.around.limit;
      forks = h.moving.around.forks;
    };
    free = h.moving.free;
    no_timer = h.moving.no_timer;
    no_kill = h.moving.no_kill;
    no_security = h.moving.no_security;
    no_pre_start = h.moving.no_pre_start;
    no_post_start = h.moving.no_post_start;
    no_pre_stop = h.moving.no_pre_stop;
    no_post_stop = h.moving.no_post_stop;
    main_known = h.moving.main_known;
  };
  rests = h.rests;
  main_ok = h.main_ok;
  killed = h.killed;
  respawning = h.respawning;
  busy = h.busy;
}

failing-Sound :
    (p : Option ProcessType) (status : ℤ) (c : Ctx) → Sound c → Sound (failing p status c)
failing-Sound p status c h = record {
  inv = record {
    settled = h.inv.settled;
    pids = h.inv.pids;
    main_known = h.inv.main_known;
    post_start_known = h.inv.post_start_known;
    pre_stop_known = h.inv.pre_stop_known;
    blocked = h.inv.blocked;
    timer = h.inv.timer;
    timer_process = h.inv.timer_process;
    respawning = h.inv.respawning;
    idle = h.inv.idle;
  };
  around = record {
    alive = h.around.alive;
    covered = h.around.covered;
    limit = h.around.limit;
    forks = h.around.forks;
  };
}

if_failed :
    (P : Ctx → Type 0) (b : Bool) (c : Ctx) (r : Option (Unit {0} × Ctx))
    → P c
    → Ensures (λ _ d. P d) r
    → Ensures (λ _ d. P d) (if b then some (tt, c) else r)
if_failed P true c r h k = h
if_failed P false c r h k = k

pub job_failed-Loose :
    (p : Option ProcessType) (status : ℤ) (c : Ctx)
    → Loose c
    → Ensures (λ _ d. Loose d × (d.job.state ≡ c.job.state)) (job_failed p status c)
unfolding job_failed
job_failed-Loose p status c h =
    if_failed (λ d. Loose d × (d.job.state ≡ c.job.state)) c.job.failed c _ (h, refl)
      (job_finished-Loose true (failing p status c) (failing-Loose p status c h))

pub job_failed-Sound :
    (p : Option ProcessType) (status : ℤ) (c : Ctx)
    → Sound c
    → Ensures (λ _ d. Sound d × (d.job.state ≡ c.job.state)) (job_failed p status c)
unfolding job_failed
job_failed-Sound p status c h =
    if_failed (λ d. Sound d × (d.job.state ≡ c.job.state)) c.job.failed c _ (h, refl)
      (job_finished-Sound true (failing p status c) (failing-Sound p status c h))

-- A stop of a job that is neither running nor waiting changes the goal alone.
pub stop-Loose :
    (c : Ctx)
    → Loose c
    → state_is c.job.state job_running ≡ false
    → Ensures (λ _ d. Loose d) (job_change_goal job_stop c)
unfolding job_change_goal change_goal_by
stop-Loose c h r = if_failed Loose (goal_is c.job.goal job_stop) c _ h (
    rw r (record {
      moving = Moving-with_goal job_stop c h.moving;
      rests = h.rests;
      main_ok = h.main_ok;
      killed = h.killed;
      respawning = λ e. ground arith;
      busy = h.busy;
    }))
