-- ===== src/Job/Change/Ends.antt =====
-- `running`, `killed` and `waiting`, the states in which `job_change_state` (init/job.c) answers
-- those who wait on a job, kills its main process, or lets go of it.
use feature_d.Base.{
  codes, ltb, ap, ℕ, suc, ◌<◌, Bool, true, false, if◌then◌else◌, is_some, Option, none, some, [],
  ◌∷◌, ◌≡◌, refl, arith, ◌⊎◌, inl, inr, Bool-cases,
}
use feature_d.Process.{main}
use feature_d.Job.{
  Job, job_start, job_stop, job_respawn, JobState, job_waiting, job_post_start, job_running,
  job_pre_stop, job_stopping, job_killed, job_post_stopping, job_post_stop, goal_is,
}
use feature_d.Job.Machine.{signal_sent, Ctx, Ensures}
use feature_d.Job.Invariant.{Sound}
use feature_d.Job.Finished.{Emits, job_finished, job_emit_event}
use feature_d.Job.Start.{job_process_kill}
use feature_d.Job.Finished.Covered.{job_finished_ok}
use feature_d.Job.Change.{change_round, leave_class, job_next_state}
use feature_d.Job.Change.Phases.{entered}
use feature_d.Job.Change.Settles.{
  Moving, Settles, job_finished-Sound, loop_Settles, loop_end, Moving-entered,
}
use feature_d.Job.Change.Rests.{with_event, with_event-Around, still_Sound, still_PidsOk}

abbrev started_event : Emits
started_event = record { event = codes "started"; block = false; stop = false }

abbrev forget_stop_env : Ctx → Ctx
forget_stop_env c = record c { job = record c.job { stop_env = none } }

-- What `job_finished` answers, in the state `running`.
abbrev then_running : Option (Unit {0} × Ctx) → Option (JobState × Ctx)
then_running r = elim r [ none ↦ none | some (u, d) ↦ some (job_running, d) ]

running_round_task :
    (c : Ctx)
    → c.job.goal ≡ job_start
    → c.job.state ≡ job_post_start
    → c.job.class.task ≡ true
    → change_round job_running c
      ≡ some (job_running, with_event started_event (entered job_running c))
unfolding change_round job_emit_event
running_round_task c g s t = ground arith

running_round_service :
    (c : Ctx)
    → c.job.goal ≡ job_start
    → c.job.state ≡ job_post_start
    → c.job.class.task ≡ false
    → change_round job_running c
      ≡ then_running (job_finished false (with_event started_event (entered job_running c)))
unfolding change_round job_emit_event
running_round_service c g s t = ground arith

running_round_again :
    (c : Ctx)
    → c.job.goal ≡ job_start
    → c.job.state ≡ job_pre_stop
    → change_round job_running c
      ≡ then_running (job_finished false (forget_stop_env (entered job_running c)))
unfolding change_round
running_round_again c g s = ground arith

from_finished :
    (n : ℕ) (r : Option (Unit {0} × Ctx))
    → Ensures (λ _ d. Sound d × (d.job.state ≡ job_running)) r
    → Ensures (λ t d. Settles (suc n) t d) (then_running r)
from_finished n none h = h
from_finished n (some (u, d)) h = loop_end n job_running d h.1 (inr h.0)

running_Sound : (c : Ctx) → Moving c → c.job.goal ≡ job_start → Sound (entered job_running c)
running_Sound c m g =
    still_Sound job_running c m refl refl (λ q. ground arith) (ground arith) tt (λ l. refl)

with_event-Sound : (e : Emits) (c : Ctx) → Sound c → Sound (with_event e c)
with_event-Sound e c h = record {
  inv = record {
    settled = h.inv.settled;
    pids = h.inv.pids;
    main_known = h.inv.main_known;
    post_start_known = h.inv.post_start_known;
    pre_stop_known = h.inv.pre_stop_known;
    blocked = h.inv.blocked;
    timer = h.inv.timer;
    timer_process = h.inv.timer_process;
    respawning = h.inv.respawning;
    idle = h.inv.idle;
  };
  around = with_event-Around e c h.around;
}

forget_Sound : (c : Ctx) → Sound c → Sound (forget_stop_env c)
forget_Sound c h = record {
  inv = record {
    settled = h.inv.settled;
    pids = h.inv.pids;
    main_known = h.inv.main_known;
    post_start_known = h.inv.post_start_known;
    pre_stop_known = h.inv.pre_stop_known;
    blocked = h.inv.blocked;
    timer = h.inv.timer;
    timer_process = h.inv.timer_process;
    respawning = h.inv.respawning;
    idle = h.inv.idle;
  };
  around = record {
    alive = h.around.alive;
    covered = h.around.covered;
    limit = h.around.limit;
    forks = h.around.forks;
  };
}

-- A job that has started, or goes on after `pre-stop`, answers those who wait and stays.
pub running_Settles :
    (n : ℕ) (c : Ctx)
    → Moving c
    → c.job.goal ≡ job_start
    → (c.job.state ≡ job_post_start) ⊎ (c.job.state ≡ job_pre_stop)
    → Settles (suc (suc n)) job_running c
running_Settles n c m g (inl s) =
    loop_Settles (suc n) job_running c (ground arith) m.free (elim (Bool-cases c.job.class.task) [
      | inl t ↦ rw (running_round_task c g s t) (
          loop_end n job_running _ refl
            (inr (with_event-Sound started_event (entered job_running c) (running_Sound c m g))))
      | inr t ↦ rw (running_round_service c g s t) (
          from_finished n _ (
            job_finished-Sound false _
              (with_event-Sound started_event (entered job_running c) (running_Sound c m g))))
    ])
running_Settles n c m g (inr s) = loop_Settles (suc n) job_running c (ground arith) m.free (
    rw (running_round_again c g s) (
      from_finished n _
        (job_finished-Sound false _ (forget_Sound (entered job_running c) (running_Sound c m g)))))

-- The main process has been sent its signal, and the timer is set.
abbrev killing : Ctx → Ctx
killing c = record c {
  job = record c.job { kill_process = some main; kill_timer = some c.job.class.kill_timeout };
  world = record c.world {
    out = signal_sent c.job.pid.main_slot c.job.class.kill_signal ∷ c.world.out;
  };
}

killing-Sound :
    (c : Ctx)
    → Moving c
    → goal_is c.job.goal job_respawn ≡ false
    → 0 < c.job.pid.main_slot
    → Sound (killing (entered job_killed c))
killing-Sound c m g l = record {
  inv = record {
    settled = refl;
    pids = still_PidsOk job_killed c m l (λ l. refl);
    main_known = m.main_known;
    post_start_known = λ l. ground (arith, m.no_post_start);
    pre_stop_known = λ l. ground (arith, m.no_pre_stop);
    blocked = ap is_some m.free;
    timer = λ t. refl;
    timer_process = refl;
    respawning = λ r. ground (arith, g);
    idle = λ q. ground arith;
  };
  around = record {
    alive = m.around.alive;
    covered = m.around.covered;
    limit = m.around.limit;
    forks = m.around.forks;
  };
}

killed_round :
    (c : Ctx)
    → Moving c
    → c.job.state ≡ job_stopping
    → goal_is c.job.goal job_respawn ≡ false
    → change_round job_killed c ≡ (
        if ltb 0 c.job.pid.main_slot
        then if c.world.sys.kill_fails c.job.pid.main_slot c.job.class.kill_signal
          then some (job_killed, entered job_killed c)
          else some (job_killed, killing (entered job_killed c))
        else some (job_post_stopping, entered job_killed c))
unfolding change_round job_process_kill job_next_state
killed_round c m s g = ground (arith, m.main_known, m.no_timer, m.no_kill, m.around.limit)

-- A job that has stopped kills its main process and waits for its end; where none runs, it goes on
-- to `post-stopping`.
pub killed_Settles :
    (n : ℕ) (c : Ctx)
    → Moving c
    → c.job.state ≡ job_stopping
    → goal_is c.job.goal job_respawn ≡ false
    → (c.job.pid.main_slot ≡ 0 → Settles (suc n) job_post_stopping (entered job_killed c))
    → Settles (suc (suc n)) job_killed c
killed_Settles n c m s g k = loop_Settles (suc n) job_killed c (ground arith) m.free (
    rw (killed_round c m s g) (
      ends (ltb 0 c.job.pid.main_slot) refl
        (c.world.sys.kill_fails c.job.pid.main_slot c.job.class.kill_signal)))
  where
    ends :
        (runs : Bool)
        → ltb 0 c.job.pid.main_slot ≡ runs
        → (fails : Bool)
        → Ensures
            (λ t d. Settles (suc n) t d)
            (if runs
              then if fails
                then some (job_killed, entered job_killed c)
                else some (job_killed, killing (entered job_killed c))
              else some (job_post_stopping, entered job_killed c))
    ends true r true = loop_end n job_killed _ refl (
        inr (still_Sound job_killed c m refl refl (λ q. ground arith) g (ground arith) (λ l. refl)))
    ends true r false = loop_end n job_killed _ refl (inr (killing-Sound c m g (ground arith)))
    ends false r fails = k (ground arith)

abbrev stopped_event : Emits
stopped_event = record { event = codes "stopped"; block = false; stop = true }

waiting_round :
    (c : Ctx)
    → c.job.state ≡ job_post_stop
    → c.job.goal ≡ job_stop
    → change_round job_waiting c
      ≡ elim (job_finished false (with_event stopped_event (entered job_waiting c))) [
        | none ↦ none
        | some (u, d) ↦ some (job_waiting, leave_class d)
      ]
unfolding change_round job_emit_event
waiting_round c s g = ground arith

abbrev Gone : Ctx → Ctx → Type 0
Gone c d = (d.freed ≡ true) × (d.job ≡ c.job)

either : (b : Bool) (x y c : Ctx) → Gone c x → Gone c y → Gone c (if b then x else y)
either true x y c h k = h
either false x y c h k = k

leave_class_freed : (c : Ctx) → Gone c (leave_class c)
unfolding leave_class
leave_class_freed c = either _ _ _ c (refl, refl) (refl, refl)

-- A job that has ended answers those who wait, and is gone.
pub waiting_Settles :
    (n : ℕ) (c : Ctx)
    → Moving c
    → c.job.state ≡ job_post_stop
    → c.job.goal ≡ job_stop
    → Settles (suc (suc n)) job_waiting c
waiting_Settles n c m s g =
    let (w, q, same, counts) =
      job_finished_ok false (with_event stopped_event (entered job_waiting c))
        (with_event-Around stopped_event (entered job_waiting c)
          (Moving-entered job_waiting c m).around).covered in
    let gone = record c { job = record c.job { state = job_waiting; blocking = [] }; world = w } in
    loop_Settles (suc n) job_waiting c (ground arith) m.free (
      rw (waiting_round c s g, q)
        (loop_end n job_waiting _ (ap (λ (j : Job). j.state) (leave_class_freed gone).1)
          (inl (leave_class_freed gone).0)))
