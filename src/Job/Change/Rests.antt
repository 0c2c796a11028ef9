-- ===== src/Job/Change/Rests.antt =====
-- The states in which `job_change_state` (init/job.c) leaves a job at rest without starting a
-- process for it: `starting`, `stopping`, `running`, `killed` and the end.
use feature_d.Base.{codes, ◌≢◌, ℕ, suc, ◌<◌, true, false, some, ◌≡◌, refl, sym, arith, inr}
use feature_d.Job.{
  job_start, job_respawn, JobState, job_waiting, job_starting, job_stopping, state_is, goal_is,
}
use feature_d.Job.Machine.{Ctx}
use feature_d.Job.Invariant.{PidsOk, Awaited, Around, Sound, runs_main, is_passing, waits_event}
use feature_d.Job.Finished.{Emits, emitted, job_emit_event}
use feature_d.Job.Finished.Covered.{blockers_of-emitted}
use feature_d.Job.Change.{change_round, fresh_start, may_follow}
use feature_d.Job.Change.Phases.{entered}
use feature_d.Job.Change.Settles.{Moving, Settles, loop_Settles, loop_end, Moving-entered}

-- The job once its event has been put on the queue.
abbrev pub with_event : Emits → Ctx → Ctx
with_event e c = record c {
  world = record c.world { events = emitted e c; next_event = suc c.world.next_event };
}

pub with_event-Around : (e : Emits) (c : Ctx) → Around c → Around (with_event e c)
with_event-Around e c h = record {
  alive = h.alive;
  covered = record {
    kinds = h.covered.kinds;
    counts = λ i. rw (blockers_of-emitted e c i) (h.covered.counts i);
  };
  limit = h.limit;
  forks = h.forks;
}

-- The job waits for its event.
abbrev pub waiting_for : Emits → Ctx → Ctx
waiting_for e c =
    let d = with_event e c in record d { job = record d.job { blocker = some c.world.next_event } }

abbrev pub stopping_event : Emits
stopping_event = record { event = codes "stopping"; block = true; stop = true }

abbrev pub starting_event : Emits
starting_event = record { event = codes "starting"; block = true; stop = false }

pub stopping_round :
    (c : Ctx)
    → may_follow c.job.state job_stopping ≡ true
    → change_round job_stopping c
      ≡ some (job_stopping, waiting_for stopping_event (entered job_stopping c))
unfolding change_round job_emit_event
stopping_round c h = rw h refl

pub starting_round :
    (c : Ctx)
    → may_follow c.job.state job_starting ≡ true
    → c.job.goal ≡ job_start
    → change_round job_starting c
      ≡ some (
        job_starting,
        waiting_for starting_event
            (let d = entered job_starting c in record d { job = fresh_start d.job }),
      )
unfolding change_round job_emit_event
starting_round c h g = ground arith

-- A job that no process but the main one runs for, in a state that awaits none.
pub still_PidsOk :
    (s : JobState) (c : Ctx)
    → Moving c
    → Awaited s c.job.pid
    → (0 < c.job.pid.main_slot → runs_main s ≡ true)
    → PidsOk s c.job.pid
still_PidsOk s c m a runs = record {
  awaited = a;
  main_ok = runs;
  security_ok = λ l. ground (arith, m.no_security);
  pre_start_ok = λ l. ground (arith, m.no_pre_start);
  post_start_ok = λ l. ground (arith, m.no_post_start);
  pre_stop_ok = λ l. ground (arith, m.no_pre_stop);
  post_stop_ok = λ l. ground (arith, m.no_post_stop);
}

event_Sound :
    (e : Emits) (s : JobState) (c : Ctx)
    → Moving c
    → waits_event s ≡ true
    → goal_is c.job.goal job_respawn ≡ false
    → (0 < c.job.pid.main_slot → runs_main s ≡ true)
    → Sound (waiting_for e (entered s c))
event_Sound e s c m w g runs = record {
  inv = record {
    settled = stays s w;
    pids = still_PidsOk s c m (awaits s w) runs;
    main_known = m.main_known;
    post_start_known = λ l. ground (arith, m.no_post_start);
    pre_stop_known = λ l. ground (arith, m.no_pre_stop);
    blocked = sym w;
    timer = λ t. ground (arith, m.no_timer);
    timer_process = ground (arith, m.no_timer, m.no_kill);
    respawning = λ r. ground (arith, g);
    idle = λ q. absurd (busy s w q);
  };
  around = record {
    alive = m.around.alive;
    covered = (with_event-Around e (entered s c) (Moving-entered s c m).around).covered;
    limit = m.around.limit;
    forks = m.around.forks;
  };
}
  where
    stays : (s : JobState) → waits_event s ≡ true → is_passing s ≡ false
    stays s w = ground arith

    awaits : (s : JobState) → waits_event s ≡ true → Awaited s c.job.pid
    awaits job_starting w = tt
    awaits job_stopping w = tt
    awaits _ w = cc

    busy : (s : JobState) → waits_event s ≡ true → s ≢ job_waiting
    busy s w q = ground arith

-- From any state that may stop, the job emits `stopping` and waits for it.
pub stopping_Settles :
    (n : ℕ) (c : Ctx)
    → Moving c
    → may_follow c.job.state job_stopping ≡ true
    → state_is c.job.state job_stopping ≡ false
    → goal_is c.job.goal job_respawn ≡ false
    → Settles (suc (suc n)) job_stopping c
stopping_Settles n c m f t g = loop_Settles (suc n) job_stopping c t m.free (
    rw (stopping_round c f) (
      loop_end n job_stopping _ refl
        (inr (event_Sound stopping_event job_stopping c m refl g (λ l. refl)))))

Moving-fresh_start : (c : Ctx) → Moving c → Moving (record c { job = fresh_start c.job })
Moving-fresh_start c m = record {
  around = record {
    alive = m.around.alive;
    covered = m.around.covered;
    limit = m.around.limit;
    forks = m.around.forks;
  };
  free = m.free;
  no_timer = m.no_timer;
  no_kill = m.no_kill;
  no_security = m.no_security;
  no_pre_start = m.no_pre_start;
  no_post_start = m.no_post_start;
  no_pre_stop = m.no_pre_stop;
  no_post_stop = m.no_post_stop;
  main_known = m.main_known;
}

pub starting_Settles :
    (n : ℕ) (c : Ctx)
    → Moving c
    → may_follow c.job.state job_starting ≡ true
    → state_is c.job.state job_starting ≡ false
    → c.job.goal ≡ job_start
    → c.job.pid.main_slot ≡ 0
    → Settles (suc (suc n)) job_starting c
starting_Settles n c m f t g z = loop_Settles (suc n) job_starting c t m.free (
    rw (starting_round c f g) (
      loop_end n job_starting _ refl (
        inr (
          event_Sound starting_event job_starting (record c { job = fresh_start c.job })
            (Moving-fresh_start c m) refl (ground arith) (λ l. ground (arith, z))))))

pub still_Sound :
    (s : JobState) (c : Ctx)
    → Moving c
    → is_passing s ≡ false
    → waits_event s ≡ false
    → s ≢ job_waiting
    → goal_is c.job.goal job_respawn ≡ false
    → Awaited s c.job.pid
    → (0 < c.job.pid.main_slot → runs_main s ≡ true)
    → Sound (entered s c)
still_Sound s c m p w b g a runs = record {
  inv = record {
    settled = p;
    pids = still_PidsOk s c m a runs;
    main_known = m.main_known;
    post_start_known = λ l. ground (arith, m.no_post_start);
    pre_stop_known = λ l. ground (arith, m.no_pre_stop);
    blocked = ground (arith, m.free);
    timer = λ t. ground (arith, m.no_timer);
    timer_process = ground (arith, m.no_timer, m.no_kill);
    respawning = λ r. ground (arith, g);
    idle = λ q. absurd (b q);
  };
  around = record {
    alive = m.around.alive;
    covered = m.around.covered;
    limit = m.around.limit;
    forks = m.around.forks;
  };
}
