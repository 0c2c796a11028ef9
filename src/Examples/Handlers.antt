-- ===== src/Examples/Handlers.antt =====
-- Calls on a job that is sound (init/job.c): a running daemon, and one that waits to stop.
use feature_d.Base.{true, ℕ, ◌+◌, ◌≤◌, false, some, none, ◌≡◌, [], ◌∷◌, refl, arith}
use feature_d.Process.{Table, set, fill, main}
use feature_d.Job.{
  JobGoal, job_start, job_stop, JobState, job_running, job_spawned, job_stopping, job_killed,
  job_pre_stop,
}
use feature_d.Job.Machine.{Ctx, Ensures}
use feature_d.Job.Invariant.{Around, Sound, Settled}
use feature_d.Job.Change.{job_advance, job_change_goal, event_released}
use feature_d.Job.Change.Quiet.{Quietly, change_goal_quiet}
use feature_d.Job.Change.Released.{Released, job_advance-Settled}
use feature_d.Job.Change.Handlers.{event_released-Settled, job_change_goal-Settled}
use feature_d.Job.Ended.{job_process_terminated}
use feature_d.Job.Ended.Runaway.{respawns, respawns_le}
use feature_d.Job.Ended.Terminated.{job_process_terminated-Settled}
use feature_d.Job.Start.{job_process_kill_timer}
use feature_d.Job.Start.Kill.{job_process_kill_timer-Sound}
use feature_d.Job.Request.{accepted, instance_start, instance_stop, instance_restart}
use feature_d.Job.Request.Kept.{instance_start-Settled, instance_stop-Settled}
use feature_d.Job.Request.Restart.{restart-pre_stop}
use feature_d.Job.Change.{job_next_state}
use feature_d.Examples.Jobs.{ctx, running_Covered}

abbrev pub main_pid : Table ℕ
main_pid = set (fill 0) main 100

pub ctx-Around : (g : JobGoal) (s : JobState) → Around (ctx g s main_pid)
ctx-Around g s = record {
  alive = refl;
  covered = running_Covered;
  limit = ground arith;
  forks = λ n. ground arith;
}

-- The main process has been spawned and confirmed.
spawned_Released : Released (ctx job_start job_spawned main_pid)
spawned_Released = record {
  moving = record {
    around = ctx-Around job_start job_spawned;
    free = refl;
    no_timer = refl;
    no_kill = refl;
    no_security = refl;
    no_pre_start = refl;
    no_post_start = refl;
    no_pre_stop = refl;
    no_post_stop = refl;
    main_known = λ l. refl;
  };
  rests = refl;
  main_ok = λ l. refl;
  killed = λ k. ground arith;
  respawning = λ r. ground arith;
  wanted = λ w. ground arith;
}

job_advance-Settled_example :
    Ensures (λ _ d. Settled d) (job_advance (ctx job_start job_spawned main_pid))
job_advance-Settled_example =
    job_advance-Settled (ctx job_start job_spawned main_pid) spawned_Released

pub running_Sound : Sound (ctx job_start job_running main_pid)
running_Sound = record {
  inv = record {
    settled = refl;
    pids = record {
      awaited = tt;
      main_ok = λ l. refl;
      security_ok = λ l. ground arith;
      pre_start_ok = λ l. ground arith;
      post_start_ok = λ l. ground arith;
      pre_stop_ok = λ l. ground arith;
      post_stop_ok = λ l. ground arith;
    };
    main_known = λ l. refl;
    post_start_known = λ l. ground arith;
    pre_stop_known = λ l. ground arith;
    blocked = refl;
    timer = λ t. ground arith;
    timer_process = refl;
    respawning = λ r. ground arith;
    idle = λ q. ground arith;
  };
  around = ctx-Around job_start job_running;
}

job_change_goal-Settled_example :
    Ensures (λ _ d. Settled d) (job_change_goal job_stop (ctx job_start job_running main_pid))
job_change_goal-Settled_example =
    job_change_goal-Settled job_stop (ctx job_start job_running main_pid) running_Sound refl

abbrev pub stopping : Ctx
stopping =
    let c = ctx job_stop job_stopping main_pid in
    record c { job = record c.job { blocker = some 7 } }

pub stopping-Sound : Sound stopping
stopping-Sound = record {
  inv = record {
    settled = refl;
    pids = record {
      awaited = tt;
      main_ok = λ l. refl;
      security_ok = λ l. ground arith;
      pre_start_ok = λ l. ground arith;
      post_start_ok = λ l. ground arith;
      pre_stop_ok = λ l. ground arith;
      post_stop_ok = λ l. ground arith;
    };
    main_known = λ l. refl;
    post_start_known = λ l. ground arith;
    pre_stop_known = λ l. ground arith;
    blocked = refl;
    timer = λ t. ground arith;
    timer_process = refl;
    respawning = λ r. ground arith;
    idle = λ q. ground arith;
  };
  around = record {
    alive = refl;
    covered = running_Covered;
    limit = ground arith;
    forks = λ n. ground arith;
  };
}

event_released-Settled_example : Ensures (λ _ d. Settled d) (event_released stopping)
event_released-Settled_example = event_released-Settled stopping stopping-Sound refl

-- The main process of the running job dies with status 1, and is started again.
job_process_terminated-Settled_example :
    Ensures
      (λ _ d. Settled d)
      (job_process_terminated main 1 false (ctx job_start job_running main_pid))
job_process_terminated-Settled_example =
    job_process_terminated-Settled main 1 (ctx job_start job_running main_pid) running_Sound
      (ground arith)

-- It may be started again ten times in five seconds.
respawns_le_example :
    respawns (1 ∷ 1 ∷ 2 ∷ 3 ∷ []) (ctx job_start job_running main_pid).job + 0 ≤ 10
respawns_le_example =
    respawns_le (1 ∷ 1 ∷ 2 ∷ 3 ∷ []) (ctx job_start job_running main_pid).job (ground arith)
      (ground arith, (ground arith, (ground arith, (ground arith, tt)))) (ground arith)

abbrev killed : Ctx
killed =
    let c = ctx job_stop job_killed main_pid in
    record c { job = record c.job { kill_process = some main; kill_timer = some 5 } }

killed-Sound : Sound killed
killed-Sound = record {
  inv = record {
    settled = refl;
    pids = record {
      awaited = ground arith;
      main_ok = λ l. refl;
      security_ok = λ l. ground arith;
      pre_start_ok = λ l. ground arith;
      post_start_ok = λ l. ground arith;
      pre_stop_ok = λ l. ground arith;
      post_stop_ok = λ l. ground arith;
    };
    main_known = λ l. refl;
    post_start_known = λ l. ground arith;
    pre_stop_known = λ l. ground arith;
    blocked = refl;
    timer = λ t. refl;
    timer_process = refl;
    respawning = λ r. ground arith;
    idle = λ q. ground arith;
  };
  around = record {
    alive = refl;
    covered = running_Covered;
    limit = ground arith;
    forks = λ n. ground arith;
  };
}

job_process_kill_timer-Sound_example :
    Ensures (λ _ d. Sound d × (d.job.kill_timer ≡ none)) (job_process_kill_timer killed)
job_process_kill_timer-Sound_example = job_process_kill_timer-Sound killed killed-Sound refl

instance_stop-Settled_example :
    Ensures (λ _ d. Settled d) (instance_stop none 4 true (ctx job_start job_running main_pid))
instance_stop-Settled_example =
    instance_stop-Settled none 4 true (ctx job_start job_running main_pid) running_Sound

change_goal_quiet_example :
    Quietly
      (ctx job_start job_running main_pid)
      (job_change_goal job_stop (ctx job_start job_running main_pid))
change_goal_quiet_example =
    change_goal_quiet job_stop (ctx job_start job_running main_pid) running_Sound

-- The stopping job is asked to start again.
instance_start-Settled_example : Ensures (λ _ d. Settled d) (instance_start none 5 false stopping)
instance_start-Settled_example = instance_start-Settled none 5 false stopping stopping-Sound

restart-pre_stop_example :
    (d : Ctx) × (instance_restart none 5 true (ctx job_start job_running main_pid)
      ≡ some (accepted, d))
    × (d.job.state ≡ job_pre_stop)
    × (d.job.goal ≡ job_start)
    × (d.job.pid.pre_stop_slot ≡ 100)
    × (d.job.pid.main_slot ≡ 100)
    × (job_next_state d ≡ some (job_running, d))
restart-pre_stop_example =
    restart-pre_stop none 5 true (ctx job_start job_running main_pid) refl running_Covered refl refl
      refl refl refl
