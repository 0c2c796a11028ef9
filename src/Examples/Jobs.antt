-- ===== src/Examples/Jobs.antt =====
-- A job that has a main process and a `pre-stop` script (init/job.c), with what waits on it.
use feature_d.Base.{ℕ, ◌+◌, true, false, codes, same, Option, none, some, [], ◌∷◌, ◌≡◌, refl, arith}
use feature_d.Process.{Table, Process, set, fill, main, pre_stop}
use feature_d.Event.{
  Events, pending, find_event, blockers_of, blocked_event, blocked_job_start_method,
}
use feature_d.Job.{
  Job, JobClass, JobGoal, job_start, job_stop, JobState, job_pre_start, job_spawning, job_spawned,
  job_post_starting, job_running, job_pre_stopping, job_pre_stop, job_stopping, pos, expect_none,
  trace_none,
}
use feature_d.Job.Machine.{System, World, Ctx}
use feature_d.Job.Invariant.{Covered, count_event}
use feature_d.Job.Finished.{job_finished}
use feature_d.Job.Finished.Covered.{SameRest}
use feature_d.Job.Finished.Answered.{is_failed, replies, fails, job_finished-Answers}
use feature_d.Job.Change.Phases.{Phase, main-Phase, pre_stop-Phase}

abbrev system : System
system = record {
  getenv = λ key. none;
  fnmatch = same;
  decimal = λ n. codes "0";
  signal_name = λ n. none;
  fork = λ n. 100 + n;
  kill_fails = λ pid sig. false;
}

abbrev script : Option Process
script = some (record { script = true; command = codes "exec daemon" })

abbrev class : JobClass
class = record {
  id = 1;
  name = codes "daemon";
  session = none;
  export = [];
  process = set (set (fill none) main script) pre_stop script;
  expect = expect_none;
  task = false;
  kill_timeout = 5;
  kill_signal = 15;
  reload_signal = 1;
  respawn = true;
  respawn_limit = 10;
  respawn_interval = 5;
  normalexit = [];
}

abbrev job : JobGoal → JobState → Table ℕ → Job
job goal state pid = record {
  id = 3;
  name = [];
  class = class;
  goal = goal;
  state = state;
  env = codes "A=1" ∷ [];
  start_env = none;
  stop_env = none;
  stop_on = none;
  pid = pid;
  blocker = none;
  blocking = blocked_event 7 ∷ blocked_job_start_method 2 ∷ [];
  kill_timer = none;
  kill_process = none;
  failed = false;
  failed_process = none;
  exit_status = pos 0;
  respawn_time = 0;
  respawn_count = 0;
  trace_forks = 0;
  trace_state = trace_none;
  process_data = fill none;
}

abbrev pub queue : Events
queue =
    record {
      id = 7;
      session = none;
      name = codes "startup";
      env = [];
      fd = none;
      progress = pending;
      failed = false;
      blockers = 1;
      blocking = [];
    }
    ∷ []

abbrev pub ctx : JobGoal → JobState → Table ℕ → Ctx
ctx goal state pid = record {
  job = job goal state pid;
  world = record {
    sys = system;
    apparmor = false;
    disable_respawn = false;
    now = 0;
    events = queue;
    next_event = 8;
    forks = 0;
    registry = record { classes = []; registered = []; conf_sources = [] };
    out = [];
  };
  freed = false;
}

pub running_Covered : Covered (ctx job_start job_running (fill 0)).job.blocking queue
unfolding blockers_of find_event
running_Covered = record { kinds = (tt, (tt, tt)); counts = λ i. ground arith }

job_finished-Answers_example :
    (w : World) × (job_finished true (ctx job_start job_running (fill 0))
      ≡ some (
        tt,
        record (ctx job_start job_running (fill 0)) {
          job = record (job job_start job_running (fill 0)) { blocking = [] };
          world = w;
        },
      ))
    × SameRest (ctx job_start job_running (fill 0)).world w
    × ((i : ℕ)
        → blockers_of i w.events + count_event i (blocked_event 7 ∷ blocked_job_start_method 2 ∷ [])
          ≡ blockers_of i queue)
    × (w.out ≡ replies true (blocked_event 7 ∷ blocked_job_start_method 2 ∷ []) [])
    × ((i : ℕ)
        → is_failed (find_event i w.events)
          ≡ fails true
              (blocked_event 7 ∷ blocked_job_start_method 2 ∷ [])
              i
              (is_failed (find_event i queue)))
job_finished-Answers_example =
    job_finished-Answers true (ctx job_start job_running (fill 0)) running_Covered

main-Phase_example :
    Phase main job_spawning job_spawned job_post_starting true 5
      (ctx job_start job_pre_start (fill 0))
main-Phase_example = main-Phase 5 (ctx job_start job_pre_start (fill 0)) refl refl refl

pre_stop-Phase_example :
    Phase pre_stop job_pre_stopping job_pre_stop job_stopping true 5
      (ctx job_stop job_running (set (fill 0) main 100))
pre_stop-Phase_example =
    pre_stop-Phase 5 (ctx job_stop job_running (set (fill 0) main 100)) refl refl refl
