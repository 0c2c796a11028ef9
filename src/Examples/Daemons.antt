-- ===== src/Examples/Daemons.antt =====
-- Events that finish (init/event.c): the event of a stopping job, which a call waits for as well.
use feature_d.Base.{true, codes, none, [], ◌∷◌, refl, arith}
use feature_d.Event.{Event, finished, find_event, blockers_of, blocked_job, blocked_emit_method}
use feature_d.Job.{job_start, job_stop, job_running}
use feature_d.Job.Change.{job_change_goal}
use feature_d.Job.Change.Ledger.{KeepsCounts, job_change_goal-KeepsCounts}
use feature_d.Job.Invariant.{Sound}
use feature_d.Job.StopOn.Taken.{Put-Sound}
use feature_d.Queue.{Daemon, event_finished}
use feature_d.Queue.Well.{Well}
use feature_d.Queue.Freed.{WellWithout, event_finished-WellWithout}
use feature_d.Examples.Jobs.{ctx}
use feature_d.Examples.Handlers.{main_pid, stopping, stopping-Sound}

abbrev stopping_event : Event
stopping_event = record {
  id = 7;
  session = none;
  name = codes "stopping";
  env = [];
  fd = none;
  progress = finished;
  failed = true;
  blockers = 0;
  blocking = blocked_job 3 ∷ blocked_emit_method 2 ∷ [];
}

abbrev daemon : Daemon
daemon = record {
  jobs = record stopping.job { blocking = [] } ∷ [];
  classes = [];
  next_job = 4;
  job_environ = [];
  world = record stopping.world { events = stopping_event ∷ [] };
}

idle_Sound : Sound (record stopping { job = record stopping.job { blocking = [] } })
idle_Sound =
    Put-Sound stopping none none [] stopping.world stopping-Sound
      (record { kinds = tt; counts = λ i. ground arith }) stopping-Sound.around.forks

daemon-Well : Well daemon
unfolding blockers_of find_event
daemon-Well = record {
  jobs_ok = (record { inv = idle_Sound.inv; kinds = tt; limit = ground arith; tree = tt }, tt);
  classes_ok = tt;
  older = (ground arith, tt);
  distinct = (tt, tt);
  covered = λ i. ground arith;
  fresh = ((ground arith, (tt, (tt, tt)), refl), tt);
  waiting = λ k. ground arith;
  forks = λ m. ground arith;
}

event_finished-WellWithout_example : WellWithout 7 (event_finished 7 daemon)
unfolding find_event
event_finished-WellWithout_example =
    event_finished-WellWithout 7 stopping_event daemon daemon-Well refl refl refl

job_change_goal-KeepsCounts_example :
    KeepsCounts
      (ctx job_start job_running main_pid)
      (job_change_goal job_stop (ctx job_start job_running main_pid))
job_change_goal-KeepsCounts_example =
    job_change_goal-KeepsCounts job_stop (ctx job_start job_running main_pid) refl
