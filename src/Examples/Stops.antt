-- ===== src/Examples/Stops.antt =====
-- A running job whose `stop on startup` meets the event (init/event.c).
use feature_d.Base.{true, false, same, codes, none, some, [], refl, arith}
use feature_d.Event.{Event, pending, find_event, blockers_of}
use feature_d.EventOperator.{EventOperator, leaf, event_operator_match, match_env}
use feature_d.EventOperator.Values.{holds}
use feature_d.Job.{job_start, job_running}
use feature_d.Job.Machine.{Ctx, Ensures}
use feature_d.Job.Invariant.{Sound}
use feature_d.Job.StopOn.{handle_stop_on}
use feature_d.Job.StopOn.Taken.{Put-Sound, Tied, Watching}
use feature_d.Job.StopOn.Kept.{handle_stop_on-Watching}
use feature_d.Examples.Jobs.{ctx, running_Covered}
use feature_d.Examples.Handlers.{main_pid, running_Sound}

abbrev pub on_startup : EventOperator
on_startup = leaf false (codes "startup") [] none

abbrev pub startup : Event
startup = record {
  id = 7;
  session = none;
  name = codes "startup";
  env = [];
  fd = none;
  progress = pending;
  failed = false;
  blockers = 1;
  blocking = [];
}

abbrev pub daemon : Ctx
daemon =
    let c = ctx job_start job_running main_pid in
    record c { job = record c.job { stop_on = some on_startup } }

pub daemon-Sound : Sound daemon
daemon-Sound =
    let c = ctx job_start job_running main_pid in
    Put-Sound c none (some on_startup) c.job.blocking c.world running_Sound running_Covered
      running_Sound.around.forks

daemon-Tied : Tied on_startup daemon
unfolding blockers_of find_event
daemon-Tied = record { tree = refl; has = refl; counted = λ i. ground arith }

handle_stop_on-Watching_example : Ensures (λ _ d. Watching d) (handle_stop_on same startup daemon)
unfolding holds event_operator_match match_env blockers_of find_event same
handle_stop_on-Watching_example =
    handle_stop_on-Watching same startup on_startup daemon true daemon-Sound daemon-Tied refl
      (λ i. ground arith) refl
