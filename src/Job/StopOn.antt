-- ===== src/Job/StopOn.antt =====
-- What an event does to the `stop on` of one job: the inner loop of event_pending_handle_jobs of
-- init/event.c.
pub mod Taken
pub mod Kept
use feature_d.Base.{
  ◌&&◌, Bool, true, false, if◌then◌else◌, Bytes, codes, Option, none, some, List, [],
}
use feature_d.Environ.{Env}
use feature_d.Event.{Event, Events, Blocked}
use feature_d.EventOperator.{
  EventOperator, value, Handled, Tree, event_operator_handle, event_operator_reset,
  event_operator_environment, event_operator_events,
}
use feature_d.Job.{job_stop, goal_is}
use feature_d.Job.Machine.{M, Ctx, ◌>>◌}
use feature_d.Job.Finished.{job_finished}
use feature_d.Job.Change.{job_change_goal}

abbrev pub with_tree : EventOperator → Events → Ctx → Ctx
with_tree t es c = record c {
  job = record c.job { stop_on = some t };
  world = record c.world { events = es };
}

abbrev pub blocked_by : Option (List Blocked × Events) → M (Unit {0})
blocked_by none c = none
blocked_by (some (bs, es)) c =
    some (
      tt,
      record c { job = record c.job { blocking = bs }; world = record c.world { events = es } },
    )

-- The call of event_operator_events.
abbrev pub block_tree : EventOperator → M (Unit {0})
block_tree t c = blocked_by (event_operator_events t c.job.blocking c.world.events) c

abbrev pub reset_answer : Option Tree → M (Unit {0})
reset_answer none c = none
reset_answer (some (t, es)) c = some (tt, with_tree t es c)

-- The call of event_operator_reset; it asserts that there is a tree.
abbrev pub reset_held : Option EventOperator → M (Unit {0})
reset_held none c = none
reset_held (some t) c = reset_answer (event_operator_reset t c.world.events) c

abbrev pub reset_tree : M (Unit {0})
reset_tree c = reset_held c.job.stop_on c

abbrev pub stop_with : Option Env → EventOperator → M (Unit {0})
stop_with none t c = none
stop_with (some env) t c =
    (job_finished false >> block_tree t >> job_change_goal job_stop)
      (record c { job = record c.job { stop_env = some env } })

-- The job gets the environment of the events that stop it, and blocks them in place of what it
-- blocked.
abbrev pub take_stop_events : EventOperator → M (Unit {0})
take_stop_events t c =
    let key = some (codes "UPSTART_STOP_EVENTS") in
    stop_with (event_operator_environment c.world.sys.getenv t c.world.events [] key) t c

unfoldable pub stop_on_true : EventOperator → M (Unit {0})
stop_on_true t c =
    if goal_is c.job.goal job_stop then reset_tree c else (take_stop_events t >> reset_tree) c

abbrev pub stop_handled : Option Handled → M (Unit {0})
stop_handled none c = none
stop_handled (some h) c =
    let d = with_tree h.oper h.events c in
    if h.matched && value h.oper then stop_on_true h.oper d else some (tt, d)

unfoldable pub handle_stop_on : (Bytes → Bytes → Bool) → Event → M (Unit {0})
unfolding stop_on_true
handle_stop_on fnmatch event c = elim c.job.stop_on [
  | none ↦ some (tt, c)
  | some t ↦ stop_handled (event_operator_handle fnmatch t event c.job.env c.world.events) c
]
