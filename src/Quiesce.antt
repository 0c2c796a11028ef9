-- ===== src/Quiesce.antt =====
-- init/quiesce.c: the end of a session init, and the calls that it makes of init/job_process.c
-- (job_process_jobs_running) and init/job_class.c (job_class_max_kill_timeout). The messages are not
-- translated. The clock is read once in a call.
pub mod Steps
pub mod Ends
use feature_d.Base.{
  ℕ, suc, ◌+◌, ◌-◌, ◌==◌, ltb, leb, Bool, true, false, not, ◌&&◌, ◌||◌, if◌then◌else◌, Bytes, codes,
  Option, none, some, List, [], ◌∷◌,
}
use feature_d.Environ.{Env, environ_set}
use feature_d.Process.{Table}
use feature_d.Event.{Event, pending}
use feature_d.EventOperator.{EventOperator, gate, leaf, event_operator_match}
use feature_d.Job.{Job}

pub data QuiesceRequester : Type 0 where
  requester_system requester_session : QuiesceRequester

pub data QuiescePhase : Type 0 where
  not_quiesced phase_wait phase_kill phase_cleanup : QuiescePhase

-- The variables of the file. `stops` counts the calls of job_process_stop_all, `timer` is whether the
-- periodic timer is there, `event` the environment of the event that was emitted, and `finalising`
-- whether the main loop has been told to exit.
pub record Quiesce : Type 0 where
  pub phase : QuiescePhase
  pub requester : Option QuiesceRequester
  pub start_time : ℕ
  pub phase_time : ℕ
  pub max_kill_timeout : ℕ
  pub session_end_jobs : Bool
  pub disable_respawn : Bool
  pub timer : Bool
  pub finalising : Bool
  pub stops : ℕ
  pub event : Option Env

-- The jobs of all classes as a call finds them, the jobs as job_process_stop_all leaves them where
-- the call makes it, and the `start on` of each class.
pub record Seen : Type 0 where
  pub jobs : List Job
  pub stopped : List Job
  pub start_ons : List (Option EventOperator)

abbrev pub any_pid : Table ℕ → Bool
any_pid t =
    not (t.main_slot == 0)
    || not (t.pre_start_slot == 0)
    || not (t.post_start_slot == 0)
    || not (t.pre_stop_slot == 0)
    || not (t.post_stop_slot == 0)
    || not (t.security_slot == 0)

unfoldable pub job_process_jobs_running : List Job → Bool
job_process_jobs_running [] = false
job_process_jobs_running (j ∷ js) = any_pid j.pid || job_process_jobs_running js

-- The greatest timeout of the classes that have a job; 5 is JOB_DEFAULT_KILL_TIMEOUT. The jobs of a
-- class share its timeout, so to look at all of them is to look at the first.
unfoldable pub greatest_timeout : ℕ → List Job → ℕ
greatest_timeout m [] = m
greatest_timeout m (j ∷ js) =
    greatest_timeout (if ltb m j.class.kill_timeout then j.class.kill_timeout else m) js

unfoldable pub job_class_max_kill_timeout : List Job → ℕ
unfolding greatest_timeout
job_class_max_kill_timeout js = greatest_timeout 5 js

abbrev or_else : Option Bool → Option Bool → Option Bool
or_else none r = none
or_else (some true) r = some true
or_else (some false) r = r

-- Some leaf of a tree matches the event.
unfoldable pub some_leaf_matches : (Bytes → Bytes → Bool) → EventOperator → Event → Option Bool
unfolding event_operator_match
some_leaf_matches fnmatch (leaf v name env ev) event =
    event_operator_match fnmatch name env event []
some_leaf_matches fnmatch (gate type v left right) event =
    or_else (some_leaf_matches fnmatch left event) (some_leaf_matches fnmatch right event)

unfoldable pub quiesce_event_match :
    (Bytes → Bytes → Bool) → List (Option EventOperator) → Event → Option Bool
unfolding some_leaf_matches
quiesce_event_match fnmatch [] event = some false
quiesce_event_match fnmatch (none ∷ ts) event = quiesce_event_match fnmatch ts event
quiesce_event_match fnmatch (some t ∷ ts) event =
    or_else (some_leaf_matches fnmatch t event) (quiesce_event_match fnmatch ts event)

abbrev pub reason : QuiesceRequester → Bytes
reason requester_system = codes "shutdown"
reason requester_session = codes "logout"

abbrev pub session_end : Env → Event
session_end env = record {
  id = 0;
  session = none;
  name = codes "session-end";
  env = env;
  fd = none;
  progress = pending;
  failed = false;
  blockers = 0;
  blocking = [];
}

-- The jobs are stopped, and the kill phase has its limit.
abbrev pub kill_phase : ℕ → Seen → Quiesce → Quiesce
kill_phase now seen q = record q {
  phase = phase_kill;
  phase_time = now;
  max_kill_timeout = job_class_max_kill_timeout seen.jobs;
  stops = q.stops + 1;
}

-- Jobs that start on the end of the session are waited for.
abbrev pub wait_phase : Quiesce → Quiesce
wait_phase q = record q { phase = phase_wait; session_end_jobs = true; stops = q.stops + 1 }

abbrev pub begun : QuiesceRequester → ℕ → Env → Quiesce → Quiesce
begun r now env q = record q {
  requester = some r;
  start_time = now;
  phase_time = now;
  disable_respawn = true;
  timer = true;
  event = some env;
}

unfoldable pub begin : QuiesceRequester → ℕ → Seen → Quiesce → Option Bool → Option Quiesce
begin requester_system now seen q m = some (kill_phase now seen q)
begin requester_session now seen q none = none
begin requester_session now seen q (some true) = some (wait_phase q)
begin requester_session now seen q (some false) =
    some (kill_phase now seen (record q { session_end_jobs = false }))

abbrev pub is_quiesced : QuiescePhase → Bool
is_quiesced not_quiesced = false
is_quiesced p = true

-- `none` is a failed assertion, here that an entry of the event has a value.
unfoldable pub quiesce :
    (Bytes → Option Bytes)
    → (Bytes → Bytes → Bool)
    → QuiesceRequester
    → ℕ
    → Seen
    → Quiesce
    → Option Quiesce
unfolding begin quiesce_event_match
quiesce getenv fnmatch r now seen q =
    let env = environ_set getenv [] true (codes "TYPE") (reason r) in
    if is_quiesced q.phase
    then some q
    else begin r now seen (begun r now env q)
        (quiesce_event_match fnmatch seen.start_ons (session_end env))

abbrev is_cleanup : QuiescePhase → Bool
is_cleanup phase_cleanup = true
is_cleanup p = false

abbrev pub quiesce_finalise : Quiesce → Option Quiesce
quiesce_finalise q =
    if q.start_time == 0 || not (is_cleanup q.phase)
    then none
    else some (record q { finalising = true })

abbrev pub finish : Quiesce → Option Quiesce
finish q = elim (quiesce_finalise (record q { phase = phase_cleanup })) [
  | none ↦ none
  | some p ↦ some (record p { timer = false })
]

abbrev finish_if : Bool → Quiesce → Option Quiesce
finish_if true q = finish q
finish_if false q = some q

-- The time of the wait phase is over, or nothing runs; 5 is QUIESCE_DEFAULT_JOB_RUNTIME.
abbrev wait_over : ℕ → Bool → Quiesce → Bool
wait_over now running q =
    leb 5 (now - q.phase_time) || (q.session_end_jobs && not running) || not running

unfoldable pub callback_phase : QuiescePhase → ℕ → Seen → Quiesce → Option Quiesce
unfolding job_process_jobs_running
callback_phase phase_kill now seen q =
    if q.max_kill_timeout == 0
    then none
    else if ltb q.max_kill_timeout (now - q.phase_time)
    then finish q
    else finish_if (not (job_process_jobs_running seen.jobs)) q
callback_phase phase_wait now seen q =
    if wait_over now (job_process_jobs_running seen.jobs) q
    then finish_if (not (job_process_jobs_running seen.stopped)) (kill_phase now seen q)
    else finish_if (not (job_process_jobs_running seen.jobs)) q
callback_phase p now seen q = none

-- The callback of the timer, once a second.
unfoldable pub quiesce_wait_callback : ℕ → Seen → Quiesce → Option Quiesce
unfolding callback_phase
quiesce_wait_callback now seen q =
    if q.phase_time == 0
    then none
    else elim q.requester [ none ↦ none | some r ↦ callback_phase q.phase now seen q ]

-- The calls of the timer, each with its time and what it finds; without the timer there are none.
pub record Tick : Type 0 where
  pub now : ℕ
  pub seen : Seen

unfoldable pub ticks : List Tick → Quiesce → Option Quiesce
unfolding quiesce_wait_callback
ticks [] q = some q
ticks (k ∷ ks) q =
    if q.timer
    then elim (quiesce_wait_callback k.now k.seen q) [ none ↦ none | some p ↦ ticks ks p ]
    else some q
