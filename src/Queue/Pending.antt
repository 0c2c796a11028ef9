-- ===== src/Queue/Pending.antt =====
-- What an event does when its turn comes (event_pending and event_pending_handle_jobs of
-- init/event.c): it stops instances of each class and starts one (job_class_induct_job of
-- init/job_class.c, job_new of init/job.c, event_operator_fds of init/event_operator.c).
pub mod Ready
pub mod Started
pub mod Stopped
pub mod Trees
pub mod Made
pub mod Inducted
pub mod Classes
pub mod Passed
pub mod Met
pub mod Listed
use mathlib.Core.Option
use feature_d.Base.{
  ℕ, suc, ◌==◌, Bool, true, false, not, ◌&&◌, if◌then◌else◌, is_some, Bytes, codes, same, Option,
  none, some, List, [], ◌∷◌, ◌++◌,
}
use feature_d.Process.{fill}
use feature_d.Environ.{Env, environ_add, environ_append}
use feature_d.Environ.Expand.{Expanded, failed, expanded, fuel, environ_expand}
use feature_d.Event.{EventProgress, pending, handling, Event, Events, find_event, update_event}
use feature_d.EventOperator.{
  EventOperator, value, Handled, Tree, add_name, true_events, event_operator_handle,
  event_operator_copy, event_operator_reset, event_operator_environment,
}
use feature_d.Registry.{ClassEntry, Registry, option_is}
use feature_d.Job.{Job, job_start, job_stop, job_waiting, goal_is, ℤ, pos, trace_none}
use feature_d.Job.Machine.{M, Ctx, World, ◌>>◌, Output, instance_added}
use feature_d.Job.Finished.{job_finished}
use feature_d.Job.Change.{job_change_goal}
use feature_d.Job.StopOn.{block_tree, handle_stop_on}
use feature_d.Queue.{Class, Daemon, class_tree, run_on}

unfoldable pub find_of : ℕ → List Class → Option Class
find_of i [] = none
find_of i (c ∷ cs) = if c.job_class.id == i then some c else find_of i cs

unfoldable pub put_tree : ℕ → EventOperator → List Class → List Class
put_tree i t [] = []
put_tree i t (c ∷ cs) =
    if c.job_class.id == i then record c { start_on = some t } ∷ cs else c ∷ put_tree i t cs

-- The `start on` of a class and the queue after an operation on the tree.
abbrev pub with_start_on : ℕ → EventOperator → Events → Daemon → Daemon
with_start_on i t es dm = record dm {
  classes = put_tree i t dm.classes;
  world = record dm.world { events = es };
}

-- `job_class_environment`, with the table of init/job_class.c.
unfoldable pub job_class_environment : (Bytes → Option Bytes) → Env → Env → Env
job_class_environment getenv job_environ env =
    environ_append getenv (environ_append getenv [] true job_environ) true env

abbrev pub copied : Option EventOperator → Events → Option EventOperator × Events
copied none es = (none, es)
copied (some t) es = let (u, es') = event_operator_copy t es in (some u, es')

-- What `job_new` fills in.
abbrev pub new_job : ℕ → Class → Bytes → Option EventOperator → Job
new_job k c name t = record {
  id = k;
  name = name;
  class = c.job_class;
  goal = job_stop;
  state = job_waiting;
  env = [];
  start_env = none;
  stop_env = none;
  stop_on = t;
  pid = fill 0;
  blocker = none;
  blocking = [];
  kill_timer = none;
  kill_process = none;
  failed = false;
  failed_process = none;
  exit_status = pos 0;
  respawn_time = 0;
  respawn_count = 0;
  trace_forks = 0;
  trace_state = trace_none;
  process_data = fill none;
}

-- `nih_hash_add` on the instances of a class.
unfoldable pub enlist : ℕ → ℕ → List ClassEntry → List ClassEntry
enlist k i [] = []
enlist k i (c ∷ cs) =
    if c.id == i then record c { instances = k ∷ c.instances } ∷ cs else c ∷ enlist k i cs

-- The new job has the number `next_job`, and stands first.
unfoldable pub job_new : Class → Bytes → Daemon → Daemon
unfolding enlist
job_new c name dm =
    let (t, es) = copied c.stop_on dm.world.events in
    let reg = dm.world.registry in
    record dm {
      jobs = new_job dm.next_job c name t ∷ dm.jobs;
      next_job = suc dm.next_job;
      world = record dm.world {
        events = es;
        registry = record reg { classes = enlist dm.next_job c.job_class.id reg.classes };
        out = instance_added dm.next_job ∷ dm.world.out;
      };
    }

-- The instance of a class with a name.
unfoldable pub find_instance : ℕ → Bytes → List Job → Option Job
unfolding same
find_instance i name [] = none
find_instance i name (j ∷ js) =
    if j.class.id == i && same j.name name then some j else find_instance i name js

abbrev pub add_fd : (ℤ → Bytes) → Option ℕ → Bytes → Bytes
add_fd decimal none text = text
add_fd decimal (some n) text = add_name text (decimal (pos n))

-- The loop of `event_operator_fds`: the list of numbers behind its `=`, empty where there are none.
unfoldable pub collect_fds : (ℤ → Bytes) → List ℕ → Events → Bytes → Option Bytes
unfolding add_name
collect_fds decimal [] es text = some text
collect_fds decimal (i ∷ is) es text = elim (find_event i es) [
  | none ↦ none
  | some e ↦ collect_fds decimal is es (add_fd decimal e.fd text)
]

abbrev pub fds_entry : (Bytes → Option Bytes) → Env → Bytes → Bytes → Env
fds_entry getenv env key [] = env
fds_entry getenv env key (c ∷ text) = environ_add getenv env true (key ++ (b'=' ∷ c ∷ text))

-- `event_operator_fds`, as far as it adds to the environment.
unfoldable pub event_operator_fds :
    (ℤ → Bytes) → (Bytes → Option Bytes) → EventOperator → Events → Env → Bytes → Option Env
unfolding collect_fds
event_operator_fds decimal getenv t es env key = elim (true_events t) [
  | none ↦ none
  | some is ↦ Option.map (λ text. fds_entry getenv env key text) (collect_fds decimal is es [])
]

abbrev pub fds_into : Option Env → M (Unit {0})
fds_into none c = none
fds_into (some env) c = some (tt, record c { job = record c.job { start_env = some env } })

abbrev pub fds_of : EventOperator → Option Env → World → Option Env
fds_of t none w = none
fds_of t (some env) w =
    event_operator_fds w.sys.decimal w.sys.getenv t w.events env (codes "UPSTART_FDS")

abbrev pub add_fds : EventOperator → M (Unit {0})
add_fds t c = fds_into (fds_of t c.job.start_env c.world) c

-- The job is started with the environment, unless it is to start already.
unfoldable pub start_job : EventOperator → Env → M (Unit {0})
unfolding event_operator_fds
start_job t env c =
    if goal_is c.job.goal job_start
    then some (tt, c)
    else (job_finished false >> add_fds t >> block_tree t >> job_change_goal job_start)
        (record c { job = record c.job { start_env = some env } })

abbrev pub class_reset : ℕ → Bool → Daemon → Option Tree → Option (Bool × Daemon)
class_reset i b dm none = none
class_reset i b dm (some (t, es)) = some (b, with_start_on i t es dm)

-- The call of event_operator_reset on the `start on` of a class; it asserts that there is a tree.
abbrev pub reset_held_class : ℕ → Bool → Option EventOperator → Daemon → Option (Bool × Daemon)
reset_held_class i b none dm = none
reset_held_class i b (some t) dm = class_reset i b dm (event_operator_reset t dm.world.events)

abbrev pub reset_class : ℕ → Bool → Option Daemon → Option (Bool × Daemon)
reset_class i b none = none
reset_class i b (some dm) = reset_held_class i b (class_tree i dm.classes) dm

-- The number of the instance, which is made where there is none.
abbrev pub instance_of : Class → Bytes → Daemon → Option Job → ℕ × Daemon
instance_of c name dm none = (dm.next_job, job_new c name dm)
instance_of c name dm (some j) = (j.id, dm)

abbrev pub induct_named :
    Class → EventOperator → Env → Daemon → Expanded Bytes → Option (Bool × Daemon)
induct_named c t env dm (failed e) = reset_class c.job_class.id false (some dm)
induct_named c t env dm fuel = none
induct_named c t env dm (expanded name) =
    let (k, d) = instance_of c name dm (find_instance c.job_class.id name dm.jobs) in
    reset_class c.job_class.id true (run_on (start_job t env) k d)

abbrev pub induct_with : Class → EventOperator → Daemon → Option Env → Option (Bool × Daemon)
induct_with c t dm none = none
induct_with c t dm (some env) = induct_named c t env dm (environ_expand c.instance env)

-- `job_class_induct_job`, on a class with the tree `t`; false where the name of the instance
-- cannot be found.
unfoldable pub job_class_induct_job : Class → EventOperator → Daemon → Option (Bool × Daemon)
unfolding job_class_environment job_new find_instance start_job
job_class_induct_job c t dm =
    let getenv = dm.world.sys.getenv in
    induct_with c t dm (
      event_operator_environment getenv t dm.world.events
        (job_class_environment getenv dm.job_environ c.env) (some (codes "UPSTART_EVENTS")))

abbrev pub start_handled : Class → Daemon → Option Handled → Option (Bool × Daemon)
start_handled c dm none = none
start_handled c dm (some h) =
    let d = with_start_on c.job_class.id h.oper h.events dm in
    if h.matched && value h.oper then job_class_induct_job c h.oper d else some (true, d)

abbrev pub handle_tree :
    (Bytes → Bytes → Bool) → Event → Class → Option EventOperator → Daemon → Option (Bool × Daemon)
handle_tree fnmatch event c none dm = some (true, dm)
handle_tree fnmatch event c (some t) dm =
    start_handled c dm (event_operator_handle fnmatch t event [] dm.world.events)

-- The numbers of the instances of a class.
unfoldable pub instances : ℕ → List Job → List ℕ
instances i [] = []
instances i (j ∷ js) = if j.class.id == i then j.id ∷ instances i js else instances i js

unfoldable pub stop_instances : (Bytes → Bytes → Bool) → Event → List ℕ → Daemon → Option Daemon
stop_instances fnmatch event [] dm = some dm
stop_instances fnmatch event (k ∷ ks) dm = elim (run_on (handle_stop_on fnmatch event) k dm) [
  | none ↦ none
  | some d ↦ stop_instances fnmatch event ks d
]

abbrev pub other_session : Option ℕ → Option ℕ → Bool
other_session none s = false
other_session (some e) s = not (option_is s (some e))

-- One round of the loop over the classes; false where the loop is left.
unfoldable pub handle_class :
    (Bytes → Bytes → Bool) → Event → Class → Daemon → Option (Bool × Daemon)
unfolding stop_instances instances job_class_induct_job
handle_class fnmatch event c dm =
    if other_session event.session c.job_class.session
    then some (true, dm)
    else elim (stop_instances fnmatch event (instances c.job_class.id dm.jobs) dm) [
      | none ↦ none
      | some d ↦ handle_tree fnmatch event c (class_tree c.job_class.id d.classes) d
    ]

abbrev pub handle_found :
    (Bytes → Bytes → Bool) → Event → Option Class → Daemon → Option (Bool × Daemon)
handle_found fnmatch event none dm = none
handle_found fnmatch event (some c) dm = handle_class fnmatch event c dm

unfoldable pub handle_classes : (Bytes → Bytes → Bool) → Event → List ℕ → Daemon → Option Daemon
unfolding handle_class find_of
handle_classes fnmatch event [] dm = some dm
handle_classes fnmatch event (i ∷ is) dm =
    elim (handle_found fnmatch event (find_of i dm.classes) dm) [
      | none ↦ none
      | some (b, d) ↦ elim b [ false ↦ some d | true ↦ handle_classes fnmatch event is d ]
    ]

abbrev pub is_pending : EventProgress → Bool
is_pending pending = true
is_pending p = false

abbrev pub pending_found : ℕ → Option Event → Daemon → Option Daemon
pending_found i none dm = none
pending_found i (some e) dm =
    let es = update_event i (λ v. record v { progress = handling }) dm.world.events in
    let d = record dm { world = record dm.world { events = es } } in
    if is_pending e.progress
    then handle_classes dm.world.sys.fnmatch e dm.world.registry.registered d
    else none

-- `event_pending` of the event with a number.
unfoldable pub event_pending : ℕ → Daemon → Option Daemon
unfolding handle_classes
event_pending i dm = pending_found i (find_event i dm.world.events) dm
