-- ===== src/Job/Change.antt =====
-- `job_change_goal`, `job_change_state` and `job_next_state` of init/job.c.
pub mod Phases
pub mod Settles
pub mod Spawns
pub mod Rests
pub mod Ends
pub mod Advance
pub mod Released
pub mod Handlers
pub mod Quiet
pub mod Moves
pub mod Entered
pub mod Ledger
use feature_d.Base.{
  ℕ, zero, suc, ◌==◌, ltb, Bool, true, false, not, ◌&&◌, ◌||◌, if◌then◌else◌, is_some, Option, none,
  some, List, [], ◌∷◌,
}
use feature_d.Environ.{Env}
use feature_d.Process.{
  Table, get, set, ProcessType, main, pre_start, post_start, pre_stop, post_stop, security,
}
use feature_d.Registry.{Registry, ClassEntry, find_class, remove_id, job_class_reconsider}
use feature_d.Job.{
  Job, JobClass, pos, JobGoal, job_stop, job_start, job_respawn, JobState, job_waiting,
  job_starting, job_security_spawning, job_security, job_pre_starting, job_pre_start, job_spawning,
  job_spawned, job_post_starting, job_post_start, job_running, job_pre_stopping, job_pre_stop,
  job_stopping, job_killed, job_post_stopping, job_post_stop, state_is, goal_is,
}
use feature_d.Job.Machine.{
  World, goal_changed, state_changed, instance_removed, M, Ctx, ◌>>=◌, ◌>>◌, pure, assert,
  modify_job, modify_world, send,
}
use feature_d.Job.Finished.{job_finished, job_emit_event}
use feature_d.Job.Start.{job_process_start, job_process_kill}

-- The `switch` of `job_change_goal`; `advance` is the call that moves the job to its next state.
abbrev pub goal_moves : M (Unit {0}) → JobGoal → M (Unit {0})
goal_moves advance job_start c =
    if state_is c.job.state job_waiting then advance c else some (tt, c)
goal_moves advance job_stop c = if state_is c.job.state job_running then advance c else some (tt, c)
goal_moves advance job_respawn c = some (tt, c)

unfoldable pub change_goal_by : M (Unit {0}) → JobGoal → M (Unit {0})
change_goal_by advance goal c =
    if goal_is c.job.goal goal
    then some (tt, c)
    else goal_moves advance goal (record c {
      job = record c.job { goal = goal };
      world = record c.world { out = goal_changed c.job.id goal ∷ c.world.out };
    })

abbrev pub stop_or_start : JobGoal → JobState → JobState → M JobState
stop_or_start job_stop stop start c = some (stop, c)
stop_or_start job_start stop start c = some (start, c)
stop_or_start job_respawn stop start c = none

-- In `post-start` and `pre-stop` a respawn turns into a start. The job is not waiting then, so the
-- change of goal moves it no further.
abbrev pub after_respawn : JobGoal → JobState → JobState → M JobState
after_respawn job_stop stop start c = some (stop, c)
after_respawn job_start stop start c = some (start, c)
after_respawn job_respawn stop start c = elim (change_goal_by (λ d. none) job_start c) [
  | none ↦ none
  | some (u, d) ↦ some (job_stopping, d)
]

abbrev pub has_process : Job → ProcessType → Bool
has_process j p = is_some (get j.class.process p)

abbrev pub is_running : Job → ProcessType → Bool
is_running j p = ltb 0 (get j.pid p)

abbrev stop_running : Job → JobState
stop_running j = if has_process j main && is_running j main then job_pre_stopping else job_stopping

next_of : JobState → JobGoal → M JobState
unfolding change_goal_by
next_of job_waiting job_start c = some (job_starting, c)
next_of job_waiting g c = none
next_of job_starting g c = stop_or_start g job_stopping job_security_spawning c
next_of job_security_spawning g c = stop_or_start g job_stopping job_security c
next_of job_security g c = stop_or_start g job_stopping job_pre_starting c
next_of job_pre_starting g c = stop_or_start g job_stopping job_pre_start c
next_of job_pre_start g c = stop_or_start g job_stopping job_spawning c
next_of job_spawning g c = stop_or_start g job_stopping job_spawned c
next_of job_spawned g c = stop_or_start g job_stopping job_post_starting c
next_of job_post_starting g c = stop_or_start g job_stopping job_post_start c
next_of job_post_start g c = after_respawn g job_stopping job_running c
next_of job_running g c = stop_or_start g (stop_running c.job) job_stopping c
next_of job_pre_stopping g c = stop_or_start g job_pre_stop job_pre_stop c
next_of job_pre_stop g c = after_respawn g job_stopping job_running c
next_of job_stopping g c = stop_or_start g job_killed job_killed c
next_of job_killed g c = stop_or_start g job_post_stopping job_post_stopping c
next_of job_post_stopping g c = stop_or_start g job_post_stop job_post_stop c
next_of job_post_stop g c = stop_or_start g job_waiting job_starting c

unfoldable pub job_next_state : M JobState
unfolding next_of
job_next_state c = next_of c.job.state c.job.goal c

-- What is assumed of the state before, on entering a state.
abbrev pub may_follow : JobState → JobState → Bool
may_follow old job_starting = state_is old job_waiting || state_is old job_post_stop
may_follow old job_security_spawning = state_is old job_starting
may_follow old job_security = state_is old job_security_spawning
may_follow old job_pre_starting = state_is old job_security
may_follow old job_pre_start = state_is old job_pre_starting
may_follow old job_spawning = state_is old job_pre_start
may_follow old job_spawned = state_is old job_spawning
may_follow old job_post_starting = state_is old job_spawned
may_follow old job_post_start = state_is old job_post_starting
may_follow old job_running = state_is old job_post_start || state_is old job_pre_stop
may_follow old job_pre_stopping = state_is old job_running
may_follow old job_pre_stop = state_is old job_pre_stopping
may_follow old job_stopping =
    state_is old job_starting
    || state_is old job_pre_starting
    || state_is old job_pre_start
    || state_is old job_security
    || state_is old job_spawned
    || state_is old job_post_start
    || state_is old job_running
    || state_is old job_pre_stop
may_follow old job_killed = state_is old job_stopping
may_follow old job_post_stopping = state_is old job_killed
may_follow old job_post_stop = state_is old job_post_stopping
may_follow old job_waiting = state_is old job_post_stop || state_is old job_starting

-- The goal that is assumed on entering a state.
abbrev pub goal_allows : JobGoal → JobState → Bool
goal_allows g job_starting = goal_is g job_start
goal_allows g job_security_spawning = goal_is g job_start
goal_allows g job_security = goal_is g job_start
goal_allows g job_pre_starting = goal_is g job_start
goal_allows g job_pre_start = goal_is g job_start
goal_allows g job_spawning = goal_is g job_start
goal_allows g job_spawned = goal_is g job_start
goal_allows g job_post_starting = goal_is g job_start
goal_allows g job_post_start = goal_is g job_start
goal_allows g job_running = goal_is g job_start
goal_allows g job_pre_stopping = goal_is g job_stop
goal_allows g job_pre_stop = goal_is g job_stop
goal_allows g job_stopping = true
goal_allows g job_killed = true
goal_allows g job_post_stopping = true
goal_allows g job_post_stop = true
goal_allows g job_waiting = goal_is g job_stop

-- Start the process if there is one, and go on at once; or stay where the process runs.
start_and_next : ProcessType → Bool → M JobState
unfolding job_next_state
start_and_next p wanted c =
    if wanted
    then elim (job_process_start p c) [ none ↦ none | some (u, d) ↦ job_next_state d ]
    else job_next_state c

stay_or_next : Bool → JobState → M JobState
unfolding job_next_state
stay_or_next wanted s c = if wanted then some (s, c) else job_next_state c

abbrev swap_env : Option Env → Env → Env
swap_env none env = env
swap_env (some start) env = start

-- A job that is about to start: a clean record, and the environment given for this start.
abbrev pub fresh_start : Job → Job
fresh_start j = record j {
  env = swap_env j.start_env j.env;
  start_env = none;
  stop_env = none;
  failed = false;
  failed_process = none;
  exit_status = pos 0;
}

emit_and_wait : M (Unit {0})
unfolding job_emit_event
emit_and_wait c = elim (job_emit_event c) [
  | none ↦ none
  | some (i, d) ↦ some (tt, record d { job = record d.job { blocker = some i } })
]

-- A job that runs again after `pre-stop` has answered its stop; one that has started for the first
-- time answers its start, unless it is a task.
enter_running : JobState → M (Unit {0})
unfolding job_emit_event job_finished
enter_running old c =
    if state_is old job_pre_stop
    then job_finished false (record c { job = record c.job { stop_env = none } })
    else elim (job_emit_event c) [
      | none ↦ none
      | some (i, d) ↦ if d.job.class.task then some (tt, d) else job_finished false d
    ]

kill_or_next : M JobState
unfolding job_process_kill job_next_state
kill_or_next c =
    if has_process c.job main && is_running c.job main
    then elim (job_process_kill main c) [ none ↦ none | some (u, d) ↦ some (job_killed, d) ]
    else job_next_state c

abbrev unlist : ℕ → ℕ → List ClassEntry → List ClassEntry
unlist job class [] = []
unlist job class (c ∷ cs) =
    if c.id == class
    then record c { instances = remove_id job c.instances } ∷ cs
    else c ∷ unlist job class cs

abbrev free_class : ℕ → List ClassEntry → List ClassEntry
free_class class [] = []
free_class class (c ∷ cs) = if c.id == class then cs else c ∷ free_class class cs

is_deleted : Option ClassEntry → Bool
is_deleted none = false
is_deleted (some e) = e.deleted

-- The end of a job: it leaves its class, which is freed if it was only kept for the job. That
-- `nih_free (class)` frees what other instances the class has is left out.
pub leave_class : Ctx → Ctx
unfolding job_class_reconsider is_deleted find_class remove_id
leave_class c =
    let class = c.job.class in
    let reg = record c.world.registry {
      classes = unlist c.job.id class.id c.world.registry.classes;
    } in
    let (unused, reg') = job_class_reconsider class.id class.name class.session reg in
    if is_deleted (find_class class.id reg'.classes) && unused
    then record c {
      world = record c.world {
        registry = record reg' { classes = free_class class.id reg'.classes };
      };
      freed = true;
    }
    else record c {
      world = record c.world { registry = reg'; out = instance_removed c.job.id ∷ c.world.out };
      freed = true;
    }

enter_waiting : M (Unit {0})
unfolding job_emit_event job_finished leave_class
enter_waiting c = elim (job_emit_event c) [
  | none ↦ none
  | some (i, d) ↦ elim (job_finished false d) [
    | none ↦ none
    | some (u, e) ↦ some (tt, leave_class e)
  ]
]

-- The `switch` of `job_change_state`, for the state just entered: the state to go on to.
enter : JobState → JobState → M JobState
unfolding start_and_next stay_or_next emit_and_wait enter_running kill_or_next enter_waiting
enter old job_starting c =
    (emit_and_wait >> pure job_starting) (record c { job = fresh_start c.job })
enter old job_security_spawning c =
    start_and_next security (has_process c.job security && c.world.apparmor) c
enter old job_security c =
    stay_or_next (has_process c.job security && c.world.apparmor) job_security c
enter old job_pre_starting c = start_and_next pre_start (has_process c.job pre_start) c
enter old job_pre_start c = stay_or_next (has_process c.job pre_start) job_pre_start c
enter old job_spawning c = start_and_next main (has_process c.job main) c
enter old job_spawned c = stay_or_next (has_process c.job main) job_spawned c
enter old job_post_starting c = start_and_next post_start (has_process c.job post_start) c
enter old job_post_start c = stay_or_next (has_process c.job post_start) job_post_start c
enter old job_running c = (enter_running old >> pure job_running) c
enter old job_pre_stopping c = start_and_next pre_stop (has_process c.job pre_stop) c
enter old job_pre_stop c = stay_or_next (has_process c.job pre_stop) job_pre_stop c
enter old job_stopping c = (emit_and_wait >> pure job_stopping) c
enter old job_killed c = kill_or_next c
enter old job_post_stopping c = start_and_next post_stop (has_process c.job post_stop) c
enter old job_post_stop c = stay_or_next (has_process c.job post_stop) job_post_stop c
enter old job_waiting c = (enter_waiting >> pure job_waiting) c

-- One round of the loop of `job_change_state`, to the state `s`.
pub change_round : JobState → M JobState
unfolding enter
change_round s c =
    if goal_allows c.job.goal s && may_follow c.job.state s
    then enter c.job.state s (record c {
      job = record c.job { state = s };
      world = record c.world { out = state_changed c.job.id s ∷ c.world.out };
    })
    else none

-- The loop of `job_change_state`, for a number of rounds; `none` also where that is used up.
unfoldable pub change_state_loop : ℕ → JobState → M (Unit {0})
unfolding change_round
change_state_loop zero s c = none
change_state_loop (suc n) s c =
    let round = (change_round s >>= change_state_loop n) c in
    if state_is c.job.state s
    then some (tt, c)
    else if is_some c.job.blocker
    then some (tt, c)
    else round

-- The longest way, from `starting` to `running`, takes nine rounds and one more look.
abbrev pub rounds : ℕ
rounds = 12

unfoldable pub job_change_state : JobState → M (Unit {0})
unfolding change_state_loop
job_change_state s = change_state_loop rounds s

-- `job_change_state (job, job_next_state (job))`.
unfoldable pub job_advance : M (Unit {0})
unfolding job_next_state job_change_state
job_advance = job_next_state >>= job_change_state

unfoldable pub job_change_goal : JobGoal → M (Unit {0})
unfolding change_goal_by job_advance
job_change_goal = change_goal_by job_advance

-- What `event_finished` (init/event.c) does for a job that the event blocked.
unfoldable pub event_released : M (Unit {0})
unfolding job_advance
event_released c = job_advance (record c { job = record c.job { blocker = none } })
