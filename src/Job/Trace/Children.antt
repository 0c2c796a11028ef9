-- ===== src/Job/Trace/Children.antt =====
-- The event of a child process, and the job that it belongs to: job_process_handler and
-- job_process_find of init/job_process.c.
use feature_d.Base.{ℕ, ◌*◌, ◌==◌, ltb, false, if◌then◌else◌, Option, none, some, List, [], ◌∷◌}
use feature_d.Process.{
  Table, ProcessType, main, pre_start, post_start, pre_stop, post_stop, security,
}
use feature_d.Job.{Job, TraceState, trace_new, trace_new_child}
use feature_d.Job.Machine.{M, Ctx, World}
use feature_d.Job.Ended.{job_process_terminated, job_process_stopped}
use feature_d.Job.Trace.{
  Tracer, job_process_trace_new, job_process_trace_new_child, job_process_trace_signal,
  job_process_trace_fork, job_process_trace_exec,
}

-- NihChildEvents
pub data ChildEvent : Type 0 where
  child_exited child_killed child_dumped child_stopped child_continued child_trapped child_ptrace :
      ChildEvent

-- 5 is SIGTRAP, 19 is SIGSTOP.
unfoldable pub child_trap : Tracer → ProcessType → ℕ → TraceState → M (Unit {0})
unfolding job_process_trace_new job_process_trace_new_child job_process_trace_signal
child_trap t p status trace_new c =
    if status == 5 then job_process_trace_new t p c else job_process_trace_signal p status c
child_trap t p status trace_new_child c =
    if status == 19 then job_process_trace_new_child t p c else job_process_trace_signal p status c
child_trap t p status s c = job_process_trace_signal p status c

-- The `switch` of `job_process_handler`; 1 is PTRACE_EVENT_FORK, 4 is PTRACE_EVENT_EXEC.
unfoldable pub child_event : Tracer → ProcessType → ChildEvent → ℕ → M (Unit {0})
unfolding job_process_terminated job_process_stopped child_trap job_process_trace_fork
    job_process_trace_exec
child_event t p child_exited status c = job_process_terminated p status false c
child_event t p child_killed status c = job_process_terminated p (status * 256) false c
child_event t p child_dumped status c = job_process_terminated p (status * 256) false c
child_event t p child_stopped status c =
    if status == 19 then job_process_stopped p c else some (tt, c)
child_event t p child_continued status c = some (tt, c)
child_event t p child_trapped status c = child_trap t p status c.job.trace_state c
child_event t p child_ptrace status c =
    if status == 1
    then job_process_trace_fork t p c
    else if status == 4
    then job_process_trace_exec p c
    else none

-- The slots of a job's table, in the order of the enumeration.
unfoldable pub find_slot : ℕ → Table ℕ → Option ProcessType
find_slot pid t =
    if t.main_slot == pid
    then some main
    else if t.pre_start_slot == pid
    then some pre_start
    else if t.post_start_slot == pid
    then some post_start
    else if t.pre_stop_slot == pid
    then some pre_stop
    else if t.post_stop_slot == pid
    then some post_stop
    else if t.security_slot == pid
    then some security
    else none

-- The jobs of all classes, in the order of the tables.
unfoldable pub job_process_find : ℕ → List Job → Option (Job × ProcessType)
unfolding find_slot
job_process_find pid [] = none
job_process_find pid (j ∷ js) = elim (find_slot pid j.pid) [
  | some p ↦ some (j, p)
  | none ↦ job_process_find pid js
]

-- The job and the daemon after it, or nothing where no job has the process.
unfoldable pub job_process_handler :
    Tracer → ℕ → ChildEvent → ℕ → List Job → World → Option (Option Ctx)
unfolding job_process_find child_event
job_process_handler t pid event status jobs w =
    if ltb 0 pid
    then elim (job_process_find pid jobs) [
      | none ↦ some none
      | some (j, p) ↦
          elim (child_event t p event status (record { job = j; world = w; freed = false })) [
            | none ↦ none
            | some (u, d) ↦ some (some d)
          ]
    ]
    else none
