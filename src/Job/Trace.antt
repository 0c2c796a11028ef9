-- ===== src/Job/Trace.antt =====
-- The trace of a process that is expected to fork, in init/job_process.c. The log is left out.
pub mod Children
pub mod Spawned
pub mod Kept
pub mod Found
use feature_d.Base.{
  ℕ, ◌+◌, ◌*◌, ◌==◌, ltb, Bool, true, false, not, ◌&&◌, ◌||◌, if◌then◌else◌, Option, none, some,
  List, [], ◌∷◌,
}
use feature_d.Process.{
  Table, ProcessType, get, set, main, pre_start, post_start, pre_stop, post_stop, security,
}
use feature_d.Job.{
  Job, JobState, job_spawning, job_spawned, state_is, ExpectType, expect_none, expect_stop,
  expect_daemon, expect_fork, TraceState, trace_none, trace_new, trace_new_child, trace_normal,
}
use feature_d.Job.Machine.{M, Ctx, World, Output, trace_continued, trace_detached}
use feature_d.Job.Start.{is_main}
use feature_d.Job.Change.{job_advance}
use feature_d.Job.Ended.{job_process_terminated, job_process_stopped}

-- What `ptrace` answers: whether the options cannot be set for a process, and the child that a
-- process has forked. Whether a process can be continued or let go changes nothing but the log.
pub record Tracer : Type 0 where
  pub set_options_fails : ℕ → ℕ → Bool
  pub new_child : ℕ → Option ℕ

-- The main process of a job that waits for it.
abbrev pub is_watched : ProcessType → JobState → Bool
is_watched p s = is_main p && (state_is s job_spawning || state_is s job_spawned)

abbrev pub is_new : TraceState → Bool
is_new trace_none = false
is_new trace_new = true
is_new trace_new_child = true
is_new trace_normal = false

abbrev pub is_normal : TraceState → Bool
is_normal trace_none = false
is_normal trace_new = false
is_normal trace_new_child = false
is_normal trace_normal = true

-- The trace of a job, and the call of `ptrace` that goes with it.
abbrev pub traced : ℕ → TraceState → Output → Ctx → Ctx
traced forks state o c = record c {
  job = record c.job { trace_forks = forks; trace_state = state };
  world = record c.world { out = o ∷ c.world.out };
}

-- 18 is PTRACE_O_TRACEFORK and PTRACE_O_TRACEEXEC.
unfoldable pub job_process_trace_new : Tracer → ProcessType → M (Unit {0})
job_process_trace_new t p c =
    let pid = get c.job.pid p in
    if is_new c.job.trace_state
    then if is_watched p c.job.state && not (t.set_options_fails pid 18)
      then some (tt, traced c.job.trace_forks trace_normal (trace_continued pid 0) c)
      else some (tt, c)
    else none

abbrev pub one_fork : ExpectType → Bool
one_fork expect_none = false
one_fork expect_stop = false
one_fork expect_daemon = false
one_fork expect_fork = true

-- The process is let go, and the job moves on.
unfoldable pub trace_ends : ℕ → ProcessType → M (Unit {0})
unfolding job_advance
trace_ends forks p c = job_advance (traced forks trace_none (trace_detached (get c.job.pid p)) c)

abbrev pub count_fork : Ctx → Ctx
count_fork c = record c { job = record c.job { trace_forks = c.job.trace_forks + 1 } }

abbrev pub is_new_child : TraceState → Bool
is_new_child trace_none = false
is_new_child trace_new = false
is_new_child trace_new_child = true
is_new_child trace_normal = false

unfoldable pub child_traced : Tracer → ProcessType → M (Unit {0})
unfolding job_process_trace_new trace_ends
child_traced t p c =
    if is_watched p c.job.state
    then if ltb 1 (c.job.trace_forks + 1) || one_fork c.job.class.expect
      then trace_ends (c.job.trace_forks + 1) p c
      else job_process_trace_new t p (count_fork c)
    else some (tt, c)

unfoldable pub job_process_trace_new_child : Tracer → ProcessType → M (Unit {0})
unfolding child_traced
job_process_trace_new_child t p c =
    if is_new_child c.job.trace_state then child_traced t p c else none

abbrev pub is_traced : ProcessType → Job → Bool
is_traced p j = is_watched p j.state && is_normal j.trace_state

unfoldable pub job_process_trace_signal : ProcessType → ℕ → M (Unit {0})
job_process_trace_signal p signum c =
    if is_traced p c.job
    then some (
      tt,
      record c {
        world = record c.world { out = trace_continued (get c.job.pid p) signum ∷ c.world.out };
      },
    )
    else some (tt, c)

-- The job has the new child in place of its main process.
abbrev pub took_child : ℕ → ProcessType → Ctx → Ctx
took_child child p c = record c {
  job = record c.job { pid = set c.job.pid p child; trace_state = trace_new_child };
  world = record c.world { out = trace_detached (get c.job.pid p) ∷ c.world.out };
}

unfoldable pub follow_child : Tracer → Option ℕ → ProcessType → M (Unit {0})
unfolding job_process_trace_new_child
follow_child t none p c = some (tt, c)
follow_child t (some child) p c =
    if t.set_options_fails child 0
    then some (tt, took_child child p c)
    else job_process_trace_new_child t p (took_child child p c)

unfoldable pub job_process_trace_fork : Tracer → ProcessType → M (Unit {0})
unfolding follow_child
job_process_trace_fork t p c =
    if is_traced p c.job then follow_child t (t.new_child (get c.job.pid p)) p c else some (tt, c)

unfoldable pub job_process_trace_exec : ProcessType → M (Unit {0})
unfolding trace_ends
job_process_trace_exec p c =
    if is_traced p c.job
    then if c.job.trace_forks == 0
      then some (
        tt,
        record c {
          world = record c.world { out = trace_continued (get c.job.pid p) 0 ∷ c.world.out };
        },
      )
      else trace_ends c.job.trace_forks p c
    else some (tt, c)
