-- ===== src/Job/Start.antt =====
-- `job_process_start` and `job_process_kill` of init/job_process.c, as far as they change the job.
-- The command line and the files of the child process are not modelled; a `fork` that fails is
-- tried again until one succeeds, so only the successful ones are counted.
pub mod Kill
use feature_d.Base.{
  ℕ, suc, ◌==◌, ltb, Bool, true, false, not, ◌&&◌, if◌then◌else◌, is_some, codes, Option, none,
  some, [], ◌∷◌,
}
use feature_d.Environ.{Env, environ_append, environ_set}
use feature_d.Process.{
  get, set, ProcessType, main, pre_start, post_start, pre_stop, post_stop, security,
}
use feature_d.Job.{
  Job, ExpectType, expect_none, expect_stop, expect_daemon, expect_fork, TraceState, trace_new,
  trace_none,
}
use feature_d.Job.Machine.{System, signal_sent, spawned, M, ◌>>◌, assert, modify_job, send}

abbrev pub is_main : ProcessType → Bool
is_main main = true
is_main _ = false

abbrev pub expects_forks : ExpectType → Bool
expects_forks expect_none = false
expects_forks expect_stop = false
expects_forks expect_daemon = true
expects_forks expect_fork = true

-- The stop environment is for the two processes that stop the job.
abbrev reads_stop_env : ProcessType → Bool
reads_stop_env main = false
reads_stop_env pre_start = false
reads_stop_env post_start = false
reads_stop_env pre_stop = true
reads_stop_env post_stop = true
reads_stop_env security = false

abbrev stop_entries : Bool → Option Env → Env
stop_entries true (some env) = env
stop_entries true none = []
stop_entries false env = []

-- The environment of a process. The source passes each string of the stop environment to
-- `environ_set` as the format; here a string stands for itself, as it does where it has no `%`.
unfoldable pub process_env : System → Job → ProcessType → Env
process_env sys j p =
    environ_set sys.getenv
      (environ_set sys.getenv
        (environ_append sys.getenv (environ_append sys.getenv [] true j.env) true
          (stop_entries (reads_stop_env p) j.stop_env))
        true (codes "UPSTART_JOB") j.class.name)
      true (codes "UPSTART_INSTANCE") j.name

abbrev pub traces : Job → ProcessType → Bool
traces j p = is_main p && expects_forks j.class.expect

abbrev pub first_trace : Bool → TraceState
first_trace true = trace_new
first_trace false = trace_none

unfoldable pub job_process_start : ProcessType → M (Unit {0})
unfolding process_env
job_process_start p c =
    if is_some (get c.job.class.process p)
    then some (
      tt,
      record c {
        job = record c.job {
          pid = set c.job.pid p (c.world.sys.fork c.world.forks);
          trace_forks = 0;
          trace_state = first_trace (traces c.job p);
          process_data = set c.job.process_data p (some (record { valid = true; status = 0 }));
        };
        world = record c.world {
          forks = suc c.world.forks;
          out = spawned c.job.id p (process_env c.world.sys c.job p) ∷ c.world.out;
        };
      },
    )
    else none

unfoldable pub job_process_set_kill_timer : ProcessType → ℕ → M (Unit {0})
job_process_set_kill_timer p timeout = do
  assert (not (timeout == 0))
  (λ c. assert (not (is_some c.job.kill_timer)) c)
  modify_job (λ j. record j { kill_process = some p; kill_timer = some timeout })

-- `system_kill` sends the signal to the process group; where it cannot, no timer is set.
unfoldable pub job_process_kill : ProcessType → M (Unit {0})
unfolding job_process_set_kill_timer
job_process_kill p c =
    let pid = get c.job.pid p in
    let sig = c.job.class.kill_signal in
    let run = (do
      assert (ltb 0 pid)
      assert (not (is_some c.job.kill_timer))
      assert (not (is_some c.job.kill_process))
      (if c.world.sys.kill_fails pid sig then (λ c. some (tt, c)) else (do
        send (signal_sent pid sig)
        job_process_set_kill_timer p c.job.class.kill_timeout))) in
    run c

-- The callback of the kill timer: 9 is SIGKILL. Whether it can be sent changes nothing but the log.
unfoldable pub job_process_kill_timer : M (Unit {0})
job_process_kill_timer c = elim c.job.kill_process [
  | none ↦ none
  | some p ↦
      if is_some c.job.kill_timer && ltb 0 (get c.job.pid p)
      then some (
        tt,
        record c {
          job = record c.job { kill_timer = none; kill_process = none };
          world = record c.world { out = signal_sent (get c.job.pid p) 9 ∷ c.world.out };
        },
      )
      else none
]
