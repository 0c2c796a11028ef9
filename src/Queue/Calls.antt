-- ===== src/Queue/Calls.antt =====
-- job_class_start, job_class_stop and job_class_restart of init/job_class.c: the calls of the D-Bus
-- interface of a class. The session of the caller is an argument; a message is its number.
pub mod Fair
pub mod Served
use feature_d.Base.{
  ℕ, Bool, true, false, if◌then◌else◌, Bytes, Option, none, some, List, [], ◌∷◌, ◌++◌,
}
use feature_d.Environ.{Env, environ_append, environ_all_valid}
use feature_d.Environ.Expand.{ExpandError, Expanded, failed, expanded, fuel, environ_expand}
use feature_d.Event.{
  Blocked, blocked_job_start_method, blocked_job_stop_method, blocked_job_restart_method,
}
use feature_d.Registry.{option_is}
use feature_d.Job.{Job, job_start, job_stop, goal_is}
use feature_d.Job.Machine.{M, Ctx, ◌>>◌, replied}
use feature_d.Job.Finished.{job_finished}
use feature_d.Job.Change.{job_change_goal}
use feature_d.Queue.{Class, Daemon, find_job, run_on}
use feature_d.Queue.Pending.{job_class_environment, job_new, find_instance, instance_of}

pub data Answer : Type 0 where
  permission_denied invalid_env unknown_instance already_started already_stopped : Answer
  unknown_name : ExpandError → Answer
  accepted : Answer

-- The call of `nih_list_add`, where the caller waits.
abbrev pub await : Bool → Blocked → M (Unit {0})
await true b c =
    some (tt, record c { job = record c.job { blocking = c.job.blocking ++ (b ∷ []) } })
await false b c = some (tt, c)

-- The reply, where the caller does not wait.
abbrev pub reply_unless : Bool → Blocked → M (Unit {0})
reply_unless true b c = some (tt, c)
reply_unless false b c =
    some (tt, record c { world = record c.world { out = replied b ∷ c.world.out } })

unfoldable pub start_call : Env → ℕ → Bool → M (Unit {0})
start_call env m wait c =
    let b = blocked_job_start_method m in
    (job_finished false >> await wait b >> job_change_goal job_start >> reply_unless wait b)
      (record c { job = record c.job { start_env = some env } })

unfoldable pub stop_call : Env → ℕ → Bool → M (Unit {0})
stop_call env m wait c =
    let b = blocked_job_stop_method m in
    (job_finished false >> await wait b >> job_change_goal job_stop >> reply_unless wait b)
      (record c { job = record c.job { stop_env = some env } })

unfoldable pub restart_call : Env → ℕ → Bool → M (Unit {0})
restart_call env m wait c =
    let b = blocked_job_restart_method m in
    (job_finished false
        >> await wait b
        >> job_change_goal job_stop
        >> job_change_goal job_start
        >> reply_unless wait b)
      (record c { job = record c.job { start_env = some env; stop_env = none } })

abbrev pub served : Option Daemon → Option (Answer × Daemon)
served none = none
served (some dm) = some (accepted, dm)

-- What the three calls begin with: who may call, and the name of the instance.
abbrev pub named :
    (Env → Bytes → Option (Answer × Daemon))
    → Env
    → Daemon
    → Expanded Bytes
    → Option (Answer × Daemon)
named f env dm fuel = none
named f env dm (failed e) = some (unknown_name e, dm)
named f env dm (expanded name) = f env name

unfoldable pub called :
    (Env → Bytes → Option (Answer × Daemon))
    → Option ℕ
    → Class
    → Env
    → Daemon
    → Option (Answer × Daemon)
called f session c env dm =
    let getenv = dm.world.sys.getenv in
    let full = environ_append getenv (job_class_environment getenv dm.job_environ c.env) true env in
    if option_is session c.job_class.session
    then if environ_all_valid env
      then named f full dm (environ_expand c.instance full)
      else some (invalid_env, dm)
    else some (permission_denied, dm)

abbrev pub start_found : M (Unit {0}) → ℕ → Daemon → Option Job → Option (Answer × Daemon)
start_found m k dm none = none
start_found m k dm (some j) =
    if goal_is j.goal job_start then some (already_started, dm) else served (run_on m k dm)

unfoldable pub job_class_start :
    Option ℕ → Class → Env → ℕ → Bool → Daemon → Option (Answer × Daemon)
unfolding called start_call
job_class_start session c env m wait dm =
    called
      (λ full name.
        let (k, d) = instance_of c name dm (find_instance c.job_class.id name dm.jobs) in
        start_found (start_call full m wait) k d (find_job k d.jobs))
      session c env dm

abbrev pub stop_found : M (Unit {0}) → Daemon → Option Job → Option (Answer × Daemon)
stop_found m dm none = some (unknown_instance, dm)
stop_found m dm (some j) =
    if goal_is j.goal job_stop then some (already_stopped, dm) else served (run_on m j.id dm)

unfoldable pub job_class_stop :
    Option ℕ → Class → Env → ℕ → Bool → Daemon → Option (Answer × Daemon)
unfolding called stop_call
job_class_stop session c env m wait dm =
    called
      (λ full name.
        stop_found (stop_call env m wait) dm (find_instance c.job_class.id name dm.jobs))
      session c env dm

unfoldable pub job_class_restart :
    Option ℕ → Class → Env → ℕ → Bool → Daemon → Option (Answer × Daemon)
unfolding called restart_call
job_class_restart session c env m wait dm =
    called
      (λ full name.
        stop_found (restart_call full m wait) dm (find_instance c.job_class.id name dm.jobs))
      session c env dm
