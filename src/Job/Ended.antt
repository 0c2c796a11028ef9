-- ===== src/Job/Ended.antt =====
-- The end of a process in init/job_process.c: job_process_terminated, job_process_catch_runaway and
-- job_process_stopped. The log and the utmp records of the process are left out.
pub mod Runaway
pub mod Kept
pub mod Follow
pub mod Cleared
pub mod Judged
pub mod Terminated
use feature_d.Base.{
  ℕ, suc, ◌+◌, ◌-◌, ◌==◌, ltb, Bool, true, false, not, ◌&&◌, ◌||◌, if◌then◌else◌, is_some, Option,
  none, some, List, [], ◌∷◌,
}
use feature_d.Process.{
  ProcessType, get, set, main, pre_start, post_start, pre_stop, post_stop, security,
}
use feature_d.Job.{
  Job, pos, job_start, job_stop, job_respawn, JobState, job_security, job_pre_start, job_spawning,
  job_spawned, job_post_start, job_running, job_pre_stop, job_stopping, job_killed, job_post_stop,
  job_security_spawning, job_pre_starting, job_post_starting, job_pre_stopping, job_post_stopping,
  state_is, goal_is, ExpectType, expect_stop, expect_none, expect_daemon, expect_fork,
  JobProcessData,
}
use feature_d.Job.Machine.{M, Ctx, World, ◌>>=◌, ◌>>◌, pure, assert, modify_job, send, signal_sent}
use feature_d.Job.Finished.{job_failed}
use feature_d.Job.Change.{has_process, is_running, job_next_state, job_advance, job_change_goal}

-- `job_process_catch_runaway`, at the time `now` of the monotonic clock.
unfoldable pub job_process_catch_runaway : ℕ → Job → Bool × Job
job_process_catch_runaway now j =
    if ltb 0 j.class.respawn_limit && ltb 0 j.class.respawn_interval
    then if ltb (now - j.respawn_time) j.class.respawn_interval
      then (
        ltb j.class.respawn_limit (j.respawn_count + 1),
        record j { respawn_count = j.respawn_count + 1 },
      )
      else (false, record j { respawn_time = now; respawn_count = 1 })
    else (false, j)

-- The flags `failed`, `stop` and `state` of `job_process_terminated`.
pub record Verdict : Type 0 where
  pub failed : Bool
  pub stop : Bool
  pub state : Bool

abbrev pub verdict : Bool → Bool → Bool → Verdict
verdict f s t = record { failed = f; stop = s; state = t }

unfoldable pub is_normal_exit : ℕ → List ℕ → Bool
is_normal_exit status [] = false
is_normal_exit status (e ∷ es) = e == status || is_normal_exit status es

-- No other process of the job will move it on.
abbrev pub alone : Job → Bool
alone j =
    not (state_is j.state job_post_start && has_process j post_start && is_running j post_start)
    && not (state_is j.state job_pre_stop && has_process j pre_stop && is_running j pre_stop)

-- The main process is to be started again, unless that happens too often.
pub respawn : Bool → M Verdict
unfolding job_failed job_change_goal
respawn state c =
    let (runaway, j) = job_process_catch_runaway c.world.now c.job in
    let d = record c { job = j } in
    if runaway
    then elim (job_failed none (pos 0) d) [
      | none ↦ none
      | some (u, e) ↦ some (verdict false true state, e)
    ]
    else if state
    then some (verdict false false state, d)
    else elim (job_change_goal job_respawn d) [
      | none ↦ none
      | some (u, e) ↦ some (verdict false false state, e)
    ]

-- The main process ended in a state in which it need not have.
pub main_exited : ℕ → Bool → M Verdict
unfolding respawn is_normal_exit
main_exited status state c =
    let bad = not (is_normal_exit status c.job.class.normalexit) in
    if (not (status == 0) || (c.job.class.respawn && not c.job.class.task))
      && goal_is c.job.goal job_start
    then if bad && c.job.class.respawn && not c.world.disable_respawn
      then respawn state c
      else some (verdict bad true state, c)
    else some (verdict false true state, c)

-- The states in which the main process may end.
abbrev pub main_may_end : JobState → Bool
main_may_end s =
    state_is s job_running
    || state_is s job_spawned
    || state_is s job_killed
    || state_is s job_stopping
    || state_is s job_post_start
    || state_is s job_pre_stop

pub main_ended : ℕ → M Verdict
unfolding main_exited
main_ended status c =
    let state = alone c.job in
    if main_may_end c.job.state
    then if state_is c.job.state job_killed
      then some (verdict false false state, c)
      else if state_is c.job.state job_stopping
      then some (verdict false false false, c)
      else main_exited status state c
    else none

-- A script that ended: it fails the job where its failure matters.
pub script_ended : Bool → Bool → M Verdict
script_ended allowed bad c = if allowed then some (verdict bad bad true, c) else none

-- The `switch` of `job_process_terminated`.
pub process_ended : ProcessType → ℕ → M Verdict
unfolding main_ended script_ended
process_ended main status c = main_ended status c
process_ended security status c = script_ended (state_is c.job.state job_security) false c
process_ended pre_start status c =
    script_ended (state_is c.job.state job_pre_start) (not (status == 0)) c
process_ended post_start status c =
    script_ended (state_is c.job.state job_post_start || state_is c.job.state job_running) false c
process_ended pre_stop status c = script_ended (state_is c.job.state job_pre_stop) false c
process_ended post_stop status c =
    script_ended (state_is c.job.state job_post_stop) (not (status == 0)) c

-- The timer that would kill the job is cancelled, and the process has gone.
abbrev pub clear_process : Bool → ProcessType → Job → Job
clear_process true p j = record j {
  kill_timer = none;
  kill_process = if is_some j.kill_timer then none else j.kill_process;
}
clear_process false p j = record j {
  kill_timer = none;
  kill_process = if is_some j.kill_timer then none else j.kill_process;
  pid = set j.pid p 0;
}

abbrev pub fail_if : Bool → ProcessType → ℕ → M (Unit {0})
fail_if true p status c = job_failed (some p) (pos status) c
fail_if false p status c = some (tt, c)

abbrev pub stop_if : Bool → M (Unit {0})
stop_if true c = job_change_goal job_stop c
stop_if false c = some (tt, c)

abbrev pub advance_if : Bool → M (Unit {0})
advance_if true c = job_advance c
advance_if false c = some (tt, c)

-- What follows from the flags. A change of goal to stop has moved a running job on already.
pub follow : Bool → ProcessType → ℕ → Verdict → M (Unit {0})
unfolding job_failed job_change_goal job_advance
follow state_only p status v c =
    let stop = v.stop && not state_only in
    let run = (do
      fail_if v.failed p status
      assert (not (state_only && v.stop && v.failed))
      (λ (d : Ctx).
          (stop_if stop >> advance_if (v.state && not (stop && state_is d.job.state job_running)))
            d)) in
    run c

-- The states in which the process has been forked but has not confirmed its setup.
abbrev pub unconfirmed : JobState → Bool
unconfirmed s =
    state_is s job_security_spawning
    || state_is s job_pre_starting
    || state_is s job_spawning
    || state_is s job_post_starting
    || state_is s job_pre_stopping
    || state_is s job_post_stopping

unfoldable pub job_process_terminated : ProcessType → ℕ → Bool → M (Unit {0})
unfolding process_ended follow job_next_state
job_process_terminated p status state_only c =
    if unconfirmed c.job.state
    then elim (get c.job.process_data p) [
      | none ↦ none
      | some old ↦
          let d = record c {
            job = record c.job {
              process_data = set c.job.process_data p (some (record old { status = status }));
            };
          } in
          elim (job_next_state d) [
            | none ↦ none
            | some (s, e) ↦ some (tt, record e { job = record e.job { state = s } })
          ]
    ]
    else elim (process_ended p status c) [
      | none ↦ none
      | some (v, d) ↦
          follow state_only p status v (record d { job = clear_process state_only p d.job })
    ]

abbrev pub expects_stop : ExpectType → Bool
expects_stop expect_none = false
expects_stop expect_stop = true
expects_stop expect_daemon = false
expects_stop expect_fork = false

abbrev pub is_main : ProcessType → Bool
is_main main = true
is_main _ = false

-- `job_process_stopped`; 18 is SIGCONT.
unfoldable pub job_process_stopped : ProcessType → M (Unit {0})
unfolding job_advance
job_process_stopped p c =
    if is_main p
      && (state_is c.job.state job_spawning || state_is c.job.state job_spawned)
      && expects_stop c.job.class.expect
    then job_advance (record c {
      world = record c.world { out = signal_sent (get c.job.pid p) 18 ∷ c.world.out };
    })
    else some (tt, c)
