-- ===== src/Job/Change/Phases.antt =====
-- The loop of `job_change_state` (init/job.c), phase by phase: what it does from the state before
-- a process is due to the state in which the process runs, or past it.
use feature_d.Base.{ℕ, suc, Bool, true, ◌&&◌, if◌then◌else◌, none, some, ◌∷◌, ◌≡◌, arith}
use feature_d.Process.{ProcessType, set, main, pre_start, post_start, pre_stop, post_stop, security}
use feature_d.Job.{
  job_start, job_stop, JobState, job_waiting, job_starting, job_security_spawning, job_security,
  job_pre_starting, job_pre_start, job_spawning, job_spawned, job_post_starting, job_post_start,
  job_running, job_pre_stopping, job_pre_stop, job_stopping, job_killed, job_post_stopping,
  job_post_stop,
}
use feature_d.Job.Machine.{spawned, state_changed, Ctx}
use feature_d.Job.Start.{process_env, traces, first_trace, job_process_start}
use feature_d.Job.Change.{has_process, change_state_loop}

-- The state has been entered.
abbrev pub entered : JobState → Ctx → Ctx
entered s c = record c {
  job = record c.job { state = s };
  world = record c.world { out = state_changed c.job.id s ∷ c.world.out };
}

-- The process has been started.
abbrev pub started : ProcessType → Ctx → Ctx
started p c = record c {
  job = record c.job {
    pid = set c.job.pid p (c.world.sys.fork c.world.forks);
    trace_forks = 0;
    trace_state = first_trace (traces c.job p);
    process_data = set c.job.process_data p (some (record { valid = true; status = 0 }));
  };
  world = record c.world {
    forks = suc c.world.forks;
    out = spawned c.job.id p (process_env c.world.sys c.job p) ∷ c.world.out;
  };
}

-- A phase that may start the process `p`: from the state `old` on the way to `s`, where `p` is
-- `wanted` the loop starts it and ends in `rest`; else it goes on from there towards `next`.
abbrev pub Phase : ProcessType → JobState → JobState → JobState → Bool → ℕ → Ctx → Type 0
Phase p s rest next wanted n c = change_state_loop (suc (suc (suc n))) s c ≡ (
    if wanted
    then some (tt, entered rest (started p (entered s c)))
    else change_state_loop (suc n) next (entered rest (entered s c)))

module _ (n : ℕ) (c : Ctx) (free : c.job.blocker ≡ none) where
  -- From `starting`, with the goal start: the security profile is loaded where the class has one and
  -- AppArmor is there, and the loop ends in `security`; else it goes on towards `pre-starting`.
  pub security-Phase :
      c.job.goal ≡ job_start
      → c.job.state ≡ job_starting
      → Phase security job_security_spawning job_security job_pre_starting
          (has_process c.job security && c.world.apparmor)
          n
          c
  unfolding change_state_loop job_process_start
  security-Phase g s = ground arith

  -- From `security`, with the goal start: the `pre-start` process is started where there is one and
  -- the loop ends in `pre-start`; else it goes on towards `spawning`.
  pub pre_start-Phase :
      c.job.goal ≡ job_start
      → c.job.state ≡ job_security
      → Phase pre_start job_pre_starting job_pre_start job_spawning
          (has_process c.job pre_start)
          n
          c
  unfolding change_state_loop job_process_start
  pre_start-Phase g s = ground arith

  -- From `pre-start`, with the goal start and no event waited for, `job_change_state` goes to
  -- `spawning`: where the class has a main process it is started and the loop ends in `spawned`,
  -- without going on; else the loop passes `spawned` with nothing started, towards `post-starting`.
  pub main-Phase :
      c.job.goal ≡ job_start
      → c.job.state ≡ job_pre_start
      → Phase main job_spawning job_spawned job_post_starting (has_process c.job main) n c
  unfolding change_state_loop job_process_start
  main-Phase g s = ground arith

  -- From `spawned`, with the goal start: the `post-start` process is started where there is one and
  -- the loop ends in `post-start`; else it goes on towards `running`.
  pub post_start-Phase :
      c.job.goal ≡ job_start
      → c.job.state ≡ job_spawned
      → Phase post_start job_post_starting job_post_start job_running
          (has_process c.job post_start)
          n
          c
  unfolding change_state_loop job_process_start
  post_start-Phase g s = ground arith

  -- From `running`, with the goal stop and no event waited for, on the way to `pre-stopping`: the
  -- `pre-stop` process is started where the class has one and the loop ends in `pre-stop`; else it
  -- passes `pre-stop` with nothing started, towards `stopping`.
  pub pre_stop-Phase :
      c.job.goal ≡ job_stop
      → c.job.state ≡ job_running
      → Phase pre_stop job_pre_stopping job_pre_stop job_stopping (has_process c.job pre_stop) n c
  unfolding change_state_loop job_process_start
  pre_stop-Phase g s = ground arith

  -- From `killed`, with the goal stop: the `post-stop` process is started where there is one and the
  -- loop ends in `post-stop`; else it goes on towards `waiting`.
  pub post_stop-Phase_stop :
      c.job.goal ≡ job_stop
      → c.job.state ≡ job_killed
      → Phase post_stop job_post_stopping job_post_stop job_waiting
          (has_process c.job post_stop)
          n
          c
  unfolding change_state_loop job_process_start
  post_stop-Phase_stop g s = ground arith

  -- From `killed`, with the goal start and no event waited for, as for a restart: the `post-stop`
  -- process is started where the class has one and the loop ends in `post-stop`; else it passes
  -- `post-stop` with nothing started, and goes back to `starting`.
  pub post_stop-Phase_start :
      c.job.goal ≡ job_start
      → c.job.state ≡ job_killed
      → Phase post_stop job_post_stopping job_post_stop job_starting
          (has_process c.job post_stop)
          n
          c
  unfolding change_state_loop job_process_start
  post_stop-Phase_start g s = ground arith
