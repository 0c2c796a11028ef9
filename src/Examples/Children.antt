-- ===== src/Examples/Children.antt =====
-- A job whose main process forks once (init/job_process.c), and what its process does.
use feature_d.Base.{ℕ, false, some, [], ◌∷◌, refl, inl, arith}
use feature_d.Process.{Table, set, fill, main, security}
use feature_d.Job.{job_start, job_spawned, job_security, expect_fork, trace_normal}
use feature_d.Job.Machine.{Ctx, Ensures}
use feature_d.Job.Invariant.{Sound, Settled}
use feature_d.Job.Trace.{Tracer}
use feature_d.Job.Trace.Children.{child_ptrace, job_process_handler}
use feature_d.Job.Trace.Found.{HandledBy, job_process_handler-HandledBy}
use feature_d.Job.ChildError.{job_child_error_handler}
use feature_d.Job.ChildError.Kept.{IsStuck, child_error-Settled, child_error-security}
use feature_d.Examples.Jobs.{ctx, running_Covered}
use feature_d.Examples.Handlers.{main_pid, ctx-Around}

abbrev forking : Ctx
forking =
    let c = ctx job_start job_spawned main_pid in
    record c {
      job = record c.job {
        class = record c.job.class { expect = expect_fork };
        trace_state = trace_normal;
      };
    }

abbrev tracer : Tracer
tracer = record { set_options_fails = λ pid options. false; new_child = λ pid. some 101 }

forking-Sound : Sound forking
forking-Sound = record {
  inv = record {
    settled = refl;
    pids = record {
      awaited = ground arith;
      main_ok = λ l. refl;
      security_ok = λ l. ground arith;
      pre_start_ok = λ l. ground arith;
      post_start_ok = λ l. ground arith;
      pre_stop_ok = λ l. ground arith;
      post_stop_ok = λ l. ground arith;
    };
    main_known = λ l. refl;
    post_start_known = λ l. ground arith;
    pre_stop_known = λ l. ground arith;
    blocked = refl;
    timer = λ t. ground arith;
    timer_process = refl;
    respawning = λ r. ground arith;
    idle = λ q. ground arith;
  };
  around =
      let a = ctx-Around job_start job_spawned in
      record { alive = a.alive; covered = a.covered; limit = a.limit; forks = a.forks };
}

job_process_handler-HandledBy_example :
    HandledBy tracer 100 child_ptrace 1
      (forking.job ∷ [])
      forking.world
      (job_process_handler tracer 100 child_ptrace 1 (forking.job ∷ []) forking.world)
job_process_handler-HandledBy_example =
    job_process_handler-HandledBy tracer 100 child_ptrace 1 (forking.job ∷ []) forking.world
      (forking-Sound, tt) (omega arith) (λ e. inl refl) (λ q n e. ground arith)

child_error-Settled_example : Ensures (λ _ d. Settled d) (job_child_error_handler main forking)
child_error-Settled_example = child_error-Settled main forking forking-Sound refl refl

-- A job whose profile is being loaded.
abbrev security_pid : Table ℕ
security_pid = set (fill 0) security 100

loading-Sound : Sound (ctx job_start job_security security_pid)
loading-Sound = record {
  inv = record {
    settled = refl;
    pids = record {
      awaited = ground arith;
      main_ok = λ l. ground arith;
      security_ok = λ l. refl;
      pre_start_ok = λ l. ground arith;
      post_start_ok = λ l. ground arith;
      pre_stop_ok = λ l. ground arith;
      post_stop_ok = λ l. ground arith;
    };
    main_known = λ l. ground arith;
    post_start_known = λ l. ground arith;
    pre_stop_known = λ l. ground arith;
    blocked = refl;
    timer = λ t. ground arith;
    timer_process = refl;
    respawning = λ r. ground arith;
    idle = λ q. ground arith;
  };
  around = record {
    alive = refl;
    covered = running_Covered;
    limit = ground arith;
    forks = λ n. ground arith;
  };
}

child_error-security_example :
    Ensures
      (λ _ d. IsStuck d)
      (job_child_error_handler security (ctx job_start job_security security_pid))
child_error-security_example =
    child_error-security (ctx job_start job_security security_pid) loading-Sound refl
