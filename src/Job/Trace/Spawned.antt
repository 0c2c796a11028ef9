-- ===== src/Job/Trace/Spawned.antt =====
-- The trace of a process, in init/job_process.c, while its job is in `spawned`: the job stays sound.
use feature_d.Base.{
  ℕ, ◌+◌, ◌==◌, ltb, Bool, true, false, not, ◌&&◌, ◌||◌, if◌then◌else◌, Option, List, ◌≡◌, refl,
  inr, arith,
}
use feature_d.Process.{ProcessType, get, main, pre_start, post_start, pre_stop, post_stop, security}
use feature_d.Job.{job_spawned, TraceState, trace_none, trace_new_child, trace_normal}
use feature_d.Job.Machine.{Ctx, Output}
use feature_d.Job.Invariant.{Sound}
use feature_d.Job.Change.Settles.{SettledAfter}
use feature_d.Job.Change.Released.{Released, job_advance-Settled}
use feature_d.Job.Change.Handlers.{none_of, zero_of, untimed}
use feature_d.Job.Trace.{
  Tracer, is_watched, is_new, job_process_trace_new, one_fork, is_new_child, child_traced,
  trace_ends, count_fork, job_process_trace_new_child, is_traced, job_process_trace_signal,
  job_process_trace_exec,
}

-- What a change of the trace leaves alone.
pub retraced-Sound :
    (forks : ℕ) (state : TraceState) (o : List Output) (c : Ctx)
    → Sound c
    → Sound (record c {
      job = record c.job { trace_forks = forks; trace_state = state };
      world = record c.world { out = o };
    })
retraced-Sound forks state o c h = record {
  inv = record {
    settled = h.inv.settled;
    pids = h.inv.pids;
    main_known = h.inv.main_known;
    post_start_known = h.inv.post_start_known;
    pre_stop_known = h.inv.pre_stop_known;
    blocked = h.inv.blocked;
    timer = h.inv.timer;
    timer_process = h.inv.timer_process;
    respawning = h.inv.respawning;
    idle = h.inv.idle;
  };
  around = record {
    alive = h.around.alive;
    covered = h.around.covered;
    limit = h.around.limit;
    forks = h.around.forks;
  };
}

-- In `spawned` no process but the main one runs, and nothing else is waited for.
pub spawned_Released : (c : Ctx) → Sound c → c.job.state ≡ job_spawned → Released c
spawned_Released c h s = record {
  moving = record {
    around = h.around;
    free = none_of c.job.blocker (λ b. ground (arith, s, h.inv.blocked));
    no_timer = none_of c.job.kill_timer (λ t. ground (arith, s, h.inv.timer t));
    no_kill = untimed c h (none_of c.job.kill_timer (λ t. ground (arith, s, h.inv.timer t)));
    no_security =
        zero_of c.job.pid.security_slot (λ l. ground (arith, s, h.inv.pids.security_ok l));
    no_pre_start =
        zero_of c.job.pid.pre_start_slot (λ l. ground (arith, s, h.inv.pids.pre_start_ok l));
    no_post_start =
        zero_of c.job.pid.post_start_slot (λ l. ground (arith, s, h.inv.pids.post_start_ok l));
    no_pre_stop =
        zero_of c.job.pid.pre_stop_slot (λ l. ground (arith, s, h.inv.pids.pre_stop_ok l));
    no_post_stop =
        zero_of c.job.pid.post_stop_slot (λ l. ground (arith, s, h.inv.pids.post_stop_ok l));
    main_known = h.inv.main_known;
  };
  rests = h.inv.settled;
  main_ok = h.inv.pids.main_ok;
  killed = λ k. ground (arith, s, k);
  respawning = h.inv.respawning;
  wanted = λ w. ground (arith, s, w);
}

-- A process that is watched is the main process of a job in `spawned`.
pub watched_spawned :
    (p : ProcessType) (c : Ctx)
    → Sound c
    → is_watched p c.job.state ≡ true
    → (p ≡ main) × (c.job.state ≡ job_spawned)
watched_spawned main c h w = (refl, ground (arith, w, h.inv.settled))
watched_spawned pre_start c h w = cc
watched_spawned post_start c h w = cc
watched_spawned pre_stop c h w = cc
watched_spawned post_stop c h w = cc
watched_spawned security c h w = cc

pub and_left : (a b : Bool) → (a && b) ≡ true → a ≡ true
and_left true b e = refl
and_left false b e = e

ends-Settled :
    (forks : ℕ) (p : ProcessType) (c : Ctx)
    → Sound c
    → c.job.state ≡ job_spawned
    → SettledAfter (trace_ends forks p c)
unfolding trace_ends
ends-Settled forks p c h s =
    job_advance-Settled _ (spawned_Released _ (retraced-Sound forks trace_none _ c h) s)

pub if_settled :
    (b : Bool) (x y : Option (Unit {0} × Ctx))
    → (b ≡ true → SettledAfter x)
    → (b ≡ false → SettledAfter y)
    → SettledAfter (if b then x else y)
if_settled true x y h k = h refl
if_settled false x y h k = k refl

pub trace_new-Settled :
    (t : Tracer) (p : ProcessType) (c : Ctx)
    → Sound c
    → is_new c.job.trace_state ≡ true
    → SettledAfter (job_process_trace_new t p c)
unfolding job_process_trace_new
trace_new-Settled t p c h n =
    if_settled (is_new c.job.trace_state) _ _
      (λ new.
        if_settled (is_watched p c.job.state && not (t.set_options_fails (get c.job.pid p) 18)) _ _
          (λ w. inr (retraced-Sound c.job.trace_forks trace_normal _ c h)) (λ w. inr h))
      (λ old. cc)

child_traced-Settled :
    (t : Tracer) (p : ProcessType) (c : Ctx)
    → Sound c
    → is_new c.job.trace_state ≡ true
    → SettledAfter (child_traced t p c)
unfolding child_traced
child_traced-Settled t p c h n =
    if_settled (is_watched p c.job.state) _ _
      (λ w.
        if_settled (ltb 1 (c.job.trace_forks + 1) || one_fork c.job.class.expect) _ _
          (λ last. ends-Settled (c.job.trace_forks + 1) p c h (watched_spawned p c h w).1)
          (λ more.
            trace_new-Settled t p (count_fork c)
              (retraced-Sound (c.job.trace_forks + 1) c.job.trace_state c.world.out c h) n))
      (λ other. inr h)

pub trace_new_child-Settled :
    (t : Tracer) (p : ProcessType) (c : Ctx)
    → Sound c
    → c.job.trace_state ≡ trace_new_child
    → SettledAfter (job_process_trace_new_child t p c)
unfolding job_process_trace_new_child
trace_new_child-Settled t p c h n =
    if_settled (is_new_child c.job.trace_state) _ _
      (λ new. child_traced-Settled t p c h (rw n refl)) (λ old. cc)

pub signal-Settled :
    (p : ProcessType) (signum : ℕ) (c : Ctx)
    → Sound c
    → SettledAfter (job_process_trace_signal p signum c)
unfolding job_process_trace_signal
signal-Settled p signum c h =
    if_settled (is_traced p c.job) _ _
      (λ w. inr (retraced-Sound c.job.trace_forks c.job.trace_state _ c h)) (λ w. inr h)

pub exec-Settled : (p : ProcessType) (c : Ctx) → Sound c → SettledAfter (job_process_trace_exec p c)
unfolding job_process_trace_exec
exec-Settled p c h =
    if_settled (is_traced p c.job) _ _
      (λ w.
        if_settled (c.job.trace_forks == 0) _ _
          (λ z. inr (retraced-Sound c.job.trace_forks c.job.trace_state _ c h))
          (λ n. ends-Settled c.job.trace_forks p c h (watched_spawned p c h (and_left _ _ w)).1))
      (λ w. inr h)
