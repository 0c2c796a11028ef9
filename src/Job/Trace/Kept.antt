-- ===== src/Job/Trace/Kept.antt =====
-- The trace of a forking process (init/job_process.c) keeps a job sound.
use feature_d.Base.{ℕ, ◌*◌, ◌<◌, ◌==◌, ◌&&◌, Option, none, some, ◌≡◌, refl, ◌⊎◌, inr, arith}
use feature_d.Process.{ProcessType, get, main, pre_start, post_start, pre_stop, post_stop, security}
use feature_d.Job.{job_spawned, TraceState, trace_none, trace_new, trace_new_child, trace_normal}
use feature_d.Job.Machine.{Ctx, Ensures}
use feature_d.Job.Invariant.{Sound, Settled}
use feature_d.Job.Change.Settles.{SettledAfter}
use feature_d.Job.Change.Released.{job_advance-Settled}
use feature_d.Job.Ended.{job_process_stopped, expects_stop}
use feature_d.Job.Ended.Terminated.{job_process_terminated-Settled}
use feature_d.Job.Trace.{
  Tracer, is_watched, is_traced, took_child, follow_child, job_process_trace_fork,
}
use feature_d.Job.Trace.Children.{
  ChildEvent, child_exited, child_killed, child_dumped, child_stopped, child_continued,
  child_trapped, child_ptrace, child_trap, child_event,
}
use feature_d.Job.Trace.Spawned.{
  retraced-Sound, spawned_Released, watched_spawned, and_left, if_settled, trace_new-Settled,
  trace_new_child-Settled, signal-Settled, exec-Settled,
}

-- The child in place of the main process of a job in `spawned`.
took-Sound :
    (child : ℕ) (c : Ctx)
    → Sound c
    → c.job.state ≡ job_spawned
    → 0 < c.job.pid.main_slot
    → 0 < child
    → Sound (took_child child main c)
took-Sound child c h s r k = record {
  inv = record {
    settled = h.inv.settled;
    pids = record {
      awaited = rw s k;
      main_ok = λ l. h.inv.pids.main_ok r;
      security_ok = h.inv.pids.security_ok;
      pre_start_ok = h.inv.pids.pre_start_ok;
      post_start_ok = h.inv.pids.post_start_ok;
      pre_stop_ok = h.inv.pids.pre_stop_ok;
      post_stop_ok = h.inv.pids.post_stop_ok;
    };
    main_known = λ l. h.inv.main_known r;
    post_start_known = h.inv.post_start_known;
    pre_stop_known = h.inv.pre_stop_known;
    blocked = h.inv.blocked;
    timer = h.inv.timer;
    timer_process = h.inv.timer_process;
    respawning = h.inv.respawning;
    idle = h.inv.idle;
  };
  around = record {
    alive = h.around.alive;
    covered = h.around.covered;
    limit = h.around.limit;
    forks = h.around.forks;
  };
}

-- The kernel's number of a child is not 0.
follow-Settled :
    (t : Tracer) (child : Option ℕ) (p : ProcessType) (c : Ctx)
    → Sound c
    → (p ≡ main) × (c.job.state ≡ job_spawned)
    → 0 < get c.job.pid p
    → ((n : ℕ) → child ≡ some n → 0 < n)
    → SettledAfter (follow_child t child p c)
unfolding follow_child
follow-Settled t none p c h s r k = inr h
follow-Settled t (some child) main c h s r k =
    let sound = took-Sound child c h s.1 r (k child refl) in
    if_settled (t.set_options_fails child 0) _ _ (λ no. inr sound)
      (λ yes. trace_new_child-Settled t main (took_child child main c) sound refl)
follow-Settled t (some child) pre_start c h s r k = cc
follow-Settled t (some child) post_start c h s r k = cc
follow-Settled t (some child) pre_stop c h s r k = cc
follow-Settled t (some child) post_stop c h s r k = cc
follow-Settled t (some child) security c h s r k = cc

fork-Settled :
    (t : Tracer) (p : ProcessType) (c : Ctx)
    → Sound c
    → 0 < get c.job.pid p
    → ((q n : ℕ) → t.new_child q ≡ some n → 0 < n)
    → SettledAfter (job_process_trace_fork t p c)
unfolding job_process_trace_fork
fork-Settled t p c h r k =
    if_settled (is_traced p c.job) _ _
      (λ w.
        follow-Settled t (t.new_child (get c.job.pid p)) p c h
          (watched_spawned p c h (and_left _ _ w)) r (k (get c.job.pid p)))
      (λ w. inr h)

trap-Settled :
    (t : Tracer) (p : ProcessType) (status : ℕ) (s : TraceState) (c : Ctx)
    → Sound c
    → c.job.trace_state ≡ s
    → SettledAfter (child_trap t p status s c)
unfolding child_trap
trap-Settled t p status trace_none c h q = signal-Settled p status c h
trap-Settled t p status trace_normal c h q = signal-Settled p status c h
trap-Settled t p status trace_new c h q =
    if_settled (status == 5) _ _ (λ trap. trace_new-Settled t p c h (rw q refl))
      (λ other. signal-Settled p status c h)
trap-Settled t p status trace_new_child c h q =
    if_settled (status == 19) _ _ (λ stop. trace_new_child-Settled t p c h q)
      (λ other. signal-Settled p status c h)

stopped-Settled : (p : ProcessType) (c : Ctx) → Sound c → SettledAfter (job_process_stopped p c)
unfolding job_process_stopped
stopped-Settled p c h =
    if_settled (is_watched p c.job.state && expects_stop c.job.class.expect) _ _
      (λ w. job_advance-Settled _ (
        spawned_Released _ (retraced-Sound c.job.trace_forks c.job.trace_state _ c h)
          (watched_spawned p c h (and_left _ _ w)).1))
      (λ w. inr h)

-- Whatever a child process does, its job fails no assertion and stays sound, or is gone: its end by
-- itself or by a signal, a stop, a trap of its trace, a fork and an exec. The job is sound and has
-- the process; the kernel reports no other event of the trace than a fork (1) and an exec (4),
-- which were asked for, and gives no child the number 0.
pub child_event-Settled :
    (t : Tracer) (p : ProcessType) (event : ChildEvent) (status : ℕ) (c : Ctx)
    → Sound c
    → 0 < get c.job.pid p
    → (event ≡ child_ptrace → (status ≡ 1) ⊎ (status ≡ 4))
    → ((q n : ℕ) → t.new_child q ≡ some n → 0 < n)
    → Ensures (λ _ d. Settled d) (child_event t p event status c)
unfolding child_event
child_event-Settled t p child_exited status c h r e k =
    job_process_terminated-Settled p status c h r
child_event-Settled t p child_killed status c h r e k =
    job_process_terminated-Settled p (status * 256) c h r
child_event-Settled t p child_dumped status c h r e k =
    job_process_terminated-Settled p (status * 256) c h r
child_event-Settled t p child_stopped status c h r e k =
    if_settled (status == 19) _ _ (λ stop. stopped-Settled p c h) (λ other. inr h)
child_event-Settled t p child_continued status c h r e k = inr h
child_event-Settled t p child_trapped status c h r e k =
    trap-Settled t p status c.job.trace_state c h refl
child_event-Settled t p child_ptrace status c h r e k =
    if_settled (status == 1) _ _ (λ one. fork-Settled t p c h r k)
      (λ other.
        if_settled (status == 4) _ _ (λ four. exec-Settled p c h)
          (λ neither. absurd (ground (arith, e refl))))
