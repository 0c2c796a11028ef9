-- ===== src/Queue/Pending/Started.antt =====
-- A job that an event starts (job_class_induct_job of init/job_class.c) stays sound, and the events
-- that start it get its blockers.
use mathlib.Core.Path.{subst}
use feature_d.Base.{
  ℕ, ◌+◌, ◌≤◌, ◌<◌, Bool, true, false, if◌then◌else◌, is_some, Bytes, codes, Option, none, some,
  List, [], ◌∷◌, ◌≡◌, refl, sym, ap, inl, inr, arith,
}
use feature_d.Environ.{Env}
use feature_d.Event.{Event, Events, find_event, blockers_of}
use feature_d.EventOperator.{EventOperator}
use feature_d.EventOperator.Values.{HasEvents}
use feature_d.EventOperator.Counts.{refs, leaves}
use feature_d.EventOperator.Collect.{Room, Queued, true_events_ok}
use feature_d.EventOperator.Taken.{refs-LeavesQueued, events_taken}
use feature_d.Job.{ℤ, job_start, goal_is}
use feature_d.Job.Machine.{M, Ctx, Ensures, ◌>>◌}
use feature_d.Job.Invariant.{Sound, Settled, count_event}
use feature_d.Job.Ledger.{Accounts-refl}
use feature_d.Job.Ledger.Shapes.{ShapedList, events-Shaped}
use feature_d.Job.Change.Ledger.{KeepsCounts, job_change_goal-KeepsCounts}
use feature_d.Job.Finished.{job_finished}
use feature_d.Job.Finished.Covered.{job_finished_ok, Covered-nil}
use feature_d.Job.Change.{job_change_goal}
use feature_d.Job.Change.Quiet.{SameCounts, change_goal_quiet}
use feature_d.Job.Change.Handlers.{job_change_goal-Settled}
use feature_d.Job.StopOn.{block_tree}
use feature_d.Job.StopOn.Taken.{Tracks, Tracks-trans, shape-Tracks, finished-Tracks, Put-Sound}
use feature_d.Queue.Pending.{
  add_fd, fds_entry, collect_fds, event_operator_fds, fds_into, add_fds, start_job,
}

collect_fds_ok :
    (decimal : ℤ → Bytes) (is : List ℕ) (es : Events) (text : Bytes)
    → Queued is es
    → (r : Bytes) × (collect_fds decimal is es text ≡ some r)
unfolding collect_fds
collect_fds_ok decimal [] es text h = (text, refl)
collect_fds_ok decimal (i ∷ is) es text h =
    found (find_event i es) h.0 (λ t. collect_fds_ok decimal is es t h.1)
  where
    found :
        (e : Option Event)
        → is_some e ≡ true
        → ((t : Bytes) → (r : Bytes) × (collect_fds decimal is es t ≡ some r))
        → (r : Bytes) × (elim e [
          | none ↦ none
          | some e ↦ collect_fds decimal is es (add_fd decimal e.fd text)
        ]
            ≡ some r)
    found none q f = absurd (ground arith)
    found (some e) q f = f (add_fd decimal e.fd text)

-- The descriptors of a tree are found where its events are in the queue.
fds_ok :
    (decimal : ℤ → Bytes) (getenv : Bytes → Option Bytes) (t : EventOperator) (es : Events)
    (env : Env) (key : Bytes)
    → HasEvents t
    → ((i : ℕ) → refs i t ≤ blockers_of i es)
    → (r : Env) × (event_operator_fds decimal getenv t es env key ≡ some r)
unfolding event_operator_fds
fds_ok decimal getenv t es env key h k =
    let (is, p, m, a) = true_events_ok t es h (refs-LeavesQueued t es k) in
    let (text, q) = collect_fds_ok decimal is es [] a in
    (fds_entry getenv env key text, rw (p, event_operator_fds) (rw q refl))

-- Another environment for the next start.
abbrev renewed : Env → Ctx → Ctx
renewed env c = record c { job = record c.job { start_env = some env } }

renewed-Sound : (env : Env) (c : Ctx) → Sound c → Sound (renewed env c)
renewed-Sound env c h = record {
  inv = record {
    settled = h.inv.settled;
    pids = h.inv.pids;
    main_known = h.inv.main_known;
    post_start_known = h.inv.post_start_known;
    pre_stop_known = h.inv.pre_stop_known;
    blocked = h.inv.blocked;
    timer = h.inv.timer;
    timer_process = h.inv.timer_process;
    respawning = h.inv.respawning;
    idle = h.inv.idle;
  };
  around = record {
    alive = h.around.alive;
    covered = h.around.covered;
    limit = h.around.limit;
    forks = h.around.forks;
  };
}

renewed-Tracks : (env : Env) (c : Ctx) → Tracks 0 c (renewed env c)
renewed-Tracks env c = record {
  accounts = record {
    same_id = refl;
    same_sys = refl;
    trees = λ o. o;
    counts = λ i. refl;
    fresh = λ f. f;
    waiting = λ f k. refl;
    later = omega arith;
    entries = λ f i l. refl;
  };
  bounded = λ i. omega arith;
  same_leaves = refl;
}

-- Sound, with at most `n` blockers more.
abbrev pub Started : ℕ → Ctx → Option (Unit {0} × Ctx) → Type 0
Started n c r = Ensures (λ _ d. Sound d × Tracks n c d) r

then_ok :
    (P : Unit {0} → Ctx → Type 0) (c d : Ctx) (f g : M (Unit {0}))
    → f c ≡ some (tt, d)
    → Ensures P (g d)
    → Ensures P ((f >> g) c)
then_ok P c d f g q h = subst (λ x. Ensures P (((λ _. x) >> g) c)) (sym q) h

both_run :
    (c d e : Ctx) (f g : M (Unit {0}))
    → f c ≡ some (tt, d)
    → g d ≡ some (tt, e)
    → (f >> g) c ≡ some (tt, e)
both_run c d e f g q h = subst (λ x. ((λ _. x) >> g) c ≡ some (tt, e)) (sym q) h

then_both :
    (P : Unit {0} → Ctx → Type 0) (c d : Ctx) (f g k : M (Unit {0}))
    → f c ≡ some (tt, d)
    → Ensures P ((g >> k) d)
    → Ensures P ((f >> g >> k) c)
then_both P c d f g k q h = subst (λ x. Ensures P (((λ _. x) >> g >> k) c)) (sym q) h

weaken-Started :
    (m n l : ℕ) (c d : Ctx) (r : Option (Unit {0} × Ctx))
    → m + n ≤ l
    → Tracks m c d
    → Started n d r
    → Started l c r
weaken-Started m n l c d none b h k = k
weaken-Started m n l c d (some (u, e)) b h (s, k) = (s, Tracks-trans b h k)

changed-Started :
    (c : Ctx) (r : Option (Unit {0} × Ctx))
    → Sound c
    → Ensures (λ _ d. SameCounts c d) r
    → Ensures (λ _ d. Settled d) r
    → KeepsCounts c r
    → Started 0 c r
changed-Started c none h s g m = g
changed-Started c (some (u, d)) h (s, f, o, b) (inl g) m = absurd (ground (arith, h.around.alive))
changed-Started c (some (u, d)) h (s, f, o, b) (inr g) m = (
  g,
  record {
    accounts = m.accounts;
    bounded = λ i. omega (arith, m.sheds i);
    same_leaves = rw o refl;
  },
)

goal_start-Started : (c : Ctx) → Sound c → Started 0 c (job_change_goal job_start c)
goal_start-Started c h =
    changed-Started c (job_change_goal job_start c) h (change_goal_quiet job_start c h)
      (job_change_goal-Settled job_start c h refl)
      (job_change_goal-KeepsCounts job_start c h.around.alive)

-- A job that blocks nothing blocks the events of a tree, and is told to start.
block_tree-Started :
    (t : EventOperator) (c : Ctx)
    → Sound c
    → HasEvents t
    → c.job.blocking ≡ []
    → ((i : ℕ) → refs i t ≤ blockers_of i c.world.events)
    → Room (leaves t) c.world.events
    → Started (leaves t) c ((block_tree t >> job_change_goal job_start) c)
block_tree-Started t c h k z counted room =
    let (bs, es, r, cov, more, few) =
      events_taken t [] c.world.events k (refs-LeavesQueued t c.world.events counted) room
        (Covered-nil c.world.events) in
    let d = record c {
      job = record c.job { blocking = bs };
      world = record c.world { events = es };
    } in
    then_ok (λ _ e. Sound e × Tracks (leaves t) c e) c d (block_tree t) (job_change_goal job_start)
      (rw (z, r) refl)
      (weaken-Started (leaves t) 0 (leaves t) c d (job_change_goal job_start d) (omega arith)
        (shape-Tracks (leaves t) c c.job.stop_env c.job.stop_on bs es
          (subst (ShapedList c.world.events) r (events-Shaped t [] c.world.events)) (λ o. o)
          (λ i. rw z (omega (arith, more i))) (λ i. omega (arith, more i, few i)) refl)
        (goal_start-Started d (
          Put-Sound c c.job.stop_env c.job.stop_on bs (record c.world { events = es }) h cov
            h.around.forks)))

-- A job is started by the events of a tree that has its blockers beside those of the job.
pub start_job-Started :
    (t : EventOperator) (env : Env) (c : Ctx)
    → Sound c
    → HasEvents t
    → ((i : ℕ) → refs i t + count_event i c.job.blocking ≤ blockers_of i c.world.events)
    → Room (leaves t) c.world.events
    → Started (leaves t) c (start_job t env c)
unfolding start_job
start_job-Started t env c h k counted room = branch (goal_is c.job.goal job_start)
  where
    begun : Ctx
    begun = renewed env c

    started :
        Started
          (leaves t)
          c
          ((job_finished false >> add_fds t >> block_tree t >> job_change_goal job_start) begun)
    started =
        let (w, q, same, counts) = job_finished_ok false begun h.around.covered in
        let (env', p) =
          fds_ok w.sys.decimal w.sys.getenv t w.events env (codes "UPSTART_FDS") k
            (λ i. omega (arith, counted i, counts i)) in
        let answered = record begun { job = record begun.job { blocking = [] }; world = w } in
        then_both (λ _ e. Sound e × Tracks (leaves t) c e) begun (renewed env' answered)
          (job_finished false >> add_fds t) (block_tree t) (job_change_goal job_start)
          (both_run begun answered (renewed env' answered) (job_finished false) (add_fds t) q
            (ap (λ x. fds_into x answered) p))
          (weaken-Started 0 (leaves t) (leaves t) c (renewed env' answered) _ (omega arith)
            (Tracks-trans {m = 0} {n = 0} {l = 0} {c = c} {d = answered} {e = renewed env' answered}
              (omega arith)
              (Tracks-trans {m = 0} {n = 0} {l = 0} {c = c} {d = begun} {e = answered} (omega arith)
                (renewed-Tracks env c) (finished-Tracks begun answered q))
              (renewed-Tracks env' answered))
            (block_tree-Started t (renewed env' answered)
              (renewed-Sound env' answered (
                Put-Sound begun begun.job.stop_env begun.job.stop_on [] w (renewed-Sound env c h)
                  (Covered-nil w.events)
                  (λ n. subst (λ s. 0 < s.fork n) (sym same.sys) (h.around.forks n))))
              k refl (λ i. omega (arith, counted i, counts i))
              (λ i. omega (arith, room i, counts i))))

    branch :
        (b : Bool)
        → Started (leaves t) c (
            if b
            then some (tt, c)
            else (job_finished false >> add_fds t >> block_tree t >> job_change_goal job_start)
                begun)
    branch true =
        (h, record { accounts = Accounts-refl c; bounded = λ i. omega arith; same_leaves = refl })
    branch false = started
