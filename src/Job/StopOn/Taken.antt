-- ===== src/Job/StopOn/Taken.antt =====
-- The events that stop a job (init/event.c) are taken over, and the tree is reset.
use mathlib.Core.Path.{subst}
use feature_d.Base.{
  ℕ, ◌+◌, ◌≤◌, ◌<◌, false, codes, Option, none, some, List, [], ◌≡◌, refl, sym, ◌∙◌, inl, inr,
  arith,
}
use feature_d.Environ.{Env}
use feature_d.Event.{Events, Blocked, blockers_of}
use feature_d.EventOperator.{gate, leaf, EventOperator}
use feature_d.EventOperator.Values.{HasEvents, IsClear, IsConsistent-HasEvents}
use feature_d.EventOperator.Counts.{refs, leaves, reset_ok}
use feature_d.EventOperator.Collect.{Room}
use feature_d.EventOperator.Taken.{
  SameLeavesTree, reset-leaves, refs-LeavesQueued, environment_ok, events_taken,
}
use feature_d.Job.{job_stop}
use feature_d.Job.Machine.{World, M, Ctx, Ensures, ◌>>◌}
use feature_d.Job.Invariant.{Sound, Settled, Covered, count_event}
use feature_d.Job.Ledger.{own, tree_refs, TreeOk, Accounts, Accounts-trans, Partly}
use feature_d.Job.Ledger.Answers.{FinishedAs, job_finished-Conserves}
use feature_d.Job.Ledger.Shapes.{
  SameShape, SameShape-refl, ShapedTree, ShapedList, reset-Shaped, events-Shaped,
}
use feature_d.Job.Change.Ledger.{KeepsCounts, job_change_goal-KeepsCounts}
use feature_d.Job.Finished.{job_finished}
use feature_d.Job.Finished.Covered.{SameRest, job_finished_ok, Covered-nil}
use feature_d.Job.Change.{job_change_goal}
use feature_d.Job.Change.Quiet.{SameCounts, change_goal_quiet}
use feature_d.Job.Change.Handlers.{job_change_goal-Settled}
use feature_d.Job.StopOn.{
  reset_tree, reset_held, reset_answer, stop_with, blocked_by, take_stop_events,
}

-- The tree is the job's, its leaves have an event just where they are true, and its events have its
-- blockers beside those of what the job blocks.
pub record Tied (t : EventOperator) (c : Ctx) : Type 0 where
  pub tree : c.job.stop_on ≡ some t
  pub has : HasEvents t
  pub counted : (i : ℕ) → refs i t + count_event i c.job.blocking ≤ blockers_of i c.world.events

pub Put-Sound :
    (c : Ctx) (env : Option Env) (t : Option EventOperator) (bs : List Blocked) (w : World)
    → Sound c
    → Covered bs w.events
    → ((n : ℕ) → 0 < w.sys.fork n)
    → Sound
        (record c { job = record c.job { stop_env = env; stop_on = t; blocking = bs }; world = w })
Put-Sound c env t bs w h k f = record {
  inv = record {
    settled = h.inv.settled;
    pids = h.inv.pids;
    main_known = h.inv.main_known;
    post_start_known = h.inv.post_start_known;
    pre_stop_known = h.inv.pre_stop_known;
    blocked = h.inv.blocked;
    timer = h.inv.timer;
    timer_process = h.inv.timer_process;
    respawning = h.inv.respawning;
    idle = h.inv.idle;
  };
  around = record { alive = h.around.alive; covered = k; limit = h.around.limit; forks = f };
}

-- The job is sound, and has a tree with its blockers.
abbrev pub Watching : Ctx → Type 0
Watching d = Sound d × ((t : EventOperator) × Tied t d)

pub clear_refs : (i : ℕ) (t : EventOperator) → IsClear t → refs i t ≡ 0
clear_refs i (leaf v name env none) h = refl
clear_refs i (leaf v name env (some j)) h = absurd (ground (arith, h))
clear_refs i (gate type v left right) h =
    omega (arith, clear_refs i left h.0, clear_refs i right h.1)

abbrev pub tree_leaves : Option EventOperator → ℕ
tree_leaves none = 0
tree_leaves (some t) = leaves t

-- What the job holds and what the queue counts change alike, and no event gets more than `n`
-- blockers more.
pub record Tracks (n : ℕ) (c d : Ctx) : Type 0 where
  pub accounts : Accounts c d
  pub bounded : (i : ℕ) → blockers_of i d.world.events ≤ blockers_of i c.world.events + n
  pub same_leaves : tree_leaves d.job.stop_on ≡ tree_leaves c.job.stop_on

pub Tracks-trans :
    {m n l : ℕ} {c d e : Ctx} → m + n ≤ l → Tracks m c d → Tracks n d e → Tracks l c e
Tracks-trans b h k = record {
  accounts = Accounts-trans h.accounts k.accounts;
  bounded = λ i. omega (arith, b, h.bounded i, k.bounded i);
  same_leaves = k.same_leaves ∙ h.same_leaves;
}

-- A change of the blockers, of the tree and of the list of a job.
pub shape-Tracks :
    (n : ℕ) (c : Ctx) (env : Option Env) (t : Option EventOperator) (bs : List Blocked)
    (es : Events)
    → SameShape c.world.events es
    → (TreeOk c.job.stop_on → TreeOk t)
    → ((i : ℕ)
        → blockers_of i es + own i c.job
          ≡ blockers_of i c.world.events + (count_event i bs + tree_refs i t))
    → ((i : ℕ) → blockers_of i es ≤ blockers_of i c.world.events + n)
    → tree_leaves t ≡ tree_leaves c.job.stop_on
    → Tracks n c (record c {
      job = record c.job { stop_env = env; stop_on = t; blocking = bs };
      world = record c.world { events = es };
    })
shape-Tracks n c env t bs es s o q b l = record {
  accounts = record {
    same_id = refl;
    same_sys = refl;
    trees = o;
    counts = q;
    fresh = s.still_fresh c.world.next_event;
    waiting = λ f k. omega (arith, s.kept k);
    later = omega arith;
    entries = λ f i l. s.same_entries i;
  };
  bounded = b;
  same_leaves = l;
}

pub reset_tree-Watching :
    (t : EventOperator) (c : Ctx)
    → Sound c
    → Tied t c
    → Ensures (λ _ d. Watching d × Tracks 0 c d) (reset_tree c)
reset_tree-Watching t c h k =
    let (u, es, q, a, b, counts) = reset_ok t c.world.events (λ i. omega (arith, k.counted i)) in
    subst (λ s. Ensures (λ _ d. Watching d × Tracks 0 c d) (reset_held s c)) (sym k.tree)
      (subst (λ r. Ensures (λ _ d. Watching d × Tracks 0 c d) (reset_answer r c)) (sym q)
        (
          (
            Put-Sound c c.job.stop_env (some u) c.job.blocking (record c.world { events = es }) h
                (record {
                  kinds = h.around.covered.kinds;
                  counts = λ i. omega (arith, k.counted i, counts i);
                })
                h.around.forks,
            (
              u,
              record {
                tree = refl;
                has = IsConsistent-HasEvents u b;
                counted = λ i. omega (arith, k.counted i, counts i, clear_refs i u a);
              },
            ),
          ),
          shape-Tracks 0 c c.job.stop_env (some u) c.job.blocking es
              (subst (ShapedTree c.world.events) q (reset-Shaped t c.world.events))
              (λ o. IsConsistent-HasEvents u b)
              (λ i. rw k.tree (omega (arith, counts i, clear_refs i u a)))
              (λ i. omega (arith, counts i))
              (rw k.tree (subst (SameLeavesTree t) q (reset-leaves t c.world.events))),
        ))

-- A change of goal keeps the tree tied, and the job.
changed_goal :
    (t : EventOperator) (c : Ctx) (r : Option (Unit {0} × Ctx))
    → Sound c
    → Tied t c
    → Ensures (λ _ d. SameCounts c d) r
    → Ensures (λ _ d. Settled d) r
    → KeepsCounts c r
    → Ensures (λ _ d. Sound d × Tied t d × Tracks 0 c d) r
changed_goal t c none h k s g m = g
changed_goal t c (some (u, d)) h k (s, f, o, b) (inl g) m = absurd (ground (arith, h.around.alive))
changed_goal t c (some (u, d)) h k (s, f, o, b) (inr g) m = (
  g,
  record { tree = rw o k.tree; has = k.has; counted = λ i. rw (b, s i) (k.counted i) },
  record {
    accounts = m.accounts;
    bounded = λ i. omega (arith, m.sheds i);
    same_leaves = rw o refl;
  },
)

pub finished-Tracks : (c d : Ctx) → job_finished false c ≡ some (tt, d) → Tracks 0 c d
finished-Tracks c d q =
    let (h, b, f, s, t) =
      subst (Partly (λ _ e. FinishedAs c e)) q (job_finished-Conserves false c) in
    record {
      accounts = h.accounts;
      bounded = λ i. omega (arith, h.sheds i);
      same_leaves = rw t refl;
    }

-- What is left when the goal has changed.
from_taken :
    (t : EventOperator) (n : ℕ) (c e : Ctx) (r : Option (Unit {0} × Ctx))
    → Tracks n c e
    → Ensures (λ _ d. Sound d × Tied t d × Tracks 0 e d) r
    → Ensures (λ _ d. Sound d × Tied t d × Tracks n c d) r
from_taken t n c e none h k = k
from_taken t n c e (some (u, d)) h (s, i, k) = (s, i, Tracks-trans (omega arith) h k)

-- The state in which the goal changes.
abbrev taken : Ctx → Env → List Blocked → World → Events → Ctx
taken c env bs w es = record c {
  job = record c.job { stop_env = some env; blocking = bs };
  world = record w { events = es };
}

taken-Sound :
    (t : EventOperator) (c : Ctx) (env : Env) (bs : List Blocked) (w : World) (es : Events)
    → Sound c
    → Covered bs es
    → SameRest c.world w
    → Sound (taken c env bs w es)
taken-Sound t c env bs w es h k same =
    Put-Sound c (some env) c.job.stop_on bs (record w { events = es }) h k
      (λ n. subst (λ s. 0 < s.fork n) (sym same.sys) (h.around.forks n))

finished_then :
    (P : Unit {0} → Ctx → Type 0) (c d : Ctx) (f g : M (Unit {0}))
    → job_finished false c ≡ some (tt, d)
    → Ensures P ((f >> g) d)
    → Ensures P ((job_finished false >> f >> g) c)
finished_then P c d f g q h = subst (λ x. Ensures P (((λ _. x) >> f >> g) c)) (sym q) h

-- The job takes the events that stop it, and is told to stop.
pub take_stop_events-Sound :
    (t : EventOperator) (c : Ctx)
    → Sound c
    → Tied t c
    → Room (leaves t) c.world.events
    → Ensures (λ _ d. Sound d × Tied t d × Tracks (leaves t) c d) (take_stop_events t c)
take_stop_events-Sound t c h k room =
    let queued = refs-LeavesQueued t c.world.events (λ i. omega (arith, k.counted i)) in
    let (env, p) =
      environment_ok c.world.sys.getenv t c.world.events [] (some (codes "UPSTART_STOP_EVENTS"))
        k.has queued in
    let (w, q, same, counts) =
      job_finished_ok false (record c { job = record c.job { stop_env = some env } })
        h.around.covered in
    let (bs, es, r, cov, more, few) =
      events_taken t [] w.events k.has
        (refs-LeavesQueued t w.events (λ i. omega (arith, k.counted i, counts i)))
        (λ i. omega (arith, room i, counts i)) (Covered-nil w.events) in
    let sound = taken-Sound t c env bs w es h cov same in
    let started = record c { job = record c.job { stop_env = some env } } in
    let answered = record c {
      job = record c.job { stop_env = some env; blocking = [] };
      world = w;
    } in
    let begun : Tracks 0 c started =
      shape-Tracks 0 c (some env) c.job.stop_on c.job.blocking c.world.events
        (SameShape-refl c.world.events) (λ o. o) (λ i. refl) (λ i. omega arith) refl in
    let done : Tracks 0 c answered =
      Tracks-trans (omega arith) begun (finished-Tracks started answered q) in
    let listed : Tracks (leaves t) answered (taken c env bs w es) =
      shape-Tracks (leaves t) answered (some env) c.job.stop_on bs es
        (subst (ShapedList w.events) r (events-Shaped t [] w.events)) (λ o. o)
        (λ i. omega (arith, more i)) (λ i. omega (arith, more i, few i)) refl in
    let tracked : Tracks (leaves t) c (taken c env bs w es) =
      Tracks-trans (omega arith) done listed in
    subst (λ x. Ensures (λ _ d. Sound d × Tied t d × Tracks (leaves t) c d) (stop_with x t c))
      (sym p)
      (finished_then (λ _ d. Sound d × Tied t d × Tracks (leaves t) c d) _ _ _ _ q
        (subst
          (λ x.
            Ensures (λ _ d. Sound d × Tied t d × Tracks (leaves t) c d)
              ((blocked_by x >> job_change_goal job_stop) answered))
          (sym r)
          (from_taken t (leaves t) c (taken c env bs w es)
            (job_change_goal job_stop (taken c env bs w es)) tracked
            (changed_goal t (taken c env bs w es) (job_change_goal job_stop (taken c env bs w es))
              sound
              (record {
                tree = k.tree;
                has = k.has;
                counted = λ i. omega (arith, k.counted i, counts i, more i);
              })
              (change_goal_quiet job_stop (taken c env bs w es) sound)
              (job_change_goal-Settled job_stop (taken c env bs w es) sound refl)
              (job_change_goal-KeepsCounts job_stop (taken c env bs w es) sound.around.alive)))))
