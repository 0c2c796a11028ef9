-- ===== src/Job/StopOn/Kept.antt =====
-- An event that is handled by the `stop on` of a job keeps the job sound (init/event.c).
use mathlib.Core.Path.{subst}
use feature_d.Base.{
  ℕ, ◌+◌, ◌≤◌, ◌&&◌, Bool, true, false, if◌then◌else◌, is_some, Bytes, Option, none, some, ◌≡◌,
  refl, sym, arith,
}
use feature_d.Event.{Event, find_event, blockers_of}
use feature_d.EventOperator.{EventOperator, value, Handled, event_operator_handle}
use feature_d.EventOperator.Values.{IsConsistent-HasEvents, holds, Handles, handle-holds}
use feature_d.EventOperator.Counts.{refs, leaves, Holds, handle-counts}
use feature_d.EventOperator.Collect.{Room}
use feature_d.EventOperator.Taken.{SameLeaves, handle-leaves, refs_le}
use feature_d.Job.{job_stop, goal_is}
use feature_d.Job.Machine.{Ctx, Ensures}
use feature_d.Job.Invariant.{Sound, count_event}
use feature_d.Job.Ledger.{Accounts-refl}
use feature_d.Job.Ledger.Shapes.{ShapedHandled, handle-Shaped}
use feature_d.Job.StopOn.{with_tree, reset_tree, stop_on_true, stop_handled, handle_stop_on}
use feature_d.Job.StopOn.Taken.{
  Tracks, Tracks-trans, shape-Tracks, Tied, Watching, Put-Sound, reset_tree-Watching,
  take_stop_events-Sound,
}

-- The job is sound with its tree, and the counts of at most `n` blockers more are kept.
abbrev pub Watched : ℕ → Ctx → Option (Unit {0} × Ctx) → Type 0
Watched n c r = Ensures (λ _ d. Watching d × Tracks n c d) r

weaken-Watched :
    (m n l : ℕ) (c d : Ctx) (r : Option (Unit {0} × Ctx))
    → m + n ≤ l
    → Tracks m c d
    → Watched n d r
    → Watched l c r
weaken-Watched m n l c d none b h k = k
weaken-Watched m n l c d (some (u, e)) b h (w, k) = (w, Tracks-trans b h k)

then_reset :
    (t : EventOperator) (n : ℕ) (c : Ctx) (r : Option (Unit {0} × Ctx))
    → Ensures (λ _ d. Sound d × Tied t d × Tracks n c d) r
    → Watched n c (elim r [ none ↦ none | some (u, d) ↦ reset_tree d ])
then_reset t n c none h = h
then_reset t n c (some (u, d)) (h, k, m) =
    weaken-Watched n 0 n c d (reset_tree d) (omega arith) m (reset_tree-Watching t d h k)

if-Watched :
    (n : ℕ) (c : Ctx) (b : Bool) (x y : Option (Unit {0} × Ctx))
    → Watched n c x
    → Watched n c y
    → Watched n c (if b then x else y)
if-Watched n c true x y h k = h
if-Watched n c false x y h k = k

stop_on_true-Watched :
    (t : EventOperator) (c : Ctx)
    → Sound c
    → Tied t c
    → Room (leaves t) c.world.events
    → Watched (leaves t) c (stop_on_true t c)
unfolding stop_on_true
stop_on_true-Watched t c h k room =
    if-Watched (leaves t) c (goal_is c.job.goal job_stop) _ _
      (weaken-Watched 0 0 (leaves t) c c (reset_tree c) (omega arith)
        (record { accounts = Accounts-refl c; bounded = λ i. omega arith; same_leaves = refl })
        (reset_tree-Watching t c h k))
      (then_reset t (leaves t) c _ (take_stop_events-Sound t c h k room))

stop_handled-Watched :
    (t : EventOperator) (event : Event) (c : Ctx) (b : Bool) (m : Option Handled)
    → Sound c
    → Tied t c
    → Room (leaves t + leaves t) c.world.events
    → Handles m (some b)
    → Holds t event c.world.events m
    → SameLeaves t m
    → ShapedHandled c.world.events m
    → Watched (leaves t + leaves t) c (stop_handled m c)
stop_handled-Watched t event c b none h k room v n l z = absurd v
stop_handled-Watched t event c b (some m) h k room (v, e) (n, s, u) l z =
    if-Watched (leaves t + leaves t) c (m.matched && value m.oper) _ _
      (weaken-Watched (leaves t) (leaves m.oper) (leaves t + leaves t) c
        (with_tree m.oper m.events c) _ (omega (arith, l)) tracked
        (stop_on_true-Watched m.oper (with_tree m.oper m.events c) sound tied
          (λ i. omega (arith, room i, n i, refs_le i m.oper, l))))
      (
        (sound, (m.oper, tied)),
        Tracks-trans {n = 0} (omega arith) tracked (record {
          accounts = Accounts-refl (with_tree m.oper m.events c);
          bounded = λ i. omega arith;
          same_leaves = refl;
        }),
      )
  where
    counted : (i : ℕ) → refs i m.oper + count_event i c.job.blocking ≤ blockers_of i m.events
    counted i = omega (arith, k.counted i, n i)

    tied : Tied m.oper (with_tree m.oper m.events c)
    tied = record { tree = refl; has = IsConsistent-HasEvents m.oper v; counted = counted }

    tracked : Tracks (leaves t) c (with_tree m.oper m.events c)
    tracked =
        shape-Tracks (leaves t) c c.job.stop_env (some m.oper) c.job.blocking m.events z
          (λ o. IsConsistent-HasEvents m.oper v) (λ i. rw k.tree (omega (arith, n i)))
          (λ i. omega (arith, n i, refs_le i m.oper, l)) (rw k.tree l)

    sound : Sound (with_tree m.oper m.events c)
    sound =
        Put-Sound c c.job.stop_env (some m.oper) c.job.blocking
          (record c.world { events = m.events }) h
          (record { kinds = h.around.covered.kinds; counts = λ i. omega (arith, counted i) })
          h.around.forks

-- The same with what else the queue has: at most two blockers more for each leaf.
pub handle_stop_on-Watched :
    (fnmatch : Bytes → Bytes → Bool) (event : Event) (t : EventOperator) (c : Ctx) (b : Bool)
    → Sound c
    → Tied t c
    → is_some (find_event event.id c.world.events) ≡ true
    → Room (leaves t + leaves t) c.world.events
    → holds fnmatch event c.job.env t ≡ some b
    → Watched (leaves t + leaves t) c (handle_stop_on fnmatch event c)
unfolding handle_stop_on
handle_stop_on-Watched fnmatch event t c b h k found room v =
    subst
      (λ s. Watched (leaves t + leaves t) c (elim s [
        | none ↦ some (tt, c)
        | some u ↦ stop_handled (event_operator_handle fnmatch u event c.job.env c.world.events) c
      ]))
      (sym k.tree)
      (stop_handled-Watched t event c b _ h k room
        (subst (Handles (event_operator_handle fnmatch t event c.job.env c.world.events)) v
          (handle-holds fnmatch t event c.job.env c.world.events k.has))
        (handle-counts fnmatch t event c.job.env c.world.events k.has found
          (omega (arith, room event.id)))
        (handle-leaves fnmatch t event c.job.env c.world.events)
        (handle-Shaped fnmatch t event c.job.env c.world.events))

watching :
    (n : ℕ) (c : Ctx) (r : Option (Unit {0} × Ctx)) → Watched n c r → Ensures (λ _ d. Watching d) r
watching n c none h = h
watching n c (some (u, d)) (h, k) = h

-- An event in the queue is handled by the `stop on` of a sound job, where the value of the
-- expression is defined (every entry that it meets has a value), the tree's leaves have an event
-- just where they are true, the tree and the job together have their blockers on the events, and no
-- count is so high that the leaves, taken twice, make it wrap round. Then no assertion fails, and
-- the job is there and sound, with a tree of which the same holds: a leaf has an event just where it
-- is true, and the tree and the job together have their blockers on the events.
pub handle_stop_on-Watching :
    (fnmatch : Bytes → Bytes → Bool) (event : Event) (t : EventOperator) (c : Ctx) (b : Bool)
    → Sound c
    → Tied t c
    → is_some (find_event event.id c.world.events) ≡ true
    → Room (leaves t + leaves t) c.world.events
    → holds fnmatch event c.job.env t ≡ some b
    → Ensures (λ _ d. Watching d) (handle_stop_on fnmatch event c)
handle_stop_on-Watching fnmatch event t c b h k found room v =
    watching (leaves t + leaves t) c _ (handle_stop_on-Watched fnmatch event t c b h k found room v)
