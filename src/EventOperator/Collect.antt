-- ===== src/EventOperator/Collect.antt =====
-- What `event_operator_events` and `event_operator_environment` (init/event_operator.c) take from
-- the events of a tree.
use feature_d.Base.{
  ℕ, ◌+◌, ◌<◌, ◌≤◌, true, false, is_some, none, some, List, [], ◌∷◌, ◌++◌, ◌≡◌, refl, arith, All,
  length, length-append,
}
use feature_d.Event.{Events, Blocked, blocked_event, find_event, blockers_of, event_block}
use feature_d.Event.Blockers.{blockers_of-event_block, find_event-event_block}
use feature_d.Job.Invariant.{Answerable, count_event, Covered}
use feature_d.EventOperator.{
  EventOperator, gate, leaf, true_events, block_all, event_operator_events,
}
use feature_d.EventOperator.Values.{HasEvents}
use feature_d.EventOperator.Counts.{leaves}

pub count_event-append :
    (i : ℕ) (bs cs : List Blocked) → count_event i (bs ++ cs) ≡ count_event i bs + count_event i cs
count_event-append i [] cs = omega arith
count_event-append i (b ∷ bs) cs = omega (arith, count_event-append i bs cs)

Answerable-append :
    (bs : List Blocked) (i : ℕ) → All Answerable bs → All Answerable (bs ++ (blocked_event i ∷ []))
Answerable-append [] i h = (tt, tt)
Answerable-append (b ∷ bs) i h = (h.0, Answerable-append bs i h.1)

-- Every event of the queue can take `n` more blockers.
abbrev pub Room : ℕ → Events → Type 0
Room n es = (i : ℕ) → blockers_of i es + n < 4294967296

abbrev pub Queued : List ℕ → Events → Type 0
Queued is es = All (λ i. is_some (find_event i es) ≡ true) is

pub Queued-event_block :
    (i : ℕ) (is : List ℕ) (es : Events) → Queued is es → Queued is (event_block i es)
Queued-event_block i [] es h = tt
Queued-event_block i (j ∷ is) es h =
    (rw (find_event-event_block i j es) h.0, Queued-event_block i is es h.1)

pub block_all_ok :
    (is : List ℕ) (list : List Blocked) (es : Events)
    → Queued is es
    → Room (length is) es
    → Covered list es
    → Covered (block_all is list es).0 (block_all is list es).1
unfolding block_all
block_all_ok [] list es q r h = h
block_all_ok (i ∷ is) list es q r h =
    block_all_ok is (list ++ (blocked_event i ∷ [])) (event_block i es)
      (Queued-event_block i is es q.1)
      (λ j. ground (arith, blockers_of-event_block i j es q.0, r i, r j))
      (record {
        kinds = Answerable-append list i h.kinds;
        counts = λ j. ground (
          arith,
          count_event-append j list (blocked_event i ∷ []),
          blockers_of-event_block i j es q.0,
          r i,
          h.counts j,
        );
      })

-- The events that the leaves refer to are in the queue.
abbrev pub LeavesQueued : EventOperator → Events → Type 0
LeavesQueued (gate type v left right) es = LeavesQueued left es × LeavesQueued right es
LeavesQueued (leaf v name env none) es = Unit
LeavesQueued (leaf v name env (some i)) es = is_some (find_event i es) ≡ true

Queued-append : (is js : List ℕ) (es : Events) → Queued is es → Queued js es → Queued (is ++ js) es
Queued-append [] js es h k = k
Queued-append (i ∷ is) js es h k = (h.0, Queued-append is js es h.1 k)

-- Where a leaf's event is set just where its value is true, the tree collects no more events than
-- it has leaves, and no assertion fails.
pub true_events_ok :
    (t : EventOperator) (es : Events)
    → HasEvents t
    → LeavesQueued t es
    → (is : List ℕ) × (true_events t ≡ some is) × (length is ≤ leaves t) × Queued is es
unfolding true_events
true_events_ok (leaf false v env ev) es h k = ([], refl, omega arith, tt)
true_events_ok (leaf true v env none) es h k = cc
true_events_ok (leaf true v env (some i)) es h k = (i ∷ [], refl, omega arith, (k, tt))
true_events_ok (gate type false left right) es h k = ([], refl, omega arith, tt)
true_events_ok (gate type true left right) es h k =
    let (l, p, m, a) = true_events_ok left es h.0 k.0 in
    let (r, q, n, b) = true_events_ok right es h.1 k.1 in
    (
      l ++ r,
      rw (p, q, true_events) refl,
      omega (arith, length-append l r, m, n),
      Queued-append l r es a b,
    )

-- `event_operator_events` meets no failed assertion for a tree whose leaves have an event just
-- where they are true, and keeps what the job blocks covered: each event that it puts on the list
-- gets its blocker. The events of the leaves have to be in the queue, and no count may be so high
-- that the tree's leaves make it wrap round.
pub event_operator_events_ok :
    (t : EventOperator) (list : List Blocked) (es : Events)
    → HasEvents t
    → LeavesQueued t es
    → Room (leaves t) es
    → Covered list es
    → (list' : List Blocked) × (es' : Events) × (event_operator_events t list es
        ≡ some (list', es'))
      × Covered list' es'
unfolding event_operator_events
event_operator_events_ok t list es h k r c =
    let (is, q, m, a) = true_events_ok t es h k in
    (
      (block_all is list es).0,
      (block_all is list es).1,
      rw q refl,
      block_all_ok is list es a (λ i. omega (arith, r i)) c,
    )
