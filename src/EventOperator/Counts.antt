-- ===== src/EventOperator/Counts.antt =====
-- The blockers that an operator tree holds on the events of the queue (init/event_operator.c).
use mathlib.Core.Option
use feature_d.Base.{
  ℕ, ◌+◌, ◌≤◌, ◌<◌, Bool, true, false, ◌==◌, if◌then◌else◌, is_some, Bytes, Option, none, some, ◌≡◌,
  refl, arith,
}
use feature_d.Environ.{Env}
use feature_d.Event.{Event, Events, find_event, blockers_of}
use feature_d.Event.Blockers.{event_unblock_ok, blockers_of-event_block, find_event-event_block}
use feature_d.EventOperator.{
  EventOperator, EventOperatorType, gate, leaf, Handled, handle_gate, handle_leaf,
  event_operator_match, event_operator_handle, event_operator_reset, unblock_held,
}
use feature_d.EventOperator.Values.{
  IsClear, IsConsistent, HasEvents, cleared, cleared-IsClear, cleared-IsConsistent,
}

abbrev pub held : ℕ → Option ℕ → ℕ
held i none = 0
held i (some j) = if j == i then 1 else 0

-- How often the tree refers to an event.
abbrev pub refs : ℕ → EventOperator → ℕ
refs i (gate type v left right) = refs i left + refs i right
refs i (leaf v name env ev) = held i ev

-- What `event_operator_reset` answers: the cleared tree, and the queue with the blockers that the
-- tree held taken off.
abbrev Releases : EventOperator → Events → Type 0
Releases t es =
    (es' : Events) × (event_operator_reset t es ≡ some (cleared t, es'))
    × ((i : ℕ) → blockers_of i es' + refs i t ≡ blockers_of i es)

unblock_held_ok :
    (ev : Option ℕ) (es : Events)
    → ((i : ℕ) → held i ev ≤ blockers_of i es)
    → (es' : Events) × (unblock_held ev es ≡ some es')
      × ((i : ℕ) → blockers_of i es' + held i ev ≡ blockers_of i es)
unfolding unblock_held
unblock_held_ok none es h = (es, refl, λ i. omega arith)
unblock_held_ok (some j) es h =
    let (es', q, counts) = event_unblock_ok j es (ground (arith, h j)) in
    (es', q, λ i. ground (arith, counts i, h i))

reset-Releases :
    (t : EventOperator) (es : Events) → ((i : ℕ) → refs i t ≤ blockers_of i es) → Releases t es
unfolding event_operator_reset
reset-Releases (leaf v name env ev) es h =
    let (es', q, counts) = unblock_held_ok ev es h in (es', rw q refl, counts)
reset-Releases (gate type v left right) es h =
    let (es', q, counts) = reset-Releases left es (λ i. omega (arith, h i)) in
    let (es'', q', counts') = reset-Releases right es' (λ i. omega (arith, h i, counts i)) in
    (es'', rw (q, q') refl, λ i. omega (arith, counts i, counts' i))

-- Where every event has the blockers that the tree holds on it, `event_operator_reset` meets no
-- failed assertion; it clears every value and event, leaves the tree consistent, and takes just
-- the tree's own blockers off.
pub reset_ok :
    (t : EventOperator) (es : Events)
    → ((i : ℕ) → refs i t ≤ blockers_of i es)
    → (t' : EventOperator) × (es' : Events) × (event_operator_reset t es ≡ some (t', es'))
      × IsClear t'
      × IsConsistent t'
      × ((i : ℕ) → blockers_of i es' + refs i t ≡ blockers_of i es)
reset_ok t es h =
    let (es', q, counts) = reset-Releases t es h in
    (cleared t, es', q, cleared-IsClear t, cleared-IsConsistent t, counts)

abbrev pub leaves : EventOperator → ℕ
leaves (gate type v left right) = leaves left + leaves right
leaves (leaf v name env ev) = 1

-- What `event_operator_handle` does to the counts, where it answers.
abbrev pub Holds : EventOperator → Event → Events → Option Handled → Type 0
Holds t event es none = Unit
Holds t event es (some h) =
    ((i : ℕ) → blockers_of i h.events + refs i t ≡ blockers_of i es + refs i h.oper)
    × (is_some (find_event event.id h.events) ≡ true)
    × (blockers_of event.id h.events ≤ blockers_of event.id es + leaves t)

leaf-Holds :
    (name : Bytes) (oenv : Env) (event : Event) (es : Events) (m : Option Bool)
    → is_some (find_event event.id es) ≡ true
    → blockers_of event.id es + 1 < 4294967296
    → Holds (leaf false name oenv none) event es (
        Option.map
          (λ hit.
            if hit
            then handle_leaf name oenv event es
            else record { oper = leaf false name oenv none; matched = false; events = es })
          m)
unfolding handle_leaf
leaf-Holds name oenv event es none p b = tt
leaf-Holds name oenv event es (some false) p b = (λ i. refl, p, omega arith)
leaf-Holds name oenv event es (some true) p b = (
  λ i. ground (arith, blockers_of-event_block event.id i es p b),
  rw (find_event-event_block event.id event.id es) p,
  ground (arith, blockers_of-event_block event.id event.id es p b),
)

gate-Holds :
    (type : EventOperatorType) (v : Bool) (left right : EventOperator) (event : Event) (es : Events)
    (l : Handled) (r : Option Handled)
    → Holds left event es (some l)
    → Holds right event l.events r
    → Holds (gate type v left right) event es (Option.map (handle_gate type l) r)
unfolding handle_gate
gate-Holds type v left right event es l none h k = tt
gate-Holds type v left right event es l (some r) h k =
    (λ i. omega (arith, h.0 i, k.0 i), k.1, omega arith)

-- `event_operator_handle` puts just the blockers on the queue that the tree then holds in
-- addition, for an event in the queue whose count cannot wrap round, and a tree whose leaves have
-- an event where their value is true.
pub handle-counts :
    (fnmatch : Bytes → Bytes → Bool) (t : EventOperator) (event : Event) (env : Env) (es : Events)
    → HasEvents t
    → is_some (find_event event.id es) ≡ true
    → blockers_of event.id es + leaves t < 4294967296
    → Holds t event es (event_operator_handle fnmatch t event env es)
unfolding event_operator_handle
handle-counts fnmatch (leaf true name oenv ev) event env es h p b = (λ i. refl, p, omega arith)
handle-counts fnmatch (leaf false name oenv (some j)) event env es h p b = cc
handle-counts fnmatch (leaf false name oenv none) event env es h p b =
    leaf-Holds name oenv event es (event_operator_match fnmatch name oenv event env) p b
handle-counts fnmatch (gate type v left right) event env es h p b =
    node (event_operator_handle fnmatch left event env es)
      (handle-counts fnmatch left event env es h.0 p (omega arith))
      (λ l q c. handle-counts fnmatch right event env l.events h.1 q c)
  where
    node :
        (l : Option Handled)
        → Holds left event es l
        → ((k : Handled)
            → is_some (find_event event.id k.events) ≡ true
            → blockers_of event.id k.events + leaves right < 4294967296
            → Holds right event k.events (event_operator_handle fnmatch right event env k.events))
        → Holds (gate type v left right) event es (elim l [
          | none ↦ none
          | some k ↦
              Option.map
                (handle_gate type k)
                (event_operator_handle fnmatch right event env k.events)
        ])
    node none k c = tt
    node (some l) k c =
        gate-Holds type v left right event es l
          (event_operator_handle fnmatch right event env l.events) k (c l k.1 (omega arith))
