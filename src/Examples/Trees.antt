-- ===== src/Examples/Trees.antt =====
-- Operator trees (init/event_operator.c) on a queue of two events.
use feature_d.Base.{
  ℕ, ◌+◌, ◌<◌, ◌≤◌, true, false, Bytes, codes, same, none, some, List, [], ◌∷◌, ◌≡◌, refl, arith,
}
use feature_d.Event.{Event, Events, pending, find_event, blockers_of, Blocked}
use feature_d.EventOperator.{
  EventOperator, event_or, gate, leaf, event_operator_handle, event_operator_reset,
  event_operator_events,
}
use feature_d.EventOperator.Values.{IsClear, IsConsistent, Handles, holds, handle-holds}
use feature_d.EventOperator.Counts.{refs, Holds, reset_ok, handle-counts}
use feature_d.EventOperator.Collect.{event_operator_events_ok}
use feature_d.Job.Invariant.{Covered}

abbrev event : ℕ → Bytes → ℕ → Event
event i name blockers = record {
  id = i;
  session = none;
  name = name;
  env = codes "IFACE=eth0" ∷ [];
  fd = none;
  progress = pending;
  failed = false;
  blockers = blockers;
  blocking = [];
}

abbrev queue : Events
queue = event 7 (codes "net-up") 1 ∷ event 8 (codes "mounted") 0 ∷ []

-- `net-up or mounted IFACE=eth0`, with the first event seen.
abbrev tree : EventOperator
tree =
    gate event_or true (leaf true (codes "net-up") [] (some 7))
      (leaf false (codes "mounted") (codes "IFACE=eth0" ∷ []) none)

handle-holds_example :
    Handles
      (event_operator_handle same tree (event 8 (codes "mounted") 0) [] queue)
      (holds same (event 8 (codes "mounted") 0) [] tree)
handle-holds_example = handle-holds same tree (event 8 (codes "mounted") 0) [] queue (refl, refl)

handle-counts_example :
    Holds tree
      (event 8 (codes "mounted") 0)
      queue
      (event_operator_handle same tree (event 8 (codes "mounted") 0) [] queue)
unfolding find_event blockers_of
handle-counts_example =
    handle-counts same tree (event 8 (codes "mounted") 0) [] queue (refl, refl) refl (ground arith)

tree-refs : (i : ℕ) → refs i tree ≤ blockers_of i queue
unfolding blockers_of find_event
tree-refs i = ground arith

reset_ok_example :
    (t : EventOperator) × (es : Events) × (event_operator_reset tree queue ≡ some (t, es))
    × IsClear t
    × IsConsistent t
    × ((i : ℕ) → blockers_of i es + refs i tree ≡ blockers_of i queue)
reset_ok_example = reset_ok tree queue tree-refs

queue_room : (i : ℕ) → blockers_of i queue + 2 < 4294967296
unfolding blockers_of find_event
queue_room i = ground arith

event_operator_events_ok_example :
    (list : List Blocked) × (es : Events) × (event_operator_events tree [] queue ≡ some (list, es))
    × Covered list es
unfolding find_event
event_operator_events_ok_example =
    event_operator_events_ok tree [] queue (refl, refl) (refl, tt) queue_room
      (record { kinds = tt; counts = λ i. omega arith })
