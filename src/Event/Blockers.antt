-- ===== src/Event/Blockers.antt =====
-- The `blockers` counts of init/event.c under the operations of the queue.
use feature_d.Base.{
  ℕ, ◌+◌, ◌-◌, ◌<◌, true, ◌==◌, if◌then◌else◌, Bytes, some, [], ◌∷◌, ◌≡◌, refl, arith, is_some,
}
use feature_d.Environ.{Env}
use feature_d.Event.{
  Event, Events, find_event, update_event, blockers_of, event_new, event_block, event_unblock,
}

-- An update that keeps the count, as the one that marks an event failed.
pub blockers_of-update_event_keep :
    (i j : ℕ) (f : Event → Event) (es : Events)
    → ((e : Event) → ((f e).id ≡ e.id) × ((f e).blockers ≡ e.blockers))
    → blockers_of j (update_event i f es) ≡ blockers_of j es
unfolding blockers_of update_event
blockers_of-update_event_keep i j f [] h = refl
blockers_of-update_event_keep i j f (e ∷ es) h =
    ground (arith, h e, blockers_of-update_event_keep i j f es h)

pub blockers_of-event_new :
    (i j : ℕ) (name : Bytes) (env : Env) (es : Events)
    → blockers_of j (event_new i name env es) ≡ blockers_of j es
unfolding blockers_of event_new
blockers_of-event_new i j name env [] = ground arith
blockers_of-event_new i j name env (e ∷ es) = ground (arith, blockers_of-event_new i j name env es)

pub blockers_of-minus :
    (i j : ℕ) (es : Events)
    → blockers_of j (update_event i (λ e. record e { blockers = e.blockers - 1 }) es)
      ≡ (if i == j then blockers_of j es - 1 else blockers_of j es)
unfolding blockers_of update_event
blockers_of-minus i j [] = ground arith
blockers_of-minus i j (e ∷ es) = ground (arith, blockers_of-minus i j es)

-- An event that has a blocker can be unblocked, and no other event's count changes.
pub event_unblock_ok :
    (i : ℕ) (es : Events)
    → 0 < blockers_of i es
    → (es' : Events) × (event_unblock i es ≡ some es')
      × ((j : ℕ) → blockers_of j es' ≡ (if i == j then blockers_of j es - 1 else blockers_of j es))
unfolding event_unblock
event_unblock_ok i es h = (
  update_event i (λ e. record e { blockers = e.blockers - 1 }) es,
  ground arith,
  λ j. blockers_of-minus i j es,
)

-- A block counts one more, for an event in the queue whose count does not wrap round.
pub blockers_of-event_block :
    (i j : ℕ) (es : Events)
    → is_some (find_event i es) ≡ true
    → blockers_of i es + 1 < 4294967296
    → blockers_of j (event_block i es) ≡ (if i == j then blockers_of j es + 1 else blockers_of j es)
unfolding blockers_of event_block find_event
blockers_of-event_block i j [] h k = cc
blockers_of-event_block i j (e ∷ es) h k = ground (arith, blockers_of-event_block i j es)

pub find_event-event_block :
    (i j : ℕ) (es : Events) → is_some (find_event j (event_block i es)) ≡ is_some (find_event j es)
unfolding event_block find_event
find_event-event_block i j [] = refl
find_event-event_block i j (e ∷ es) = ground (arith, find_event-event_block i j es)
