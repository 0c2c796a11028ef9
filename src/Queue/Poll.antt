-- ===== src/Queue/Poll.antt =====
-- The body of the loop of event_poll (init/event.c).
use mathlib.Core.Path.{subst}
use feature_d.Base.{
  ℕ, ◌==◌, ◌≤◌, ltb, Bool, true, false, if◌then◌else◌, is_some, All, Option, none, some, [], ◌∷◌,
  ◌≡◌, refl, sym, ap, ◌⊎◌, inl, inr, arith, length,
}
use feature_d.Environ.{environ_all_valid}
use feature_d.Event.{
  EventProgress, pending, handling, finished, Event, Events, find_event, update_event,
}
use feature_d.Event.Blockers.{blockers_of-update_event_keep}
use feature_d.EventOperator.Collect.{Room}
use feature_d.Job.Ledger.Answers.{waiters-update_event, Fresh-update_event}
use feature_d.Job.StopOn.Taken.{tree_leaves}
use feature_d.Queue.{Daemon, with_events, event_finished}
use feature_d.Queue.Well.{Well}
use feature_d.Queue.Freed.{WellWithout, event_finished-WellWithout}
use feature_d.Queue.Pending.{find_of, event_pending}
use feature_d.Queue.Pending.Ready.{IsSmall}
use feature_d.Queue.Pending.Listed.{classes_room}
use feature_d.Queue.Pending.Passed.{Passes, event_pending-Passes}

abbrev pub with_progress : EventProgress → ℕ → Daemon → Daemon
with_progress p i dm =
    with_events (update_event i (λ e. record e { progress = p }) dm.world.events) dm

-- The answer says whether to poll again.
abbrev pub again : Option Daemon → Option (Bool × Daemon)
again none = none
again (some dm) = some (true, dm)

-- The part of the `switch` from EVENT_HANDLING on; `seen` is whether the event was pending.
abbrev pub settle_found : Bool → ℕ → Daemon → Option Event → Option (Bool × Daemon)
settle_found seen i dm none = none
settle_found seen i dm (some e) =
    if ltb 0 e.blockers
    then some (seen, dm)
    else again (event_finished i (with_progress finished i dm))

abbrev pub settle_after : ℕ → Option Daemon → Option (Bool × Daemon)
settle_after i none = none
settle_after i (some dm) = settle_found true i dm (find_event i dm.world.events)

abbrev pub poll_found : ℕ → Daemon → EventProgress → Option (Bool × Daemon)
poll_found i dm pending = settle_after i (event_pending i dm)
poll_found i dm handling = settle_found false i dm (find_event i dm.world.events)
poll_found i dm finished = again (event_finished i dm)

unfoldable pub poll_event : ℕ → Daemon → Option (Bool × Daemon)
poll_event i dm = elim (find_event i dm.world.events) [
  | none ↦ none
  | some e ↦ poll_found i dm e.progress
]

with_progress-Well :
    (p : EventProgress) (i : ℕ) (dm : Daemon) → Well dm → Well (with_progress p i dm)
with_progress-Well p i dm h = record {
  jobs_ok = h.jobs_ok;
  classes_ok = h.classes_ok;
  older = h.older;
  distinct = h.distinct;
  covered = λ j. omega (
    arith,
    h.covered j,
    blockers_of-update_event_keep i j (λ e. record e { progress = p }) dm.world.events
        (λ e. (refl, refl)),
  );
  fresh = Fresh-update_event dm.world.next_event i _ dm.world.events (λ e. refl) (λ e o. o) h.fresh;
  waiting = λ k. omega (
    arith,
    h.waiting k,
    waiters-update_event k i (λ e. record e { progress = p }) dm.world.events (λ e. (refl, refl)),
  );
  forks = h.forks;
}

found_progress :
    (p : EventProgress) (i : ℕ) (e : Event) (es : Events)
    → find_event i es ≡ some e
    → find_event i (update_event i (λ v. record v { progress = p }) es)
      ≡ some (record e { progress = p })
unfolding find_event update_event
found_progress p i e [] q = absurd (ground arith)
found_progress p i e (x ∷ es) q = branch (x.id == i) refl q (found_progress p i e es)
  where
    set : Event → Event
    set v = record v { progress = p }

    branch :
        (b : Bool)
        → (x.id == i) ≡ b
        → (if b then some x else find_event i es) ≡ some e
        → (find_event i es ≡ some e → find_event i (update_event i set es) ≡ some (set e))
        → find_event i (if b then set x ∷ es else x ∷ update_event i set es) ≡ some (set e)
    branch true c q f = rw c (ap (λ o. elim o [ none ↦ none | some v ↦ some (set v) ]) q)
    branch false c q f = rw c (f q)

-- The daemon is well; it is as it was where nothing more is to be done for the event.
abbrev pub Polls : Daemon → Option (Bool × Daemon) → Type 0
Polls dm none = ⊥
Polls dm (some (b, d)) = Well d × ((b ≡ true) ⊎ (d ≡ dm))

again-Polls : (dm : Daemon) (i : ℕ) (r : Option Daemon) → WellWithout i r → Polls dm (again r)
again-Polls dm i none h = h
again-Polls dm i (some d) h = (h.0, inl refl)

settle-Polls :
    (seen : Bool) (i : ℕ) (dm d : Daemon) (o : Option Event)
    → Well d
    → find_event i d.world.events ≡ o
    → is_some o ≡ true
    → ((seen ≡ true) ⊎ (d ≡ dm))
    → Polls dm (settle_found seen i d o)
settle-Polls seen i dm d none h q s t = absurd (ground arith)
settle-Polls seen i dm d (some e) h q s t = branch (ltb 0 e.blockers) refl
  where
    branch :
        (b : Bool)
        → ltb 0 e.blockers ≡ b
        → Polls dm
            (if b then some (seen, d) else again (event_finished i (with_progress finished i d)))
    branch true c = (h, t)
    branch false c = again-Polls dm i (event_finished i (with_progress finished i d)) (
        event_finished-WellWithout i (record e { progress = finished }) (with_progress finished i d)
          (with_progress-Well finished i d h) (found_progress finished i e d.world.events q) refl
          (ground (arith, c)))

-- One event of the queue is polled, where all is well, an event that has finished has no blockers, the
-- environment of the event is valid, every registered class is known, no tree has more than `l`
-- leaves and the counts of blockers are low enough for what an event can add. No assertion fails,
-- whether the event is pending, is handled or has finished, and whether or not it is let go at once;
-- all is well again, and the daemon is as it was unless the loop is to poll again.
pub poll_event-Polls :
    (l i : ℕ) (e : Event) (dm : Daemon)
    → Well dm
    → find_event i dm.world.events ≡ some e
    → (e.progress ≡ finished → e.blockers ≡ 0)
    → environ_all_valid e.env ≡ true
    → All (λ j. tree_leaves j.stop_on ≤ l) dm.jobs
    → All (IsSmall l) dm.classes
    → All (λ k. is_some (find_of k dm.classes) ≡ true) dm.world.registry.registered
    → Room (classes_room l (length dm.world.registry.registered) (length dm.jobs)) dm.world.events
    → Polls dm (poll_event i dm)
unfolding poll_event
poll_event-Polls l i e dm h q none_left v small_jobs small_classes known room =
    subst (λ o. Polls dm (elim o [ none ↦ none | some x ↦ poll_found i dm x.progress ])) (sym q)
      (by_progress e.progress refl)
  where
    passed : (r : Option Daemon) → Passes i r → Polls dm (settle_after i r)
    passed none s = s
    passed (some d) (s, t) =
        settle-Polls true i dm d (find_event i d.world.events) s refl t (inl refl)

    by_progress : (p : EventProgress) → e.progress ≡ p → Polls dm (poll_found i dm p)
    by_progress pending p =
        passed (event_pending i dm)
          (event_pending-Passes l i e dm h q p v small_jobs small_classes known room)
    by_progress handling p =
        settle-Polls false i dm dm (find_event i dm.world.events) h refl (rw q refl) (inr refl)
    by_progress finished p =
        again-Polls dm i (event_finished i dm)
          (event_finished-WellWithout i e dm h q p (none_left p))
