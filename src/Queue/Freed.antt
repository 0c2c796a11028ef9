-- ===== src/Queue/Freed.antt =====
-- The end of event_finished (init/event.c): the event goes, and nothing refers to it.
use mathlib.Core.Path.{subst}
use feature_d.Base.{
  ℕ, suc, ◌+◌, ◌≤◌, ◌<◌, ◌==◌, Bool, true, false, ◌&&◌, not, if◌then◌else◌, All, Bytes, Option,
  none, some, [], ◌∷◌, ◌++◌, codes, ◌≡◌, refl, sym, ◌∙◌, arith, ap,
}
use feature_d.Environ.{Env}
use feature_d.Event.{count_of, Event, Events, finished, blockers_of, find_event, event_new}
use feature_d.Event.Blockers.{blockers_of-update_event_keep, blockers_of-event_new}
use feature_d.Job.Machine.{World, fd_closed}
use feature_d.Job.Ledger.{waiters, Fresh, IsWaiter, entry_of}
use feature_d.Job.Ledger.Answers.{
  Fresh-update_event, Fresh-new, waiters-append, waiters-update_event, entries-update_event,
}
use feature_d.Queue.{
  Daemon, finish_entries, free_event, finish_found, event_finished, remove_event, queue_failed,
  fail_event, is_failed_name, last_slash,
}
use feature_d.Queue.Held.{all_own}
use feature_d.Queue.Well.{class_refs, Well}
use feature_d.Queue.Finished.{Emptied, entries-Emptied}

blockers_of-remove_event :
    (i j : ℕ) (es : Events)
    → (i == j) ≡ false
    → blockers_of j (remove_event i es) ≡ blockers_of j es
unfolding blockers_of find_event remove_event
blockers_of-remove_event i j [] h = refl
blockers_of-remove_event i j (e ∷ es) h = ground (arith, blockers_of-remove_event i j es h)

waiters-remove_event :
    (i k : ℕ) (es : Events)
    → entry_of (find_event i es) ≡ some []
    → waiters k (remove_event i es) ≡ waiters k es
unfolding find_event remove_event
waiters-remove_event i k [] h = refl
waiters-remove_event i k (e ∷ es) h = branch (e.id == i) h (waiters-remove_event i k es)
  where
    none_in : e.blocking ≡ [] → 0 + waiters k es ≡ waiters k (e ∷ es)
    none_in q = rw q refl

    branch :
        (b : Bool)
        → entry_of (if b then some e else find_event i es) ≡ some []
        → (entry_of (find_event i es) ≡ some [] → waiters k (remove_event i es) ≡ waiters k es)
        → waiters k (if b then es else e ∷ remove_event i es) ≡ waiters k (e ∷ es)
    branch true q f = omega (arith, none_in (ground arith))
    branch false q f = omega (arith, f q)

absent-remove_event :
    (j i : ℕ) (es : Events) → find_event j es ≡ none → find_event j (remove_event i es) ≡ none
unfolding find_event remove_event
absent-remove_event j i [] q = refl
absent-remove_event j i (e ∷ es) q = ground (arith, absent-remove_event j i es)

-- No two events have the same id, so that none of this id is left.
removed : (n i : ℕ) (es : Events) → Fresh n es → find_event i (remove_event i es) ≡ none
unfolding find_event remove_event
removed n i [] h = refl
removed n i (e ∷ es) h = branch (e.id == i) refl (removed n i es h.1)
  where
    branch :
        (b : Bool)
        → (e.id == i) ≡ b
        → find_event i (remove_event i es) ≡ none
        → find_event i (if b then es else e ∷ remove_event i es) ≡ none
    branch true q r = ground (arith, h.0.2)
    branch false q r = ground (arith, r)

Fresh-remove_event : (n i : ℕ) (es : Events) → Fresh n es → Fresh n (remove_event i es)
unfolding remove_event
Fresh-remove_event n i [] h = tt
Fresh-remove_event n i (e ∷ es) h = branch (e.id == i) (Fresh-remove_event n i es h.1)
  where
    branch :
        (b : Bool) → Fresh n (remove_event i es) → Fresh n (if b then es else e ∷ remove_event i es)
    branch true r = h.1
    branch false r = ((h.0.0, h.0.1, absent-remove_event e.id i es h.0.2), r)

entry-event_new :
    (j i : ℕ) (name : Bytes) (env : Env) (es : Events)
    → entry_of (find_event j es) ≡ some []
    → entry_of (find_event j (event_new i name env es)) ≡ some []
unfolding find_event event_new
entry-event_new j i name env [] h = absurd (ground arith)
entry-event_new j i name env (e ∷ es) h = ground (arith, entry-event_new j i name env es)

waiters-event_new :
    (k i : ℕ) (name : Bytes) (env : Env) (es : Events)
    → waiters k (event_new i name env es) ≡ waiters k es
unfolding event_new
waiters-event_new k i name env es = waiters-append k es _ ∙ omega arith

-- What the queue of a world has to do with that of another, for the entries of one event.
record Extends (i : ℕ) (w v : World) : Type 0 where
  same_sys : v.sys ≡ w.sys
  same_blockers : (j : ℕ) → blockers_of j v.events ≡ blockers_of j w.events
  same_waiters : (k : ℕ) → waiters k v.events ≡ waiters k w.events
  fresh : Fresh w.next_event w.events → Fresh v.next_event v.events
  entry : entry_of (find_event i w.events) ≡ some [] → entry_of (find_event i v.events) ≡ some []

fail_event-Extends : (i : ℕ) (e : Event) (w : World) → Extends i w (fail_event e w)
fail_event-Extends i e w = record {
  same_sys = refl;
  same_blockers = λ j.
      blockers_of-update_event_keep w.next_event j (λ v. record v { session = e.session }) _
        (λ v. (refl, refl))
      ∙ blockers_of-event_new w.next_event j (e.name ++ codes "/failed") e.env w.events;
  same_waiters = λ k.
      waiters-update_event k w.next_event (λ v. record v { session = e.session }) _
        (λ v. (refl, refl))
      ∙ waiters-event_new k w.next_event (e.name ++ codes "/failed") e.env w.events;
  fresh = λ f.
      Fresh-update_event (suc w.next_event) w.next_event _ _ (λ v. refl) (λ v o. o)
        (Fresh-new w.next_event (suc w.next_event) _ _ w.events (omega arith) f);
  entry = λ q.
      entries-update_event i w.next_event (λ v. record v { session = e.session }) _
        (λ v. (refl, refl))
      ∙ entry-event_new i w.next_event (e.name ++ codes "/failed") e.env w.events q;
}

queue_failed-Extends : (i : ℕ) (e : Event) (w : World) → Extends i w (queue_failed e w)
unfolding queue_failed
queue_failed-Extends i e w = branch (e.failed && not (is_failed_name (last_slash e.name)))
  where
    branch : (b : Bool) → Extends i w (if b then fail_event e w else w)
    branch true = fail_event-Extends i e w
    branch false = record {
      same_sys = refl;
      same_blockers = λ j. refl;
      same_waiters = λ k. refl;
      fresh = λ f. f;
      entry = λ q. q;
    }

-- The daemon is well, the event is out of the queue, and no job holds it.
abbrev pub WellWithout : ℕ → Option Daemon → Type 0
WellWithout i none = ⊥
WellWithout i (some dm) =
    Well dm
    × (find_event i dm.world.events ≡ none)
    × (all_own i dm.jobs + class_refs i dm.classes ≡ 0)

free-WellWithout :
    (i : ℕ) (o : Option Event) (dm : Daemon)
    → o ≡ find_event i dm.world.events
    → Well dm
    → entry_of (find_event i dm.world.events) ≡ some []
    → blockers_of i dm.world.events ≡ 0
    → WellWithout i (free_event i o dm)
unfolding free_event
free-WellWithout i none dm p h q z = absurd (ground arith)
free-WellWithout i (some e) dm p h q z = (
  record {
    jobs_ok = h.jobs_ok;
    classes_ok = h.classes_ok;
    older = h.older;
    distinct = h.distinct;
    covered = λ j. cover j (i == j) refl;
    fresh = Fresh-remove_event v.next_event i v.events (x.fresh h.fresh);
    waiting = λ k.
        omega (arith, waiters-remove_event i k v.events (x.entry q), x.same_waiters k, h.waiting k);
    forks = λ m. rw x.same_sys (h.forks m);
  },
  removed v.next_event i v.events (x.fresh h.fresh),
  omega (arith, h.covered i, z),
)
  where
    w : World
    w = record dm.world { out = fd_closed e.fd ∷ dm.world.out }

    v : World
    v = queue_failed e w

    x : Extends i w v
    x = queue_failed-Extends i e w

    cover :
        (j : ℕ) (b : Bool)
        → (i == j) ≡ b
        → all_own j dm.jobs + class_refs j dm.classes ≤ blockers_of j (remove_event i v.events)
    cover j true b = ground (arith, h.covered j, z)
    cover j false b =
        omega (arith, blockers_of-remove_event i j v.events b, x.same_blockers j, h.covered j)

blockers_of-found :
    (i : ℕ) (e : Event) (es : Events) → find_event i es ≡ some e → blockers_of i es ≡ e.blockers
unfolding blockers_of
blockers_of-found i e es q = ap count_of q

abbrev Older : ℕ → ℕ → Option Event → Type 0
Older n i none = Unit
Older n i (some e) = (i < n) × All IsWaiter e.blocking

older_entries :
    (n i : ℕ) (e : Event) (es : Events)
    → Fresh n es
    → find_event i es ≡ some e
    → (i < n) × All IsWaiter e.blocking
unfolding find_event
older_entries n i e [] f q = absurd (ground arith)
older_entries n i e (x ∷ es) f q = branch (x.id == i) refl q (older_entries n i e es f.1)
  where
    branch :
        (b : Bool)
        → (x.id == i) ≡ b
        → (if b then some x else find_event i es) ≡ some e
        → (find_event i es ≡ some e → (i < n) × All IsWaiter e.blocking)
        → (i < n) × All IsWaiter e.blocking
    branch true c q g = subst (Older n i) q (ground (arith, f.0.0), f.0.1)
    branch false c q g = g q

-- Where all is well, an event in the queue that has finished and has no blockers is let go without
-- a failed assertion: every job that waits for it is found and moves on, and all is well again.
-- The event is out of the queue, and no job holds it any more, neither in what it blocks nor in its `stop on`, so that none
-- refers to an event that has been freed.
pub event_finished-WellWithout :
    (i : ℕ) (e : Event) (dm : Daemon)
    → Well dm
    → find_event i dm.world.events ≡ some e
    → e.progress ≡ finished
    → e.blockers ≡ 0
    → WellWithout i (event_finished i dm)
unfolding event_finished
event_finished-WellWithout i e dm h q p z =
    subst (λ o. WellWithout i (finish_found i o dm)) (sym q)
      (rw p (
        let (l, w) = older_entries dm.world.next_event i e dm.world.events h.fresh q in
        ends (finish_entries i e.blocking dm)
          (entries-Emptied i e.blocking dm h (ap entry_of q) w l)))
  where
    ends :
        (r : Option Daemon)
        → Emptied i dm.world r
        → WellWithout i
            (elim r [ none ↦ none | some d ↦ free_event i (find_event i d.world.events) d ])
    ends none k = k
    ends (some d) (k, s, t) =
        free-WellWithout i (find_event i d.world.events) d refl k t
          (omega (arith, s i, blockers_of-found i e dm.world.events q, z))
