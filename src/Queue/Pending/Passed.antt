-- ===== src/Queue/Pending/Passed.antt =====
-- An event whose turn has come (event_pending of init/event.c) is met by class after class,
-- and the daemon stays well.
use mathlib.Core.Path.{subst}
use feature_d.Base.{
  ℕ, ◌≤◌, ◌==◌, Bool, true, false, if◌then◌else◌, is_some, All, Option, none, some, List, [], ◌∷◌,
  ◌≡◌, refl, sym, ap, arith, length, inl, inr,
}
use feature_d.Environ.{environ_all_valid}
use feature_d.Event.{Event, Events, pending, handling, find_event, update_event, blockers_of}
use feature_d.Event.Blockers.{blockers_of-update_event_keep}
use feature_d.EventOperator.Collect.{Room}
use feature_d.Job.Ledger.Answers.{waiters-update_event, Fresh-update_event, entries-update_event}
use feature_d.Job.StopOn.Taken.{tree_leaves}
use feature_d.Queue.{Daemon}
use feature_d.Queue.Well.{Well}
use feature_d.Queue.Pending.{find_of, handle_classes, pending_found, event_pending, is_pending}
use feature_d.Queue.Pending.Ready.{IsSmall, Ready, still_here}
use feature_d.Queue.Pending.Met.{Meeting}
use feature_d.Queue.Pending.Listed.{classes_room, AreDistinct, AllMet, handle_classes-AllMet}

-- The daemon is well, and the event is still in the queue.
abbrev pub Passes : ℕ → Option Daemon → Type 0
Passes i none = ⊥
Passes i (some dm) = Well dm × (is_some (find_event i dm.world.events) ≡ true)

found_id : (i : ℕ) (es : Events) (e : Event) → find_event i es ≡ some e → e.id ≡ i
unfolding find_event
found_id i [] e q = absurd (ground arith)
found_id i (x ∷ es) e q = branch (x.id == i) refl q (found_id i es e)
  where
    branch :
        (b : Bool)
        → (x.id == i) ≡ b
        → (if b then some x else find_event i es) ≡ some e
        → (find_event i es ≡ some e → e.id ≡ i)
        → e.id ≡ i
    branch true c p f = ground (arith, p)
    branch false c p f = f p

-- The daemon is well, the event is still in the queue, and the registered classes have met it.
abbrev pub Meets : ℕ → Event → Daemon → Option Daemon → Type 0
Meets i e dm none = ⊥
Meets i e dm (some d) =
    Well d
    × (is_some (find_event i d.world.events) ≡ true)
    × Meeting dm.world.sys.fnmatch e dm d dm.world.registry.registered

abbrev Distinctly : ℕ → Event → Daemon → Option Daemon → Type 0
Distinctly i e dm none = ⊥
Distinctly i e dm (some d) =
    Well d
    × (is_some (find_event i d.world.events) ≡ true)
    × (AreDistinct dm.world.registry.registered
        → Meeting dm.world.sys.fnmatch e dm d dm.world.registry.registered)

event_pending-Distinctly :
    (l i : ℕ) (e : Event) (dm : Daemon)
    → Well dm
    → find_event i dm.world.events ≡ some e
    → e.progress ≡ pending
    → environ_all_valid e.env ≡ true
    → All (λ j. tree_leaves j.stop_on ≤ l) dm.jobs
    → All (IsSmall l) dm.classes
    → All (λ k. is_some (find_of k dm.classes) ≡ true) dm.world.registry.registered
    → Room (classes_room l (length dm.world.registry.registered) (length dm.jobs)) dm.world.events
    → Distinctly i e dm (event_pending i dm)
unfolding event_pending
event_pending-Distinctly l i e dm h q p v small_jobs small_classes known room =
    subst (λ o. Distinctly i e dm (pending_found i o dm)) (sym q)
      (subst
        (λ b.
          Distinctly i e dm (if b then handle_classes dm.world.sys.fnmatch e is begun else none))
        (sym (ap is_pending p))
        (subst (λ k. Distinctly k e dm (handle_classes dm.world.sys.fnmatch e is begun))
          (found_id i dm.world.events e q)
          (distinctly (handle_classes dm.world.sys.fnmatch e is begun) (
            handle_classes-AllMet dm.world.sys.fnmatch e l (length dm.jobs) is begun v ready
              known))))
  where
    is : List ℕ
    is = dm.world.registry.registered

    es : Events
    es = update_event i (λ v. record v { progress = handling }) dm.world.events

    begun : Daemon
    begun = record dm { world = record dm.world { events = es } }

    counts : (j : ℕ) → blockers_of j es ≡ blockers_of j dm.world.events
    counts j = blockers_of-update_event_keep i j _ dm.world.events (λ e. (refl, refl))

    ready : Ready l e.id (length dm.jobs) (classes_room l (length is) (length dm.jobs)) begun
    ready = record {
      well = record {
        jobs_ok = h.jobs_ok;
        classes_ok = h.classes_ok;
        older = h.older;
        distinct = h.distinct;
        covered = λ j. omega (arith, h.covered j, counts j);
        fresh =
            Fresh-update_event dm.world.next_event i _ dm.world.events (λ e. refl) (λ e o. o)
              h.fresh;
        waiting = λ k. omega (
          arith,
          h.waiting k,
          waiters-update_event k i (λ v. record v { progress = handling }) dm.world.events
              (λ e. (refl, refl)),
        );
        forks = h.forks;
      };
      here =
          still_here (find_event e.id es) (find_event e.id dm.world.events)
            (entries-update_event e.id i _ dm.world.events (λ e. (refl, refl)))
            (rw (found_id i dm.world.events e q) (rw q refl));
      few = omega arith;
      small_jobs = small_jobs;
      small_classes = small_classes;
      room = λ j. omega (arith, room j, counts j);
    }

    same_meeting :
        (js : List ℕ) (d : Daemon)
        → Meeting dm.world.sys.fnmatch e begun d js
        → Meeting dm.world.sys.fnmatch e dm d js
    same_meeting [] d k = tt
    same_meeting (j ∷ js) d (inl (k, y)) = inl (k, same_meeting js d y)
    same_meeting (j ∷ js) d (inr k) = inr k

    distinctly :
        (r : Option Daemon) → AllMet dm.world.sys.fnmatch e is begun r → Distinctly e.id e dm r
    distinctly none k = k
    distinctly (some d) (w, y, g, o) = (w, y, λ a. same_meeting is d (o a))

pub event_pending-Passes :
    (l i : ℕ) (e : Event) (dm : Daemon)
    → Well dm
    → find_event i dm.world.events ≡ some e
    → e.progress ≡ pending
    → environ_all_valid e.env ≡ true
    → All (λ j. tree_leaves j.stop_on ≤ l) dm.jobs
    → All (IsSmall l) dm.classes
    → All (λ k. is_some (find_of k dm.classes) ≡ true) dm.world.registry.registered
    → Room (classes_room l (length dm.world.registry.registered) (length dm.jobs)) dm.world.events
    → Passes i (event_pending i dm)
event_pending-Passes l i e dm h q p v small_jobs small_classes known room =
    passes (event_pending i dm)
      (event_pending-Distinctly l i e dm h q p v small_jobs small_classes known room)
  where
    passes : (r : Option Daemon) → Distinctly i e dm r → Passes i r
    passes none k = k
    passes (some d) (w, y, k) = (w, y)

-- An event in the queue that is pending is handled where all is well: its environment is valid, the
-- registered classes are known and no two are the same, no tree has more than `l` leaves, and the
-- counts of blockers are so low that what all instances and classes can add does not make one wrap
-- round. No assertion fails and no job or event that has been freed is used, whatever instances are
-- stopped, found or made and started; all is well again, and the event is still in the queue.
-- Class after class has met the event, up to the last, or up to one whose instance has no name in
-- some environment: the `start on` of a class in its session has the value that the event gives it,
-- which is not true unless it was before, or the event has made it true and it has been cleared for
-- the next time. A class of another session keeps its tree.
pub event_pending-Meets :
    (l i : ℕ) (e : Event) (dm : Daemon)
    → Well dm
    → find_event i dm.world.events ≡ some e
    → e.progress ≡ pending
    → environ_all_valid e.env ≡ true
    → All (λ j. tree_leaves j.stop_on ≤ l) dm.jobs
    → All (IsSmall l) dm.classes
    → All (λ k. is_some (find_of k dm.classes) ≡ true) dm.world.registry.registered
    → AreDistinct dm.world.registry.registered
    → Room (classes_room l (length dm.world.registry.registered) (length dm.jobs)) dm.world.events
    → Meets i e dm (event_pending i dm)
event_pending-Meets l i e dm h q p v small_jobs small_classes known distinct room =
    meets (event_pending i dm)
      (event_pending-Distinctly l i e dm h q p v small_jobs small_classes known room)
  where
    meets : (r : Option Daemon) → Distinctly i e dm r → Meets i e dm r
    meets none k = k
    meets (some d) (w, y, k) = (w, y, k distinct)
