-- ===== src/Job/Ledger/Shapes.antt =====
-- Blocking and unblocking of events (init/event.c, init/event_operator.c) leave all but the counts.
use mathlib.Core.Option
use feature_d.Base.{
  ℕ, ◌+◌, ◌-◌, ◌%◌, ltb, Bool, true, false, if◌then◌else◌, Bytes, Option, none, some, List, [], ◌∷◌,
  ◌++◌, ◌≡◌, refl, ◌∙◌,
}
use feature_d.Environ.{Env}
use feature_d.Event.{
  Event, Events, Blocked, blocked_event, blockers_of, find_event, update_event, event_block,
  event_unblock,
}
use feature_d.EventOperator.{
  EventOperator, EventOperatorType, gate, leaf, Handled, handle_leaf, handle_gate, Tree,
  event_operator_update, event_operator_match, event_operator_handle, event_operator_reset,
  true_events, block_all, event_operator_events,
}
use feature_d.Job.Ledger.{waiters, Fresh, entry_of}
use feature_d.Job.Ledger.Answers.{waiters-update_event, entries-update_event, Fresh-update_event}

-- The events are the same, up to their blockers.
pub record SameShape (es fs : Events) : Type 0 where
  pub kept : (k : ℕ) → waiters k fs ≡ waiters k es
  pub still_fresh : (m : ℕ) → Fresh m es → Fresh m fs
  pub same_entries : (j : ℕ) → entry_of (find_event j fs) ≡ entry_of (find_event j es)

pub SameShape-refl : (es : Events) → SameShape es es
SameShape-refl es = record { kept = λ k. refl; still_fresh = λ m f. f; same_entries = λ j. refl }

pub SameShape-trans : {es fs gs : Events} → SameShape es fs → SameShape fs gs → SameShape es gs
SameShape-trans h k = record {
  kept = λ i. k.kept i ∙ h.kept i;
  still_fresh = λ m f. k.still_fresh m (h.still_fresh m f);
  same_entries = λ j. k.same_entries j ∙ h.same_entries j;
}

-- An update of the count of blockers.
pub counted-SameShape :
    (i : ℕ) (f : Event → ℕ) (es : Events)
    → SameShape es (update_event i (λ e. record e { blockers = f e }) es)
counted-SameShape i f es = record {
  kept = λ k. waiters-update_event k i _ es (λ e. (refl, refl));
  still_fresh = λ m g. Fresh-update_event m i _ es (λ e. refl) (λ e o. o) g;
  same_entries = λ j. entries-update_event j i _ es (λ e. (refl, refl));
}

block-SameShape : (i : ℕ) (es : Events) → SameShape es (event_block i es)
unfolding event_block
block-SameShape i es = counted-SameShape i (λ e. (e.blockers + 1) % 4294967296) es

abbrev pub ShapedHandled : Events → Option Handled → Type 0
ShapedHandled es none = Unit
ShapedHandled es (some h) = SameShape es h.events

leaf-Shaped :
    (name : Bytes) (oenv : Env) (ev : Option ℕ) (event : Event) (es : Events) (m : Option Bool)
    → ShapedHandled es (
        Option.map
          (λ hit.
            if hit
            then handle_leaf name oenv event es
            else record { oper = leaf false name oenv ev; matched = false; events = es })
          m)
unfolding handle_leaf
leaf-Shaped name oenv ev event es none = tt
leaf-Shaped name oenv ev event es (some true) = block-SameShape event.id es
leaf-Shaped name oenv ev event es (some false) = SameShape-refl es

gate-Shaped :
    (type : EventOperatorType) (es : Events) (l : Handled) (m : Option Handled)
    → SameShape es l.events
    → ShapedHandled l.events m
    → ShapedHandled es (Option.map (handle_gate type l) m)
unfolding handle_gate
gate-Shaped type es l none h k = tt
gate-Shaped type es l (some r) h k = SameShape-trans h k

pub handle-Shaped :
    (fnmatch : Bytes → Bytes → Bool) (t : EventOperator) (event : Event) (env : Env) (es : Events)
    → ShapedHandled es (event_operator_handle fnmatch t event env es)
unfolding event_operator_handle
handle-Shaped fnmatch (leaf true name oenv ev) event env es = SameShape-refl es
handle-Shaped fnmatch (leaf false name oenv ev) event env es =
    leaf-Shaped name oenv ev event es (event_operator_match fnmatch name oenv event env)
handle-Shaped fnmatch (gate type v left right) event env es =
    node (event_operator_handle fnmatch left event env es) (handle-Shaped fnmatch left event env es)
      (λ l. handle-Shaped fnmatch right event env l.events)
  where
    node :
        (m : Option Handled)
        → ShapedHandled es m
        → ((l : Handled)
            → ShapedHandled l.events (event_operator_handle fnmatch right event env l.events))
        → ShapedHandled es (elim m [
          | none ↦ none
          | some l ↦
              Option.map
                (handle_gate type l)
                (event_operator_handle fnmatch right event env l.events)
        ])
    node none h k = tt
    node (some l) h k =
        gate-Shaped type es l (event_operator_handle fnmatch right event env l.events) h (k l)

block_all-SameShape :
    (is : List ℕ) (list : List Blocked) (es : Events) → SameShape es (block_all is list es).1
unfolding block_all
block_all-SameShape [] list es = SameShape-refl es
block_all-SameShape (i ∷ is) list es =
    SameShape-trans (block-SameShape i es)
      (block_all-SameShape is (list ++ (blocked_event i ∷ [])) (event_block i es))

abbrev pub ShapedList : Events → Option (List Blocked × Events) → Type 0
ShapedList es none = Unit
ShapedList es (some (bs, fs)) = SameShape es fs

pub events-Shaped :
    (t : EventOperator) (list : List Blocked) (es : Events)
    → ShapedList es (event_operator_events t list es)
unfolding event_operator_events
events-Shaped t list es = taken (true_events t)
  where
    taken : (r : Option (List ℕ)) → ShapedList es (Option.map (λ is. block_all is list es) r)
    taken none = tt
    taken (some is) = block_all-SameShape is list es

abbrev ShapedEvents : Events → Option Events → Type 0
ShapedEvents es none = Unit
ShapedEvents es (some fs) = SameShape es fs

unblock-Shaped : (i : ℕ) (es : Events) → ShapedEvents es (event_unblock i es)
unfolding event_unblock
unblock-Shaped i es = branch (ltb 0 (blockers_of i es))
  where
    branch :
        (b : Bool)
        → ShapedEvents es (
            if b
            then some (update_event i (λ e. record e { blockers = e.blockers - 1 }) es)
            else none)
    branch true = counted-SameShape i (λ e. e.blockers - 1) es
    branch false = tt

abbrev pub ShapedTree : Events → Option Tree → Type 0
ShapedTree es none = Unit
ShapedTree es (some (t, fs)) = SameShape es fs

pub reset-Shaped : (t : EventOperator) (es : Events) → ShapedTree es (event_operator_reset t es)
unfolding event_operator_reset
reset-Shaped (leaf v name oenv none) es = SameShape-refl es
reset-Shaped (leaf v name oenv (some i)) es = one (event_unblock i es) (unblock-Shaped i es)
  where
    one :
        (r : Option Events)
        → ShapedEvents es r
        → ShapedTree es (Option.map (λ fs. (leaf false name oenv none, fs)) r)
    one none h = tt
    one (some fs) h = h
reset-Shaped (gate type v left right) es =
    node (event_operator_reset left es) (reset-Shaped left es) (λ fs. reset-Shaped right fs)
  where
    last :
        (l : EventOperator) (fs : Events) (r : Option Tree)
        → SameShape es fs
        → ShapedTree fs r
        → ShapedTree es (Option.map (λ (r : Tree). (event_operator_update type l r.0, r.1)) r)
    last l fs none h k = tt
    last l fs (some (u, gs)) h k = SameShape-trans h k

    node :
        (r : Option Tree)
        → ShapedTree es r
        → ((fs : Events) → ShapedTree fs (event_operator_reset right fs))
        → ShapedTree es (elim r [
          | none ↦ none
          | some (l, fs) ↦
              Option.map
                (λ (r : Tree). (event_operator_update type l r.0, r.1))
                (event_operator_reset right fs)
        ])
    node none h k = tt
    node (some (l, fs)) h k = last l fs (event_operator_reset right fs) h (k fs)
