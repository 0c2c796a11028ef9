-- ===== src/EventOperator/Values.antt =====
-- The values of an operator tree (init/event_operator.c) under `handle` and `reset`.
use mathlib.Core.Option
use mathlib.Core.Path.{subst}
use feature_d.Base.{
  ℕ, Bool, true, false, if◌then◌else◌, is_some, Bytes, Option, none, some, ◌≡◌, refl, arith,
}
use feature_d.Environ.{Env}
use feature_d.Event.{Event, Events}
use feature_d.EventOperator.{
  EventOperator, EventOperatorType, event_or, event_and, gate, leaf, value, combine, Handled,
  handle_gate, handle_leaf, event_operator_match, event_operator_handle, event_operator_update,
}
use feature_d.EventOperator.Meaning.{truth, meets}
use feature_d.EventOperator.Meaning.Matched.{combine-truth, match-meets}

-- A leaf's value says whether it has an event.
abbrev pub HasEvents : EventOperator → Type 0
HasEvents (gate type v left right) = HasEvents left × HasEvents right
HasEvents (leaf v name env ev) = v ≡ is_some ev

-- The invariant: a gate has the value that its children give it, too.
abbrev pub IsConsistent : EventOperator → Type 0
IsConsistent (gate type v left right) =
    (v ≡ combine type (value left) (value right)) × IsConsistent left × IsConsistent right
IsConsistent (leaf v name env ev) = v ≡ is_some ev

abbrev pub IsClear : EventOperator → Type 0
IsClear (gate type v left right) = IsClear left × IsClear right × (v ≡ false)
IsClear (leaf v name env ev) = (v ≡ false) × (ev ≡ none)

-- The value of the expression, once `event` has been seen: its leaves count as true that were, or
-- that match the event now.
unfoldable pub holds : (Bytes → Bytes → Bool) → Event → Env → EventOperator → Option Bool
unfolding meets
holds fnmatch event env (leaf true name oenv ev) = some true
holds fnmatch event env (leaf false name oenv ev) = meets fnmatch name oenv event env
holds fnmatch event env (gate type v left right) = elim (holds fnmatch event env left) [
  | none ↦ none
  | some l ↦ Option.map (truth type l) (holds fnmatch event env right)
]

abbrev pub Handles : Option Handled → Option Bool → Type 0
Handles (some h) (some b) = IsConsistent h.oper × (value h.oper ≡ b)
Handles none none = Unit
Handles _ _ = ⊥

leaf-Handles :
    (name : Bytes) (oenv : Env) (ev : Option ℕ) (event : Event) (es : Events) (m : Option Bool)
    → HasEvents (leaf false name oenv ev)
    → Handles
        (Option.map
          (λ hit.
            if hit
            then handle_leaf name oenv event es
            else record { oper = leaf false name oenv ev; matched = false; events = es })
          m)
        m
unfolding handle_leaf
leaf-Handles name oenv ev event es none h = tt
leaf-Handles name oenv ev event es (some true) h = (refl, refl)
leaf-Handles name oenv ev event es (some false) h = (h, refl)

gate-Handles :
    (type : EventOperatorType) (l : Handled) (bl : Bool) (r : Option Handled) (br : Option Bool)
    → IsConsistent l.oper
    → value l.oper ≡ bl
    → Handles r br
    → Handles (Option.map (handle_gate type l) r) (Option.map (truth type bl) br)
unfolding handle_gate
gate-Handles type l bl none none c e h = tt
gate-Handles type l bl none (some b) c e h = absurd h
gate-Handles type l bl (some r) none c e h = absurd h
gate-Handles type l bl (some r) (some b) c e h =
    ((refl, c, h.0), rw (e, h.1) (combine-truth type bl b))

node-Handles :
    (type : EventOperatorType) (l : Option Handled) (bl : Option Bool)
    (r : Handled → Option Handled) (br : Option Bool)
    → Handles l bl
    → ((h : Handled) → Handles (r h) br)
    → Handles
        (elim l [ none ↦ none | some h ↦ Option.map (handle_gate type h) (r h) ])
        (elim bl [ none ↦ none | some b ↦ Option.map (truth type b) br ])
node-Handles type none none r br h k = tt
node-Handles type none (some b) r br h k = absurd h
node-Handles type (some l) none r br h k = absurd h
node-Handles type (some l) (some b) r br h k = gate-Handles type l b (r l) br h.0 h.1 (k l)

-- Where the leaves of the tree have an event just where they are true, it is consistent after
-- `event_operator_handle`, and its value is that of the expression: a gate has the value of the
-- truth table of its operator, and a leaf is true that was true before, or whose name is that of
-- the event and whose conditions are met by the entries that they are about, by name or by number.
-- The call fails its assertion just where the expression's value meets an entry with no value.
pub handle-holds :
    (fnmatch : Bytes → Bytes → Bool) (t : EventOperator) (event : Event) (env : Env) (es : Events)
    → HasEvents t
    → Handles (event_operator_handle fnmatch t event env es) (holds fnmatch event env t)
unfolding event_operator_handle holds
handle-holds fnmatch (leaf true name oenv ev) event env es h = ground arith
handle-holds fnmatch (leaf false name oenv ev) event env es h =
    subst (λ m. Handles (event_operator_handle fnmatch (leaf false name oenv ev) event env es) m)
      (match-meets fnmatch name oenv event env)
      (leaf-Handles name oenv ev event es (event_operator_match fnmatch name oenv event env) h)
handle-holds fnmatch (gate type v left right) event env es h =
    node-Handles type (event_operator_handle fnmatch left event env es)
      (holds fnmatch event env left) (λ l. event_operator_handle fnmatch right event env l.events)
      (holds fnmatch event env right) (handle-holds fnmatch left event env es h.0)
      (λ l. handle-holds fnmatch right event env l.events h.1)

combine-false : (type : EventOperatorType) → combine type false false ≡ false
combine-false event_or = refl
combine-false event_and = refl

-- The tree with no event seen.
abbrev pub cleared : EventOperator → EventOperator
cleared (gate type v left right) = event_operator_update type (cleared left) (cleared right)
cleared (leaf v name env ev) = leaf false name env none

value-cleared : (t : EventOperator) → value (cleared t) ≡ false
value-cleared (gate type v left right) =
    rw (value-cleared left, value-cleared right) (combine-false type)
value-cleared (leaf v name env ev) = refl

pub cleared-IsClear : (t : EventOperator) → IsClear (cleared t)
cleared-IsClear (gate type v left right) =
    (cleared-IsClear left, cleared-IsClear right, value-cleared (gate type v left right))
cleared-IsClear (leaf v name env ev) = (refl, refl)

pub cleared-IsConsistent : (t : EventOperator) → IsConsistent (cleared t)
cleared-IsConsistent (gate type v left right) =
    (refl, cleared-IsConsistent left, cleared-IsConsistent right)
cleared-IsConsistent (leaf v name env ev) = refl

pub IsConsistent-HasEvents : (t : EventOperator) → IsConsistent t → HasEvents t
IsConsistent-HasEvents (gate type v left right) h =
    (IsConsistent-HasEvents left h.1, IsConsistent-HasEvents right h.2)
IsConsistent-HasEvents (leaf v name env ev) h = h
