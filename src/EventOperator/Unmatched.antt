-- ===== src/EventOperator/Unmatched.antt =====
-- An event that matches no leaf leaves the tree as it is (event_operator_handle of
-- init/event_operator.c).
use mathlib.Core.Option
use feature_d.Base.{
  Bool, true, false, if◌then◌else◌, Bytes, Option, none, some, ◌≡◌, refl, sym, arith,
}
use feature_d.Environ.{Env}
use feature_d.Event.{Event, Events}
use feature_d.EventOperator.{
  EventOperator, EventOperatorType, gate, leaf, value, combine, Handled, handle_gate, handle_leaf,
  event_operator_match, event_operator_handle,
}
use feature_d.EventOperator.Values.{IsConsistent}

abbrev pub Unmatched : EventOperator → Option Handled → Type 0
Unmatched t none = Unit
Unmatched t (some h) = h.matched ≡ false → h.oper ≡ t

gate-Unmatched :
    (type : EventOperatorType) (v : Bool) (left right : EventOperator) (l : Handled)
    (r : Option Handled)
    → v ≡ combine type (value left) (value right)
    → Unmatched left (some l)
    → Unmatched right r
    → Unmatched (gate type v left right) (Option.map (handle_gate type l) r)
unfolding handle_gate
gate-Unmatched type v left right l none c h k = tt
gate-Unmatched type v left right l (some r) c h k =
    λ q. rw (h (ground (arith, q)), k (ground (arith, q)), sym c) refl

pub handle-Unmatched :
    (fnmatch : Bytes → Bytes → Bool) (t : EventOperator) (event : Event) (env : Env) (es : Events)
    → IsConsistent t
    → Unmatched t (event_operator_handle fnmatch t event env es)
unfolding event_operator_handle handle_leaf
handle-Unmatched fnmatch (leaf true name oenv ev) event env es h = λ q. refl
handle-Unmatched fnmatch (leaf false name oenv ev) event env es h =
    branch (event_operator_match fnmatch name oenv event env)
  where
    branch :
        (m : Option Bool)
        → Unmatched (leaf false name oenv ev) (
            Option.map
              (λ hit.
                if hit
                then handle_leaf name oenv event es
                else record { oper = leaf false name oenv ev; matched = false; events = es })
              m)
    branch none = tt
    branch (some true) = λ q. absurd (ground (arith, q))
    branch (some false) = λ q. refl
handle-Unmatched fnmatch (gate type v left right) event env es h =
    branch (event_operator_handle fnmatch left event env es)
      (handle-Unmatched fnmatch left event env es h.1)
      (λ l. handle-Unmatched fnmatch right event env l.events h.2)
  where
    branch :
        (l : Option Handled)
        → Unmatched left l
        → ((x : Handled) → Unmatched right (event_operator_handle fnmatch right event env x.events))
        → Unmatched (gate type v left right) (elim l [
          | none ↦ none
          | some x ↦
              Option.map
                (handle_gate type x)
                (event_operator_handle fnmatch right event env x.events)
        ])
    branch none k f = tt
    branch (some l) k f = gate-Unmatched type v left right l _ h.0 k (f l)
