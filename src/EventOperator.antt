-- ===== src/EventOperator.antt =====
-- init/event_operator.c: expressions of events, as they stand behind `start on` and `stop on`.
-- An operator with two children is a `gate`, one that matches events is a `leaf`; the source
-- asserts that these are the only forms. `fnmatch` is that of the C library, with no flags.
pub mod Values
pub mod Counts
pub mod Collect
pub mod Taken
pub mod Defined
pub mod Meaning
pub mod Unmatched
use mathlib.Core.Option
use feature_d.Base.{
  ℕ, Bool, true, false, not, ◌&&◌, ◌||◌, ◌==◌, if◌then◌else◌, is_some, Bytes, same, codes,
  take_until, find_byte, Option, none, some, List, [], ◌∷◌, ◌++◌,
}
use feature_d.Environ.{Env, names, value_of, environ_append, environ_add}
use feature_d.Environ.Expand.{Expanded, expanded, environ_expand}
use feature_d.Event.{Event, Events, find_event, event_block, event_unblock, Blocked, blocked_event}

pub data EventOperatorType : Type 0 where
  event_or event_and : EventOperatorType

-- `value`, `name`, `env` and `event` are the fields of the source; the event is its number.
pub data EventOperator : Type 0 where
  gate : EventOperatorType → Bool → EventOperator → EventOperator → EventOperator
  leaf : Bool → Bytes → Env → Option ℕ → EventOperator

abbrev pub value : EventOperator → Bool
value (gate type v left right) = v
value (leaf v name env event) = v

-- The value that the children give an operator of the type.
abbrev pub combine : EventOperatorType → Bool → Bool → Bool
combine event_or l r = l || r
combine event_and l r = l && r

-- `event_operator_update`, for a node with its children.
abbrev pub event_operator_update : EventOperatorType → EventOperator → EventOperator → EventOperator
event_operator_update type left right =
    gate type (combine type (value left) (value right)) left right

-- A condition `NAME=VALUE`, `NAME!=VALUE` or a bare value.
pub record Condition : Type 0 where
  pub var : Option Bytes
  pub negate : Bool
  pub pattern_text : Bytes

-- The text before and behind the first `!=`, as `strstr` finds it.
split_ne : Bytes → Option (Bytes × Bytes)
split_ne [] = none
split_ne (c ∷ []) = none
split_ne (c ∷ d ∷ s) =
    let later = Option.map (λ (p : Bytes × Bytes). (c ∷ p.0, p.1)) (split_ne (d ∷ s)) in
    if c == b'!' && d == b'=' then some ([], s) else later

unfoldable pub condition : Bytes → Condition
unfolding split_ne value_of
condition s = elim (split_ne s) [
  | some (name, text) ↦ record { var = some name; negate = true; pattern_text = text }
  | none ↦ elim (value_of s) [
    | some text ↦ record { var = some (take_until b'=' s); negate = false; pattern_text = text }
    | none ↦ record { var = none; negate = false; pattern_text = s }
  ]
]

-- `environ_lookup` as the loop uses it: the table from the entry found on.
unfoldable pub lookup_from : Bytes → Env → Env
lookup_from key [] = []
lookup_from key (e ∷ env) = if names key e then e ∷ env else lookup_from key env

-- One condition against one entry of the event. `none` is the failed assertion that the entry
-- has a value. The expansion fails for want of fuel never (`environ_expand_total`).
test_value : (Bytes → Bytes → Bool) → Env → Condition → Bytes → Option Bool
test_value fnmatch env c entry =
    Option.map
      (λ eval. elim (environ_expand c.pattern_text env) [
        | expanded text ↦ if c.negate then not (fnmatch text eval) else fnmatch text eval
        | _ ↦ false
      ])
      (value_of entry)

-- Where the loop stands for a condition: at the entry of the name, or where it was.
place : Option Bytes → Env → Env → Env
unfolding lookup_from
place none all eenv = eenv
place (some name) all eenv = lookup_from name all

-- The loop over the operator's conditions; `eenv` is the event's table from the loop's place on.
unfoldable pub match_env : (Bytes → Bytes → Bool) → Env → Env → List Bytes → Env → Option Bool
unfolding test_value condition place
match_env fnmatch env all [] eenv = some true
match_env fnmatch env all (o ∷ os) eenv =
    let c = condition o in
    elim (place c.var all eenv) [
      | [] ↦ some false
      | e ∷ after ↦ elim (test_value fnmatch env c e) [
        | none ↦ none
        | some ok ↦ elim ok [ false ↦ some false | true ↦ match_env fnmatch env all os after ]
      ]
    ]

-- `event_operator_match`, for the name and conditions of a leaf.
unfoldable pub event_operator_match :
    (Bytes → Bytes → Bool) → Bytes → Env → Event → Env → Option Bool
event_operator_match fnmatch name oenv event env =
    if same name event.name then match_env fnmatch env event.env oenv event.env else some false

-- What an operation on a tree answers: the tree, whether a leaf matched, and the events.
pub record Handled : Type 0 where
  pub oper : EventOperator
  pub matched : Bool
  pub events : Events

-- A leaf that has just matched.
unfoldable pub handle_leaf : Bytes → Env → Event → Events → Handled
handle_leaf name oenv event es = record {
  oper = leaf true name oenv (some event.id);
  matched = true;
  events = event_block event.id es;
}

unfoldable pub handle_gate : EventOperatorType → Handled → Handled → Handled
handle_gate type l r = record {
  oper = event_operator_update type l.oper r.oper;
  matched = l.matched || r.matched;
  events = r.events;
}

-- `event_operator_handle`: the children first, then the node. A leaf whose value is true already
-- keeps its event; `event` is left alone by a leaf that does not match.
unfoldable pub event_operator_handle :
    (Bytes → Bytes → Bool) → EventOperator → Event → Env → Events → Option Handled
unfolding event_operator_match handle_leaf handle_gate
event_operator_handle fnmatch (leaf true name oenv ev) event env es =
    some (record { oper = leaf true name oenv ev; matched = false; events = es })
event_operator_handle fnmatch (leaf false name oenv ev) event env es =
    Option.map
      (λ hit.
        if hit
        then handle_leaf name oenv event es
        else record { oper = leaf false name oenv ev; matched = false; events = es })
      (event_operator_match fnmatch name oenv event env)
event_operator_handle fnmatch (gate type v left right) event env es =
    elim (event_operator_handle fnmatch left event env es) [
      | none ↦ none
      | some l ↦
          Option.map (handle_gate type l) (event_operator_handle fnmatch right event env l.events)
    ]

abbrev pub Tree : Type 0
Tree = EventOperator × Events

unfoldable pub unblock_held : Option ℕ → Events → Option Events
unblock_held none es = some es
unblock_held (some i) es = event_unblock i es

-- `event_operator_reset`.
unfoldable pub event_operator_reset : EventOperator → Events → Option Tree
unfolding unblock_held
event_operator_reset (leaf v name oenv ev) es =
    Option.map (λ es'. (leaf false name oenv none, es')) (unblock_held ev es)
event_operator_reset (gate type v left right) es = elim (event_operator_reset left es) [
  | none ↦ none
  | some (l, es') ↦
      Option.map (λ (r : Tree). (event_operator_update type l r.0, r.1))
        (event_operator_reset right es')
]

block_held : Option ℕ → Events → Events
block_held none es = es
block_held (some i) es = event_block i es

-- `event_operator_copy`: the copy is the same tree, and blocks each event that it refers to.
unfoldable pub event_operator_copy : EventOperator → Events → Tree
unfolding block_held
event_operator_copy (leaf v name oenv ev) es = (leaf v name oenv ev, block_held ev es)
event_operator_copy (gate type v left right) es =
    let (l, es') = event_operator_copy left es in
    let (r, es'') = event_operator_copy right es' in (gate type v l r, es'')

-- The events of the leaves that make the tree true: the tree from left to right, without the
-- nodes whose value is false and all below them. `none` is the failed assertion that a true leaf
-- has an event.
unfoldable pub true_events : EventOperator → Option (List ℕ)
true_events (leaf false name oenv ev) = some []
true_events (leaf true name oenv none) = none
true_events (leaf true name oenv (some i)) = some (i ∷ [])
true_events (gate type false left right) = some []
true_events (gate type true left right) = elim (true_events left) [
  | none ↦ none
  | some l ↦ Option.map (λ r. l ++ r) (true_events right)
]

-- `event_operator_events`, with the list of what the job blocks: each event is put on the list
-- and blocked.
unfoldable pub block_all : List ℕ → List Blocked → Events → List Blocked × Events
block_all [] list es = (list, es)
block_all (i ∷ is) list es = block_all is (list ++ (blocked_event i ∷ [])) (event_block i es)

unfoldable pub event_operator_events :
    EventOperator → List Blocked → Events → Option (List Blocked × Events)
unfolding true_events block_all
event_operator_events t list es = Option.map (λ is. block_all is list es) (true_events t)

-- Whether the list with its `=` in front ends in that byte; the name of an event may end in one, too.
ends_open : Bytes → Bool
ends_open [] = true
ends_open (c ∷ []) = c == b'='
ends_open (c ∷ d ∷ text) = ends_open (d ∷ text)

unfoldable pub add_name : Bytes → Bytes → Bytes
unfolding ends_open
add_name text name = if ends_open text then text ++ name else text ++ (b' ' ∷ name)

-- The loop of `event_operator_environment`: the table, and the list of names behind its `=`. An
-- event of the tree is blocked by it and so in the queue; where it is not, `none`.
unfoldable pub collect_env :
    (Bytes → Option Bytes) → List ℕ → Events → Env → Bytes → Option (Env × Bytes)
unfolding add_name
collect_env getenv [] es env list = some (env, list)
collect_env getenv (i ∷ is) es env list = elim (find_event i es) [
  | none ↦ none
  | some e ↦ collect_env getenv is es (environ_append getenv env true e.env) (add_name list e.name)
]

-- `event_operator_environment`, with a key or without.
unfoldable pub event_operator_environment :
    (Bytes → Option Bytes) → EventOperator → Events → Env → Option Bytes → Option Env
unfolding true_events collect_env
event_operator_environment getenv t es env key = elim (true_events t) [
  | none ↦ none
  | some is ↦
      Option.map
        (λ (r : Env × Bytes). elim key [
          | none ↦ r.0
          | some k ↦ environ_add getenv r.0 true (k ++ (b'=' ∷ r.1))
        ])
        (collect_env getenv is es env [])
]
