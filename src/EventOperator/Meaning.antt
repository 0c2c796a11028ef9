-- ===== src/EventOperator/Meaning.antt =====
-- What an expression of events means (init/event_operator.c), without the loops and pointers of the
-- code: the truth tables of the operators, and the entry that each condition of a leaf is about.
pub mod Matched
use mathlib.Core.Option
use feature_d.Base.{
  ℕ, zero, suc, Bool, true, false, not, ◌&&◌, ◌==◌, take_until, if◌then◌else◌, Bytes, same, Option,
  none, some, List, [], ◌∷◌, ◌≡◌, refl, ap, ◌∙◌,
}
use feature_d.Environ.{Env, names, value_of}
use feature_d.Environ.Expand.{Expanded, failed, expanded, fuel, environ_expand}
use feature_d.Event.{Event}
use feature_d.EventOperator.{
  EventOperatorType, event_or, event_and, combine, Condition, condition, split_ne, lookup_from,
  test_value, place, match_env, event_operator_match,
}

-- The truth tables of `or` and `and`.
abbrev pub truth : EventOperatorType → Bool → Bool → Bool
truth event_or true r = true
truth event_or false r = r
truth event_and true r = r
truth event_and false r = false

-- Whether a text begins with `!=`.
abbrev starts_ne : Bytes → Bool
starts_ne [] = false
starts_ne (c ∷ []) = false
starts_ne (c ∷ d ∷ s) = c == b'!' && d == b'='

abbrev behind_two : Bytes → Bytes
behind_two [] = []
behind_two (c ∷ []) = []
behind_two (c ∷ d ∷ s) = s

-- The text before the first `!=`, and that behind it.
abbrev before_ne : Bytes → Bytes
before_ne [] = []
before_ne (c ∷ s) = let rest = before_ne s in if starts_ne (c ∷ s) then [] else c ∷ rest

abbrev behind_ne : Bytes → Option Bytes
behind_ne [] = none
behind_ne (c ∷ s) =
    let rest = behind_ne s in if starts_ne (c ∷ s) then some (behind_two (c ∷ s)) else rest

abbrev equated : Bytes → Option Bytes → Condition
equated s none = record { var = none; negate = false; pattern_text = s }
equated s (some text) = record {
  var = some (take_until b'=' s);
  negate = false;
  pattern_text = text;
}

abbrev unequal : Bytes → Option Bytes → Condition
unequal s none = equated s (value_of s)
unequal s (some text) = record { var = some (before_ne s); negate = true; pattern_text = text }

-- What a condition says: `!=` comes before `=`, and without either it is a bare value.
unfoldable meant_by : Bytes → Condition
meant_by s = unequal s (behind_ne s)

-- The number of the first entry with a name.
unfoldable index_of : Bytes → Env → Option ℕ
index_of key [] = none
index_of key (e ∷ env) = if names key e then some 0 else Option.map suc (index_of key env)

unfoldable entry_at : ℕ → Env → Option Bytes
entry_at n [] = none
entry_at zero (e ∷ env) = some e
entry_at (suc n) (e ∷ env) = entry_at n env

-- The number of the entry that a condition is about: the one that it names, or the next one.
abbrev meant : Option Bytes → ℕ → Env → Option ℕ
meant none next all = some next
meant (some key) next all = index_of key all

-- A condition with `!=` is met where the pattern does not match, and none is by a pattern that
-- cannot be expanded.
abbrev is_met : (Bytes → Bytes → Bool) → Bool → Bytes → Expanded Bytes → Bool
is_met fnmatch true v (expanded text) = not (fnmatch text v)
is_met fnmatch false v (expanded text) = fnmatch text v
is_met fnmatch negate v (failed e) = false
is_met fnmatch negate v fuel = false

abbrev condition_met : (Bytes → Bytes → Bool) → Env → Condition → Option Bytes → Option Bool
condition_met fnmatch env c none = none
condition_met fnmatch env c (some v) =
    some (is_met fnmatch c.negate v (environ_expand c.pattern_text env))

-- Whether all conditions are met, where `next` is the number of the entry behind the last one used.
unfoldable all_met : (Bytes → Bytes → Bool) → Env → Env → List Bytes → ℕ → Option Bool
unfolding entry_at index_of meant_by
all_met fnmatch env all [] next = some true
all_met fnmatch env all (o ∷ os) next = elim (meant (meant_by o).var next all) [
  | none ↦ some false
  | some k ↦ elim (entry_at k all) [
    | none ↦ some false
    | some e ↦ elim (condition_met fnmatch env (meant_by o) (value_of e)) [
      | none ↦ none
      | some ok ↦ elim ok [ false ↦ some false | true ↦ all_met fnmatch env all os (suc k) ]
    ]
  ]
]

-- An event meets a leaf that has its name where it meets all conditions.
unfoldable pub meets : (Bytes → Bytes → Bool) → Bytes → Env → Event → Env → Option Bool
unfolding all_met
meets fnmatch name oenv event env =
    if same name event.name then all_met fnmatch env event.env oenv 0 else some false
