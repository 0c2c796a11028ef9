-- ===== src/EventOperator/Meaning/Matched.antt =====
-- The match of a leaf and the operators of init/event_operator.c have their meaning.
use mathlib.Core.Option
use feature_d.Base.{
  ℕ, zero, suc, Bool, true, false, not, ◌&&◌, ◌==◌, take_until, if◌then◌else◌, Bytes, same, Option,
  none, some, List, [], ◌∷◌, ◌≡◌, refl, ap, ◌∙◌,
}
use feature_d.Environ.{Env, names, value_of}
use feature_d.Environ.Expand.{Expanded, failed, expanded, fuel, environ_expand}
use feature_d.Event.{Event}
use feature_d.EventOperator.{
  EventOperatorType, event_or, event_and, combine, Condition, condition, split_ne, lookup_from,
  test_value, place, match_env, event_operator_match,
}
use feature_d.EventOperator.Meaning.{
  truth, before_ne, behind_ne, equated, unequal, meant_by, index_of, entry_at, meant, is_met,
  condition_met, all_met, meets,
}

pub combine-truth : (type : EventOperatorType) (l r : Bool) → combine type l r ≡ truth type l r
combine-truth event_or true r = refl
combine-truth event_or false r = refl
combine-truth event_and true r = refl
combine-truth event_and false r = refl

-- The table from the entry with a number on.
unfoldable entries_from : ℕ → Env → Env
entries_from zero env = env
entries_from (suc n) [] = []
entries_from (suc n) (e ∷ env) = entries_from n env

abbrev from_index : Option ℕ → Env → Env
from_index none env = []
from_index (some k) env = entries_from k env

lookup-index_of :
    (key : Bytes) (env : Env) → lookup_from key env ≡ from_index (index_of key env) env
unfolding lookup_from index_of entries_from
lookup-index_of key [] = refl
lookup-index_of key (e ∷ env) = branch (names key e) (index_of key env) (lookup-index_of key env)
  where
    branch :
        (b : Bool) (r : Option ℕ)
        → lookup_from key env ≡ from_index r env
        → (if b then e ∷ env else lookup_from key env)
          ≡ from_index (if b then some 0 else Option.map suc r) (e ∷ env)
    branch true r q = refl
    branch false none q = q
    branch false (some k) q = q

place-meant :
    (v : Option Bytes) (n : ℕ) (all : Env)
    → place v all (entries_from n all) ≡ from_index (meant v n all) all
unfolding place
place-meant none n all = refl
place-meant (some key) n all = lookup-index_of key all

abbrev entries_of : Option Bytes → Env → Env
entries_of none env = []
entries_of (some e) env = e ∷ env

from-entry_at :
    (k : ℕ) (env : Env)
    → entries_from k env ≡ entries_of (entry_at k env) (entries_from (suc k) env)
unfolding entries_from entry_at
from-entry_at zero [] = refl
from-entry_at zero (e ∷ env) = refl
from-entry_at (suc k) [] = refl
from-entry_at (suc k) (e ∷ []) = from-entry_at k []
from-entry_at (suc k) (e ∷ f ∷ env) = from-entry_at k (f ∷ env)

test-condition_met :
    (fnmatch : Bytes → Bytes → Bool) (env : Env) (c : Condition) (e : Bytes)
    → test_value fnmatch env c e ≡ condition_met fnmatch env c (value_of e)
unfolding test_value
test-condition_met fnmatch env c e = branch (value_of e)
  where
    fits :
        (v : Bytes) (b : Bool) (r : Expanded Bytes)
        → elim r [ expanded text ↦ if b then not (fnmatch text v) else fnmatch text v | _ ↦ false ]
          ≡ is_met fnmatch b v r
    fits v true (expanded text) = refl
    fits v false (expanded text) = refl
    fits v true (failed e) = refl
    fits v false (failed e) = refl
    fits v true fuel = refl
    fits v false fuel = refl

    branch :
        (r : Option Bytes)
        → Option.map
            (λ eval. elim (environ_expand c.pattern_text env) [
              | expanded text ↦ if c.negate then not (fnmatch text eval) else fnmatch text eval
              | _ ↦ false
            ])
            r
          ≡ condition_met fnmatch env c r
    branch none = refl
    branch (some v) = ap some (fits v c.negate (environ_expand c.pattern_text env))

abbrev split_here : Bool → ℕ → Bytes → Option (Bytes × Bytes) → Option (Bytes × Bytes)
split_here true c s r = some ([], s)
split_here false c s r = Option.map (λ p. (c ∷ p.0, p.1)) r

split_step :
    (c d : ℕ) (s : Bytes)
    → split_ne (c ∷ d ∷ s) ≡ split_here (c == b'!' && d == b'=') c s (split_ne (d ∷ s))
unfolding split_ne
split_step c d s = branch (c == b'!' && d == b'=') (split_ne (d ∷ s))
  where
    branch :
        (b : Bool) (r : Option (Bytes × Bytes))
        → (if b then some ([], s) else Option.map (λ (p : Bytes × Bytes). (c ∷ p.0, p.1)) r)
          ≡ split_here b c s r
    branch true r = refl
    branch false r = refl

abbrev parts : Bytes → Option Bytes → Option (Bytes × Bytes)
parts name none = none
parts name (some text) = some (name, text)

split-behind_ne : (s : Bytes) → split_ne s ≡ parts (before_ne s) (behind_ne s)
unfolding split_ne
split-behind_ne [] = refl
split-behind_ne (c ∷ []) = refl
split-behind_ne (c ∷ d ∷ s) =
    split_step c d s
    ∙ ap (split_here (c == b'!' && d == b'=') c s) (split-behind_ne (d ∷ s))
    ∙ branch (c == b'!' && d == b'=') (before_ne (d ∷ s)) (behind_ne (d ∷ s))
  where
    branch :
        (b : Bool) (name : Bytes) (r : Option Bytes)
        → split_here b c s (parts name r)
          ≡ parts (if b then [] else c ∷ name) (if b then some s else r)
    branch true name r = refl
    branch false name none = refl
    branch false name (some text) = refl

condition-meant_by : (s : Bytes) → condition s ≡ meant_by s
unfolding condition meant_by
condition-meant_by s = ap read (split-behind_ne s) ∙ unequal_of (behind_ne s)
  where
    read : Option (Bytes × Bytes) → Condition
    read r = elim r [
      | some (name, text) ↦ record { var = some name; negate = true; pattern_text = text }
      | none ↦ elim (value_of s) [
        | some text ↦ record { var = some (take_until b'=' s); negate = false; pattern_text = text }
        | none ↦ record { var = none; negate = false; pattern_text = s }
      ]
    ]

    equated_of :
        (v : Option Bytes)
        → elim v [
          | some text ↦ record {
            var = some (take_until b'=' s);
            negate = false;
            pattern_text = text;
          }
          | none ↦ record { var = none; negate = false; pattern_text = s }
        ]
          ≡ equated s v
    equated_of none = refl
    equated_of (some text) = refl

    unequal_of : (r : Option Bytes) → read (parts (before_ne s) r) ≡ unequal s r
    unequal_of none = equated_of (value_of s)
    unequal_of (some text) = refl

-- The loop of the code, from where it stands, is the meaning of the conditions that are left.
match-all_met :
    (fnmatch : Bytes → Bytes → Bool) (env all : Env) (os : List Bytes) (n : ℕ)
    → match_env fnmatch env all os (entries_from n all) ≡ all_met fnmatch env all os n
unfolding match_env all_met
match-all_met fnmatch env all [] n = refl
match-all_met fnmatch env all (o ∷ os) n =
    ap by_condition (condition-meant_by o)
    ∙ ap after_place (place-meant (meant_by o).var n all)
    ∙ by_index (meant (meant_by o).var n all) (λ k. match-all_met fnmatch env all os (suc k))
  where
    by_condition : Condition → Option Bool
    by_condition c = elim (place c.var all (entries_from n all)) [
      | [] ↦ some false
      | e ∷ after ↦ elim (test_value fnmatch env c e) [
        | none ↦ none
        | some ok ↦ elim ok [ false ↦ some false | true ↦ match_env fnmatch env all os after ]
      ]
    ]

    after_place : Env → Option Bool
    after_place p = elim p [
      | [] ↦ some false
      | e ∷ after ↦ elim (test_value fnmatch env (meant_by o) e) [
        | none ↦ none
        | some ok ↦ elim ok [ false ↦ some false | true ↦ match_env fnmatch env all os after ]
      ]
    ]

    by_test :
        (k : ℕ) (after : Env) (r s : Option Bool)
        → r ≡ s
        → match_env fnmatch env all os after ≡ all_met fnmatch env all os (suc k)
        → elim r [
          | none ↦ none
          | some ok ↦ elim ok [ false ↦ some false | true ↦ match_env fnmatch env all os after ]
        ]
          ≡ elim s [
            | none ↦ none
            | some ok ↦ elim ok [ false ↦ some false | true ↦ all_met fnmatch env all os (suc k) ]
          ]
    by_test k after r none q i = rw q refl
    by_test k after r (some false) q i = rw q refl
    by_test k after r (some true) q i = rw q i

    by_entry :
        (k : ℕ) (r : Option Bytes)
        → match_env fnmatch env all os (entries_from (suc k) all)
          ≡ all_met fnmatch env all os (suc k)
        → after_place (entries_of r (entries_from (suc k) all)) ≡ elim r [
          | none ↦ some false
          | some e ↦ elim (condition_met fnmatch env (meant_by o) (value_of e)) [
            | none ↦ none
            | some ok ↦ elim ok [ false ↦ some false | true ↦ all_met fnmatch env all os (suc k) ]
          ]
        ]
    by_entry k none i = refl
    by_entry k (some e) i =
        by_test k (entries_from (suc k) all) (test_value fnmatch env (meant_by o) e)
          (condition_met fnmatch env (meant_by o) (value_of e))
          (test-condition_met fnmatch env (meant_by o) e) i

    by_index :
        (r : Option ℕ)
        → ((k : ℕ)
            → match_env fnmatch env all os (entries_from (suc k) all)
              ≡ all_met fnmatch env all os (suc k))
        → after_place (from_index r all) ≡ elim r [
          | none ↦ some false
          | some k ↦ elim (entry_at k all) [
            | none ↦ some false
            | some e ↦ elim (condition_met fnmatch env (meant_by o) (value_of e)) [
              | none ↦ none
              | some ok ↦ elim ok [ false ↦ some false | true ↦ all_met fnmatch env all os (suc k) ]
            ]
          ]
        ]
    by_index none i = refl
    by_index (some k) i = ap after_place (from-entry_at k all) ∙ by_entry k (entry_at k all) (i k)

pub match-meets :
    (fnmatch : Bytes → Bytes → Bool) (name : Bytes) (oenv : Env) (event : Event) (env : Env)
    → event_operator_match fnmatch name oenv event env ≡ meets fnmatch name oenv event env
unfolding event_operator_match meets entries_from
match-meets fnmatch name oenv event env =
    ap (λ r. if same name event.name then r else some false)
      (match-all_met fnmatch env event.env oenv 0)
