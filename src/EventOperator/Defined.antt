-- ===== src/EventOperator/Defined.antt =====
-- An event whose environment is valid can be matched (init/event_operator.c): the assertion that an
-- entry has a value never fails.
use mathlib.Core.Option
use mathlib.Core.Path.{subst}
use feature_d.Base.{
  ℕ, ◌==◌, find_byte, Bool, true, false, if◌then◌else◌, is_some, All, Bytes, same, Option, none,
  some, List, [], ◌∷◌, ◌≡◌, refl, arith,
}
use feature_d.Environ.{Env, value_of, environ_all_valid, names}
use feature_d.Event.{Event}
use feature_d.EventOperator.{
  EventOperator, gate, leaf, Condition, condition, lookup_from, test_value, place, match_env,
  event_operator_match,
}
use feature_d.EventOperator.Meaning.{truth}
use feature_d.EventOperator.Meaning.Matched.{match-meets}
use feature_d.EventOperator.Values.{holds}

abbrev HasValues : Env → Type 0
HasValues env = All (λ e. is_some (value_of e) ≡ true) env

abbrev StartsBehind : Option Bytes → Type 0
StartsBehind none = Unit
StartsBehind (some []) = ⊥
StartsBehind (some (c ∷ s)) = Unit

find-StartsBehind : (b : ℕ) (e : Bytes) → StartsBehind (find_byte b e)
unfolding find_byte
find-StartsBehind b [] = tt
find-StartsBehind b (c ∷ e) = branch (c == b) (find-StartsBehind b e)
  where
    branch :
        (d : Bool)
        → StartsBehind (find_byte b e)
        → StartsBehind (if d then some (c ∷ e) else find_byte b e)
    branch true r = tt
    branch false r = r

valid-HasValues : (env : Env) → environ_all_valid env ≡ true → HasValues env
unfolding environ_all_valid value_of
valid-HasValues [] h = tt
valid-HasValues (e ∷ env) h = (
  behind (find_byte b'=' e) (find-StartsBehind b'=' e) (ground arith),
  valid-HasValues env (ground arith),
)
  where
    behind :
        (r : Option Bytes)
        → StartsBehind r
        → is_some r ≡ true
        → is_some (elim r [
          | none ↦ none
          | some s ↦ elim s as (λ _. Option Bytes) [ [] ↦ none | c ∷ v ↦ some v ]
        ])
          ≡ true
    behind none a b = b
    behind (some []) a b = absurd a
    behind (some (c ∷ s)) a b = refl

from-HasValues : (key : Bytes) (env : Env) → HasValues env → HasValues (lookup_from key env)
unfolding lookup_from
from-HasValues key [] h = tt
from-HasValues key (e ∷ env) h = branch (names key e) (from-HasValues key env h.1)
  where
    branch :
        (b : Bool)
        → HasValues (lookup_from key env)
        → HasValues (if b then e ∷ env else lookup_from key env)
    branch true r = h
    branch false r = r

place-HasValues :
    (v : Option Bytes) (all eenv : Env)
    → HasValues all
    → HasValues eenv
    → HasValues (place v all eenv)
unfolding place
place-HasValues none all eenv h k = k
place-HasValues (some name) all eenv h k = from-HasValues name all h

test_defined :
    (fnmatch : Bytes → Bytes → Bool) (env : Env) (c : Condition) (e : Bytes)
    → is_some (value_of e) ≡ true
    → is_some (test_value fnmatch env c e) ≡ true
unfolding test_value
test_defined fnmatch env c e h = mapped _ (value_of e) h
  where
    mapped :
        {A B : Type 0} (f : A → B) (r : Option A)
        → is_some r ≡ true
        → is_some (Option.map f r) ≡ true
    mapped f none h = absurd (ground arith)
    mapped f (some a) h = refl

match_defined :
    (fnmatch : Bytes → Bytes → Bool) (env all : Env) (os : List Bytes) (eenv : Env)
    → HasValues all
    → HasValues eenv
    → is_some (match_env fnmatch env all os eenv) ≡ true
unfolding match_env
match_defined fnmatch env all [] eenv h k = refl
match_defined fnmatch env all (o ∷ os) eenv h k =
    placed (place (condition o).var all eenv) (place-HasValues (condition o).var all eenv h k)
      (λ after a. match_defined fnmatch env all os after h a)
  where
    tested :
        (after : Env) (r : Option Bool)
        → is_some r ≡ true
        → is_some (match_env fnmatch env all os after) ≡ true
        → is_some (elim r [
          | none ↦ none
          | some ok ↦ elim ok [ false ↦ some false | true ↦ match_env fnmatch env all os after ]
        ])
          ≡ true
    tested after none d n = d
    tested after (some false) d n = refl
    tested after (some true) d n = n

    placed :
        (p : Env)
        → HasValues p
        → ((after : Env) → HasValues after → is_some (match_env fnmatch env all os after) ≡ true)
        → is_some (elim p [
          | [] ↦ some false
          | e ∷ after ↦ elim (test_value fnmatch env (condition o) e) [
            | none ↦ none
            | some ok ↦ elim ok [ false ↦ some false | true ↦ match_env fnmatch env all os after ]
          ]
        ])
          ≡ true
    placed [] a n = refl
    placed (e ∷ after) a n =
        tested after (test_value fnmatch env (condition o) e)
          (test_defined fnmatch env (condition o) e a.0) (n after a.1)

-- The value of every expression is defined for an event with a valid environment.
pub holds_defined :
    (fnmatch : Bytes → Bytes → Bool) (event : Event) (env : Env) (t : EventOperator)
    → environ_all_valid event.env ≡ true
    → (b : Bool) × (holds fnmatch event env t ≡ some b)
unfolding holds event_operator_match
holds_defined fnmatch event env (leaf true name oenv ev) h = (true, refl)
holds_defined fnmatch event env (leaf false name oenv ev) h =
    subst (λ r. (b : Bool) × (r ≡ some b)) (match-meets fnmatch name oenv event env)
      (branch (same name event.name))
  where
    known : (r : Option Bool) → is_some r ≡ true → (b : Bool) × (r ≡ some b)
    known none q = absurd (ground arith)
    known (some b) q = (b, refl)

    branch :
        (c : Bool)
        → (b : Bool) × ((if c then match_env fnmatch env event.env oenv event.env else some false)
            ≡ some b)
    branch true = known (match_env fnmatch env event.env oenv event.env) (
        match_defined fnmatch env event.env oenv event.env (valid-HasValues event.env h)
          (valid-HasValues event.env h))
    branch false = (false, refl)
holds_defined fnmatch event env (gate type v left right) h =
    both (holds fnmatch event env left) (holds fnmatch event env right)
      (holds_defined fnmatch event env left h) (holds_defined fnmatch event env right h)
  where
    both :
        (l r : Option Bool)
        → ((b : Bool) × (l ≡ some b))
        → ((b : Bool) × (r ≡ some b))
        → (b : Bool) × (elim l [ none ↦ none | some x ↦ Option.map (truth type x) r ] ≡ some b)
    both none r (b, p) q = absurd (ground arith)
    both (some x) none p (b, q) = absurd (ground arith)
    both (some x) (some y) p q = (truth type x y, refl)
