-- ===== src/Environ/Table.antt =====
-- Laws of the environment tables of init/environ.c: what a lookup finds after an addition.
use mathlib.Core.Option.{bind}
use feature_d.Base.{
  Bool, true, false, ◌==◌, if◌then◌else◌, is_some, Bytes, same, same-eq, same_refl, take_until,
  find_byte, Option, none, some, [], ◌∷◌, ◌++◌, ◌≡◌, refl, ap, inl, inr, arith, Bool-cases,
}
use feature_d.Environ.{
  Env, names, environ_lookup, value_of, environ_getn, overwrite, new_entry, put, environ_add,
  environ_append, environ_set, environ_all_valid,
}

-- The name of a variable: no `=` in it.
abbrev pub IsName : Bytes → Type 0
IsName key = find_byte b'=' key ≡ none

abbrev pub binding : Bytes → Bytes → Bytes
binding key value = key ++ (b'=' ∷ value)

names_unique :
    (k j e : Bytes) → IsName k → IsName j → names k e ≡ true → names j e ≡ true → same k j ≡ true
unfolding names same find_byte
names_unique [] [] e hk hj p q = refl
names_unique [] (b ∷ j) [] hk hj p q = cc
names_unique [] (b ∷ j) (c ∷ e) hk hj p q = ground arith
names_unique (a ∷ k) j [] hk hj p q = cc
names_unique (a ∷ k) [] (c ∷ e) hk hj p q = ground arith
names_unique (a ∷ k) (b ∷ j) (c ∷ e) hk hj p q = ground (arith, names_unique k j e)

names-binding : (k key v : Bytes) → IsName k → IsName key → names k (binding key v) ≡ same k key
unfolding names same find_byte
names-binding [] [] v hk h = refl
names-binding [] (b ∷ key) v hk h = ground arith
names-binding (a ∷ k) [] v hk h = ground arith
names-binding (a ∷ k) (b ∷ key) v hk h = ground (arith, names-binding k key v)

pub take_until-binding : (key v : Bytes) → IsName key → take_until b'=' (binding key v) ≡ key
unfolding take_until find_byte
take_until-binding [] v h = refl
take_until-binding (b ∷ key) v h = ground (arith, take_until-binding key v)

value_of-binding : (key v : Bytes) → IsName key → value_of (binding key v) ≡ some v
unfolding value_of find_byte
value_of-binding [] v h = refl
value_of-binding (b ∷ key) v h = ground (arith, value_of-binding key v)

pub has_eq-binding : (key v : Bytes) → is_some (find_byte b'=' (binding key v)) ≡ true
unfolding find_byte
has_eq-binding [] v = refl
has_eq-binding (b ∷ key) v = ground (arith, has_eq-binding key v)

new_entry-binding :
    (getenv : Bytes → Option Bytes) (key v : Bytes)
    → new_entry getenv (binding key v) ≡ some (binding key v)
unfolding new_entry
new_entry-binding getenv key v = rw (has_eq-binding key v)

-- What a lookup of `j` finds once `new`, an entry that names `key`, has been put.
abbrev pub found : Bool → Bool → Bytes → Option Bytes → Option Bytes
found true replace new none = some new
found true true new (some e) = some new
found true false new (some e) = some e
found false replace new old = old

lookup-overwrite :
    (key j new : Bytes) (env : Env)
    → IsName key
    → IsName j
    → names j new ≡ same j key
    → is_some (environ_lookup env key) ≡ true
    → environ_lookup (overwrite key new env) j
      ≡ (if same j key then some new else environ_lookup env j)
unfolding overwrite environ_lookup
lookup-overwrite key j new [] hk hj n h = cc
lookup-overwrite key j new (e ∷ env) hk hj n h = ground (
  arith,
  names_unique key j e,
  names_unique j key e,
  same-eq j key,
  lookup-overwrite key j new env,
)

pub lookup-append :
    (env : Env) (new j : Bytes)
    → environ_lookup (env ++ (new ∷ [])) j ≡ (
        if is_some (environ_lookup env j)
        then environ_lookup env j
        else if names j new
        then some new
        else none)
unfolding environ_lookup
lookup-append [] new j = refl
lookup-append (e ∷ env) new j = ground (arith, lookup-append env new j)

lookup-put :
    (replace : Bool) (key j new : Bytes) (env : Env)
    → IsName key
    → IsName j
    → names j new ≡ same j key
    → environ_lookup (put env replace key (some new) (is_some (environ_lookup env key))) j
      ≡ found (same j key) replace new (environ_lookup env j)
unfolding put
lookup-put replace key j new env hk hj n =
    ground (arith, lookup-overwrite key j new env, lookup-append env new j, same-eq j key)

-- Adding `key=v` binds `key` to `v`, unless it is bound and `replace` is false; every other name
-- keeps its entry. `key` and `j` hold no `=`.
pub lookup-environ_add :
    (getenv : Bytes → Option Bytes) (env : Env) (replace : Bool) (key v j : Bytes)
    → IsName key
    → IsName j
    → environ_lookup (environ_add getenv env replace (binding key v)) j
      ≡ found (same j key) replace (binding key v) (environ_lookup env j)
unfolding environ_add
lookup-environ_add getenv env replace key v j hk hj =
    rw (take_until-binding key v hk, new_entry-binding getenv key v)
      (lookup-put replace key j (binding key v) env hk hj (names-binding j key v hj hk))

-- A variable that was set with `replace` true has that value.
getn-environ_set :
    (getenv : Bytes → Option Bytes) (env : Env) (key v : Bytes)
    → IsName key
    → environ_getn (environ_set getenv env true key v) key ≡ some v
unfolding environ_getn environ_set bind value_of
getn-environ_set getenv env key v hk =
    rw (lookup-environ_add getenv env true key v key hk hk, same_refl key)
      (after (environ_lookup env key))
  where
    after : (o : Option Bytes) → bind (found true true (binding key v) o) value_of ≡ some v
    after none = value_of-binding key v hk
    after (some e) = value_of-binding key v hk

-- The entry that a lookup finds once `new` has been appended with `replace` true: the last of
-- `new` with the name, or the old one.
abbrev pub newest : Option Bytes → Bytes → Env → Option Bytes
newest old j [] = old
newest old j (e ∷ new) = newest (if names j e then some e else old) j new

entry-binding :
    (e : Bytes)
    → is_some (find_byte b'=' e) ≡ true
    → (k : Bytes) × (v : Bytes) × IsName k × (e ≡ binding k v)
unfolding find_byte
entry-binding [] h = cc
entry-binding (b ∷ e) h = elim (Bool-cases (b == b'=')) [
  | inl eq ↦ ([], e, refl, ground arith)
  | inr ne ↦ let (k, v, n, q) = entry-binding e (rw ne at h) in (b ∷ k, v, rw ne n, ap (◌∷◌ b) q)
]

found-true :
    (b : Bool) (new : Bytes) (o : Option Bytes) → found b true new o ≡ (if b then some new else o)
found-true true new none = refl
found-true true new (some e) = refl
found-true false new o = refl

lookup-add_entry :
    (getenv : Bytes → Option Bytes) (env : Env) (e j : Bytes)
    → is_some (find_byte b'=' e) ≡ true
    → IsName j
    → environ_lookup (environ_add getenv env true e) j
      ≡ (if names j e then some e else environ_lookup env j)
lookup-add_entry getenv env e j h hj =
    let (k, v, n, q) = entry-binding e h in
    rw (q, lookup-environ_add getenv env true k v j n hj, names-binding j k v hj n)
      (found-true (same j k) (binding k v) (environ_lookup env j))

-- Appending entries `KEY=VALUE` with `replace` true: a later entry wins over an earlier one and
-- over the table, and a name that none of them has keeps its entry.
pub lookup-environ_append :
    (getenv : Bytes → Option Bytes) (env new : Env) (j : Bytes)
    → environ_all_valid new ≡ true
    → IsName j
    → environ_lookup (environ_append getenv env true new) j ≡ newest (environ_lookup env j) j new
unfolding environ_append environ_all_valid
lookup-environ_append getenv env [] j h hj = refl
lookup-environ_append getenv env (e ∷ new) j h hj =
    rw (← lookup-add_entry getenv env e j (ground arith) hj)
      (lookup-environ_append getenv (environ_add getenv env true e) new j (ground arith) hj)
