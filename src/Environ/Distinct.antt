-- ===== src/Environ/Distinct.antt =====
-- The invariant of an environment table (init/environ.c): every entry is `KEY=VALUE`, and no two
-- entries have the same name.
use feature_d.Base.{
  Bool, true, false, is_some, Bytes, take_until, find_byte, Option, none, some, [], ◌∷◌, ◌++◌, ◌≡◌,
  refl, inl, inr, arith, Bool-cases,
}
use feature_d.Environ.Table.{take_until-binding, has_eq-binding, lookup-append}
use feature_d.Environ.{
  Env, names, environ_lookup, environ_all_valid, overwrite, delete, new_entry, put, environ_add,
  environ_append,
}

abbrev pub Distinct : Env → Type 0
Distinct [] = Unit
Distinct (e ∷ env) = (environ_lookup env (take_until b'=' e) ≡ none) × Distinct env

pub record IsTable (env : Env) : Type 0 where
  pub valid : environ_all_valid env ≡ true
  pub distinct : Distinct env

-- `names` holds for one name only: the entry's own.
pub names-take_until :
    (key e : Bytes) → find_byte b'=' key ≡ none → names key e ≡ true → take_until b'=' e ≡ key
unfolding names take_until find_byte
names-take_until [] [] h n = refl
names-take_until [] (b ∷ e) h n = ground arith
names-take_until (a ∷ key) [] h n = cc
names-take_until (a ∷ key) (b ∷ e) h n = ground (arith, names-take_until key e)

names_own : (e : Bytes) → is_some (find_byte b'=' e) ≡ true → names (take_until b'=' e) e ≡ true
unfolding names take_until find_byte
names_own [] h = cc
names_own (b ∷ e) h = ground (arith, names_own e)

find_byte-take_until : (e : Bytes) → find_byte b'=' (take_until b'=' e) ≡ none
unfolding take_until find_byte
find_byte-take_until [] = refl
find_byte-take_until (b ∷ e) = ground (arith, find_byte-take_until e)

lookup-delete :
    (key j : Bytes) (env : Env)
    → environ_lookup env j ≡ none
    → environ_lookup (delete key env) j ≡ none
unfolding delete environ_lookup
lookup-delete key j [] h = refl
lookup-delete key j (e ∷ env) h = ground (arith, lookup-delete key j env)

delete-Distinct : (key : Bytes) (env : Env) → Distinct env → Distinct (delete key env)
unfolding delete
delete-Distinct key [] d = tt
delete-Distinct key (e ∷ env) d =
    ground (arith, delete-Distinct key env d.1, lookup-delete key (take_until b'=' e) env)

delete-valid :
    (key : Bytes) (env : Env)
    → environ_all_valid env ≡ true
    → environ_all_valid (delete key env) ≡ true
unfolding delete environ_all_valid
delete-valid key [] h = refl
delete-valid key (e ∷ env) h = ground (arith, delete-valid key env)

take_until_name : (key : Bytes) → find_byte b'=' key ≡ none → take_until b'=' key ≡ key
unfolding take_until find_byte
take_until_name [] h = refl
take_until_name (b ∷ key) h = ground (arith, take_until_name key)

-- What `environ_add` puts names what it looked up.
new_entry-IsNamed :
    (getenv : Bytes → Option Bytes) (str : Bytes) {new : Bytes}
    → new_entry getenv str ≡ some new
    → (is_some (find_byte b'=' new) ≡ true) × (take_until b'=' new ≡ take_until b'=' str)
unfolding new_entry
new_entry-IsNamed getenv str {new} h = elim (Bool-cases (is_some (find_byte b'=' str))) [
  | inl eq ↦ ground arith
  | inr ne ↦ bare (getenv str) refl (ground arith)
]
  where
    bare :
        (value : Option Bytes)
        → getenv str ≡ value
        → find_byte b'=' str ≡ none
        → (is_some (find_byte b'=' new) ≡ true) × (take_until b'=' new ≡ take_until b'=' str)
    bare none g n = ground arith
    bare (some v) g n =
        ground (arith, has_eq-binding str v, take_until-binding str v n, take_until_name str n)

lookup-overwrite-none :
    (key j new : Bytes) (env : Env)
    → take_until b'=' new ≡ key
    → is_some (find_byte b'=' new) ≡ true
    → is_some (environ_lookup env key) ≡ true
    → find_byte b'=' j ≡ none
    → environ_lookup env j ≡ none
    → environ_lookup (overwrite key new env) j ≡ none
unfolding overwrite environ_lookup
lookup-overwrite-none key j new [] n q s i h = refl
lookup-overwrite-none key j new (e ∷ env) n q s i h =
    ground (arith, lookup-overwrite-none key j new env n q, names-take_until j new i)

overwrite-Distinct :
    (key new : Bytes) (env : Env)
    → find_byte b'=' key ≡ none
    → take_until b'=' new ≡ key
    → is_some (find_byte b'=' new) ≡ true
    → is_some (environ_lookup env key) ≡ true
    → Distinct env
    → Distinct (overwrite key new env)
unfolding overwrite environ_lookup
overwrite-Distinct key new [] k n q s d = tt
overwrite-Distinct key new (e ∷ env) k n q s d = ground (
  arith,
  overwrite-Distinct key new env k n q,
  lookup-overwrite-none key (take_until b'=' e) new env n q,
  find_byte-take_until e,
  names-take_until key e k,
)

overwrite-valid :
    (key new : Bytes) (env : Env)
    → is_some (find_byte b'=' new) ≡ true
    → environ_all_valid env ≡ true
    → environ_all_valid (overwrite key new env) ≡ true
unfolding overwrite environ_all_valid
overwrite-valid key new [] q h = refl
overwrite-valid key new (e ∷ env) q h = ground (arith, overwrite-valid key new env q)

append-Distinct :
    (env : Env) (new : Bytes)
    → is_some (find_byte b'=' new) ≡ true
    → environ_lookup env (take_until b'=' new) ≡ none
    → environ_all_valid env ≡ true
    → Distinct env
    → Distinct (env ++ (new ∷ []))
unfolding environ_lookup environ_all_valid
append-Distinct [] new q n v d = (refl, tt)
append-Distinct (e ∷ env) new q n v d = ground (
  arith,
  append-Distinct env new q,
  lookup-append env new (take_until b'=' e),
  names-take_until (take_until b'=' e) new (find_byte-take_until e),
  names_own e,
)

append-valid :
    (env : Env) (new : Bytes)
    → is_some (find_byte b'=' new) ≡ true
    → environ_all_valid env ≡ true
    → environ_all_valid (env ++ (new ∷ [])) ≡ true
unfolding environ_all_valid
append-valid [] new q h = ground arith
append-valid (e ∷ env) new q h = ground (arith, append-valid env new q)

put-IsTable :
    (env : Env) (replace old : Bool) (key : Bytes) (new : Option Bytes)
    → ((e : Bytes) → new ≡ some e → (is_some (find_byte b'=' e) ≡ true) × (take_until b'=' e ≡ key))
    → find_byte b'=' key ≡ none
    → is_some (environ_lookup env key) ≡ old
    → IsTable env
    → IsTable (put env replace key new old)
unfolding put
put-IsTable env true true key (some e) n k o t =
    let (q, s) = n e refl in
    record {
      valid = overwrite-valid key e env q t.valid;
      distinct = overwrite-Distinct key e env k s q o t.distinct;
    }
put-IsTable env true true key none n k o t = record {
  valid = delete-valid key env t.valid;
  distinct = delete-Distinct key env t.distinct;
}
put-IsTable env false true key new n k o t = t
put-IsTable env replace false key (some e) n k o t =
    let (q, s) = n e refl in
    record {
      valid = append-valid env e q t.valid;
      distinct = append-Distinct env e q (rw s (ground arith)) t.valid t.distinct;
    }
put-IsTable env replace false key none n k o t = t

-- Whatever string is added, in whatever way, a table keeps its form.
pub environ_add-IsTable :
    (getenv : Bytes → Option Bytes) (env : Env) (replace : Bool) (str : Bytes)
    → IsTable env
    → IsTable (environ_add getenv env replace str)
unfolding environ_add
environ_add-IsTable getenv env replace str t =
    put-IsTable env replace _ (take_until b'=' str) (new_entry getenv str)
      (λ e q. new_entry-IsNamed getenv str q) (find_byte-take_until str) refl t

-- `environ_append` keeps the form of a table, whatever strings it adds and with `replace` or not:
-- every entry is `KEY=VALUE`, and no two entries have the same name.
pub environ_append-IsTable :
    (getenv : Bytes → Option Bytes) (env new : Env) (replace : Bool)
    → IsTable env
    → IsTable (environ_append getenv env replace new)
unfolding environ_append
environ_append-IsTable getenv env [] replace t = t
environ_append-IsTable getenv env (e ∷ new) replace t =
    environ_append-IsTable getenv (environ_add getenv env replace e) new replace
      (environ_add-IsTable getenv env replace e t)
