-- ===== src/Environ.antt =====
-- init/environ.c, the environment tables. A table is the list of its strings; a name that the
-- source passes with a length is here the list of that many bytes. Allocation does not fail.
-- `getenv` reads init's own environment, which the C library keeps.
pub mod Table
pub mod Distinct
pub mod Remove
pub mod Expand
use feature_d.Base.{
  Bool, true, false, ◌&&◌, ◌==◌, if◌then◌else◌, is_some, Bytes, take_until, find_byte, Option, none,
  some, List, [], ◌∷◌, ◌++◌,
}
use mathlib.Core.Option

abbrev pub Env : Type 0
Env = List Bytes

-- `strncmp (e, key, len) == 0 && e[len] == '='`.
unfoldable pub names : Bytes → Bytes → Bool
names [] [] = false
names [] (b ∷ e) = b == b'='
names (k ∷ key) [] = false
names (k ∷ key) (b ∷ e) = (k == b) && names key e

unfoldable pub environ_lookup : Env → Bytes → Option Bytes
environ_lookup [] key = none
environ_lookup (e ∷ env) key = if names key e then some e else environ_lookup env key

-- What follows the first `=`.
unfoldable pub value_of : Bytes → Option Bytes
unfolding find_byte
value_of e = elim (find_byte b'=' e) [
  | none ↦ none
  | some s ↦ elim s [ [] ↦ none | c ∷ v ↦ some v ]
]

unfoldable pub environ_getn : Env → Bytes → Option Bytes
environ_getn env key = Option.bind (environ_lookup env key) value_of

unfoldable pub environ_all_valid : Env → Bool
unfolding find_byte
environ_all_valid [] = true
environ_all_valid (e ∷ env) = is_some (find_byte b'=' e) && environ_all_valid env

-- The first entry with the name, replaced or taken out.
unfoldable pub overwrite : Bytes → Bytes → Env → Env
overwrite key new [] = []
overwrite key new (e ∷ env) = if names key e then new ∷ env else e ∷ overwrite key new env

unfoldable pub delete : Bytes → Env → Env
delete key [] = []
delete key (e ∷ env) = if names key e then env else e ∷ delete key env

-- `KEY=VALUE` as it is, or `KEY` with the value that init has for it.
unfoldable pub new_entry : (Bytes → Option Bytes) → Bytes → Option Bytes
unfolding find_byte
new_entry getenv str =
    if is_some (find_byte b'=' str)
    then some str
    else Option.map (λ value. str ++ (b'=' ∷ value)) (getenv str)

put : Env → Bool → Bytes → Option Bytes → Bool → Env
put env true key (some new) true = overwrite key new env
put env true key none true = delete key env
put env false key new true = env
put env replace key (some new) false = env ++ (new ∷ [])
put env replace key none false = env

unfoldable pub environ_add : (Bytes → Option Bytes) → Env → Bool → Bytes → Env
unfolding put
environ_add getenv env replace str =
    let key = take_until b'=' str in
    put env replace key (new_entry getenv str) (is_some (environ_lookup env key))

unfoldable pub environ_append : (Bytes → Option Bytes) → Env → Bool → Env → Env
environ_append getenv env replace [] = env
environ_append getenv env replace (e ∷ new) =
    environ_append getenv (environ_add getenv env replace e) replace new

-- `environ_set` with the formatted string; the formats of the source are all `KEY=%s`.
unfoldable pub environ_set : (Bytes → Option Bytes) → Env → Bool → Bytes → Bytes → Env
environ_set getenv env replace key value = environ_add getenv env replace (key ++ (b'=' ∷ value))

-- `strncmp (str, e, keylen) == 0`, for the name of length `keylen` that `e` begins with.
unfoldable pub begins_with : Bytes → Bytes → Bool
begins_with [] str = true
begins_with (k ∷ key) [] = false
begins_with (k ∷ key) (b ∷ str) = (k == b) && begins_with key str

-- The loop of `environ_remove`. Removing an entry shifts the rest down and the loop still steps
-- on, so the entry behind a removed one is not looked at.
unfoldable pub remove_loop : Bytes → Env → Env
unfolding begins_with
remove_loop str [] = []
remove_loop str (e ∷ []) = if begins_with (take_until b'=' e) str then [] else e ∷ []
remove_loop str (e ∷ d ∷ env) =
    let kept = d ∷ remove_loop str env in
    let looked = remove_loop str (d ∷ env) in
    if begins_with (take_until b'=' e) str then kept else e ∷ looked

-- `none` is the NULL for a table with no entry.
unfoldable pub environ_remove : Env → Bytes → Option Env
unfolding remove_loop
environ_remove [] str = none
environ_remove (e ∷ env) str = some (remove_loop str (e ∷ env))
