-- ===== src/Environ/Remove.antt =====
-- `environ_remove` of init/environ.c: what it takes out of a table.
use mathlib.Core.Option
use feature_d.Base.{
  true, false, if◌then◌else◌, Bytes, take_until, same, same-eq, same_refl, none, some, [], ◌∷◌,
  ◌++◌, ◌≡◌, refl, inl, inr, arith, Bool-cases, All,
}
use feature_d.Environ.Table.{IsName, binding, take_until-binding}
use feature_d.Environ.Distinct.{Distinct, names-take_until}
use feature_d.Environ.{Env, names, environ_lookup, delete, begins_with, remove_loop, environ_remove}

begins_with-append : (n x : Bytes) → begins_with n (n ++ x) ≡ true
unfolding begins_with
begins_with-append [] x = refl
begins_with-append (b ∷ n) x = ground (arith, begins_with-append n x)

-- Removing `n ++ x` from a table where `n` stands just before `n ++ x` takes out `n` and keeps
-- `n ++ x`: the entry is compared up to its own name only, and the loop then steps over the next.
pub environ_remove-prefix :
    (n x v w : Bytes) (env : Env)
    → IsName n
    → environ_remove (binding n v ∷ binding (n ++ x) w ∷ env) (n ++ x)
      ≡ some (binding (n ++ x) w ∷ remove_loop (n ++ x) env)
unfolding environ_remove remove_loop
environ_remove-prefix n x v w env h = rw (take_until-binding n v h, begins_with-append n x) refl

-- An entry's name begins `str` only where the entry is the one of the variable `key`.
abbrev pub OnlyOwn : Bytes → Bytes → Env → Type 0
OnlyOwn key str = All λ e. begins_with (take_until b'=' e) str ≡ names key e

remove_loop-none :
    (key str : Bytes) (env : Env)
    → OnlyOwn key str env
    → environ_lookup env key ≡ none
    → remove_loop str env ≡ env
unfolding remove_loop environ_lookup
remove_loop-none key str [] o h = refl
remove_loop-none key str (e ∷ []) o h = ground arith
remove_loop-none key str (e ∷ d ∷ env) o h = ground (arith, remove_loop-none key str (d ∷ env) o.1)

remove_loop-delete :
    (key str : Bytes) (env : Env)
    → IsName key
    → OnlyOwn key str env
    → Distinct env
    → remove_loop str env ≡ delete key env
unfolding remove_loop delete environ_lookup
remove_loop-delete key str [] k o d = refl
remove_loop-delete key str (e ∷ []) k o d = ground arith
remove_loop-delete key str (e ∷ c ∷ env) k o d = ground (
  arith,
  remove_loop-delete key str (c ∷ env) k o.1 d.1,
  remove_loop-none key str env o.1.1,
  names-take_until key e k,
)

lookup-delete_self :
    (key : Bytes) (env : Env)
    → IsName key
    → Distinct env
    → environ_lookup (delete key env) key ≡ none
unfolding delete environ_lookup
lookup-delete_self key [] k d = refl
lookup-delete_self key (e ∷ env) k d =
    ground (arith, lookup-delete_self key env k d.1, names-take_until key e k)

lookup-delete_ne :
    (key j : Bytes) (env : Env)
    → IsName key
    → IsName j
    → same j key ≡ false
    → environ_lookup (delete key env) j ≡ environ_lookup env j
unfolding delete environ_lookup
lookup-delete_ne key j [] k h n = refl
lookup-delete_ne key j (e ∷ env) k h n = ground (
  arith,
  lookup-delete_ne key j env k h,
  names-take_until key e k,
  names-take_until j e h,
  same_refl j,
)

-- Where no other entry's name begins `str`, just the entry of `key` is taken out of a table:
-- `key` is then bound no more, and every other name keeps its entry. The table is not empty.
pub environ_remove-exact :
    (key str e j : Bytes) (env : Env)
    → IsName key
    → IsName j
    → OnlyOwn key str (e ∷ env)
    → Distinct (e ∷ env)
    → Option.bind (environ_remove (e ∷ env) str) (λ out. environ_lookup out j)
      ≡ (if same j key then none else environ_lookup (e ∷ env) j)
unfolding environ_remove Option.bind environ_lookup
environ_remove-exact key str e j env k h o d =
    rw (remove_loop-delete key str (e ∷ env) k o d) (elim (Bool-cases (same j key)) [
      | inl eq ↦ rw (eq, same-eq j key eq) (lookup-delete_self key (e ∷ env) k d)
      | inr ne ↦ rw ne (lookup-delete_ne key j (e ∷ env) k h ne)
    ])
