-- ===== src/Examples/Tables.antt =====
-- The laws of init/environ.c on a table with `PATH` and `TERM`.
use mathlib.Core.Option
use feature_d.Base.{
  true, Bytes, codes, same, if◌then◌else◌, find_byte, take_until, Option, none, some, [], ◌∷◌, ◌≡◌,
  refl,
}
use feature_d.Environ.{
  environ_all_valid, Env, names, environ_lookup, environ_add, environ_append, begins_with,
  remove_loop, environ_remove,
}
use feature_d.Environ.Table.{binding, found, newest, lookup-environ_add, lookup-environ_append}
use feature_d.Environ.Distinct.{IsTable, environ_append-IsTable}
use feature_d.Environ.Remove.{OnlyOwn, environ_remove-prefix, environ_remove-exact}

abbrev no_env : Bytes → Option Bytes
no_env key = none

abbrev table : Env
table = codes "PATH=/bin" ∷ codes "TERM=linux" ∷ []

table-IsTable : IsTable table
unfolding environ_lookup environ_all_valid take_until find_byte names
table-IsTable = record { valid = refl; distinct = (refl, (refl, tt)) }

lookup-environ_add_example :
    environ_lookup
      (environ_add no_env table true (binding (codes "TERM") (codes "dumb")))
      (codes "TERM")
    ≡ found true true (binding (codes "TERM") (codes "dumb")) (environ_lookup table (codes "TERM"))
unfolding find_byte environ_lookup same
lookup-environ_add_example =
    lookup-environ_add no_env table true (codes "TERM") (codes "dumb") (codes "TERM") refl refl

lookup-environ_append_example :
    environ_lookup
      (environ_append no_env table true (codes "TERM=a" ∷ codes "TERM=b" ∷ []))
      (codes "TERM")
    ≡ newest
        (environ_lookup table (codes "TERM"))
        (codes "TERM")
        (codes "TERM=a" ∷ codes "TERM=b" ∷ [])
unfolding environ_all_valid find_byte
lookup-environ_append_example =
    lookup-environ_append no_env table (codes "TERM=a" ∷ codes "TERM=b" ∷ []) (codes "TERM") refl
      refl

environ_append-IsTable_example :
    IsTable (environ_append no_env table true (codes "TERM" ∷ codes "PATH=/sbin" ∷ []))
environ_append-IsTable_example =
    environ_append-IsTable no_env table (codes "TERM" ∷ codes "PATH=/sbin" ∷ []) true table-IsTable

environ_remove-prefix_example :
    environ_remove
      (binding (codes "FOO") (codes "1") ∷ binding (codes "FOOBAR") (codes "2") ∷ table)
      (codes "FOOBAR")
    ≡ some (binding (codes "FOOBAR") (codes "2") ∷ remove_loop (codes "FOOBAR") table)
unfolding find_byte
environ_remove-prefix_example =
    environ_remove-prefix (codes "FOO") (codes "BAR") (codes "1") (codes "2") table refl

table-OnlyOwn : OnlyOwn (codes "PATH") (codes "PATH") table
unfolding begins_with names take_until
table-OnlyOwn = (refl, (refl, tt))

environ_remove-exact_example :
    Option.bind (environ_remove table (codes "PATH")) (λ out. environ_lookup out (codes "TERM"))
    ≡ (if same (codes "TERM") (codes "PATH") then none else environ_lookup table (codes "TERM"))
unfolding find_byte environ_lookup take_until names
environ_remove-exact_example =
    environ_remove-exact (codes "PATH") (codes "PATH") (codes "PATH=/bin") (codes "TERM")
      (codes "TERM=linux" ∷ []) refl refl table-OnlyOwn (refl, (refl, tt))
