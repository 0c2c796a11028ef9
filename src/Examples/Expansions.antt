-- ===== src/Examples/Expansions.antt =====
-- References in strings (init/environ.c), with a table that has `USER` and an empty `HOST`.
use feature_d.Base.{true, codes, [], ◌∷◌, ◌++◌, ◌≡◌, ◌≢◌, refl}
use feature_d.Environ.{Env, environ_getn}
use feature_d.Environ.Expand.{
  ◌>>=◌, expanded, fuel, prepend, op_default, environ_expand_until, environ_expand, in_set,
}
use feature_d.Environ.Expand.Total.{environ_expand_total}
use feature_d.Environ.Expand.References.{escape, environ_expand-escape}
use feature_d.Environ.Expand.References.Braced.{op_text, stands_for, expand_until-braced}

abbrev table : Env
table = codes "USER=ann" ∷ codes "HOST=" ∷ []

environ_expand_total_example : environ_expand (codes "$USER-${HOST:-x}") table ≢ fuel
environ_expand_total_example = environ_expand_total (codes "$USER-${HOST:-x}") table

environ_expand-escape_example :
    environ_expand (escape (codes "5$ for $USER")) table ≡ expanded (codes "5$ for $USER")
environ_expand-escape_example = environ_expand-escape (codes "5$ for $USER") table

expand_until-braced_example :
    environ_expand_until 5 table [] (
      b'$'
      ∷ b'{'
      ∷ b'H'
      ∷ (codes "OST" ++ (op_text op_default true ++ (codes "x" ++ (b'}' ∷ codes "y")))))
    ≡ (stands_for op_default true (codes "x") (environ_getn table (codes "HOST")) >>= λ v.
        prepend v (environ_expand_until 4 table [] (codes "y")))
unfolding in_set
expand_until-braced_example =
    expand_until-braced 3 table [] b'H' (codes "OST") (codes "x") (codes "y") op_default true
      (refl, (refl, (refl, (refl, tt)))) (refl, tt)
