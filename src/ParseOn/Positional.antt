-- ===== src/ParseOn/Positional.antt =====
-- The sanity check of the conditions of an event (parse_on_operand of init/parse_job.c), one condition
-- after another.
use feature_d.Base.{Bool, true, false, ◌&&◌, ◌||◌, Bytes, [], ◌∷◌, ◌++◌, ◌≡◌, refl, arith}
use feature_d.Environ.{Env}
use feature_d.ParseOn.{Tokens, positional}
use feature_d.ParseOn.Grammar.{IsEvent, named, condition, is_named, none_named}

positional-append :
    (pos : Bool) (env : Env) (arg : Bytes)
    → positional pos (env ++ (arg ∷ []))
      ≡ (positional pos env && (is_named arg || (pos && none_named env)))
unfolding positional
positional-append pos [] arg = ground arith
positional-append pos (e ∷ env) arg =
    ground (arith, positional-append false env arg, positional-append pos env arg)

event-positional :
    {ts : Tokens} {name : Bytes} {env : Env} → IsEvent ts name env → positional true env ≡ true
unfolding positional
event-positional (named raw name o) = refl
event-positional (condition {ts} {name} {env} raw arg e o p) =
    ground (arith, positional-append true env arg, event-positional e, p)

-- The check of one condition more than those of an event is that of the grammar.
pub positional-event :
    {ts : Tokens} {name : Bytes} {env : Env} (arg : Bytes)
    → IsEvent ts name env
    → positional true (env ++ (arg ∷ [])) ≡ (is_named arg || none_named env)
positional-event {ts} {name} {env} arg e =
    ground (arith, positional-append true env arg, event-positional e)
