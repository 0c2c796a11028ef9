-- ===== src/ParseOn/Goes.antt =====
-- What the parser of init/parse_job.c does on one token, from the states that an expression leads to.
use feature_d.Base.{
  ℕ, Bool, true, false, Bytes, Option, none, List, [], ◌∷◌, ◌++◌, ◌≡◌, refl, append_assoc, ◌∙◌,
}
use feature_d.Environ.{Env}
use feature_d.EventOperator.{EventOperator}
use feature_d.ParseOn.{
  Tokens, word, operator_of, Item, mark, operator, event_match, and_then, OnState, positional,
  match_on_top, parse_token, parse_on_operator, operate, parse_on_operand, add_condition,
  parse_lines,
}
use feature_d.ParseOn.Positional.{positional-event}
use feature_d.ParseOn.Grammar.{IsEvent, named, condition}

-- The parser goes over `us` and stands at `s'`.
unfoldable pub Goes : Bool → Tokens → OnState → OnState → Type 0
Goes first us s s' = (rest : Tokens) → parse_lines first (us ++ rest) s ≡ parse_lines false rest s'

pub Goes-append :
    (first : Bool) (us vs : Tokens) (s s' s'' : OnState)
    → Goes first us s s'
    → Goes false vs s' s''
    → Goes first (us ++ vs) s s''
unfolding Goes
Goes-append first us vs s s' s'' g h rest = rw append_assoc (g (vs ++ rest) ∙ h rest)

abbrev pub at : List Item → Option EventOperator → ℕ → OnState
at st root paren = record { stack = st; root = root; paren = paren }

operand_named :
    (raw name : Bytes) (first : Bool) (st : List Item) (paren : ℕ)
    → operator_of raw ≡ none
    → match_on_top st ≡ false
    → Goes first (word raw name ∷ []) (at st none paren) (at (event_match name [] ∷ st) none paren)
unfolding Goes parse_lines parse_token parse_on_operator operate parse_on_operand and_then
operand_named raw name first [] paren o m rest = rw o refl
operand_named raw name first (mark ∷ st) paren o m rest = rw o refl
operand_named raw name first (operator type left ∷ st) paren o m rest = rw o refl
operand_named raw name first (event_match n e ∷ st) paren o m rest = cc

operand_condition :
    (raw arg name : Bytes) (env : Env) (st : List Item) (paren : ℕ)
    → operator_of raw ≡ none
    → positional true (env ++ (arg ∷ [])) ≡ true
    → Goes false
        (word raw arg ∷ [])
        (at (event_match name env ∷ st) none paren)
        (at (event_match name (env ++ (arg ∷ [])) ∷ st) none paren)
unfolding Goes parse_lines parse_token parse_on_operator operate parse_on_operand add_condition
    and_then
operand_condition raw arg name env st paren o p rest = rw (o, p) refl

pub event-Goes :
    {us : Tokens} {name : Bytes} {env : Env} (first : Bool) (st : List Item) (paren : ℕ)
    → IsEvent us name env
    → match_on_top st ≡ false
    → Goes first us (at st none paren) (at (event_match name env ∷ st) none paren)
event-Goes first st paren (named raw name o) m = operand_named raw name first st paren o m
event-Goes first st paren (condition {ts} {name} {env} raw arg e o p) m =
    Goes-append first ts _ _ _ _ (event-Goes first st paren e m)
      (operand_condition raw arg name env st paren o (positional-event arg e ∙ p))
