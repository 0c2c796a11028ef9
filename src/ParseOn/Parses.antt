-- ===== src/ParseOn/Parses.antt =====
-- The parser of init/parse_job.c accepts every expression of the grammar.
use feature_d.Base.{
  ℕ, ◌+◌, ◌%◌, ◌<◌, Bool, true, false, Bytes, none, some, List, [], ◌∷◌, ◌++◌, ◌≡◌, refl, arith,
  ◌∙◌,
}
use feature_d.Environ.{Env}
use feature_d.EventOperator.{EventOperator, EventOperatorType, gate, leaf}
use feature_d.ParseOn.{
  Tokens, lparen, rparen, word, line_end, operator_of, Item, mark, operator, event_match, Parsed,
  parsed, and_then, OnState, parse_on_collect, collect_items, match_on_top, parse_token,
  parse_on_open, parse_on_close, parse_on_operator, operate, pop_mark, push_operator, parse_lines,
  finish, parse_on,
}
use feature_d.ParseOn.Grammar.{IsEvent, IsExpr, event, parens, single, binary}
use feature_d.ParseOn.Collects.{IsLevel}
use feature_d.ParseOn.Goes.{Goes, Goes-append, at, event-Goes}

-- A state whose collection is `c`, behind `us`.
record Arrives (first : Bool) (us : Tokens) (s : OnState) (c : Parsed (List Item × EventOperator))
    : Type 0 where
  place : OnState
  goes : Goes first us s place
  gives : parse_on_collect place.stack place.root ≡ c
  same_paren : place.paren ≡ s.paren

abbrev OperandArrives : Tokens → EventOperator → Type 0
OperandArrives us r =
    (first : Bool) (st : List Item) (paren : ℕ)
    → match_on_top st ≡ false
    → paren < 18446744073709551616
    → Arrives first us (at st none paren) (parse_on_collect st (some r))

abbrev ExprArrives : Tokens → EventOperator → Type 0
ExprArrives us t =
    (first : Bool) (st : List Item) (paren : ℕ)
    → IsLevel st
    → paren < 18446744073709551616
    → Arrives first us (at st none paren) (parsed (st, t))

event_arrives :
    {us : Tokens} {name : Bytes} {env : Env}
    → IsEvent us name env
    → OperandArrives us (leaf false name env none)
unfolding parse_on_collect collect_items and_then
event_arrives e first st paren m b = record {
  place = at (event_match _ _ ∷ st) none paren;
  goes = event-Goes first st paren e m;
  gives = refl;
  same_paren = refl;
}

collect_at_level :
    (st : List Item) (r : EventOperator)
    → IsLevel st
    → parse_on_collect st (some r) ≡ parsed (st, r)
unfolding parse_on_collect collect_items and_then IsLevel
collect_at_level [] r level = refl
collect_at_level (mark ∷ st) r level = refl
collect_at_level (operator _ _ ∷ st) r level = absurd level
collect_at_level (event_match _ _ ∷ st) r level = absurd level

collect_operator :
    (type : EventOperatorType) (l r : EventOperator) (st : List Item)
    → IsLevel st
    → parse_on_collect (operator type l ∷ st) (some r) ≡ parsed (st, gate type false l r)
unfolding parse_on_collect collect_items and_then IsLevel
collect_operator type l r [] level = refl
collect_operator type l r (mark ∷ st) level = refl
collect_operator type l r (operator _ _ ∷ st) level = absurd level
collect_operator type l r (event_match _ _ ∷ st) level = absurd level

level_no_match : (st : List Item) → IsLevel st → match_on_top st ≡ false
unfolding IsLevel
level_no_match [] level = refl
level_no_match (mark ∷ st) level = refl
level_no_match (operator _ _ ∷ st) level = absurd level
level_no_match (event_match _ _ ∷ st) level = absurd level

open-Goes :
    (first : Bool) (st : List Item) (paren : ℕ)
    → match_on_top st ≡ false
    → Goes first
        (lparen ∷ [])
        (at st none paren)
        (at (mark ∷ st) none ((paren + 1) % 18446744073709551616))
unfolding Goes parse_lines parse_token parse_on_open and_then
open-Goes first st paren m rest = rw m refl

close-Goes :
    (s : OnState) (st : List Item) (t : EventOperator) (paren : ℕ)
    → parse_on_collect s.stack s.root ≡ parsed (mark ∷ st, t)
    → s.paren ≡ (paren + 1) % 18446744073709551616
    → paren < 18446744073709551616
    → Goes false (rparen ∷ []) s (at st (some t) paren)
unfolding Goes parse_lines parse_token parse_on_close pop_mark and_then
close-Goes s st t paren c p b rest =
    let back : (s.paren + 18446744073709551615) % 18446744073709551616 ≡ paren = omega arith in
    rw (c, back) refl

operator_arrives :
    (raw arg : Bytes) (type : EventOperatorType) (st : List Item) (l : EventOperator) (s : OnState)
    (paren : ℕ)
    → operator_of raw ≡ some type
    → parse_on_collect s.stack s.root ≡ parsed (st, l)
    → s.paren ≡ paren
    → Goes false (word raw arg ∷ []) s (at (operator type l ∷ st) none paren)
unfolding Goes parse_lines parse_token parse_on_operator operate push_operator and_then
operator_arrives raw arg type st l s paren o c p rest = rw (o, c, p) refl

binary_arrives :
    {us vs : Tokens} {l r : EventOperator} (raw arg : Bytes) (type : EventOperatorType)
    → operator_of raw ≡ some type
    → ExprArrives us l
    → OperandArrives vs r
    → ExprArrives (us ++ (word raw arg ∷ vs)) (gate type false l r)
binary_arrives {us} {vs} {l} {r} raw arg type o el er first st paren level b =
    let left = el first st paren level b in
    let right = er false (operator type l ∷ st) paren refl b in
    record {
      place = right.place;
      goes = Goes-append first us (word raw arg ∷ vs) _ left.place _ left.goes (
          Goes-append false (word raw arg ∷ []) vs left.place (at (operator type l ∷ st) none paren)
            _ (operator_arrives raw arg type st l left.place paren o left.gives left.same_paren)
            right.goes);
      gives = right.gives ∙ collect_operator type l r st level;
      same_paren = right.same_paren;
    }

parens_arrives :
    {us : Tokens} {t : EventOperator}
    → ExprArrives us t
    → OperandArrives (lparen ∷ (us ++ (rparen ∷ []))) t
unfolding IsLevel
parens_arrives {us} {t} e first st paren m b =
    let inner = e false (mark ∷ st) ((paren + 1) % 18446744073709551616) tt (omega arith) in
    record {
      place = at st (some t) paren;
      goes =
          Goes-append first (lparen ∷ []) (us ++ (rparen ∷ [])) _
            (at (mark ∷ st) none ((paren + 1) % 18446744073709551616)) _
            (open-Goes first st paren m)
            (Goes-append false us (rparen ∷ []) _ inner.place _ inner.goes
              (close-Goes inner.place st t paren inner.gives inner.same_paren b));
      gives = refl;
      same_paren = refl;
    }

single_arrives : {us : Tokens} {r : EventOperator} → OperandArrives us r → ExprArrives us r
single_arrives {us} {r} e first st paren level b =
    let arrived = e first st paren (level_no_match st level) b in
    record {
      place = arrived.place;
      goes = arrived.goes;
      gives = arrived.gives ∙ collect_at_level st r level;
      same_paren = arrived.same_paren;
    }

expr_arrives : {us : Tokens} {t : EventOperator} → IsExpr us t → ExprArrives us t
expr_arrives e = elim e as (λ us t w. OperandArrives us t) (λ us t w. ExprArrives us t) [
  | event e ↦ event_arrives e
  | parens (e → ih) ↦ parens_arrives ih
  | single (e → ih) ↦ single_arrives ih
  | binary raw arg type (l → ihl) o (r → ihr) ↦ binary_arrives raw arg type o ihl ihr
]

line_finishes :
    (s : OnState) (rest : Tokens) (t : EventOperator)
    → s.paren ≡ 0
    → parse_on_collect s.stack s.root ≡ parsed ([], t)
    → and_then (parse_lines false (line_end ∷ rest) s) finish ≡ parsed (t, rest)
unfolding parse_lines finish and_then
line_finishes s [] t p c = rw c refl
line_finishes s (x ∷ rest) t p c = rw (p, c) refl

-- Every expression of the grammar, up to the end of its line, is accepted, with the tree that the
-- grammar gives it.
pub parse_on_complete :
    (us rest : Tokens) (t : EventOperator)
    → IsExpr us t
    → parse_on (us ++ (line_end ∷ rest)) ≡ parsed (t, rest)
unfolding parse_on Goes IsLevel
parse_on_complete us rest t e =
    let arrived = expr_arrives e true [] 0 tt (omega arith) in
    rw (arrived.goes (line_end ∷ rest))
      (line_finishes arrived.place rest t arrived.same_paren arrived.gives)
