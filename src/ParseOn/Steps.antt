-- ===== src/ParseOn/Steps.antt =====
-- Each token that the parser of init/parse_job.c takes is in what its stack and root stand for.
use feature_d.Base.{
  sym, ◌∙◌, ℕ, true, false, Bool-cases, Bytes, Option, none, some, List, [], ◌∷◌, ◌++◌, ◌≡◌, refl,
  inl, inr, append_assoc,
}
use feature_d.Environ.{Env}
use feature_d.EventOperator.{EventOperator, EventOperatorType}
use feature_d.ParseOn.{
  Tokens, lparen, rparen, word, operator_of, Item, mark, operator, event_match, Parsed, raised,
  parsed, and_then, OnState, positional, parse_on_collect, match_on_top, parse_on_open,
  parse_on_close, operate, parse_on_operand, add_condition, pop_mark, push_operator,
}
use feature_d.ParseOn.Grammar.{IsExpr, named, condition, parens}
use feature_d.ParseOn.Positional.{positional-event}
use feature_d.ParseOn.Collects.{IsLevel, Holds, Reads, Collected, collect-Collected}

unfoldable pub Keeps : Tokens → Parsed OnState → Type 0
unfolding Reads
Keeps used (raised e) = Unit
Keeps used (parsed s) = Reads s.stack s.root used

pub open-Keeps :
    (st : List Item) (root : Option EventOperator) (paren : ℕ) (used : Tokens)
    → Reads st root used
    → Keeps
        (used ++ (lparen ∷ []))
        (parse_on_open (record { stack = st; root = root; paren = paren }))
unfolding parse_on_open Keeps Reads Holds
open-Keeps st (some r) paren used h = tt
open-Keeps [] none paren used h = (used, h, refl)
open-Keeps (mark ∷ st) none paren used h = (used, h, refl)
open-Keeps (operator type left ∷ st) none paren used h = (used, h, refl)
open-Keeps (event_match name env ∷ st) none paren used h = tt

pop_mark-Keeps :
    (paren : ℕ) (st : List Item) (r : EventOperator) (u v used : Tokens)
    → Holds st u
    → IsLevel st
    → IsExpr v r
    → used ≡ u ++ v
    → Keeps (used ++ (rparen ∷ [])) (pop_mark paren (st, r))
unfolding pop_mark Keeps Reads Holds IsLevel
pop_mark-Keeps paren [] r u v used h l e q = tt
pop_mark-Keeps paren (mark ∷ st) r u v used (u', h, p) l e q = elim (Bool-cases (match_on_top st)) [
  | inl m ↦ inl m
  | inr m ↦ inr (u', lparen ∷ (v ++ (rparen ∷ [])), h, parens e, m, simp (q, p, append_assoc))
]
pop_mark-Keeps paren (operator type left ∷ st) r u v used h l e q = absurd l
pop_mark-Keeps paren (event_match name env ∷ st) r u v used h l e q = absurd l

after-Keeps :
    (c : Parsed (List Item × EventOperator)) (f : List Item × EventOperator → Parsed OnState)
    (used next : Tokens)
    → Collected used c
    → ((st : List Item) (r : EventOperator) (u v : Tokens)
        → Holds st u
        → IsLevel st
        → IsExpr v r
        → used ≡ u ++ v
        → Keeps next (f (st, r)))
    → Keeps next (and_then c f)
unfolding Keeps Collected and_then
after-Keeps (raised e) f used next h k = tt
after-Keeps (parsed (st, r)) f used next (u, v, h, l, e, q) k = k st r u v h l e q

pub close-Keeps :
    (s : OnState) (used : Tokens)
    → Reads s.stack s.root used
    → Keeps (used ++ (rparen ∷ [])) (parse_on_close s)
unfolding parse_on_close
close-Keeps s used h =
    after-Keeps (parse_on_collect s.stack s.root) (pop_mark s.paren) used _
      (collect-Collected s.stack s.root used h)
      λ st r u v h' l e q. pop_mark-Keeps s.paren st r u v used h' l e q

operator-Keeps :
    (raw arg : Bytes) (type : EventOperatorType) (s : OnState) (used : Tokens)
    → operator_of raw ≡ some type
    → Reads s.stack s.root used
    → Keeps
        (used ++ (word raw arg ∷ []))
        (and_then (parse_on_collect s.stack s.root) (push_operator type s.paren))
unfolding Keeps Reads Holds push_operator
operator-Keeps raw arg type s used o h =
    after-Keeps (parse_on_collect s.stack s.root) (push_operator type s.paren) used _
      (collect-Collected s.stack s.root used h)
      λ st r u v h' l e q. (u, v, raw, arg, h', l, e, o, simp (q, append_assoc))

condition-Keeps :
    (raw arg name : Bytes) (env : Env) (st : List Item) (root : Option EventOperator) (paren : ℕ)
    (used : Tokens)
    → operator_of raw ≡ none
    → Reads (event_match name env ∷ st) root used
    → Keeps (used ++ (word raw arg ∷ [])) (add_condition name env arg st root paren)
unfolding Keeps Reads Holds add_condition
condition-Keeps raw arg name env st root paren used o h =
    elim (Bool-cases (positional true (env ++ (arg ∷ [])))) [
      | inr refused ↦ rw refused tt
      | inl fine ↦ rw fine (grown root fine h)
    ]
  where
    grown :
        (root : Option EventOperator)
        → positional true (env ++ (arg ∷ [])) ≡ true
        → Reads (event_match name env ∷ st) root used
        → Reads (event_match name (env ++ (arg ∷ [])) ∷ st) root (used ++ (word raw arg ∷ []))
    grown (some r) fine (inl m) = inl refl
    grown (some r) fine (inr (u, v, h', e, m, q)) = cc
    grown none fine (u, v, h', e, m, q) = (
      u,
      v ++ (word raw arg ∷ []),
      h',
      condition raw arg e o (sym (positional-event arg e) ∙ fine),
      m,
      simp (q, append_assoc),
    )

new_event-Keeps :
    (raw arg : Bytes) (st : List Item) (root : Option EventOperator) (used : Tokens)
    → operator_of raw ≡ none
    → match_on_top st ≡ false
    → Reads st root used
    → Reads (event_match arg [] ∷ st) root (used ++ (word raw arg ∷ []))
unfolding Keeps Reads Holds
new_event-Keeps raw arg st none used o m h = (used, word raw arg ∷ [], h, named raw arg o, m, refl)
new_event-Keeps raw arg st (some r) used o m h = inl refl

operand-Keeps :
    (raw arg : Bytes) (st : List Item) (root : Option EventOperator) (paren : ℕ) (used : Tokens)
    → operator_of raw ≡ none
    → Reads st root used
    → Keeps (used ++ (word raw arg ∷ [])) (parse_on_operand arg st root paren)
unfolding Keeps parse_on_operand
operand-Keeps raw arg [] root paren used o h = new_event-Keeps raw arg [] root used o refl h
operand-Keeps raw arg (mark ∷ st) root paren used o h =
    new_event-Keeps raw arg (mark ∷ st) root used o refl h
operand-Keeps raw arg (operator type left ∷ st) root paren used o h =
    new_event-Keeps raw arg (operator type left ∷ st) root used o refl h
operand-Keeps raw arg (event_match name env ∷ st) root paren used o h =
    condition-Keeps raw arg name env st root paren used o h

pub operate-Keeps :
    (raw arg : Bytes) (o : Option EventOperatorType) (s : OnState) (used : Tokens)
    → operator_of raw ≡ o
    → Reads s.stack s.root used
    → Keeps (used ++ (word raw arg ∷ [])) (operate o arg s)
unfolding operate
operate-Keeps raw arg none s used q h = operand-Keeps raw arg s.stack s.root s.paren used q h
operate-Keeps raw arg (some type) s used q h = operator-Keeps raw arg type s used q h
