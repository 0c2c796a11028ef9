-- ===== src/ParseOn/Derived.antt =====
-- What the parser of init/parse_job.c accepts is an expression of the grammar.
use mathlib.Core.Path.{subst}
use feature_d.Base.{
  Bool, true, false, Bool-cases, List, [], ◌∷◌, ◌++◌, ◌≡◌, refl, inl, inr, append_assoc, append-nil,
}
use feature_d.EventOperator.{EventOperator}
use feature_d.ParseOn.{
  OnToken, Tokens, lparen, rparen, word, line_end, broken, parse_mismatched_parens, operator_of,
  Item, Parsed, raised, parsed, and_then, OnState, parse_on_collect, parse_token, parse_on_open,
  parse_on_close, parse_on_operator, operate, parse_lines, finish, parse_on, more_lines,
}
use feature_d.ParseOn.Grammar.{IsExpr}
use feature_d.ParseOn.Collects.{Reads, Collected, collect-Collected}
use feature_d.ParseOn.Steps.{Keeps, open-Keeps, close-Keeps, operate-Keeps}

-- The input without the ends of lines.
unfoldable pub without_line_ends : Tokens → Tokens
without_line_ends [] = []
without_line_ends (line_end ∷ ts) = without_line_ends ts
without_line_ends (t ∷ ts) = t ∷ without_line_ends ts

Consumes : Tokens → Tokens → Parsed (OnState × Tokens) → Type 0
unfolding Reads without_line_ends
Consumes ts used (raised e) = Unit
Consumes ts used (parsed (s, rest)) =
    (us : Tokens) × (ts ≡ us ++ rest) × Reads s.stack s.root (used ++ without_line_ends us)

Adds : OnToken → Type 0
unfolding without_line_ends
Adds t = (us : Tokens) → without_line_ends (t ∷ us) ≡ t ∷ without_line_ends us

next-Consumes :
    (t : OnToken) (ts used : Tokens) (r : Parsed OnState)
    → Adds t
    → Keeps (used ++ (t ∷ [])) r
    → ((s : OnState) (used' : Tokens)
        → Reads s.stack s.root used'
        → Consumes ts used' (parse_lines false ts s))
    → Consumes (t ∷ ts) used (and_then r λ s'. parse_lines false ts s')
unfolding and_then Keeps Consumes Adds
next-Consumes t ts used (raised e) a h k = tt
next-Consumes t ts used (parsed s) a h k = extend (parse_lines false ts s) (k s _ h)
  where
    extend :
        (r : Parsed (OnState × Tokens))
        → Consumes ts (used ++ (t ∷ [])) r
        → Consumes (t ∷ ts) used r
    extend (raised e) c = tt
    extend (parsed (s, rest)) (us, q, h) = (t ∷ us, rw q refl, rw (a us) (rw append_assoc at h))

-- A line end is left out; behind it the loop goes on, or stops.
parse_lines-Consumes :
    (first : Bool) (ts used : Tokens) (s : OnState)
    → Reads s.stack s.root used
    → Consumes ts used (parse_lines first ts s)
unfolding parse_lines Consumes Adds parse_on_operator without_line_ends parse_token
parse_lines-Consumes true [] used s h = tt
parse_lines-Consumes false [] used s h = ([], refl, rw append-nil h)
parse_lines-Consumes true (line_end ∷ ts) used s h = tt
parse_lines-Consumes false (line_end ∷ ts) used s h = elim (Bool-cases (more_lines ts s.paren)) [
  | inr m ↦ rw m (line_end ∷ [], refl, rw append-nil h)
  | inl m ↦ rw m (extend (parse_lines true ts s) (parse_lines-Consumes true ts used s h))
]
  where
    extend : (r : Parsed (OnState × Tokens)) → Consumes ts used r → Consumes (line_end ∷ ts) used r
    extend (raised e) c = tt
    extend (parsed (s, rest)) (us, q, h) = (line_end ∷ us, rw q refl, h)
parse_lines-Consumes first (broken ∷ ts) used s h = tt
parse_lines-Consumes first (lparen ∷ ts) used s h =
    next-Consumes lparen ts used (parse_on_open s) (λ us. refl)
      (open-Keeps s.stack s.root s.paren used h) λ s' u h'. parse_lines-Consumes false ts u s' h'
parse_lines-Consumes first (rparen ∷ ts) used s h =
    next-Consumes rparen ts used (parse_on_close s) (λ us. refl) (close-Keeps s used h)
      λ s' u h'. parse_lines-Consumes false ts u s' h'
parse_lines-Consumes first (word raw arg ∷ ts) used s h =
    next-Consumes (word raw arg) ts used (operate (operator_of raw) arg s) (λ us. refl)
      (operate-Keeps raw arg (operator_of raw) s used refl h)
      λ s' u h'. parse_lines-Consumes false ts u s' h'

-- A successful end: what is left over is the input behind, and what was used is an expression.
Accepts : Tokens → Parsed (EventOperator × Tokens) → Type 0
unfolding without_line_ends
Accepts ts (raised e) = Unit
Accepts ts (parsed (t, rest)) = (us : Tokens) × (ts ≡ us ++ rest) × IsExpr (without_line_ends us) t

finish-Accepts :
    (ts : Tokens) (r : Parsed (OnState × Tokens))
    → Consumes ts [] r
    → Accepts ts (and_then r finish)
unfolding and_then Consumes finish Accepts Collected
finish-Accepts ts (raised e) h = tt
finish-Accepts ts (parsed (s, rest)) (us, q, h) =
    last (parse_on_collect s.stack s.root) (collect-Collected s.stack s.root _ h)
  where
    last :
        (c : Parsed (List Item × EventOperator))
        → Collected (without_line_ends us) c
        → Accepts ts (
            and_then c
              λ c. elim (c.0) [ [] ↦ parsed (c.1, rest) | i ∷ st ↦ raised parse_mismatched_parens ])
    last (raised e) k = tt
    last (parsed ([], t)) (u, v, h', l, e, p) = (us, q, rw (p, h') e)
    last (parsed (i ∷ st, t)) k = tt

-- What the parser accepts is, without the ends of lines, an expression of the grammar, and the
-- tree is the one that the grammar gives it; the rest of the input is left.
pub parse_on-IsExpr :
    (ts rest : Tokens) (t : EventOperator)
    → parse_on ts ≡ parsed (t, rest)
    → (us : Tokens) × (ts ≡ us ++ rest) × IsExpr (without_line_ends us) t
unfolding parse_on Accepts Reads
parse_on-IsExpr ts rest t h =
    subst (Accepts ts) h (finish-Accepts ts _ (parse_lines-Consumes true ts [] _ refl))
