-- ===== src/ParseOn/Collects.antt =====
-- The stack of the parser of init/parse_job.c, read as the input that has been consumed.
use feature_d.Base.{
  true, false, Bytes, Option, none, some, List, [], ◌∷◌, ◌++◌, ◌≡◌, ◌⊎◌, inl, inr, append_assoc,
}
use feature_d.EventOperator.{EventOperator, gate, leaf}
use feature_d.ParseOn.{
  Tokens, lparen, word, operator_of, Item, mark, operator, event_match, Parsed, raised, parsed,
  and_then, collect_items, parse_on_collect, match_on_top,
}
use feature_d.ParseOn.Grammar.{IsEvent, IsOperand, IsExpr, event, single, binary}

-- Nothing is to be collected: the stack is empty, or a mark is on top.
unfoldable pub IsLevel : List Item → Type 0
IsLevel [] = Unit
IsLevel (mark ∷ st) = Unit
IsLevel (i ∷ st) = ⊥

-- The stack holds what `used` says.
unfoldable pub Holds : List Item → Tokens → Type 0
unfolding IsLevel
Holds [] used = used ≡ []
Holds (mark ∷ st) used = (u : Tokens) × Holds st u × (used ≡ u ++ (lparen ∷ []))
Holds (operator type left ∷ st) used =
    (u v : Tokens) × (raw arg : Bytes) × Holds st u
    × IsLevel st
    × IsExpr v left
    × (operator_of raw ≡ some type)
    × (used ≡ u ++ (v ++ (word raw arg ∷ [])))
Holds (event_match name env ∷ st) used =
    (u v : Tokens) × Holds st u × IsEvent v name env × (match_on_top st ≡ false) × (used ≡ u ++ v)

-- The stack and the root hold what `used` says, or they cannot be collected.
unfoldable pub Reads : List Item → Option EventOperator → Tokens → Type 0
unfolding Holds
Reads st none used = Holds st used
Reads st (some r) used =
    (match_on_top st ≡ true)
    ⊎ ((u v : Tokens) × Holds st u × IsOperand v r × (match_on_top st ≡ false) × (used ≡ u ++ v))

-- What a collection leaves.
unfoldable pub Collected : Tokens → Parsed (List Item × EventOperator) → Type 0
unfolding Holds IsLevel
Collected used (raised e) = Unit
Collected used (parsed c) =
    (u v : Tokens) × Holds (c.0) u × IsLevel (c.0) × IsExpr v (c.1) × (used ≡ u ++ v)

collect_level :
    (st : List Item) (r : EventOperator) (u v used : Tokens)
    → Holds st u
    → IsLevel st
    → IsExpr v r
    → used ≡ u ++ v
    → Collected used (parse_on_collect st (some r))
unfolding parse_on_collect collect_items and_then Collected
collect_level [] r u v used h l e q = (u, v, h, tt, e, q)
collect_level (mark ∷ st) r u v used h l e q = (u, v, h, tt, e, q)
collect_level (operator type left ∷ st) r u v used h l e q = absurd l
collect_level (event_match name env ∷ st) r u v used h l e q = absurd l

-- A root that is an operand is the right child of the operator on top, where there is one.
collect_operand :
    (st : List Item) (r : EventOperator) (u v used : Tokens)
    → Holds st u
    → match_on_top st ≡ false
    → IsOperand v r
    → used ≡ u ++ v
    → Collected used (parse_on_collect st (some r))
unfolding parse_on_collect collect_items and_then Collected Reads IsLevel Holds
collect_operand [] r u v used h m e q = collect_level [] r u v used h tt (single e) q
collect_operand (mark ∷ st) r u v used h m e q =
    collect_level (mark ∷ st) r u v used h tt (single e) q
collect_operand (operator type left ∷ st) r u v used (u', v', raw, arg, h, l, el, eq, p) m e q =
    collect_level st (gate type false left r) u' (v' ++ (word raw arg ∷ v)) used h l
      (binary raw arg type el eq e) (simp (q, p, append_assoc))
collect_operand (event_match name env ∷ st) r u v used h m e q = cc

pub collect-Collected :
    (st : List Item) (root : Option EventOperator) (used : Tokens)
    → Reads st root used
    → Collected used (parse_on_collect st root)
unfolding parse_on_collect collect_items and_then Collected Reads IsLevel Holds
collect-Collected st (some r) used (inr (u, v, h, e, m, q)) = collect_operand st r u v used h m e q
collect-Collected [] (some r) used (inl h) = cc
collect-Collected (mark ∷ st) (some r) used (inl h) = cc
collect-Collected (operator type left ∷ st) (some r) used (inl h) = cc
collect-Collected (event_match name env ∷ st) (some r) used (inl h) = tt
collect-Collected [] none used h = tt
collect-Collected (mark ∷ st) none used h = tt
collect-Collected (operator type left ∷ st) none used h = tt
collect-Collected (event_match name env ∷ st) none used (u, v, h, e, m, q) =
    collect_operand st (leaf false name env none) u v used h m (event e) q
