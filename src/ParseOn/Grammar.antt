-- ===== src/ParseOn/Grammar.antt =====
-- The expressions of init/parse_job.c without the parser: `and` and `or` have the same precedence and group
-- to the left, an operand is an event with its conditions or an expression in parentheses. The
-- ends of lines are left out.
use feature_d.Base.{
  Bool, true, not, ◌&&◌, ◌||◌, is_some, find_byte, true, false, Bytes, none, some, [], ◌∷◌, ◌++◌,
  ◌≡◌,
}
use feature_d.Environ.{Env}
use feature_d.EventOperator.{EventOperator, EventOperatorType, gate, leaf}
use feature_d.ParseOn.{Tokens, lparen, rparen, word, operator_of}

abbrev pub is_named : Bytes → Bool
is_named s = is_some (find_byte b'=' s)

abbrev pub none_named : Env → Bool
none_named [] = true
none_named (e ∷ env) = not (is_named e) && none_named env

-- A condition without a name stands before all that have one.
pub data IsEvent : Tokens → Bytes → Env → Type 0 where
  named : (raw name : Bytes) → operator_of raw ≡ none → IsEvent (word raw name ∷ []) name []
  condition :
      {ts : Tokens} {name : Bytes} {env : Env} (raw arg : Bytes)
      → IsEvent ts name env
      → operator_of raw ≡ none
      → (is_named arg || none_named env) ≡ true
      → IsEvent (ts ++ (word raw arg ∷ [])) name (env ++ (arg ∷ []))

mutual
  pub data IsOperand : Tokens → EventOperator → Type 0 where
    event :
        {ts : Tokens} {name : Bytes} {env : Env}
        → IsEvent ts name env
        → IsOperand ts (leaf false name env none)
    parens :
        {ts : Tokens} {t : EventOperator}
        → IsExpr ts t
        → IsOperand (lparen ∷ (ts ++ (rparen ∷ []))) t

  pub data IsExpr : Tokens → EventOperator → Type 0 where
    single : {ts : Tokens} {t : EventOperator} → IsOperand ts t → IsExpr ts t
    binary :
        {ts us : Tokens} {l r : EventOperator} (raw arg : Bytes) (type : EventOperatorType)
        → IsExpr ts l
        → operator_of raw ≡ some type
        → IsOperand us r
        → IsExpr (ts ++ (word raw arg ∷ us)) (gate type false l r)
