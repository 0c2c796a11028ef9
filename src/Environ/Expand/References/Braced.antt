-- ===== src/Environ/Expand/References/Braced.antt =====
-- What `environ_expand` (init/environ.c) puts in place of a reference in braces.
use mathlib.Core.List.{append-nil}
use feature_d.Base.{
  ℕ, suc, Bool, true, false, ◌==◌, Bytes, Option, none, some, [], ◌∷◌, ◌++◌, ◌≡◌, refl, arith,
}
use feature_d.Environ.{Env, environ_getn}
use feature_d.Environ.Expand.{
  Expanded, expanded, failed, unknown_param, lacks, ◌>>=◌, Text, prepend, in_set, is_name_start, Op,
  op_value, op_default, op_alternate, operator, choose, closing, braced, reference,
  environ_expand_until,
}
use feature_d.Environ.Expand.References.{
  IsPlain, expand_until-plain, expand_until-stop, expand_until-dollar, bind-rest,
}

-- The operator as it is written behind the name.
abbrev pub op_text : Op → Bool → Bytes
op_text op_value ignore_empty = []
op_text op_default true = b':' ∷ b'-' ∷ []
op_text op_default false = b'-' ∷ []
op_text op_alternate true = b':' ∷ b'+' ∷ []
op_text op_alternate false = b'+' ∷ []

-- What stands between the name and the closing brace.
abbrev pub IsArg : Op → Bytes → Type 0
IsArg op_value arg = arg ≡ []
IsArg op_default arg = IsPlain (b'}' ∷ []) arg
IsArg op_alternate arg = IsPlain (b'}' ∷ []) arg

abbrev pub ends : Bytes
ends = b'}' ∷ b':' ∷ b'-' ∷ b'+' ∷ []

-- The recursive call for the name stops at the operator.
expand_until-name :
    (n : ℕ) (env : Env) (name arg rest : Bytes) (op : Op) (ignore : Bool)
    → IsPlain ends name
    → IsArg op arg
    → environ_expand_until (suc n) env ends (name ++ (op_text op ignore ++ (arg ++ (b'}' ∷ rest))))
      ≡ expanded (name, op_text op ignore ++ (arg ++ (b'}' ∷ rest)))
unfolding in_set
expand_until-name n env name arg rest op ignore p a =
    rw (expand_until-plain n env ends name (op_text op ignore ++ (arg ++ (b'}' ∷ rest))) p)
      (stops op ignore a)
  where
    stopped :
        (c : ℕ) (t : Bytes)
        → in_set c ends ≡ true
        → (c == b'$') ≡ false
        → prepend name (environ_expand_until (suc n) env ends (c ∷ t)) ≡ expanded (name, c ∷ t)
    stopped c t h d = rw (expand_until-stop n env ends c t h d, append-nil) refl

    stops :
        (op : Op) (ignore : Bool)
        → IsArg op arg
        → prepend name
            (environ_expand_until (suc n) env ends (op_text op ignore ++ (arg ++ (b'}' ∷ rest))))
          ≡ expanded (name, op_text op ignore ++ (arg ++ (b'}' ∷ rest)))
    stops op_value ignore a = rw a (stopped b'}' rest refl refl)
    stops op_default true a = stopped b':' _ refl refl
    stops op_default false a = stopped b'-' _ refl refl
    stops op_alternate true a = stopped b':' _ refl refl
    stops op_alternate false a = stopped b'+' _ refl refl

operator-text :
    (arg rest : Bytes) (op : Op) (ignore : Bool)
    → IsArg op arg
    → (b : Bool) × (operator (op_text op ignore ++ (arg ++ (b'}' ∷ rest)))
        ≡ expanded (op, b, arg ++ (b'}' ∷ rest)))
      × ((v : Option Bytes) → choose op b arg v ≡ choose op ignore arg v)
unfolding operator choose
operator-text [] rest op_value ignore a = (false, dash rest, λ v. same v)
  where
    dash : (rest : Bytes) → operator (b'}' ∷ rest) ≡ expanded (op_value, false, b'}' ∷ rest)
    dash [] = refl
    dash (d ∷ rest) = refl

    same : (v : Option Bytes) → choose op_value false [] v ≡ choose op_value ignore [] v
    same none = refl
    same (some v) = refl
operator-text (c ∷ arg) rest op_value ignore a = cc
operator-text arg rest op_default true a = (true, refl, λ v. refl)
operator-text [] rest op_default false a = (false, refl, λ v. refl)
operator-text (c ∷ arg) rest op_default false a = (false, refl, λ v. refl)
operator-text arg rest op_alternate true a = (true, refl, λ v. refl)
operator-text [] rest op_alternate false a = (false, refl, λ v. refl)
operator-text (c ∷ arg) rest op_alternate false a = (false, refl, λ v. refl)

-- The recursive call for the argument stops at the closing brace.
expand_until-arg :
    (n : ℕ) (env : Env) (arg rest : Bytes) (op : Op)
    → IsArg op arg
    → environ_expand_until (suc n) env (b'}' ∷ []) (arg ++ (b'}' ∷ rest))
      ≡ expanded (arg, b'}' ∷ rest)
unfolding in_set
expand_until-arg n env arg rest op a = plain op a
  where
    stopped :
        IsPlain (b'}' ∷ []) arg
        → environ_expand_until (suc n) env (b'}' ∷ []) (arg ++ (b'}' ∷ rest))
          ≡ expanded (arg, b'}' ∷ rest)
    stopped p =
        rw
          (
            expand_until-plain n env (b'}' ∷ []) arg (b'}' ∷ rest) p,
            expand_until-stop n env (b'}' ∷ []) b'}' rest refl refl,
            append-nil,
          )
          refl

    plain :
        (op : Op)
        → IsArg op arg
        → environ_expand_until (suc n) env (b'}' ∷ []) (arg ++ (b'}' ∷ rest))
          ≡ expanded (arg, b'}' ∷ rest)
    plain op_value a = rw a (expand_until-stop n env (b'}' ∷ []) b'}' rest refl refl)
    plain op_default p = stopped p
    plain op_alternate p = stopped p

reference-braced :
    (inner : Bytes → Bytes → Expanded Text) (env : Env) (c : ℕ) (s : Bytes)
    → (c == b'}') ≡ false
    → reference inner env (b'{' ∷ c ∷ s) ≡ braced inner env (c ∷ s)
unfolding reference is_name_start
reference-braced inner env c s h = rw h refl

braced-text :
    (n : ℕ) (env : Env) (c : ℕ) (name arg rest : Bytes) (op : Op) (ignore : Bool)
    → IsPlain ends (c ∷ name)
    → IsArg op arg
    → braced
        (environ_expand_until (suc n) env)
        env
        (c ∷ (name ++ (op_text op ignore ++ (arg ++ (b'}' ∷ rest)))))
      ≡ (choose op ignore arg (environ_getn env (c ∷ name)) >>= λ v.
          let t : Text = (v, rest) in expanded t)
unfolding braced closing
braced-text n env c name arg rest op ignore p a =
    let (b, q, same) = operator-text arg rest op ignore a in
    rw
      (
        expand_until-name n env (c ∷ name) arg rest op ignore p a,
        q,
        expand_until-arg n env arg rest op a,
        same (environ_getn env (c ∷ name)),
      )
      refl

-- What the five forms stand for, by whether the variable is missing, empty or has a value.
abbrev pub stands_for : Op → Bool → Bytes → Option Bytes → Expanded Bytes
stands_for op_value ignore arg none = failed unknown_param
stands_for op_value ignore arg (some v) = expanded v
stands_for op_default ignore arg none = expanded arg
stands_for op_default true arg (some []) = expanded arg
stands_for op_default false arg (some []) = expanded []
stands_for op_default ignore arg (some (c ∷ v)) = expanded (c ∷ v)
stands_for op_alternate ignore arg none = expanded []
stands_for op_alternate true arg (some []) = expanded []
stands_for op_alternate false arg (some []) = expanded arg
stands_for op_alternate ignore arg (some (c ∷ v)) = expanded arg

choose-stands_for :
    (op : Op) (ignore : Bool) (arg : Bytes) (v : Option Bytes)
    → choose op ignore arg v ≡ stands_for op ignore arg v
unfolding choose lacks
choose-stands_for op_value ignore arg none = refl
choose-stands_for op_value ignore arg (some v) = refl
choose-stands_for op_default ignore arg none = refl
choose-stands_for op_default true arg (some []) = refl
choose-stands_for op_default false arg (some []) = refl
choose-stands_for op_default true arg (some (c ∷ v)) = refl
choose-stands_for op_default false arg (some (c ∷ v)) = refl
choose-stands_for op_alternate ignore arg none = refl
choose-stands_for op_alternate true arg (some []) = refl
choose-stands_for op_alternate false arg (some []) = refl
choose-stands_for op_alternate true arg (some (c ∷ v)) = refl
choose-stands_for op_alternate false arg (some (c ∷ v)) = refl

-- `${NAME}`, `${NAME-ARG}`, `${NAME:-ARG}`, `${NAME+ARG}` and `${NAME:+ARG}`, for a name and an
-- argument that hold no byte at which the loop stops. A plain reference stands for the value, or
-- fails where there is none; `-` for the value, or the argument where there is none; `+` for the
-- argument, or nothing where there is no value; with a colon an empty value counts as none. The loop
-- goes on behind the closing brace.
pub expand_until-braced :
    (n : ℕ) (env : Env) (until : Bytes) (c : ℕ) (name arg rest : Bytes) (op : Op) (ignore : Bool)
    → IsPlain ends (c ∷ name)
    → IsArg op arg
    → environ_expand_until
        (suc (suc n))
        env
        until
        (b'$' ∷ b'{' ∷ c ∷ (name ++ (op_text op ignore ++ (arg ++ (b'}' ∷ rest)))))
      ≡ (stands_for op ignore arg (environ_getn env (c ∷ name)) >>= λ v.
          prepend v (environ_expand_until (suc n) env until rest))
unfolding in_set
expand_until-braced n env until c name arg rest op ignore p a =
    rw
      (
        expand_until-dollar (suc n) env until
            (b'{' ∷ c ∷ (name ++ (op_text op ignore ++ (arg ++ (b'}' ∷ rest))))),
        reference-braced (environ_expand_until (suc n) env) env c
            (name ++ (op_text op ignore ++ (arg ++ (b'}' ∷ rest)))) (ground arith),
        braced-text n env c name arg rest op ignore p a,
        choose-stands_for op ignore arg (environ_getn env (c ∷ name)),
      )
      (bind-rest (stands_for op ignore arg (environ_getn env (c ∷ name))) rest
        (environ_expand_until (suc n) env until))
