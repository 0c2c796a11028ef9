-- ===== src/Environ/Expand/Total.antt =====
-- The loop of `environ_expand` (init/environ.c) ends: each round passes at least one byte.
use mathlib.Core.Path.{subst}
use feature_d.Base.{
  ◌&&◌, ℕ, zero, suc, Bool, true, false, ◌==◌, ◌≤◌, ◌<◌, if◌then◌else◌, Bytes, length, Option, none,
  some, [], ◌∷◌, ◌≢◌, arith,
}
use feature_d.Environ.{Env, environ_getn}
use feature_d.Environ.Expand.{
  Expanded, expanded, failed, fuel, ◌>>=◌, Text, skip, name_run, is_name_start, operator, choose,
  closing, simple, braced, reference, proceed, environ_expand_until, environ_expand, Op,
}

-- No lack of fuel, and what holds of a value.
abbrev Ensures : {A : Type 0} → (A → Type 0) → Expanded A → Type 0
Ensures P (expanded a) = P a
Ensures P (failed e) = Unit
Ensures P fuel = ⊥

>>=-Ensures :
    {A B : Type 0} (P : A → Type 0) (Q : B → Type 0) (m : Expanded A) (f : A → Expanded B)
    → Ensures P m
    → ((a : A) → P a → Ensures Q (f a))
    → Ensures Q (m >>= f)
>>=-Ensures P Q (expanded a) f h k = k a h
>>=-Ensures P Q (failed e) f h k = tt
>>=-Ensures P Q fuel f h k = absurd h

-- An answer that leaves at most `k` bytes.
abbrev Fits : ℕ → Expanded Text → Type 0
Fits k = Ensures λ t. length t.1 ≤ k

abbrev Any : {A : Type 0} → A → Type 0
Any a = Unit

length-skip : (until s : Bytes) → length (skip until s).1 ≤ length s
unfolding skip
length-skip until [] = omega arith
length-skip until (c ∷ s) = ground (arith, length-skip until s)

length-name_run : (s : Bytes) → length (name_run s).1 ≤ length s
unfolding name_run
length-name_run [] = omega arith
length-name_run (c ∷ s) = ground (arith, length-name_run s)

choose-Ends :
    (op : Op) (ignore : Bool) (arg : Bytes) (v : Option Bytes)
    → Ensures Any (choose op ignore arg v)
unfolding choose
choose-Ends Op.op_value ignore arg none = tt
choose-Ends Op.op_value ignore arg (some v) = tt
choose-Ends Op.op_default ignore arg none = tt
choose-Ends Op.op_default ignore arg (some v) = ground arith
choose-Ends Op.op_alternate ignore arg v = ground arith

simple-Fits : (env : Env) (c : ℕ) (t : Text) → Fits (length t.1) (simple env c t)
unfolding simple
simple-Fits env c (name, rest) =
    >>=-Ensures Any _ (choose Op.op_value false [] (environ_getn env (c ∷ name))) _
      (choose-Ends Op.op_value false [] _) (λ v _. omega arith)

-- `operator` leaves at most what it was given.
operator-Fits : (s : Bytes) → Ensures (λ o. length o.2 ≤ length s) (operator s)
unfolding operator
operator-Fits [] = omega arith
operator-Fits (c ∷ []) = ground arith
operator-Fits (c ∷ d ∷ s) = ground arith

closing-Fits : (s : Bytes) → Ensures (λ r. length r ≤ length s) (closing s)
unfolding closing
closing-Fits [] = tt
closing-Fits (c ∷ s) = ground arith

abbrev Inner : ℕ → (Bytes → Bytes → Expanded Text) → Type 0
Inner k inner = (until s : Bytes) → length s ≤ k → Fits (length s) (inner until s)

braced-Fits :
    (inner : Bytes → Bytes → Expanded Text) (env : Env) (s : Bytes)
    → Inner (length s) inner
    → Fits (length s) (braced inner env s)
unfolding braced
braced-Fits inner env s h =
    >>=-Ensures (λ n. length n.1 ≤ length s) _ (inner _ s) _ (h _ s (omega arith))
      λ n hn.
        >>=-Ensures (λ o. length o.2 ≤ length n.1) _ (operator n.1) _ (operator-Fits n.1)
          λ o ho.
            >>=-Ensures (λ a. length a.1 ≤ length o.2) _ (inner _ o.2) _ (h _ o.2 (omega arith))
              λ a ha.
                >>=-Ensures (λ r. length r ≤ length a.1) _ (closing a.1) _ (closing-Fits a.1)
                  λ r hr.
                    >>=-Ensures Any _ (choose o.0 o.1 a.0 (environ_getn env n.0)) _
                      (choose-Ends o.0 o.1 a.0 _) (λ v _. omega arith)

if-Ensures :
    {A : Type 0} (P : A → Type 0) (b : Bool) (x y : Expanded A)
    → Ensures P x
    → Ensures P y
    → Ensures P (if b then x else y)
if-Ensures P true x y h k = h
if-Ensures P false x y h k = k

Fits-le : (j k : ℕ) (r : Expanded Text) → j ≤ k → Fits j r → Fits k r
Fits-le j k (expanded t) h f = omega arith
Fits-le j k (failed e) h f = tt
Fits-le j k fuel h f = f

reference-Fits :
    (inner : Bytes → Bytes → Expanded Text) (env : Env) (s : Bytes)
    → Inner (length s) inner
    → Fits (length s) (reference inner env s)
unfolding reference
reference-Fits inner env [] h = omega arith
reference-Fits inner env (c ∷ []) h =
    if-Ensures _ (is_name_start c) _ _ (Fits-le 0 1 _ (omega arith) (simple-Fits env c ([], []))) (
      if-Ensures _ (c == b'{') _ _
        (Fits-le 0 1 _ (omega arith) (braced-Fits inner env [] (λ u s l. h u s (omega arith))))
        (omega arith))
reference-Fits inner env (c ∷ d ∷ s) h =
    if-Ensures _ (is_name_start c) _ _
      (Fits-le (length (name_run (d ∷ s)).1) _ _ (omega (arith, length-name_run (d ∷ s)))
        (simple-Fits env c (name_run (d ∷ s))))
      (if-Ensures _ (c == b'{' && d == b'}') _ _ (omega arith) (
        if-Ensures _ (c == b'{') _ _
          (Fits-le (length {A = ℕ} (d ∷ s)) _ _ (omega arith)
            (braced-Fits inner env (d ∷ s) (λ u s l. h u s (omega arith))))
          (omega arith)))

proceed-Fits :
    (inner : Bytes → Bytes → Expanded Text) (more : Bytes → Expanded Text) (env : Env) (k : ℕ)
    (t : Text)
    → length t.1 ≤ suc k
    → Inner k inner
    → ((s : Bytes) → length s ≤ k → Fits (length s) (more s))
    → Fits (suc k) (proceed inner more env t)
unfolding proceed
proceed-Fits inner more env k (before, []) l h m = omega arith
proceed-Fits inner more env k (before, c ∷ rest) l h m =
    if-Ensures _ (c == b'$') _ _
      (>>=-Ensures (λ r. length r.1 ≤ length rest) _ (reference inner env rest) _
        (reference-Fits inner env rest (λ u s n. h u s (omega arith)))
        (λ r hr.
          >>=-Ensures (λ u. length u.1 ≤ length r.1) _ (more r.1) _ (m r.1 (omega arith))
            (λ u hu. omega arith)))
      (omega arith)

expand_until-Fits :
    (n : ℕ) (env : Env) (until s : Bytes)
    → length s < n
    → Fits (length s) (environ_expand_until n env until s)
unfolding environ_expand_until
expand_until-Fits zero env until s h = elim h [ ]
expand_until-Fits (suc n) env until [] h = omega arith
expand_until-Fits (suc n) env until (c ∷ s) h =
    proceed-Fits _ _ env (length s) (skip until (c ∷ s)) (length-skip until (c ∷ s))
      (λ u t l. expand_until-Fits n env u t (omega arith))
      (λ t l. expand_until-Fits n env until t (omega arith))

-- The fuel that `environ_expand` starts with is enough for every string and table.
pub environ_expand_total : (s : Bytes) (env : Env) → environ_expand s env ≢ fuel
unfolding environ_expand
environ_expand_total s env e = subst (Ensures Any) e (
    >>=-Ensures (λ t. length t.1 ≤ length s) _ (environ_expand_until (suc (length s)) env [] s) _
      (expand_until-Fits (suc (length s)) env [] s (omega arith)) (λ t _. tt))
