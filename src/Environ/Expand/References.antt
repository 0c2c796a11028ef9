-- ===== src/Environ/Expand/References.antt =====
-- What `environ_expand` (init/environ.c) puts in place of each form of reference.
pub mod Braced
use mathlib.Core.List.{append_assoc, append-nil}
use feature_d.Base.{
  ℕ, zero, suc, ◌<◌, Bool, true, false, ◌&&◌, ◌||◌, ◌==◌, if◌then◌else◌, Bytes, length, Option,
  none, some, List, [], ◌∷◌, ◌++◌, ◌≡◌, refl, arith, All, ap, sym, inl, inr, Bool-cases,
}
use feature_d.Environ.{Env, environ_getn}
use feature_d.Environ.Expand.{
  Expanded, expanded, failed, fuel, ◌>>=◌, Text, prepend, in_set, skip, name_run, is_name_start,
  is_name_byte, Op, op_value, op_default, op_alternate, operator, lacks, choose, closing, simple,
  braced, reference, proceed, environ_expand_until, environ_expand,
}

-- Text in which the loop stops nowhere.
abbrev pub IsPlain : Bytes → Bytes → Type 0
IsPlain until = All λ c. (c == b'$' || in_set c until) ≡ false

skip-plain :
    (until s rest : Bytes)
    → IsPlain until s
    → skip until (s ++ rest) ≡ (s ++ (skip until rest).0, (skip until rest).1)
unfolding skip
skip-plain until [] rest h = refl
skip-plain until (c ∷ s) rest h = ground (arith, skip-plain until s rest h.1)

prepend-prepend : (s t : Bytes) (r : Expanded Text) → prepend s (prepend t r) ≡ prepend (s ++ t) r
prepend-prepend s t (expanded u) = ap expanded (ap (λ x. (x, u.1)) (sym (append_assoc s t u.0)))
prepend-prepend s t (failed e) = refl
prepend-prepend s t fuel = refl

bind-prepend :
    (s b : Bytes) (m : Expanded Text) (more : Bytes → Expanded Text)
    → (m >>= λ r. prepend ((s ++ b) ++ r.0) (more r.1))
      ≡ prepend s (m >>= λ r. prepend (b ++ r.0) (more r.1))
bind-prepend s b (expanded r) more = rw append_assoc (sym (prepend-prepend s (b ++ r.0) (more r.1)))
bind-prepend s b (failed e) more = refl
bind-prepend s b fuel more = refl

proceed-prepend :
    (inner : Bytes → Bytes → Expanded Text) (more : Bytes → Expanded Text) (env : Env) (s : Bytes)
    (t : Text)
    → proceed inner more env (s ++ t.0, t.1) ≡ prepend s (proceed inner more env t)
unfolding proceed
proceed-prepend inner more env s (before, []) = refl
proceed-prepend inner more env s (before, c ∷ rest) = elim (Bool-cases (c == b'$')) [
  | inl e ↦ rw e (bind-prepend s before (reference inner env rest) more)
  | inr e ↦ rw e
]

-- Plain text is passed on as it is.
pub expand_until-plain :
    (n : ℕ) (env : Env) (until s rest : Bytes)
    → IsPlain until s
    → environ_expand_until (suc n) env until (s ++ rest)
      ≡ prepend s (environ_expand_until (suc n) env until rest)
unfolding environ_expand_until
expand_until-plain n env until s rest h = rw (skip-plain until s rest h) (
    proceed-prepend (environ_expand_until n env) (environ_expand_until n env until) env s
      (skip until rest))

-- The loop ends at a byte of `until`.
pub expand_until-stop :
    (n : ℕ) (env : Env) (until : Bytes) (c : ℕ) (rest : Bytes)
    → in_set c until ≡ true
    → (c == b'$') ≡ false
    → environ_expand_until (suc n) env until (c ∷ rest) ≡ expanded ([], c ∷ rest)
unfolding environ_expand_until proceed skip
expand_until-stop n env until c rest h d = ground arith

prepend-nil : (r : Expanded Text) → prepend [] r ≡ r
prepend-nil (expanded t) = refl
prepend-nil (failed e) = refl
prepend-nil fuel = refl

-- At a `$` the text of the reference comes first, and the loop goes on behind it.
pub expand_until-dollar :
    (n : ℕ) (env : Env) (until s : Bytes)
    → environ_expand_until (suc n) env until (b'$' ∷ s) ≡ (
        reference (environ_expand_until n env) env s >>= λ r.
        prepend r.0 (environ_expand_until n env until r.1))
unfolding environ_expand_until proceed skip
expand_until-dollar n env until s = refl

abbrev pub EndsName : Bytes → Type 0
EndsName [] = Unit
EndsName (d ∷ s) = is_name_byte d ≡ false

name_run-append :
    (name rest : Bytes)
    → All (λ c. is_name_byte c ≡ true) name
    → EndsName rest
    → name_run (name ++ rest) ≡ (name, rest)
unfolding name_run
name_run-append [] [] h e = refl
name_run-append [] (d ∷ rest) h e = ground arith
name_run-append (c ∷ name) rest h e = ground (arith, name_run-append name rest h.1 e)

reference-simple :
    (inner : Bytes → Bytes → Expanded Text) (env : Env) (c : ℕ) (s : Bytes)
    → is_name_start c ≡ true
    → reference inner env (c ∷ s) ≡ simple env c (name_run s)
unfolding reference
reference-simple inner env c [] h = ground arith
reference-simple inner env c (d ∷ s) h = rw h

-- A value with the rest behind it, and the loop after that.
pub bind-rest :
    (m : Expanded Bytes) (rest : Bytes) (more : Bytes → Expanded Text)
    → ((m >>= λ v. let t : Text = (v, rest) in expanded t) >>= λ r. prepend r.0 (more r.1))
      ≡ (m >>= λ v. prepend v (more rest))
bind-rest (expanded v) rest more = refl
bind-rest (failed e) rest more = refl
bind-rest fuel rest more = refl

-- `$NAME` takes the value of the variable, or fails where it has none; the value itself is not
-- expanded again. What follows does not go on the name.
expand_until-simple :
    (n : ℕ) (env : Env) (until : Bytes) (c : ℕ) (name rest : Bytes)
    → is_name_start c ≡ true
    → All (λ b. is_name_byte b ≡ true) name
    → EndsName rest
    → environ_expand_until (suc n) env until (b'$' ∷ c ∷ (name ++ rest)) ≡ (
        choose op_value false [] (environ_getn env (c ∷ name)) >>= λ v.
        prepend v (environ_expand_until n env until rest))
unfolding simple
expand_until-simple n env until c name rest h a e =
    rw
      (
        expand_until-dollar n env until (c ∷ (name ++ rest)),
        reference-simple (environ_expand_until n env) env c (name ++ rest) h,
        name_run-append name rest a e,
      )
      (bind-rest (choose op_value false [] (environ_getn env (c ∷ name))) rest
        (environ_expand_until n env until))

-- A lone dollar sign is kept, and `${}` stands for one.
pub expand_until-escape :
    (n : ℕ) (env : Env) (until s : Bytes)
    → environ_expand_until (suc n) env until (b'$' ∷ b'{' ∷ b'}' ∷ s)
      ≡ prepend (b'$' ∷ []) (environ_expand_until n env until s)
unfolding reference is_name_start
expand_until-escape n env until s = expand_until-dollar n env until (b'{' ∷ b'}' ∷ s)

-- Text with each dollar sign written `${}`.
abbrev pub escape : Bytes → Bytes
escape [] = []
escape (c ∷ s) = if c == b'$' then b'$' ∷ b'{' ∷ b'}' ∷ escape s else c ∷ escape s

abbrev pub dollars : Bytes → ℕ
dollars [] = 0
dollars (c ∷ s) = if c == b'$' then suc (dollars s) else dollars s

expand_until-escaped :
    (n : ℕ) (env : Env) (s : Bytes)
    → dollars s < n
    → environ_expand_until n env [] (escape s) ≡ expanded (s, [])
unfolding in_set
expand_until-escaped zero env s h = elim h [ ]
expand_until-escaped (suc n) env [] h = unfold environ_expand_until proceed skip in refl
expand_until-escaped (suc n) env (c ∷ s) h = elim (Bool-cases (c == b'$')) [
  | inl e ↦
      rw (e, expand_until-escape n env [] (escape s), expand_until-escaped n env s (ground arith))
        (ground arith)
  | inr e ↦
      rw
        (
          e,
          expand_until-plain n env [] (c ∷ []) (escape s) (ground arith, tt),
          expand_until-escaped (suc n) env s (ground arith),
        )
        refl
]

dollars-length : (s : Bytes) → dollars s < suc (length (escape s))
dollars-length [] = omega arith
dollars-length (c ∷ s) = ground (arith, dollars-length s)

-- Every text comes out again of its escaped form, whatever the table.
pub environ_expand-escape : (s : Bytes) (env : Env) → environ_expand (escape s) env ≡ expanded s
unfolding environ_expand
environ_expand-escape s env =
    rw (expand_until-escaped (suc (length (escape s))) env s (dollars-length s)) refl
