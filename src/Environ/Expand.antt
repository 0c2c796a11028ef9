-- ===== src/Environ/Expand.antt =====
-- `environ_expand` of init/environ.c: variable references in a string. The source rewrites one
-- buffer in place; here a call takes the text from its position on, and returns what it has put in
-- place of the text that it passed, with the rest. Text before the position is never read again.
pub mod Total
pub mod References
use feature_d.Base.{
  ℕ, zero, suc, Bool, true, false, ◌&&◌, ◌||◌, ◌==◌, leb, if◌then◌else◌, Bytes, length, Option,
  none, some, List, [], ◌∷◌, ◌++◌, ◌≡◌, refl, arith,
}
use feature_d.Environ.{Env, environ_getn}

pub data ExpandError : Type 0 where
  expected_operator mismatched_braces unknown_param : ExpandError

-- `fuel` is the answer of the model alone, when the rounds given are used up.
pub data Expanded (A : Type 0) : Type 0 where
  expanded : A → Expanded A
  failed : ExpandError → Expanded A
  fuel : Expanded A

infixl 5 ◌>>=◌
abbrev pub ◌>>=◌ : {A B : Type 0} → Expanded A → (A → Expanded B) → Expanded B
expanded a >>= f = f a
failed e >>= f = failed e
fuel >>= f = fuel

abbrev pub Text : Type 0
Text = Bytes × Bytes

abbrev pub prepend : Bytes → Expanded Text → Expanded Text
prepend s r = r >>= λ t. expanded (s ++ t.0, t.1)

unfoldable pub in_set : ℕ → Bytes → Bool
in_set c [] = false
in_set c (b ∷ set) = c == b || in_set c set

unfoldable pub is_name_start : ℕ → Bool
is_name_start c = c == b'_' || (leb b'A' c && leb c b'Z') || (leb b'a' c && leb c b'z')

unfoldable pub is_name_byte : ℕ → Bool
unfolding is_name_start
is_name_byte c = is_name_start c || (leb b'0' c && leb c b'9')

-- The text up to the first `$` or byte of `until`, and the rest.
skip : Bytes → Bytes → Text
unfolding in_set
skip until [] = ([], [])
skip until (c ∷ s) =
    let (before, rest) = skip until s in
    if c == b'$' || in_set c until then ([], c ∷ s) else (c ∷ before, rest)

-- The longest run of name bytes, and the rest.
name_run : Bytes → Text
unfolding is_name_byte
name_run [] = ([], [])
name_run (c ∷ s) =
    let (name, rest) = name_run s in if is_name_byte c then (c ∷ name, rest) else ([], c ∷ s)

pub data Op : Type 0 where
  op_value op_default op_alternate : Op

-- The operator behind the name in braces, whether an empty value counts as none, and the rest.
operator : Bytes → Expanded (Op × Bool × Bytes)
operator [] = expanded (op_value, false, [])
operator (c ∷ []) =
    if c == b'-'
    then expanded (op_default, false, [])
    else if c == b'+'
    then expanded (op_alternate, false, [])
    else if c == b'}'
    then expanded (op_value, false, c ∷ [])
    else failed expected_operator
operator (c ∷ d ∷ s) =
    if c == b':' && d == b'-'
    then expanded (op_default, true, s)
    else if c == b':' && d == b'+'
    then expanded (op_alternate, true, s)
    else if c == b'-'
    then expanded (op_default, false, d ∷ s)
    else if c == b'+'
    then expanded (op_alternate, false, d ∷ s)
    else if c == b'}'
    then expanded (op_value, false, c ∷ d ∷ s)
    else failed expected_operator

-- A value that is missing, or empty where that counts as missing.
unfoldable pub lacks : Bool → Option Bytes → Bool
lacks ignore_empty none = true
lacks ignore_empty (some []) = ignore_empty
lacks ignore_empty (some (c ∷ v)) = false

-- The `switch` over the operator.
unfoldable pub choose : Op → Bool → Bytes → Option Bytes → Expanded Bytes
unfolding lacks
choose op_value ignore_empty arg none = failed unknown_param
choose op_value ignore_empty arg (some v) = expanded v
choose op_default ignore_empty arg none = expanded arg
choose op_default ignore_empty arg (some v) =
    if lacks ignore_empty (some v) then expanded arg else expanded v
choose op_alternate ignore_empty arg value =
    if lacks ignore_empty value then expanded [] else expanded arg

closing : Bytes → Expanded Bytes
closing [] = failed mismatched_braces
closing (c ∷ s) = if c == b'}' then expanded s else failed mismatched_braces

-- `$NAME`; `c` is the first byte of the name.
simple : Env → ℕ → Text → Expanded Text
unfolding choose
simple env c (name, rest) =
    choose op_value false [] (environ_getn env (c ∷ name)) >>= λ v. expanded (v, rest)

-- `${…}` behind the opening brace. `inner` is the recursive call, which expands up to a byte of
-- the set that it is given.
braced : (Bytes → Bytes → Expanded Text) → Env → Bytes → Expanded Text
unfolding operator choose closing
braced inner env s = do
  n ← inner (b'}' ∷ b':' ∷ b'-' ∷ b'+' ∷ []) s
  o ← operator n.1
  a ← inner (b'}' ∷ []) o.2
  rest ← closing a.1
  v ← choose o.0 o.1 a.0 (environ_getn env n.0)
  expanded (v, rest)

-- One round of the loop behind a `$`: the text that takes the reference's place, and the rest.
pub reference : (Bytes → Bytes → Expanded Text) → Env → Bytes → Expanded Text
unfolding is_name_start name_run simple braced
reference inner env [] = expanded (b'$' ∷ [], [])
reference inner env (c ∷ []) =
    if is_name_start c
    then simple env c ([], [])
    else if c == b'{'
    then braced inner env []
    else expanded (b'$' ∷ [], c ∷ [])
reference inner env (c ∷ d ∷ s) =
    if is_name_start c
    then simple env c (name_run (d ∷ s))
    else if c == b'{' && d == b'}'
    then expanded (b'$' ∷ [], s)
    else if c == b'{'
    then braced inner env (d ∷ s)
    else expanded (b'$' ∷ [], c ∷ d ∷ s)

-- The loop goes on behind a reference (`more`), and ends at any other byte.
proceed : (Bytes → Bytes → Expanded Text) → (Bytes → Expanded Text) → Env → Text → Expanded Text
unfolding reference
proceed inner more env (before, []) = expanded (before, [])
proceed inner more env (before, c ∷ rest) =
    if c == b'$'
    then (reference inner env rest >>= λ r. prepend (before ++ r.0) (more r.1))
    else expanded (before, c ∷ rest)

pub environ_expand_until : ℕ → Env → Bytes → Bytes → Expanded Text
unfolding skip proceed
environ_expand_until zero env until s = fuel
environ_expand_until (suc n) env until s =
    proceed (environ_expand_until n env) (environ_expand_until n env until) env (skip until s)

-- Each round passes at least one byte.
unfoldable pub environ_expand : Bytes → Env → Expanded Bytes
unfolding environ_expand_until
environ_expand s env = environ_expand_until (suc (length s)) env [] s >>= λ t. expanded t.0
