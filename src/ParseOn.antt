-- ===== src/ParseOn.antt =====
-- init/parse_job.c: the parser of `start on` and `stop on`. The tokeniser is libnih's; the input is
-- what it delivers one after another: parentheses, words, and the ends of lines with their
-- comments. The parser is a loop over a stack of nodes that are not complete.
pub mod Grammar
pub mod Positional
pub mod Collects
pub mod Steps
pub mod Derived
pub mod Goes
pub mod Parses
use feature_d.Base.{
  ℕ, ◌+◌, ◌-◌, ◌%◌, Bool, true, false, not, ◌&&◌, ◌==◌, if◌then◌else◌, is_some, Bytes, codes, same,
  find_byte, Option, none, some, List, [], ◌∷◌, ◌++◌,
}
use feature_d.Environ.{Env}
use feature_d.EventOperator.{EventOperator, EventOperatorType, event_or, event_and, gate, leaf}

-- A word with and without its quotes. A word that cannot be read, for want of a closing quote, is
-- `broken`; `line_end` is where no token is left before the newline.
pub data OnToken : Type 0 where
  lparen rparen line_end broken : OnToken
  word : Bytes → Bytes → OnToken

abbrev pub Tokens : Type 0
Tokens = List OnToken

pub data ParseError : Type 0 where
  config_expected_token config_broken_token : ParseError
  parse_expected_event parse_expected_operator parse_expected_variable : ParseError
  parse_mismatched_parens parse_illegal_interval parse_illegal_exit parse_illegal_signal :
      ParseError
  parse_illegal_umask parse_illegal_nice parse_illegal_oom parse_illegal_limit : ParseError
  config_unknown_stanza config_unexpected_token config_unterminated_block : ParseError

pub data Parsed (A : Type 0) : Type 0 where
  raised : ParseError → Parsed A
  parsed : A → Parsed A

unfoldable pub and_then : {A B : Type 0} → Parsed A → (A → Parsed B) → Parsed B
and_then (raised e) f = raised e
and_then (parsed a) f = f a

-- What stands on the stack: the mark of an open parenthesis, an operator that has its left child,
-- or an event to match.
pub data Item : Type 0 where
  mark : Item
  operator : EventOperatorType → EventOperator → Item
  event_match : Bytes → Env → Item

-- The stack, top first, and the root; `paren` is a `size_t`.
pub record OnState : Type 0 where
  pub stack : List Item
  pub root : Option EventOperator
  pub paren : ℕ

abbrev pub operator_of : Bytes → Option EventOperatorType
operator_of raw =
    if same raw (codes "and")
    then some event_and
    else if same raw (codes "or")
    then some event_or
    else none

-- The loop of `parse_on_collect`, on the stack and the root.
unfoldable pub collect_items :
    List Item → Option EventOperator → Parsed (List Item × Option EventOperator)
collect_items [] root = parsed ([], root)
collect_items (mark ∷ st) root = parsed (mark ∷ st, root)
collect_items (operator type left ∷ st) none = raised parse_expected_event
collect_items (operator type left ∷ st) (some r) = collect_items st (some (gate type false left r))
collect_items (event_match name env ∷ st) none = collect_items st (some (leaf false name env none))
collect_items (event_match name env ∷ st) (some r) = raised parse_expected_operator

-- `parse_on_collect`: the stack that is left, and the tree, which there must be.
unfoldable pub parse_on_collect :
    List Item → Option EventOperator → Parsed (List Item × EventOperator)
unfolding collect_items
parse_on_collect st root =
    and_then (collect_items st root)
      λ c. elim (c.1) [ none ↦ raised parse_expected_event | some r ↦ parsed (c.0, r) ]

abbrev pub match_on_top : List Item → Bool
match_on_top [] = false
match_on_top (event_match name env ∷ st) = true
match_on_top (i ∷ st) = false

-- The sanity check of an event's conditions: none without a `=` behind one that has it.
unfoldable pub positional : Bool → Env → Bool
unfolding find_byte
positional pos [] = true
positional pos (e ∷ env) =
    if is_some (find_byte b'=' e) then positional false env else pos && positional pos env

-- A word behind the name of an event.
unfoldable pub add_condition :
    Bytes → Env → Bytes → List Item → Option EventOperator → ℕ → Parsed OnState
unfolding positional
add_condition name env arg st root paren =
    if positional true (env ++ (arg ∷ []))
    then parsed
        (record { stack = event_match name (env ++ (arg ∷ [])) ∷ st; root = root; paren = paren })
    else raised parse_expected_variable

unfoldable pub parse_on_operand : Bytes → List Item → Option EventOperator → ℕ → Parsed OnState
unfolding add_condition
parse_on_operand arg (event_match name env ∷ st) root paren =
    add_condition name env arg st root paren
parse_on_operand arg st root paren =
    parsed (record { stack = event_match arg [] ∷ st; root = root; paren = paren })

push_operator : EventOperatorType → ℕ → List Item × EventOperator → Parsed OnState
push_operator type paren c =
    parsed (record { stack = operator type (c.1) ∷ c.0; root = none; paren = paren })

-- A word, with the operator that it is, if it is one.
unfoldable pub operate : Option EventOperatorType → Bytes → OnState → Parsed OnState
unfolding parse_on_collect parse_on_operand push_operator and_then
operate none arg s = parse_on_operand arg s.stack s.root s.paren
operate (some type) arg s = and_then (parse_on_collect s.stack s.root) (push_operator type s.paren)

-- The operators are told apart by the word as it is written, quotes and all.
unfoldable pub parse_on_operator : Bytes → Bytes → OnState → Parsed OnState
unfolding operate
parse_on_operator raw arg s = operate (operator_of raw) arg s

unfoldable pub parse_on_open : OnState → Parsed OnState
parse_on_open s =
    if not (is_some s.root) && not (match_on_top s.stack)
    then parsed (record {
      stack = mark ∷ s.stack;
      root = s.root;
      paren = (s.paren + 1) % 18446744073709551616;
    })
    else raised parse_expected_operator

-- The collection leaves nothing, or the mark on top.
pop_mark : ℕ → List Item × EventOperator → Parsed OnState
pop_mark paren ([], r) = raised parse_mismatched_parens
pop_mark paren (i ∷ st, r) = parsed (record {
  stack = st;
  root = some r;
  paren = (paren + 18446744073709551615) % 18446744073709551616;
})

-- `parse_on_paren`, for the closing parenthesis.
unfoldable pub parse_on_close : OnState → Parsed OnState
unfolding parse_on_collect pop_mark
parse_on_close s = and_then (parse_on_collect s.stack s.root) (pop_mark s.paren)

-- The body of the inner loop, on the token that is next.
unfoldable pub parse_token : OnToken → OnState → Parsed OnState
unfolding parse_on_open parse_on_close parse_on_operator
parse_token lparen s = parse_on_open s
parse_token rparen s = parse_on_close s
parse_token (word raw arg) s = parse_on_operator raw arg s
parse_token broken s = raised config_broken_token
parse_token line_end s = raised config_expected_token

abbrev pub more_lines : Tokens → ℕ → Bool
more_lines [] paren = false
more_lines (t ∷ ts) paren = not (paren == 0)

-- The two loops: `first` is the round that the inner loop makes without asking for a token. The
-- answer is the state and the input behind the line.
unfoldable pub parse_lines : Bool → Tokens → OnState → Parsed (OnState × Tokens)
unfolding parse_token and_then
parse_lines true [] s = raised config_expected_token
parse_lines false [] s = parsed (s, [])
parse_lines true (line_end ∷ ts) s = raised config_expected_token
parse_lines false (line_end ∷ ts) s =
    let rest = parse_lines true ts s in if more_lines ts s.paren then rest else parsed (s, ts)
parse_lines first (lparen ∷ ts) s = and_then (parse_token lparen s) λ s'. parse_lines false ts s'
parse_lines first (rparen ∷ ts) s = and_then (parse_token rparen s) λ s'. parse_lines false ts s'
parse_lines first (broken ∷ ts) s = raised config_broken_token
parse_lines first (word raw arg ∷ ts) s =
    and_then (parse_token (word raw arg) s) λ s'. parse_lines false ts s'

-- The end of `parse_on`: the rest is collected, and no parenthesis may be open.
unfoldable pub finish : OnState × Tokens → Parsed (EventOperator × Tokens)
unfolding parse_on_collect
finish r =
    and_then (parse_on_collect r.0.stack r.0.root)
      λ c. elim (c.0) [ [] ↦ parsed (c.1, r.1) | i ∷ st ↦ raised parse_mismatched_parens ]

unfoldable pub parse_on : Tokens → Parsed (EventOperator × Tokens)
unfolding parse_lines finish and_then
parse_on ts = and_then (parse_lines true ts (record { stack = []; root = none; paren = 0 })) finish
