-- ===== src/Examples/Files.antt =====
-- Lines of job files (init/parse_job.c), with a reader of words in place of the library.
use feature_d.Base.{
  ℕ, zero, suc, ◌+◌, ◌-◌, ◌*◌, ◌<◌, Bool, true, false, ◌&&◌, ◌==◌, if◌then◌else◌, leb, Bytes, codes,
  same, find_byte, none, some, List, [], ◌∷◌, ◌++◌, ◌≡◌, refl, length, arith,
}
use feature_d.Job.{ℤ, pos, negsuc, expect_none}
use feature_d.Process.{fill}
use feature_d.EventOperator.{EventOperator, event_or, event_and, gate, leaf}
use feature_d.ParseOn.{
  OnToken, Tokens, lparen, rparen, word, line_end, Parsed, raised, parsed, config_expected_token,
  config_unexpected_token, parse_illegal_interval, parse_mismatched_parens, parse_on, positional,
}
use feature_d.ParseOn.Grammar.{IsExpr, named, condition, event, parens, single, binary}
use feature_d.ParseOn.Derived.{without_line_ends, parse_on-IsExpr}
use feature_d.ParseOn.Parses.{parse_on_complete}
use feature_d.Stanzas.{JobFile, Reader, refused, taken, console_log, with_arg, skip_comment}
use feature_d.Stanzas.Numbers.{
  read_exits, stanza_oom, stanza_nice, stanza_kill, kill_timeout_stanza, to_int, score_of, checked,
}
use feature_d.Stanzas.Table.{stanza, s_nice, s_oom, s_kill}
use feature_d.Stanzas.Sane.{IsSane}
use feature_d.Stanzas.Kept.{stanza-IsSane}
use feature_d.Stanzas.Fuel.{read_exits_enough}

abbrev bare : Bytes → OnToken
bare s = word s s

-- net-up IFACE=eth0 and (mounted or runlevel)
abbrev dhcp : Tokens
dhcp =
    bare (codes "net-up")
    ∷ bare (codes "IFACE=eth0")
    ∷ bare (codes "and")
    ∷ lparen
    ∷ bare (codes "mounted")
    ∷ bare (codes "or")
    ∷ bare (codes "runlevel")
    ∷ rparen
    ∷ []

abbrev dhcp_tree : EventOperator
dhcp_tree = gate event_and false (leaf false (codes "net-up") (codes "IFACE=eth0" ∷ []) none) (
    gate event_or false (leaf false (codes "mounted") [] none)
      (leaf false (codes "runlevel") [] none))

-- A line end within the parentheses is passed over.
abbrev dhcp_lines : Tokens
dhcp_lines =
    bare (codes "net-up")
    ∷ bare (codes "IFACE=eth0")
    ∷ bare (codes "and")
    ∷ lparen
    ∷ bare (codes "mounted")
    ∷ line_end
    ∷ bare (codes "or")
    ∷ bare (codes "runlevel")
    ∷ rparen
    ∷ line_end
    ∷ bare (codes "task")
    ∷ []

dhcp_parses : parse_on dhcp_lines ≡ parsed (dhcp_tree, bare (codes "task") ∷ [])
unfolding parse_on same
dhcp_parses = refl

parse_on-IsExpr_example :
    (us : Tokens) × (dhcp_lines ≡ us ++ (bare (codes "task") ∷ []))
    × IsExpr (without_line_ends us) dhcp_tree
parse_on-IsExpr_example =
    parse_on-IsExpr dhcp_lines (bare (codes "task") ∷ []) dhcp_tree dhcp_parses

dhcp-IsExpr : IsExpr dhcp dhcp_tree
unfolding same positional find_byte
dhcp-IsExpr =
    binary (codes "and") (codes "and") event_and
      (single (
        event (
          condition (codes "IFACE=eth0") (codes "IFACE=eth0")
            (named (codes "net-up") (codes "net-up") refl) refl refl)))
      refl
      (parens (
        binary (codes "or") (codes "or") event_or
          (single (event (named (codes "mounted") (codes "mounted") refl))) refl
          (event (named (codes "runlevel") (codes "runlevel") refl))))

parse_on_complete_example :
    parse_on (dhcp ++ (line_end ∷ bare (codes "task") ∷ []))
    ≡ parsed (dhcp_tree, bare (codes "task") ∷ [])
parse_on_complete_example = parse_on_complete dhcp (bare (codes "task") ∷ []) dhcp_tree dhcp-IsExpr

unclosed :
    parse_on (lparen ∷ bare (codes "mounted") ∷ line_end ∷ bare (codes "task") ∷ [])
    ≡ raised parse_mismatched_parens
unfolding parse_on same
unclosed = refl

abbrev Words : Type 0
Words = List Bytes

abbrev next : Words → Parsed (Bytes × Words)
next [] = raised config_expected_token
next (a ∷ i) = parsed (a, i)

abbrev any_left : Words → Bool
any_left [] = false
any_left (a ∷ i) = true

abbrev ended : Words → Parsed Words
ended [] = parsed []
ended (a ∷ i) = raised config_unexpected_token

-- Decimal digits, and whether there are no other bytes.
abbrev digits : Bytes → ℕ → ℕ × Bool
digits [] n = (n, true)
digits (c ∷ s) n = let (v, ok) = digits s (n * 10 + (c - 48)) in (v, leb 48 c && leb c 57 && ok)

abbrev negated : ℕ → ℤ
negated zero = pos 0
negated (suc n) = negsuc n

abbrev number : Bytes → ℤ × Bool
number [] = (pos 0, true)
number (c ∷ s) =
    let (v, ok) = digits s 0 in
    let (w, all) = digits (c ∷ s) 0 in if c == b'-' then (negated v, ok) else (pos w, all)

abbrev words_reader : Reader Words
words_reader = record {
  next_token = next;
  next_arg = next;
  has_token = λ i. (any_left i, i);
  skip_comment = ended;
  parse_args = λ i. parsed (i, []);
  parse_command = next;
  parse_block = next;
  on_tokens = λ i. [];
  behind = λ i ts. i;
  left = λ i. length i;
  strtol = number;
  strtoul = λ s. digits s 0;
  strtoul_octal = λ s. digits s 0;
  signal_from_name = λ s. none;
  debug_stanza_enabled = false;
}

abbrev new_class : JobFile
new_class = record {
  instance = none;
  description = none;
  author = none;
  version = none;
  env = [];
  export = [];
  start_on = none;
  stop_on = none;
  emits = [];
  process = fill none;
  expect = expect_none;
  task = false;
  kill_timeout = pos 5;
  kill_signal = 15;
  reload_signal = 1;
  respawn = false;
  respawn_limit = pos 10;
  respawn_interval = pos 5;
  normalexit = [];
  console = some console_log;
  umask = 18;
  nice = negsuc 20;
  oom_score_adj = pos 0;
  limits = [];
  chroot = none;
  chdir = none;
  setuid = none;
  setgid = none;
  debug = false;
  usage = none;
  apparmor_switch = none;
}

oom_taken :
    stanza s_oom words_reader new_class (codes "-17" ∷ [])
    ≡ taken (record new_class { oom_score_adj = negsuc 999 }) []
unfolding stanza stanza_oom to_int score_of checked skip_comment same with_arg
oom_taken = refl

stanza-IsSane_example : IsSane (record new_class { oom_score_adj = negsuc 999 })
stanza-IsSane_example =
    stanza-IsSane s_oom words_reader new_class _ (codes "-17" ∷ []) []
      (refl, refl, refl, refl, refl, refl, refl) oom_taken

-- A value that is too great for an `int` is taken for the one that it wraps to.
nice_wraps :
    stanza s_nice words_reader new_class (codes "4294967297" ∷ [])
    ≡ taken (record new_class { nice = pos 1 }) []
unfolding stanza stanza_nice to_int checked skip_comment same with_arg
nice_wraps = refl

-- A timeout that is refused is in the class all the same.
timeout_stays :
    stanza s_kill words_reader new_class (codes "timeout" ∷ codes "-5" ∷ [])
    ≡ refused parse_illegal_interval (record new_class { kill_timeout = negsuc 4 })
unfolding stanza stanza_kill kill_timeout_stanza checked skip_comment same with_arg
timeout_stays = refl

next_consumes : (i j : Words) (a : Bytes) → next i ≡ parsed (a, j) → length j < length i
next_consumes [] j a q = cc
next_consumes (b ∷ i) j a q = grind arith

read_exits_enough_example :
    read_exits 3 words_reader new_class (codes "0" ∷ codes "1" ∷ [])
    ≡ read_exits 9 words_reader new_class (codes "0" ∷ codes "1" ∷ [])
read_exits_enough_example =
    read_exits_enough words_reader next_consumes (λ i. omega arith) 3 9 new_class
      (codes "0" ∷ codes "1" ∷ []) (omega arith) (omega arith)
