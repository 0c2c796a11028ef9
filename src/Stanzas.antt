-- ===== src/Stanzas.antt =====
-- init/parse_job.c: the stanzas of a job file but `cgroup`. A stanza changes the class that the
-- file is read into, and it may leave a change behind where it is refused: a class that is updated
-- from an override file stays. The tokeniser is libnih's, the reading of numbers the C library's.
pub mod Numbers
pub mod Fields
pub mod Table
pub mod Sane
pub mod Untouched
pub mod Kept
pub mod Fuel
use feature_d.Base.{
  ℕ, Bool, true, false, if◌then◌else◌, Bytes, codes, same, Option, none, some, List, [], ◌∷◌, ◌++◌,
}
use feature_d.Environ.{Env}
use feature_d.EventOperator.{EventOperator}
use feature_d.Job.{ℤ, ExpectType, expect_none, expect_stop, expect_daemon, expect_fork}
use feature_d.Process
use feature_d.Process.{Process, ProcessType}
use feature_d.ParseOn.{
  Tokens, Parsed, raised, parsed, ParseError, config_expected_token, config_unknown_stanza,
  parse_on,
}

pub data ConsoleType : Type 0 where
  console_none console_output console_owner console_log : ConsoleType

-- A limit that has not been given is `none`.
pub record Rlimit : Type 0 where
  pub rlim_cur : Option ℕ
  pub rlim_max : Option ℕ

-- The fields of `JobClass` that the stanzas set; `console` is `none` where the source holds a -1.
pub record JobFile : Type 0 where
  pub instance : Option Bytes
  pub description : Option Bytes
  pub author : Option Bytes
  pub version : Option Bytes
  pub env : Env
  pub export : List Bytes
  pub start_on : Option EventOperator
  pub stop_on : Option EventOperator
  pub emits : List Bytes
  pub process : Process.Table (Option Process)
  pub expect : ExpectType
  pub task : Bool
  pub kill_timeout : ℤ
  pub kill_signal : ℕ
  pub reload_signal : ℕ
  pub respawn : Bool
  pub respawn_limit : ℤ
  pub respawn_interval : ℤ
  pub normalexit : List ℕ
  pub console : Option ConsoleType
  pub umask : ℕ
  pub nice : ℤ
  pub oom_score_adj : ℤ
  pub limits : List (Bytes × Rlimit)
  pub chroot : Option Bytes
  pub chdir : Option Bytes
  pub setuid : Option Bytes
  pub setgid : Option Bytes
  pub debug : Bool
  pub usage : Option Bytes
  pub apparmor_switch : Option Bytes

-- What the library does at a place `I` of the file: `next_token` keeps the quotes, `on_tokens` is
-- what it delivers to `parse_on`, and `behind` the place where it has left some of that. A number
-- is `none` where `errno` is set or the text goes on.
pub record Reader (I : Type 0) : Type 0 where
  pub next_token : I → Parsed (Bytes × I)
  pub next_arg : I → Parsed (Bytes × I)
  pub has_token : I → Bool × I
  pub skip_comment : I → Parsed I
  pub parse_args : I → Parsed (List Bytes × I)
  pub parse_command : I → Parsed (Bytes × I)
  pub parse_block : I → Parsed (Bytes × I)
  pub on_tokens : I → Tokens
  pub behind : I → Tokens → I
  pub left : I → ℕ
  pub strtol : Bytes → ℤ × Bool
  pub strtoul : Bytes → ℕ × Bool
  pub strtoul_octal : Bytes → ℕ × Bool
  pub signal_from_name : Bytes → Option ℕ
  pub debug_stanza_enabled : Bool

-- A stanza is refused or taken, with the class as it is left.
pub data Outcome (I : Type 0) : Type 0 where
  refused : ParseError → JobFile → Outcome I
  taken : JobFile → I → Outcome I

abbrev pub Stanza : Type 0 → Type 0
Stanza I = Reader I → JobFile → I → Outcome I

-- The next argument or token, or the error, with the class as it is then.
unfoldable pub with_arg :
    {I A : Type 0} → Parsed (A × I) → JobFile → (A → I → Outcome I) → Outcome I
with_arg (raised e) c k = refused e c
with_arg (parsed (a, i)) c k = k a i

-- The end of a stanza's line.
unfoldable pub skip_comment : {I : Type 0} → Parsed I → JobFile → Outcome I
skip_comment (raised e) c = refused e c
skip_comment (parsed i) c = taken c i

-- `instance`, `description`, `author`, `version`, `chroot`, `chdir`, `setuid`, `setgid` and
-- `usage`: what was there before is dropped first.
unfoldable pub text_stanza : {I : Type 0} → (Option Bytes → JobFile → JobFile) → Stanza I
unfolding with_arg skip_comment
text_stanza set r c i =
    with_arg (r.next_arg i) (set none c) λ a i'. skip_comment (r.skip_comment i') (set (some a) c)

unfoldable pub stanza_env : {I : Type 0} → Stanza I
unfolding with_arg skip_comment
stanza_env r c i =
    with_arg (r.next_arg i) c
      λ a i'. skip_comment (r.skip_comment i') (record c { env = c.env ++ (a ∷ []) })

-- `export` and `emits`.
unfoldable pub list_stanza : {I : Type 0} → (List Bytes → JobFile → JobFile) → Stanza I
unfolding with_arg
list_stanza add r c i =
    let (more, i') = r.has_token i in
    if more
    then with_arg (r.parse_args i') c (λ args i''. taken (add args c) i'')
    else refused config_expected_token c

unfoldable pub set_on :
    {I : Type 0}
    → (Option EventOperator → JobFile → JobFile)
    → Parsed (EventOperator × Tokens)
    → Stanza I
set_on set (raised e) r c i = refused e (set none c)
set_on set (parsed (t, rest)) r c i = taken (set (some t) c) (r.behind i rest)

-- `start` and `stop`: what was there before is dropped, also where the expression is refused.
unfoldable pub on_stanza : {I : Type 0} → (Option EventOperator → JobFile → JobFile) → Stanza I
unfolding with_arg parse_on set_on
on_stanza set r c i = with_arg (r.next_token i) c λ word i'.
    if same word (codes "on")
    then set_on set (parse_on (r.on_tokens i')) r c i'
    else refused config_unknown_stanza c

unfoldable pub set_process : ProcessType → Option Process → JobFile → JobFile
set_process p v c = record c { process = Process.set c.process p v }

-- `process_new` where there is none yet. No command is `[]`.
unfoldable pub process_of : ProcessType → JobFile → Process
process_of p c = elim (Process.get c.process p) [
  | some q ↦ q
  | none ↦ record { script = false; command = [] }
]

unfoldable pub parse_exec : {I : Type 0} → ProcessType → Stanza I
unfolding with_arg set_process process_of
parse_exec p r c i =
    let (more, i') = r.has_token i in
    if more
    then with_arg (r.parse_command i')
        (set_process p (some (record { script = false; command = [] })) c)
        (λ command i''.
          taken (set_process p (some (record { script = false; command = command })) c) i'')
    else refused config_expected_token (set_process p (some (process_of p c)) c)

unfoldable pub script_block : {I : Type 0} → ProcessType → Reader I → JobFile → Parsed I → Outcome I
unfolding with_arg set_process process_of
script_block p r c (raised e) = refused e (set_process p (some (process_of p c)) c)
script_block p r c (parsed i) =
    with_arg (r.parse_block i) (set_process p (some (record { script = true; command = [] })) c)
      λ block i'. taken (set_process p (some (record { script = true; command = block })) c) i'

unfoldable pub parse_script : {I : Type 0} → ProcessType → Stanza I
unfolding script_block
parse_script p r c i = script_block p r c (r.skip_comment i)

unfoldable pub parse_process : {I : Type 0} → ProcessType → Stanza I
unfolding with_arg parse_exec parse_script set_process process_of
parse_process p r c i =
    let c' = set_process p (some (process_of p c)) c in
    with_arg (r.next_token i) c' λ word i'.
      if same word (codes "exec")
      then parse_exec p r c' i'
      else if same word (codes "script")
      then parse_script p r c' i'
      else refused config_unknown_stanza c'

-- The class is set before the rest of the line is looked at.
abbrev pub expect_from_name : Bytes → Option ExpectType
expect_from_name s =
    if same s (codes "stop")
    then some expect_stop
    else if same s (codes "daemon")
    then some expect_daemon
    else if same s (codes "fork")
    then some expect_fork
    else if same s (codes "none")
    then some expect_none
    else none

unfoldable pub set_expect : {I : Type 0} → Option ExpectType → Parsed I → JobFile → Outcome I
unfolding skip_comment
set_expect none next c = refused config_unknown_stanza c
set_expect (some e) next c = skip_comment next (record c { expect = e })

unfoldable pub stanza_expect : {I : Type 0} → Stanza I
unfolding with_arg set_expect
stanza_expect r c i =
    with_arg (r.next_arg i) c λ a i'. set_expect (expect_from_name a) (r.skip_comment i') c

unfoldable pub stanza_task : {I : Type 0} → Stanza I
unfolding skip_comment
stanza_task r c i = skip_comment (r.skip_comment i) (record c { task = true })

unfoldable pub stanza_debug : {I : Type 0} → Stanza I
stanza_debug r c i = taken (if r.debug_stanza_enabled then record c { debug = true } else c) i

unfoldable pub stanza_manual : {I : Type 0} → Stanza I
stanza_manual r c i = taken (record c { start_on = none }) i
