-- ===== src/Stanzas/Numbers.antt =====
-- init/parse_job.c: the stanzas that read numbers, signals and the names of modes. A field is set
-- before its value is checked.
use feature_d.Base.{
  ℕ, suc, zero, ◌+◌, ◌-◌, ◌*◌, ◌/◌, ◌%◌, Bool, true, false, ◌&&◌, ltb, leb, if◌then◌else◌, Bytes,
  codes, same, Option, none, some, [], ◌∷◌, ◌++◌,
}
use feature_d.Job.{ℤ, pos, negsuc}
use feature_d.ParseOn.{
  Parsed, ParseError, parse_illegal_interval, parse_illegal_exit, parse_illegal_signal,
  parse_illegal_umask, parse_illegal_nice, parse_illegal_oom, parse_illegal_limit,
  config_expected_token, config_unknown_stanza,
}
use feature_d.Stanzas.{
  JobFile, ConsoleType, console_none, console_output, console_owner, console_log, Reader, Outcome,
  refused, Stanza, with_arg, skip_comment,
}

-- The conversion of a `long` to an `int`.
unfoldable pub to_int : ℤ → ℤ
to_int (pos n) =
    let m = n % 4294967296 in if ltb m 2147483648 then pos m else negsuc (4294967295 - m)
to_int (negsuc n) =
    let m = n % 4294967296 in if ltb m 2147483648 then negsuc m else pos (4294967295 - m)

-- Whether `-low <= n <= high`.
abbrev pub between : ℕ → ℕ → ℤ → Bool
between low high (pos n) = leb n high
between low high (negsuc n) = ltb n low

abbrev pub nonnegative : ℤ → Bool
nonnegative (pos n) = true
nonnegative (negsuc n) = false

-- A value that has been set is checked, and the line ends.
unfoldable pub checked : {I : Type 0} → Bool → ParseError → Parsed I → JobFile → Outcome I
unfolding skip_comment
checked true e next c = skip_comment next c
checked false e next c = refused e c

-- A signal by its name, or by its number, an `int`.
unfoldable pub parse_signal : {I : Type 0} → Reader I → Bytes → Option ℕ
parse_signal r s = elim (r.signal_from_name s) [
  | some n ↦ some n
  | none ↦ let (v, ok) = r.strtoul s in if ok && leb v 2147483647 then some v else none
]

unfoldable pub set_signal :
    {I : Type 0} → (ℕ → JobFile → JobFile) → Option ℕ → Parsed I → JobFile → Outcome I
unfolding skip_comment
set_signal set none next c = refused parse_illegal_signal c
set_signal set (some n) next c = skip_comment next (set n c)

unfoldable pub signal_stanza : {I : Type 0} → (ℕ → JobFile → JobFile) → Stanza I
unfolding with_arg parse_signal set_signal
signal_stanza set r c i =
    with_arg (r.next_arg i) c λ a i'. set_signal set (parse_signal r a) (r.skip_comment i') c

unfoldable pub kill_timeout_stanza : {I : Type 0} → Stanza I
unfolding with_arg checked
kill_timeout_stanza r c i = with_arg (r.next_arg i) c λ a i'.
    let (v, ok) = r.strtol a in
    checked (ok && nonnegative v) parse_illegal_interval (r.skip_comment i')
      (record c { kill_timeout = v })

unfoldable pub stanza_kill : {I : Type 0} → Stanza I
unfolding with_arg kill_timeout_stanza signal_stanza
stanza_kill r c i = with_arg (r.next_token i) c λ word i'.
    if same word (codes "timeout")
    then kill_timeout_stanza r c i'
    else if same word (codes "signal")
    then signal_stanza (λ n c. record c { kill_signal = n }) r c i'
    else refused config_unknown_stanza c

unfoldable pub stanza_reload : {I : Type 0} → Stanza I
unfolding with_arg signal_stanza
stanza_reload r c i = with_arg (r.next_token i) c λ word i'.
    if same word (codes "signal")
    then signal_stanza (λ n c. record c { reload_signal = n }) r c i'
    else refused config_unknown_stanza c

unfoldable pub respawn_interval_arg : {I : Type 0} → Stanza I
unfolding with_arg checked
respawn_interval_arg r c i = with_arg (r.next_arg i) c λ a i'.
    let (v, ok) = r.strtol a in
    checked (ok && nonnegative v) parse_illegal_interval (r.skip_comment i')
      (record c { respawn_interval = v })

-- `int` for the limit, `time_t` for the interval.
unfoldable pub respawn_limit_stanza : {I : Type 0} → Stanza I
unfolding with_arg skip_comment respawn_interval_arg to_int
respawn_limit_stanza r c i = with_arg (r.next_arg i) c λ a i'.
    let (v, ok) = r.strtol a in
    if same a (codes "unlimited")
    then skip_comment (r.skip_comment i')
        (record c { respawn_limit = pos 0; respawn_interval = pos 0 })
    else if ok && nonnegative (to_int v)
    then respawn_interval_arg r (record c { respawn_limit = to_int v }) i'
    else refused parse_illegal_limit (record c { respawn_limit = to_int v })

unfoldable pub stanza_respawn : {I : Type 0} → Stanza I
unfolding with_arg skip_comment respawn_limit_stanza
stanza_respawn r c i =
    let (more, i') = r.has_token i in
    if more
    then with_arg (r.next_token i') c (λ word i''.
      if same word (codes "limit")
      then respawn_limit_stanza r c i''
      else refused config_unknown_stanza c)
    else skip_comment (r.skip_comment i') (record c { respawn = true })

-- An exit status, or a signal in the higher byte.
unfoldable pub parse_exit : {I : Type 0} → Reader I → Bytes → Option ℕ
parse_exit r s = elim (r.signal_from_name s) [
  | some n ↦ some (n * 256)
  | none ↦ let (v, ok) = r.strtoul s in if ok && leb v 2147483647 then some v else none
]

-- A status is put on the list; `again` is the next round of the loop.
unfoldable pub add_exit :
    {I : Type 0} → Option ℕ → Reader I → (JobFile → I → Outcome I) → JobFile → I → Outcome I
unfolding skip_comment
add_exit none r again c i = refused parse_illegal_exit c
add_exit (some n) r again c i =
    let c' = record c { normalexit = c.normalexit ++ (n ∷ []) } in
    let (more, i') = r.has_token i in
    if more then again c' i' else skip_comment (r.skip_comment i') c'

-- The loop over the arguments of `normal exit`, with fuel for the arguments that are left.
unfoldable pub read_exits : {I : Type 0} → ℕ → Stanza I
unfolding with_arg parse_exit add_exit
read_exits zero r c i = refused config_expected_token c
read_exits (suc f) r c i =
    with_arg (r.next_arg i) c λ a i'. add_exit (parse_exit r a) r (read_exits f r) c i'

unfoldable pub stanza_normal : {I : Type 0} → Stanza I
unfolding with_arg read_exits
stanza_normal r c i = with_arg (r.next_token i) c λ word i'.
    if same word (codes "exit")
    then read_exits (suc (r.left i')) r c i'
    else refused config_unknown_stanza c

unfoldable pub job_class_console_type : Bytes → Option ConsoleType
job_class_console_type s =
    if same s (codes "none")
    then some console_none
    else if same s (codes "output")
    then some console_output
    else if same s (codes "owner")
    then some console_owner
    else if same s (codes "log")
    then some console_log
    else none

abbrev pub is_known : Option ConsoleType → Bool
is_known none = false
is_known (some t) = true

unfoldable pub stanza_console : {I : Type 0} → Stanza I
unfolding with_arg checked job_class_console_type
stanza_console r c i = with_arg (r.next_arg i) c λ a i'.
    checked (is_known (job_class_console_type a)) config_unknown_stanza (r.skip_comment i')
      (record c { console = job_class_console_type a })

-- `mode_t` has 32 bits; no bit outside 0777 may be set.
unfoldable pub stanza_umask : {I : Type 0} → Stanza I
unfolding with_arg checked
stanza_umask r c i = with_arg (r.next_arg i) c λ a i'.
    let (v, ok) = r.strtoul_octal a in
    checked (ok && ltb (v % 4294967296) 512) parse_illegal_umask (r.skip_comment i')
      (record c { umask = v % 4294967296 })

unfoldable pub stanza_nice : {I : Type 0} → Stanza I
unfolding with_arg checked to_int
stanza_nice r c i = with_arg (r.next_arg i) c λ a i'.
    let (v, ok) = r.strtol a in
    checked (ok && between 20 19 (to_int v)) parse_illegal_nice (r.skip_comment i')
      (record c { nice = to_int v })

abbrev negative : ℕ → ℤ
negative zero = pos 0
negative (suc n) = negsuc n

-- The scale of `oom_adj` brought to that of `oom_score_adj`; the division is towards 0. The
-- product is an `int` in the source and overflows only for values that are refused afterwards.
unfoldable pub score_of : ℤ → ℤ
score_of (pos n) = pos (n * 1000 / 15)
score_of (negsuc n) = negative ((n + 1) * 1000 / 17)

unfoldable pub oom_score : {I : Type 0} → Stanza I
unfolding with_arg checked to_int
oom_score r c i = with_arg (r.next_arg i) c λ a i'.
    let (v, ok) = r.strtol a in
    if same a (codes "never")
    then checked true parse_illegal_oom (r.skip_comment i')
        (record c { oom_score_adj = negsuc 999 })
    else checked (ok && between 1000 1000 (to_int v)) parse_illegal_oom (r.skip_comment i')
        (record c { oom_score_adj = to_int v })

unfoldable pub stanza_oom : {I : Type 0} → Stanza I
unfolding with_arg checked to_int score_of oom_score
stanza_oom r c i = with_arg (r.next_arg i) c λ a i'.
    let (v, ok) = r.strtol a in
    if same a (codes "score")
    then oom_score r c i'
    else if same a (codes "never")
    then checked true parse_illegal_oom (r.skip_comment i')
        (record c { oom_score_adj = negsuc 999 })
    else checked (ok && between 17 15 (to_int v)) parse_illegal_oom (r.skip_comment i')
        (record c { oom_score_adj = score_of (to_int v) })
