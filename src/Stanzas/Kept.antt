-- ===== src/Stanzas/Kept.antt =====
-- Every stanza of init/parse_job.c that is taken leaves the settings of the class in their ranges.
use mathlib.Core.Path.{subst}
use feature_d.Base.{
  ℕ, suc, zero, true, Bool-cases, codes, same, Option, none, some, [], ◌∷◌, ◌++◌, ◌≡◌, inl, inr,
}
use feature_d.Process.{main, pre_start, post_start, pre_stop, post_stop}
use feature_d.ParseOn.{Parsed}
use feature_d.Stanzas.{JobFile, Reader, Outcome, taken, stanza_task, stanza_debug, stanza_manual}
use feature_d.Stanzas.Numbers.{
  parse_signal, signal_stanza, set_signal, stanza_kill, stanza_reload, parse_exit, add_exit,
  read_exits, stanza_normal,
}
use feature_d.Stanzas.Table.{
  StanzaName, stanza, s_instance, s_description, s_author, s_version, s_env, s_export, s_start,
  s_stop, s_emits, s_exec, s_script, s_pre_start, s_post_start, s_pre_stop, s_post_stop, s_expect,
  s_task, s_kill, s_reload, s_respawn, s_normal, s_console, s_umask, s_nice, s_oom, s_limit,
  s_chroot, s_chdir, s_setuid, s_setgid, s_debug, s_manual, s_usage, s_apparmor,
}
use feature_d.Stanzas.Sane.{
  IsSane, SaneAfter, Good, with_arg-SaneAfter, skip_comment-SaneAfter, if-SaneAfter, text-SaneAfter,
  nice-Good, umask-Good, console-Good, oom-Good, kill_timeout-Good, respawn-Good,
}
use feature_d.Stanzas.Untouched.{
  env-Good, list-SaneAfter, on-SaneAfter, exec-Good, process-Good, script-Good, expect-Good,
  limit-Good, apparmor-Good,
}

module _ {I : Type 0} where
  signal-SaneAfter :
      (set : ℕ → JobFile → JobFile) (r : Reader I) (c : JobFile) (i : I)
      → ((n : ℕ) → IsSane (set n c))
      → SaneAfter (signal_stanza set r c i)
  unfolding signal_stanza set_signal SaneAfter
  signal-SaneAfter set r c i h =
      with_arg-SaneAfter (r.next_arg i) c _ λ a i'. one (parse_signal r a) (r.skip_comment i')
    where
      one : (n : Option ℕ) (next : Parsed I) → SaneAfter (set_signal set n next c)
      one none next = tt
      one (some n) next = skip_comment-SaneAfter next _ (h n)

  kill-Good : Good {I = I} stanza_kill
  unfolding stanza_kill SaneAfter
  kill-Good r c i h = with_arg-SaneAfter (r.next_token i) c _ λ word i'.
      if-SaneAfter (same word (codes "timeout")) _ _ (λ timeout. kill_timeout-Good r c i' h)
        (λ other.
          if-SaneAfter (same word (codes "signal")) _ _
            (λ signal. signal-SaneAfter (λ n c. record c { kill_signal = n }) r c i' λ n. h)
            (λ rest. tt))

  reload-Good : Good {I = I} stanza_reload
  unfolding stanza_reload SaneAfter
  reload-Good r c i h = with_arg-SaneAfter (r.next_token i) c _ λ word i'.
      if-SaneAfter (same word (codes "signal")) _ _
        (λ signal. signal-SaneAfter (λ n c. record c { reload_signal = n }) r c i' λ n. h)
        (λ other. tt)

  exit-SaneAfter :
      (status : Option ℕ) (r : Reader I) (again : JobFile → I → Outcome I) (c : JobFile) (i : I)
      → ((d : JobFile) (j : I) → IsSane d → SaneAfter (again d j))
      → IsSane c
      → SaneAfter (add_exit status r again c i)
  unfolding add_exit SaneAfter
  exit-SaneAfter none r again c i k h = tt
  exit-SaneAfter (some n) r again c i k h =
      let c' : JobFile = record c { normalexit = c.normalexit ++ (n ∷ []) } in
      if-SaneAfter (r.has_token i).0 _ _ (λ more. k c' (r.has_token i).1 h)
        (λ done. skip_comment-SaneAfter (r.skip_comment (r.has_token i).1) c' h)

  exits-Good : (f : ℕ) → Good {I = I} (read_exits f)
  unfolding read_exits SaneAfter
  exits-Good zero r c i h = tt
  exits-Good (suc f) r c i h = with_arg-SaneAfter (r.next_arg i) c _ λ a i'.
      exit-SaneAfter (parse_exit r a) r (read_exits f r) c i' (λ d j h'. exits-Good f r d j h') h

  normal-Good : Good {I = I} stanza_normal
  unfolding stanza_normal SaneAfter
  normal-Good r c i h = with_arg-SaneAfter (r.next_token i) c _ λ word i'.
      if-SaneAfter (same word (codes "exit")) _ _ (λ exit. exits-Good (suc (r.left i')) r c i' h)
        (λ other. tt)

  stanza-Good : (s : StanzaName) → Good {I = I} (stanza s)
  unfolding stanza stanza_debug stanza_manual stanza_task SaneAfter
  stanza-Good s_instance r c i h = text-SaneAfter (λ v c. record c { instance = v }) r c i λ v. h
  stanza-Good s_description r c i h =
      text-SaneAfter (λ v c. record c { description = v }) r c i λ v. h
  stanza-Good s_author r c i h = text-SaneAfter (λ v c. record c { author = v }) r c i λ v. h
  stanza-Good s_version r c i h = text-SaneAfter (λ v c. record c { version = v }) r c i λ v. h
  stanza-Good s_env r c i h = env-Good r c i h
  stanza-Good s_export r c i h =
      list-SaneAfter (λ args c. record c { export = c.export ++ args }) r c i λ args. h
  stanza-Good s_start r c i h = on-SaneAfter (λ v c. record c { start_on = v }) r c i λ v. h
  stanza-Good s_stop r c i h = on-SaneAfter (λ v c. record c { stop_on = v }) r c i λ v. h
  stanza-Good s_emits r c i h =
      list-SaneAfter (λ args c. record c { emits = c.emits ++ args }) r c i λ args. h
  stanza-Good s_exec r c i h = exec-Good main r c i h
  stanza-Good s_script r c i h = script-Good main r c i h
  stanza-Good s_pre_start r c i h = process-Good pre_start r c i h
  stanza-Good s_post_start r c i h = process-Good post_start r c i h
  stanza-Good s_pre_stop r c i h = process-Good pre_stop r c i h
  stanza-Good s_post_stop r c i h = process-Good post_stop r c i h
  stanza-Good s_expect r c i h = expect-Good r c i h
  stanza-Good s_task r c i h =
      skip_comment-SaneAfter (r.skip_comment i) (record c { task = true }) h
  stanza-Good s_kill r c i h = kill-Good r c i h
  stanza-Good s_reload r c i h = reload-Good r c i h
  stanza-Good s_respawn r c i h = respawn-Good r c i h
  stanza-Good s_normal r c i h = normal-Good r c i h
  stanza-Good s_console r c i h = console-Good r c i h
  stanza-Good s_umask r c i h = umask-Good r c i h
  stanza-Good s_nice r c i h = nice-Good r c i h
  stanza-Good s_oom r c i h = oom-Good r c i h
  stanza-Good s_limit r c i h = limit-Good r c i h
  stanza-Good s_chroot r c i h = text-SaneAfter (λ v c. record c { chroot = v }) r c i λ v. h
  stanza-Good s_chdir r c i h = text-SaneAfter (λ v c. record c { chdir = v }) r c i λ v. h
  stanza-Good s_setuid r c i h = text-SaneAfter (λ v c. record c { setuid = v }) r c i λ v. h
  stanza-Good s_setgid r c i h = text-SaneAfter (λ v c. record c { setgid = v }) r c i λ v. h
  stanza-Good s_debug r c i h = elim (Bool-cases r.debug_stanza_enabled) [
    | inl d ↦ rw d h
    | inr d ↦ rw d h
  ]
  stanza-Good s_manual r c i h = h
  stanza-Good s_usage r c i h = text-SaneAfter (λ v c. record c { usage = v }) r c i λ v. h
  stanza-Good s_apparmor r c i h = apparmor-Good r c i h

-- A stanza that is taken keeps the settings of the class in their ranges, whatever the tokeniser
-- and the C library answer.
pub stanza-IsSane :
    {I : Type 0} (s : StanzaName) (r : Reader I) (c d : JobFile) (i j : I)
    → IsSane c
    → stanza s r c i ≡ taken d j
    → IsSane d
unfolding SaneAfter
stanza-IsSane s r c d i j h q = subst SaneAfter q (stanza-Good s r c i h)
