-- ===== src/Stanzas/Untouched.antt =====
-- The stanzas of init/parse_job.c that read no number leave the settings of the class in their ranges.
use feature_d.Base.{Bytes, codes, same, Option, none, some, List, [], ◌∷◌, ◌++◌}
use feature_d.Process.{ProcessType}
use feature_d.EventOperator.{EventOperator}
use feature_d.ParseOn.{Tokens, Parsed, raised, parsed, parse_illegal_limit, parse_on}
use feature_d.Job.{ExpectType}
use feature_d.Stanzas.{
  JobFile, Reader, stanza_env, list_stanza, on_stanza, set_on, script_block, set_expect,
  set_process, process_of, parse_exec, parse_script, parse_process, expect_from_name, stanza_expect,
}
use feature_d.Stanzas.Table.{
  stanza_limit, soft_limit, hard_limit, stanza_apparmor, limit_value, set_limit, is_resource,
}
use feature_d.Stanzas.Sane.{
  IsSane, SaneAfter, Good, with_arg-SaneAfter, skip_comment-SaneAfter, checked-SaneAfter,
  if-SaneAfter,
}

module _ {I : Type 0} where
  pub env-Good : Good {I = I} stanza_env
  unfolding stanza_env
  env-Good r c i h =
      with_arg-SaneAfter (r.next_arg i) c _
        λ a i'. skip_comment-SaneAfter (r.skip_comment i') (record c { env = c.env ++ (a ∷ []) }) h

  pub list-SaneAfter :
      (add : List Bytes → JobFile → JobFile) (r : Reader I) (c : JobFile) (i : I)
      → ((args : List Bytes) → IsSane (add args c))
      → SaneAfter (list_stanza add r c i)
  unfolding list_stanza SaneAfter
  list-SaneAfter add r c i h =
      if-SaneAfter (r.has_token i).0 _ _
        (λ more. with_arg-SaneAfter (r.parse_args (r.has_token i).1) c _ λ args i'. h args)
        (λ none_left. tt)

  pub on-SaneAfter :
      (set : Option EventOperator → JobFile → JobFile) (r : Reader I) (c : JobFile) (i : I)
      → ((v : Option EventOperator) → IsSane (set v c))
      → SaneAfter (on_stanza set r c i)
  unfolding on_stanza set_on SaneAfter
  on-SaneAfter set r c i h = with_arg-SaneAfter (r.next_token i) c _ λ word i'.
      if-SaneAfter (same word (codes "on")) _ _ (λ on. one (parse_on (r.on_tokens i')) i')
        (λ other. tt)
    where
      one : (p : Parsed (EventOperator × Tokens)) (i : I) → SaneAfter (set_on set p r c i)
      one (raised e) i = tt
      one (parsed (t, rest)) i = h (some t)

  pub exec-Good : (p : ProcessType) → Good {I = I} (parse_exec p)
  unfolding parse_exec set_process SaneAfter
  exec-Good p r c i h =
      if-SaneAfter (r.has_token i).0 _ _
        (λ more. with_arg-SaneAfter (r.parse_command (r.has_token i).1) _ _ λ a i'. h)
        (λ none_left. tt)

  pub script-Good : (p : ProcessType) → Good {I = I} (parse_script p)
  unfolding parse_script script_block set_process SaneAfter
  script-Good p r c i h = one (r.skip_comment i)
    where
      one : (next : Parsed I) → SaneAfter (script_block p r c next)
      one (raised e) = tt
      one (parsed i) = with_arg-SaneAfter (r.parse_block i) _ _ λ a i'. h

  pub process-Good : (p : ProcessType) → Good {I = I} (parse_process p)
  unfolding parse_process set_process SaneAfter
  process-Good p r c i h = with_arg-SaneAfter (r.next_token i) _ _ λ word i'.
      if-SaneAfter (same word (codes "exec")) _ _
        (λ exec. exec-Good p r (set_process p (some (process_of p c)) c) i' h)
        (λ other.
          if-SaneAfter (same word (codes "script")) _ _
            (λ script. script-Good p r (set_process p (some (process_of p c)) c) i' h) (λ rest. tt))

  pub expect-Good : Good {I = I} stanza_expect
  unfolding stanza_expect set_expect SaneAfter
  expect-Good r c i h =
      with_arg-SaneAfter (r.next_arg i) c _ λ a i'. one (expect_from_name a) (r.skip_comment i')
    where
      one : (e : Option ExpectType) (next : Parsed I) → SaneAfter (set_expect e next c)
      one none next = tt
      one (some e) next = skip_comment-SaneAfter next (record c { expect = e }) h

  hard-Good : (s : Bytes) → Good {I = I} (hard_limit s)
  unfolding hard_limit SaneAfter
  hard-Good s r c i h = with_arg-SaneAfter (r.next_arg i) c _ λ a i'.
      checked-SaneAfter (limit_value r a).1 parse_illegal_limit (r.skip_comment i')
        (set_limit s (λ l. record l { rlim_max = some (limit_value r a).0 }) c) λ ok. h

  soft-Good : (s : Bytes) → Good {I = I} (soft_limit s)
  unfolding soft_limit SaneAfter
  soft-Good s r c i h = with_arg-SaneAfter (r.next_arg i) c _ λ a i'.
      if-SaneAfter (limit_value r a).1 _ _
        (λ ok.
          hard-Good s r (set_limit s (λ l. record l { rlim_cur = some (limit_value r a).0 }) c) i'
            h)
        (λ bad. tt)

  pub limit-Good : Good {I = I} stanza_limit
  unfolding stanza_limit SaneAfter
  limit-Good r c i h = with_arg-SaneAfter (r.next_arg i) c _ λ s i'.
      if-SaneAfter (is_resource s) _ _ (λ known. soft-Good s r (set_limit s (λ l. l) c) i' h)
        (λ other. tt)

  pub apparmor-Good : Good {I = I} stanza_apparmor
  unfolding stanza_apparmor SaneAfter set_process
  apparmor-Good r c i h = with_arg-SaneAfter (r.next_token i) c _ λ word i'.
      if-SaneAfter (same word (codes "load")) _ _
        (λ load.
          with_arg-SaneAfter (r.next_arg i') _ _
            λ a i''. skip_comment-SaneAfter (r.skip_comment i'') _ h)
        (λ other.
          if-SaneAfter (same word (codes "switch")) _ _
            (λ switch.
              with_arg-SaneAfter (r.next_arg i') _ _
                λ a i''. skip_comment-SaneAfter (r.skip_comment i'') _ h)
            (λ rest. tt))
