-- ===== src/Stanzas/Table.antt =====
-- init/parse_job.c: the stanzas `limit` and `apparmor`, and the table of stanzas.
use feature_d.Base.{
  ℕ, Bool, true, false, ◌||◌, if◌then◌else◌, Bytes, codes, same, none, some, List, [], ◌∷◌, ◌++◌,
}
use feature_d.Process.{security}
use feature_d.ParseOn.{parse_illegal_limit, config_unknown_stanza}
use feature_d.Stanzas.{
  JobFile, Rlimit, Reader, refused, Stanza, with_arg, skip_comment, stanza_env, set_process,
  stanza_expect, stanza_task, stanza_debug, stanza_manual,
}
use feature_d.Stanzas.Fields.{
  stanza_instance, stanza_description, stanza_author, stanza_version, stanza_chroot, stanza_chdir,
  stanza_setuid, stanza_setgid, stanza_usage, stanza_export, stanza_emits, stanza_start,
  stanza_stop, stanza_exec, stanza_script, stanza_pre_start, stanza_post_start, stanza_pre_stop,
  stanza_post_stop,
}
use feature_d.Stanzas.Numbers.{
  checked, stanza_kill, stanza_reload, stanza_respawn, stanza_normal, stanza_console, stanza_umask,
  stanza_nice, stanza_oom,
}

is_one_of : Bytes → List Bytes → Bool
is_one_of s [] = false
is_one_of s (t ∷ ts) = same s t || is_one_of s ts

-- The resources, by the name that they have in a job file.
unfoldable pub is_resource : Bytes → Bool
unfolding is_one_of
is_resource s = is_one_of s (
    codes "as"
    ∷ codes "core"
    ∷ codes "cpu"
    ∷ codes "data"
    ∷ codes "fsize"
    ∷ codes "memlock"
    ∷ codes "msgqueue"
    ∷ codes "nice"
    ∷ codes "nofile"
    ∷ codes "nproc"
    ∷ codes "rss"
    ∷ codes "rtprio"
    ∷ codes "sigpending"
    ∷ codes "stack"
    ∷ [])

-- A limit is made where there is none yet.
unfoldable pub update_limit :
    Bytes → (Rlimit → Rlimit) → List (Bytes × Rlimit) → List (Bytes × Rlimit)
update_limit s f [] = (s, f (record { rlim_cur = none; rlim_max = none })) ∷ []
update_limit s f ((t, l) ∷ ls) = if same s t then (t, f l) ∷ ls else (t, l) ∷ update_limit s f ls

abbrev pub set_limit : Bytes → (Rlimit → Rlimit) → JobFile → JobFile
set_limit s f c = record c { limits = update_limit s f c.limits }

-- `RLIM_INFINITY` is the greatest `unsigned long`.
unfoldable pub limit_value : {I : Type 0} → Reader I → Bytes → ℕ × Bool
limit_value r s = if same s (codes "unlimited") then (18446744073709551615, true) else r.strtoul s

unfoldable pub hard_limit : {I : Type 0} → Bytes → Stanza I
unfolding with_arg checked limit_value
hard_limit s r c i = with_arg (r.next_arg i) c λ a i'.
    let (v, ok) = limit_value r a in
    checked ok parse_illegal_limit (r.skip_comment i')
      (set_limit s (λ l. record l { rlim_max = some v }) c)

unfoldable pub soft_limit : {I : Type 0} → Bytes → Stanza I
unfolding with_arg hard_limit limit_value
soft_limit s r c i = with_arg (r.next_arg i) c λ a i'.
    let (v, ok) = limit_value r a in
    let c' = set_limit s (λ l. record l { rlim_cur = some v }) c in
    if ok then hard_limit s r c' i' else refused parse_illegal_limit c'

unfoldable pub stanza_limit : {I : Type 0} → Stanza I
unfolding with_arg soft_limit is_resource
stanza_limit r c i = with_arg (r.next_arg i) c λ s i'.
    if is_resource s
    then soft_limit s r (set_limit s (λ l. l) c) i'
    else refused config_unknown_stanza c

-- The parser of a profile is the process of the kind `security`.
unfoldable pub stanza_apparmor : {I : Type 0} → Stanza I
unfolding with_arg skip_comment set_process
stanza_apparmor r c i = with_arg (r.next_token i) c λ word i'.
    if same word (codes "load")
    then with_arg (r.next_arg i') c (λ a i''. skip_comment (r.skip_comment i'') (
        set_process security
          (some (record { script = false; command = codes "/sbin/apparmor_parser -r -W " ++ a }))
          c))
    else if same word (codes "switch")
    then with_arg (r.next_arg i') (record c { apparmor_switch = none })
        (λ a i''. skip_comment (r.skip_comment i'') (record c { apparmor_switch = some a }))
    else refused config_unknown_stanza c

pub data StanzaName : Type 0 where
  s_instance s_description s_author s_version s_env s_export s_start s_stop s_emits : StanzaName
  s_exec s_script s_pre_start s_post_start s_pre_stop s_post_stop s_expect s_task : StanzaName
  s_kill s_reload s_respawn s_normal s_console s_umask s_nice s_oom s_limit : StanzaName
  s_chroot s_chdir s_setuid s_setgid s_debug s_manual s_usage s_apparmor : StanzaName

-- The handlers of the table `stanzas`.
unfoldable pub stanza : {I : Type 0} → StanzaName → Stanza I
stanza s_instance = stanza_instance
stanza s_description = stanza_description
stanza s_author = stanza_author
stanza s_version = stanza_version
stanza s_env = stanza_env
stanza s_export = stanza_export
stanza s_start = stanza_start
stanza s_stop = stanza_stop
stanza s_emits = stanza_emits
stanza s_exec = stanza_exec
stanza s_script = stanza_script
stanza s_pre_start = stanza_pre_start
stanza s_post_start = stanza_post_start
stanza s_pre_stop = stanza_pre_stop
stanza s_post_stop = stanza_post_stop
stanza s_expect = stanza_expect
stanza s_task = stanza_task
stanza s_kill = stanza_kill
stanza s_reload = stanza_reload
stanza s_respawn = stanza_respawn
stanza s_normal = stanza_normal
stanza s_console = stanza_console
stanza s_umask = stanza_umask
stanza s_nice = stanza_nice
stanza s_oom = stanza_oom
stanza s_limit = stanza_limit
stanza s_chroot = stanza_chroot
stanza s_chdir = stanza_chdir
stanza s_setuid = stanza_setuid
stanza s_setgid = stanza_setgid
stanza s_debug = stanza_debug
stanza s_manual = stanza_manual
stanza s_usage = stanza_usage
stanza s_apparmor = stanza_apparmor
