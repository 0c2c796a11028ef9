-- ===== src/Stanzas/Fields.antt =====
-- init/parse_job.c: the stanzas that differ only in the field or the process that they set.
use feature_d.Base.{◌++◌}
use feature_d.Process.{main, pre_start, post_start, pre_stop, post_stop}
use feature_d.Stanzas.{
  Stanza, text_stanza, list_stanza, on_stanza, parse_exec, parse_script, parse_process,
}

abbrev pub stanza_instance : {I : Type 0} → Stanza I
stanza_instance = text_stanza λ v c. record c { instance = v }

abbrev pub stanza_description : {I : Type 0} → Stanza I
stanza_description = text_stanza λ v c. record c { description = v }

abbrev pub stanza_author : {I : Type 0} → Stanza I
stanza_author = text_stanza λ v c. record c { author = v }

abbrev pub stanza_version : {I : Type 0} → Stanza I
stanza_version = text_stanza λ v c. record c { version = v }

abbrev pub stanza_chroot : {I : Type 0} → Stanza I
stanza_chroot = text_stanza λ v c. record c { chroot = v }

abbrev pub stanza_chdir : {I : Type 0} → Stanza I
stanza_chdir = text_stanza λ v c. record c { chdir = v }

abbrev pub stanza_setuid : {I : Type 0} → Stanza I
stanza_setuid = text_stanza λ v c. record c { setuid = v }

abbrev pub stanza_setgid : {I : Type 0} → Stanza I
stanza_setgid = text_stanza λ v c. record c { setgid = v }

abbrev pub stanza_usage : {I : Type 0} → Stanza I
stanza_usage = text_stanza λ v c. record c { usage = v }

abbrev pub stanza_export : {I : Type 0} → Stanza I
stanza_export = list_stanza λ args c. record c { export = c.export ++ args }

abbrev pub stanza_emits : {I : Type 0} → Stanza I
stanza_emits = list_stanza λ args c. record c { emits = c.emits ++ args }

abbrev pub stanza_start : {I : Type 0} → Stanza I
stanza_start = on_stanza λ v c. record c { start_on = v }

abbrev pub stanza_stop : {I : Type 0} → Stanza I
stanza_stop = on_stanza λ v c. record c { stop_on = v }

abbrev pub stanza_exec : {I : Type 0} → Stanza I
stanza_exec = parse_exec main

abbrev pub stanza_script : {I : Type 0} → Stanza I
stanza_script = parse_script main

abbrev pub stanza_pre_start : {I : Type 0} → Stanza I
stanza_pre_start = parse_process pre_start

abbrev pub stanza_post_start : {I : Type 0} → Stanza I
stanza_post_start = parse_process post_start

abbrev pub stanza_pre_stop : {I : Type 0} → Stanza I
stanza_pre_stop = parse_process pre_stop

abbrev pub stanza_post_stop : {I : Type 0} → Stanza I
stanza_post_stop = parse_process post_stop
