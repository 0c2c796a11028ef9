-- ===== src/Job/Finished.antt =====
-- `job_finished`, `job_failed` and `job_emit_event` of init/job.c: what a job tells those who wait
-- on it, and the events that it emits.
pub mod Covered
pub mod Answered
use feature_d.Base.{
  ℕ, suc, ◌/◌, ◌+◌, Bool, true, false, ◌&&◌, ◌==◌, leb, if◌then◌else◌, is_some, Bytes, codes,
  Option, none, some, List, [], ◌∷◌, ◌++◌,
}
use feature_d.Environ.{Env, environ_lookup, environ_add, environ_set}
use feature_d.Process.{ProcessType, process_name}
use feature_d.Event.{
  Event, Events, Blocked, blocked_job, blocked_event, blocked_emit_method, blocked_job_start_method,
  blocked_job_stop_method, blocked_job_restart_method, blocked_instance_start_method,
  blocked_instance_stop_method, blocked_instance_restart_method, update_event, event_new,
  event_unblock,
}
use feature_d.Job.{
  ℤ, pos, negsuc, Job, JobState, job_starting, job_running, job_stopping, job_waiting,
}
use feature_d.Job.Machine.{
  System, World, Output, failed_signal, replied, replied_error, M, Ctx, ◌>>=◌, ◌>>◌, pure, assert,
  modify_job, modify_world, send,
}

-- An answer to a method call that waited, by whether the job failed.
abbrev answer : Bool → Blocked → World → World
answer true b w = record w { out = replied_error b ∷ w.out }
answer false b w = record w { out = replied b ∷ w.out }

abbrev pub mark_failed : Bool → ℕ → Events → Events
mark_failed true i es = update_event i (λ e. record e { failed = true }) es
mark_failed false i es = es

-- One round of the loop of `job_finished`.
unfoldable pub finish_blocked : Bool → Blocked → World → Option World
finish_blocked failed (blocked_event i) w = elim (event_unblock i (mark_failed failed i w.events)) [
  | none ↦ none
  | some es ↦ some (record w { events = es })
]
finish_blocked failed (blocked_job i) w = none
finish_blocked failed (blocked_emit_method m) w = none
finish_blocked failed (blocked_job_start_method m) w =
    some (answer failed (blocked_job_start_method m) w)
finish_blocked failed (blocked_job_stop_method m) w =
    some (answer failed (blocked_job_stop_method m) w)
finish_blocked failed (blocked_job_restart_method m) w =
    some (answer failed (blocked_job_restart_method m) w)
finish_blocked failed (blocked_instance_start_method m) w =
    some (answer failed (blocked_instance_start_method m) w)
finish_blocked failed (blocked_instance_stop_method m) w =
    some (answer failed (blocked_instance_stop_method m) w)
finish_blocked failed (blocked_instance_restart_method m) w =
    some (answer failed (blocked_instance_restart_method m) w)

unfoldable pub finish_all : Bool → List Blocked → World → Option World
unfolding finish_blocked
finish_all failed [] w = some w
finish_all failed (b ∷ bs) w = elim (finish_blocked failed b w) [
  | none ↦ none
  | some w' ↦ finish_all failed bs w'
]

-- Each entry is freed when it has been answered, so none is left.
unfoldable pub job_finished : Bool → M (Unit {0})
unfolding finish_all
job_finished failed c = elim (finish_all failed c.job.blocking c.world) [
  | none ↦ none
  | some w ↦ some (tt, record c { job = record c.job { blocking = [] }; world = w })
]

unfoldable pub job_failed : Option ProcessType → ℤ → M (Unit {0})
unfolding job_finished
job_failed process status c =
    let fail = (do
      modify_job (λ j. record j { failed = true; failed_process = process; exit_status = status })
      send (failed_signal c.job.id status)
      job_finished true) in
    if c.job.failed then some (tt, c) else fail c

-- `exit_status & ~0xff`, and `exit_status >> 8`.
abbrev is_signal : ℤ → Bool
is_signal (pos n) = leb 256 n
is_signal (negsuc n) = true

abbrev signal_part : ℤ → ℤ
signal_part (pos n) = pos (n / 256)
signal_part (negsuc n) = negsuc (n / 256)

abbrev is_minus_one : ℤ → Bool
is_minus_one (pos n) = false
is_minus_one (negsuc n) = n == 0

-- How the last process ended: the signal's name, its number, or the exit status.
exit_entry : System → ℤ → Env → Env
exit_entry sys status env =
    if is_signal status
    then elim (sys.signal_name (signal_part status)) [
      | some sig ↦ environ_set sys.getenv env true (codes "EXIT_SIGNAL") sig
      | none ↦
          environ_set sys.getenv env true (codes "EXIT_SIGNAL") (sys.decimal (signal_part status))
    ]
    else environ_set sys.getenv env true (codes "EXIT_STATUS") (sys.decimal status)

-- The variables that say how the job failed.
failure_entries : System → Option ProcessType → ℤ → Env → Env
unfolding exit_entry
failure_entries sys none status env = environ_add sys.getenv env true (codes "PROCESS=respawn")
failure_entries sys (some p) status env =
    let named = environ_set sys.getenv env true (codes "PROCESS") (process_name p) in
    if is_minus_one status then named else exit_entry sys status named

result_entries : System → Bool → Job → Env → Env
unfolding failure_entries
result_entries sys stop j env =
    if stop
    then if j.failed
      then failure_entries sys j.failed_process j.exit_status
          (environ_add sys.getenv env true (codes "RESULT=failed"))
      else environ_add sys.getenv env true (codes "RESULT=ok")
    else env

export_entries : System → Env → List Bytes → Env → Env
export_entries sys from [] env = env
export_entries sys from (name ∷ more) env = elim (environ_lookup from name) [
  | none ↦ export_entries sys from more env
  | some str ↦ export_entries sys from more (environ_add sys.getenv env false str)
]

-- The environment of a job's event: the job, the result where it stops, and what is exported.
unfoldable pub job_event_env : System → Bool → Job → Env
unfolding result_entries export_entries
job_event_env sys stop j = export_entries sys j.env j.class.export (
    result_entries sys stop j (
      environ_set sys.getenv (environ_set sys.getenv [] true (codes "JOB") j.class.name) true
        (codes "INSTANCE") j.name))

-- Name of the event, whether the job waits for it, and whether it is about stopping.
pub record Emits : Type 0 where
  pub event : Bytes
  pub block : Bool
  pub stop : Bool

abbrev pub emits : JobState → Option Emits
emits job_starting = some (record { event = codes "starting"; block = true; stop = false })
emits job_running = some (record { event = codes "started"; block = false; stop = false })
emits job_stopping = some (record { event = codes "stopping"; block = true; stop = true })
emits job_waiting = some (record { event = codes "stopped"; block = false; stop = true })
emits _ = none

abbrev pub waiting_job : Bool → ℕ → List Blocked
waiting_job true i = blocked_job i ∷ []
waiting_job false i = []

-- The queue with the event that the job emits.
unfoldable pub emitted : Emits → Ctx → Events
unfolding job_event_env
emitted e c =
    update_event c.world.next_event
      (λ v. record v { session = c.job.class.session; blocking = waiting_job e.block c.job.id })
      (event_new c.world.next_event e.event (job_event_env c.world.sys e.stop c.job) c.world.events)

-- The number of the new event.
unfoldable pub job_emit_event : M ℕ
unfolding emitted
job_emit_event c = elim (emits c.job.state) [
  | none ↦ none
  | some e ↦ some (
    c.world.next_event,
    record c {
      world = record c.world { events = emitted e c; next_event = suc c.world.next_event };
    },
  )
]
