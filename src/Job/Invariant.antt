-- ===== src/Job/Invariant.antt =====
-- What holds of a job between two handlers of init/job.c and init/job_process.c.
use feature_d.Base.{
  ℕ, ◌+◌, ◌≤◌, ◌<◌, ◌==◌, Bool, true, false, if◌then◌else◌, is_some, none, some, List, [], ◌∷◌, ◌≡◌,
  ◌⊎◌, All,
}
use feature_d.Process.{Table, main}
use feature_d.Event.{Events, Blocked, blocked_job, blocked_event, blocked_emit_method, blockers_of}
use feature_d.Job.{
  Job, job_stop, job_respawn, JobState, job_waiting, job_starting, job_security_spawning,
  job_security, job_pre_starting, job_pre_start, job_spawning, job_spawned, job_post_starting,
  job_post_start, job_running, job_pre_stopping, job_pre_stop, job_stopping, job_killed,
  job_post_stopping, job_post_stop,
}
use feature_d.Job.Machine.{Ctx}

-- The states that the loop only passes through.
abbrev pub is_passing : JobState → Bool
is_passing job_security_spawning = true
is_passing job_pre_starting = true
is_passing job_spawning = true
is_passing job_post_starting = true
is_passing job_pre_stopping = true
is_passing job_post_stopping = true
is_passing _ = false

-- The states in which the main process may run.
abbrev pub runs_main : JobState → Bool
runs_main job_spawned = true
runs_main job_post_start = true
runs_main job_running = true
runs_main job_pre_stop = true
runs_main job_stopping = true
runs_main job_killed = true
runs_main _ = false

-- The states in which the job waits for the event that it has emitted.
abbrev pub waits_event : JobState → Bool
waits_event job_starting = true
waits_event job_stopping = true
waits_event _ = false

-- The process that the job waits for in a state does run.
abbrev pub Awaited : JobState → Table ℕ → Type 0
Awaited job_security pid = 0 < pid.security_slot
Awaited job_pre_start pid = 0 < pid.pre_start_slot
Awaited job_spawned pid = 0 < pid.main_slot
Awaited job_post_start pid = 0 < pid.post_start_slot
Awaited job_pre_stop pid = 0 < pid.pre_stop_slot
Awaited job_killed pid = 0 < pid.main_slot
Awaited job_post_stop pid = 0 < pid.post_stop_slot
Awaited _ pid = Unit

-- Each process runs in its own states only.
pub record PidsOk (s : JobState) (pid : Table ℕ) : Type 0 where
  pub awaited : Awaited s pid
  pub main_ok : 0 < pid.main_slot → runs_main s ≡ true
  pub security_ok : 0 < pid.security_slot → s ≡ job_security
  pub pre_start_ok : 0 < pid.pre_start_slot → s ≡ job_pre_start
  pub post_start_ok : 0 < pid.post_start_slot → s ≡ job_post_start
  pub pre_stop_ok : 0 < pid.pre_stop_slot → s ≡ job_pre_stop
  pub post_stop_ok : 0 < pid.post_stop_slot → s ≡ job_post_stop

pub record Inv (j : Job) : Type 0 where
  pub settled : is_passing j.state ≡ false
  pub pids : PidsOk j.state j.pid
  pub main_known : 0 < j.pid.main_slot → is_some j.class.process.main_slot ≡ true
  pub post_start_known : 0 < j.pid.post_start_slot → is_some j.class.process.post_start_slot ≡ true
  pub pre_stop_known : 0 < j.pid.pre_stop_slot → is_some j.class.process.pre_stop_slot ≡ true
  pub blocked : is_some j.blocker ≡ waits_event j.state
  pub timer : is_some j.kill_timer ≡ true → j.state ≡ job_killed
  pub timer_process : j.kill_process ≡ (if is_some j.kill_timer then some main else none)
  pub respawning : j.goal ≡ job_respawn → (j.state ≡ job_post_start) ⊎ (j.state ≡ job_pre_stop)
  pub idle : j.state ≡ job_waiting → j.goal ≡ job_stop

-- An entry that `job_finished` can answer.
abbrev pub Answerable : Blocked → Type 0
Answerable (blocked_job i) = ⊥
Answerable (blocked_emit_method m) = ⊥
Answerable _ = Unit

abbrev pub is_event : ℕ → Blocked → ℕ
is_event i (blocked_event j) = if j == i then 1 else 0
is_event i _ = 0

abbrev pub count_event : ℕ → List Blocked → ℕ
count_event i [] = 0
count_event i (b ∷ bs) = is_event i b + count_event i bs

-- Every event that the job blocks is in the queue with at least as many blockers.
pub record Covered (bs : List Blocked) (es : Events) : Type 0 where
  pub kinds : All Answerable bs
  pub counts : (i : ℕ) → count_event i bs ≤ blockers_of i es

-- The state of the daemon around a job: the job is alive, what it blocks is covered, its class has
-- a time limit for killing, and `fork` gives real process numbers.
pub record Around (c : Ctx) : Type 0 where
  pub alive : c.freed ≡ false
  pub covered : Covered c.job.blocking c.world.events
  pub limit : 0 < c.job.class.kill_timeout
  pub forks : (n : ℕ) → 0 < c.world.sys.fork n

pub record Sound (c : Ctx) : Type 0 where
  pub inv : Inv c.job
  pub around : Around c

-- A handler has ended well: the job is gone, or sound.
abbrev pub Settled : Ctx → Type 0
Settled c = (c.freed ≡ true) ⊎ Sound c
