-- ===== src/Job/Machine.antt =====
-- What a job works on: itself, and the daemon around it. A handler of the source runs on one job;
-- `Ctx` is that job with the rest of the daemon's state, and a handler answers `none` where an
-- assertion of the source fails, which ends the daemon.
use feature_d.Base.{ℕ, Bool, true, false, Bytes, Option, none, some, List, ◌∷◌}
use feature_d.Environ.{Env}
use feature_d.Process.{ProcessType}
use feature_d.Event.{Events, Blocked}
use feature_d.Registry.{Registry}
use feature_d.Job.{ℤ, Job, JobGoal, JobState}

-- What the kernel and the libraries answer: `getenv`, `fnmatch`, the decimal form of an `int`,
-- `nih_signal_to_name`, the process that the n-th successful `fork` makes, and whether a signal
-- cannot be sent to a process.
pub record System : Type 0 where
  pub getenv : Bytes → Option Bytes
  pub fnmatch : Bytes → Bytes → Bool
  pub decimal : ℤ → Bytes
  pub signal_name : ℤ → Option Bytes
  pub fork : ℕ → ℕ
  pub kill_fails : ℕ → ℕ → Bool

-- What the daemon sends out; a D-Bus signal goes to every connection.
pub data Output : Type 0 where
  goal_changed : ℕ → JobGoal → Output
  state_changed : ℕ → JobState → Output
  failed_signal : ℕ → ℤ → Output
  instance_added : ℕ → Output
  instance_removed : ℕ → Output
  replied : Blocked → Output
  replied_error : Blocked → Output
  signal_sent : ℕ → ℕ → Output
  spawned : ℕ → ProcessType → Env → Output
  trace_continued : ℕ → ℕ → Output
  trace_detached : ℕ → Output
  event_emitted : Bytes → Env → Output
  fd_closed : Option ℕ → Output

-- `apparmor` is what `apparmor_available` finds, `now` the monotonic clock in seconds, `out` the
-- output, newest first.
pub record World : Type 0 where
  pub sys : System
  pub apparmor : Bool
  pub disable_respawn : Bool
  pub now : ℕ
  pub events : Events
  pub next_event : ℕ
  pub forks : ℕ
  pub registry : Registry
  pub out : List Output

pub record Ctx : Type 0 where
  pub job : Job
  pub world : World
  pub freed : Bool

abbrev pub M : Type 0 → Type 0
M A = Ctx → Option (A × Ctx)

infixl 5 ◌>>=◌ ◌>>◌
abbrev pub ◌>>=◌ : {A B : Type 0} → M A → (A → M B) → M B
◌>>=◌ m f c = elim (m c) [ none ↦ none | some (a, c') ↦ f a c' ]

abbrev pub ◌>>◌ : {A B : Type 0} → M A → M B → M B
m >> k = m >>= λ _. k

abbrev pub pure : {A : Type 0} → A → M A
pure a c = some (a, c)

abbrev pub assert : Bool → M (Unit {0})
assert true c = some (tt, c)
assert false c = none

abbrev pub modify_job : (Job → Job) → M (Unit {0})
modify_job f c = some (tt, record c { job = f c.job })

abbrev pub modify_world : (World → World) → M (Unit {0})
modify_world f c = some (tt, record c { world = f c.world })

abbrev pub send : Output → M (Unit {0})
send o = modify_world λ w. record w { out = o ∷ w.out }

-- A handler's answer, with what holds of its value and of the state after it.
abbrev pub Ensures : {A : Type 0} → (A → Ctx → Type 0) → Option (A × Ctx) → Type 0
Ensures P none = ⊥
Ensures P (some r) = P r.0 r.1
