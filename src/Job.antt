-- ===== src/Job.antt =====
-- init/job.h and init/job_class.h: the data of a job, and of the class that it is an instance of.
-- A class appears with the fields that the code of a job reads.
pub mod Names
pub mod Machine
pub mod Finished
pub mod Start
pub mod Change
pub mod Invariant
pub mod Ended
pub mod Ledger
pub mod StopOn
pub mod Request
pub mod Trace
pub mod ChildError
use feature_d.Base.{
  ℕ, Bool, true, false, ◌==◌, if◌then◌else◌, Bytes, codes, same, Option, none, some, List, ◌≡◌, ◌≢◌,
  refl, arith,
}
use feature_d.Environ.{Env}
use feature_d.Process.{Table, ProcessType, Process}
use feature_d.Event.{Blocked}
use feature_d.EventOperator.{EventOperator}

pub data JobGoal : Type 0 where
  job_stop job_start job_respawn : JobGoal

pub data JobState : Type 0 where
  job_waiting job_starting job_security_spawning job_security job_pre_starting job_pre_start :
      JobState
  job_spawning job_spawned job_post_starting job_post_start job_running job_pre_stopping : JobState
  job_pre_stop job_stopping job_killed job_post_stopping job_post_stop : JobState

pub data TraceState : Type 0 where
  trace_none trace_new trace_new_child trace_normal : TraceState

pub data ExpectType : Type 0 where
  expect_none expect_stop expect_daemon expect_fork : ExpectType

-- The number that the C enumeration gives a state.
abbrev pub state_index : JobState → ℕ
state_index job_waiting = 0
state_index job_starting = 1
state_index job_security_spawning = 2
state_index job_security = 3
state_index job_pre_starting = 4
state_index job_pre_start = 5
state_index job_spawning = 6
state_index job_spawned = 7
state_index job_post_starting = 8
state_index job_post_start = 9
state_index job_running = 10
state_index job_pre_stopping = 11
state_index job_pre_stop = 12
state_index job_stopping = 13
state_index job_killed = 14
state_index job_post_stopping = 15
state_index job_post_stop = 16

abbrev pub state_is : JobState → JobState → Bool
state_is s t = state_index s == state_index t

abbrev pub goal_index : JobGoal → ℕ
goal_index job_stop = 0
goal_index job_start = 1
goal_index job_respawn = 2

abbrev pub goal_is : JobGoal → JobGoal → Bool
goal_is g h = goal_index g == goal_index h

-- An `int` that may be -1: an exit status, with the signal in the higher byte.
pub data ℤ : Type 0 where
  pos : ℕ → ℤ
  negsuc : ℕ → ℤ

pub record JobClass : Type 0 where
  pub id : ℕ
  pub name : Bytes
  pub session : Option ℕ
  pub export : List Bytes
  pub process : Table (Option Process)
  pub expect : ExpectType
  pub task : Bool
  pub kill_timeout : ℕ
  pub kill_signal : ℕ
  pub reload_signal : ℕ
  pub respawn : Bool
  pub respawn_limit : ℕ
  pub respawn_interval : ℕ
  pub normalexit : List ℕ

-- Metadata of a process whose setup has not been confirmed yet.
pub record JobProcessData : Type 0 where
  pub valid : Bool
  pub status : ℕ

-- A pid is 0 where there is no process. The blocker is the number of an event.
pub record Job : Type 0 where
  pub id : ℕ
  pub name : Bytes
  pub class : JobClass
  pub goal : JobGoal
  pub state : JobState
  pub env : Env
  pub start_env : Option Env
  pub stop_env : Option Env
  pub stop_on : Option EventOperator
  pub pid : Table ℕ
  pub blocker : Option ℕ
  pub blocking : List Blocked
  pub kill_timer : Option ℕ
  pub kill_process : Option ProcessType
  pub failed : Bool
  pub failed_process : Option ProcessType
  pub exit_status : ℤ
  pub respawn_time : ℕ
  pub respawn_count : ℕ
  pub trace_forks : ℕ
  pub trace_state : TraceState
  pub process_data : Table (Option JobProcessData)

unfoldable pub job_goal_name : JobGoal → Bytes
job_goal_name job_stop = codes "stop"
job_goal_name job_start = codes "start"
job_goal_name job_respawn = codes "respawn"

unfoldable pub job_state_name : JobState → Bytes
job_state_name job_waiting = codes "waiting"
job_state_name job_starting = codes "starting"
job_state_name job_security_spawning = codes "security-spawning"
job_state_name job_security = codes "security"
job_state_name job_pre_starting = codes "pre-starting"
job_state_name job_pre_start = codes "pre-start"
job_state_name job_spawning = codes "spawning"
job_state_name job_spawned = codes "spawned"
job_state_name job_post_starting = codes "post-starting"
job_state_name job_post_start = codes "post-start"
job_state_name job_running = codes "running"
job_state_name job_pre_stopping = codes "pre-stopping"
job_state_name job_pre_stop = codes "pre-stop"
job_state_name job_stopping = codes "stopping"
job_state_name job_killed = codes "killed"
job_state_name job_post_stopping = codes "post-stopping"
job_state_name job_post_stop = codes "post-stop"
