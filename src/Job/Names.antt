-- ===== src/Job/Names.antt =====
-- job_goal_from_name and job_state_from_name of init/job.c; `none` is the -1.
use feature_d.Base.{Bytes, codes, same, if◌then◌else◌, Option, none, some, ◌≡◌, refl}
use feature_d.Process.{ProcessType, process_name, process_from_name, process_from_name-process_name}
use feature_d.Job.{
  JobGoal, job_start, job_stop, job_respawn, JobState, job_waiting, job_starting,
  job_security_spawning, job_security, job_pre_starting, job_pre_start, job_spawning, job_spawned,
  job_post_starting, job_post_start, job_running, job_pre_stopping, job_pre_stop, job_stopping,
  job_killed, job_post_stopping, job_post_stop, job_goal_name, job_state_name,
}

unfoldable pub job_goal_from_name : Bytes → Option JobGoal
unfolding same
job_goal_from_name s =
    if same s (codes "stop")
    then some job_stop
    else if same s (codes "start")
    then some job_start
    else if same s (codes "respawn")
    then some job_respawn
    else none

unfoldable pub job_state_from_name : Bytes → Option JobState
unfolding same
job_state_from_name s =
    if same s (codes "waiting")
    then some job_waiting
    else if same s (codes "starting")
    then some job_starting
    else if same s (codes "security-spawning")
    then some job_security_spawning
    else if same s (codes "security")
    then some job_security
    else if same s (codes "pre-starting")
    then some job_pre_starting
    else if same s (codes "pre-start")
    then some job_pre_start
    else if same s (codes "spawning")
    then some job_spawning
    else if same s (codes "spawned")
    then some job_spawned
    else if same s (codes "post-starting")
    then some job_post_starting
    else if same s (codes "post-start")
    then some job_post_start
    else if same s (codes "running")
    then some job_running
    else if same s (codes "pre-stopping")
    then some job_pre_stopping
    else if same s (codes "pre-stop")
    then some job_pre_stop
    else if same s (codes "stopping")
    then some job_stopping
    else if same s (codes "killed")
    then some job_killed
    else if same s (codes "post-stopping")
    then some job_post_stopping
    else if same s (codes "post-stop")
    then some job_post_stop
    else none

-- Every state is found again by its name.
job_state_from_name-job_state_name :
    (s : JobState) → job_state_from_name (job_state_name s) ≡ some s
unfolding job_state_from_name job_state_name
job_state_from_name-job_state_name job_waiting = refl
job_state_from_name-job_state_name job_starting = refl
job_state_from_name-job_state_name job_security_spawning = refl
job_state_from_name-job_state_name job_security = refl
job_state_from_name-job_state_name job_pre_starting = refl
job_state_from_name-job_state_name job_pre_start = refl
job_state_from_name-job_state_name job_spawning = refl
job_state_from_name-job_state_name job_spawned = refl
job_state_from_name-job_state_name job_post_starting = refl
job_state_from_name-job_state_name job_post_start = refl
job_state_from_name-job_state_name job_running = refl
job_state_from_name-job_state_name job_pre_stopping = refl
job_state_from_name-job_state_name job_pre_stop = refl
job_state_from_name-job_state_name job_stopping = refl
job_state_from_name-job_state_name job_killed = refl
job_state_from_name-job_state_name job_post_stopping = refl
job_state_from_name-job_state_name job_post_stop = refl

-- Every goal is found again by its name.
job_goal_from_name-job_goal_name : (g : JobGoal) → job_goal_from_name (job_goal_name g) ≡ some g
unfolding job_goal_from_name job_goal_name
job_goal_from_name-job_goal_name job_stop = refl
job_goal_from_name-job_goal_name job_start = refl
job_goal_from_name-job_goal_name job_respawn = refl

-- Every state of a job, every goal and every kind of process is found again by its name.
pub from_name-name :
    ((s : JobState) → job_state_from_name (job_state_name s) ≡ some s)
    × ((g : JobGoal) → job_goal_from_name (job_goal_name g) ≡ some g)
    × ((p : ProcessType) → process_from_name (process_name p) ≡ some p)
from_name-name = (
  job_state_from_name-job_state_name, job_goal_from_name-job_goal_name,
  process_from_name-process_name,
)
