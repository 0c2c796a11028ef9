-- ===== src/Job/Request.antt =====
-- job_start, job_stop and job_restart of init/job.c: the calls of the D-Bus interface of an instance. The session
-- of the caller is an argument; a message is its number.
pub mod Kept
pub mod Restart
use feature_d.Base.{
  ℕ, Bool, true, false, if◌then◌else◌, Option, none, some, [], ◌∷◌, ◌≡◌, refl, arith, inl, inr,
}
use feature_d.Event.{
  Blocked, blocked_instance_start_method, blocked_instance_stop_method,
  blocked_instance_restart_method,
}
use feature_d.Registry.{option_is}
use feature_d.Job.{Job, JobGoal, job_start, job_stop, job_respawn, goal_is}
use feature_d.Job.Machine.{M, Ctx, replied, Ensures}
use feature_d.Job.Finished.{job_finished}
use feature_d.Job.Change.{job_change_goal}
use feature_d.Job.Change.Settles.{SettledAfter, job_finished-Sound}
use feature_d.Job.Change.Handlers.{job_change_goal-Settled}
use feature_d.Job.Invariant.{Sound, Settled, Covered}

pub data Reply : Type 0 where
  permission_denied already_done accepted : Reply

abbrev pub forget_env : JobGoal → Job → Job
forget_env job_start j = record j { start_env = none }
forget_env _ j = record j { stop_env = none }

abbrev pub method : JobGoal → ℕ → Blocked
method job_start m = blocked_instance_start_method m
method _ m = blocked_instance_stop_method m

-- A call that waits is put on the job's list; one that does not is answered at the end.
abbrev pub wait_for : Bool → Blocked → Ctx → Ctx
wait_for true b c = record c { job = record c.job { blocking = b ∷ [] } }
wait_for false b c = c

abbrev wait_restart : Bool → ℕ → Ctx → Ctx
wait_restart wait m c = wait_for wait (blocked_instance_restart_method m) c

abbrev pub answer_now : Bool → Blocked → Ctx → Ctx
answer_now true b c = c
answer_now false b c = record c { world = record c.world { out = replied b ∷ c.world.out } }

-- What the two calls share: those who wait are answered, and the goal changes.
pub request_goal : JobGoal → ℕ → Bool → M Reply
unfolding job_finished job_change_goal
request_goal g m wait c = elim (job_finished false (record c { job = forget_env g c.job })) [
  | none ↦ none
  | some (u, d) ↦ elim (job_change_goal g (wait_for wait (method g m) d)) [
    | none ↦ none
    | some (t, e) ↦ some (accepted, answer_now wait (method g m) e)
  ]
]

unfoldable pub request : JobGoal → Option ℕ → ℕ → Bool → M Reply
unfolding request_goal
request g session m wait c =
    if option_is session c.job.class.session
    then if goal_is c.job.goal g then some (already_done, c) else request_goal g m wait c
    else some (permission_denied, c)

unfoldable pub instance_start : Option ℕ → ℕ → Bool → M Reply
unfolding request
instance_start = request job_start

unfoldable pub instance_stop : Option ℕ → ℕ → Bool → M Reply
unfolding request
instance_stop = request job_stop

-- `job_restart`: the goal goes to stop, and back to start at once.
unfoldable pub restart_goal : ℕ → Bool → M Reply
unfolding job_finished job_change_goal
restart_goal m wait c =
    elim (job_finished false
      (record c { job = record c.job { start_env = none; stop_env = none } })) [
        | none ↦ none
        | some (u, d) ↦ elim (job_change_goal job_stop (wait_restart wait m d)) [
          | none ↦ none
          | some (t, e) ↦ elim (job_change_goal job_start e) [
            | none ↦ none
            | some (v, f) ↦ some (accepted, answer_now wait (blocked_instance_restart_method m) f)
          ]
        ]
      ]

unfoldable pub instance_restart : Option ℕ → ℕ → Bool → M Reply
unfolding restart_goal
instance_restart session m wait c =
    if option_is session c.job.class.session
    then if goal_is c.job.goal job_stop then some (already_done, c) else restart_goal m wait c
    else some (permission_denied, c)
