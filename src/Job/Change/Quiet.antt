-- ===== src/Job/Change/Quiet.antt =====
-- A change of goal (job_change_goal of init/job.c) leaves the blockers of the queue as they are, and
-- does not free the job, where the job leaves a state that answers nothing.
use feature_d.Base.{
  ℕ, suc, Bool, true, false, ◌&&◌, Bool-cases, if◌then◌else◌, Option, none, some, ◌≡◌, refl, ◌⊎◌,
  inl, inr, arith,
}
use feature_d.Process.{main, pre_stop}
use feature_d.Event.{blockers_of}
use feature_d.Job.{
  JobGoal, job_start, job_stop, job_respawn, JobState, job_waiting, job_starting, job_running,
  job_pre_stopping, job_pre_stop, job_stopping, state_is, goal_is,
}
use feature_d.Job.Machine.{Ctx, Ensures}
use feature_d.Job.Finished.Covered.{blockers_of-emitted}
use feature_d.Job.Invariant.{Sound}
use feature_d.Job.Change.{
  has_process, is_running, job_next_state, job_advance, job_change_goal, change_goal_by, goal_moves,
  change_state_loop, change_round, may_follow, job_change_state,
}
use feature_d.Job.Change.Phases.{entered, pre_stop-Phase}
use feature_d.Job.Change.Settles.{loop_round, loop_reached}
use feature_d.Job.Change.Rests.{
  waiting_for, stopping_event, starting_event, stopping_round, starting_round,
}
use feature_d.Job.Change.Released.{with_goal}
use feature_d.Job.Change.Handlers.{none_of}

-- The blockers, whether the job is there, its `stop on` and what it blocks.
abbrev pub SameCounts : Ctx → Ctx → Type 0
SameCounts c d =
    ((i : ℕ) → blockers_of i d.world.events ≡ blockers_of i c.world.events)
    × (d.freed ≡ c.freed)
    × (d.job.stop_on ≡ c.job.stop_on)
    × (d.job.blocking ≡ c.job.blocking)

abbrev pub Quietly : Ctx → Option (Unit {0} × Ctx) → Type 0
Quietly c = Ensures (λ _ d. SameCounts c d)

loop_once :
    (n : ℕ) (s : JobState) (c d : Ctx)
    → state_is c.job.state s ≡ false
    → c.job.blocker ≡ none
    → change_round s c ≡ some (s, d)
    → d.job.state ≡ s
    → change_state_loop (suc (suc n)) s c ≡ some (tt, d)
loop_once n s c d f b q e = rw (loop_round (suc n) s c f b, q) (loop_reached n s d e)

quiet_stopping :
    (n : ℕ) (c : Ctx)
    → may_follow c.job.state job_stopping ≡ true
    → state_is c.job.state job_stopping ≡ false
    → c.job.blocker ≡ none
    → Quietly c (change_state_loop (suc (suc n)) job_stopping c)
quiet_stopping n c m f b =
    rw
      (loop_once n job_stopping c (waiting_for stopping_event (entered job_stopping c)) f b
        (stopping_round c m) refl)
      (λ i. blockers_of-emitted stopping_event (entered job_stopping c) i, refl, refl, refl)

quiet_starting :
    (n : ℕ) (c : Ctx)
    → may_follow c.job.state job_starting ≡ true
    → state_is c.job.state job_starting ≡ false
    → c.job.blocker ≡ none
    → c.job.goal ≡ job_start
    → Quietly c (change_state_loop (suc (suc n)) job_starting c)
quiet_starting n c m f b g =
    rw (loop_once n job_starting c _ f b (starting_round c m g) refl)
      (λ i. blockers_of-emitted starting_event _ i, refl, refl, refl)

if_Quietly :
    (c : Ctx) (b : Bool) (x y : Option (Unit {0} × Ctx))
    → (b ≡ true → Quietly c x)
    → (b ≡ false → Quietly c y)
    → Quietly c (if b then x else y)
if_Quietly c true x y h k = h refl
if_Quietly c false x y h k = k refl

quiet_pre_stopping :
    (c : Ctx)
    → c.job.goal ≡ job_stop
    → c.job.state ≡ job_running
    → c.job.blocker ≡ none
    → Quietly c (change_state_loop 12 job_pre_stopping c)
quiet_pre_stopping c g s b = rw (pre_stop-Phase 9 c b g s) (
    if_Quietly c (has_process c.job pre_stop) _ _ (λ w. (λ i. refl, refl, refl, refl))
      (λ n. quiet_stopping 8 (entered job_pre_stop (entered job_pre_stopping c)) refl refl b))

moves-Quietly :
    (c : Ctx) (r : Option (JobState × Ctx)) (s : JobState) (d : Ctx)
    → r ≡ some (s, d)
    → Quietly c (change_state_loop 12 s d)
    → Quietly c (elim r [ none ↦ none | some (t, e) ↦ job_change_state t e ])
unfolding job_change_state
moves-Quietly c r s d q h = rw q h

advance_quiet :
    (c d : Ctx) (s : JobState)
    → job_next_state c ≡ some (s, d)
    → Quietly c (change_state_loop 12 s d)
    → Quietly c (job_advance c)
unfolding job_advance
advance_quiet c d s q h = moves-Quietly c (job_next_state c) s d q h

stop_from_running :
    (c : Ctx)
    → c.job.goal ≡ job_stop
    → c.job.state ≡ job_running
    → c.job.blocker ≡ none
    → Quietly c (job_advance c)
unfolding job_next_state
stop_from_running c g s b = elim (Bool-cases (has_process c.job main && is_running c.job main)) [
  | inl r ↦ advance_quiet c c job_pre_stopping (rw (s, g, r) refl) (quiet_pre_stopping c g s b)
  | inr r ↦
      advance_quiet c c job_stopping (rw (s, g, r) refl)
        (quiet_stopping 10 c (rw s refl) (rw s refl) b)
]

start_from_waiting :
    (c : Ctx)
    → c.job.goal ≡ job_start
    → c.job.state ≡ job_waiting
    → c.job.blocker ≡ none
    → Quietly c (job_advance c)
unfolding job_next_state
start_from_waiting c g s b =
    advance_quiet c c job_starting (rw (s, g) refl)
      (quiet_starting 10 c (rw s refl) (rw s refl) b g)

idle_free :
    (c : Ctx)
    → Sound c
    → (c.job.state ≡ job_waiting) ⊎ (c.job.state ≡ job_running)
    → c.job.blocker ≡ none
idle_free c h (inl s) = none_of c.job.blocker (λ b. ground (arith, s, h.inv.blocked))
idle_free c h (inr s) = none_of c.job.blocker (λ b. ground (arith, s, h.inv.blocked))

state_is-eq : (s t : JobState) → state_is s t ≡ true → s ≡ t
state_is-eq s t e = ground arith

-- A change of the goal of a sound job fails no assertion. It leaves the blockers of every event as
-- they are, does not free the job, and leaves its `stop on` and the list of what it blocks alone.
pub change_goal_quiet : (g : JobGoal) (c : Ctx) → Sound c → Quietly c (job_change_goal g c)
unfolding job_change_goal change_goal_by
change_goal_quiet g c h =
    if_Quietly c (goal_is c.job.goal g) _ _ (λ same. (λ i. refl, refl, refl, refl))
      (λ other. moves g)
  where
    moves : (g : JobGoal) → Quietly c (goal_moves job_advance g (with_goal g c))
    moves job_start =
        if_Quietly c (state_is c.job.state job_waiting) _ _
          (λ w.
            let s = state_is-eq c.job.state job_waiting w in
            start_from_waiting (with_goal job_start c) refl s (idle_free c h (inl s)))
          (λ n. (λ i. refl, refl, refl, refl))
    moves job_stop =
        if_Quietly c (state_is c.job.state job_running) _ _
          (λ w.
            let s = state_is-eq c.job.state job_running w in
            stop_from_running (with_goal job_stop c) refl s (idle_free c h (inr s)))
          (λ n. (λ i. refl, refl, refl, refl))
    moves job_respawn = (λ i. refl, refl, refl, refl)
