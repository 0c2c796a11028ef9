-- ===== src/Job/Change/Released.antt =====
-- `job_change_state (job, job_next_state (job))` and `job_change_goal` of init/job.c: no assertion of
-- the state machine fails, and the job is at rest again.
use feature_d.Base.{
  ◌<◌, true, false, ◌&&◌, Option, none, some, ◌∷◌, ◌≡◌, refl, arith, ◌⊎◌, inl, inr, Bool-cases,
}
use feature_d.Process.{main}
use feature_d.Job.{
  JobGoal, job_start, job_stop, job_respawn, JobState, job_waiting, job_starting,
  job_security_spawning, job_security, job_pre_starting, job_pre_start, job_spawning, job_spawned,
  job_post_starting, job_post_start, job_running, job_pre_stopping, job_pre_stop, job_stopping,
  job_killed, job_post_stopping, job_post_stop, state_is, goal_is,
}
use feature_d.Job.Machine.{Ctx, Ensures}
use feature_d.Job.Invariant.{Settled, runs_main, is_passing}
use feature_d.Job.Change.{has_process, is_running, may_follow}
use feature_d.Job.Change.Phases.{entered}
use feature_d.Job.Change.{job_next_state, job_change_state, job_advance}
use feature_d.Job.Machine.{goal_changed}
use feature_d.Job.Change.Settles.{Moving, SettledAfter, Settles, Moving-entered}
use feature_d.Job.Change.Rests.{stopping_Settles, starting_Settles}
use feature_d.Job.Change.Ends.{running_Settles, killed_Settles, waiting_Settles}
use feature_d.Job.Change.Advance.{
  post_starting_Settles, spawning_Settles, pre_starting_Settles, security_Settles,
  pre_stopping_Settles, post_stopping_Settles, not_respawn,
}

-- What a job waited for in its state has ended: the process has gone and the event has finished.
pub record Released (c : Ctx) : Type 0 where
  pub moving : Moving c
  pub rests : is_passing c.job.state ≡ false
  pub main_ok : 0 < c.job.pid.main_slot → runs_main c.job.state ≡ true
  pub killed : c.job.state ≡ job_killed → c.job.pid.main_slot ≡ 0
  pub respawning :
      c.job.goal ≡ job_respawn → (c.job.state ≡ job_post_start) ⊎ (c.job.state ≡ job_pre_stop)
  pub wanted : c.job.state ≡ job_waiting → c.job.goal ≡ job_start

bound :
    (r : Option (JobState × Ctx)) (s : JobState) (d : Ctx)
    → r ≡ some (s, d)
    → Settles 12 s d
    → SettledAfter (elim r [ none ↦ none | some (t, e) ↦ job_change_state t e ])
unfolding job_change_state
bound r s d e h = rw e h

advance_to :
    (s : JobState) (c d : Ctx)
    → job_next_state c ≡ some (s, d)
    → Settles 12 s d
    → SettledAfter (job_advance c)
unfolding job_advance
advance_to s c d e h = bound (job_next_state c) s d e h

no_main : (c : Ctx) → (0 < c.job.pid.main_slot → false ≡ true) → c.job.pid.main_slot ≡ 0
no_main c h = ground (arith, h)

abbrev StopsFrom : Ctx → JobState → Type 0
StopsFrom c s =
    (c.job.state ≡ s)
    → (may_follow s job_stopping ≡ true)
    → (state_is s job_stopping ≡ false)
    → (job_next_state c ≡ some (job_stopping, c))
    → SettledAfter (job_advance c)

to_stopping :
    (c : Ctx) (s : JobState) → Released c → goal_is c.job.goal job_respawn ≡ false → StopsFrom c s
to_stopping c s h g e f t n =
    advance_to job_stopping c c n (stopping_Settles 10 c h.moving (rw e f) (rw e t) g)

to_killed :
    (c : Ctx)
    → Released c
    → (c.job.goal ≡ job_start) ⊎ (c.job.goal ≡ job_stop)
    → c.job.state ≡ job_stopping
    → Settles 12 job_killed c
to_killed c h g s = killed_Settles 10 c h.moving s (not_respawn c.job.goal g) (λ z.
    post_stopping_Settles 7 (entered job_killed c) (Moving-entered job_killed c h.moving) g refl z)

stop_advance :
    (s : JobState) (c : Ctx)
    → Released c
    → c.job.state ≡ s
    → c.job.goal ≡ job_stop
    → SettledAfter (job_advance c)
unfolding job_next_state
stop_advance job_waiting c h s g = ground (arith, h.wanted)
stop_advance job_starting c h s g =
    to_stopping c job_starting h (not_respawn c.job.goal (inr g)) s refl refl (rw (s, g) refl)
stop_advance job_security c h s g =
    to_stopping c job_security h (not_respawn c.job.goal (inr g)) s refl refl (rw (s, g) refl)
stop_advance job_pre_start c h s g =
    to_stopping c job_pre_start h (not_respawn c.job.goal (inr g)) s refl refl (rw (s, g) refl)
stop_advance job_spawned c h s g =
    to_stopping c job_spawned h (not_respawn c.job.goal (inr g)) s refl refl (rw (s, g) refl)
stop_advance job_post_start c h s g =
    to_stopping c job_post_start h (not_respawn c.job.goal (inr g)) s refl refl (rw (s, g) refl)
stop_advance job_pre_stop c h s g =
    to_stopping c job_pre_stop h (not_respawn c.job.goal (inr g)) s refl refl (rw (s, g) refl)
stop_advance job_running c h s g =
    elim (Bool-cases (has_process c.job main && is_running c.job main)) [
      | inl r ↦
          advance_to job_pre_stopping c c (rw (s, g, r) refl)
            (pre_stopping_Settles 8 c h.moving g s)
      | inr r ↦
          to_stopping c job_running h (not_respawn c.job.goal (inr g)) s refl refl
            (rw (s, g, r) refl)
    ]
stop_advance job_stopping c h s g =
    advance_to job_killed c c (rw (s, g) refl) (to_killed c h (inr g) s)
stop_advance job_killed c h s g =
    advance_to job_post_stopping c c (rw (s, g) refl)
      (post_stopping_Settles 8 c h.moving (inr g) s (h.killed s))
stop_advance job_post_stop c h s g =
    advance_to job_waiting c c (rw (s, g) refl) (waiting_Settles 10 c h.moving s g)
stop_advance job_security_spawning c h s g = ground (arith, h.rests)
stop_advance job_pre_starting c h s g = ground (arith, h.rests)
stop_advance job_spawning c h s g = ground (arith, h.rests)
stop_advance job_post_starting c h s g = ground (arith, h.rests)
stop_advance job_pre_stopping c h s g = ground (arith, h.rests)
stop_advance job_post_stopping c h s g = ground (arith, h.rests)

start_advance :
    (s : JobState) (c : Ctx)
    → Released c
    → c.job.state ≡ s
    → c.job.goal ≡ job_start
    → SettledAfter (job_advance c)
unfolding job_next_state
start_advance job_waiting c h s g = advance_to job_starting c c (rw (s, g) refl) (
    starting_Settles 10 c h.moving (rw s refl) (rw s refl) g
      (no_main c (λ l. ground (arith, h.main_ok))))
start_advance job_starting c h s g =
    advance_to job_security_spawning c c (rw (s, g) refl)
      (security_Settles 2 c h.moving g s (no_main c (λ l. ground (arith, h.main_ok))))
start_advance job_security c h s g =
    advance_to job_pre_starting c c (rw (s, g) refl)
      (pre_starting_Settles 4 c h.moving g s (no_main c (λ l. ground (arith, h.main_ok))))
start_advance job_pre_start c h s g =
    advance_to job_spawning c c (rw (s, g) refl) (spawning_Settles 6 c h.moving g s)
start_advance job_spawned c h s g =
    advance_to job_post_starting c c (rw (s, g) refl) (post_starting_Settles 8 c h.moving g s)
start_advance job_post_start c h s g =
    advance_to job_running c c (rw (s, g) refl) (running_Settles 10 c h.moving g (inl s))
start_advance job_pre_stop c h s g =
    advance_to job_running c c (rw (s, g) refl) (running_Settles 10 c h.moving g (inr s))
start_advance job_running c h s g =
    to_stopping c job_running h (not_respawn c.job.goal (inl g)) s refl refl (rw (s, g) refl)
start_advance job_stopping c h s g =
    advance_to job_killed c c (rw (s, g) refl) (to_killed c h (inl g) s)
start_advance job_killed c h s g =
    advance_to job_post_stopping c c (rw (s, g) refl)
      (post_stopping_Settles 8 c h.moving (inl g) s (h.killed s))
start_advance job_post_stop c h s g = advance_to job_starting c c (rw (s, g) refl) (
    starting_Settles 10 c h.moving (rw s refl) (rw s refl) g
      (no_main c (λ l. ground (arith, h.main_ok))))
start_advance job_security_spawning c h s g = ground (arith, h.rests)
start_advance job_pre_starting c h s g = ground (arith, h.rests)
start_advance job_spawning c h s g = ground (arith, h.rests)
start_advance job_post_starting c h s g = ground (arith, h.rests)
start_advance job_pre_stopping c h s g = ground (arith, h.rests)
start_advance job_post_stopping c h s g = ground (arith, h.rests)

-- The job with another goal, which has been told to the connections.
abbrev pub with_goal : JobGoal → Ctx → Ctx
with_goal g c = record c {
  job = record c.job { goal = g };
  world = record c.world { out = goal_changed c.job.id g ∷ c.world.out };
}

pub Moving-with_goal : (g : JobGoal) (c : Ctx) → Moving c → Moving (with_goal g c)
Moving-with_goal g c m = record {
  around = record {
    alive = m.around.alive;
    covered = m.around.covered;
    limit = m.around.limit;
    forks = m.around.forks;
  };
  free = m.free;
  no_timer = m.no_timer;
  no_kill = m.no_kill;
  no_security = m.no_security;
  no_pre_start = m.no_pre_start;
  no_post_start = m.no_post_start;
  no_pre_stop = m.no_pre_stop;
  no_post_stop = m.no_post_stop;
  main_known = m.main_known;
}

respawn_advance :
    (c : Ctx)
    → Released c
    → (c.job.state ≡ job_post_start) ⊎ (c.job.state ≡ job_pre_stop)
    → c.job.goal ≡ job_respawn
    → SettledAfter (job_advance c)
unfolding job_next_state
respawn_advance c h (inl s) g = advance_to job_stopping c (with_goal job_start c) (rw (s, g) refl) (
    stopping_Settles 10 (with_goal job_start c) (Moving-with_goal job_start c h.moving) (rw s refl)
      (rw s refl) refl)
respawn_advance c h (inr s) g = advance_to job_stopping c (with_goal job_start c) (rw (s, g) refl) (
    stopping_Settles 10 (with_goal job_start c) (Moving-with_goal job_start c h.moving) (rw s refl)
      (rw s refl) refl)

-- Once what the job waited for in its state has ended, moving it to its next state fails no
-- assertion and does not run out of rounds, whatever its state, goal and class: the job is gone, or
-- it is at rest with every part of the invariant in force.
pub job_advance-Settled : (c : Ctx) → Released c → Ensures (λ _ d. Settled d) (job_advance c)
job_advance-Settled c h = go c.job.goal refl
  where
    go : (g : JobGoal) → c.job.goal ≡ g → SettledAfter (job_advance c)
    go job_stop g = stop_advance c.job.state c h refl g
    go job_start g = start_advance c.job.state c h refl g
    go job_respawn g = respawn_advance c h (h.respawning g) g
