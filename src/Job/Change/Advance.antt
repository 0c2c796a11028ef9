-- ===== src/Job/Change/Advance.antt =====
-- From every state at rest, `job_change_state (job, job_next_state (job))` of init/job.c ends well.
use feature_d.Base.{ℕ, suc, ◌<◌, false, ◌&&◌, ◌≡◌, refl, arith, ◌⊎◌, inl, inr}
use feature_d.Process.{main, pre_start, post_start, pre_stop, post_stop, security}
use feature_d.Job.{
  JobGoal, job_start, job_stop, job_respawn, JobState, job_waiting, job_starting,
  job_security_spawning, job_security, job_pre_starting, job_pre_start, job_spawning, job_spawned,
  job_post_starting, job_post_start, job_running, job_pre_stopping, job_pre_stop, job_stopping,
  job_killed, job_post_stopping, job_post_stop, goal_is,
}
use feature_d.Job.Machine.{Ctx}
use feature_d.Job.Change.{has_process}
use feature_d.Job.Change.Phases.{
  entered, security-Phase, pre_start-Phase, main-Phase, post_start-Phase, pre_stop-Phase,
  post_stop-Phase_stop, post_stop-Phase_start,
}
use feature_d.Job.Change.Settles.{Moving, Settles, Moving-entered}
use feature_d.Job.Change.Spawns.{rest_Sound, Phase-Settles}
use feature_d.Job.Change.Rests.{stopping_Settles, starting_Settles}
use feature_d.Job.Change.Ends.{running_Settles, waiting_Settles}

Moving-twice : (s t : JobState) (c : Ctx) → Moving c → Moving (entered t (entered s c))
Moving-twice s t c m = Moving-entered t (entered s c) (Moving-entered s c m)

pub not_respawn : (g : JobGoal) → (g ≡ job_start) ⊎ (g ≡ job_stop) → goal_is g job_respawn ≡ false
not_respawn g (inl e) = rw e refl
not_respawn g (inr e) = rw e refl

none_running : {A : Type 0} (n : ℕ) → n ≡ 0 → 0 < n → A
none_running n z l = absurd (omega (arith, z, l))

module _ (k : ℕ) where
  pub post_starting_Settles :
      (c : Ctx)
      → Moving c
      → c.job.goal ≡ job_start
      → c.job.state ≡ job_spawned
      → Settles (suc (suc (suc (suc k)))) job_post_starting c
  post_starting_Settles c m g s =
      Phase-Settles post_start job_post_starting job_running (has_process c.job post_start) (suc k)
        c (post_start-Phase (suc k) c m.free g s)
        (λ w.
          rest_Sound post_start job_post_starting c m (not_respawn c.job.goal (inl g)) (λ l. refl)
            w)
        (running_Settles k (entered job_post_start (entered job_post_starting c))
          (Moving-twice job_post_starting job_post_start c m) g (inl refl))

  pub spawning_Settles :
      (c : Ctx)
      → Moving c
      → c.job.goal ≡ job_start
      → c.job.state ≡ job_pre_start
      → Settles (suc (suc (suc (suc (suc (suc k)))))) job_spawning c
  spawning_Settles c m g s =
      Phase-Settles main job_spawning job_post_starting (has_process c.job main) (suc (suc (suc k)))
        c (main-Phase (suc (suc (suc k))) c m.free g s)
        (λ w. rest_Sound main job_spawning c m (not_respawn c.job.goal (inl g)) (λ l. refl) w)
        (post_starting_Settles (entered job_spawned (entered job_spawning c))
          (Moving-twice job_spawning job_spawned c m) g refl)

  pub pre_starting_Settles :
      (c : Ctx)
      → Moving c
      → c.job.goal ≡ job_start
      → c.job.state ≡ job_security
      → c.job.pid.main_slot ≡ 0
      → Settles (suc (suc (suc (suc (suc (suc (suc (suc k)))))))) job_pre_starting c
  pre_starting_Settles c m g s z =
      Phase-Settles pre_start job_pre_starting job_spawning (has_process c.job pre_start)
        (suc (suc (suc (suc (suc k))))) c
        (pre_start-Phase (suc (suc (suc (suc (suc k))))) c m.free g s)
        (λ w.
          rest_Sound pre_start job_pre_starting c m (not_respawn c.job.goal (inl g))
            (none_running c.job.pid.main_slot z) w)
        (spawning_Settles (entered job_pre_start (entered job_pre_starting c))
          (Moving-twice job_pre_starting job_pre_start c m) g refl)

  pub security_Settles :
      (c : Ctx)
      → Moving c
      → c.job.goal ≡ job_start
      → c.job.state ≡ job_starting
      → c.job.pid.main_slot ≡ 0
      → Settles
          (suc (suc (suc (suc (suc (suc (suc (suc (suc (suc k))))))))))
          job_security_spawning
          c
  security_Settles c m g s z =
      Phase-Settles security job_security_spawning job_pre_starting
        (has_process c.job security && c.world.apparmor) (suc (suc (suc (suc (suc (suc (suc k)))))))
        c (security-Phase (suc (suc (suc (suc (suc (suc (suc k))))))) c m.free g s)
        (λ w.
          rest_Sound security job_security_spawning c m (not_respawn c.job.goal (inl g))
            (none_running c.job.pid.main_slot z) (ground (arith, w)))
        (pre_starting_Settles (entered job_security (entered job_security_spawning c))
          (Moving-twice job_security_spawning job_security c m) g refl z)

  pub pre_stopping_Settles :
      (c : Ctx)
      → Moving c
      → c.job.goal ≡ job_stop
      → c.job.state ≡ job_running
      → Settles (suc (suc (suc (suc k)))) job_pre_stopping c
  pre_stopping_Settles c m g s =
      Phase-Settles pre_stop job_pre_stopping job_stopping (has_process c.job pre_stop) (suc k) c
        (pre_stop-Phase (suc k) c m.free g s)
        (λ w.
          rest_Sound pre_stop job_pre_stopping c m (not_respawn c.job.goal (inr g)) (λ l. refl) w)
        (stopping_Settles k (entered job_pre_stop (entered job_pre_stopping c))
          (Moving-twice job_pre_stopping job_pre_stop c m) refl refl
          (not_respawn c.job.goal (inr g)))

  pub post_stopping_Settles :
      (c : Ctx)
      → Moving c
      → (c.job.goal ≡ job_start) ⊎ (c.job.goal ≡ job_stop)
      → c.job.state ≡ job_killed
      → c.job.pid.main_slot ≡ 0
      → Settles (suc (suc (suc (suc k)))) job_post_stopping c
  post_stopping_Settles c m (inl g) s z =
      Phase-Settles post_stop job_post_stopping job_starting (has_process c.job post_stop) (suc k) c
        (post_stop-Phase_start (suc k) c m.free g s)
        (λ w.
          rest_Sound post_stop job_post_stopping c m (not_respawn c.job.goal (inl g))
            (none_running c.job.pid.main_slot z) w)
        (starting_Settles k (entered job_post_stop (entered job_post_stopping c))
          (Moving-twice job_post_stopping job_post_stop c m) refl refl g z)
  post_stopping_Settles c m (inr g) s z =
      Phase-Settles post_stop job_post_stopping job_waiting (has_process c.job post_stop) (suc k) c
        (post_stop-Phase_stop (suc k) c m.free g s)
        (λ w.
          rest_Sound post_stop job_post_stopping c m (not_respawn c.job.goal (inr g))
            (none_running c.job.pid.main_slot z) w)
        (waiting_Settles k (entered job_post_stop (entered job_post_stopping c))
          (Moving-twice job_post_stopping job_post_stop c m) refl g)
