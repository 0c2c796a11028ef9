-- ===== src/Job/Request/Restart.antt =====
-- What a restart (`job_restart` of init/job.c) does to a job that has a `pre-stop` process.
use mathlib.Core.Path.{subst}
use feature_d.Base.{
  ℕ, [], Bool, true, false, ◌&&◌, if◌then◌else◌, Option, none, some, ◌≡◌, refl, sym, ap, ◌∙◌,
}
use feature_d.Process.{main, pre_stop}
use feature_d.Job.{
  job_start, job_stop, JobState, job_running, job_pre_stopping, job_pre_stop, state_is, goal_is,
}
use feature_d.Registry.{option_is}
use feature_d.Job.Machine.{World, Ctx}
use feature_d.Job.Invariant.{Covered}
use feature_d.Job.Finished.{job_finished}
use feature_d.Job.Finished.Covered.{SameRest, job_finished_ok}
use feature_d.Job.Request.{
  Reply, accepted, already_done, permission_denied, wait_restart, answer_now, restart_goal,
  instance_restart,
}
use feature_d.Event.{blocked_instance_restart_method}
use feature_d.Job.Change.{
  has_process, is_running, job_next_state, job_advance, job_change_state, job_change_goal,
  change_goal_by,
}
use feature_d.Job.Change.Phases.{entered, started, pre_stop-Phase}
use feature_d.Job.Change.Released.{with_goal}

-- The job in `pre-stop`, with the `pre-stop` process started.
abbrev pub pre_stopped : Ctx → Ctx
pre_stopped c =
    entered job_pre_stop (started pre_stop (entered job_pre_stopping (with_goal job_stop c)))

when : {A : Type 0} (b : Bool) (x y : A) → b ≡ true → (if b then x else y) ≡ x
when b x y e = rw e refl

unless : {A : Type 0} (b : Bool) (x y : A) → b ≡ false → (if b then x else y) ≡ y
unless b x y e = rw e refl

goes_to :
    (r : Option (JobState × Ctx)) (s : JobState) (d : Ctx)
    → r ≡ some (s, d)
    → elim r [ none ↦ none | some (t, e) ↦ job_change_state t e ] ≡ job_change_state s d
goes_to r s d e = rw e refl

next_pre_stopping :
    (c : Ctx)
    → c.job.state ≡ job_running
    → (has_process c.job main && is_running c.job main) ≡ true
    → job_next_state (with_goal job_stop c) ≡ some (job_pre_stopping, with_goal job_stop c)
unfolding job_next_state
next_pre_stopping c s r = rw (s, r) refl

moves_to_pre_stopping :
    (c : Ctx)
    → c.job.goal ≡ job_start
    → c.job.state ≡ job_running
    → (has_process c.job main && is_running c.job main) ≡ true
    → job_change_goal job_stop c ≡ job_change_state job_pre_stopping (with_goal job_stop c)
unfolding job_change_goal change_goal_by job_advance
moves_to_pre_stopping c g s r =
    unless (goal_is c.job.goal job_stop) _ _ (rw g refl)
    ∙ when (state_is c.job.state job_running) _ _ (rw s refl)
    ∙ goes_to (job_next_state (with_goal job_stop c)) job_pre_stopping (with_goal job_stop c)
        (next_pre_stopping c s r)

runs_pre_stop :
    (c : Ctx)
    → c.job.state ≡ job_running
    → c.job.blocker ≡ none
    → has_process c.job pre_stop ≡ true
    → job_change_state job_pre_stopping (with_goal job_stop c) ≡ some (tt, pre_stopped c)
unfolding job_change_state
runs_pre_stop c s b p =
    pre_stop-Phase 9 (with_goal job_stop c) b refl s ∙ when (has_process c.job pre_stop) _ _ p

starts :
    (c : Ctx)
    → job_change_goal job_start (pre_stopped c) ≡ some (tt, with_goal job_start (pre_stopped c))
unfolding job_change_goal change_goal_by
starts c = refl

-- The job as it is when its goal changes: the other calls have been answered, and this one waits.
abbrev asked : Bool → ℕ → Ctx → World → Ctx
asked wait m c w = wait_restart wait m (record c {
  job = record c.job { start_env = none; stop_env = none; blocking = [] };
  world = w;
})

abbrev end_of : ℕ → Bool → Ctx → Option (Reply × Ctx)
end_of m wait x = some (
  accepted,
  answer_now wait (blocked_instance_restart_method m) (with_goal job_start (pre_stopped x)),
)

-- The rest of `restart_goal` once the job has been told to stop, and once the calls are answered.
abbrev after_stop : ℕ → Bool → Option (Unit {0} × Ctx) → Option (Reply × Ctx)
after_stop m wait none = none
after_stop m wait (some (t, e)) = elim (job_change_goal job_start e) [
  | none ↦ none
  | some (v, f) ↦ some (accepted, answer_now wait (blocked_instance_restart_method m) f)
]

abbrev after_finished : ℕ → Bool → Option (Unit {0} × Ctx) → Option (Reply × Ctx)
after_finished m wait none = none
after_finished m wait (some (u, d)) = elim (job_change_goal job_stop (wait_restart wait m d)) [
  | none ↦ none
  | some (t, e) ↦ elim (job_change_goal job_start e) [
    | none ↦ none
    | some (v, f) ↦ some (accepted, answer_now wait (blocked_instance_restart_method m) f)
  ]
]

ends_with :
    (m : ℕ) (wait : Bool) (x : Ctx) → after_stop m wait (some (tt, pre_stopped x)) ≡ end_of m wait x
ends_with m wait x =
    ap
      (λ y. elim y as (λ _. Option (Reply × Ctx)) [
        | none ↦ none
        | some (v, f) ↦ some (accepted, answer_now wait (blocked_instance_restart_method m) f)
      ])
      (starts x)

-- The whole call, where both changes of goal go as above.
restart_goal_eq :
    (m : ℕ) (wait : Bool) (c x : Ctx) (w : World)
    → job_finished false (record c { job = record c.job { start_env = none; stop_env = none } })
      ≡ some (
        tt,
        record c {
          job = record c.job { start_env = none; stop_env = none; blocking = [] };
          world = w;
        },
      )
    → x ≡ asked wait m c w
    → x.job.goal ≡ job_start
    → x.job.state ≡ job_running
    → x.job.blocker ≡ none
    → (has_process x.job main && is_running x.job main) ≡ true
    → has_process x.job pre_stop ≡ true
    → restart_goal m wait c
      ≡ some (
        accepted,
        answer_now wait (blocked_instance_restart_method m) (with_goal job_start (pre_stopped x)),
      )
unfolding restart_goal
restart_goal_eq m wait c x w q e g s b r p =
    subst (λ y. after_finished m wait y ≡ end_of m wait x) (sym q)
      (subst (λ y. after_stop m wait (job_change_goal job_stop y) ≡ end_of m wait x) e
        (rw (moves_to_pre_stopping x g s r, runs_pre_stop x s b p) (ends_with m wait x)))

-- A restart does not restart a running job that has a `pre-stop` process, whoever may call and
-- whether or not the caller waits: `job_restart` accepts the call, and leaves the job in `pre-stop`
-- with the goal start, a new `pre-stop` process and the main process that it had; the state after
-- it is `running`. The caller is in the session of the class, and what the job blocks is of a kind
-- that waits on a job and in the queue with its blockers.
pub restart-pre_stop :
    (session : Option ℕ) (m : ℕ) (wait : Bool) (c : Ctx)
    → option_is session c.job.class.session ≡ true
    → Covered c.job.blocking c.world.events
    → c.job.goal ≡ job_start
    → c.job.state ≡ job_running
    → c.job.blocker ≡ none
    → (has_process c.job main && is_running c.job main) ≡ true
    → has_process c.job pre_stop ≡ true
    → (d : Ctx) × (instance_restart session m wait c ≡ some (accepted, d))
      × (d.job.state ≡ job_pre_stop)
      × (d.job.goal ≡ job_start)
      × (d.job.pid.pre_stop_slot ≡ c.world.sys.fork c.world.forks)
      × (d.job.pid.main_slot ≡ c.job.pid.main_slot)
      × (job_next_state d ≡ some (job_running, d))
unfolding job_next_state instance_restart
restart-pre_stop session m wait c o k g s b r p =
    let (w, q, same, counts) =
      job_finished_ok false (record c { job = record c.job { start_env = none; stop_env = none } })
        k in
    by_wait w q same wait
  where
    chosen :
        (y : Option (Reply × Ctx))
        → (if option_is session c.job.class.session
            then if goal_is c.job.goal job_stop then some (already_done, c) else y
            else some (permission_denied, c))
          ≡ y
    chosen y = rw (o, g) refl

    Restarted : Bool → Type 0
    Restarted wait =
        (d : Ctx) × (instance_restart session m wait c ≡ some (accepted, d))
        × (d.job.state ≡ job_pre_stop)
        × (d.job.goal ≡ job_start)
        × (d.job.pid.pre_stop_slot ≡ c.world.sys.fork c.world.forks)
        × (d.job.pid.main_slot ≡ c.job.pid.main_slot)
        × (job_next_state d ≡ some (job_running, d))

    by_wait :
        (w : World)
        → job_finished false (record c { job = record c.job { start_env = none; stop_env = none } })
          ≡ some (
            tt,
            record c {
              job = record c.job { start_env = none; stop_env = none; blocking = [] };
              world = w;
            },
          )
        → SameRest c.world w
        → (wait : Bool) → Restarted wait
    by_wait w q same true = (
      with_goal job_start (pre_stopped (asked true m c w)),
      chosen (restart_goal m true c)
          ∙ restart_goal_eq m true c (asked true m c w) w q refl g s b r p,
      refl,
      refl,
      rw (same.sys, same.forks) refl,
      refl,
      refl,
    )
    by_wait w q same false = (
      answer_now false (blocked_instance_restart_method m)
          (with_goal job_start (pre_stopped (asked false m c w))),
      chosen (restart_goal m false c)
          ∙ restart_goal_eq m false c (asked false m c w) w q refl g s b r p,
      refl,
      refl,
      rw (same.sys, same.forks) refl,
      refl,
      refl,
    )
