-- ===== src/Job/Request/Kept.antt =====
-- The calls of an instance (job_start and job_stop of init/job.c) keep a job sound.
use feature_d.Base.{
  ℕ, Bool, true, false, if◌then◌else◌, Option, none, some, [], ◌∷◌, ◌≡◌, refl, arith, inl, inr,
}
use feature_d.Event.{Blocked}
use feature_d.Registry.{option_is}
use feature_d.Job.{JobGoal, job_start, job_stop, job_respawn, goal_is}
use feature_d.Job.Machine.{Ctx, Ensures}
use feature_d.Job.Change.{job_change_goal}
use feature_d.Job.Change.Settles.{SettledAfter, job_finished-Sound}
use feature_d.Job.Change.Handlers.{job_change_goal-Settled}
use feature_d.Job.Invariant.{Sound, Settled, Covered}
use feature_d.Job.Request.{
  permission_denied, already_done, accepted, forget_env, method, wait_for, answer_now, request_goal,
  request, instance_start, instance_stop,
}

forget-Sound : (g : JobGoal) (c : Ctx) → Sound c → Sound (record c { job = forget_env g c.job })
forget-Sound job_start c h = record {
  inv = record {
    settled = h.inv.settled;
    pids = h.inv.pids;
    main_known = h.inv.main_known;
    post_start_known = h.inv.post_start_known;
    pre_stop_known = h.inv.pre_stop_known;
    blocked = h.inv.blocked;
    timer = h.inv.timer;
    timer_process = h.inv.timer_process;
    respawning = h.inv.respawning;
    idle = h.inv.idle;
  };
  around = record {
    alive = h.around.alive;
    covered = h.around.covered;
    limit = h.around.limit;
    forks = h.around.forks;
  };
}
forget-Sound job_stop c h = record {
  inv = record {
    settled = h.inv.settled;
    pids = h.inv.pids;
    main_known = h.inv.main_known;
    post_start_known = h.inv.post_start_known;
    pre_stop_known = h.inv.pre_stop_known;
    blocked = h.inv.blocked;
    timer = h.inv.timer;
    timer_process = h.inv.timer_process;
    respawning = h.inv.respawning;
    idle = h.inv.idle;
  };
  around = record {
    alive = h.around.alive;
    covered = h.around.covered;
    limit = h.around.limit;
    forks = h.around.forks;
  };
}
forget-Sound job_respawn c h = record {
  inv = record {
    settled = h.inv.settled;
    pids = h.inv.pids;
    main_known = h.inv.main_known;
    post_start_known = h.inv.post_start_known;
    pre_stop_known = h.inv.pre_stop_known;
    blocked = h.inv.blocked;
    timer = h.inv.timer;
    timer_process = h.inv.timer_process;
    respawning = h.inv.respawning;
    idle = h.inv.idle;
  };
  around = record {
    alive = h.around.alive;
    covered = h.around.covered;
    limit = h.around.limit;
    forks = h.around.forks;
  };
}

method-Covered : (g : JobGoal) (m : ℕ) (c : Ctx) → Covered (method g m ∷ []) c.world.events
method-Covered job_start m c = record { kinds = (tt, tt); counts = λ i. omega arith }
method-Covered job_stop m c = record { kinds = (tt, tt); counts = λ i. omega arith }
method-Covered job_respawn m c = record { kinds = (tt, tt); counts = λ i. omega arith }

wait-Sound :
    (wait : Bool) (g : JobGoal) (m : ℕ) (c : Ctx) → Sound c → Sound (wait_for wait (method g m) c)
wait-Sound false g m c h = h
wait-Sound true g m c h = record {
  inv = record {
    settled = h.inv.settled;
    pids = h.inv.pids;
    main_known = h.inv.main_known;
    post_start_known = h.inv.post_start_known;
    pre_stop_known = h.inv.pre_stop_known;
    blocked = h.inv.blocked;
    timer = h.inv.timer;
    timer_process = h.inv.timer_process;
    respawning = h.inv.respawning;
    idle = h.inv.idle;
  };
  around = record {
    alive = h.around.alive;
    covered = method-Covered g m c;
    limit = h.around.limit;
    forks = h.around.forks;
  };
}

answer-Settled : (wait : Bool) (b : Blocked) (c : Ctx) → Settled c → Settled (answer_now wait b c)
answer-Settled true b c h = h
answer-Settled false b c (inl f) = inl f
answer-Settled false b c (inr h) = inr (record {
  inv = record {
    settled = h.inv.settled;
    pids = h.inv.pids;
    main_known = h.inv.main_known;
    post_start_known = h.inv.post_start_known;
    pre_stop_known = h.inv.pre_stop_known;
    blocked = h.inv.blocked;
    timer = h.inv.timer;
    timer_process = h.inv.timer_process;
    respawning = h.inv.respawning;
    idle = h.inv.idle;
  };
  around = record {
    alive = h.around.alive;
    covered = h.around.covered;
    limit = h.around.limit;
    forks = h.around.forks;
  };
})

request_ends :
    (g : JobGoal) (m : ℕ) (wait : Bool) (r : Option (Unit {0} × Ctx))
    → SettledAfter r
    → Ensures
        (λ _ d. Settled d)
        (elim r [ none ↦ none | some (t, e) ↦ some (accepted, answer_now wait (method g m) e) ])
request_ends g m wait none h = h
request_ends g m wait (some (t, e)) h = answer-Settled wait (method g m) e h

after_answers :
    (g : JobGoal) (m : ℕ) (wait : Bool) (r : Option (Unit {0} × Ctx))
    → goal_is g job_respawn ≡ false
    → Ensures (λ _ d. Sound d) r
    → Ensures
        (λ _ d. Settled d)
        (elim r [
          | none ↦ none
          | some (u, d) ↦ elim (job_change_goal g (wait_for wait (method g m) d)) [
            | none ↦ none
            | some (t, e) ↦ some (accepted, answer_now wait (method g m) e)
          ]
        ])
after_answers g m wait none q h = h
after_answers g m wait (some (u, d)) q h =
    request_ends g m wait _
      (job_change_goal-Settled g (wait_for wait (method g m) d) (wait-Sound wait g m d h) q)

weaken :
    (c : Ctx) (r : Option (Unit {0} × Ctx))
    → Ensures (λ _ d. Sound d × (d.job.state ≡ c.job.state)) r
    → Ensures (λ _ d. Sound d) r
weaken c none h = h
weaken c (some (u, d)) h = h.0

request-Settled :
    (g : JobGoal) (session : Option ℕ) (m : ℕ) (wait : Bool) (c : Ctx)
    → Sound c
    → goal_is g job_respawn ≡ false
    → Ensures (λ _ d. Settled d) (request g session m wait c)
unfolding request
request-Settled g session m wait c h q =
    either (option_is session c.job.class.session) (goal_is c.job.goal g)
  where
    either :
        (mine done : Bool)
        → Ensures
            (λ _ d. Settled d)
            (if mine
              then if done then some (already_done, c) else request_goal g m wait c
              else some (permission_denied, c))
    either true true = inr h
    either true false = after_answers g m wait _ q (
        weaken (record c { job = forget_env g c.job }) _
          (job_finished-Sound false (record c { job = forget_env g c.job }) (forget-Sound g c h)))
    either false done = inr h

-- A call to start a sound job, from whatever session, waiting or not, fails no assertion: the job
-- is sound, or gone.
pub instance_start-Settled :
    (session : Option ℕ) (m : ℕ) (wait : Bool) (c : Ctx)
    → Sound c
    → Ensures (λ _ d. Settled d) (instance_start session m wait c)
unfolding instance_start
instance_start-Settled session m wait c h = request-Settled job_start session m wait c h refl

-- A call to stop a sound job, from whatever session, waiting or not, fails no assertion: the job is
-- sound, or gone.
pub instance_stop-Settled :
    (session : Option ℕ) (m : ℕ) (wait : Bool) (c : Ctx)
    → Sound c
    → Ensures (λ _ d. Settled d) (instance_stop session m wait c)
unfolding instance_stop
instance_stop-Settled session m wait c h = request-Settled job_stop session m wait c h refl
