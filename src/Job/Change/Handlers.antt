-- ===== src/Job/Change/Handlers.antt =====
-- The calls that move a job from outside (init/job.c, init/event.c) keep its invariant.
use feature_d.Base.{
  ℕ, zero, suc, ◌<◌, Bool, true, false, if◌then◌else◌, is_some, Option, none, some, ◌≡◌, refl,
  arith, ◌⊎◌, inl, inr,
}
use feature_d.Job.{
  JobGoal, job_start, job_stop, job_respawn, JobState, job_waiting, job_starting, job_post_start,
  job_running, job_pre_stop, job_stopping, job_killed, state_is, goal_is,
}
use feature_d.Job.Machine.{Ctx, Ensures}
use feature_d.Job.Invariant.{Sound, Settled, waits_event}
use feature_d.Job.Change.{job_advance, job_change_goal}
use feature_d.Job.Change.{change_goal_by, goal_moves, event_released}
use feature_d.Job.Change.Settles.{Moving, SettledAfter}
use feature_d.Job.Change.Released.{Released, job_advance-Settled, with_goal, Moving-with_goal}

pub none_of : {A : Type 0} (o : Option A) → (is_some o ≡ true → ⊥) → o ≡ none
none_of none h = refl
none_of (some a) h = absurd (h refl)

pub zero_of : (n : ℕ) → (0 < n → ⊥) → n ≡ 0
zero_of zero h = refl
zero_of (suc n) h = absurd (h (omega arith))

-- A state in which no process but the main one is awaited, nor is an event, or will be no more.
abbrev is_idle : JobState → Bool
is_idle job_waiting = true
is_idle job_running = true
is_idle job_starting = true
is_idle job_stopping = true
is_idle _ = false

pub untimed : (c : Ctx) → Sound c → c.job.kill_timer ≡ none → c.job.kill_process ≡ none
untimed c h t = ground (arith, h.inv.timer_process)

idle_Moving :
    (c : Ctx)
    → Sound c
    → is_idle c.job.state ≡ true
    → Moving (record c { job = record c.job { blocker = none } })
idle_Moving c h i = record {
  around = record {
    alive = h.around.alive;
    covered = h.around.covered;
    limit = h.around.limit;
    forks = h.around.forks;
  };
  free = refl;
  no_timer = none_of c.job.kill_timer (λ t. ground (arith, h.inv.timer t));
  no_kill = untimed c h (none_of c.job.kill_timer (λ t. ground (arith, h.inv.timer t)));
  no_security = zero_of c.job.pid.security_slot (λ l. ground (arith, h.inv.pids.security_ok l));
  no_pre_start = zero_of c.job.pid.pre_start_slot (λ l. ground (arith, h.inv.pids.pre_start_ok l));
  no_post_start =
      zero_of c.job.pid.post_start_slot (λ l. ground (arith, h.inv.pids.post_start_ok l));
  no_pre_stop = zero_of c.job.pid.pre_stop_slot (λ l. ground (arith, h.inv.pids.pre_stop_ok l));
  no_post_stop = zero_of c.job.pid.post_stop_slot (λ l. ground (arith, h.inv.pids.post_stop_ok l));
  main_known = h.inv.main_known;
}

idle_Released :
    (c : Ctx)
    → Sound c
    → is_idle c.job.state ≡ true
    → (c.job.state ≡ job_waiting → c.job.goal ≡ job_start)
    → Released (record c { job = record c.job { blocker = none } })
idle_Released c h i w = record {
  moving = idle_Moving c h i;
  rests = h.inv.settled;
  main_ok = h.inv.pids.main_ok;
  killed = λ k. ground (arith, i);
  respawning = h.inv.respawning;
  wanted = w;
}

-- When the event that a job waits for has finished, and its blocker is taken off it, the job moves
-- on without a failed assertion: it is gone, or at rest with its invariant in force. The job has
-- to be sound before, in a state that waits for its event.
pub event_released-Settled :
    (c : Ctx)
    → Sound c
    → waits_event c.job.state ≡ true
    → Ensures (λ _ d. Settled d) (event_released c)
unfolding event_released
event_released-Settled c h w =
    job_advance-Settled _ (idle_Released c h (ground (arith, w)) (λ q. ground (arith, w)))

Moving-own :
    (c : Ctx)
    → Moving (record c { job = record c.job { blocker = none } })
    → c.job.blocker ≡ none
    → Moving c
Moving-own c m b = record {
  around = record {
    alive = m.around.alive;
    covered = m.around.covered;
    limit = m.around.limit;
    forks = m.around.forks;
  };
  free = b;
  no_timer = m.no_timer;
  no_kill = m.no_kill;
  no_security = m.no_security;
  no_pre_start = m.no_pre_start;
  no_post_start = m.no_post_start;
  no_pre_stop = m.no_pre_stop;
  no_post_stop = m.no_post_stop;
  main_known = m.main_known;
}

abbrev Ready : JobGoal → Ctx → Type 0
Ready g c =
    ((c.job.state ≡ job_waiting) × (g ≡ job_start)) ⊎ ((c.job.state ≡ job_running) × (g ≡ job_stop))

-- A job that waits, or runs, is ready to move once its goal has changed.
goal_Released : (g : JobGoal) (c : Ctx) → Sound c → Ready g c → Released (with_goal g c)
goal_Released g c h w = record {
  moving =
      Moving-with_goal g c
        (Moving-own c (idle_Moving c h (idle w)) (none_of c.job.blocker (λ b. free w b)));
  rests = h.inv.settled;
  main_ok = h.inv.pids.main_ok;
  killed = λ k. kills w k;
  respawning = λ r. respawns w r;
  wanted = λ q. wants w q;
}
  where
    idle : Ready g c → is_idle c.job.state ≡ true
    idle (inl w) = rw w.0 refl
    idle (inr w) = rw w.0 refl

    free : Ready g c → is_some c.job.blocker ≡ true → ⊥
    free (inl w) b = ground (arith, w.0, h.inv.blocked)
    free (inr w) b = ground (arith, w.0, h.inv.blocked)

    kills : Ready g c → c.job.state ≡ job_killed → c.job.pid.main_slot ≡ 0
    kills (inl w) k = ground (arith, w.0)
    kills (inr w) k = ground (arith, w.0)

    respawns :
        Ready g c → g ≡ job_respawn → (c.job.state ≡ job_post_start) ⊎ (c.job.state ≡ job_pre_stop)
    respawns (inl w) r = ground (arith, w.1)
    respawns (inr w) r = ground (arith, w.1)

    wants : Ready g c → c.job.state ≡ job_waiting → g ≡ job_start
    wants (inl w) q = w.1
    wants (inr w) q = ground (arith, w.0)

-- In any other state the goal alone changes.
goal_Sound :
    (g : JobGoal) (c : Ctx)
    → Sound c
    → goal_is g job_respawn ≡ false
    → (c.job.state ≡ job_waiting → g ≡ job_stop)
    → Sound (with_goal g c)
goal_Sound g c h r w = record {
  inv = record {
    settled = h.inv.settled;
    pids = h.inv.pids;
    main_known = h.inv.main_known;
    post_start_known = h.inv.post_start_known;
    pre_stop_known = h.inv.pre_stop_known;
    blocked = h.inv.blocked;
    timer = h.inv.timer;
    timer_process = h.inv.timer_process;
    respawning = λ e. ground (arith, r);
    idle = w;
  };
  around = record {
    alive = h.around.alive;
    covered = h.around.covered;
    limit = h.around.limit;
    forks = h.around.forks;
  };
}

state_is-eq : (s t : JobState) → state_is s t ≡ true → s ≡ t
state_is-eq s t e = ground arith

if_moves :
    (b : Bool) (x : Option (Unit {0} × Ctx)) (y : Ctx)
    → (b ≡ true → SettledAfter x)
    → (b ≡ false → Sound y)
    → SettledAfter (if b then x else some (tt, y))
if_moves true x y h k = h refl
if_moves false x y h k = inr (k refl)

-- `job_change_goal` to start or to stop keeps a job sound, in every state: it fails no assertion, and
-- the job is gone or at rest with its invariant in force.
pub job_change_goal-Settled :
    (g : JobGoal) (c : Ctx)
    → Sound c
    → goal_is g job_respawn ≡ false
    → Ensures (λ _ d. Settled d) (job_change_goal g c)
unfolding job_change_goal change_goal_by
job_change_goal-Settled g c h r = changes (goal_is c.job.goal g)
  where
    moves :
        (g : JobGoal)
        → goal_is g job_respawn ≡ false
        → SettledAfter (goal_moves job_advance g (with_goal g c))
    moves job_start r =
        if_moves (state_is c.job.state job_waiting) _ _
          (λ w.
            job_advance-Settled _
              (goal_Released job_start c h (inl (state_is-eq c.job.state job_waiting w, refl))))
          (λ n. goal_Sound job_start c h refl (λ w. ground (arith, w, n)))
    moves job_stop r =
        if_moves (state_is c.job.state job_running) _ _
          (λ w.
            job_advance-Settled _
              (goal_Released job_stop c h (inr (state_is-eq c.job.state job_running w, refl))))
          (λ n. goal_Sound job_stop c h refl (λ w. refl))
    moves job_respawn r = cc

    changes :
        (same : Bool)
        → SettledAfter (if same then some (tt, c) else goal_moves job_advance g (with_goal g c))
    changes true = inr h
    changes false = moves g r
