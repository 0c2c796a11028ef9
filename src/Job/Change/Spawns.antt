-- ===== src/Job/Change/Spawns.antt =====
-- The phases of `job_change_state` (init/job.c) that may start a process leave the job sound.
use feature_d.Base.{
  ◌≢◌, ap, ℕ, suc, ◌<◌, Bool, true, false, if◌then◌else◌, is_some, Option, some, ◌≡◌, refl, arith,
  inr,
}
use feature_d.Process.{ProcessType, set, main, pre_start, post_start, pre_stop, post_stop, security}
use feature_d.Job.{
  job_respawn, JobState, job_waiting, job_security, job_pre_start, job_spawned, job_post_start,
  job_pre_stop, job_post_stop, goal_is,
}
use feature_d.Job.Machine.{Ctx}
use feature_d.Job.Invariant.{PidsOk, Sound, Settled, runs_main, is_passing, waits_event}
use feature_d.Job.Change.Phases.{Phase, entered, started}
use feature_d.Job.Change.{has_process}
use feature_d.Job.Change.Settles.{Moving, SettledAfter, Settles}

-- The state in which a process runs.
abbrev pub rest_of : ProcessType → JobState
rest_of main = job_spawned
rest_of pre_start = job_pre_start
rest_of post_start = job_post_start
rest_of pre_stop = job_pre_stop
rest_of post_stop = job_post_stop
rest_of security = job_security

rest_PidsOk :
    (p : ProcessType) (s : JobState) (c : Ctx)
    → Moving c
    → (0 < c.job.pid.main_slot → runs_main (rest_of p) ≡ true)
    → PidsOk (rest_of p) (entered (rest_of p) (started p (entered s c))).job.pid
rest_PidsOk main s c m runs = record {
  awaited = m.around.forks c.world.forks;
  main_ok = λ l. refl;
  security_ok = λ l. ground (arith, m.no_security);
  pre_start_ok = λ l. ground (arith, m.no_pre_start);
  post_start_ok = λ l. ground (arith, m.no_post_start);
  pre_stop_ok = λ l. ground (arith, m.no_pre_stop);
  post_stop_ok = λ l. ground (arith, m.no_post_stop);
}
rest_PidsOk pre_start s c m runs = record {
  awaited = m.around.forks c.world.forks;
  main_ok = λ l. runs l;
  security_ok = λ l. ground (arith, m.no_security);
  pre_start_ok = λ l. refl;
  post_start_ok = λ l. ground (arith, m.no_post_start);
  pre_stop_ok = λ l. ground (arith, m.no_pre_stop);
  post_stop_ok = λ l. ground (arith, m.no_post_stop);
}
rest_PidsOk post_start s c m runs = record {
  awaited = m.around.forks c.world.forks;
  main_ok = λ l. runs l;
  security_ok = λ l. ground (arith, m.no_security);
  pre_start_ok = λ l. ground (arith, m.no_pre_start);
  post_start_ok = λ l. refl;
  pre_stop_ok = λ l. ground (arith, m.no_pre_stop);
  post_stop_ok = λ l. ground (arith, m.no_post_stop);
}
rest_PidsOk pre_stop s c m runs = record {
  awaited = m.around.forks c.world.forks;
  main_ok = λ l. runs l;
  security_ok = λ l. ground (arith, m.no_security);
  pre_start_ok = λ l. ground (arith, m.no_pre_start);
  post_start_ok = λ l. ground (arith, m.no_post_start);
  pre_stop_ok = λ l. refl;
  post_stop_ok = λ l. ground (arith, m.no_post_stop);
}
rest_PidsOk post_stop s c m runs = record {
  awaited = m.around.forks c.world.forks;
  main_ok = λ l. runs l;
  security_ok = λ l. ground (arith, m.no_security);
  pre_start_ok = λ l. ground (arith, m.no_pre_start);
  post_start_ok = λ l. ground (arith, m.no_post_start);
  pre_stop_ok = λ l. ground (arith, m.no_pre_stop);
  post_stop_ok = λ l. refl;
}
rest_PidsOk security s c m runs = record {
  awaited = m.around.forks c.world.forks;
  main_ok = λ l. runs l;
  security_ok = λ l. refl;
  pre_start_ok = λ l. ground (arith, m.no_pre_start);
  post_start_ok = λ l. ground (arith, m.no_post_start);
  pre_stop_ok = λ l. ground (arith, m.no_pre_stop);
  post_stop_ok = λ l. ground (arith, m.no_post_stop);
}

pub rest_Sound :
    (p : ProcessType) (s : JobState) (c : Ctx)
    → Moving c
    → goal_is c.job.goal job_respawn ≡ false
    → (0 < c.job.pid.main_slot → runs_main (rest_of p) ≡ true)
    → has_process c.job p ≡ true
    → Sound (entered (rest_of p) (started p (entered s c)))
rest_Sound p s c m g runs known = record {
  inv = record {
    settled = rest_stays p;
    pids = rest_PidsOk p s c m runs;
    main_known = main_has p known;
    post_start_known = post_start_has p known;
    pre_stop_known = pre_stop_has p known;
    blocked = rest_blocker p (ap is_some m.free);
    timer = λ t. ground (arith, m.no_timer);
    timer_process = ground (arith, m.no_timer, m.no_kill);
    respawning = λ e. ground (arith, g);
    idle = λ e. absurd (rest_busy p e);
  };
  around = record {
    alive = m.around.alive;
    covered = m.around.covered;
    limit = m.around.limit;
    forks = m.around.forks;
  };
}
  where
    rest_stays : (p : ProcessType) → is_passing (rest_of p) ≡ false
    rest_stays p = ground arith

    rest_blocker : (p : ProcessType) {b : Bool} → b ≡ false → b ≡ waits_event (rest_of p)
    rest_blocker p e = ground arith

    main_has :
        (p : ProcessType)
        → has_process c.job p ≡ true
        → 0 < (set c.job.pid p (c.world.sys.fork c.world.forks)).main_slot
        → is_some c.job.class.process.main_slot ≡ true
    main_has main h l = h
    main_has _ h l = m.main_known l

    post_start_has :
        (p : ProcessType)
        → has_process c.job p ≡ true
        → 0 < (set c.job.pid p (c.world.sys.fork c.world.forks)).post_start_slot
        → is_some c.job.class.process.post_start_slot ≡ true
    post_start_has post_start h l = h
    post_start_has _ h l = ground (arith, m.no_post_start)

    pre_stop_has :
        (p : ProcessType)
        → has_process c.job p ≡ true
        → 0 < (set c.job.pid p (c.world.sys.fork c.world.forks)).pre_stop_slot
        → is_some c.job.class.process.pre_stop_slot ≡ true
    pre_stop_has pre_stop h l = h
    pre_stop_has _ h l = ground (arith, m.no_pre_stop)

    rest_busy : (p : ProcessType) → rest_of p ≢ job_waiting
    rest_busy p e = ground arith

if_Settled :
    (b : Bool) (x : Ctx) (r : Option (Unit {0} × Ctx))
    → (b ≡ true → Settled x)
    → (b ≡ false → SettledAfter r)
    → SettledAfter (if b then some (tt, x) else r)
if_Settled true x r h k = h refl
if_Settled false x r h k = k refl

-- A phase settles where the process that it starts leaves the job sound, and where the loop
-- settles on its way past.
pub Phase-Settles :
    (p : ProcessType) (s next : JobState) (wanted : Bool) (n : ℕ) (c : Ctx)
    → Phase p s (rest_of p) next wanted n c
    → (wanted ≡ true → Sound (entered (rest_of p) (started p (entered s c))))
    → Settles (suc n) next (entered (rest_of p) (entered s c))
    → Settles (suc (suc (suc n))) s c
Phase-Settles p s next wanted n c e h k = rw e (if_Settled wanted _ _ (λ w. inr (h w)) (λ w. k))
