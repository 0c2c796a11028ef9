-- ===== src/Job/ChildError/Kept.antt =====
-- What a process that could not be set up leaves of its job (job_child_error_handler of init/job.c).
use feature_d.Base.{Bool, true, false, if◌then◌else◌, Option, none, some, ◌≡◌, refl, ◌∙◌, arith}
use feature_d.Process.{ProcessType, get, main, pre_start, post_start, pre_stop, post_stop, security}
use feature_d.Job.{
  JobState, job_stop, job_security, job_spawned, job_running, state_is, goal_is, negsuc,
}
use feature_d.Job.Machine.{M, Ctx, Ensures, ◌>>◌}
use feature_d.Job.Invariant.{Sound, Settled}
use feature_d.Job.Finished.{job_failed}
use feature_d.Job.Change.{job_advance, job_change_goal, change_goal_by}
use feature_d.Job.Change.Settles.{SettledAfter}
use feature_d.Job.Change.Released.{Moving-with_goal}
use feature_d.Job.Change.Handlers.{none_of, zero_of, untimed}
use feature_d.Job.Ended.Kept.{Loose, advance_Loose, job_failed-Loose}
use feature_d.Job.Ended.Cleared.{leaves_with, cleared-Loose}
use feature_d.Job.ChildError.{lost, fail_and_stop, job_child_error_handler}

-- The states in which the setup of a process may go wrong.
abbrev pub sets_up : ProcessType → JobState → Bool
sets_up main s = state_is s job_spawned
sets_up p s = leaves_with p s

sets_up-leaves_with : (p : ProcessType) (s : JobState) → sets_up p s ≡ true → leaves_with p s ≡ true
sets_up-leaves_with p s e = ground arith

lost-Loose : (p : ProcessType) (c : Ctx) → Sound c → sets_up p c.job.state ≡ true → Loose (lost p c)
lost-Loose p c h e =
    let l = cleared-Loose p c h (sets_up-leaves_with p c.job.state e) in
    let quiet : c.job.kill_timer ≡ none =
      none_of c.job.kill_timer (λ t. ground (arith, e, h.inv.timer t)) in
    record {
      moving = record {
        around = record {
          alive = l.moving.around.alive;
          covered = l.moving.around.covered;
          limit = l.moving.around.limit;
          forks = l.moving.around.forks;
        };
        free = l.moving.free;
        no_timer = quiet;
        no_kill = untimed c h quiet;
        no_security = l.moving.no_security;
        no_pre_start = l.moving.no_pre_start;
        no_post_start = l.moving.no_post_start;
        no_pre_stop = l.moving.no_pre_stop;
        no_post_stop = l.moving.no_post_stop;
        main_known = l.moving.main_known;
      };
      rests = l.rests;
      main_ok = l.main_ok;
      killed = l.killed;
      respawning = l.respawning;
      busy = l.busy;
    }

-- The job is ready to move, in the state that it was in.
abbrev Still : Ctx → Ctx → Type 0
Still c d = Loose d × (d.job.state ≡ c.job.state)

if_Still :
    (c : Ctx) (b : Bool) (x y : Option (Unit {0} × Ctx))
    → Ensures (λ _ d. Still c d) x
    → Ensures (λ _ d. Still c d) y
    → Ensures (λ _ d. Still c d) (if b then x else y)
if_Still c true x y h k = h
if_Still c false x y h k = k

stop-Still :
    (c d : Ctx)
    → Still c d
    → state_is d.job.state job_running ≡ false
    → Ensures (λ _ e. Still c e) (job_change_goal job_stop d)
unfolding job_change_goal change_goal_by
stop-Still c d h r = if_Still c (goal_is d.job.goal job_stop) _ _ h (
    rw r (
      record {
        moving = Moving-with_goal job_stop d h.0.moving;
        rests = h.0.rests;
        main_ok = h.0.main_ok;
        killed = h.0.killed;
        respawning = λ e. ground arith;
        busy = h.0.busy;
      },
      h.1,
    ))

then-Ensures :
    {P : Ctx → Type 0} (Q : Ctx → Type 0) (r : Option (Unit {0} × Ctx)) (k : M (Unit {0}))
    → Ensures (λ _ d. P d) r
    → ((d : Ctx) → P d → Ensures (λ _ e. Q e) (k d))
    → Ensures (λ _ e. Q e) (elim r [ none ↦ none | some (u, d) ↦ k d ])
then-Ensures Q none k h f = h
then-Ensures Q (some (u, d)) k h f = f d h

fail_and_stop-Still :
    (p : ProcessType) (c : Ctx)
    → Loose c
    → state_is c.job.state job_running ≡ false
    → Ensures (λ _ d. Still c d) (fail_and_stop p c)
unfolding fail_and_stop
fail_and_stop-Still p c h r =
    then-Ensures (Still c) (job_failed (some p) (negsuc 0) c) (job_change_goal job_stop)
      (job_failed-Loose (some p) (negsuc 0) c h) λ d k. stop-Still c d k (rw k.1 r)

fails_and_moves :
    (p : ProcessType) (c : Ctx)
    → Loose c
    → state_is c.job.state job_running ≡ false
    → SettledAfter ((fail_and_stop p >> job_advance) c)
fails_and_moves p c h r =
    then-Ensures Settled (fail_and_stop p c) job_advance (fail_and_stop-Still p c h r)
      λ d k. advance_Loose d k.0

-- When a process other than that of the AppArmor profile could not be set up, its job fails no
-- assertion: it is gone, or at rest with its invariant in force. The job is sound, in the state in
-- which it waits for the process.
pub child_error-Settled :
    (p : ProcessType) (c : Ctx)
    → Sound c
    → sets_up p c.job.state ≡ true
    → state_is c.job.state job_security ≡ false
    → Ensures (λ _ d. Settled d) (job_child_error_handler p c)
unfolding job_child_error_handler
child_error-Settled main c h e n = fails_and_moves main _ (lost-Loose main c h e) (ground arith)
child_error-Settled pre_start c h e n =
    fails_and_moves pre_start _ (lost-Loose pre_start c h e) (ground arith)
child_error-Settled post_stop c h e n =
    fails_and_moves post_stop _ (lost-Loose post_stop c h e) (ground arith)
child_error-Settled post_start c h e n = advance_Loose _ (lost-Loose post_start c h e)
child_error-Settled pre_stop c h e n = advance_Loose _ (lost-Loose pre_stop c h e)
child_error-Settled security c h e n = cc

-- A job that waits in a state for a process of which it has none.
abbrev pub IsStuck : Ctx → Type 0
IsStuck d =
    (d.job.state ≡ job_security)
    × (d.job.blocker ≡ none)
    × (d.job.kill_timer ≡ none)
    × ((p : ProcessType) → get d.job.pid p ≡ 0)

-- When the process that loads the AppArmor profile could not be set up, the job stays in the state
-- `security` with no process, no event and no timer that would move it on.
pub child_error-security :
    (c : Ctx)
    → Sound c
    → c.job.state ≡ job_security
    → Ensures (λ _ d. IsStuck d) (job_child_error_handler security c)
unfolding job_child_error_handler
child_error-security c h s = weaken (fail_and_stop security (lost security c)) (
    fail_and_stop-Still security (lost security c) (lost-Loose security c h (rw s refl))
      (rw s refl))
  where
    no_main : (d : Ctx) → Still (lost security c) d → d.job.pid.main_slot ≡ 0
    no_main d k = zero_of d.job.pid.main_slot λ l. ground (arith, k.0.main_ok l, k.1, s)

    none_runs : (d : Ctx) → Still (lost security c) d → (p : ProcessType) → get d.job.pid p ≡ 0
    none_runs d k main = no_main d k
    none_runs d k pre_start = k.0.moving.no_pre_start
    none_runs d k post_start = k.0.moving.no_post_start
    none_runs d k pre_stop = k.0.moving.no_pre_stop
    none_runs d k post_stop = k.0.moving.no_post_stop
    none_runs d k security = k.0.moving.no_security

    weaken :
        (r : Option (Unit {0} × Ctx))
        → Ensures (λ _ d. Still (lost security c) d) r
        → Ensures (λ _ d. IsStuck d) r
    weaken none k = k
    weaken (some (u, d)) k = (k.1 ∙ s, k.0.moving.free, k.0.moving.no_timer, none_runs d k)
