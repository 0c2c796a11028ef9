-- ===== src/Job/Ended/Cleared.antt =====
-- The job once the process that ended has been taken off it (`job_process_terminated` of
-- init/job_process.c).
use feature_d.Base.{
  ℕ, zero, suc, ◌<◌, Bool, true, false, ◌||◌, if◌then◌else◌, is_some, Option, none, some, ◌≡◌, ◌≢◌,
  refl, arith, ◌⊎◌, inl, inr,
}
use feature_d.Process.{
  ProcessType, Table, get, set, main, pre_start, post_start, pre_stop, post_stop, security,
}
use feature_d.Job.{
  JobState, job_waiting, job_running, job_spawned, job_stopping, job_killed, job_post_start,
  job_pre_stop, job_security, job_pre_start, job_post_stop, state_is,
}
use feature_d.Job.Machine.{Ctx}
use feature_d.Job.Invariant.{Awaited, Sound, waits_event}
use feature_d.Job.Change.Spawns.{rest_of}
use feature_d.Job.Change.Handlers.{none_of}
use feature_d.Job.Ended.{clear_process}
use feature_d.Job.Ended.Kept.{Loose}

abbrev pub cleared : ProcessType → Ctx → Ctx
cleared p d = record d { job = clear_process false p d.job }

-- The states that a job leaves when the process has ended.
abbrev pub leaves_with : ProcessType → JobState → Bool
leaves_with main s = state_is s job_running || state_is s job_spawned || state_is s job_killed
leaves_with pre_start s = state_is s job_pre_start
leaves_with post_start s = state_is s job_post_start
leaves_with pre_stop s = state_is s job_pre_stop
leaves_with post_stop s = state_is s job_post_stop
leaves_with security s = state_is s job_security

abbrev is_script : ProcessType → Bool
is_script main = false
is_script _ = true

get-set_zero : (t : Table ℕ) (p q : ProcessType) → get t q ≡ 0 → get (set t p 0) q ≡ 0
get-set_zero t p q z = ground arith

get-set_own : (t : Table ℕ) (p : ProcessType) → get (set t p 0) p ≡ 0
get-set_own t p = ground arith

leaves_own :
    (p q : ProcessType) (s : JobState)
    → leaves_with p s ≡ true
    → is_script q ≡ true
    → s ≡ rest_of q
    → p ≡ q
leaves_own p q s l n e = ground arith

slot_gone :
    (t : Table ℕ) (p q : ProcessType) (s : JobState)
    → leaves_with p s ≡ true
    → is_script q ≡ true
    → (0 < get t q → s ≡ rest_of q)
    → get (set t p 0) q ≡ 0
slot_gone t p q s l n o = go (zero_or (get t q) o)
  where
    zero_or : (n : ℕ) → (0 < n → s ≡ rest_of q) → (n ≡ 0) ⊎ (s ≡ rest_of q)
    zero_or zero o = inl refl
    zero_or (suc n) o = inr (o (ground arith))

    go : (get t q ≡ 0) ⊎ (s ≡ rest_of q) → get (set t p 0) q ≡ 0
    go (inl z) = get-set_zero t p q z
    go (inr e) = rw (leaves_own p q s l n e) (get-set_own t q)

-- What is left of a table of which the main slot is known.
main_left : (t : Table ℕ) (p : ProcessType) → 0 < (set t p 0).main_slot → 0 < t.main_slot
main_left t p l = ground arith

kill_left :
    (t : Option ℕ) {k : Option ProcessType}
    → k ≡ (if is_some t then some main else none)
    → (if is_some t then none else k) ≡ none
kill_left none e = e
kill_left (some t) e = refl

pub cleared-Loose :
    (p : ProcessType) (d : Ctx) → Sound d → leaves_with p d.job.state ≡ true → Loose (cleared p d)
cleared-Loose p d h l = record {
  moving = record {
    around = record {
      alive = h.around.alive;
      covered = h.around.covered;
      limit = h.around.limit;
      forks = h.around.forks;
    };
    free = none_of d.job.blocker (λ b. blocked_not p d.job.state (ground (arith, h.inv.blocked)) l);
    no_timer = refl;
    no_kill = kill_left d.job.kill_timer h.inv.timer_process;
    no_security = slot_gone d.job.pid p security d.job.state l refl h.inv.pids.security_ok;
    no_pre_start = slot_gone d.job.pid p pre_start d.job.state l refl h.inv.pids.pre_start_ok;
    no_post_start = slot_gone d.job.pid p post_start d.job.state l refl h.inv.pids.post_start_ok;
    no_pre_stop = slot_gone d.job.pid p pre_stop d.job.state l refl h.inv.pids.pre_stop_ok;
    no_post_stop = slot_gone d.job.pid p post_stop d.job.state l refl h.inv.pids.post_stop_ok;
    main_known = λ m. h.inv.main_known (main_left d.job.pid p m);
  };
  rests = h.inv.settled;
  main_ok = λ m. h.inv.pids.main_ok (main_left d.job.pid p m);
  killed = λ k. killed_gone p d.job.state l k;
  respawning = h.inv.respawning;
  busy = λ w. waits_not p d.job.state l w;
}
  where
    blocked_not :
        (p : ProcessType) (s : JobState) → waits_event s ≡ true → leaves_with p s ≡ true → ⊥
    blocked_not p s w l = ground arith

    killed_gone :
        (p : ProcessType) (s : JobState)
        → leaves_with p s ≡ true
        → s ≡ job_killed
        → (set d.job.pid p 0).main_slot ≡ 0
    killed_gone main s l k = refl
    killed_gone _ s l k = ground arith

    waits_not : (p : ProcessType) (s : JobState) → leaves_with p s ≡ true → s ≢ job_waiting
    waits_not p s l w = ground arith

-- The states in which a job stays when its main process has ended.
abbrev pub stays_without : JobState → Bool
stays_without s =
    state_is s job_running
    || state_is s job_stopping
    || state_is s job_post_start
    || state_is s job_pre_stop

pub cleared-Sound : (d : Ctx) → Sound d → stays_without d.job.state ≡ true → Sound (cleared main d)
cleared-Sound d h l = record {
  inv = record {
    settled = h.inv.settled;
    pids = record {
      awaited = awaits d.job.state l h.inv.pids.awaited;
      main_ok = λ m. ground arith;
      security_ok = h.inv.pids.security_ok;
      pre_start_ok = h.inv.pids.pre_start_ok;
      post_start_ok = h.inv.pids.post_start_ok;
      pre_stop_ok = h.inv.pids.pre_stop_ok;
      post_stop_ok = h.inv.pids.post_stop_ok;
    };
    main_known = λ m. ground arith;
    post_start_known = h.inv.post_start_known;
    pre_stop_known = h.inv.pre_stop_known;
    blocked = h.inv.blocked;
    timer = λ t. ground arith;
    timer_process = kill_left d.job.kill_timer h.inv.timer_process;
    respawning = h.inv.respawning;
    idle = h.inv.idle;
  };
  around = record {
    alive = h.around.alive;
    covered = h.around.covered;
    limit = h.around.limit;
    forks = h.around.forks;
  };
}
  where
    awaits :
        (s : JobState)
        → stays_without s ≡ true
        → Awaited s d.job.pid
        → Awaited s (set d.job.pid main 0)
    awaits job_running l a = tt
    awaits job_stopping l a = tt
    awaits job_post_start l a = a
    awaits job_pre_stop l a = a
    awaits _ l a = cc
