-- ===== src/Job/Ended/Terminated.antt =====
-- `job_process_terminated` of init/job_process.c keeps a job sound.
use mathlib.Core.Path.{subst}
use feature_d.Base.{
  ℕ, ◌<◌, Bool, true, false, ◌||◌, if◌then◌else◌, Option, none, some, ◌≡◌, refl, ◌∙◌, arith, inl,
  inr, Bool-cases,
}
use feature_d.Process.{ProcessType, get, main, pre_start, post_start, pre_stop, post_stop, security}
use feature_d.Job.{
  JobState, job_running, job_spawned, job_stopping, job_killed, job_post_start, job_pre_stop,
  state_is,
}
use feature_d.Job.Machine.{Ctx, Ensures}
use feature_d.Job.Invariant.{Awaited, Sound, Settled, runs_main, is_passing}
use feature_d.Job.Change.Settles.{SettledAfter}
use feature_d.Job.Ended.{
  Verdict, main_ended, script_ended, process_ended, follow, unconfirmed, job_process_terminated,
}
use feature_d.Job.Ended.Follow.{follow-Loose, follow-Sound, goes_on}
use feature_d.Job.Ended.Cleared.{cleared, cleared-Loose, cleared-Sound, leaves_with, stays_without}
use feature_d.Job.Ended.Judged.{Judged, moves_on, main_ended-Judged, script_ended-Judged}

-- What follows the `switch`.
abbrev ends_with : ProcessType → ℕ → Option (Verdict × Ctx) → Option (Unit {0} × Ctx)
ends_with p status r = elim r [ none ↦ none | some (v, d) ↦ follow false p status v (cleared p d) ]

if_false : {A : Type 0} (b : Bool) (x y : A) → b ≡ false → (if b then x else y) ≡ y
if_false b x y e = rw e refl

confirmed : (s : JobState) → is_passing s ≡ false → unconfirmed s ≡ false
confirmed s e = ground arith

terminated_ends :
    (p : ProcessType) (status : ℕ) (c : Ctx)
    → is_passing c.job.state ≡ false
    → job_process_terminated p status false c ≡ ends_with p status (process_ended p status c)
unfolding job_process_terminated
terminated_ends p status c e = if_false (unconfirmed c.job.state) _ _ (confirmed c.job.state e)

Judged-ends :
    (p : ProcessType) (status : ℕ) (state : Bool) (c : Ctx) (r : Option (Verdict × Ctx))
    → Judged state c r
    → ((v : Verdict) (d : Ctx)
        → Sound d
        → d.job.state ≡ c.job.state
        → v.state ≡ state
        → SettledAfter (follow false p status v (cleared p d)))
    → SettledAfter (ends_with p status r)
Judged-ends p status state c none h k = absurd h
Judged-ends p status state c (some (v, d)) h k = k v d h.0 h.1 h.2

script_follows :
    (p : ProcessType) (status : ℕ) (v : Verdict) (d : Ctx)
    → Sound d
    → leaves_with p d.job.state ≡ true
    → state_is d.job.state job_running ≡ false
    → v.state ≡ true
    → SettledAfter (follow false p status v (cleared p d))
script_follows p status v d h l n e =
    follow-Loose p status v (cleared p d) (cleared-Loose p d h l) e (inr n)

main_follows :
    (status : ℕ) (v : Verdict) (c d : Ctx)
    → Sound c
    → Sound d
    → d.job.state ≡ c.job.state
    → runs_main c.job.state ≡ true
    → v.state ≡ moves_on c.job
    → SettledAfter (follow false main status v (cleared main d))
main_follows status v c d h k same r e = go c.job.state refl
  where
    stays :
        stays_without d.job.state ≡ true
        → goes_on v.stop v.state (cleared main d) ≡ false
        → SettledAfter (follow false main status v (cleared main d))
    stays l g = follow-Sound main status v (cleared main d) (cleared-Sound d k l) g

    still : v.state ≡ false → goes_on v.stop v.state (cleared main d) ≡ false
    still f = rw f refl

    busy_post_start : c.job.state ≡ job_post_start → moves_on c.job ≡ false
    busy_post_start q =
        let l = subst (λ s. Awaited s c.job.pid) q h.inv.pids.awaited in
        ground (arith, q, l, h.inv.post_start_known l)

    busy_pre_stop : c.job.state ≡ job_pre_stop → moves_on c.job ≡ false
    busy_pre_stop q =
        let l = subst (λ s. Awaited s c.job.pid) q h.inv.pids.awaited in
        ground (arith, q, l, h.inv.pre_stop_known l)

    moves :
        (s : JobState)
        → c.job.state ≡ s
        → state_is s job_running || state_is s job_spawned || state_is s job_killed ≡ true
        → v.state ≡ true
    moves s q l = ground (arith, e, q, l)

    go :
        (s : JobState)
        → c.job.state ≡ s
        → SettledAfter (follow false main status v (cleared main d))
    go job_spawned q =
        script_follows main status v d k (rw (same, q) refl) (rw (same, q) refl)
          (moves job_spawned q refl)
    go job_killed q =
        script_follows main status v d k (rw (same, q) refl) (rw (same, q) refl)
          (moves job_killed q refl)
    go job_stopping q = stays (rw (same, q) refl) (still (ground (arith, e, q)))
    go job_post_start q = stays (rw (same, q) refl) (still (e ∙ busy_post_start q))
    go job_pre_stop q = stays (rw (same, q) refl) (still (e ∙ busy_pre_stop q))
    go job_running q = elim (Bool-cases v.stop) [
      | inl s ↦ stays (rw (same, q) refl) (ground (arith, same, q, s))
      | inr n ↦
          follow-Loose main status v (cleared main d) (cleared-Loose main d k (rw (same, q) refl))
            (moves job_running q refl) (inl n)
    ]
    go _ q = ground (arith, q, r)

script_terminated :
    (p : ProcessType) (status : ℕ) (c : Ctx) (allowed bad : Bool)
    → Sound c
    → process_ended p status c ≡ script_ended allowed bad c
    → allowed ≡ true
    → leaves_with p c.job.state ≡ true
    → state_is c.job.state job_running ≡ false
    → SettledAfter (job_process_terminated p status false c)
script_terminated p status c allowed bad h q a l n =
    rw (terminated_ends p status c h.inv.settled, q)
      (Judged-ends p status true c (script_ended allowed bad c)
        (script_ended-Judged bad allowed c h a)
        (λ v d k s t. script_follows p status v d k (rw s l) (rw s n) t))

-- When a process of a sound job has ended, `job_process_terminated` fails no assertion, whatever
-- the process, its exit status, the state and the goal: the job is gone, or at rest with its
-- invariant in force. The process ran.
pub job_process_terminated-Settled :
    (p : ProcessType) (status : ℕ) (c : Ctx)
    → Sound c
    → 0 < get c.job.pid p
    → Ensures (λ _ d. Settled d) (job_process_terminated p status false c)
unfolding process_ended
job_process_terminated-Settled main status c h r =
    rw (terminated_ends main status c h.inv.settled) (
      Judged-ends main status (moves_on c.job) c (main_ended status c)
        (main_ended-Judged status c h (h.inv.pids.main_ok r))
        (λ v d k s t. main_follows status v c d h k s (h.inv.pids.main_ok r) t))
job_process_terminated-Settled security status c h r =
    let q = h.inv.pids.security_ok r in
    script_terminated security status c _ _ h refl (rw q refl) (rw q refl) (rw q refl)
job_process_terminated-Settled pre_start status c h r =
    let q = h.inv.pids.pre_start_ok r in
    script_terminated pre_start status c _ _ h refl (rw q refl) (rw q refl) (rw q refl)
job_process_terminated-Settled post_start status c h r =
    let q = h.inv.pids.post_start_ok r in
    script_terminated post_start status c _ _ h refl (rw q refl) (rw q refl) (rw q refl)
job_process_terminated-Settled pre_stop status c h r =
    let q = h.inv.pids.pre_stop_ok r in
    script_terminated pre_stop status c _ _ h refl (rw q refl) (rw q refl) (rw q refl)
job_process_terminated-Settled post_stop status c h r =
    let q = h.inv.pids.post_stop_ok r in
    script_terminated post_stop status c _ _ h refl (rw q refl) (rw q refl) (rw q refl)
