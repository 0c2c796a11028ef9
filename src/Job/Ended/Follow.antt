-- ===== src/Job/Ended/Follow.antt =====
-- What `job_process_terminated` (init/job_process.c) does with its flags ends well.
use feature_d.Base.{
  ℕ, Bool, true, false, not, ◌&&◌, Option, none, some, ◌≡◌, refl, arith, ◌⊎◌, inl, inr,
}
use feature_d.Process.{ProcessType}
use feature_d.Job.{pos, job_stop, job_running, state_is}
use feature_d.Job.Machine.{Ctx, Ensures, assert, ◌>>◌}
use feature_d.Job.Invariant.{Sound, Settled}
use feature_d.Job.Change.{job_change_goal}
use feature_d.Job.Change.Settles.{SettledAfter}
use feature_d.Job.Change.Handlers.{job_change_goal-Settled}
use feature_d.Job.Ended.{Verdict, fail_if, stop_if, advance_if, follow}
use feature_d.Job.Ended.Kept.{Loose, advance_Loose, job_failed-Loose, job_failed-Sound, stop-Loose}

-- A step, and what follows from what it ensures.
after :
    (P : Ctx → Type 0) (r : Option (Unit {0} × Ctx)) (k : Ctx → Option (Unit {0} × Ctx))
    → Ensures (λ _ d. P d) r
    → ((d : Ctx) → P d → SettledAfter (k d))
    → SettledAfter (elim r [ none ↦ none | some (u, d) ↦ k d ])
after P none k h f = absurd h
after P (some (u, d)) k h f = f d h

abbrev Fine : (Ctx → Type 0) → Ctx → Ctx → Type 0
Fine P c d = P d × (d.job.state ≡ c.job.state)

fail_if-Loose :
    (b : Bool) (p : ProcessType) (status : ℕ) (c : Ctx)
    → Loose c
    → Ensures (λ _ d. Fine Loose c d) (fail_if b p status c)
fail_if-Loose true p status c h = job_failed-Loose (some p) (pos status) c h
fail_if-Loose false p status c h = (h, refl)

fail_if-Sound :
    (b : Bool) (p : ProcessType) (status : ℕ) (c : Ctx)
    → Sound c
    → Ensures (λ _ d. Fine Sound c d) (fail_if b p status c)
fail_if-Sound true p status c h = job_failed-Sound (some p) (pos status) c h
fail_if-Sound false p status c h = (h, refl)

-- The steps behind the failure.
abbrev rest : Bool → Bool → Ctx → Option (Unit {0} × Ctx)
rest stop go d = elim (stop_if stop d) [ none ↦ none | some (u, e) ↦ advance_if go e ]

abbrev pub goes_on : Bool → Bool → Ctx → Bool
goes_on stop state d = state && not (stop && state_is d.job.state job_running)

rest-Loose :
    (stop : Bool) (d : Ctx)
    → Loose d
    → (stop ≡ false) ⊎ (state_is d.job.state job_running ≡ false)
    → SettledAfter (rest stop true d)
rest-Loose false d h r = advance_Loose d h
rest-Loose true d h (inl r) = cc
rest-Loose true d h (inr r) =
    after Loose (job_change_goal job_stop d) _ (stop-Loose d h r) (λ e l. advance_Loose e l)

rest-Sound : (stop : Bool) (d : Ctx) → Sound d → SettledAfter (rest stop false d)
rest-Sound false d h = inr h
rest-Sound true d h =
    after Settled (job_change_goal job_stop d) _ (job_change_goal-Settled job_stop d h refl)
      (λ e l. l)

rest_same :
    (stop go go' : Bool) (d : Ctx)
    → go ≡ go'
    → SettledAfter (rest stop go' d)
    → SettledAfter (rest stop go d)
rest_same stop true true d e h = h
rest_same stop false false d e h = h
rest_same stop true false d e h = cc
rest_same stop false true d e h = cc

steps :
    (r : Option (Unit {0} × Ctx)) (stop state failed : Bool)
    → elim r [
      | none ↦ none
      | some (u, d) ↦
          (assert (not (false && stop && failed)) >> λ e.
          (stop_if (stop && not false)
              >> advance_if
                  (state && not ((stop && not false) && state_is e.job.state job_running)))
            e)
            d
    ]
      ≡ elim r [ none ↦ none | some (u, d) ↦ rest stop (goes_on stop state d) d ]
steps none stop state failed = refl
steps (some (u, d)) true state failed = refl
steps (some (u, d)) false state failed = refl

follow_steps :
    (p : ProcessType) (status : ℕ) (v : Verdict) (c : Ctx)
    → follow false p status v c ≡ elim (fail_if v.failed p status c) [
      | none ↦ none
      | some (u, d) ↦ rest v.stop (goes_on v.stop v.state d) d
    ]
unfolding follow
follow_steps p status v c = steps (fail_if v.failed p status c) v.stop v.state v.failed

goes :
    (stop state : Bool) (d : Ctx)
    → state ≡ true
    → (stop ≡ false) ⊎ (state_is d.job.state job_running ≡ false)
    → goes_on stop state d ≡ true
goes stop state d e (inl r) = rw (e, r) refl
goes stop state d e (inr r) = ground (arith, e, r)

-- A job that is ready to move is moved, unless it runs and has been stopped.
pub follow-Loose :
    (p : ProcessType) (status : ℕ) (v : Verdict) (c : Ctx)
    → Loose c
    → v.state ≡ true
    → (v.stop ≡ false) ⊎ (state_is c.job.state job_running ≡ false)
    → SettledAfter (follow false p status v c)
follow-Loose p status v c h t r = rw (follow_steps p status v c) (
    after (Fine Loose c) (fail_if v.failed p status c) _ (fail_if-Loose v.failed p status c h)
      (λ d l.
        rest_same v.stop _ true d (goes v.stop v.state d t (still d l.1 r))
          (rest-Loose v.stop d l.0 (still d l.1 r))))
  where
    still :
        (d : Ctx)
        → d.job.state ≡ c.job.state
        → (v.stop ≡ false) ⊎ (state_is c.job.state job_running ≡ false)
        → (v.stop ≡ false) ⊎ (state_is d.job.state job_running ≡ false)
    still d e (inl r) = inl r
    still d e (inr r) = inr (rw e r)

-- A job that is at rest stays so where the flags do not move it.
pub follow-Sound :
    (p : ProcessType) (status : ℕ) (v : Verdict) (c : Ctx)
    → Sound c
    → goes_on v.stop v.state c ≡ false
    → SettledAfter (follow false p status v c)
follow-Sound p status v c h r = rw (follow_steps p status v c) (
    after (Fine Sound c) (fail_if v.failed p status c) _ (fail_if-Sound v.failed p status c h)
      (λ d l. rest_same v.stop _ false d (rw l.1 r) (rest-Sound v.stop d l.0)))
