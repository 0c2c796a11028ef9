-- ===== src/Quiesce/Steps.antt =====
-- What a call of the timer (init/quiesce.c) leaves to be done before the session ends.
use mathlib.Core.Path.{subst}
use feature_d.Base.{
  ℕ, zero, suc, ◌+◌, ◌-◌, ◌≤◌, ◌<◌, ◌==◌, ltb, Bool, true, false, not, if◌then◌else◌, Option, none,
  some, List, [], ◌∷◌, ◌≡◌, refl, sym, ◌⊎◌, inl, inr, arith,
}
use feature_d.Job.{Job}
use feature_d.Quiesce.{
  QuiesceRequester, QuiescePhase, not_quiesced, phase_wait, phase_kill, phase_cleanup, Quiesce,
  Seen, greatest_timeout, job_class_max_kill_timeout, job_process_jobs_running, kill_phase, finish,
  finish_if, wait_over, callback_phase, quiesce_wait_callback,
}

-- The main loop has been told to exit, and the timer is gone.
pub record Ended (q : Quiesce) : Type 0 where
  pub ended : q.phase ≡ phase_cleanup
  pub exits : q.finalising ≡ true
  pub no_timer : q.timer ≡ false

unfoldable pub PhaseLeft : QuiescePhase → ℕ → ℕ → ℕ → Quiesce → Type 0
PhaseLeft phase_wait b t n q = (t ≤ q.phase_time + 5) × (q.phase_time + b + 7 ≤ t + n)
PhaseLeft phase_kill b t n q =
    (0 < q.max_kill_timeout) × (q.phase_time + q.max_kill_timeout < t + n)
PhaseLeft p b t n q = ⊥

-- At the time `t` at most `n` calls of the timer are left before the last one, where no timeout is
-- above `b`.
pub record Left (b t n : ℕ) (q : Quiesce) : Type 0 where
  pub timed : q.timer ≡ true
  pub asked : (r : QuiesceRequester) × (q.requester ≡ some r)
  pub clocked : 0 < q.phase_time
  pub started : 0 < q.start_time
  pub left : PhaseLeft q.phase b t n q

abbrev pub Next : ℕ → ℕ → ℕ → Quiesce → Type 0
Next b now zero q = Ended q
Next b now (suc n) q = Ended q ⊎ Left b now n q

abbrev pub Goes : ℕ → ℕ → ℕ → Option Quiesce → Type 0
Goes b now n none = ⊥
Goes b now n (some q) = Next b now n q

pub max_pos : (m : ℕ) (js : List Job) → 0 < m → 0 < greatest_timeout m js
unfolding greatest_timeout
max_pos m [] h = h
max_pos m (j ∷ js) h =
    max_pos (if ltb m j.class.kill_timeout then j.class.kill_timeout else m) js (ground arith)

Next-Ended : (b now n : ℕ) (q : Quiesce) → Ended q → Next b now n q
Next-Ended b now zero q e = e
Next-Ended b now (suc n) q e = inl e

finish_lem :
    (q : Quiesce)
    → 0 < q.start_time
    → finish q ≡ some (record q { phase = phase_cleanup; finalising = true; timer = false })
finish_lem q h = ground arith

finish-Goes : (b now n : ℕ) (q : Quiesce) → 0 < q.start_time → Goes b now n (finish q)
finish-Goes b now n q h =
    subst (Goes b now n) (sym (finish_lem q h))
      (Next-Ended b now n _ (record { ended = refl; exits = refl; no_timer = refl }))

-- A tick that does not end the session leaves one call fewer.
finish_if-Goes :
    (b now n : ℕ) (c : Bool) (q : Quiesce)
    → 0 < q.start_time
    → (c ≡ false → Next b now n q)
    → Goes b now n (finish_if c q)
finish_if-Goes b now n true q h k = finish-Goes b now n q h
finish_if-Goes b now n false q h k = k refl

if-Goes :
    (b now n : ℕ) (c : Bool) (x y : Option Quiesce)
    → (c ≡ true → Goes b now n x)
    → (c ≡ false → Goes b now n y)
    → Goes b now n (if c then x else y)
if-Goes b now n true x y h k = h refl
if-Goes b now n false x y h k = k refl

kill-Goes :
    (b t now n : ℕ) (seen : Seen) (q : Quiesce)
    → q.phase ≡ phase_kill
    → PhaseLeft phase_kill b t n q
    → Left b t n q
    → t < now
    → Goes b now n (callback_phase phase_kill now seen q)
unfolding callback_phase PhaseLeft
kill-Goes b t now n seen q e (pos, w) l h =
    if-Goes b now n (q.max_kill_timeout == 0) _ _ (λ z. absurd (ground arith))
      (λ z.
        if-Goes b now n (ltb q.max_kill_timeout (now - q.phase_time)) _ _
          (λ o. finish-Goes b now n q l.started)
          (λ o.
            finish_if-Goes b now n (not (job_process_jobs_running seen.jobs)) q l.started
              (λ r. stays n w o)))
  where
    stays :
        (n : ℕ)
        → q.phase_time + q.max_kill_timeout < t + n
        → ltb q.max_kill_timeout (now - q.phase_time) ≡ false
        → Next b now n q
    stays zero w o = absurd (ground arith)
    stays (suc n) w o = inr (record {
      timed = l.timed;
      asked = l.asked;
      clocked = l.clocked;
      started = l.started;
      left = subst (λ x. PhaseLeft x b now n q) (sym e) (pos, ground arith);
    })

wait-Goes :
    (b t now n : ℕ) (seen : Seen) (q : Quiesce)
    → q.phase ≡ phase_wait
    → PhaseLeft phase_wait b t n q
    → Left b t n q
    → t < now
    → job_class_max_kill_timeout seen.jobs ≤ b
    → Goes b now n (callback_phase phase_wait now seen q)
unfolding callback_phase PhaseLeft job_class_max_kill_timeout
wait-Goes b t now n seen q e (w, v) l h m =
    if-Goes b now n (wait_over now (job_process_jobs_running seen.jobs) q) _ _
      (λ o.
        finish_if-Goes b now n (not (job_process_jobs_running seen.stopped)) _ l.started
          (λ r. killed n v))
      (λ o.
        finish_if-Goes b now n (not (job_process_jobs_running seen.jobs)) q l.started
          (λ r. waits n v o))
  where
    killed : (n : ℕ) → q.phase_time + b + 7 ≤ t + n → Next b now n (kill_phase now seen q)
    killed zero v = absurd (ground arith)
    killed (suc n) v = inr (record {
      timed = l.timed;
      asked = l.asked;
      clocked = ground arith;
      started = l.started;
      left = (max_pos 5 seen.jobs (ground arith), ground arith);
    })

    waits :
        (n : ℕ)
        → q.phase_time + b + 7 ≤ t + n
        → wait_over now (job_process_jobs_running seen.jobs) q ≡ false
        → Next b now n q
    waits zero v o = absurd (ground arith)
    waits (suc n) v o = inr (record {
      timed = l.timed;
      asked = l.asked;
      clocked = l.clocked;
      started = l.started;
      left = subst (λ x. PhaseLeft x b now n q) (sym e) (ground arith, ground arith);
    })

phase-Goes :
    (b t now n : ℕ) (p : QuiescePhase) (seen : Seen) (q : Quiesce)
    → q.phase ≡ p
    → PhaseLeft p b t n q
    → Left b t n q
    → t < now
    → job_class_max_kill_timeout seen.jobs ≤ b
    → Goes b now n (callback_phase p now seen q)
unfolding PhaseLeft
phase-Goes b t now n phase_wait seen q e w l h m = wait-Goes b t now n seen q e w l h m
phase-Goes b t now n phase_kill seen q e w l h m = kill-Goes b t now n seen q e w l h
phase-Goes b t now n not_quiesced seen q e w l h m = absurd w
phase-Goes b t now n phase_cleanup seen q e w l h m = absurd w

pub callback-Goes :
    (b t now n : ℕ) (seen : Seen) (q : Quiesce)
    → Left b t n q
    → t < now
    → job_class_max_kill_timeout seen.jobs ≤ b
    → Goes b now n (quiesce_wait_callback now seen q)
unfolding quiesce_wait_callback
callback-Goes b t now n seen q l h m =
    if-Goes b now n (q.phase_time == 0) _ _ (λ z. absurd (clock l.clocked z))
      (λ z. asked q.requester l.asked.1)
  where
    clock : 0 < q.phase_time → (q.phase_time == 0) ≡ true → ⊥
    clock c z = ground arith

    asked :
        (r : Option QuiesceRequester)
        → r ≡ some l.asked.0
        → Goes b now n (elim r [ none ↦ none | some s ↦ callback_phase q.phase now seen q ])
    asked none e = absurd (ground arith)
    asked (some s) e = phase-Goes b t now n q.phase seen q refl l.left l h m
