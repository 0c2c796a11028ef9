-- ===== src/Job/Change/Moves.antt =====
-- The steps of a job (init/job.c) that leave the counts of the queue alone.
use feature_d.Base.{
  arith, ℕ, ◌==◌, ltb, Bool, true, false, not, if◌then◌else◌, is_some, Option, none, some, ◌∷◌, ◌≡◌,
  refl, ◌∙◌,
}
use feature_d.Process.{ProcessType, get}
use feature_d.Job.{
  JobGoal, job_stop, job_start, job_respawn, JobState, job_waiting, job_starting,
  job_security_spawning, job_security, job_pre_starting, job_pre_start, job_spawning, job_spawned,
  job_post_starting, job_post_start, job_running, job_pre_stopping, job_pre_stop, job_stopping,
  job_killed, job_post_stopping, job_post_stop, state_is, goal_is,
}
use feature_d.Job.Machine.{goal_changed, assert, send, signal_sent, M, Ctx, ◌>>◌}
use feature_d.Job.Start.{job_process_start, job_process_kill, job_process_set_kill_timer}
use feature_d.Job.Ledger.{Conserves, Conserves-refl, Conserves-trans, Partly}
use feature_d.Job.Change.{
  change_goal_by, goal_moves, next_of, job_next_state, stop_or_start, after_respawn,
}

-- A step keeps the counts, and the job is as much there and waits as much for an event as before.
pub record Moves (c d : Ctx) : Type 0 where
  pub conserved : Conserves c d
  pub there : d.freed ≡ c.freed
  pub free : d.job.blocker ≡ c.job.blocker

pub Moves-refl : (c : Ctx) → Moves c c
Moves-refl c = record { conserved = Conserves-refl c; there = refl; free = refl }

pub Moves-trans : {c d e : Ctx} → Moves c d → Moves d e → Moves c e
Moves-trans h k = record {
  conserved = Conserves-trans h.conserved k.conserved;
  there = k.there ∙ h.there;
  free = k.free ∙ h.free;
}

-- A step that leaves alone what the counts are about.
pub calm :
    (c d : Ctx)
    → d.job.id ≡ c.job.id
    → d.world.sys ≡ c.world.sys
    → d.world.events ≡ c.world.events
    → d.world.next_event ≡ c.world.next_event
    → d.job.blocking ≡ c.job.blocking
    → d.job.stop_on ≡ c.job.stop_on
    → d.job.blocker ≡ c.job.blocker
    → d.freed ≡ c.freed
    → Moves c d
calm c d i s e n l t b f = record {
  conserved = record {
    accounts = record {
      same_id = i;
      same_sys = s;
      trees = λ h. rw t h;
      counts = λ i. rw (e, l, t) refl;
      fresh = λ h. rw (e, n) h;
      waiting = λ h k. rw (e, i, b, f) refl;
      later = omega (arith, n);
      entries = λ f i h. rw e refl;
    };
    sheds = λ i. rw e (omega arith);
  };
  there = f;
  free = b;
}

pub if-Moves :
    {A : Type 0} (c : Ctx) (b : Bool) (x y : Option (A × Ctx))
    → Partly (λ _ d. Moves c d) x
    → Partly (λ _ d. Moves c d) y
    → Partly (λ _ d. Moves c d) (if b then x else y)
if-Moves c true x y h k = h
if-Moves c false x y h k = k

pub after-Moves :
    {A : Type 0} (c d : Ctx) (r : Option (A × Ctx))
    → Moves c d
    → Partly (λ _ e. Moves d e) r
    → Partly (λ _ e. Moves c e) r
after-Moves c d none h k = tt
after-Moves c d (some (a, e)) h k = Moves-trans h k

pub then-Moves :
    {A B : Type 0} (c : Ctx) (r : Option (A × Ctx)) (f : A → M B)
    → Partly (λ _ d. Moves c d) r
    → ((a : A) (d : Ctx) → Partly (λ _ e. Moves d e) (f a d))
    → Partly (λ _ e. Moves c e) (elim r [ none ↦ none | some (a, d) ↦ f a d ])
then-Moves c none f h k = tt
then-Moves c (some (a, d)) f h k = after-Moves c d (f a d) h (k a d)

pub start-Moves : (p : ProcessType) (c : Ctx) → Partly (λ _ d. Moves c d) (job_process_start p c)
unfolding job_process_start
start-Moves p c =
    if-Moves c (is_some (get c.job.class.process p)) _ none
      (calm c _ refl refl refl refl refl refl refl refl) tt

seq-Moves :
    {A B : Type 0} (c : Ctx) (m : M A) (k : M B)
    → Partly (λ _ d. Moves c d) (m c)
    → ((d : Ctx) → Partly (λ _ e. Moves d e) (k d))
    → Partly (λ _ e. Moves c e) ((m >> k) c)
seq-Moves c m k h f = then-Moves c (m c) (λ _. k) h (λ a d. f d)

assert-Moves : (b : Bool) (c : Ctx) → Partly (λ _ d. Moves c d) (assert b c)
assert-Moves true c = Moves-refl c
assert-Moves false c = tt

timer-Moves :
    (p : ProcessType) (n : ℕ) (c : Ctx)
    → Partly (λ _ d. Moves c d) (job_process_set_kill_timer p n c)
unfolding job_process_set_kill_timer
timer-Moves p n c = seq-Moves c (assert (not (n == 0))) _ (assert-Moves _ c) (λ d.
    seq-Moves d (λ e. assert (not (is_some e.job.kill_timer)) e) _ (assert-Moves _ d)
      (λ e. calm e _ refl refl refl refl refl refl refl refl))

asserts-Moves :
    (a b d : Bool) (k : M (Unit {0})) (c : Ctx)
    → ((e : Ctx) → Partly (λ _ f. Moves e f) (k e))
    → Partly (λ _ f. Moves c f) ((assert a >> (assert b >> (assert d >> k))) c)
asserts-Moves a b d k c h =
    seq-Moves c (assert a) (assert b >> (assert d >> k)) (assert-Moves a c) (λ e.
      seq-Moves e (assert b) (assert d >> k) (assert-Moves b e)
        (λ f. seq-Moves f (assert d) k (assert-Moves d f) h))

pub kill-Moves : (p : ProcessType) (c : Ctx) → Partly (λ _ d. Moves c d) (job_process_kill p c)
unfolding job_process_kill
kill-Moves p c =
    asserts-Moves (ltb 0 (get c.job.pid p)) (not (is_some c.job.kill_timer))
      (not (is_some c.job.kill_process))
      (if c.world.sys.kill_fails (get c.job.pid p) c.job.class.kill_signal
        then (λ d. some (tt, d))
        else (send (signal_sent (get c.job.pid p) c.job.class.kill_signal)
            >> job_process_set_kill_timer p c.job.class.kill_timeout))
      c (sent (c.world.sys.kill_fails (get c.job.pid p) c.job.class.kill_signal))
  where
    sent :
        (b : Bool) (f : Ctx)
        → Partly
            (λ _ d. Moves f d)
            ((if b
                then (λ d. some (tt, d))
                else (send (signal_sent (get c.job.pid p) c.job.class.kill_signal)
                    >> job_process_set_kill_timer p c.job.class.kill_timeout))
              f)
    sent true f = Moves-refl f
    sent false f =
        seq-Moves f (send (signal_sent (get c.job.pid p) c.job.class.kill_signal))
          (job_process_set_kill_timer p c.job.class.kill_timeout)
          (calm f _ refl refl refl refl refl refl refl refl)
          (λ d. timer-Moves p c.job.class.kill_timeout d)

goal-Moves : (g : JobGoal) (c : Ctx) → Partly (λ _ d. Moves c d) (change_goal_by (λ d. none) g c)
unfolding change_goal_by
goal-Moves g c = if-Moves c (goal_is c.job.goal g) _ _ (Moves-refl c) (moved g)
  where
    moved :
        (h : JobGoal)
        → Partly {A = Unit {0}}
            (λ _ d. Moves c d)
            (goal_moves
              (λ d. none)
              h
              (record c {
                job = record c.job { goal = g };
                world = record c.world { out = goal_changed c.job.id g ∷ c.world.out };
              }))
    moved job_start =
        if-Moves c (state_is c.job.state job_waiting) none _ tt
          (calm c _ refl refl refl refl refl refl refl refl)
    moved job_stop =
        if-Moves c (state_is c.job.state job_running) none _ tt
          (calm c _ refl refl refl refl refl refl refl refl)
    moved job_respawn = calm c _ refl refl refl refl refl refl refl refl

respawn-Moves :
    (g : JobGoal) (s t : JobState) (c : Ctx) → Partly (λ _ d. Moves c d) (after_respawn g s t c)
respawn-Moves job_stop s t c = Moves-refl c
respawn-Moves job_start s t c = Moves-refl c
respawn-Moves job_respawn s t c =
    then-Moves c (change_goal_by (λ d. none) job_start c) (λ u d. some (job_stopping, d))
      (goal-Moves job_start c) (λ u d. Moves-refl d)

choice-Moves :
    (g : JobGoal) (s t : JobState) (c : Ctx) → Partly (λ _ d. Moves c d) (stop_or_start g s t c)
choice-Moves job_stop s t c = Moves-refl c
choice-Moves job_start s t c = Moves-refl c
choice-Moves job_respawn s t c = tt

next_of-Moves : (s : JobState) (g : JobGoal) (c : Ctx) → Partly (λ _ d. Moves c d) (next_of s g c)
unfolding next_of
next_of-Moves job_waiting job_start c = Moves-refl c
next_of-Moves job_waiting job_stop c = tt
next_of-Moves job_waiting job_respawn c = tt
next_of-Moves job_post_start g c = respawn-Moves g job_stopping job_running c
next_of-Moves job_pre_stop g c = respawn-Moves g job_stopping job_running c
next_of-Moves job_starting g c = choice-Moves g _ _ c
next_of-Moves job_security_spawning g c = choice-Moves g _ _ c
next_of-Moves job_security g c = choice-Moves g _ _ c
next_of-Moves job_pre_starting g c = choice-Moves g _ _ c
next_of-Moves job_pre_start g c = choice-Moves g _ _ c
next_of-Moves job_spawning g c = choice-Moves g _ _ c
next_of-Moves job_spawned g c = choice-Moves g _ _ c
next_of-Moves job_post_starting g c = choice-Moves g _ _ c
next_of-Moves job_running g c = choice-Moves g _ _ c
next_of-Moves job_pre_stopping g c = choice-Moves g _ _ c
next_of-Moves job_stopping g c = choice-Moves g _ _ c
next_of-Moves job_killed g c = choice-Moves g _ _ c
next_of-Moves job_post_stopping g c = choice-Moves g _ _ c
next_of-Moves job_post_stop g c = choice-Moves g _ _ c

pub next-Moves : (c : Ctx) → Partly (λ _ d. Moves c d) (job_next_state c)
unfolding job_next_state
next-Moves c = next_of-Moves c.job.state c.job.goal c
