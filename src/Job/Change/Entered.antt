-- ===== src/Job/Change/Entered.antt =====
-- A job that enters a state (init/job.c) keeps the counts of the queue.
use mathlib.Core.Path.{subst}
use feature_d.Base.{
  ap, sym, ℕ, suc, Bool, true, false, ◌&&◌, if◌then◌else◌, Option, none, some, codes, ◌∷◌, ◌≡◌,
  refl, ◌∙◌, ◌⊎◌, inl, inr, arith,
}
use feature_d.Process.{ProcessType, main}
use feature_d.Job.{
  JobState, job_waiting, job_starting, job_security_spawning, job_security, job_pre_starting,
  job_pre_start, job_spawning, job_spawned, job_post_starting, job_post_start, job_running,
  job_pre_stopping, job_pre_stop, job_stopping, job_killed, job_post_stopping, job_post_stop,
  state_is,
}
use feature_d.Job.Machine.{state_changed, Ctx, ◌>>◌, pure}
use feature_d.Job.Finished.{Emits, emits, emitted, job_emit_event, job_finished}
use feature_d.Job.Finished.Covered.{blockers_of-emitted}
use feature_d.Job.Start.{job_process_start, job_process_kill}
use feature_d.Job.Ledger.{Conserves, Conserves-trans, Partly}
use feature_d.Job.Ledger.Answers.{
  FinishedAs, entries-emitted, job_finished-Conserves, Fresh-emitted, waiters-emitted,
}
use feature_d.Job.Change.{
  job_next_state, start_and_next, stay_or_next, emit_and_wait, enter_running, kill_or_next,
  leave_class, enter_waiting, enter, change_round, goal_allows, may_follow, fresh_start,
  has_process, is_running,
}
use feature_d.Job.Change.Moves.{
  Moves, Moves-refl, calm, if-Moves, after-Moves, then-Moves, start-Moves, kill-Moves, next-Moves,
}

-- What a round of the loop leaves: the counts, and a job that is there or has entered the state that
-- it goes on to.
pub record Rounds (c : Ctx) (t : JobState) (d : Ctx) : Type 0 where
  pub kept : Conserves c d
  pub goes_on : (d.freed ≡ false) ⊎ (state_is d.job.state t ≡ true)

abbrev pub Enters : Ctx → Option (JobState × Ctx) → Type 0
Enters c = Partly (λ t d. Rounds c t d)

moved-Enters :
    (c : Ctx) (r : Option (JobState × Ctx))
    → c.freed ≡ false
    → Partly (λ _ d. Moves c d) r
    → Enters c r
moved-Enters c none f h = tt
moved-Enters c (some (t, d)) f h = record { kept = h.conserved; goes_on = inl (h.there ∙ f) }

start_and_next-Moves :
    (p : ProcessType) (b : Bool) (c : Ctx) → Partly (λ _ d. Moves c d) (start_and_next p b c)
unfolding start_and_next
start_and_next-Moves p b c =
    if-Moves c b _ _
      (then-Moves c (job_process_start p c) (λ u d. job_next_state d) (start-Moves p c)
        (λ u d. next-Moves d))
      (next-Moves c)

stay_or_next-Moves :
    (b : Bool) (s : JobState) (c : Ctx) → Partly (λ _ d. Moves c d) (stay_or_next b s c)
unfolding stay_or_next
stay_or_next-Moves b s c = if-Moves c b _ _ (Moves-refl c) (next-Moves c)

kill_or_next-Moves : (c : Ctx) → Partly (λ _ d. Moves c d) (kill_or_next c)
unfolding kill_or_next
kill_or_next-Moves c =
    if-Moves c (has_process c.job main && is_running c.job main) _ _
      (then-Moves c (job_process_kill main c) (λ u d. some (job_killed, d)) (kill-Moves main c)
        (λ u d. Moves-refl d))
      (next-Moves c)

abbrev sends : Emits → Ctx → Ctx
sends e c = record c {
  world = record c.world { events = emitted e c; next_event = suc c.world.next_event };
}

emit_lem :
    (e : Emits) (c : Ctx)
    → emits c.job.state ≡ some e
    → job_emit_event c ≡ some (c.world.next_event, sends e c)
unfolding job_emit_event
emit_lem e c q =
    ap
      (λ (o : Option Emits). elim o [ none ↦ none | some x ↦ some (c.world.next_event, sends x c) ])
      q

-- An event that the job does not wait for.
emitted-Moves : (e : Emits) (c : Ctx) → e.block ≡ false → Moves c (sends e c)
emitted-Moves e c b = record {
  conserved = record {
    accounts = record {
      same_id = refl;
      same_sys = refl;
      trees = λ t. t;
      counts = λ i. rw (blockers_of-emitted e c i) refl;
      fresh = λ h. Fresh-emitted e c h;
      waiting = λ h k. rw (waiters-emitted k e c h, b) (omega arith);
      later = omega arith;
      entries = λ f i l. entries-emitted i e c f l;
    };
    sheds = λ i. omega (arith, blockers_of-emitted e c i);
  };
  there = refl;
  free = refl;
}

emit-Moves :
    (e : Emits) (c : Ctx)
    → emits c.job.state ≡ some e
    → e.block ≡ false
    → Partly (λ _ d. Moves c d) (job_emit_event c)
emit-Moves e c q b = subst (Partly (λ _ d. Moves c d)) (sym (emit_lem e c q)) (emitted-Moves e c b)

abbrev waiting_for_it : Option (ℕ × Ctx) → Option (Unit {0} × Ctx)
waiting_for_it none = none
waiting_for_it (some (i, d)) = some (tt, record d { job = record d.job { blocker = some i } })

-- The job waits for the event that it emits.
wait-Rounds :
    (e : Emits) (c : Ctx) (s : JobState)
    → emits c.job.state ≡ some e
    → e.block ≡ true
    → c.freed ≡ false
    → c.job.blocker ≡ none
    → Enters c ((emit_and_wait >> pure s) c)
unfolding emit_and_wait
wait-Rounds e c s q b f n =
    subst (λ x. Enters c (elim (waiting_for_it x) [ none ↦ none | some (u, d) ↦ some (s, d) ]))
      (sym (emit_lem e c q))
      (record {
        kept = record {
          accounts = record {
            same_id = refl;
            same_sys = refl;
            trees = λ t. t;
            counts = λ i. rw (blockers_of-emitted e c i) refl;
            fresh = λ h. Fresh-emitted e c h;
            waiting = λ h k. rw (waiters-emitted k e c h, b, f, n) (ground arith);
            later = omega arith;
            entries = λ f i l. entries-emitted i e c f l;
          };
          sheds = λ i. omega (arith, blockers_of-emitted e c i);
        };
        goes_on = inl f;
      })

gone-Conserves :
    (c d : Ctx)
    → c.job.blocker ≡ none
    → d.job ≡ c.job
    → d.world.sys ≡ c.world.sys
    → d.world.events ≡ c.world.events
    → d.world.next_event ≡ c.world.next_event
    → d.freed ≡ true
    → Conserves c d
gone-Conserves c d b j s e n f = record {
  accounts = record {
    same_id = rw j refl;
    same_sys = s;
    trees = λ t. rw j t;
    counts = λ i. rw (e, j) refl;
    fresh = λ h. rw (e, n) h;
    waiting = λ h k. rw (e, b, f) (ground arith);
    later = omega (arith, n);
    entries = λ f i h. rw e refl;
  };
  sheds = λ i. rw e (omega arith);
}

if-Conserves :
    (c : Ctx) (b : Bool) (x y : Ctx)
    → Conserves c x
    → Conserves c y
    → Conserves c (if b then x else y)
if-Conserves c true x y h k = h
if-Conserves c false x y h k = k

leave-Conserves : (c : Ctx) → c.job.blocker ≡ none → Conserves c (leave_class c)
unfolding leave_class
leave-Conserves c b =
    if-Conserves c _ _ _ (gone-Conserves c _ b refl refl refl refl refl)
      (gone-Conserves c _ b refl refl refl refl refl)

-- `job_finished` in a round.
finished-Moves : (failed : Bool) (c : Ctx) → Partly (λ _ d. Moves c d) (job_finished failed c)
finished-Moves failed c = shaped (job_finished failed c) (job_finished-Conserves failed c)
  where
    shaped :
        (r : Option (Unit {0} × Ctx))
        → Partly (λ _ d. FinishedAs c d) r
        → Partly (λ _ d. Moves c d) r
    shaped none h = tt
    shaped (some (u, d)) (k, b, f, s, _) = record { conserved = k; there = f; free = b }

enter_running-Moves :
    (old : JobState) (c : Ctx)
    → c.job.state ≡ job_running
    → Partly (λ _ d. Moves c d) (enter_running old c)
unfolding enter_running
enter_running-Moves old c s =
    if-Moves c (state_is old job_pre_stop) _ _
      (after-Moves c (record c { job = record c.job { stop_env = none } })
        (job_finished false (record c { job = record c.job { stop_env = none } }))
        (calm c _ refl refl refl refl refl refl refl refl)
        (finished-Moves false (record c { job = record c.job { stop_env = none } })))
      (then-Moves c (job_emit_event c)
        (λ i d. if d.job.class.task then some (tt, d) else job_finished false d)
        (emit-Moves _ c (ap emits s) refl)
        (λ i d. if-Moves d d.job.class.task _ _ (Moves-refl d) (finished-Moves false d)))

if-state :
    (c : Ctx) (b : Bool) (x y : Ctx)
    → x.job ≡ c.job
    → y.job ≡ c.job
    → (if b then x else y).job ≡ c.job
if-state c true x y h k = h
if-state c false x y h k = k

leave_class-job : (c : Ctx) → (leave_class c).job ≡ c.job
unfolding leave_class
leave_class-job c = if-state c _ _ _ refl refl

abbrev left_after : Option (Unit {0} × Ctx) → Option (Unit {0} × Ctx)
left_after none = none
left_after (some (u, e)) = some (tt, leave_class e)

abbrev finished_after : Option (ℕ × Ctx) → Option (Unit {0} × Ctx)
finished_after none = none
finished_after (some (i, d)) = left_after (job_finished false d)

-- The job enters `waiting`, answers what waits on it, and is freed.
waiting-Enters :
    (c : Ctx)
    → c.job.state ≡ job_waiting
    → c.job.blocker ≡ none
    → Enters c ((enter_waiting >> pure job_waiting) c)
unfolding enter_waiting
waiting-Enters c s b =
    subst
      (λ x.
        Enters c (elim (finished_after x) [ none ↦ none | some (u, d) ↦ some (job_waiting, d) ]))
      (sym (emit_lem stopped c (ap emits s)))
      (left (job_finished false (sends stopped c)) (job_finished-Conserves false (sends stopped c))
        (emitted-Moves stopped c refl))
  where
    stopped : Emits
    stopped = record { event = codes "stopped"; block = false; stop = true }

    left :
        (r : Option (Unit {0} × Ctx))
        → Partly (λ _ d. FinishedAs (sends stopped c) d) r
        → Moves c (sends stopped c)
        → Enters c (elim (left_after r) [ none ↦ none | some (u, d) ↦ some (job_waiting, d) ])
    left none h m = tt
    left (some (u, d)) (k, n, f, t, _) m = record {
      kept = Conserves-trans m.conserved (Conserves-trans k (leave-Conserves d (n ∙ b)));
      goes_on = inr (rw (leave_class-job d, t, s) refl);
    }

after-Enters : (c d : Ctx) (r : Option (JobState × Ctx)) → Conserves c d → Enters d r → Enters c r
after-Enters c d none h k = tt
after-Enters c d (some (t, e)) h k = record { kept = Conserves-trans h k.kept; goes_on = k.goes_on }

enter-Enters :
    (old s : JobState) (c : Ctx)
    → c.job.state ≡ s
    → c.freed ≡ false
    → c.job.blocker ≡ none
    → Enters c (enter old s c)
unfolding enter
enter-Enters old job_starting c s f b =
    let d = record c { job = fresh_start c.job } in
    after-Enters c d _ (calm c d refl refl refl refl refl refl refl refl).conserved
      (wait-Rounds _ d job_starting (ap emits s) refl f b)
enter-Enters old job_stopping c s f b = wait-Rounds _ c job_stopping (ap emits s) refl f b
enter-Enters old job_running c s f b =
    moved-Enters c ((enter_running old >> pure job_running) c) f (
      then-Moves c (enter_running old c) (λ u. pure job_running) (enter_running-Moves old c s)
        (λ u d. Moves-refl d))
enter-Enters old job_waiting c s f b = waiting-Enters c s b
enter-Enters old job_killed c s f b = moved-Enters c (kill_or_next c) f (kill_or_next-Moves c)
enter-Enters old job_security_spawning c s f b = moved-Enters c _ f (start_and_next-Moves _ _ c)
enter-Enters old job_pre_starting c s f b = moved-Enters c _ f (start_and_next-Moves _ _ c)
enter-Enters old job_spawning c s f b = moved-Enters c _ f (start_and_next-Moves _ _ c)
enter-Enters old job_post_starting c s f b = moved-Enters c _ f (start_and_next-Moves _ _ c)
enter-Enters old job_pre_stopping c s f b = moved-Enters c _ f (start_and_next-Moves _ _ c)
enter-Enters old job_post_stopping c s f b = moved-Enters c _ f (start_and_next-Moves _ _ c)
enter-Enters old job_security c s f b = moved-Enters c _ f (stay_or_next-Moves _ _ c)
enter-Enters old job_pre_start c s f b = moved-Enters c _ f (stay_or_next-Moves _ _ c)
enter-Enters old job_spawned c s f b = moved-Enters c _ f (stay_or_next-Moves _ _ c)
enter-Enters old job_post_start c s f b = moved-Enters c _ f (stay_or_next-Moves _ _ c)
enter-Enters old job_pre_stop c s f b = moved-Enters c _ f (stay_or_next-Moves _ _ c)
enter-Enters old job_post_stop c s f b = moved-Enters c _ f (stay_or_next-Moves _ _ c)

if-Enters :
    (c : Ctx) (b : Bool) (x y : Option (JobState × Ctx))
    → Enters c x
    → Enters c y
    → Enters c (if b then x else y)
if-Enters c true x y h k = h
if-Enters c false x y h k = k

pub round-Enters :
    (s : JobState) (c : Ctx) → c.freed ≡ false → c.job.blocker ≡ none → Enters c (change_round s c)
unfolding change_round
round-Enters s c f b =
    let d = record c {
      job = record c.job { state = s };
      world = record c.world { out = state_changed c.job.id s ∷ c.world.out };
    } in
    if-Enters c (goal_allows c.job.goal s && may_follow c.job.state s) _ none
      (after-Enters c d _ (calm c d refl refl refl refl refl refl refl refl).conserved
        (enter-Enters c.job.state s d refl f b))
      tt
