-- ===== src/Job/Change/Ledger.antt =====
-- The loop of job_change_state (init/job.c) keeps the counts of the queue.
use feature_d.Base.{
  ℕ, zero, suc, Bool, true, false, if◌then◌else◌, is_some, Option, none, some, ◌∷◌, ◌≡◌, refl, ◌∙◌,
  ◌⊎◌, inl, inr, arith,
}
use feature_d.Job.{
  JobGoal, job_stop, job_start, job_respawn, JobState, job_waiting, job_running, state_is, goal_is,
}
use feature_d.Job.Machine.{goal_changed, Ctx}
use feature_d.Job.Ledger.{Conserves, Conserves-refl, Conserves-trans, Partly}
use feature_d.Job.Change.Handlers.{none_of}
use feature_d.Job.Change.{
  change_goal_by, goal_moves, job_next_state, change_round, change_state_loop, job_change_state,
  job_advance, job_change_goal,
}
use feature_d.Job.Change.Moves.{Moves, calm, next-Moves}
use feature_d.Job.Change.Entered.{Enters, round-Enters}

abbrev pub KeepsCounts : Ctx → Option (Unit {0} × Ctx) → Type 0
KeepsCounts c = Partly (λ _ d. Conserves c d)

if-KeepsCounts :
    (c : Ctx) (b : Bool) (x y : Option (Unit {0} × Ctx))
    → (b ≡ true → KeepsCounts c x)
    → (b ≡ false → KeepsCounts c y)
    → KeepsCounts c (if b then x else y)
if-KeepsCounts c true x y h k = h refl
if-KeepsCounts c false x y h k = k refl

after-KeepsCounts :
    (c d : Ctx) (r : Option (Unit {0} × Ctx)) → Conserves c d → KeepsCounts d r → KeepsCounts c r
after-KeepsCounts c d none h k = tt
after-KeepsCounts c d (some (u, e)) h k = Conserves-trans h k

loop-KeepsCounts :
    (n : ℕ) (s : JobState) (c : Ctx)
    → (c.freed ≡ false) ⊎ (state_is c.job.state s ≡ true)
    → KeepsCounts c (change_state_loop n s c)
unfolding change_state_loop
loop-KeepsCounts zero s c h = tt
loop-KeepsCounts (suc n) s c h =
    if-KeepsCounts c (state_is c.job.state s) _ _ (λ q. Conserves-refl c)
      (λ q.
        if-KeepsCounts c (is_some c.job.blocker) _ _ (λ b. Conserves-refl c)
          (λ b.
            rounds (change_round s c)
              (round-Enters s c (there h q) (none_of c.job.blocker (λ t. ground arith)))
              (λ t d g. loop-KeepsCounts n t d g)))
  where
    there :
        (c.freed ≡ false) ⊎ (state_is c.job.state s ≡ true)
        → state_is c.job.state s ≡ false
        → c.freed ≡ false
    there (inl f) q = f
    there (inr t) q = absurd (ground arith)

    rounds :
        (r : Option (JobState × Ctx))
        → Enters c r
        → ((t : JobState) (d : Ctx)
            → (d.freed ≡ false) ⊎ (state_is d.job.state t ≡ true)
            → KeepsCounts d (change_state_loop n t d))
        → KeepsCounts c (elim r [ none ↦ none | some (t, d) ↦ change_state_loop n t d ])
    rounds none k f = tt
    rounds (some (t, d)) k f = after-KeepsCounts c d _ k.kept (f t d k.goes_on)

-- The job moves on: the blockers of each event change as what the job holds does, and the job
-- stands in what the events block as often as it waits.
pub job_advance-KeepsCounts : (c : Ctx) → c.freed ≡ false → KeepsCounts c (job_advance c)
unfolding job_advance job_change_state
job_advance-KeepsCounts c f = next (job_next_state c) (next-Moves c)
  where
    next :
        (r : Option (JobState × Ctx))
        → Partly (λ _ d. Moves c d) r
        → KeepsCounts c (elim r [ none ↦ none | some (s, d) ↦ job_change_state s d ])
    next none h = tt
    next (some (s, d)) h =
        after-KeepsCounts c d _ h.conserved (loop-KeepsCounts 12 s d (inl (h.there ∙ f)))

-- Where a change of the goal of a job that is there meets no failed assertion, the blockers of each
-- event change by as much as what the job holds, and none gets more; the job stands in what the
-- events block once more where it begins to wait; and the events from before keep what they block.
pub job_change_goal-KeepsCounts :
    (g : JobGoal) (c : Ctx) → c.freed ≡ false → KeepsCounts c (job_change_goal g c)
unfolding job_change_goal change_goal_by
job_change_goal-KeepsCounts g c f =
    if-KeepsCounts c (goal_is c.job.goal g) _ _ (λ q. Conserves-refl c) (λ q. moved g)
  where
    d : Ctx
    d = record c {
      job = record c.job { goal = g };
      world = record c.world { out = goal_changed c.job.id g ∷ c.world.out };
    }

    same : Conserves c d
    same = (calm c d refl refl refl refl refl refl refl refl).conserved

    moved : (h : JobGoal) → KeepsCounts c (goal_moves job_advance h d)
    moved job_start =
        if-KeepsCounts c (state_is c.job.state job_waiting) _ _
          (λ q. after-KeepsCounts c d _ same (job_advance-KeepsCounts d f)) (λ q. same)
    moved job_stop =
        if-KeepsCounts c (state_is c.job.state job_running) _ _
          (λ q. after-KeepsCounts c d _ same (job_advance-KeepsCounts d f)) (λ q. same)
    moved job_respawn = same
