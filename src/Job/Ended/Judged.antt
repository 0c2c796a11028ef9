-- ===== src/Job/Ended/Judged.antt =====
-- The `switch` of `job_process_terminated` (init/job_process.c) keeps a job sound.
use feature_d.Base.{
  ℕ, ◌+◌, ◌-◌, ltb, ◌==◌, Bool, true, false, not, ◌&&◌, ◌||◌, if◌then◌else◌, Option, none, some,
  ◌≡◌, refl, sym, arith, ◌⊎◌, inl, inr, Bool-cases,
}
use feature_d.Job.{
  pos, Job, job_start, job_respawn, JobState, job_stopping, job_killed, job_post_start,
  job_pre_stop, state_is, goal_is,
}
use feature_d.Job.Machine.{Ctx, Ensures}
use feature_d.Job.Invariant.{Sound, runs_main}
use feature_d.Job.Finished.{job_failed}
use feature_d.Job.Change.{job_change_goal, change_goal_by}
use feature_d.Job.Change.Released.{with_goal}
use feature_d.Job.Ended.{
  Verdict, verdict, job_process_catch_runaway, alone, respawn, main_exited, main_ended,
  main_may_end, script_ended, is_normal_exit,
}
use feature_d.Job.Ended.Kept.{job_failed-Sound}

-- The job with another count of respawns.
abbrev counted : ℕ → ℕ → Ctx → Ctx
counted time count c = record c {
  job = record c.job { respawn_time = time; respawn_count = count };
}

counted-Sound : (time count : ℕ) (c : Ctx) → Sound c → Sound (counted time count c)
counted-Sound time count c h = record {
  inv = record {
    settled = h.inv.settled;
    pids = h.inv.pids;
    main_known = h.inv.main_known;
    post_start_known = h.inv.post_start_known;
    pre_stop_known = h.inv.pre_stop_known;
    blocked = h.inv.blocked;
    timer = h.inv.timer;
    timer_process = h.inv.timer_process;
    respawning = h.inv.respawning;
    idle = h.inv.idle;
  };
  around = record {
    alive = h.around.alive;
    covered = h.around.covered;
    limit = h.around.limit;
    forks = h.around.forks;
  };
}

pick :
    {A : Type 0} (P : A → Type 0) (a b : Bool) (x y z : A)
    → P x
    → P y
    → P z
    → P (if a then if b then x else y else z)
pick P true true x y z h k l = h
pick P true false x y z h k l = k
pick P false b x y z h k l = l

abbrev Counted : Ctx → Bool × Job → Type 0
Counted c r = Sound (record c { job = r.1 }) × (r.1.state ≡ c.job.state) × (r.1.goal ≡ c.job.goal)

catch-Counted : (now : ℕ) (c : Ctx) → Sound c → Counted c (job_process_catch_runaway now c.job)
unfolding job_process_catch_runaway
catch-Counted now c h =
    pick (Counted c) (ltb 0 c.job.class.respawn_limit && ltb 0 c.job.class.respawn_interval)
      (ltb (now - c.job.respawn_time) c.job.class.respawn_interval)
      (
        ltb c.job.class.respawn_limit (c.job.respawn_count + 1),
        (counted c.job.respawn_time (c.job.respawn_count + 1) c).job,
      )
      (false, (counted now 1 c).job) (false, c.job)
      (counted-Sound c.job.respawn_time (c.job.respawn_count + 1) c h, refl, refl)
      (counted-Sound now 1 c h, refl, refl) (h, refl, refl)

-- What the `switch` ensures: the job is sound still, in its state, with the flag `state` as given.
abbrev pub Judged : Bool → Ctx → Option (Verdict × Ctx) → Type 0
Judged state c = Ensures (λ v d. Sound d × (d.job.state ≡ c.job.state) × (v.state ≡ state))

-- A step that gives no verdict of its own.
then-Judged :
    (state : Bool) (c : Ctx) (v : Verdict) (r : Option (Unit {0} × Ctx)) (s : JobState)
    → s ≡ c.job.state
    → v.state ≡ state
    → Ensures (λ _ d. Sound d × (d.job.state ≡ s)) r
    → Judged state c (elim r [ none ↦ none | some (u, d) ↦ some (v, d) ])
then-Judged state c v none s q e h = h
then-Judged state c v (some (u, d)) s q e h = (h.0, rw h.1 q, e)

respawn_goal :
    (d : Ctx)
    → goal_is d.job.goal job_start ≡ true
    → job_change_goal job_respawn d ≡ some (tt, with_goal job_respawn d)
unfolding job_change_goal change_goal_by
respawn_goal d g = ground arith

respawning-Sound :
    (c : Ctx)
    → Sound c
    → (c.job.state ≡ job_post_start) ⊎ (c.job.state ≡ job_pre_stop)
    → Sound (with_goal job_respawn c)
respawning-Sound c h s = record {
  inv = record {
    settled = h.inv.settled;
    pids = h.inv.pids;
    main_known = h.inv.main_known;
    post_start_known = h.inv.post_start_known;
    pre_stop_known = h.inv.pre_stop_known;
    blocked = h.inv.blocked;
    timer = h.inv.timer;
    timer_process = h.inv.timer_process;
    respawning = λ e. s;
    idle = λ w. ground (arith, s);
  };
  around = record {
    alive = h.around.alive;
    covered = h.around.covered;
    limit = h.around.limit;
    forks = h.around.forks;
  };
}

abbrev Waits : Bool → Ctx → Type 0
Waits state c = (state ≡ true) ⊎ ((c.job.state ≡ job_post_start) ⊎ (c.job.state ≡ job_pre_stop))

respawn-Judged :
    (state : Bool) (c : Ctx)
    → Sound c
    → goal_is c.job.goal job_start ≡ true
    → Waits state c
    → Judged state c (respawn state c)
unfolding respawn
respawn-Judged state c h g s =
    judged (job_process_catch_runaway c.world.now c.job) (catch-Counted c.world.now c h) state s
  where
    judged :
        (r : Bool × Job)
        → Counted c r
        → (state : Bool) → Waits state c
        → Judged state c (
            if r.0
            then elim (job_failed none (pos 0) (record c { job = r.1 })) [
              | none ↦ none
              | some (u, e) ↦ some (verdict false true state, e)
            ]
            else if state
            then some (verdict false false state, record c { job = r.1 })
            else elim (job_change_goal job_respawn (record c { job = r.1 })) [
              | none ↦ none
              | some (u, e) ↦ some (verdict false false state, e)
            ])
    judged (true, j) k state s =
        then-Judged state c (verdict false true state) _ j.state k.1 refl
          (job_failed-Sound none (pos 0) (record c { job = j }) k.0)
    judged (false, j) k true s = (k.0, k.1, refl)
    judged (false, j) k false (inl s) = cc
    judged (false, j) k false (inr s) =
        rw (respawn_goal (record c { job = j }) (rw k.2 g))
          (respawning-Sound (record c { job = j }) k.0 (rw k.1 s), k.1, refl)

main_exited-Judged :
    (status : ℕ) (state : Bool) (c : Ctx)
    → Sound c
    → Waits state c
    → Judged state c (main_exited status state c)
unfolding main_exited
main_exited-Judged status state c h s =
    judged
      ((not (status == 0) || (c.job.class.respawn && not c.job.class.task))
        && goal_is c.job.goal job_start)
      (not (is_normal_exit status c.job.class.normalexit)
        && c.job.class.respawn
        && not c.world.disable_respawn)
      (not (is_normal_exit status c.job.class.normalexit)) (λ e. ground (arith, e))
  where
    judged :
        (a b bad : Bool)
        → (a ≡ true → goal_is c.job.goal job_start ≡ true)
        → Judged state c (
            if a
            then if b then respawn state c else some (verdict bad true state, c)
            else some (verdict false true state, c))
    judged true true bad g = respawn-Judged state c h (g refl) s
    judged true false bad g = (h, refl, refl)
    judged false b bad g = (h, refl, refl)

-- The flag `state` of a main process that ended.
abbrev pub moves_on : Job → Bool
moves_on j = alone j && not (state_is j.state job_stopping)

alone-false : (j : Job) → alone j ≡ false → (j.state ≡ job_post_start) ⊎ (j.state ≡ job_pre_stop)
alone-false j f = go j.state refl
  where
    go : (s : JobState) → j.state ≡ s → (j.state ≡ job_post_start) ⊎ (j.state ≡ job_pre_stop)
    go job_post_start e = inl e
    go job_pre_stop e = inr e
    go _ e = ground (arith, e, f)

alone-Waits : (c : Ctx) → Waits (alone c.job) c
alone-Waits c = elim (Bool-cases (alone c.job)) [
  | inl e ↦ inl e
  | inr e ↦ inr (alone-false c.job e)
]

Judged-same :
    (a b : Bool) (c : Ctx) (r : Option (Verdict × Ctx)) → a ≡ b → Judged b c r → Judged a c r
Judged-same a b c r e h = rw e h

pub main_ended-Judged :
    (status : ℕ) (c : Ctx)
    → Sound c
    → runs_main c.job.state ≡ true
    → Judged (moves_on c.job) c (main_ended status c)
unfolding main_ended
main_ended-Judged status c h r =
    judged (main_may_end c.job.state) (state_is c.job.state job_killed)
      (state_is c.job.state job_stopping) (may_end c.job.state r) (λ k. elsewhere c.job.state k)
      (λ t. moves_on_not (alone c.job) t) (λ n. moves_on_alone (alone c.job) n)
  where
    may_end : (s : JobState) → runs_main s ≡ true → main_may_end s ≡ true
    may_end s r = ground arith

    elsewhere : (s : JobState) → state_is s job_killed ≡ true → state_is s job_stopping ≡ false
    elsewhere s k = ground arith

    moves_on_not : (a : Bool) {b : Bool} → b ≡ true → (a && not b) ≡ false
    moves_on_not a e = ground arith

    moves_on_alone : (a : Bool) {b : Bool} → b ≡ false → (a && not b) ≡ a
    moves_on_alone a e = ground arith

    judged :
        (may killed stopping : Bool)
        → may ≡ true
        → (killed ≡ true → stopping ≡ false)
        → (stopping ≡ true → moves_on c.job ≡ false)
        → (stopping ≡ false → moves_on c.job ≡ alone c.job)
        → Judged (moves_on c.job) c (
            if may
            then if killed
              then some (verdict false false (alone c.job), c)
              else if stopping
              then some (verdict false false false, c)
              else main_exited status (alone c.job) c
            else none)
    judged false k t m e f n = cc
    judged true true t m e f n = (h, refl, sym (n (e refl)))
    judged true false true m e f n = (h, refl, sym (f refl))
    judged true false false m e f n =
        Judged-same (moves_on c.job) (alone c.job) c _ (n refl)
          (main_exited-Judged status (alone c.job) c h (alone-Waits c))

pub script_ended-Judged :
    (bad : Bool) (allowed : Bool) (c : Ctx)
    → Sound c
    → allowed ≡ true
    → Judged true c (script_ended allowed bad c)
unfolding script_ended
script_ended-Judged bad true c h e = (h, refl, refl)
script_ended-Judged bad false c h e = cc
