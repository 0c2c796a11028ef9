-- ===== src/Queue/Calls/Fair.antt =====
-- What the calls on a class (init/job_class.c) do to one job.
use mathlib.Core.Path.{subst}
use feature_d.Base.{
  ℕ, ◌<◌, Bool, true, false, Option, none, some, [], ◌∷◌, ◌++◌, ◌≡◌, refl, sym, inl, inr, arith,
}
use feature_d.Environ.{Env}
use feature_d.Event.{
  Blocked, blocked_job_start_method, blocked_job_stop_method, blocked_job_restart_method,
}
use feature_d.Job.{JobGoal, job_start, job_stop, job_respawn, goal_is}
use feature_d.Job.Machine.{M, Ctx, Ensures, ◌>>◌}
use feature_d.Job.Invariant.{Sound, Settled, Answerable, is_event}
use feature_d.Job.Ledger.{Accounts, Accounts-refl, Accounts-trans}
use feature_d.Job.Finished.{job_finished}
use feature_d.Job.Finished.Covered.{job_finished_ok, Covered-nil}
use feature_d.Job.Change.{job_change_goal}
use feature_d.Job.Change.Ledger.{KeepsCounts, job_change_goal-KeepsCounts}
use feature_d.Job.Change.Quiet.{SameCounts, change_goal_quiet}
use feature_d.Job.Change.Handlers.{job_change_goal-Settled}
use feature_d.Job.StopOn.Taken.{finished-Tracks, Put-Sound}
use feature_d.Queue.Calls.{await, reply_unless, start_call, stop_call, restart_call}

-- The job is there and sound, and what it holds is accounted for.
abbrev pub Fair : Ctx → Option (Unit {0} × Ctx) → Type 0
Fair c r = Ensures (λ _ d. Sound d × Accounts c d) r

last-Fair : (c d : Ctx) (r : Option (Unit {0} × Ctx)) → Accounts c d → Fair d r → Fair c r
last-Fair c d none a h = h
last-Fair c d (some (v, e)) a (t, b) = (t, Accounts-trans a b)

then_Fair :
    (c d : Ctx) (f g : M (Unit {0}))
    → Fair c (f d)
    → ((e : Ctx) → Sound e → Fair e (g e))
    → Fair c ((f >> g) d)
then_Fair c d f g h k = next (f d) h
  where
    next : (r : Option (Unit {0} × Ctx)) → Fair c r → Fair c (((λ (x : Ctx). r) >> g) d)
    next none h = h
    next (some (u, e)) (s, a) = last-Fair c e (g e) a (k e s)

goal_Fair :
    (g : JobGoal)
    → goal_is g job_respawn ≡ false
    → (c : Ctx) → Sound c
    → Fair c (job_change_goal g c)
goal_Fair g r c h =
    both (job_change_goal g c) (change_goal_quiet g c h) (job_change_goal-Settled g c h r)
      (job_change_goal-KeepsCounts g c h.around.alive)
  where
    both :
        (r : Option (Unit {0} × Ctx))
        → Ensures (λ _ d. SameCounts c d) r
        → Ensures (λ _ d. Settled d) r
        → KeepsCounts c r
        → Fair c r
    both none s g m = g
    both (some (u, d)) (s, f, o, b) (inl g) m = absurd (ground (arith, h.around.alive))
    both (some (u, d)) (s, f, o, b) (inr g) m = (g, m.accounts)

reply-Fair : (wait : Bool) (b : Blocked) (c : Ctx) → Sound c → Fair c (reply_unless wait b c)
reply-Fair true b c h = (h, Accounts-refl c)
reply-Fair false b c h = (
  record {
    inv = h.inv;
    around = record {
      alive = h.around.alive;
      covered = h.around.covered;
      limit = h.around.limit;
      forks = h.around.forks;
    };
  },
  record {
    same_id = refl;
    same_sys = refl;
    trees = λ o. o;
    counts = λ i. refl;
    fresh = λ f. f;
    waiting = λ f k. refl;
    later = omega arith;
    entries = λ f i l. refl;
  },
)

-- Other environments for the next start and stop.
abbrev renewed : Option Env → Option Env → Ctx → Ctx
renewed start stop c = record c { job = record c.job { start_env = start; stop_env = stop } }

renewed-Fair :
    (start stop : Option Env) (c : Ctx) → Sound c → Fair c (some (tt, renewed start stop c))
renewed-Fair start stop c h = (
  record {
    inv = record {
      settled = h.inv.settled;
      pids = h.inv.pids;
      main_known = h.inv.main_known;
      post_start_known = h.inv.post_start_known;
      pre_stop_known = h.inv.pre_stop_known;
      blocked = h.inv.blocked;
      timer = h.inv.timer;
      timer_process = h.inv.timer_process;
      respawning = h.inv.respawning;
      idle = h.inv.idle;
    };
    around = record {
      alive = h.around.alive;
      covered = h.around.covered;
      limit = h.around.limit;
      forks = h.around.forks;
    };
  },
  record {
    same_id = refl;
    same_sys = refl;
    trees = λ o. o;
    counts = λ i. refl;
    fresh = λ f. f;
    waiting = λ f k. refl;
    later = omega arith;
    entries = λ f i l. refl;
  },
)

module _ (b : Blocked) (answerable : Answerable b) (uncounted : (i : ℕ) → is_event i b ≡ 0) where
  listed-Fair : (wait : Bool) (c : Ctx) → Sound c → c.job.blocking ≡ [] → Fair c (await wait b c)
  listed-Fair false c h z = (h, Accounts-refl c)
  listed-Fair true c h z = (
    Put-Sound c c.job.stop_env c.job.stop_on (c.job.blocking ++ (b ∷ [])) c.world h
        (rw z record { kinds = (answerable, tt); counts = λ i. omega (arith, uncounted i) })
        h.around.forks,
    record {
      same_id = refl;
      same_sys = refl;
      trees = λ o. o;
      counts = λ i. rw z (omega (arith, uncounted i));
      fresh = λ f. f;
      waiting = λ f k. refl;
      later = omega arith;
      entries = λ f i l. refl;
    },
  )

  -- Those who wait are answered, and the caller is the next to wait.
  begun-Fair :
      (start stop : Option Env) (wait : Bool) (c : Ctx)
      → Sound c
      → Fair c ((job_finished false >> await wait b) (renewed start stop c))
  begun-Fair start stop wait c h =
      let d = renewed start stop c in
      let (s, a) = renewed-Fair start stop c h in
      let (w, q, same, counts) = job_finished_ok false d h.around.covered in
      let e = record d { job = record d.job { blocking = [] }; world = w } in
      subst (λ x. Fair c (((λ (y : Ctx). x) >> await wait b) d)) (sym q)
        (last-Fair c e (await wait b e) (Accounts-trans a (finished-Tracks d e q).accounts) (
          listed-Fair wait e
            (Put-Sound d d.job.stop_env d.job.stop_on [] w s (Covered-nil w.events)
              (λ n. subst (λ s. 0 < s.fork n) (sym same.sys) (h.around.forks n)))
            refl))

call_Fair :
    (g : JobGoal) (start stop : Option Env) (b : Blocked) (wait : Bool)
    → Answerable b
    → ((i : ℕ) → is_event i b ≡ 0)
    → goal_is g job_respawn ≡ false
    → (c : Ctx) → Sound c
    → Fair c (
        (job_finished false >> await wait b >> job_change_goal g >> reply_unless wait b)
          (renewed start stop c))
call_Fair g start stop b wait a u r c h =
    then_Fair c (renewed start stop c) (job_finished false >> await wait b >> job_change_goal g)
      (reply_unless wait b)
      (then_Fair c (renewed start stop c) (job_finished false >> await wait b) (job_change_goal g)
        (begun-Fair b a u start stop wait c h) (goal_Fair g r))
      (reply-Fair wait b)

pub start_call-Fair :
    (env : Env) (m : ℕ) (wait : Bool) (c : Ctx) → Sound c → Fair c (start_call env m wait c)
unfolding start_call
start_call-Fair env m wait c h =
    call_Fair job_start (some env) c.job.stop_env (blocked_job_start_method m) wait tt (λ i. refl)
      refl c h

pub stop_call-Fair :
    (env : Env) (m : ℕ) (wait : Bool) (c : Ctx) → Sound c → Fair c (stop_call env m wait c)
unfolding stop_call
stop_call-Fair env m wait c h =
    call_Fair job_stop c.job.start_env (some env) (blocked_job_stop_method m) wait tt (λ i. refl)
      refl c h

pub restart_call-Fair :
    (env : Env) (m : ℕ) (wait : Bool) (c : Ctx) → Sound c → Fair c (restart_call env m wait c)
unfolding restart_call
restart_call-Fair env m wait c h =
    let b = blocked_job_restart_method m in
    let d = renewed (some env) none c in
    let f = job_finished false >> await wait b in
    then_Fair c d (f >> job_change_goal job_stop >> job_change_goal job_start) (reply_unless wait b)
      (then_Fair c d (f >> job_change_goal job_stop) (job_change_goal job_start)
        (then_Fair c d f (job_change_goal job_stop)
          (begun-Fair b tt (λ i. refl) (some env) none wait c h) (goal_Fair job_stop refl))
        (goal_Fair job_start refl))
      (reply-Fair wait b)
