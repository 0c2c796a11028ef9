-- ===== src/Queue/Calls/Served.antt =====
-- The calls on a class (init/job_class.c) are answered, and the daemon stays well.
use mathlib.Core.Path.{subst}
use feature_d.Base.{
  ℕ, Bool, true, false, if◌then◌else◌, is_some, Bytes, Option, none, some, ◌≡◌, ◌≢◌, refl, sym, ◌⊎◌,
  inl, inr, arith,
}
use feature_d.Environ.{Env, environ_append, environ_all_valid}
use feature_d.Environ.Expand.{Expanded, failed, expanded, fuel, environ_expand}
use feature_d.Environ.Expand.Total.{environ_expand_total}
use feature_d.Registry.{option_is}
use feature_d.Job.{Job, job_start, job_stop, goal_is}
use feature_d.Job.Machine.{World, M, Ctx}
use feature_d.Job.Invariant.{Sound}
use feature_d.Queue.{Class, Daemon, find_job, run_on, on_found, handled, put_back}
use feature_d.Queue.Held.{Found, FoundIn, find-Found}
use feature_d.Queue.Well.{JobOk, ClassOk, Well, at, at-Sound, Stays, put_back-Stays}
use feature_d.Queue.Pending.{job_class_environment, job_new, find_instance, instance_of}
use feature_d.Queue.Pending.Made.{job_new-Well, job_new_there, find_instance_there}
use feature_d.Queue.Calls.{
  Answer, permission_denied, invalid_env, already_started, already_stopped, accepted, start_call,
  stop_call, restart_call, served, named, called, start_found, stop_found, job_class_start,
  job_class_stop, job_class_restart,
}
use feature_d.Queue.Calls.Fair.{Fair, start_call-Fair, stop_call-Fair, restart_call-Fair}

abbrev KeptWell : Option Daemon → Type 0
KeptWell none = ⊥
KeptWell (some dm) = Well dm

run_on-KeptWell :
    (m : M (Unit {0})) (k : ℕ) (dm : Daemon)
    → Well dm
    → is_some (find_job k dm.jobs) ≡ true
    → ((c : Ctx) → Sound c → Fair c (m c))
    → KeptWell (run_on m k dm)
unfolding run_on
run_on-KeptWell m k dm h there f =
    found (find_job k dm.jobs) (find-Found k dm.jobs JobOk h.jobs_ok) there
  where
    only : (v : World) (r : Option Daemon) → Stays (λ i. 0) v r → KeptWell r
    only v none s = s
    only v (some d) s = s.0

    after :
        (j : Job)
        → Found k dm.jobs JobOk j
        → (r : Option (Unit {0} × Ctx)) → Fair (at j dm.world) r
        → KeptWell (handled dm r)
    after j q none e = e
    after j q (some (u, d)) (s, t) = only d.world (put_back dm d) (
        put_back-Stays (λ i. 0) (λ i. 0) k dm j d h q
          (record {
            settled = inr s;
            same_id = t.same_id;
            same_sys = t.same_sys;
            trees = t.trees;
            counts = t.counts;
            fresh = t.fresh;
            waiting = λ g k. omega (arith, t.waiting g k);
          }))

    found :
        (r : Option Job) → FoundIn k dm.jobs JobOk r → is_some r ≡ true → KeptWell (on_found m dm r)
    found none q e = absurd (ground arith)
    found (some j) q e =
        after j q (m (at j dm.world)) (f (at j dm.world) (at-Sound (λ i. 0) k dm j h q))

-- The call is answered, and the daemon is well; it is as before where the call is refused.
abbrev pub Serves : Daemon → Option (Answer × Daemon) → Type 0
Serves dm none = ⊥
Serves dm (some (a, d)) = Well d × ((a ≡ accepted) ⊎ (d ≡ dm))

served-Serves : (dm : Daemon) (r : Option Daemon) → KeptWell r → Serves dm (served r)
served-Serves dm none h = h
served-Serves dm (some d) h = (h, inl refl)

called-Serves :
    (f : Env → Bytes → Option (Answer × Daemon)) (session : Option ℕ) (c : Class) (env : Env)
    (dm : Daemon)
    → Well dm
    → ((full : Env) (name : Bytes) → Serves dm (f full name))
    → Serves dm (called f session c env dm)
unfolding called
called-Serves f session c env dm h k =
    branch (option_is session c.job_class.session) (environ_all_valid env)
  where
    full : Env
    full =
        environ_append dm.world.sys.getenv
          (job_class_environment dm.world.sys.getenv dm.job_environ c.env) true env

    answered : (r : Expanded Bytes) → r ≢ fuel → Serves dm (named f full dm r)
    answered fuel n = absurd (n refl)
    answered (failed e) n = (h, inr refl)
    answered (expanded name) n = k full name

    branch :
        (a b : Bool)
        → Serves dm (
            if a
            then if b
              then named f full dm (environ_expand c.instance full)
              else some (invalid_env, dm)
            else some (permission_denied, dm))
    branch true true =
        answered (environ_expand c.instance full) (environ_expand_total c.instance full)
    branch true false = (h, inr refl)
    branch false b = (h, inr refl)

stop_found-Serves :
    (m : M (Unit {0})) (c : Class) (name : Bytes) (dm : Daemon)
    → Well dm
    → ((x : Ctx) → Sound x → Fair x (m x))
    → (o : Option Job) → find_instance c.job_class.id name dm.jobs ≡ o
    → Serves dm (stop_found m dm o)
stop_found-Serves m c name dm h f none q = (h, inr refl)
stop_found-Serves m c name dm h f (some j) q = branch (goal_is j.goal job_stop)
  where
    branch :
        (b : Bool) → Serves dm (if b then some (already_stopped, dm) else served (run_on m j.id dm))
    branch true = (h, inr refl)
    branch false =
        served-Serves dm (run_on m j.id dm)
          (run_on-KeptWell m j.id dm h (find_instance_there c.job_class.id name dm.jobs j q) f)

start_found-Serves :
    (m : M (Unit {0})) (k : ℕ) (dm : Daemon)
    → Well dm
    → ((x : Ctx) → Sound x → Fair x (m x))
    → (o : Option Job) → find_job k dm.jobs ≡ o
    → is_some o ≡ true
    → Serves dm (start_found m k dm o)
start_found-Serves m k dm h f none q e = absurd (ground arith)
start_found-Serves m k dm h f (some j) q e = branch (goal_is j.goal job_start)
  where
    branch :
        (b : Bool) → Serves dm (if b then some (already_started, dm) else served (run_on m k dm))
    branch true = (h, inr refl)
    branch false = served-Serves dm (run_on m k dm) (run_on-KeptWell m k dm h (rw q refl) f)

-- A new instance is not to start yet.
start_new :
    (m : M (Unit {0})) (c : Class) (name : Bytes) (dm : Daemon)
    → let d = job_new c name dm in
      start_found m dm.next_job d (find_job dm.next_job d.jobs) ≡ served (run_on m dm.next_job d)
unfolding job_new find_job
start_new m c name dm = ground arith

job_class_start-Serves :
    (session : Option ℕ) (c : Class) (env : Env) (m : ℕ) (wait : Bool) (dm : Daemon)
    → Well dm
    → ClassOk c
    → Serves dm (job_class_start session c env m wait dm)
unfolding job_class_start
job_class_start-Serves session c env m wait dm h ok =
    called-Serves _ session c env dm h
      (λ full name. on_instance full name (find_instance c.job_class.id name dm.jobs) refl)
  where
    on_instance :
        (full : Env) (name : Bytes) (o : Option Job)
        → find_instance c.job_class.id name dm.jobs ≡ o
        → let (k, d) = instance_of c name dm o in
          Serves dm (start_found (start_call full m wait) k d (find_job k d.jobs))
    on_instance full name none q =
        subst (Serves dm) (sym (start_new (start_call full m wait) c name dm)) (
          served-Serves dm _ (
            run_on-KeptWell (start_call full m wait) dm.next_job (job_new c name dm)
              (job_new-Well c name dm h ok) (job_new_there c name dm)
              (start_call-Fair full m wait)))
    on_instance full name (some j) q =
        start_found-Serves (start_call full m wait) j.id dm h (start_call-Fair full m wait)
          (find_job j.id dm.jobs) refl (find_instance_there c.job_class.id name dm.jobs j q)

job_class_stop-Serves :
    (session : Option ℕ) (c : Class) (env : Env) (m : ℕ) (wait : Bool) (dm : Daemon)
    → Well dm
    → Serves dm (job_class_stop session c env m wait dm)
unfolding job_class_stop
job_class_stop-Serves session c env m wait dm h = called-Serves _ session c env dm h (λ full name.
    stop_found-Serves (stop_call env m wait) c name dm h (stop_call-Fair env m wait)
      (find_instance c.job_class.id name dm.jobs) refl)

job_class_restart-Serves :
    (session : Option ℕ) (c : Class) (env : Env) (m : ℕ) (wait : Bool) (dm : Daemon)
    → Well dm
    → Serves dm (job_class_restart session c env m wait dm)
unfolding job_class_restart
job_class_restart-Serves session c env m wait dm h =
    called-Serves _ session c env dm h (λ full name.
      stop_found-Serves (restart_call full m wait) c name dm h (restart_call-Fair full m wait)
        (find_instance c.job_class.id name dm.jobs) refl)

-- Where the daemon is well and the class sound, each of job_class_start, job_class_stop and
-- job_class_restart is answered without a failed assertion, whoever calls and whatever environment
-- is given: either it is accepted and the daemon is well, or the daemon is as it was.
pub class_calls-Serve :
    (session : Option ℕ) (c : Class) (env : Env) (m : ℕ) (wait : Bool) (dm : Daemon)
    → Well dm
    → ClassOk c
    → Serves dm (job_class_start session c env m wait dm)
      × Serves dm (job_class_stop session c env m wait dm)
      × Serves dm (job_class_restart session c env m wait dm)
class_calls-Serve session c env m wait dm h ok = (
  job_class_start-Serves session c env m wait dm h ok,
  job_class_stop-Serves session c env m wait dm h,
  job_class_restart-Serves session c env m wait dm h,
)
