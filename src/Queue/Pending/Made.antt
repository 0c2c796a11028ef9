-- ===== src/Queue/Pending/Made.antt =====
-- A new instance (job_new of init/job.c) joins the daemon.
use feature_d.Base.{
  ℕ, suc, ◌<◌, ◌==◌, ◌&&◌, Bool, true, false, if◌then◌else◌, is_some, All, Bytes, same, Option,
  none, some, List, [], ◌∷◌, ◌≡◌, refl, arith,
}
use feature_d.Event.{Events}
use feature_d.EventOperator.{EventOperator, leaf, gate, event_operator_copy}
use feature_d.EventOperator.Values.{HasEvents, IsClear}
use feature_d.Job.{Job}
use feature_d.Job.Ledger.{tree_refs, TreeOk}
use feature_d.Job.StopOn.Taken.{clear_refs}
use feature_d.Queue.{Class, Daemon, find_job}
use feature_d.Queue.Well.{JobOk, ClassOk, Unseen, Well}
use feature_d.Queue.Pending.{copied, new_job, job_new, find_instance}
use feature_d.Queue.Pending.Ready.{IsSmall, Ready}

copy_clear : (t : EventOperator) (es : Events) → IsClear t → event_operator_copy t es ≡ (t, es)
unfolding event_operator_copy
copy_clear (leaf v name env none) es h = refl
copy_clear (leaf v name env (some i)) es h = absurd (ground (arith, h))
copy_clear (gate type v left right) es h =
    rw (copy_clear left es h.0) (rw (copy_clear right es h.1) refl)

copied_clear : (o : Option EventOperator) (es : Events) → Unseen o → copied o es ≡ (o, es)
copied_clear none es h = refl
copied_clear (some t) es h = rw (copy_clear t es h) refl

clear-HasEvents : (t : EventOperator) → IsClear t → HasEvents t
clear-HasEvents (leaf v name env ev) h = ground (arith, h)
clear-HasEvents (gate type v left right) h = (clear-HasEvents left h.0, clear-HasEvents right h.1)

clear-TreeOk : (o : Option EventOperator) → Unseen o → TreeOk o
clear-TreeOk none h = tt
clear-TreeOk (some t) h = clear-HasEvents t h

clear_tree_refs : (i : ℕ) (o : Option EventOperator) → Unseen o → tree_refs i o ≡ 0
clear_tree_refs i none h = refl
clear_tree_refs i (some t) h = clear_refs i t h

new_job-JobOk : (k : ℕ) (c : Class) (name : Bytes) → ClassOk c → JobOk (new_job k c name c.stop_on)
new_job-JobOk k c name h = record {
  inv = record {
    settled = refl;
    pids = record {
      awaited = tt;
      main_ok = λ l. ground arith;
      security_ok = λ l. ground arith;
      pre_start_ok = λ l. ground arith;
      post_start_ok = λ l. ground arith;
      pre_stop_ok = λ l. ground arith;
      post_stop_ok = λ l. ground arith;
    };
    main_known = λ l. ground arith;
    post_start_known = λ l. ground arith;
    pre_stop_known = λ l. ground arith;
    blocked = refl;
    timer = λ t. ground arith;
    timer_process = refl;
    respawning = λ r. ground arith;
    idle = λ q. refl;
  };
  kinds = tt;
  limit = h.limit_ok;
  tree = clear-TreeOk c.stop_on h.stop_ok;
}

later_ids : (k : ℕ) (js : List Job) → All (λ j. j.id < k) js → All (λ j. (j.id == k) ≡ false) js
later_ids k [] h = tt
later_ids k (j ∷ js) h = (ground (arith, h.0), later_ids k js h.1)

suc_older : (k : ℕ) (js : List Job) → All (λ j. j.id < k) js → All (λ j. j.id < suc k) js
suc_older k [] h = tt
suc_older k (j ∷ js) h = (omega (arith, h.0), suc_older k js h.1)

-- There is one job more, which holds nothing.
pub job_new-Well :
    (c : Class) (name : Bytes) (dm : Daemon) → Well dm → ClassOk c → Well (job_new c name dm)
unfolding job_new
job_new-Well c name dm h ok = rw (copied_clear c.stop_on dm.world.events ok.stop_ok) record {
  jobs_ok = (new_job-JobOk dm.next_job c name ok, h.jobs_ok);
  classes_ok = h.classes_ok;
  older = (omega arith, suc_older dm.next_job dm.jobs h.older);
  distinct = (later_ids dm.next_job dm.jobs h.older, h.distinct);
  covered = λ i. omega (arith, h.covered i, clear_tree_refs i c.stop_on ok.stop_ok);
  fresh = h.fresh;
  waiting = λ k. ground (arith, h.waiting k);
  forks = h.forks;
}

pub job_new-Ready :
    (l e n m : ℕ) (c : Class) (name : Bytes) (dm : Daemon)
    → Ready l e n m dm
    → ClassOk c
    → IsSmall l c
    → Ready l e (suc n) m (job_new c name dm)
unfolding job_new
job_new-Ready l e n m c name dm h ok small = record {
  well = job_new-Well c name dm h.well ok;
  here = rw (copied_clear c.stop_on dm.world.events ok.stop_ok) h.here;
  few = omega (arith, h.few);
  small_jobs = (rw (copied_clear c.stop_on dm.world.events ok.stop_ok) small.1, h.small_jobs);
  small_classes = h.small_classes;
  room = rw (copied_clear c.stop_on dm.world.events ok.stop_ok) h.room;
}

pub job_new_there :
    (c : Class) (name : Bytes) (dm : Daemon)
    → is_some (find_job dm.next_job (job_new c name dm).jobs) ≡ true
unfolding job_new find_job
job_new_there c name dm = ground arith

-- An instance that is found is a job of the daemon.
pub find_instance_there :
    (i : ℕ) (name : Bytes) (js : List Job) (j : Job)
    → find_instance i name js ≡ some j
    → is_some (find_job j.id js) ≡ true
unfolding find_instance find_job
find_instance_there i name [] j q = absurd (ground arith)
find_instance_there i name (x ∷ js) j q =
    branch (x.class.id == i && same x.name name) q (find_instance_there i name js j)
  where
    branch :
        (b : Bool)
        → (if b then some x else find_instance i name js) ≡ some j
        → (find_instance i name js ≡ some j → is_some (find_job j.id js) ≡ true)
        → is_some (if x.id == j.id then some x else find_job j.id js) ≡ true
    branch true p f = ground (arith, p)
    branch false p f = ground (arith, f p)
