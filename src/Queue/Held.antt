-- ===== src/Queue/Held.antt =====
-- The lists of jobs and the trees of the daemon (init/event.c), and what they hold in the queue.
use feature_d.Base.{
  ℕ, ◌+◌, ◌<◌, ◌==◌, Bool, true, false, ◌&&◌, if◌then◌else◌, is_some, All, Option, none, some, List,
  [], ◌∷◌, ◌≡◌, refl, arith,
}
use feature_d.Job.{Job}
use feature_d.Job.Ledger.{own, one_if}
use feature_d.Queue.{find_job, put_job, drop_job}

abbrev pub all_own : ℕ → List Job → ℕ
all_own i [] = 0
all_own i (j ∷ js) = own i j + all_own i js

abbrev pub job_waits : ℕ → Job → ℕ
job_waits k j = one_if (j.id == k && is_some j.blocker)

abbrev pub all_wait : ℕ → List Job → ℕ
all_wait k [] = 0
all_wait k (j ∷ js) = job_waits k j + all_wait k js

abbrev pub DistinctIds : List Job → Type 0
DistinctIds [] = Unit
DistinctIds (j ∷ js) = All (λ k. (k.id == j.id) ≡ false) js × DistinctIds js

-- What a job and its place in the list have to do with the sums.
pub record Found (k : ℕ) (jobs : List Job) (P : Job → Type 0) (j : Job) : Type 0 where
  pub is_it : j.id ≡ k
  pub holds : P j
  pub own_put :
      (d : Job)
      → d.id ≡ k
      → (i : ℕ) → all_own i (put_job d jobs) + own i j ≡ all_own i jobs + own i d
  pub own_drop : (i : ℕ) → all_own i (drop_job k jobs) + own i j ≡ all_own i jobs
  pub wait_put :
      (d : Job)
      → d.id ≡ k
      → (i : ℕ) → all_wait i (put_job d jobs) + job_waits i j ≡ all_wait i jobs + job_waits i d
  pub alone : DistinctIds jobs → all_wait k jobs ≡ job_waits k j
  pub wait_drop : (i : ℕ) → all_wait i (drop_job k jobs) + job_waits i j ≡ all_wait i jobs

abbrev pub FoundIn : ℕ → List Job → (Job → Type 0) → Option Job → Type 0
FoundIn k jobs P none = all_wait k jobs ≡ 0
FoundIn k jobs P (some j) = Found k jobs P j

put_first : (d j : Job) (js : List Job) → d.id ≡ j.id → put_job d (j ∷ js) ≡ d ∷ js
unfolding put_job
put_first d j js e = ground arith

put_later :
    (d j : Job) (js : List Job) (k : ℕ)
    → d.id ≡ k
    → (j.id == k) ≡ false
    → put_job d (j ∷ js) ≡ j ∷ put_job d js
unfolding put_job
put_later d j js k e n = ground arith

drop_first : (k : ℕ) (j : Job) (js : List Job) → (j.id == k) ≡ true → drop_job k (j ∷ js) ≡ js
unfolding drop_job
drop_first k j js e = ground arith

drop_later :
    (k : ℕ) (j : Job) (js : List Job)
    → (j.id == k) ≡ false
    → drop_job k (j ∷ js) ≡ j ∷ drop_job k js
unfolding drop_job
drop_later k j js e = ground arith

others_wait :
    (k i : ℕ) (js : List Job) → i ≡ k → All (λ x. (x.id == i) ≡ false) js → all_wait k js ≡ 0
others_wait k i [] e h = refl
others_wait k i (j ∷ js) e h = ground (arith, h.0, others_wait k i js e h.1)

pub find-Found :
    (k : ℕ) (jobs : List Job) (P : Job → Type 0) → All P jobs → FoundIn k jobs P (find_job k jobs)
unfolding find_job
find-Found k [] P h = refl
find-Found k (j ∷ js) P h = branch (j.id == k) refl (find_job k js) (find-Found k js P h.1)
  where
    branch :
        (b : Bool)
        → (j.id == k) ≡ b
        → (r : Option Job) → FoundIn k js P r
        → FoundIn k (j ∷ js) P (if b then some j else r)
    branch true q r f = record {
      is_it = ground arith;
      holds = h.0;
      own_put = λ d e i. rw (put_first d j js (ground arith)) (omega arith);
      own_drop = λ i. rw (drop_first k j js q) (omega arith);
      wait_put = λ d e i. rw (put_first d j js (ground arith)) (omega arith);
      wait_drop = λ i. rw (drop_first k j js q) (omega arith);
      alone = λ u. omega (arith, others_wait k j.id js (ground arith) u.0);
    }
    branch false q none f = ground arith
    branch false q (some x) f = record {
      is_it = f.is_it;
      holds = f.holds;
      own_put = λ d e i. rw (put_later d j js k e q) (omega (arith, f.own_put d e i));
      own_drop = λ i. rw (drop_later k j js q) (omega (arith, f.own_drop i));
      wait_put = λ d e i. rw (put_later d j js k e q) (omega (arith, f.wait_put d e i));
      wait_drop = λ i. rw (drop_later k j js q) (omega (arith, f.wait_drop i));
      alone = λ u. ground (arith, f.alone u.1);
    }

pub put-All : (P : Job → Type 0) (d : Job) (js : List Job) → P d → All P js → All P (put_job d js)
unfolding put_job
put-All P d [] p h = tt
put-All P d (j ∷ js) p h = branch (j.id == d.id) (put-All P d js p h.1)
  where
    branch : (b : Bool) → All P (put_job d js) → All P (if b then d ∷ js else j ∷ put_job d js)
    branch true r = (p, h.1)
    branch false r = (h.0, r)

pub drop-All : (P : Job → Type 0) (k : ℕ) (js : List Job) → All P js → All P (drop_job k js)
unfolding drop_job
drop-All P k [] h = tt
drop-All P k (j ∷ js) h = branch (j.id == k) (drop-All P k js h.1)
  where
    branch : (b : Bool) → All P (drop_job k js) → All P (if b then js else j ∷ drop_job k js)
    branch true r = h.1
    branch false r = (h.0, r)

-- The job that is put has the number of the one that it replaces.
pub put-Older :
    (n : ℕ) (d : Job) (js : List Job) → All (λ j. j.id < n) js → All (λ j. j.id < n) (put_job d js)
unfolding put_job
put-Older n d [] h = tt
put-Older n d (j ∷ js) h = branch (j.id == d.id) refl (put-Older n d js h.1)
  where
    branch :
        (b : Bool)
        → (j.id == d.id) ≡ b
        → All (λ x. x.id < n) (put_job d js)
        → All (λ x. x.id < n) (if b then d ∷ js else j ∷ put_job d js)
    branch true q r = (ground (arith, h.0), h.1)
    branch false q r = (h.0, r)

pub put-DistinctIds : (d : Job) (js : List Job) → DistinctIds js → DistinctIds (put_job d js)
unfolding put_job
put-DistinctIds d [] h = tt
put-DistinctIds d (j ∷ js) h = branch (j.id == d.id) refl (put-DistinctIds d js h.1)
  where
    moved :
        (js : List Job)
        → j.id ≡ d.id
        → All (λ k. (k.id == j.id) ≡ false) js
        → All (λ k. (k.id == d.id) ≡ false) js
    moved [] e h = tt
    moved (x ∷ js) e h = (ground (arith, h.0), moved js e h.1)

    branch :
        (b : Bool)
        → (j.id == d.id) ≡ b
        → DistinctIds (put_job d js)
        → DistinctIds (if b then d ∷ js else j ∷ put_job d js)
    branch true q r = (moved js (ground arith) h.0, h.1)
    branch false q r = (put-All (λ k. (k.id == j.id) ≡ false) d js (ground arith) h.0, r)

pub drop-DistinctIds : (k : ℕ) (js : List Job) → DistinctIds js → DistinctIds (drop_job k js)
unfolding drop_job
drop-DistinctIds k [] h = tt
drop-DistinctIds k (j ∷ js) h = branch (j.id == k) (drop-DistinctIds k js h.1)
  where
    branch :
        (b : Bool) → DistinctIds (drop_job k js) → DistinctIds (if b then js else j ∷ drop_job k js)
    branch true r = h.1
    branch false r = (drop-All (λ x. (x.id == j.id) ≡ false) k js h.0, r)
