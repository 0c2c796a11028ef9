-- ===== src/Queue/Well.antt =====
-- What holds of the daemon between two events (init/event.c), and that a handler of one job keeps it.
use mathlib.Core.Path.{subst}
use feature_d.Base.{
  ℕ, ◌+◌, ◌≤◌, ◌<◌, ◌==◌, Bool, true, false, if◌then◌else◌, All, List, [], ◌∷◌, Option, none, some,
  ◌≡◌, refl, sym, ◌∙◌, inl, inr, arith,
}
use feature_d.Event.{Events, blockers_of, find_event}
use feature_d.Job.{Job}
use feature_d.Job.Machine.{Ctx, World}
use feature_d.Job.Invariant.{Inv, Sound, Settled, Answerable}
use feature_d.Job.Ledger.{own, tree_refs, waiters, waits, Fresh, TreeOk, entry_of}
use feature_d.EventOperator.{EventOperator}
use feature_d.EventOperator.Values.{IsClear}
use feature_d.Queue.{
  Class, Daemon, put_job, drop_job, put_back, dropped, destroy_held, class_tree, drop_class,
  class_left, without_class,
}
use feature_d.Queue.Held.{
  all_own, all_wait, job_waits, DistinctIds, Found, put-All, drop-All, put-Older, put-DistinctIds,
  drop-DistinctIds,
}
use feature_d.Queue.Destroyed.{Released, destroy_held-ReleasedBy}

pub record JobOk (j : Job) : Type 0 where
  pub inv : Inv j
  pub kinds : All Answerable j.blocking
  pub limit : 0 < j.class.kill_timeout
  pub tree : TreeOk j.stop_on

abbrev pub class_refs : ℕ → List Class → ℕ
class_refs i [] = 0
class_refs i (c ∷ cs) = tree_refs i c.start_on + class_refs i cs

-- A tree that has seen no event.
abbrev pub Unseen : Option EventOperator → Type 0
Unseen none = Unit
Unseen (some t) = IsClear t

pub record ClassOk (c : Class) : Type 0 where
  pub start_ok : TreeOk c.start_on
  pub stop_ok : Unseen c.stop_on
  pub limit_ok : 0 < c.job_class.kill_timeout

-- All jobs are sound, with numbers of their own; what they hold has its blockers in the queue; and a
-- job stands in what the events block once where it waits, and `n` times more than that.
pub record WellBut (n : ℕ → ℕ) (dm : Daemon) : Type 0 where
  pub jobs_ok : All JobOk dm.jobs
  pub classes_ok : All ClassOk dm.classes
  pub older : All (λ j. j.id < dm.next_job) dm.jobs
  pub distinct : DistinctIds dm.jobs
  pub covered :
      (i : ℕ) → all_own i dm.jobs + class_refs i dm.classes ≤ blockers_of i dm.world.events
  pub fresh : Fresh dm.world.next_event dm.world.events
  pub waiting : (k : ℕ) → waiters k dm.world.events ≡ all_wait k dm.jobs + n k
  pub forks : (m : ℕ) → 0 < dm.world.sys.fork m

abbrev pub Well : Daemon → Type 0
Well = WellBut (λ k. 0)

abbrev pub at : Job → World → Ctx
at j w = record { job = j; world = w; freed = false }

pub drop_class-refs :
    (j i : ℕ) (cs : List Class)
    → class_refs j (drop_class i cs) + tree_refs j (class_tree i cs) ≡ class_refs j cs
unfolding drop_class class_tree
drop_class-refs j i [] = refl
drop_class-refs j i (c ∷ cs) = branch (c.job_class.id == i) (drop_class-refs j i cs)
  where
    branch :
        (b : Bool)
        → class_refs j (drop_class i cs) + tree_refs j (class_tree i cs) ≡ class_refs j cs
        → class_refs j (if b then cs else c ∷ drop_class i cs)
            + tree_refs j (if b then c.start_on else class_tree i cs)
          ≡ tree_refs j c.start_on + class_refs j cs
    branch true r = omega arith
    branch false r = omega (arith, r)

drop_class-All : (i : ℕ) (cs : List Class) → All ClassOk cs → All ClassOk (drop_class i cs)
unfolding drop_class
drop_class-All i [] h = tt
drop_class-All i (c ∷ cs) h = branch (c.job_class.id == i) (drop_class-All i cs h.1)
  where
    branch :
        (b : Bool)
        → All ClassOk (drop_class i cs)
        → All ClassOk (if b then cs else c ∷ drop_class i cs)
    branch true r = h.1
    branch false r = (h.0, r)

pub at-Sound :
    (n : ℕ → ℕ) (k : ℕ) (dm : Daemon) (j : Job)
    → WellBut n dm
    → Found k dm.jobs JobOk j
    → Sound (at j dm.world)
at-Sound n k dm j h f = record {
  inv = f.holds.inv;
  around = record {
    alive = refl;
    covered = record {
      kinds = f.holds.kinds;
      counts = λ i. omega (arith, h.covered i, f.own_drop i);
    };
    limit = f.holds.limit;
    forks = h.forks;
  };
}

-- What a handler leaves of a job and of the queue, as far as the other jobs are concerned; the job
-- stands `e` times more in the queue than it waits.
pub record Left (e : ℕ → ℕ) (j : Job) (w : World) (d : Ctx) : Type 0 where
  pub settled : Settled d
  pub same_id : d.job.id ≡ j.id
  pub same_sys : d.world.sys ≡ w.sys
  pub trees : TreeOk j.stop_on → TreeOk d.job.stop_on
  pub counts :
      (i : ℕ) → blockers_of i d.world.events + own i j ≡ blockers_of i w.events + own i d.job
  pub fresh : Fresh w.next_event w.events → Fresh d.world.next_event d.world.events
  pub waiting :
      Fresh w.next_event w.events
      → (k : ℕ) → waiters k d.world.events + job_waits k j ≡ waiters k w.events + waits k d + e k

abbrev pub Stays : (ℕ → ℕ) → World → Option Daemon → Type 0
Stays n v none = ⊥
Stays n v (some dm) =
    WellBut n dm
    × (dm.world.next_event ≡ v.next_event)
    × ((i : ℕ) → blockers_of i dm.world.events ≤ blockers_of i v.events)
    × ((i : ℕ) → entry_of (find_event i dm.world.events) ≡ entry_of (find_event i v.events))

gone_waits : (k : ℕ) (d : Ctx) → d.freed ≡ true → waits k d ≡ 0
gone_waits k d q = ground arith

here_waits : (k : ℕ) (d : Ctx) → d.freed ≡ false → waits k d ≡ job_waits k d.job
here_waits k d q = rw q refl

dropped-WellBut :
    (n e : ℕ → ℕ) (k : ℕ) (dm : Daemon) (j : Job) (d : Ctx) (es : Events)
    → WellBut n dm
    → Found k dm.jobs JobOk j
    → Left e j dm.world d
    → d.freed ≡ true
    → Released (λ i. tree_refs i d.job.stop_on) d.world.events es
    → WellBut
        (λ i. n i + e i)
        (record dm { jobs = drop_job d.job.id dm.jobs; world = record d.world { events = es } })
dropped-WellBut n e k dm j d es h f l q r = record {
  jobs_ok = drop-All JobOk d.job.id dm.jobs h.jobs_ok;
  classes_ok = h.classes_ok;
  older = drop-All (λ j. j.id < dm.next_job) d.job.id dm.jobs h.older;
  distinct = drop-DistinctIds d.job.id dm.jobs h.distinct;
  covered = λ i.
      rw (l.same_id ∙ f.is_it) (omega (arith, h.covered i, f.own_drop i, l.counts i, r.taken i));
  fresh = r.still_fresh d.world.next_event (l.fresh h.fresh);
  waiting = λ i.
      rw (l.same_id ∙ f.is_it) (
        omega (arith, r.kept i, l.waiting h.fresh i, gone_waits i d q, h.waiting i, f.wait_drop i));
  forks = λ m. rw l.same_sys (h.forks m);
}

class_left-Stays :
    (n : ℕ → ℕ) (i : ℕ) (b : Bool) (dm : Daemon)
    → WellBut n dm
    → Stays n dm.world (class_left i b dm)
class_left-Stays n i false dm h = (h, refl, λ j. omega arith, λ j. refl)
class_left-Stays n i true dm h =
    let (es, p, r) =
      destroy_held-ReleasedBy (class_tree i dm.classes) dm.world.events
        (λ j. omega (arith, h.covered j, drop_class-refs j i dm.classes)) in
    subst (λ x. Stays n dm.world (without_class i dm x)) (sym p)
      (
        record {
          jobs_ok = h.jobs_ok;
          classes_ok = drop_class-All i dm.classes h.classes_ok;
          older = h.older;
          distinct = h.distinct;
          covered = λ j. omega (arith, h.covered j, drop_class-refs j i dm.classes, r.taken j);
          fresh = r.still_fresh dm.world.next_event h.fresh;
          waiting = λ k. omega (arith, r.kept k, h.waiting k);
          forks = h.forks;
        },
        refl,
        λ j. omega (arith, r.taken j),
        r.same_entries,
      )

Stays-after :
    (n : ℕ → ℕ) (v w : World) (r : Option Daemon)
    → w.next_event ≡ v.next_event
    → ((i : ℕ) → blockers_of i w.events ≤ blockers_of i v.events)
    → ((i : ℕ) → entry_of (find_event i w.events) ≡ entry_of (find_event i v.events))
    → Stays n w r
    → Stays n v r
Stays-after n v w none a b c h = h
Stays-after n v w (some dm) a b c (h, x, y, z) =
    (h, x ∙ a, λ i. omega (arith, b i, y i), λ i. z i ∙ c i)

pub put_back-Stays :
    (n e : ℕ → ℕ) (k : ℕ) (dm : Daemon) (j : Job) (d : Ctx)
    → WellBut n dm
    → Found k dm.jobs JobOk j
    → Left e j dm.world d
    → Stays (λ i. n i + e i) d.world (put_back dm d)
put_back-Stays n e k dm j d h f l = branch d.freed refl
  where
    branch :
        (b : Bool)
        → d.freed ≡ b
        → Stays
            (λ i. n i + e i)
            d.world
            (if b
              then dropped dm d (destroy_held d.job.stop_on d.world.events)
              else some (record dm { jobs = put_job d.job dm.jobs; world = d.world }))
    branch true q =
        let (es, p, r) =
          destroy_held-ReleasedBy d.job.stop_on d.world.events
            (λ i. omega (arith, h.covered i, f.own_drop i, l.counts i)) in
        subst (λ x. Stays (λ i. n i + e i) d.world (dropped dm d x)) (sym p)
          (Stays-after (λ i. n i + e i) d.world (record d.world { events = es }) _ refl
            (λ i. omega (arith, r.taken i)) r.same_entries
            (class_left-Stays (λ i. n i + e i) _ _ _ (dropped-WellBut n e k dm j d es h f l q r)))
    branch false q = (
      record {
        jobs_ok = put-All JobOk d.job dm.jobs (ok l.settled q) h.jobs_ok;
        classes_ok = h.classes_ok;
        older = put-Older dm.next_job d.job dm.jobs h.older;
        distinct = put-DistinctIds d.job dm.jobs h.distinct;
        covered =
            λ i. omega (arith, h.covered i, f.own_put d.job (l.same_id ∙ f.is_it) i, l.counts i);
        fresh = l.fresh h.fresh;
        waiting = λ i. omega (
          arith,
          l.waiting h.fresh i,
          here_waits i d q,
          h.waiting i,
          f.wait_put d.job (l.same_id ∙ f.is_it) i,
        );
        forks = λ m. rw (l.same_sys) (h.forks m);
      },
      refl,
      λ i. omega arith,
      λ i. refl,
    )
      where
        ok : Settled d → d.freed ≡ false → JobOk d.job
        ok (inl g) q = absurd (ground arith)
        ok (inr s) q = record {
          inv = s.inv;
          kinds = s.around.covered.kinds;
          limit = s.around.limit;
          tree = l.trees f.holds.tree;
        }
