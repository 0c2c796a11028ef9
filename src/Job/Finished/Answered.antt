-- ===== src/Job/Finished/Answered.antt =====
-- What those who wait on a job are told when it has finished or failed (`job_finished` of init/job.c).
use mathlib.Core.Path.{subst}
use feature_d.Base.{
  ℕ, ◌+◌, ◌-◌, ◌≤◌, ltb, Bool, true, false, ◌||◌, if◌then◌else◌, is_some, Option, none, some, List,
  [], ◌∷◌, ◌≡◌, refl, sym, ap, ◌∙◌, arith,
}
use feature_d.Event.{
  Event, Events, Blocked, blocked_job, blocked_event, blocked_emit_method, blocked_job_start_method,
  blocked_job_stop_method, blocked_job_restart_method, blocked_instance_start_method,
  blocked_instance_stop_method, blocked_instance_restart_method, blockers_of, count_of, find_event,
  update_event, event_unblock,
}
use feature_d.Job.Machine.{World, Ctx, Output, replied, replied_error}
use feature_d.Job.Invariant.{Answerable, is_event, count_event, Covered}
use feature_d.Job.Finished.{mark_failed, finish_blocked, finish_all, job_finished}
use feature_d.Job.Finished.Covered.{SameRest, finish_blocked_ok, finish_all_ok}

-- What one entry is told: a call gets its reply, an event none.
abbrev pub told : Bool → Blocked → List Output → List Output
told failed (blocked_job i) out = out
told failed (blocked_event i) out = out
told failed (blocked_emit_method m) out = out
told true b out = replied_error b ∷ out
told false b out = replied b ∷ out

-- The replies to the calls that wait, the last one on top.
abbrev pub replies : Bool → List Blocked → List Output → List Output
replies failed [] out = out
replies failed (b ∷ bs) out = replies failed bs (told failed b out)

abbrev pub is_failed : Option Event → Bool
is_failed none = false
is_failed (some e) = e.failed

-- The event is marked failed, if it was or if it is one of those that a failed job blocks.
abbrev pub fails : Bool → List Blocked → ℕ → Bool → Bool
fails true bs i was = was || ltb 0 (count_event i bs)
fails false bs i was = was

mark_fails :
    (failed : Bool) (j i : ℕ) (es : Events)
    → is_some (find_event j es) ≡ true
    → is_failed (find_event i (mark_failed failed j es))
      ≡ fails failed (blocked_event j ∷ []) i (is_failed (find_event i es))
unfolding find_event update_event
mark_fails false j i es h = refl
mark_fails true j i [] h = absurd (ground arith)
mark_fails true j i (e ∷ es) h = ground (arith, mark_fails true j i es)

unblock_fails :
    (j i : ℕ) (es : Events)
    → is_failed (find_event i (update_event j (λ e. record e { blockers = e.blockers - 1 }) es))
      ≡ is_failed (find_event i es)
unfolding find_event update_event
unblock_fails j i [] = refl
unblock_fails j i (e ∷ es) = ground (arith, unblock_fails j i es)

in_queue : (j : ℕ) (es : Events) → 1 ≤ blockers_of j es → is_some (find_event j es) ≡ true
unfolding blockers_of
in_queue j es h = counted (find_event j es) h
  where
    counted : (r : Option Event) → 1 ≤ count_of r → is_some r ≡ true
    counted none h = absurd (omega arith)
    counted (some e) h = refl

-- All of them have been told, and the events that they name are marked as they should be.
record Told (failed : Bool) (bs : List Blocked) (v w : World) : Type 0 where
  out : w.out ≡ replies failed bs v.out
  marked :
      (i : ℕ)
      → is_failed (find_event i w.events) ≡ fails failed bs i (is_failed (find_event i v.events))

abbrev ToldBy : Bool → List Blocked → World → Option World → Type 0
ToldBy failed bs v none = Unit
ToldBy failed bs v (some w) = Told failed bs v w

call_told :
    (failed : Bool) (b : Blocked) (v : World)
    → ((i : ℕ) → is_event i b ≡ 0)
    → Told failed (b ∷ []) v (record v { out = told failed b v.out })
call_told true b v z = record { out = refl; marked = λ i. ground (arith, z i) }
call_told false b v z = record { out = refl; marked = λ i. refl }

one_told :
    (failed : Bool) (b : Blocked) (v : World)
    → Answerable b
    → ((i : ℕ) → is_event i b ≤ blockers_of i v.events)
    → ToldBy failed (b ∷ []) v (finish_blocked failed b v)
unfolding finish_blocked event_unblock
one_told failed (blocked_event j) v a h =
    branch (ltb 0 (blockers_of j (mark_failed failed j v.events)))
  where
    branch :
        (c : Bool)
        → ToldBy failed
            (blocked_event j ∷ [])
            v
            (elim (if c
                then some (
                    update_event j
                      (λ e. record e { blockers = e.blockers - 1 })
                      (mark_failed failed j v.events))
                else none)
              as (λ _. Option World) [ none ↦ none | some es ↦ some (record v { events = es }) ])
    branch true = record {
      out = refl;
      marked = λ i.
          unblock_fails j i (mark_failed failed j v.events)
          ∙ mark_fails failed j i v.events (in_queue j v.events (ground (arith, h j)));
    }
    branch false = tt
one_told failed (blocked_job i) v a h = tt
one_told failed (blocked_emit_method m) v a h = tt
one_told true (blocked_job_start_method m) v a h =
    call_told true (blocked_job_start_method m) v (λ i. refl)
one_told false (blocked_job_start_method m) v a h =
    call_told false (blocked_job_start_method m) v (λ i. refl)
one_told true (blocked_job_stop_method m) v a h =
    call_told true (blocked_job_stop_method m) v (λ i. refl)
one_told false (blocked_job_stop_method m) v a h =
    call_told false (blocked_job_stop_method m) v (λ i. refl)
one_told true (blocked_job_restart_method m) v a h =
    call_told true (blocked_job_restart_method m) v (λ i. refl)
one_told false (blocked_job_restart_method m) v a h =
    call_told false (blocked_job_restart_method m) v (λ i. refl)
one_told true (blocked_instance_start_method m) v a h =
    call_told true (blocked_instance_start_method m) v (λ i. refl)
one_told false (blocked_instance_start_method m) v a h =
    call_told false (blocked_instance_start_method m) v (λ i. refl)
one_told true (blocked_instance_stop_method m) v a h =
    call_told true (blocked_instance_stop_method m) v (λ i. refl)
one_told false (blocked_instance_stop_method m) v a h =
    call_told false (blocked_instance_stop_method m) v (λ i. refl)
one_told true (blocked_instance_restart_method m) v a h =
    call_told true (blocked_instance_restart_method m) v (λ i. refl)
one_told false (blocked_instance_restart_method m) v a h =
    call_told false (blocked_instance_restart_method m) v (λ i. refl)

fails_twice :
    (failed : Bool) (b : Blocked) (bs : List Blocked) (i : ℕ) (was : Bool)
    → fails failed bs i (fails failed (b ∷ []) i was) ≡ fails failed (b ∷ bs) i was
fails_twice true b bs i was = ground arith
fails_twice false b bs i was = refl

Told-trans :
    (failed : Bool) (b : Blocked) (bs : List Blocked) (u v w : World)
    → Told failed (b ∷ []) u v
    → Told failed bs v w
    → Told failed (b ∷ bs) u w
Told-trans failed b bs u v w h k = record {
  out = k.out ∙ ap (replies failed bs) h.out;
  marked = λ i.
      k.marked i
      ∙ ap (fails failed bs i) (h.marked i)
      ∙ fails_twice failed b bs i (is_failed (find_event i u.events));
}

all_told :
    (failed : Bool) (bs : List Blocked) (v : World)
    → Covered bs v.events
    → ToldBy failed bs v (finish_all failed bs v)
unfolding finish_all
all_told failed [] v h = record { out = refl; marked = λ i. none_marked failed i _ }
  where
    none_marked : (f : Bool) (i : ℕ) (was : Bool) → was ≡ fails f [] i was
    none_marked true i was = ground arith
    none_marked false i was = refl
all_told failed (b ∷ bs) v h =
    let (w, p, (same, one)) =
      finish_blocked_ok failed b v h.kinds.0 (λ i. omega (arith, h.counts i)) in
    subst (λ r. ToldBy failed (b ∷ bs) v (elim r [ none ↦ none | some x ↦ finish_all failed bs x ]))
      (sym p)
      (after w
        (subst (ToldBy failed (b ∷ []) v) p
          (one_told failed b v h.kinds.0 (λ i. omega (arith, h.counts i))))
        (finish_all failed bs w)
        (all_told failed bs w
          (record { kinds = h.kinds.1; counts = λ i. omega (arith, h.counts i, one i) })))
  where
    after :
        (w : World)
        → Told failed (b ∷ []) v w
        → (r : Option World) → ToldBy failed bs w r
        → ToldBy failed (b ∷ bs) v r
    after w h none k = tt
    after w h (some x) k = Told-trans failed b bs v w x h k

-- `job_finished` answers all that waits on the job: no assertion fails and nothing is left waiting.
-- Every call gets its reply, an error where the job failed, in the order of the list; every event
-- that the job blocks is marked failed where the job failed, no other event is, and each event has
-- just the blockers less that the job had on it. What the job blocks has to be of a kind that waits
-- on a job, and to be in the queue with its blockers.
pub job_finished-Answers :
    (failed : Bool) (c : Ctx)
    → Covered c.job.blocking c.world.events
    → (w : World) × (job_finished failed c
        ≡ some (tt, record c { job = record c.job { blocking = [] }; world = w }))
      × SameRest c.world w
      × ((i : ℕ)
          → blockers_of i w.events + count_event i c.job.blocking ≡ blockers_of i c.world.events)
      × (w.out ≡ replies failed c.job.blocking c.world.out)
      × ((i : ℕ)
          → is_failed (find_event i w.events)
            ≡ fails failed c.job.blocking i (is_failed (find_event i c.world.events)))
unfolding job_finished
job_finished-Answers failed c h =
    let (w, q, same, counts) = finish_all_ok failed c.job.blocking c.world h in
    let t =
      subst (ToldBy failed c.job.blocking c.world) q (all_told failed c.job.blocking c.world h) in
    (w, rw (q, job_finished) refl, same, counts, t.out, t.marked)
