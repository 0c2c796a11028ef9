-- ===== src/Job/Finished/Covered.antt =====
-- What `job_finished` and `job_emit_event` (init/job.c) do to the blockers of the queue.
use feature_d.Base.{ℕ, ◌+◌, ◌≤◌, Bool, true, false, some, List, [], ◌∷◌, ◌≡◌, refl, ◌∙◌, arith}
use feature_d.Event.{
  Event, Events, Blocked, blocked_job, blocked_event, blocked_emit_method, blockers_of,
}
use feature_d.Event.Blockers.{
  event_unblock_ok, blockers_of-update_event_keep, blockers_of-event_new,
}
use feature_d.Job.Machine.{World, Ctx, Output}
use feature_d.Job.Invariant.{Answerable, is_event, count_event, Covered}
use feature_d.Job.Finished.{
  mark_failed, finish_blocked, finish_all, job_finished, Emits, waiting_job, emitted,
}

-- The rest of the daemon that the state of a job depends on is as it was.
pub record SameRest (v w : World) : Type 0 where
  pub sys : w.sys ≡ v.sys
  pub apparmor : w.apparmor ≡ v.apparmor
  pub forks : w.forks ≡ v.forks
  pub next_event : w.next_event ≡ v.next_event

same_rest :
    {w : World} {es : List Event} {out : List Output}
    → SameRest w (record w { events = es; out = out })
same_rest = record { sys = refl; apparmor = refl; forks = refl; next_event = refl }

SameRest-trans : {u v w : World} → SameRest u v → SameRest v w → SameRest u w
SameRest-trans h k = record {
  sys = k.sys ∙ h.sys;
  apparmor = k.apparmor ∙ h.apparmor;
  forks = k.forks ∙ h.forks;
  next_event = k.next_event ∙ h.next_event;
}

pub blockers_of-mark_failed :
    (failed : Bool) (i j : ℕ) (es : Events)
    → blockers_of j (mark_failed failed i es) ≡ blockers_of j es
blockers_of-mark_failed true i j es =
    blockers_of-update_event_keep i j (λ e. record e { failed = true }) es (λ e. (refl, refl))
blockers_of-mark_failed false i j es = refl

-- One answer takes one blocker off the event that it is about, and none off another.
abbrev Answered : Blocked → World → World → Type 0
Answered b v w =
    SameRest v w × ((i : ℕ) → blockers_of i w.events + is_event i b ≡ blockers_of i v.events)

pub finish_blocked_ok :
    (failed : Bool) (b : Blocked) (w : World)
    → Answerable b
    → ((i : ℕ) → is_event i b ≤ blockers_of i w.events)
    → (w' : World) × (finish_blocked failed b w ≡ some w') × Answered b w w'
unfolding finish_blocked
finish_blocked_ok failed (blocked_event j) w a h =
    let (es, q, counts) =
      event_unblock_ok j (mark_failed failed j w.events)
        (ground (arith, h j, blockers_of-mark_failed failed j j w.events)) in
    (
      record w { events = es },
      rw (q, finish_blocked) refl,
      (same_rest, λ i. ground (arith, counts i, h i, blockers_of-mark_failed failed j i w.events)),
    )
finish_blocked_ok failed (blocked_job i) w a h = absurd a
finish_blocked_ok failed (blocked_emit_method m) w a h = absurd a
finish_blocked_ok true _ w a h = (_, refl, (same_rest, λ i. omega arith))
finish_blocked_ok false _ w a h = (_, refl, (same_rest, λ i. omega arith))

pub finish_all_ok :
    (failed : Bool) (bs : List Blocked) (w : World)
    → Covered bs w.events
    → (w' : World) × (finish_all failed bs w ≡ some w')
      × SameRest w w'
      × ((i : ℕ) → blockers_of i w'.events + count_event i bs ≡ blockers_of i w.events)
unfolding finish_all
finish_all_ok failed [] w h = (w, refl, same_rest, λ i. omega arith)
finish_all_ok failed (b ∷ bs) w h =
    let (v, p, (same, one)) =
      finish_blocked_ok failed b w h.kinds.0 (λ i. omega (arith, h.counts i)) in
    let (w', q, same', all) =
      finish_all_ok failed bs v
        (record { kinds = h.kinds.1; counts = λ i. omega (arith, h.counts i, one i) }) in
    (w', rw (p, finish_all) q, SameRest-trans same same', λ i. omega (arith, one i, all i))

-- No assertion fails, nothing is left waiting, and each event has just the blockers less that the job
-- had on it.
pub job_finished_ok :
    (failed : Bool) (c : Ctx)
    → Covered c.job.blocking c.world.events
    → (w : World) × (job_finished failed c
        ≡ some (tt, record c { job = record c.job { blocking = [] }; world = w }))
      × SameRest c.world w
      × ((i : ℕ)
          → blockers_of i w.events + count_event i c.job.blocking ≡ blockers_of i c.world.events)
unfolding job_finished
job_finished_ok failed c h =
    let (w, q, same, counts) = finish_all_ok failed c.job.blocking c.world h in
    (w, rw (q, job_finished) refl, same, counts)

pub Covered-nil : (es : List Event) → Covered [] es
Covered-nil es = record { kinds = tt; counts = λ i. omega arith }

-- A new event takes no blocker away.
pub blockers_of-emitted :
    (e : Emits) (c : Ctx) (i : ℕ) → blockers_of i (emitted e c) ≡ blockers_of i c.world.events
unfolding emitted
blockers_of-emitted e c i =
    blockers_of-update_event_keep c.world.next_event i
      (λ v. record v { session = c.job.class.session; blocking = waiting_job e.block c.job.id }) _
      (λ v. (refl, refl))
    ∙ blockers_of-event_new c.world.next_event i e.event _ c.world.events
