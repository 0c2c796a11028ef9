-- ===== src/Job/Ledger/Answers.antt =====
-- The answers of a job (job_finished) and its events (job_emit_event of init/job.c) keep the counts.
use feature_d.Base.{
  All, ℕ, suc, ◌+◌, ◌-◌, ◌<◌, ◌==◌, ltb, Bool, true, false, if◌then◌else◌, Bytes, Option, none,
  some, List, [], ◌∷◌, ◌++◌, ◌≡◌, refl, ◌∙◌, ap, arith,
}
use feature_d.Environ.{Env}
use feature_d.Event.{
  find_event, Event, Events, Blocked, blocked_job, blocked_event, blocked_emit_method, blockers_of,
  update_event, event_new, event_unblock,
}
use feature_d.Event.Blockers.{blockers_of-minus}
use feature_d.Job.Machine.{World, Ctx}
use feature_d.Job.Invariant.{is_event, count_event}
use feature_d.Job.Finished.{
  mark_failed, finish_blocked, finish_all, job_finished, Emits, waiting_job, emitted,
}
use feature_d.Job.Finished.Covered.{blockers_of-mark_failed}
use feature_d.Job.Ledger.{IsWaiter, IsOlder, entry_of, jobs_in, waiters, Fresh, Conserves, Partly}

pub waiters-update_event :
    (k i : ℕ) (f : Event → Event) (es : Events)
    → ((e : Event) → ((f e).id ≡ e.id) × ((f e).blocking ≡ e.blocking))
    → waiters k (update_event i f es) ≡ waiters k es
unfolding update_event
waiters-update_event k i f [] h = refl
waiters-update_event k i f (e ∷ es) h = ground (arith, h e, waiters-update_event k i f es h)

pub absent-update_event :
    (j i : ℕ) (f : Event → Event) (es : Events)
    → ((e : Event) → (f e).id ≡ e.id)
    → find_event j es ≡ none
    → find_event j (update_event i f es) ≡ none
unfolding update_event find_event
absent-update_event j i f [] h q = refl
absent-update_event j i f (e ∷ es) h q = ground (arith, h e, absent-update_event j i f es h)

pub Fresh-update_event :
    (n i : ℕ) (f : Event → Event) (es : Events)
    → ((e : Event) → (f e).id ≡ e.id)
    → ((e : Event) → IsOlder n e → IsOlder n (f e))
    → Fresh n es
    → Fresh n (update_event i f es)
unfolding update_event
Fresh-update_event n i f [] ids h k = tt
Fresh-update_event n i f (e ∷ es) ids h k =
    branch (e.id == i) (Fresh-update_event n i f es ids h k.1)
  where
    branch :
        (b : Bool)
        → Fresh n (update_event i f es)
        → Fresh n (if b then f e ∷ es else e ∷ update_event i f es)
    branch true r =
        let (l, w) = h e (k.0.0, k.0.1) in ((l, w, ap (λ j. find_event j es) (ids e) ∙ k.0.2), k.1)
    branch false r = ((k.0.0, k.0.1, absent-update_event e.id i f es ids k.0.2), r)

-- The part of the daemon that an answer changes.
record Answers (b : Blocked) (v w : World) : Type 0 where
  same_sys : w.sys ≡ v.sys
  same_next : w.next_event ≡ v.next_event
  taken : (i : ℕ) → blockers_of i w.events + is_event i b ≡ blockers_of i v.events
  kept : (k : ℕ) → waiters k w.events ≡ waiters k v.events
  fresh : (n : ℕ) → Fresh n v.events → Fresh n w.events
  entries : (j : ℕ) → entry_of (find_event j w.events) ≡ entry_of (find_event j v.events)

abbrev Answered : Blocked → World → Option World → Type 0
Answered b v none = Unit
Answered b v (some w) = Answers b v w

mark_failed-Fresh :
    (failed : Bool) (i n : ℕ) (es : Events) → Fresh n es → Fresh n (mark_failed failed i es)
mark_failed-Fresh true i n es h = Fresh-update_event n i _ es (λ e. refl) (λ e o. o) h
mark_failed-Fresh false i n es h = h

waiters-mark_failed :
    (failed : Bool) (i k : ℕ) (es : Events) → waiters k (mark_failed failed i es) ≡ waiters k es
waiters-mark_failed true i k es = waiters-update_event k i _ es (λ e. (refl, refl))
waiters-mark_failed false i k es = refl

pub entries-update_event :
    (j i : ℕ) (f : Event → Event) (es : Events)
    → ((e : Event) → ((f e).id ≡ e.id) × ((f e).blocking ≡ e.blocking))
    → entry_of (find_event j (update_event i f es)) ≡ entry_of (find_event j es)
unfolding update_event find_event
entries-update_event j i f [] h = refl
entries-update_event j i f (e ∷ es) h = ground (arith, h e, entries-update_event j i f es h)

entries-mark_failed :
    (failed : Bool) (i j : ℕ) (es : Events)
    → entry_of (find_event j (mark_failed failed i es)) ≡ entry_of (find_event j es)
entries-mark_failed true i j es = entries-update_event j i _ es (λ e. (refl, refl))
entries-mark_failed false i j es = refl

event_Answered :
    (failed : Bool) (i : ℕ) (w : World)
    → Answered (blocked_event i) w (finish_blocked failed (blocked_event i) w)
unfolding finish_blocked event_unblock
event_Answered failed i w = branch (ltb 0 (blockers_of i marked)) refl
  where
    marked : Events
    marked = mark_failed failed i w.events

    unblocked : Events
    unblocked = update_event i (λ e. record e { blockers = e.blockers - 1 }) marked

    branch :
        (b : Bool)
        → ltb 0 (blockers_of i marked) ≡ b
        → Answered (blocked_event i) w (elim (if b then some unblocked else none) [
          | none ↦ none
          | some es ↦ some (record w { events = es })
        ])
    branch false q = tt
    branch true q = record {
      same_sys = refl;
      same_next = refl;
      taken = λ j.
          ground (arith, blockers_of-minus i j marked, blockers_of-mark_failed failed i j w.events);
      kept = λ k.
          waiters-update_event k i _ marked (λ e. (refl, refl))
          ∙ waiters-mark_failed failed i k w.events;
      fresh = λ n h.
          Fresh-update_event n i _ marked (λ e. refl) (λ e o. o)
            (mark_failed-Fresh failed i n w.events h);
      entries = λ j.
          entries-update_event j i _ marked (λ e. (refl, refl))
          ∙ entries-mark_failed failed i j w.events;
    }

method_Answered :
    (b : Blocked) (w v : World)
    → v.events ≡ w.events
    → v.sys ≡ w.sys
    → v.next_event ≡ w.next_event
    → ((i : ℕ) → is_event i b ≡ 0)
    → Answers b w v
method_Answered b w v e s n z = record {
  same_sys = s;
  same_next = n;
  taken = λ i. rw e (omega (arith, z i));
  kept = λ k. rw e refl;
  fresh = λ n h. rw e h;
  entries = λ j. rw e refl;
}

blocked-Answered :
    (failed : Bool) (b : Blocked) (w : World) → Answered b w (finish_blocked failed b w)
unfolding finish_blocked
blocked-Answered failed (blocked_event i) w = event_Answered failed i w
blocked-Answered failed (blocked_job i) w = tt
blocked-Answered failed (blocked_emit_method m) w = tt
blocked-Answered true b w = method_Answered b w _ refl refl refl (λ i. refl)
blocked-Answered false b w = method_Answered b w _ refl refl refl (λ i. refl)

-- What the answers to a list of entries change.
abbrev AllAnswered : List Blocked → World → Option World → Type 0
AllAnswered bs v none = Unit
AllAnswered bs v (some w) =
    (w.sys ≡ v.sys)
    × (w.next_event ≡ v.next_event)
    × ((i : ℕ) → blockers_of i w.events + count_event i bs ≡ blockers_of i v.events)
    × ((k : ℕ) → waiters k w.events ≡ waiters k v.events)
    × ((n : ℕ) → Fresh n v.events → Fresh n w.events)
    × ((j : ℕ) → entry_of (find_event j w.events) ≡ entry_of (find_event j v.events))

finish_all-AllAnswered :
    (failed : Bool) (bs : List Blocked) (w : World) → AllAnswered bs w (finish_all failed bs w)
unfolding finish_all
finish_all-AllAnswered failed [] w = (refl, refl, λ i. omega arith, λ k. refl, λ n h. h, λ j. refl)
finish_all-AllAnswered failed (b ∷ bs) w =
    first (finish_blocked failed b w) (blocked-Answered failed b w)
      (λ v. finish_all-AllAnswered failed bs v)
  where
    last :
        (v : World) (r : Option World)
        → Answers b w v
        → AllAnswered bs v r
        → AllAnswered (b ∷ bs) w r
    last v none h k = tt
    last v (some u) h (s, n, c, l, f, g) = (
      s ∙ h.same_sys,
      n ∙ h.same_next,
      λ i. omega (arith, c i, h.taken i),
      λ j. l j ∙ h.kept j,
      λ m q. f m (h.fresh m q),
      λ j. g j ∙ h.entries j,
    )

    first :
        (r : Option World)
        → Answered b w r
        → ((v : World) → AllAnswered bs v (finish_all failed bs v))
        → AllAnswered (b ∷ bs) w (elim r [ none ↦ none | some v ↦ finish_all failed bs v ])
    first none h k = tt
    first (some v) h k = last v (finish_all failed bs v) h (k v)

-- The counts are kept, and the job is as it was but for what it blocks.
abbrev pub FinishedAs : Ctx → Ctx → Type 0
FinishedAs c d =
    Conserves c d
    × (d.job.blocker ≡ c.job.blocker)
    × (d.freed ≡ c.freed)
    × (d.job.state ≡ c.job.state)
    × (d.job.stop_on ≡ c.job.stop_on)

-- `job_finished` takes the blockers of the job off the events.
pub job_finished-Conserves :
    (failed : Bool) (c : Ctx) → Partly (λ _ d. FinishedAs c d) (job_finished failed c)
unfolding job_finished
job_finished-Conserves failed c =
    done (finish_all failed c.job.blocking c.world)
      (finish_all-AllAnswered failed c.job.blocking c.world)
  where
    done :
        (r : Option World)
        → AllAnswered c.job.blocking c.world r
        → Partly
            (λ _ d. FinishedAs c d)
            (elim r [
              | none ↦ none
              | some w ↦ some (tt, record c { job = record c.job { blocking = [] }; world = w })
            ])
    done none h = tt
    done (some w) (s, n, q, l, f, g) = (
      record {
        accounts = record {
          same_id = refl;
          same_sys = s;
          trees = λ t. t;
          counts = λ i. omega (arith, q i);
          fresh = λ h. rw n (f c.world.next_event h);
          waiting = λ h k. omega (arith, l k);
          later = omega (arith, n);
          entries = λ h i m. g i;
        };
        sheds = λ i. omega (arith, q i);
      },
      refl,
      refl,
      refl,
      refl,
    )

pub waiters-append : (k : ℕ) (es fs : Events) → waiters k (es ++ fs) ≡ waiters k es + waiters k fs
waiters-append k [] fs = omega arith
waiters-append k (e ∷ es) fs = omega (arith, waiters-append k es fs)

-- The new event stands behind older ones, so the update meets no other.
waiters-new :
    (k i : ℕ) (session : Option ℕ) (bs : List Blocked) (name : Bytes) (env : Env) (es : Events)
    → Fresh i es
    → waiters k (
        update_event i
          (λ v. record v { session = session; blocking = bs })
          (event_new i name env es))
      ≡ waiters k es + jobs_in k bs
unfolding update_event event_new
waiters-new k i session bs name env [] h = ground arith
waiters-new k i session bs name env (e ∷ es) h =
    ground (arith, h.0.0, waiters-new k i session bs name env es h.1)

absent-new :
    (j i : ℕ) (name : Bytes) (env : Env) (es : Events)
    → (i == j) ≡ false
    → find_event j es ≡ none
    → find_event j (event_new i name env es) ≡ none
unfolding find_event event_new
absent-new j i name env [] h q = ground arith
absent-new j i name env (e ∷ es) h q = ground (arith, absent-new j i name env es h)

pub Fresh-new :
    (i n : ℕ) (name : Bytes) (env : Env) (es : Events)
    → i < n
    → Fresh i es
    → Fresh n (event_new i name env es)
unfolding event_new find_event
Fresh-new i n name env [] l h = ((l, tt, refl), tt)
Fresh-new i n name env (e ∷ es) l h = (
  (omega (arith, l, h.0.0), h.0.1, absent-new e.id i name env es (ground (arith, h.0.0)) h.0.2),
  Fresh-new i n name env es l h.1,
)

may_wait : (b : Bool) (k : ℕ) → All IsWaiter (waiting_job b k)
may_wait true k = (tt, tt)
may_wait false k = tt

pub Fresh-emitted :
    (e : Emits) (c : Ctx)
    → Fresh c.world.next_event c.world.events
    → Fresh (suc c.world.next_event) (emitted e c)
unfolding emitted
Fresh-emitted e c h =
    let n = c.world.next_event in
    Fresh-update_event (suc n) n _ _ (λ v. refl) (λ v o. (o.0, may_wait e.block c.job.id))
      (Fresh-new n (suc n) e.event _ c.world.events (omega arith) h)

-- The job stands in the event that it emits where it waits for it.
pub waiters-emitted :
    (k : ℕ) (e : Emits) (c : Ctx)
    → Fresh c.world.next_event c.world.events
    → waiters k (emitted e c) ≡ waiters k c.world.events + jobs_in k (waiting_job e.block c.job.id)
unfolding emitted
waiters-emitted k e c h =
    waiters-new k c.world.next_event c.job.class.session (waiting_job e.block c.job.id) e.event _
      c.world.events h

entries-new :
    (j i : ℕ) (session : Option ℕ) (bs : List Blocked) (name : Bytes) (env : Env) (es : Events)
    → Fresh i es
    → j < i
    → entry_of (
        find_event j (
          update_event i
            (λ v. record v { session = session; blocking = bs })
            (event_new i name env es)))
      ≡ entry_of (find_event j es)
unfolding update_event event_new find_event
entries-new j i session bs name env [] f h = ground arith
entries-new j i session bs name env (e ∷ es) f h =
    ground (arith, f.0.0, entries-new j i session bs name env es f.1 h)

pub entries-emitted :
    (j : ℕ) (e : Emits) (c : Ctx)
    → Fresh c.world.next_event c.world.events
    → j < c.world.next_event
    → entry_of (find_event j (emitted e c)) ≡ entry_of (find_event j c.world.events)
unfolding emitted
entries-emitted j e c f h =
    entries-new j c.world.next_event c.job.class.session (waiting_job e.block c.job.id) e.event _
      c.world.events f h
