-- ===== src/Queue/Finished.antt =====
-- An event that has finished (event_finished of init/event.c) lets go all that it blocks.
use feature_d.Base.{
  ℕ, ◌+◌, ◌≤◌, ◌<◌, ◌==◌, Bool, true, false, ◌&&◌, not, if◌then◌else◌, is_some, All, Option, none,
  some, List, [], ◌∷◌, ◌≡◌, refl, sym, ◌∙◌, arith,
}
use feature_d.Event.{
  Event, Events, Blocked, blocked_job, blocked_emit_method, blockers_of, find_event, update_event,
}
use feature_d.Event.Blockers.{blockers_of-update_event_keep}
use feature_d.Job.{Job}
use feature_d.Job.Machine.{Ctx, World, Ensures}
use feature_d.Job.Invariant.{Settled}
use feature_d.Job.Change.{event_released}
use feature_d.Job.Change.Handlers.{event_released-Settled}
use feature_d.Job.Change.Ledger.{KeepsCounts, job_advance-KeepsCounts}
use feature_d.Job.Ledger.{
  is_job, jobs_in, waiters, waits, one_if, Fresh, IsWaiter, IsOlder, entry_of, Conserves,
}
use feature_d.Job.Ledger.Answers.{Fresh-update_event}
use feature_d.Queue.{
  Daemon, find_job, put_back, handled, on_found, run_on, tail, drop_entry, finish_entry,
  finish_entries,
}
use feature_d.Queue.Held.{job_waits, Found, FoundIn, find-Found}
use feature_d.Queue.Well.{JobOk, WellBut, Well, at, at-Sound, Stays, put_back-Stays}

-- The daemon after a step: `n` is how much too often jobs stand in the queue.
abbrev pub Follows : (ℕ → ℕ) → World → Option Daemon → Type 0
Follows n w none = ⊥
Follows n w (some dm) =
    WellBut n dm
    × (w.next_event ≤ dm.world.next_event)
    × ((i : ℕ) → blockers_of i dm.world.events ≤ blockers_of i w.events)
    × ((i : ℕ)
        → i < w.next_event
        → entry_of (find_event i dm.world.events) ≡ entry_of (find_event i w.events))

kept-Follows :
    (n : ℕ → ℕ) (w : World) (j : Job) (d : Ctx) (r : Option Daemon)
    → Stays n d.world r
    → Fresh w.next_event w.events
    → Conserves (record (at j w) { job = record j { blocker = none } }) d
    → Follows n w r
kept-Follows n w j d none h f c = h
kept-Follows n w j d (some dm) (k, m, s, e) f c = (
  k,
  omega (arith, m, c.accounts.later),
  λ i. omega (arith, s i, c.sheds i),
  λ i l. e i ∙ c.accounts.entries f i l,
)

free_waits :
    (k : ℕ) (j : Job) (w : World)
    → waits k (record (at j w) { job = record j { blocker = none } }) ≡ 0
free_waits k j w = ground arith

released_job :
    (k : ℕ) (dm : Daemon) (j : Job)
    → Well dm
    → Found k dm.jobs JobOk j
    → is_some j.blocker ≡ true
    → Follows (λ i. 0 + job_waits i j) dm.world (handled dm (event_released (at j dm.world)))
unfolding event_released
released_job k dm j h f b =
    after (event_released (at j dm.world))
      (event_released-Settled (at j dm.world) (at-Sound _ k dm j h f) (sym f.holds.inv.blocked ∙ b))
      (job_advance-KeepsCounts (record (at j dm.world) { job = record j { blocker = none } }) refl)
  where
    after :
        (r : Option (Unit {0} × Ctx))
        → Ensures (λ _ d. Settled d) r
        → KeepsCounts (record (at j dm.world) { job = record j { blocker = none } }) r
        → Follows (λ i. 0 + job_waits i j) dm.world (handled dm r)
    after none s c = s
    after (some (u, d)) s c =
        kept-Follows (λ i. 0 + job_waits i j) dm.world j d (put_back dm d)
          (put_back-Stays (λ i. 0) (λ i. job_waits i j) k dm j d h f
            (record {
              settled = s;
              same_id = c.accounts.same_id;
              same_sys = c.accounts.same_sys;
              trees = c.accounts.trees;
              counts = c.accounts.counts;
              fresh = c.accounts.fresh;
              waiting = λ g i. omega (arith, c.accounts.waiting g i, free_waits i j dm.world);
            }))
          h.fresh c

waiters-drop :
    (i : ℕ) (b : Blocked) (bs : List Blocked) (es : Events)
    → entry_of (find_event i es) ≡ some (b ∷ bs)
    → (k : ℕ)
    → waiters k (update_event i (λ e. record e { blocking = tail e.blocking }) es) + is_job k b
      ≡ waiters k es
unfolding update_event find_event
waiters-drop i b bs [] q k = absurd (ground arith)
waiters-drop i b bs (e ∷ es) q k = branch (e.id == i) q (waiters-drop i b bs es)
  where
    later : Events
    later = update_event i (λ e. record e { blocking = tail e.blocking }) es

    head : e.blocking ≡ b ∷ bs → jobs_in k (tail e.blocking) + is_job k b ≡ jobs_in k e.blocking
    head p = rw p (omega arith)

    branch :
        (c : Bool)
        → entry_of (if c then some e else find_event i es) ≡ some (b ∷ bs)
        → (entry_of (find_event i es) ≡ some (b ∷ bs)
            → (k : ℕ) → waiters k later + is_job k b ≡ waiters k es)
        → waiters k (if c then record e { blocking = tail e.blocking } ∷ es else e ∷ later)
            + is_job k b
          ≡ jobs_in k e.blocking + waiters k es
    branch true p f = omega (arith, head (ground arith))
    branch false p f = omega (arith, f p k)

entry-drop :
    (i : ℕ) (b : Blocked) (bs : List Blocked) (es : Events)
    → entry_of (find_event i es) ≡ some (b ∷ bs)
    → entry_of (find_event i (update_event i (λ e. record e { blocking = tail e.blocking }) es))
      ≡ some bs
unfolding update_event find_event
entry-drop i b bs [] q = absurd (ground arith)
entry-drop i b bs (e ∷ es) q = ground (arith, entry-drop i b bs es)

tail-Older : (n : ℕ) (e : Event) → IsOlder n e → IsOlder n (record e { blocking = tail e.blocking })
tail-Older n e (l, w) = (l, rest e.blocking w)
  where
    rest : (bs : List Blocked) → All IsWaiter bs → All IsWaiter (tail bs)
    rest [] w = tt
    rest (b ∷ bs) w = w.1

Follows-ext :
    (n m : ℕ → ℕ) (w : World) (r : Option Daemon)
    → ((i : ℕ) → n i ≡ m i)
    → Follows n w r
    → Follows m w r
Follows-ext n m w none e h = h
Follows-ext n m w (some dm) e (h, l, s, q) = (
  record {
    jobs_ok = h.jobs_ok;
    classes_ok = h.classes_ok;
    older = h.older;
    distinct = h.distinct;
    covered = h.covered;
    fresh = h.fresh;
    waiting = λ k. omega (arith, h.waiting k, e k);
    forks = h.forks;
  },
  l,
  s,
  q,
)

job_waits-is_job :
    (k i : ℕ) (j : Job)
    → j.id ≡ k
    → is_some j.blocker ≡ true
    → 0 + job_waits i j ≡ is_job i (blocked_job k)
job_waits-is_job k i j e b = rw (e, b) (waits_there (k == i))
  where
    waits_there : (c : Bool) → 0 + one_if (not false && c && true) ≡ (if c then 1 else 0)
    waits_there true = omega arith
    waits_there false = omega arith

waiting_blocker : (k : ℕ) (j : Job) → 1 ≤ job_waits k j → is_some j.blocker ≡ true
waiting_blocker k j h = ground arith

-- The job that the entry is about is there and waits.
job-Follows :
    (k : ℕ) (dm : Daemon) (r : Option Job)
    → Well dm
    → 1 ≤ waiters k dm.world.events
    → FoundIn k dm.jobs JobOk r
    → Follows (λ x. is_job x (blocked_job k)) dm.world (on_found event_released dm r)
job-Follows k dm none h w f = absurd (ground (arith, f, h.waiting k))
job-Follows k dm (some j) h w f =
    let b = waiting_blocker k j (omega (arith, w, h.waiting k, f.alone h.distinct)) in
    Follows-ext (λ i. 0 + job_waits i j) (λ x. is_job x (blocked_job k)) dm.world
      (handled dm (event_released (at j dm.world))) (λ i. job_waits-is_job k i j f.is_it b)
      (released_job k dm j h f b)

entry-Follows :
    (i : ℕ) (b : Blocked) (bs : List Blocked) (dm : Daemon)
    → Well dm
    → entry_of (find_event i dm.world.events) ≡ some (b ∷ bs)
    → IsWaiter b
    → Follows (λ x. is_job x b) dm.world (finish_entry i b dm)
unfolding run_on
entry-Follows i (blocked_job k) bs dm h q w =
    job-Follows k dm (find_job k dm.jobs) h
      (ground (arith, waiters-drop i (blocked_job k) bs dm.world.events q k))
      (find-Found k dm.jobs JobOk h.jobs_ok)
entry-Follows i (blocked_emit_method m) bs dm h q w = (
  record {
    jobs_ok = h.jobs_ok;
    classes_ok = h.classes_ok;
    older = h.older;
    distinct = h.distinct;
    covered = h.covered;
    fresh = h.fresh;
    waiting = h.waiting;
    forks = h.forks;
  },
  omega arith,
  λ i. omega arith,
  λ i l. refl,
)
entry-Follows i _ bs dm h q w = absurd w

-- The daemon when the entries of the event are gone.
abbrev pub Emptied : ℕ → World → Option Daemon → Type 0
Emptied i w none = ⊥
Emptied i w (some dm) =
    Well dm
    × ((j : ℕ) → blockers_of j dm.world.events ≤ blockers_of j w.events)
    × (entry_of (find_event i dm.world.events) ≡ some [])

pub entries-Emptied :
    (i : ℕ) (bs : List Blocked) (dm : Daemon)
    → Well dm
    → entry_of (find_event i dm.world.events) ≡ some bs
    → All IsWaiter bs
    → i < dm.world.next_event
    → Emptied i dm.world (finish_entries i bs dm)
unfolding finish_entries
entries-Emptied i [] dm h q w l = (h, λ j. omega arith, q)
entries-Emptied i (b ∷ bs) dm h q w l =
    next (finish_entry i b dm) (entry-Follows i b bs dm h q w.0)
      (λ e g p m. entries-Emptied i bs e g p w.1 m)
  where
    weaken :
        (e : Daemon) (r : Option Daemon)
        → ((j : ℕ) → blockers_of j e.world.events ≤ blockers_of j dm.world.events)
        → Emptied i e.world r
        → Emptied i dm.world r
    weaken e none s k = k
    weaken e (some f) s (g, t, p) = (g, λ j. omega (arith, s j, t j), p)

    same_blockers :
        (e : Daemon) (j : ℕ)
        → blockers_of j (drop_entry i e).world.events ≡ blockers_of j e.world.events
    same_blockers e j =
        blockers_of-update_event_keep i j (λ v. record v { blocking = tail v.blocking })
          e.world.events (λ v. (refl, refl))

    next :
        (r : Option Daemon)
        → Follows (λ x. is_job x b) dm.world r
        → ((e : Daemon)
            → Well e
            → entry_of (find_event i e.world.events) ≡ some bs
            → i < e.world.next_event
            → Emptied i e.world (finish_entries i bs e))
        → Emptied i dm.world
            (elim r [ none ↦ none | some e ↦ finish_entries i bs (drop_entry i e) ])
    next none k f = k
    next (some e) (k, m, s, p) f =
        let here = p i l ∙ q in
        weaken (drop_entry i e) (finish_entries i bs (drop_entry i e))
          (λ j. omega (arith, s j, same_blockers e j))
          (f (drop_entry i e)
            (record {
              jobs_ok = k.jobs_ok;
              classes_ok = k.classes_ok;
              older = k.older;
              distinct = k.distinct;
              covered = λ j. omega (arith, k.covered j, same_blockers e j);
              fresh =
                  Fresh-update_event e.world.next_event i _ e.world.events (λ v. refl)
                    (tail-Older e.world.next_event) k.fresh;
              waiting = λ x. omega (arith, k.waiting x, waiters-drop i b bs e.world.events here x);
              forks = k.forks;
            })
            (entry-drop i b bs e.world.events here) (omega (arith, l, m)))
