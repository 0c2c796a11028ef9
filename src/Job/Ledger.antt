-- ===== src/Job/Ledger.antt =====
-- What a handler of a job (init/job.c) does to the counts of the queue: each blocker that it puts on
-- an event, and each entry of the job in what an event blocks, is one that the job then holds.
pub mod Answers
pub mod Shapes
use feature_d.Base.{
  ℕ, ◌+◌, ◌<◌, ◌≤◌, ◌==◌, Bool, true, false, ◌&&◌, not, if◌then◌else◌, is_some, Option, none, some,
  List, [], ◌∷◌, ◌≡◌, refl, ◌∙◌, All, arith,
}
use feature_d.Event.{
  Event, Events, Blocked, blocked_job, blocked_emit_method, blockers_of, find_event,
}
use feature_d.EventOperator.{EventOperator}
use feature_d.EventOperator.Values.{HasEvents}
use feature_d.EventOperator.Counts.{refs}
use feature_d.Job.{Job}
use feature_d.Job.Machine.{Ctx}
use feature_d.Job.Invariant.{count_event}

abbrev pub tree_refs : ℕ → Option EventOperator → ℕ
tree_refs i none = 0
tree_refs i (some t) = refs i t

-- The blockers that a job accounts for.
abbrev pub own : ℕ → Job → ℕ
own i j = count_event i j.blocking + tree_refs i j.stop_on

abbrev pub is_job : ℕ → Blocked → ℕ
is_job k (blocked_job j) = if j == k then 1 else 0
is_job k _ = 0

abbrev pub jobs_in : ℕ → List Blocked → ℕ
jobs_in k [] = 0
jobs_in k (b ∷ bs) = is_job k b + jobs_in k bs

-- How often a job stands in what the events block.
abbrev pub waiters : ℕ → Events → ℕ
waiters k [] = 0
waiters k (e ∷ es) = jobs_in k e.blocking + waiters k es

abbrev pub one_if : Bool → ℕ
one_if true = 1
one_if false = 0

abbrev pub waits : ℕ → Ctx → ℕ
waits k c = one_if (not c.freed && c.job.id == k && is_some c.job.blocker)

-- What an event can block.
abbrev pub IsWaiter : Blocked → Type 0
IsWaiter (blocked_job k) = Unit
IsWaiter (blocked_emit_method m) = Unit
IsWaiter _ = ⊥

abbrev pub IsOlder : ℕ → Event → Type 0
IsOlder n e = (e.id < n) × All IsWaiter e.blocking

-- The events in the queue are older than the next one, block only jobs and calls, and no two have
-- the same id.
abbrev pub Fresh : ℕ → Events → Type 0
Fresh n [] = Unit
Fresh n (e ∷ es) = ((e.id < n) × All IsWaiter e.blocking × (find_event e.id es ≡ none)) × Fresh n es

-- The leaves of a tree have an event just where they are true.
abbrev pub TreeOk : Option EventOperator → Type 0
TreeOk none = Unit
TreeOk (some t) = HasEvents t

abbrev pub entry_of : Option Event → Option (List Blocked)
entry_of none = none
entry_of (some e) = some e.blocking

-- What the job holds and what the queue counts change alike; older events keep what they block.
pub record Accounts (c d : Ctx) : Type 0 where
  pub same_id : d.job.id ≡ c.job.id
  pub same_sys : d.world.sys ≡ c.world.sys
  pub trees : TreeOk c.job.stop_on → TreeOk d.job.stop_on
  pub counts :
      (i : ℕ)
      → blockers_of i d.world.events + own i c.job ≡ blockers_of i c.world.events + own i d.job
  pub fresh : Fresh c.world.next_event c.world.events → Fresh d.world.next_event d.world.events
  pub waiting :
      Fresh c.world.next_event c.world.events
      → (k : ℕ) → waiters k d.world.events + waits k c ≡ waiters k c.world.events + waits k d
  pub later : c.world.next_event ≤ d.world.next_event
  pub entries :
      Fresh c.world.next_event c.world.events
      → (i : ℕ) → i < c.world.next_event
      → entry_of (find_event i d.world.events) ≡ entry_of (find_event i c.world.events)

-- No event gets a blocker more.
pub record Conserves (c d : Ctx) : Type 0 where
  pub accounts : Accounts c d
  pub sheds : (i : ℕ) → blockers_of i d.world.events ≤ blockers_of i c.world.events

-- What holds of an answer, where there is one.
abbrev pub Partly : {A : Type 0} → (A → Ctx → Type 0) → Option (A × Ctx) → Type 0
Partly P none = Unit
Partly P (some r) = P r.0 r.1

pub Accounts-refl : (c : Ctx) → Accounts c c
Accounts-refl c = record {
  same_id = refl;
  same_sys = refl;
  trees = λ t. t;
  counts = λ i. refl;
  fresh = λ f. f;
  waiting = λ f k. refl;
  later = omega arith;
  entries = λ f i l. refl;
}

pub Accounts-trans : {c d e : Ctx} → Accounts c d → Accounts d e → Accounts c e
Accounts-trans h k = record {
  same_id = k.same_id ∙ h.same_id;
  same_sys = k.same_sys ∙ h.same_sys;
  trees = λ t. k.trees (h.trees t);
  counts = λ i. omega (arith, h.counts i, k.counts i);
  fresh = λ f. k.fresh (h.fresh f);
  waiting = λ f i. omega (arith, h.waiting f i, k.waiting (h.fresh f) i);
  later = omega (arith, h.later, k.later);
  entries = λ f i l. k.entries (h.fresh f) i (omega (arith, h.later)) ∙ h.entries f i l;
}

pub Conserves-refl : (c : Ctx) → Conserves c c
Conserves-refl c = record { accounts = Accounts-refl c; sheds = λ i. omega arith }

pub Conserves-trans : {c d e : Ctx} → Conserves c d → Conserves d e → Conserves c e
Conserves-trans h k = record {
  accounts = Accounts-trans h.accounts k.accounts;
  sheds = λ i. omega (arith, h.sheds i, k.sheds i);
}
