-- ===== src/Job/Trace/Found.antt =====
-- The search for the job of a process (init/job_process.c), and what becomes of that job.
use feature_d.Base.{
  ℕ, ◌<◌, ltb, Bool, true, false, if◌then◌else◌, All, Option, none, some, List, [], ◌∷◌, ◌≡◌, ◌⊎◌,
  ◌==◌, inl, inr, refl, arith,
}
use feature_d.Process.{
  Table, ProcessType, get, main, pre_start, post_start, pre_stop, post_stop, security,
}
use feature_d.Job.{Job}
use feature_d.Job.Machine.{Ctx, World, Ensures}
use feature_d.Job.Invariant.{Sound, Settled}
use feature_d.Job.Trace.{Tracer}
use feature_d.Job.Trace.Children.{
  ChildEvent, child_ptrace, child_event, find_slot, job_process_find, job_process_handler,
}
use feature_d.Job.Trace.Kept.{child_event-Settled}

abbrev pub at : Job → World → Ctx
at j w = record { job = j; world = w; freed = false }

-- None of the processes of a table is the one that is looked for.
abbrev pub HasNone : ℕ → Table ℕ → Type 0
HasNone pid t = (p : ProcessType) → (get t p == pid) ≡ false

abbrev pub IsAmong : Job → List Job → Type 0
IsAmong j [] = ⊥
IsAmong j (x ∷ js) = (j ≡ x) ⊎ IsAmong j js

-- A slot that was found holds the process; where none was found, none does.
abbrev pub SlotFound : ℕ → Table ℕ → Option ProcessType → Type 0
SlotFound pid t (some p) = get t p ≡ pid
SlotFound pid t none = HasNone pid t

slot_some : (pid : ℕ) (t : Table ℕ) (p : ProcessType) → find_slot pid t ≡ some p → get t p ≡ pid
unfolding find_slot
slot_some pid t main q = ground arith
slot_some pid t pre_start q = ground arith
slot_some pid t post_start q = ground arith
slot_some pid t pre_stop q = ground arith
slot_some pid t post_stop q = ground arith
slot_some pid t security q = ground arith

slot_none : (pid : ℕ) (t : Table ℕ) → find_slot pid t ≡ none → HasNone pid t
unfolding find_slot
slot_none pid t q main = ground arith
slot_none pid t q pre_start = ground arith
slot_none pid t q post_start = ground arith
slot_none pid t q pre_stop = ground arith
slot_none pid t q post_stop = ground arith
slot_none pid t q security = ground arith

slot-SlotFound : (pid : ℕ) (t : Table ℕ) → SlotFound pid t (find_slot pid t)
slot-SlotFound pid t = judged (find_slot pid t) refl
  where
    judged : (o : Option ProcessType) → find_slot pid t ≡ o → SlotFound pid t o
    judged (some p) q = slot_some pid t p q
    judged none q = slot_none pid t q

-- A job that was found is one of them and has the process; where none was found, none has it.
abbrev pub JobFound : (Job → Type 0) → ℕ → List Job → Option (Job × ProcessType) → Type 0
JobFound P pid jobs none = All (λ j. HasNone pid j.pid) jobs
JobFound P pid jobs (some (j, p)) = (get j.pid p ≡ pid) × P j × IsAmong j jobs

find-JobFound :
    (P : Job → Type 0) (pid : ℕ) (jobs : List Job)
    → All P jobs
    → JobFound P pid jobs (job_process_find pid jobs)
unfolding job_process_find
find-JobFound P pid [] h = tt
find-JobFound P pid (j ∷ js) h =
    one (find_slot pid j.pid) (slot-SlotFound pid j.pid) (job_process_find pid js)
      (find-JobFound P pid js h.1)
  where
    one :
        (o : Option ProcessType)
        → SlotFound pid j.pid o
        → (r : Option (Job × ProcessType)) → JobFound P pid js r
        → JobFound P pid (j ∷ js) (elim o [ some p ↦ some (j, p) | none ↦ r ])
    one (some p) q r rest = (q, h.0, inl refl)
    one none q none rest = (q, rest)
    one none q (some (x, p)) (a, b, c) = (a, b, inr c)

-- What becomes of an event of the process: it is passed over only where no job has the process, and
-- else goes to a job that has it, which is sound or gone after it.
abbrev pub HandledBy : Tracer → ℕ → ChildEvent → ℕ → List Job → World → Option (Option Ctx) → Type 0
HandledBy t pid event status jobs w none = ⊥
HandledBy t pid event status jobs w (some none) = All (λ j. HasNone pid j.pid) jobs
HandledBy t pid event status jobs w (some (some d)) =
    (j : Job) × (p : ProcessType) × IsAmong j jobs
    × (get j.pid p ≡ pid)
    × (child_event t p event status (at j w) ≡ some (tt, d))
    × Settled d

-- Where all jobs are sound, `job_process_handler` fails no assertion, whatever the event and the
-- status: it passes the event over just where no process of any job has the number, and else a job
-- of the list has a process with the number, the state after it is that of `child_event` for the
-- process, and the job is sound in it, or gone. The process has a number other than 0, the kernel
-- reports no other event of a trace than a fork (1) and an exec (4), and gives no child the number 0.
pub job_process_handler-HandledBy :
    (t : Tracer) (pid : ℕ) (event : ChildEvent) (status : ℕ) (jobs : List Job) (w : World)
    → All (λ j. Sound (at j w)) jobs
    → 0 < pid
    → (event ≡ child_ptrace → (status ≡ 1) ⊎ (status ≡ 4))
    → ((q n : ℕ) → t.new_child q ≡ some n → 0 < n)
    → HandledBy t pid event status jobs w (job_process_handler t pid event status jobs w)
unfolding job_process_handler
job_process_handler-HandledBy t pid event status jobs w h r e k =
    handled (ltb 0 pid) (ground arith) (job_process_find pid jobs)
      (find-JobFound (λ j. Sound (at j w)) pid jobs h)
  where
    touched :
        (j : Job) (p : ProcessType) (o : Option (Unit {0} × Ctx))
        → child_event t p event status (at j w) ≡ o
        → get j.pid p ≡ pid
        → IsAmong j jobs
        → Ensures (λ _ d. Settled d) o
        → HandledBy t pid event status jobs w (elim o [ none ↦ none | some (u, d) ↦ some (some d) ])
    touched j p none q f a s = s
    touched j p (some (tt, d)) q f a s = (j, p, a, f, q, s)

    handled :
        (b : Bool)
        → b ≡ true
        → (o : Option (Job × ProcessType)) → JobFound (λ j. Sound (at j w)) pid jobs o
        → HandledBy t pid event status jobs w (
            if b
            then elim o [
              | none ↦ some none
              | some (j, p) ↦ elim (child_event t p event status (at j w)) [
                | none ↦ none
                | some (u, d) ↦ some (some d)
              ]
            ]
            else none)
    handled true q none f = f
    handled true q (some (j, p)) (f, s, a) =
        touched j p (child_event t p event status (at j w)) refl f a
          (child_event-Settled t p event status (at j w) s (ground (arith, f)) e k)
    handled false q o f = cc
