-- ===== src/Quiesce/Ends.antt =====
-- The end of a session init (init/quiesce.c) is reached, whatever the jobs do.
use mathlib.Core.Path.{subst}
use feature_d.Base.{
  ℕ, zero, suc, ◌+◌, ◌≤◌, ◌<◌, Bool, true, false, if◌then◌else◌, Bytes, codes, Option, none, some,
  List, [], ◌∷◌, length, ◌≡◌, refl, inl, inr, arith,
}
use feature_d.Environ.{Env, environ_set}
use feature_d.Quiesce.{
  QuiesceRequester, requester_system, requester_session, QuiescePhase, not_quiesced, phase_wait,
  phase_kill, phase_cleanup, Quiesce, Seen, Tick, ticks, job_class_max_kill_timeout,
  quiesce_wait_callback, quiesce, begin, begun, is_quiesced, reason, session_end,
  quiesce_event_match,
}
use feature_d.Quiesce.Steps.{Ended, PhaseLeft, Left, Goes, max_pos, callback-Goes}

-- The times rise, and no timeout is above `b`.
unfoldable pub Rising : ℕ → ℕ → List Tick → Type 0
Rising b t [] = Unit
Rising b t (k ∷ ks) = (t < k.now) × (job_class_max_kill_timeout k.seen.jobs ≤ b) × Rising b k.now ks

abbrev pub Ends : Option Quiesce → Type 0
Ends none = ⊥
Ends (some q) = Ended q

off_Ends :
    (c : Bool) (x : Option Quiesce) (q : Quiesce)
    → c ≡ false
    → Ended q
    → Ends (if c then x else some q)
off_Ends true x q e h = absurd (ground arith)
off_Ends false x q e h = h

on_Ends : (c : Bool) (x y : Option Quiesce) → c ≡ true → Ends x → Ends (if c then x else y)
on_Ends true x y e h = h
on_Ends false x y e h = absurd (ground arith)

Ended-Ends : (ks : List Tick) (q : Quiesce) → Ended q → Ends (ticks ks q)
unfolding ticks
Ended-Ends [] q e = e
Ended-Ends (k ∷ ks) q e = off_Ends q.timer _ q e.no_timer e

ticks-Ends :
    (b t n : ℕ) (ks : List Tick) (q : Quiesce)
    → Left b t n q
    → Rising b t ks
    → n < length ks
    → Ends (ticks ks q)
unfolding ticks Rising
ticks-Ends b t n [] q l h m = absurd (omega arith)
ticks-Ends b t n (k ∷ ks) q l (h, g, rest) m = on_Ends q.timer _ _ l.timed (
    next n m (λ i p x j. ticks-Ends b k.now i ks p x rest j) (quiesce_wait_callback k.now k.seen q)
      (callback-Goes b t k.now n k.seen q l h g))
  where
    next :
        (n : ℕ)
        → n < suc (length ks)
        → ((i : ℕ) (p : Quiesce) → Left b k.now i p → i < length ks → Ends (ticks ks p))
        → (r : Option Quiesce) → Goes b k.now n r
        → Ends (elim r [ none ↦ none | some p ↦ ticks ks p ])
    next n m f none x = absurd x
    next zero m f (some p) x = Ended-Ends ks p x
    next (suc n) m f (some p) (inl x) = Ended-Ends ks p x
    next (suc n) m f (some p) (inr x) = f n p x (omega arith)

abbrev Begins : ℕ → ℕ → Option Quiesce → Type 0
Begins b t none = Unit
Begins b t (some q) = Left b t (b + 7) q

begin-Begins :
    (b t : ℕ) (r : QuiesceRequester) (env : Env) (seen : Seen) (q : Quiesce) (m : Option Bool)
    → 0 < t
    → job_class_max_kill_timeout seen.jobs ≤ b
    → Begins b t (begin r t seen (begun r t env q) m)
unfolding begin PhaseLeft job_class_max_kill_timeout
begin-Begins b t requester_system env seen q m h g = record {
  timed = refl;
  asked = (requester_system, refl);
  clocked = h;
  started = h;
  left = (max_pos 5 seen.jobs (ground arith), ground arith);
}
begin-Begins b t requester_session env seen q none h g = tt
begin-Begins b t requester_session env seen q (some true) h g = record {
  timed = refl;
  asked = (requester_session, refl);
  clocked = h;
  started = h;
  left = (ground arith, ground arith);
}
begin-Begins b t requester_session env seen q (some false) h g = record {
  timed = refl;
  asked = (requester_session, refl);
  clocked = h;
  started = h;
  left = (max_pos 5 seen.jobs (ground arith), ground arith);
}

-- Where quiesce begins to end the session at a positive time, no timeout is above `b`, and the clock
-- rises from one call of the timer to the next, then whatever the jobs do, more than b + 7 calls are
-- enough: no assertion fails, the last phase is reached, the main loop is told to exit, and the timer
-- is gone.
pub quiesce-Ends :
    (getenv : Bytes → Option Bytes) (fnmatch : Bytes → Bytes → Bool) (r : QuiesceRequester)
    (start b : ℕ) (seen : Seen) (q p : Quiesce) (ks : List Tick)
    → q.phase ≡ not_quiesced
    → 0 < start
    → job_class_max_kill_timeout seen.jobs ≤ b
    → quiesce getenv fnmatch r start seen q ≡ some p
    → Rising b start ks
    → b + 7 < length ks
    → Ends (ticks ks p)
unfolding quiesce
quiesce-Ends getenv fnmatch r start b seen q p ks e h g f o m =
    ticks-Ends b start (b + 7) ks p
      (subst (Begins b start) (begins q.phase e f) (begin-Begins b start r env seen q found h g)) o
      m
  where
    env : Env
    env = environ_set getenv [] true (codes "TYPE") (reason r)

    found : Option Bool
    found = quiesce_event_match fnmatch seen.start_ons (session_end env)

    begins :
        (x : QuiescePhase)
        → x ≡ not_quiesced
        → (if is_quiesced x then some q else begin r start seen (begun r start env q) found)
          ≡ some p
        → begin r start seen (begun r start env q) found ≡ some p
    begins not_quiesced e f = f
    begins phase_wait e f = absurd (ground arith)
    begins phase_kill e f = absurd (ground arith)
    begins phase_cleanup e f = absurd (ground arith)
