-- ===== src/EventOperator/Taken.antt =====
-- What the events that a tree holds (init/event_operator.c) give to a job: they are in the queue,
-- their environment is found, and each is blocked once more.
use mathlib.Core.Option
use feature_d.Base.{
  ℕ, Bool, false, if◌then◌else◌, ◌+◌, ◌≤◌, true, is_some, Bytes, Option, none, some, List, [], ◌∷◌,
  ◌++◌, ◌≡◌, refl, arith, length,
}
use feature_d.Environ.{Env, environ_append}
use feature_d.Event.{
  Event, Events, Blocked, blocked_event, find_event, blockers_of, event_block, count_of,
}
use feature_d.Event.Blockers.{blockers_of-event_block}
use feature_d.Job.Invariant.{count_event, Covered}
use feature_d.EventOperator.{
  Tree, unblock_held, event_operator_update, event_operator_reset, EventOperator, EventOperatorType,
  Handled, handle_leaf, handle_gate, event_operator_match, event_operator_handle, gate, leaf,
  block_all, event_operator_events, collect_env, add_name, event_operator_environment,
}
use feature_d.EventOperator.Values.{HasEvents}
use feature_d.EventOperator.Counts.{refs, leaves}
use feature_d.EventOperator.Collect.{
  Room, Queued, LeavesQueued, true_events_ok, block_all_ok, count_event-append, Queued-event_block,
}

queued_of : (i : ℕ) (es : Events) → 1 ≤ blockers_of i es → is_some (find_event i es) ≡ true
unfolding blockers_of
queued_of i es h = counted (find_event i es) h
  where
    counted : (r : Option Event) → 1 ≤ count_of r → is_some r ≡ true
    counted none h = absurd (omega arith)
    counted (some e) h = refl

-- A tree whose events have their blockers has them in the queue.
pub refs-LeavesQueued :
    (t : EventOperator) (es : Events) → ((i : ℕ) → refs i t ≤ blockers_of i es) → LeavesQueued t es
refs-LeavesQueued (leaf v name env none) es h = tt
refs-LeavesQueued (leaf v name env (some i)) es h = queued_of i es (ground (arith, h i))
refs-LeavesQueued (gate type v left right) es h = (
  refs-LeavesQueued left es (λ i. omega (arith, h i)),
  refs-LeavesQueued right es (λ i. omega (arith, h i)),
)

collect_env_ok :
    (getenv : Bytes → Option Bytes) (is : List ℕ) (es : Events) (env : Env) (list : Bytes)
    → Queued is es
    → (r : Env × Bytes) × (collect_env getenv is es env list ≡ some r)
unfolding collect_env
collect_env_ok getenv [] es env list h = ((env, list), refl)
collect_env_ok getenv (i ∷ is) es env list h =
    let (e, q) = found (find_event i es) h.0 in
    let (r, p) =
      collect_env_ok getenv is es (environ_append getenv env true e.env) (add_name list e.name)
        h.1 in
    (r, rw (q, collect_env) p)
  where
    found : (r : Option Event) → is_some r ≡ true → (e : Event) × (r ≡ some e)
    found none h = absurd (ground arith)
    found (some e) h = (e, refl)

mapped :
    {A B : Type 0} (f : A → B) (m : Option A) (a : A)
    → m ≡ some a
    → (b : B) × (Option.map f m ≡ some b)
mapped f none a q = absurd (ground arith)
mapped f (some x) a q = (f x, refl)

-- The environment of a tree is found where its events are in the queue.
pub environment_ok :
    (getenv : Bytes → Option Bytes) (t : EventOperator) (es : Events) (env : Env)
    (key : Option Bytes)
    → HasEvents t
    → LeavesQueued t es
    → (r : Env) × (event_operator_environment getenv t es env key ≡ some r)
unfolding event_operator_environment
environment_ok getenv t es env key h k =
    let (is, p, m, a) = true_events_ok t es h k in
    let (r, q) = collect_env_ok getenv is es env [] a in
    rw (p, event_operator_environment) (mapped _ (collect_env getenv is es env []) r q)

block_all_counts :
    (is : List ℕ) (list : List Blocked) (es : Events)
    → Queued is es
    → Room (length is) es
    → (i : ℕ)
    → blockers_of i (block_all is list es).1 + count_event i list
      ≡ blockers_of i es + count_event i (block_all is list es).0
unfolding block_all
block_all_counts [] list es q r j = refl
block_all_counts (i ∷ is) list es q r j = ground (
  arith,
  block_all_counts is (list ++ (blocked_event i ∷ [])) (event_block i es)
      (Queued-event_block i is es q.1)
      (λ j. ground (arith, blockers_of-event_block i j es q.0, r i, r j)) j,
  count_event-append j list (blocked_event i ∷ []),
  blockers_of-event_block i j es q.0,
  r i,
)

block_all-length :
    (i : ℕ) (is : List ℕ) (list : List Blocked) (es : Events)
    → count_event i (block_all is list es).0 ≤ count_event i list + length is
unfolding block_all
block_all-length i [] list es = omega arith
block_all-length i (j ∷ is) list es = ground (
  arith,
  block_all-length i is (list ++ (blocked_event j ∷ [])) (event_block j es),
  count_event-append i list (blocked_event j ∷ []),
)

-- The events of a tree are put on a list, each with one blocker more.
pub events_taken :
    (t : EventOperator) (list : List Blocked) (es : Events)
    → HasEvents t
    → LeavesQueued t es
    → Room (leaves t) es
    → Covered list es
    → (bs : List Blocked) × (es' : Events) × (event_operator_events t list es ≡ some (bs, es'))
      × Covered bs es'
      × ((i : ℕ) → blockers_of i es' + count_event i list ≡ blockers_of i es + count_event i bs)
      × ((i : ℕ) → count_event i bs ≤ count_event i list + leaves t)
unfolding event_operator_events
events_taken t list es h k r c =
    let (is, p, m, a) = true_events_ok t es h k in
    let room : Room (length is) es = λ i. omega (arith, r i, m) in
    (
      (block_all is list es).0,
      (block_all is list es).1,
      rw p refl,
      block_all_ok is list es a room c,
      block_all_counts is list es a room,
      λ i. omega (arith, block_all-length i is list es, m),
    )

pub refs_le : (i : ℕ) (t : EventOperator) → refs i t ≤ leaves t
refs_le i (leaf v name env none) = omega arith
refs_le i (leaf v name env (some j)) = ground arith
refs_le i (gate type v left right) = omega (arith, refs_le i left, refs_le i right)

-- A tree that has handled an event has as many leaves as before.
abbrev pub SameLeaves : EventOperator → Option Handled → Type 0
SameLeaves t none = Unit
SameLeaves t (some h) = leaves h.oper ≡ leaves t

leaf-leaves :
    (name : Bytes) (oenv : Env) (ev : Option ℕ) (event : Event) (es : Events) (m : Option Bool)
    → SameLeaves (leaf false name oenv ev) (
        Option.map
          (λ hit.
            if hit
            then handle_leaf name oenv event es
            else record { oper = leaf false name oenv ev; matched = false; events = es })
          m)
unfolding handle_leaf
leaf-leaves name oenv ev event es none = tt
leaf-leaves name oenv ev event es (some true) = refl
leaf-leaves name oenv ev event es (some false) = refl

gate-leaves :
    (type : EventOperatorType) (v : Bool) (left right : EventOperator) (l : Handled)
    (m : Option Handled)
    → leaves l.oper ≡ leaves left
    → SameLeaves right m
    → SameLeaves (gate type v left right) (Option.map (handle_gate type l) m)
unfolding handle_gate
gate-leaves type v left right l none h k = tt
gate-leaves type v left right l (some r) h k = omega (arith, h, k)

pub handle-leaves :
    (fnmatch : Bytes → Bytes → Bool) (t : EventOperator) (event : Event) (env : Env) (es : Events)
    → SameLeaves t (event_operator_handle fnmatch t event env es)
unfolding event_operator_handle
handle-leaves fnmatch (leaf true name oenv ev) event env es = refl
handle-leaves fnmatch (leaf false name oenv ev) event env es =
    leaf-leaves name oenv ev event es (event_operator_match fnmatch name oenv event env)
handle-leaves fnmatch (gate type v left right) event env es =
    node (event_operator_handle fnmatch left event env es) (handle-leaves fnmatch left event env es)
      (λ l. handle-leaves fnmatch right event env l.events)
  where
    node :
        (m : Option Handled)
        → SameLeaves left m
        → ((l : Handled)
            → SameLeaves right (event_operator_handle fnmatch right event env l.events))
        → SameLeaves (gate type v left right) (elim m [
          | none ↦ none
          | some l ↦
              Option.map
                (handle_gate type l)
                (event_operator_handle fnmatch right event env l.events)
        ])
    node none h k = tt
    node (some l) h k = gate-leaves type v left right l _ h (k l)

abbrev pub SameLeavesTree : EventOperator → Option Tree → Type 0
SameLeavesTree t none = Unit
SameLeavesTree t (some (u, es)) = leaves u ≡ leaves t

-- A reset keeps the leaves.
pub reset-leaves : (t : EventOperator) (es : Events) → SameLeavesTree t (event_operator_reset t es)
unfolding event_operator_reset
reset-leaves (leaf v name oenv ev) es = one (unblock_held ev es)
  where
    one :
        (r : Option Events)
        → SameLeavesTree
            (leaf v name oenv ev)
            (Option.map (λ fs. (leaf false name oenv none, fs)) r)
    one none = tt
    one (some fs) = refl
reset-leaves (gate type v left right) es =
    node (event_operator_reset left es) (reset-leaves left es) (λ fs. reset-leaves right fs)
  where
    last :
        (l : EventOperator) (r : Option Tree)
        → leaves l ≡ leaves left
        → SameLeavesTree right r
        → SameLeavesTree
            (gate type v left right)
            (Option.map (λ (r : Tree). (event_operator_update type l r.0, r.1)) r)
    last l none h k = tt
    last l (some (u, gs)) h k = omega (arith, h, k)

    node :
        (r : Option Tree)
        → SameLeavesTree left r
        → ((fs : Events) → SameLeavesTree right (event_operator_reset right fs))
        → SameLeavesTree (gate type v left right) (elim r [
          | none ↦ none
          | some (l, fs) ↦
              Option.map
                (λ (r : Tree). (event_operator_update type l r.0, r.1))
                (event_operator_reset right fs)
        ])
    node none h k = tt
    node (some (l, fs)) h k = last l (event_operator_reset right fs) h (k fs)
