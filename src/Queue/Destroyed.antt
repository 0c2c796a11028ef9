-- ===== src/Queue/Destroyed.antt =====
-- A tree that is freed with its job (event_operator_destroy of init/event_operator.c) gives back its
-- blockers.
use feature_d.Base.{ℕ, ◌+◌, ◌-◌, ◌≤◌, Option, none, some, ◌≡◌, refl, ◌∙◌, arith}
use feature_d.Event.{Events, blockers_of, find_event, update_event, event_unblock}
use feature_d.Event.Blockers.{blockers_of-minus}
use feature_d.EventOperator.{EventOperator, gate, leaf}
use feature_d.EventOperator.Counts.{held, refs}
use feature_d.Job.Ledger.{tree_refs, waiters, Fresh, entry_of}
use feature_d.Job.Ledger.Answers.{waiters-update_event, entries-update_event, Fresh-update_event}
use feature_d.Queue.{unblock_held, event_operator_destroy, destroy_held}

-- Just blockers have been taken off.
pub record Released (n : ℕ → ℕ) (es fs : Events) : Type 0 where
  pub taken : (i : ℕ) → blockers_of i fs + n i ≡ blockers_of i es
  pub kept : (k : ℕ) → waiters k fs ≡ waiters k es
  pub still_fresh : (m : ℕ) → Fresh m es → Fresh m fs
  pub same_entries : (j : ℕ) → entry_of (find_event j fs) ≡ entry_of (find_event j es)

abbrev ReleasedBy : (ℕ → ℕ) → Events → Option Events → Type 0
ReleasedBy n es r = (fs : Events) × (r ≡ some fs) × Released n es fs

unblock-ReleasedBy :
    (ev : Option ℕ) (es : Events)
    → ((i : ℕ) → held i ev ≤ blockers_of i es)
    → ReleasedBy (λ i. held i ev) es (unblock_held ev es)
unfolding event_unblock
unblock-ReleasedBy none es h = (
  es,
  refl,
  record {
    taken = λ i. omega arith;
    kept = λ k. refl;
    still_fresh = λ m f. f;
    same_entries = λ j. refl;
  },
)
unblock-ReleasedBy (some i) es h = (
  update_event i (λ e. record e { blockers = e.blockers - 1 }) es,
  ground (arith, h i),
  record {
    taken = λ j. ground (arith, h i, blockers_of-minus i j es);
    kept = λ k. waiters-update_event k i _ es (λ e. (refl, refl));
    still_fresh = λ m f. Fresh-update_event m i _ es (λ e. refl) (λ e o. o) f;
    same_entries = λ j. entries-update_event j i _ es (λ e. (refl, refl));
  },
)

destroy-ReleasedBy :
    (t : EventOperator) (es : Events)
    → ((i : ℕ) → refs i t ≤ blockers_of i es)
    → ReleasedBy (λ i. refs i t) es (event_operator_destroy t es)
unfolding event_operator_destroy
destroy-ReleasedBy (leaf v name env ev) es h = unblock-ReleasedBy ev es h
destroy-ReleasedBy (gate type v left right) es h =
    let (fs, p, a) = destroy-ReleasedBy left es (λ i. omega (arith, h i)) in
    let (gs, q, b) = destroy-ReleasedBy right fs (λ i. omega (arith, h i, a.taken i)) in
    (
      gs,
      rw (p, event_operator_destroy) q,
      record {
        taken = λ i. omega (arith, a.taken i, b.taken i);
        kept = λ k. b.kept k ∙ a.kept k;
        still_fresh = λ m f. b.still_fresh m (a.still_fresh m f);
        same_entries = λ j. b.same_entries j ∙ a.same_entries j;
      },
    )

pub destroy_held-ReleasedBy :
    (t : Option EventOperator) (es : Events)
    → ((i : ℕ) → tree_refs i t ≤ blockers_of i es)
    → ReleasedBy (λ i. tree_refs i t) es (destroy_held t es)
destroy_held-ReleasedBy none es h = (
  es,
  refl,
  record {
    taken = λ i. omega arith;
    kept = λ k. refl;
    still_fresh = λ m f. f;
    same_entries = λ j. refl;
  },
)
destroy_held-ReleasedBy (some t) es h = destroy-ReleasedBy t es h
