-- ===== src/Stanzas/Fuel.antt =====
-- The loop over the arguments of `normal exit` in init/parse_job.c ends.
use feature_d.Base.{
  ℕ, suc, zero, ◌<◌, ◌≤◌, Bool-cases, Bytes, Option, none, some, ◌≡◌, refl, inl, inr, arith,
}
use feature_d.ParseOn.{Parsed, raised, parsed}
use feature_d.Stanzas.{JobFile, Reader, Outcome, with_arg}
use feature_d.Stanzas.Numbers.{parse_exit, add_exit, read_exits}

module _ {I : Type 0} (r : Reader I)
    (next_arg_consumes : (i j : I) (a : Bytes) → r.next_arg i ≡ parsed (a, j) → r.left j < r.left i)
    (has_token_keeps : (i : I) → r.left (r.has_token i).1 ≤ r.left i) where
  same_rounds :
      (status : Option ℕ) (again again' : JobFile → I → Outcome I) (c : JobFile) (i : I)
      → ((d : JobFile) → again d (r.has_token i).1 ≡ again' d (r.has_token i).1)
      → add_exit status r again c i ≡ add_exit status r again' c i
  unfolding add_exit
  same_rounds none again again' c i h = refl
  same_rounds (some n) again again' c i h = elim (Bool-cases (r.has_token i).0) [
    | inl m ↦ rw m (h _)
    | inr m ↦ rw m refl
  ]

  same_args :
      (p : Parsed (Bytes × I)) (c : JobFile) (k k' : Bytes → I → Outcome I)
      → ((a : Bytes) (j : I) → p ≡ parsed (a, j) → k a j ≡ k' a j)
      → with_arg p c k ≡ with_arg p c k'
  unfolding with_arg
  same_args (raised e) c k k' h = refl
  same_args (parsed (a, j)) c k k' h = h a j refl

  -- With fuel above what is left of the file, the loop does the same whatever the fuel: it never
  -- runs out of it. An argument takes something from the file, and the test for one adds nothing.
  pub read_exits_enough :
      (f g : ℕ) (c : JobFile) (i : I)
      → r.left i < f
      → r.left i < g
      → read_exits f r c i ≡ read_exits g r c i
  unfolding read_exits
  read_exits_enough zero g c i hf hg = absurd (omega arith)
  read_exits_enough (suc f) zero c i hf hg = absurd (omega arith)
  read_exits_enough (suc f) (suc g) c i hf hg = same_args (r.next_arg i) c _ _ λ a j q.
      same_rounds (parse_exit r a) (read_exits f r) (read_exits g r) c j λ d.
        read_exits_enough f g d (r.has_token j).1
          (omega (arith, next_arg_consumes i j a q, has_token_keeps j))
          (omega (arith, next_arg_consumes i j a q, has_token_keeps j))
