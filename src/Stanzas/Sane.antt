-- ===== src/Stanzas/Sane.antt =====
-- The ranges that the stanzas of init/parse_job.c keep the settings of a class in.
use feature_d.Base.{
  Bool, true, false, ◌&&◌, ltb, if◌then◌else◌, Bytes, codes, same, Option, none, some, ◌≡◌, refl,
  arith,
}
use feature_d.Job.{ℤ, pos, negsuc}
use feature_d.ParseOn.{parse_illegal_oom, Parsed, raised, parsed, ParseError}
use feature_d.Stanzas.{
  JobFile, Reader, Outcome, refused, taken, Stanza, with_arg, skip_comment, text_stanza,
}
use feature_d.Stanzas.Numbers.{
  to_int, between, nonnegative, is_known, checked, kill_timeout_stanza, respawn_interval_arg,
  respawn_limit_stanza, stanza_respawn, stanza_console, stanza_umask, stanza_nice, score_of,
  oom_score, stanza_oom,
}

-- What holds of the settings of a class: no time or limit is negative, the console is one of the
-- four, and the mask, the niceness (-21 stands for none) and the score are in their ranges.
abbrev pub IsSane : JobFile → Type 0
IsSane c =
    (nonnegative c.kill_timeout ≡ true)
    × (nonnegative c.respawn_limit ≡ true)
    × (nonnegative c.respawn_interval ≡ true)
    × (is_known c.console ≡ true)
    × (ltb c.umask 512 ≡ true)
    × (between 21 19 c.nice ≡ true)
    × (between 1000 1000 c.oom_score_adj ≡ true)

unfoldable pub SaneAfter : {I : Type 0} → Outcome I → Type 0
SaneAfter (refused e c) = Unit
SaneAfter (taken c i) = IsSane c

nice_range : (v : ℤ) → between 20 19 v ≡ true → between 21 19 v ≡ true
nice_range (pos n) h = h
nice_range (negsuc n) h = ground arith

score_range : (v : ℤ) → between 17 15 v ≡ true → between 1000 1000 (score_of v) ≡ true
unfolding score_of
score_range (pos n) h = ground arith
score_range (negsuc n) h = ground arith

and_right : (a b : Bool) → (a && b) ≡ true → b ≡ true
and_right true b h = h
and_right false b h = cc

module _ {I : Type 0} where
  pub with_arg-SaneAfter :
      {A : Type 0} (p : Parsed (A × I)) (c : JobFile) (k : A → I → Outcome I)
      → ((a : A) (i : I) → SaneAfter (k a i))
      → SaneAfter (with_arg p c k)
  unfolding with_arg SaneAfter
  with_arg-SaneAfter (raised e) c k h = tt
  with_arg-SaneAfter (parsed (a, i)) c k h = h a i

  pub skip_comment-SaneAfter :
      (p : Parsed I) (c : JobFile) → IsSane c → SaneAfter (skip_comment p c)
  unfolding skip_comment SaneAfter
  skip_comment-SaneAfter (raised e) c h = tt
  skip_comment-SaneAfter (parsed i) c h = h

  pub checked-SaneAfter :
      (ok : Bool) (e : ParseError) (p : Parsed I) (c : JobFile)
      → (ok ≡ true → IsSane c)
      → SaneAfter (checked ok e p c)
  unfolding checked SaneAfter
  checked-SaneAfter true e p c h = skip_comment-SaneAfter p c (h refl)
  checked-SaneAfter false e p c h = tt

  pub if-SaneAfter :
      (b : Bool) (x y : Outcome I)
      → (b ≡ true → SaneAfter x)
      → (b ≡ false → SaneAfter y)
      → SaneAfter (if b then x else y)
  if-SaneAfter true x y h k = h refl
  if-SaneAfter false x y h k = k refl

  pub text-SaneAfter :
      (set : Option Bytes → JobFile → JobFile) (r : Reader I) (c : JobFile) (i : I)
      → ((v : Option Bytes) → IsSane (set v c))
      → SaneAfter (text_stanza set r c i)
  unfolding text_stanza
  text-SaneAfter set r c i h =
      with_arg-SaneAfter (r.next_arg i) (set none c) _
        λ a i'. skip_comment-SaneAfter (r.skip_comment i') _ (h (some a))

  abbrev pub Good : Stanza I → Type 0
  Good f = (r : Reader I) (c : JobFile) (i : I) → IsSane c → SaneAfter (f r c i)

  pub nice-Good : Good stanza_nice
  unfolding stanza_nice
  nice-Good r c i h = with_arg-SaneAfter (r.next_arg i) c _ λ a i'.
      checked-SaneAfter _ _ (r.skip_comment i') _ λ ok. (
        h.0,
        h.1,
        h.2,
        h.3,
        h.4,
        nice_range (to_int (r.strtol a).0) (and_right (r.strtol a).1 _ ok),
        h.6,
      )

  pub umask-Good : Good stanza_umask
  unfolding stanza_umask
  umask-Good r c i h = with_arg-SaneAfter (r.next_arg i) c _ λ a i'.
      checked-SaneAfter _ _ (r.skip_comment i') _
        λ ok. (h.0, h.1, h.2, h.3, and_right (r.strtoul_octal a).1 _ ok, h.5, h.6)

  pub console-Good : Good stanza_console
  unfolding stanza_console
  console-Good r c i h =
      with_arg-SaneAfter (r.next_arg i) c _
        λ a i'. checked-SaneAfter _ _ (r.skip_comment i') _ λ ok. (h.0, h.1, h.2, ok, h.4, h.5, h.6)

  oom_score-Good : Good oom_score
  unfolding oom_score
  oom_score-Good r c i h = with_arg-SaneAfter (r.next_arg i) c _ λ a i'.
      if-SaneAfter (same a (codes "never")) _ _
        (λ never.
          checked-SaneAfter true parse_illegal_oom (r.skip_comment i')
            (record c { oom_score_adj = negsuc 999 }) λ ok. (h.0, h.1, h.2, h.3, h.4, h.5, refl))
        (λ other.
          checked-SaneAfter ((r.strtol a).1 && between 1000 1000 (to_int (r.strtol a).0))
            parse_illegal_oom (r.skip_comment i')
            (record c { oom_score_adj = to_int (r.strtol a).0 })
            λ ok. (h.0, h.1, h.2, h.3, h.4, h.5, and_right (r.strtol a).1 _ ok))

  pub oom-Good : Good stanza_oom
  unfolding stanza_oom
  oom-Good r c i h = with_arg-SaneAfter (r.next_arg i) c _ λ a i'.
      if-SaneAfter (same a (codes "score")) _ _ (λ score. oom_score-Good r c i' h)
        (λ other.
          if-SaneAfter (same a (codes "never")) _ _
            (λ never.
              checked-SaneAfter true parse_illegal_oom (r.skip_comment i')
                (record c { oom_score_adj = negsuc 999 })
                λ ok. (h.0, h.1, h.2, h.3, h.4, h.5, refl))
            (λ value.
              checked-SaneAfter ((r.strtol a).1 && between 17 15 (to_int (r.strtol a).0))
                parse_illegal_oom (r.skip_comment i')
                (record c { oom_score_adj = score_of (to_int (r.strtol a).0) })
                λ ok. (
                  h.0,
                  h.1,
                  h.2,
                  h.3,
                  h.4,
                  h.5,
                  score_range (to_int (r.strtol a).0) (and_right (r.strtol a).1 _ ok),
                )))

  pub kill_timeout-Good : Good kill_timeout_stanza
  unfolding kill_timeout_stanza
  kill_timeout-Good r c i h = with_arg-SaneAfter (r.next_arg i) c _ λ a i'.
      checked-SaneAfter _ _ (r.skip_comment i') _
        λ ok. (and_right (r.strtol a).1 _ ok, h.1, h.2, h.3, h.4, h.5, h.6)

  interval-Good : Good respawn_interval_arg
  unfolding respawn_interval_arg
  interval-Good r c i h = with_arg-SaneAfter (r.next_arg i) c _ λ a i'.
      checked-SaneAfter _ _ (r.skip_comment i') _
        λ ok. (h.0, h.1, and_right (r.strtol a).1 _ ok, h.3, h.4, h.5, h.6)

  limit-Good : Good respawn_limit_stanza
  unfolding respawn_limit_stanza SaneAfter
  limit-Good r c i h = with_arg-SaneAfter (r.next_arg i) c _ λ a i'.
      if-SaneAfter (same a (codes "unlimited")) _ _
        (λ unlimited.
          skip_comment-SaneAfter (r.skip_comment i')
            (record c { respawn_limit = pos 0; respawn_interval = pos 0 })
            (h.0, refl, refl, h.3, h.4, h.5, h.6))
        (λ number.
          if-SaneAfter ((r.strtol a).1 && nonnegative (to_int (r.strtol a).0)) _ _
            (λ ok.
              interval-Good r (record c { respawn_limit = to_int (r.strtol a).0 }) i'
                (h.0, and_right (r.strtol a).1 _ ok, h.2, h.3, h.4, h.5, h.6))
            (λ bad. tt))

  pub respawn-Good : Good stanza_respawn
  unfolding stanza_respawn SaneAfter
  respawn-Good r c i h =
      if-SaneAfter (r.has_token i).0 _ _
        (λ more. with_arg-SaneAfter (r.next_token (r.has_token i).1) c _ λ word i''.
          if-SaneAfter (same word (codes "limit")) _ _ (λ limit. limit-Good r c i'' h)
            (λ other. tt))
        (λ none_left.
          skip_comment-SaneAfter (r.skip_comment (r.has_token i).1) (record c { respawn = true }) h)
