-- ===== src/Core/Matcher/Segments.antt =====
-- Membership in segments, as crates/core/src/matcher.rs decides it.
use flagforge.Prelude.{
  ℕ, ◌≤◌, ◌≡◌, refl, ◌↔◌, ◌⊎◌, Bool, true, false, Option, none, some, List, [], ◌∷◌, arith, any,
  Some, All, all_iff, any_iff, any-eq-false_iff, is_nil, is_none_or,
}
use flagforge.Prelude.Iff.{and_iff, or_iff, not_iff, return-false_iff, return-true_iff, is_nil_iff}
use flagforge.Text.{Text}
use flagforge.TextMap.{lookup, set_contains}
use flagforge.Extern.{Extern}
use flagforge.Core.Context.{EvaluationContext}
use flagforge.Core.Flag.{SegmentMatch, SegmentRollout, SegmentRule, Segment, Rule}
use flagforge.Core.Matcher.{
  EvaluationEnv, condition_matches, segment_rule_matches, segment_contains, in_segment,
  segment_match_holds, rule_matches,
}

is_none_or_iff :
    (o : Option SegmentMatch) (p : SegmentMatch → Bool)
    → (is_none_or o p ≡ true) ↔ ((m : SegmentMatch) → o ≡ some m → p m ≡ true)
is_none_or_iff none p = (λ h m e. cc, λ h. refl)
is_none_or_iff (some m) p = (λ h m' e. let same : m ≡ m' = cc in rw (← same) h, λ h. h m refl)

module _ ⦃x : Extern⦄ where
  -- A context is in a segment exactly if it is not excluded, and is included or matched by a rule.
  pub segment_contains_iff :
      (segment : Segment) (ctx : EvaluationContext) (salt : Text)
      → (segment_contains segment ctx salt ≡ true) ↔ (
          (set_contains segment.excluded ctx.key ≡ false)
          × ((set_contains segment.included ctx.key ≡ true)
              ⊎ Some (λ r. segment_rule_matches r segment.key ctx salt ≡ true) segment.rules))
  unfolding segment_contains
  segment_contains_iff segment ctx salt =
      let rules = any_iff (λ r. segment_rule_matches r segment.key ctx salt) segment.rules in
      return-false_iff (set_contains segment.excluded ctx.key) _
        (return-true_iff (set_contains segment.included ctx.key) _ rules)

  -- A segment requirement holds exactly if it names no segment to be in or the context is in one
  -- of them, and the context is in none of those that it rules out.
  pub segment_match_holds_iff :
      (m : SegmentMatch) (ctx : EvaluationContext) (env : EvaluationEnv)
      → (segment_match_holds m ctx env ≡ true) ↔ (
          ((m.any_of ≡ []) ⊎ Some (λ k. in_segment k ctx env ≡ true) m.any_of)
          × All (λ k. in_segment k ctx env ≡ false) m.none_of)
  unfolding segment_match_holds
  segment_match_holds_iff m ctx env =
      and_iff _ _ (or_iff _ _ (is_nil_iff m.any_of) (any_iff (λ k. in_segment k ctx env) m.any_of))
        (not_iff _ (any-eq-false_iff (λ k. in_segment k ctx env) m.none_of))

  -- A rule targets a context exactly if all its conditions match and its segment requirement, if
  -- it has one, holds.
  pub rule_matches_iff :
      (rule : Rule) (ctx : EvaluationContext) (env : EvaluationEnv)
      → (rule_matches rule ctx env ≡ true) ↔ (
          All (λ c. condition_matches c ctx ≡ true) rule.conditions
          × ((m : SegmentMatch) → rule.segments ≡ some m → segment_match_holds m ctx env ≡ true))
  unfolding rule_matches
  rule_matches_iff rule ctx env =
      and_iff _ _ (all_iff (λ c. condition_matches c ctx) rule.conditions)
        (is_none_or_iff rule.segments (λ m. segment_match_holds m ctx env))

  nobody :
      (ctx : EvaluationContext) (env : EvaluationEnv) (ks : List Text)
      → All (λ k. lookup k env.segments ≡ none) ks
      → any (λ k. in_segment k ctx env) ks ≡ false
  unfolding in_segment
  nobody ctx env [] h = refl
  nobody ctx env (k ∷ ks) h = rw h.0 (nobody ctx env ks h.1)

  -- A requirement that names only segments that the environment does not define holds exactly if
  -- it names none to be in.
  pub segment_match_holds_undefined :
      (m : SegmentMatch) (ctx : EvaluationContext) (env : EvaluationEnv)
      → All (λ k. lookup k env.segments ≡ none) m.any_of
      → All (λ k. lookup k env.segments ≡ none) m.none_of
      → segment_match_holds m ctx env ≡ is_nil m.any_of
  unfolding segment_match_holds
  segment_match_holds_undefined m ctx env pos neg =
      ground (arith, nobody ctx env m.any_of pos, nobody ctx env m.none_of neg)

  -- Widening the share of a segment rule drops nobody who was in it.
  pub segment_rule_matches_mono :
      (rule : SegmentRule) (narrow : SegmentRollout) (p : ℕ) (key : Text) (ctx : EvaluationContext)
      (salt : Text)
      → rule.rollout ≡ some narrow
      → narrow.percentage ≤ p
      → segment_rule_matches rule key ctx salt ≡ true
      → segment_rule_matches
          (record rule { rollout = some (record narrow { percentage = p }) })
          key
          ctx
          salt
        ≡ true
  unfolding segment_rule_matches
  segment_rule_matches_mono rule narrow p key ctx salt e le h = ground arith
