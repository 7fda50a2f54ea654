-- ===== src/Tests/Matching.antt =====
-- Conditions, segments and the pattern cache at concrete inputs.
use flagforge.Prelude.{◌≡◌, ◌↔◌, ◌⊎◌, refl, arith, true, false, some, none, [], ◌∷◌, All, Some}
use flagforge.Text.{text}
use flagforge.TextMap.{set_contains}
use flagforge.Core.Value.{AttributeValue}
use flagforge.Core.Context.{attribute}
use flagforge.Core.Flag.{matches, not_matches, Condition, SegmentMatch, SegmentRollout, SegmentRule}
use flagforge.Core.Matcher.{
  compiled, condition_matches, segment_match_holds, segment_contains, segment_rule_matches,
  in_segment,
}
use flagforge.Core.Matcher.Conditions.{Holds, condition_matches_iff, condition_matches_uncompiled}
use flagforge.Core.Matcher.Segments.{
  segment_contains_iff, segment_match_holds_iff, segment_rule_matches_mono,
}
use flagforge.Core.Matcher.Cache.{Guards, IsCoherent, compiled_cached, compiled_cached-compiled}
use flagforge.Tests.Toy.{toy, env, ada, beta, beta_rule, plan_in_pro, opened}

condition_matches_iff_example :
    (condition_matches plan_in_pro ada ≡ true)
    ↔ Holds plan_in_pro.operator (attribute ada plan_in_pro.attribute) plan_in_pro.values
condition_matches_iff_example = condition_matches_iff plan_in_pro ada

abbrev unclosed : Condition
unclosed = record {
  attribute = text "plan";
  operator = matches;
  values = AttributeValue.string (text "(pro") ∷ [];
}

condition_matches_uncompiled_example :
    (condition_matches (record unclosed { operator = matches }) ada ≡ false)
    × (condition_matches (record unclosed { operator = not_matches }) ada ≡ true)
unfolding opened
condition_matches_uncompiled_example =
    condition_matches_uncompiled unclosed ada refl (λ e. cc)
      ((λ p e. let same : text "(pro" ≡ p = cc in rw (← same) refl), tt)

segment_contains_iff_example : (segment_contains beta ada (text "salt") ≡ true) ↔ (
    (set_contains beta.excluded ada.key ≡ false)
    × ((set_contains beta.included ada.key ≡ true)
        ⊎ Some (λ r. segment_rule_matches r beta.key ada (text "salt") ≡ true) beta.rules))
segment_contains_iff_example = segment_contains_iff beta ada (text "salt")

abbrev in_beta : SegmentMatch
in_beta = record { any_of = text "beta" ∷ []; none_of = [] }

segment_match_holds_iff_example : (segment_match_holds in_beta ada env ≡ true) ↔ (
    ((in_beta.any_of ≡ []) ⊎ Some (λ k. in_segment k ada env ≡ true) in_beta.any_of)
    × All (λ k. in_segment k ada env ≡ false) in_beta.none_of)
segment_match_holds_iff_example = segment_match_holds_iff in_beta ada env

abbrev share : SegmentRollout
share = record { percentage = 100000; bucket_by = none }

abbrev shared_rule : SegmentRule
shared_rule = record beta_rule { rollout = some share }

segment_rule_matches_mono_example :
    segment_rule_matches
      (record shared_rule { rollout = some (record share { percentage = 100001 }) })
      beta.key
      ada
      (text "salt")
    ≡ true
unfolding opened
segment_rule_matches_mono_example =
    segment_rule_matches_mono shared_rule share 100001 beta.key ada (text "salt") refl (omega arith)
      refl

no_entries-IsCoherent : IsCoherent []
unfolding opened
no_entries-IsCoherent = record { entries = λ p e h. cc; bounded = omega arith }

compiled_cached-compiled_example :
    let answer = compiled_cached (some []) none (text "pro") in
    (answer.0 ≡ compiled (text "pro")) × Guards answer.1
compiled_cached-compiled_example =
    compiled_cached-compiled (some []) none (text "pro") no_entries-IsCoherent tt
