-- ===== src/Core/Validate/Accepts.antt =====
-- What `validate`, `validate_segment` and `validate_references` of crates/core/src/validate.rs
-- accept, described without their loops.
use flagforge.Prelude.{
  ℕ, ◌+◌, ◌≡◌, ◌≢◌, refl, ◌↔◌, true, Option, none, some, List, [], ◌∷◌, map, All, is_nil, ◌==◌,
  ==_iff, ok,
}
use flagforge.Prelude.Iff.{↔-trans, is_nil-eq-false_iff}
use flagforge.Prelude.Distinct.{Distinct, Fresh, Fresh-nil_iff}
use flagforge.Text.{Text, text_eq, text_eq_iff}
use flagforge.TextMap.{TextSet, set_contains}
use flagforge.Extern.{Extern}
use flagforge.Core.Flag.{SegmentMatch, Variant, Rule, Flag}
use flagforge.Core.Checks.{is_valid_key}
use flagforge.Core.Checks.Accepts.{
  unless_iff, unless-not_iff, both_iff, verdict_iff, IsDistribution, check_distribution_iff,
  IsRequirement, check_segment_match_iff,
}
use flagforge.Core.Checks.Conditions.{IsCondition, check_conditions_iff}
use flagforge.Core.Validate.{
  id_seen, check_variants, variant_keys, check_required, check_rule, check_rules, flag_issues,
  validate,
}

module _ ⦃x : Extern⦄ where
  abbrev pub keys_of : List Variant → List Text
  keys_of = map (λ v. v.key)

  check_variants_iff :
      (i : ℕ) (seen : TextSet) (vs : List Variant)
      → (check_variants i seen vs ≡ [])
        ↔ (All (λ v. is_valid_key v.key ≡ true) vs × Fresh text_eq seen (keys_of vs))
  unfolding check_variants set_contains
  check_variants_iff i seen [] = (λ h. (tt, tt), λ h. refl)
  check_variants_iff i seen (v ∷ vs) =
      ↔-trans
        (both_iff _ _
          (both_iff _ _ (unless_iff (is_valid_key v.key) _ _)
            (unless-not_iff (set_contains seen v.key) _ _))
          (check_variants_iff (i + 1) (v.key ∷ seen) vs))
        (λ h. ((h.0.0, h.1.0), (h.0.1, h.1.1)), λ h. ((h.0.0, h.1.0), (h.0.1, h.1.1)))

  -- A rule of a flag with the given variants.
  pub record IsRule (variants : TextSet) (rule : Rule) : Type 0 where
    pub conditions : All IsCondition rule.conditions
    pub requirement : (m : SegmentMatch) → rule.segments ≡ some m → IsRequirement m
    pub distribution : IsDistribution variants rule.distribution

  check_required_iff :
      (o : Option SegmentMatch) (path : Text)
      → (check_required o path ≡ []) ↔ ((m : SegmentMatch) → o ≡ some m → IsRequirement m)
  check_required_iff none path = (λ h m e. cc, λ h. refl)
  check_required_iff (some m) path =
      let one = check_segment_match_iff m path in
      (λ h m' e. let same : m ≡ m' = cc in rw (← same) (one.0 h), λ h. one.1 (h m refl))

  check_rule_iff :
      (variants : TextSet) (i : ℕ) (rule : Rule)
      → (check_rule variants i rule ≡ []) ↔ IsRule variants rule
  unfolding check_rule
  check_rule_iff variants i rule =
      ↔-trans
        (both_iff _ _
          (both_iff _ _ (check_conditions_iff _ 0 rule.conditions)
            (check_required_iff rule.segments _))
          (check_distribution_iff rule.distribution _ variants))
        (
          λ h. record { conditions = h.0.0; requirement = h.0.1; distribution = h.1 },
          λ r. ((r.conditions, r.requirement), r.distribution),
        )

  abbrev pub ids_of : List Rule → List ℕ
  ids_of = map (λ r. r.id)

  check_rules_iff :
      (variants : TextSet) (i : ℕ) (seen : List ℕ) (rules : List Rule)
      → (check_rules variants i seen rules ≡ [])
        ↔ (Fresh ◌==◌ seen (ids_of rules) × All (IsRule variants) rules)
  unfolding check_rules
  check_rules_iff variants i seen [] = (λ h. (tt, tt), λ h. refl)
  check_rules_iff variants i seen (r ∷ rules) =
      ↔-trans
        (both_iff _ _
          (both_iff _ _ (unless-not_iff (id_seen r.id seen) _ _) (check_rule_iff variants i r))
          (check_rules_iff variants (i + 1) (r.id ∷ seen) rules))
        (λ h. ((h.0.0, h.1.0), (h.0.1, h.1.1)), λ h. ((h.0.0, h.1.0), (h.0.1, h.1.1)))

  -- A well-formed flag.
  pub record IsFlag (flag : Flag) : Type 0 where
    pub key : is_valid_key flag.key ≡ true
    pub some_variant : flag.variants ≢ []
    pub variant_key : All (λ v. is_valid_key v.key ≡ true) flag.variants
    pub variants_differ : Distinct (keys_of flag.variants)
    pub off_known : set_contains (variant_keys flag) flag.off_variant ≡ true
    pub fallthrough : IsDistribution (variant_keys flag) flag.fallthrough
    pub ids_differ : Distinct (ids_of flag.rules)
    pub rules : All (IsRule (variant_keys flag)) flag.rules

  -- `validate` accepts exactly the well-formed flags: a valid key; at least one variant, variants
  -- with different valid keys, the off variant among them; distributions over these variants, a
  -- rollout with at least one entry, each variant at most once, weights that add up to the total
  -- modulo 2^64 and no blank attribute to bucket on; rules with different ids and well-formed
  -- conditions and requirements.
  pub validate_iff : (flag : Flag) → (validate flag ≡ ok tt) ↔ IsFlag flag
  unfolding validate
  validate_iff flag = ↔-trans (verdict_iff (flag_issues flag)) (
      ↔-trans
        (both_iff _ _
          (both_iff _ _
            (both_iff _ _
              (both_iff _ _
                (both_iff _ _ (unless_iff (is_valid_key flag.key) _ _) (
                  ↔-trans (unless-not_iff (is_nil flag.variants) _ _)
                    (is_nil-eq-false_iff flag.variants)))
                (check_variants_iff 0 [] flag.variants))
              (unless_iff (set_contains (variant_keys flag) flag.off_variant) _ _))
            (check_distribution_iff flag.fallthrough _ (variant_keys flag)))
          (check_rules_iff (variant_keys flag) 0 [] flag.rules))
        (
          λ h. record {
            key = h.0.0.0.0.0;
            some_variant = h.0.0.0.0.1;
            variant_key = h.0.0.0.1.0;
            variants_differ = differ.0 h.0.0.0.1.1;
            off_known = h.0.0.1;
            fallthrough = h.0.1;
            ids_differ = ids.0 h.1.0;
            rules = h.1.1;
          },
          λ f. (
            (
              (((f.key, f.some_variant), (f.variant_key, differ.1 f.variants_differ)), f.off_known),
              f.fallthrough,
            ),
            (ids.1 f.ids_differ, f.rules),
          ),
        ))
    where
      differ : Fresh text_eq [] (keys_of flag.variants) ↔ Distinct (keys_of flag.variants)
      differ = Fresh-nil_iff text_eq text_eq_iff (keys_of flag.variants)

      ids : Fresh ◌==◌ [] (ids_of flag.rules) ↔ Distinct (ids_of flag.rules)
      ids = Fresh-nil_iff ◌==◌ ==_iff (ids_of flag.rules)
