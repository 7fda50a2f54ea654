-- ===== src/Core/Validate/Segments.antt =====
-- What `validate_segment` and `validate_references` of crates/core/src/validate.rs accept.
use flagforge.Prelude.{
  ℕ, ◌+◌, ◌≤◌, ◌≡◌, refl, ◌↔◌, true, false, Option, none, some, List, [], ◌∷◌, map, arith, All,
  ◌==◌, ==_iff, ok, leb,
}
use flagforge.Prelude.Iff.{↔-trans}
use flagforge.Prelude.Distinct.{Distinct, Fresh, Fresh-nil_iff}
use flagforge.Text.{Text}
use flagforge.TextMap.{TextSet, set_contains}
use flagforge.Extern.{Extern}
use flagforge.Core.Flag.{SegmentRollout, Rule, Flag, Segment, SegmentRule, total_weight}
use flagforge.Core.Checks.{is_valid_key}
use flagforge.Core.Checks.Accepts.{
  unless_iff, unless-not_iff, both_iff, verdict_iff, IsNamed, check_bucket_by_iff,
}
use flagforge.Core.Checks.Conditions.{IsCondition, check_conditions_iff}
use flagforge.Core.Validate.{
  id_seen, check_overlap, check_rollout_of, check_segment_rules, segment_issues, validate_segment,
  check_known, references_of, check_references, validate_references,
}

leb_iff : (a b : ℕ) → (leb a b ≡ true) ↔ (a ≤ b)
leb_iff a b = ground arith

module _ ⦃x : Extern⦄ where
  -- A share of at most everyone, of subjects that are named.
  abbrev pub IsShare : Option SegmentRollout → Type 0
  IsShare none = Unit
  IsShare (some r) = (r.percentage ≤ total_weight) × IsNamed r.bucket_by

  check_rollout_of_iff :
      (o : Option SegmentRollout) (path : Text) → (check_rollout_of o path ≡ []) ↔ IsShare o
  check_rollout_of_iff none path = (λ h. tt, λ h. refl)
  check_rollout_of_iff (some r) path =
      both_iff _ _
        (↔-trans (unless_iff (leb r.percentage total_weight) _ _)
          (leb_iff r.percentage total_weight))
        (check_bucket_by_iff r.bucket_by _)

  abbrev pub ids_of : List SegmentRule → List ℕ
  ids_of = map (λ r. r.id)

  pub record IsSegmentRule (rule : SegmentRule) : Type 0 where
    pub conditions : All IsCondition rule.conditions
    pub share : IsShare rule.rollout

  check_segment_rules_iff :
      (i : ℕ) (seen : List ℕ) (rules : List SegmentRule)
      → (check_segment_rules i seen rules ≡ [])
        ↔ (Fresh ◌==◌ seen (ids_of rules) × All IsSegmentRule rules)
  unfolding check_segment_rules
  check_segment_rules_iff i seen [] = (λ h. (tt, tt), λ h. refl)
  check_segment_rules_iff i seen (r ∷ rules) =
      ↔-trans
        (both_iff _ _
          (both_iff _ _
            (both_iff _ _ (unless-not_iff (id_seen r.id seen) _ _)
              (check_conditions_iff _ 0 r.conditions))
            (check_rollout_of_iff r.rollout _))
          (check_segment_rules_iff (i + 1) (r.id ∷ seen) rules))
        (
          λ h. ((h.0.0.0, h.1.0), (record { conditions = h.0.0.1; share = h.0.1 }, h.1.1)),
          λ h. (((h.0.0, h.1.0.conditions), h.1.0.share), (h.0.1, h.1.1)),
        )

  check_overlap_iff :
      (included excluded : TextSet)
      → (check_overlap included excluded ≡ []) ↔ All (λ k. set_contains excluded k ≡ false) included
  unfolding check_overlap
  check_overlap_iff [] excluded = (λ h. tt, λ h. refl)
  check_overlap_iff (k ∷ included) excluded =
      both_iff _ _ (unless-not_iff (set_contains excluded k) _ _)
        (check_overlap_iff included excluded)

  -- A well-formed segment.
  pub record IsSegment (segment : Segment) : Type 0 where
    pub key : is_valid_key segment.key ≡ true
    pub apart : All (λ k. set_contains segment.excluded k ≡ false) segment.included
    pub ids_differ : Distinct (ids_of segment.rules)
    pub rules : All IsSegmentRule segment.rules

  -- `validate_segment` accepts exactly the well-formed segments: a valid key, nobody both included
  -- and excluded, rules with different ids, well-formed conditions, a share of at most everyone
  -- and no blank attribute to bucket on.
  pub validate_segment_iff :
      (segment : Segment) → (validate_segment segment ≡ ok tt) ↔ IsSegment segment
  unfolding validate_segment
  validate_segment_iff segment = ↔-trans (verdict_iff (segment_issues segment)) (
      ↔-trans
        (both_iff _ _
          (both_iff _ _ (unless_iff (is_valid_key segment.key) _ _)
            (check_overlap_iff segment.included segment.excluded))
          (check_segment_rules_iff 0 [] segment.rules))
        (
          λ h. record {
            key = h.0.0;
            apart = h.0.1;
            ids_differ = (Fresh-nil_iff ◌==◌ ==_iff (ids_of segment.rules)).0 h.1.0;
            rules = h.1.1;
          },
          λ s. (
            (s.key, s.apart),
            ((Fresh-nil_iff ◌==◌ ==_iff (ids_of segment.rules)).1 s.ids_differ, s.rules),
          ),
        ))

  check_known_iff :
      (known : TextSet) (i : ℕ) (ks : List Text)
      → (check_known known i ks ≡ []) ↔ All (λ k. set_contains known k ≡ true) ks
  unfolding check_known
  check_known_iff known i [] = (λ h. tt, λ h. refl)
  check_known_iff known i (k ∷ ks) =
      both_iff _ _ (unless_iff (set_contains known k) _ _) (check_known_iff known i ks)

  -- The keys that a rule refers to are known.
  abbrev pub RefersTo : TextSet → Rule → Type 0
  RefersTo known rule = All (λ k. set_contains known k ≡ true) (references_of rule.segments)

  check_references_iff :
      (known : TextSet) (i : ℕ) (rules : List Rule)
      → (check_references known i rules ≡ []) ↔ All (RefersTo known) rules
  unfolding check_references
  check_references_iff known i [] = (λ h. tt, λ h. refl)
  check_references_iff known i (r ∷ rules) =
      both_iff _ _ (check_known_iff known i (references_of r.segments))
        (check_references_iff known (i + 1) rules)

  -- `validate_references` accepts a flag exactly if every segment that a rule of it asks for or
  -- rules out is known.
  pub validate_references_iff :
      (flag : Flag) (known : TextSet)
      → (validate_references flag known ≡ ok tt) ↔ All (RefersTo known) flag.rules
  unfolding validate_references
  validate_references_iff flag known =
      ↔-trans (verdict_iff (check_references known 0 flag.rules))
        (check_references_iff known 0 flag.rules)
