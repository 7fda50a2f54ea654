-- ===== src/Core/Validate.antt =====
-- crates/core/src/validate.rs: the mistakes that are refused before a flag or a segment is stored.
pub mod Accepts
pub mod Segments
pub mod Healthy
pub mod Namespace
use flagforge.Prelude.{
  ℕ, ◌+◌, Bool, not, Option, none, some, List, [], ◌∷◌, ◌++◌, map, leb, ◌==◌, is_nil, any, Result,
}
use flagforge.Text.{Text, text}
use flagforge.Text.Decimal.{show}
use flagforge.TextMap.{TextSet, set_contains}
use flagforge.Extern.{Extern}
use flagforge.Core.Flag.{
  SegmentMatch, referenced, SegmentRollout, Variant, Rule, Flag, Segment, SegmentRule, total_weight,
}
use flagforge.Core.Checks.{
  Issues, unless, verdict, is_valid_key, indexed, quoted, invalid_key, not_a_variant,
  check_bucket_by, check_distribution, check_segment_match, check_conditions,
}

-- `HashSet<Uuid>::contains`.
abbrev pub id_seen : ℕ → List ℕ → Bool
id_seen id seen = any (◌==◌ id) seen

module _ ⦃x : Extern⦄ where
  open x use {uuid_to_string}

  unfoldable pub check_variants : ℕ → TextSet → List Variant → Issues
  check_variants i seen [] = []
  check_variants i seen (v ∷ vs) =
      unless (is_valid_key v.key) (indexed (text "variants") i ++ text ".key")
        (text "invalid variant key " ++ quoted v.key)
      ++ unless (not (set_contains seen v.key)) (indexed (text "variants") i ++ text ".key")
          (text "duplicate variant key " ++ quoted v.key)
      ++ check_variants (i + 1) (v.key ∷ seen) vs

  -- `variant_keys`, once the loop has filled it.
  unfoldable pub variant_keys : Flag → TextSet
  variant_keys flag = map (λ v. v.key) flag.variants

  abbrev check_required : Option SegmentMatch → Text → Issues
  check_required none path = []
  check_required (some required) path = check_segment_match required path

  abbrev check_id : ℕ → ℕ → List ℕ → Issues
  check_id i id seen =
      unless (not (id_seen id seen)) (indexed (text "rules") i ++ text ".id")
        (text "duplicate rule id " ++ quoted (uuid_to_string id))

  unfoldable pub check_rule : TextSet → ℕ → Rule → Issues
  check_rule variants i rule =
      check_conditions (indexed (text "rules") i) 0 rule.conditions
      ++ check_required rule.segments (indexed (text "rules") i ++ text ".segments")
      ++ check_distribution rule.distribution (indexed (text "rules") i ++ text ".distribution")
          variants

  unfoldable pub check_rules : TextSet → ℕ → List ℕ → List Rule → Issues
  unfolding check_rule
  check_rules variants i seen [] = []
  check_rules variants i seen (rule ∷ rules) =
      check_id i rule.id seen
      ++ check_rule variants i rule
      ++ check_rules variants (i + 1) (rule.id ∷ seen) rules

  unfoldable pub flag_issues : Flag → Issues
  unfolding check_variants variant_keys check_rules
  flag_issues flag =
      unless (is_valid_key flag.key) (text "key") (invalid_key flag.key)
      ++ unless (not (is_nil flag.variants)) (text "variants")
          (text "a flag needs at least one variant")
      ++ check_variants 0 [] flag.variants
      ++ unless (set_contains (variant_keys flag) flag.off_variant) (text "off_variant")
          (not_a_variant flag.off_variant)
      ++ check_distribution flag.fallthrough (text "fallthrough") (variant_keys flag)
      ++ check_rules (variant_keys flag) 0 [] flag.rules

  unfoldable pub validate : Flag → Result (Unit {0}) Issues
  unfolding flag_issues
  validate flag = verdict (flag_issues flag)

  -- The keys that are both included and excluded, in the order of the set `included`.
  unfoldable pub check_overlap : TextSet → TextSet → Issues
  check_overlap [] excluded = []
  check_overlap (key ∷ included) excluded =
      unless (not (set_contains excluded key)) (text "excluded")
        (quoted key ++ text " is both included and excluded")
      ++ check_overlap included excluded

  abbrev check_rollout_of : Option SegmentRollout → Text → Issues
  check_rollout_of none path = []
  check_rollout_of (some r) path =
      unless (leb r.percentage total_weight) (path ++ text ".percentage") (
        text "must be between 0 and "
        ++ show total_weight
        ++ text " (got "
        ++ show r.percentage
        ++ text ")")
      ++ check_bucket_by r.bucket_by (path ++ text ".bucket_by")

  unfoldable pub check_segment_rules : ℕ → List ℕ → List SegmentRule → Issues
  check_segment_rules i seen [] = []
  check_segment_rules i seen (rule ∷ rules) =
      check_id i rule.id seen
      ++ check_conditions (indexed (text "rules") i) 0 rule.conditions
      ++ check_rollout_of rule.rollout (indexed (text "rules") i ++ text ".rollout")
      ++ check_segment_rules (i + 1) (rule.id ∷ seen) rules

  unfoldable pub segment_issues : Segment → Issues
  unfolding check_overlap check_segment_rules
  segment_issues segment =
      unless (is_valid_key segment.key) (text "key") (invalid_key segment.key)
      ++ check_overlap segment.included segment.excluded
      ++ check_segment_rules 0 [] segment.rules

  unfoldable pub validate_segment : Segment → Result (Unit {0}) Issues
  unfolding segment_issues
  validate_segment segment = verdict (segment_issues segment)

  -- The references of one rule, and of all.
  unfoldable pub check_known : TextSet → ℕ → List Text → Issues
  check_known known i [] = []
  check_known known i (key ∷ keys) =
      unless (set_contains known key) (indexed (text "rules") i ++ text ".segments")
        (text "no segment " ++ quoted key ++ text " in this environment")
      ++ check_known known i keys

  abbrev references_of : Option SegmentMatch → List Text
  references_of none = []
  references_of (some required) = referenced required

  unfoldable pub check_references : TextSet → ℕ → List Rule → Issues
  unfolding check_known
  check_references known i [] = []
  check_references known i (rule ∷ rules) =
      check_known known i (references_of rule.segments) ++ check_references known (i + 1) rules

  unfoldable pub validate_references : Flag → TextSet → Result (Unit {0}) Issues
  unfolding check_references
  validate_references flag known = verdict (check_references known 0 flag.rules)
