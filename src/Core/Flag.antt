-- ===== src/Core/Flag.antt =====
-- crates/core/src/flag.rs and crates/core/src/segment.rs: the configuration of flags and segments.
-- A `Uuid` is a 128-bit number, and a `u32` is a plain number, whose range is a hypothesis where a
-- property depends on it.
use flagforge.Prelude.{
  ℕ, Bool, true, false, ◌&&◌, Option, none, some, List, [], ◌∷◌, ◌++◌, if◌then◌else◌, is_nil,
}
use flagforge.Prelude.Int.{ℤ, pos}
use flagforge.Text.{Text, text, text_eq}
use flagforge.TextMap.{TextMap, TextSet}
use flagforge.Extern.{Extern}
use flagforge.Core.Value.{VariantValue, AttributeValue}

abbrev pub total_weight : ℕ
total_weight = 100000

pub data Operator : Type 0 where
  is_in not_in contains not_contains starts_with ends_with : Operator
  greater_than greater_than_or_equal less_than less_than_or_equal : Operator
  matches not_matches : Operator
  semver_equal semver_greater_than semver_less_than : Operator
  exists not_exists : Operator

unfoldable pub is_negated : Operator → Bool
is_negated not_in = true
is_negated not_contains = true
is_negated not_matches = true
is_negated not_exists = true
is_negated _ = false

unfoldable pub takes_values : Operator → Bool
takes_values exists = false
takes_values not_exists = false
takes_values _ = true

pub record WeightedVariant : Type 0 where
  pub variant : Text
  pub weight : ℕ

pub data Distribution : Type 0 where
  fixed : (variant : Text) → Distribution
  rollout : (weights : List WeightedVariant) (bucket_by : Option Text) → Distribution

pub record SegmentRollout : Type 0 where
  pub percentage : ℕ
  pub bucket_by : Option Text

pub record SegmentMatch : Type 0 where
  pub any_of : List Text
  pub none_of : List Text

unfoldable pub match_is_empty : SegmentMatch → Bool
match_is_empty m = is_nil m.any_of && is_nil m.none_of

unfoldable pub referenced : SegmentMatch → List Text
referenced m = m.any_of ++ m.none_of

module _ ⦃x : Extern⦄ where
  pub record Variant : Type 0 where
    pub key : Text
    pub value : VariantValue

  pub record Condition : Type 0 where
    pub attribute : Text
    pub operator : Operator
    pub values : List AttributeValue

  pub record Rule : Type 0 where
    pub id : ℕ
    pub description : Option Text
    pub conditions : List Condition
    pub segments : Option SegmentMatch
    pub distribution : Distribution

  pub record Flag : Type 0 where
    pub key : Text
    pub variants : List Variant
    pub enabled : Bool
    pub off_variant : Text
    pub fallthrough : Distribution
    pub rules : List Rule
    pub version : ℤ

  pub record SegmentRule : Type 0 where
    pub id : ℕ
    pub description : Option Text
    pub conditions : List Condition
    pub rollout : Option SegmentRollout

  pub record Segment : Type 0 where
    pub key : Text
    pub description : Option Text
    pub included : TextSet
    pub excluded : TextSet
    pub rules : List SegmentRule
    pub version : ℤ

  abbrev pub SegmentSet : Type 0
  SegmentSet = TextMap Segment

  -- `variants.iter().find(|v| v.key == key)`.
  unfoldable pub find_variant : List Variant → Text → Option Variant
  find_variant [] key = none
  find_variant (v ∷ vs) key = if text_eq v.key key then some v else find_variant vs key

  unfoldable pub variant : Flag → Text → Option Variant
  unfolding find_variant
  variant flag key = find_variant flag.variants key

  -- A boolean flag with the conventional variants, serving `off`.
  unfoldable pub boolean : Text → Flag
  unfolding text
  boolean key = record {
    key = key;
    variants =
        record { key = text "on"; value = VariantValue.bool true }
        ∷ record { key = text "off"; value = VariantValue.bool false }
        ∷ [];
    enabled = false;
    off_variant = text "off";
    fallthrough = fixed (text "on");
    rules = [];
    version = pos 1;
  }

  -- An empty segment with the given key: nobody is a member yet.
  unfoldable pub empty_segment : Text → Segment
  empty_segment key = record {
    key = key;
    description = none;
    included = [];
    excluded = [];
    rules = [];
    version = pos 1;
  }
