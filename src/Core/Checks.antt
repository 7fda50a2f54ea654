-- ===== src/Core/Checks.antt =====
-- crates/core/src/validate.rs: the checks of the parts of a flag or a segment.
-- Each check returns the issues that it pushes; a vector of issues is the checks' lists in a row.
pub mod Accepts
pub mod Conditions
use flagforge.Prelude.{
  ℕ, ◌+◌, ◌%◌, ◌^◌, Bool, true, false, not, ◌&&◌, ◌||◌, Option, none, some, List, [], ◌∷◌, ◌++◌,
  leb, ◌==◌, if◌then◌else◌, is_nil, all, Result, ok, err,
}
use flagforge.Text.{Text, text, is_empty, is_blank, len}
use flagforge.Text.Decimal.{show}
use flagforge.TextMap.{TextSet, set_contains}
use flagforge.Extern.{Extern}
use flagforge.Core.Value.{AttributeValue, attribute_as_str}
use flagforge.Core.Flag.{
  Operator, is_in, not_in, contains, not_contains, starts_with, ends_with, greater_than,
  greater_than_or_equal, less_than, less_than_or_equal, matches, not_matches, semver_equal,
  semver_greater_than, semver_less_than, exists, not_exists, takes_values, Distribution, fixed,
  rollout, WeightedVariant, SegmentMatch, match_is_empty, referenced, Condition, total_weight,
}

abbrev pub max_key_len : ℕ
max_key_len = 128

pub record ValidationIssue : Type 0 where
  pub path : Text
  pub message : Text

abbrev pub Issues : Type 0
Issues = List ValidationIssue

-- An issue that is pushed if the test fails.
unfoldable pub unless : Bool → Text → Text → Issues
unless holds path message = if holds then [] else record { path = path; message = message } ∷ []

-- `if issues.is_empty() { Ok(()) } else { Err(issues) }`.
abbrev pub verdict : Issues → Result (Unit {0}) Issues
verdict [] = ok tt
verdict (i ∷ is') = err (i ∷ is')

-- `is_ascii_alphanumeric` or one of `.`, `_` and `-`.
unfoldable pub is_key_char : ℕ → Bool
is_key_char c =
    leb b'0' c && leb c b'9'
    || leb b'A' c && leb c b'Z'
    || leb b'a' c && leb c b'z'
    || c == b'.'
    || c == b'_'
    || c == b'-'

unfoldable pub is_valid_key : Text → Bool
unfolding is_empty len is_key_char
is_valid_key key = not (is_empty key) && leb (len key) max_key_len && all is_key_char key

-- `{prefix}[{i}]`.
abbrev pub indexed : Text → ℕ → Text
indexed prefix i = prefix ++ text "[" ++ show i ++ text "]"

abbrev pub quoted : Text → Text
quoted s = text "`" ++ s ++ text "`"

-- `{:?}` of an operator.
abbrev debug : Operator → Text
debug is_in = text "In"
debug not_in = text "NotIn"
debug contains = text "Contains"
debug not_contains = text "NotContains"
debug starts_with = text "StartsWith"
debug ends_with = text "EndsWith"
debug greater_than = text "GreaterThan"
debug greater_than_or_equal = text "GreaterThanOrEqual"
debug less_than = text "LessThan"
debug less_than_or_equal = text "LessThanOrEqual"
debug matches = text "Matches"
debug not_matches = text "NotMatches"
debug semver_equal = text "SemverEqual"
debug semver_greater_than = text "SemverGreaterThan"
debug semver_less_than = text "SemverLessThan"
debug exists = text "Exists"
debug not_exists = text "NotExists"

abbrev pub invalid_key : Text → Text
invalid_key key =
    text "must be 1-"
    ++ show max_key_len
    ++ text " characters of [a-zA-Z0-9], `.`, `_` or `-`, got "
    ++ quoted key

abbrev pub not_a_variant : Text → Text
not_a_variant v = quoted v ++ text " is not one of the flag's variants"

-- `if let Some(attribute) = bucket_by && attribute.trim().is_empty()`.
abbrev pub check_bucket_by : Option Text → Text → Issues
check_bucket_by none path = []
check_bucket_by (some attribute) path =
    unless (not (is_blank attribute)) path (text "bucketing attribute cannot be empty")

-- The entries of a rollout; `seen` holds the variants before.
unfoldable pub check_weights : Text → TextSet → ℕ → TextSet → List WeightedVariant → Issues
check_weights path variants i seen [] = []
check_weights path variants i seen (entry ∷ weights) =
    unless (set_contains variants entry.variant)
      (indexed (path ++ text ".weights") i ++ text ".variant") (not_a_variant entry.variant)
    ++ unless (not (set_contains seen entry.variant))
        (indexed (path ++ text ".weights") i ++ text ".variant")
        (quoted entry.variant ++ text " appears twice in the same rollout")
    ++ check_weights path variants (i + 1) (entry.variant ∷ seen) weights

-- `weights.iter().map(|w| u64::from(w.weight)).sum()`.
unfoldable pub total_of : ℕ → List WeightedVariant → ℕ
total_of acc [] = acc
total_of acc (w ∷ ws) = total_of ((acc + w.weight) % 2 ^ 64) ws

unfoldable pub check_rollout : List WeightedVariant → Option Text → Text → TextSet → Issues
unfolding check_weights total_of
check_rollout weights bucket_by path variants =
    if is_nil weights
    then unless false (path ++ text ".weights")
        (text "a rollout needs at least one weighted variant")
    else check_weights path variants 0 [] weights
      ++ unless (total_of 0 weights == total_weight) (path ++ text ".weights") (
          text "weights must sum to "
          ++ show total_weight
          ++ text " (got "
          ++ show (total_of 0 weights)
          ++ text ")")
      ++ check_bucket_by bucket_by (path ++ text ".bucket_by")

unfoldable pub check_distribution : Distribution → Text → TextSet → Issues
unfolding check_rollout
check_distribution (fixed v) path variants =
    unless (set_contains variants v) (path ++ text ".variant") (not_a_variant v)
check_distribution (rollout weights bucket_by) path variants =
    check_rollout weights bucket_by path variants

check_names : Text → List Text → Issues
check_names path [] = []
check_names path (key ∷ keys) =
    unless (not (is_blank key)) path (text "segment key cannot be empty") ++ check_names path keys

check_conflicts : Text → TextSet → List Text → Issues
check_conflicts path forbidden [] = []
check_conflicts path forbidden (key ∷ keys) =
    unless (not (set_contains forbidden key)) path
      (quoted key ++ text " is both required and excluded, so the rule can never match")
    ++ check_conflicts path forbidden keys

unfoldable pub check_segment_match : SegmentMatch → Text → Issues
unfolding check_names check_conflicts
check_segment_match required path =
    if match_is_empty required
    then unless false path (text "a segment requirement must name at least one segment")
    else check_names path (referenced required)
      ++ check_conflicts path required.none_of required.any_of

abbrev is_regex_operator : Operator → Bool
is_regex_operator matches = true
is_regex_operator not_matches = true
is_regex_operator _ = false

module _ ⦃x : Extern⦄ where
  open x use {regex_new}

  -- `if let Err(err) = Regex::new(pattern)`, and the arm for a value that is no string.
  abbrev regex_issue : Result x.Regex Text → Text → Issues
  regex_issue (ok re) path = []
  regex_issue (err e) path = unless false path (text "invalid regular expression: " ++ e)

  abbrev check_pattern : Option Text → Text → Issues
  check_pattern none path = unless false path (text "regex operators take string patterns")
  check_pattern (some pattern) path = regex_issue (regex_new pattern) path

  unfoldable pub check_patterns : Text → ℕ → List AttributeValue → Issues
  check_patterns path k [] = []
  check_patterns path k (value ∷ values) =
      check_pattern (attribute_as_str value) (indexed (path ++ text ".values") k)
      ++ check_patterns path (k + 1) values

  unfoldable pub check_condition : Text → Condition → Issues
  unfolding check_patterns
  check_condition path c =
      unless (not (is_blank c.attribute)) (path ++ text ".attribute")
        (text "attribute name cannot be empty")
      ++ unless (not (takes_values c.operator && is_nil c.values)) (path ++ text ".values")
          (text "operator " ++ quoted (debug c.operator) ++ text " requires at least one value")
      ++ (if is_regex_operator c.operator then check_patterns path 0 c.values else [])

  unfoldable pub check_conditions : Text → ℕ → List Condition → Issues
  check_conditions prefix j [] = []
  check_conditions prefix j (c ∷ cs) =
      check_condition (indexed (prefix ++ text ".conditions") j) c
      ++ check_conditions prefix (j + 1) cs
