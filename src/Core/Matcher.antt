-- ===== src/Core/Matcher.antt =====
-- crates/core/src/matcher.rs: whether a context satisfies a condition, belongs to a segment, and is
-- targeted by a rule. A guard that returns early is a clause or a branch here.
pub mod Conditions
pub mod Segments
pub mod Cache
use flagforge.Prelude.{
  ℕ, Bool, true, false, not, ◌&&◌, ◌||◌, Option, none, some, List, ◌++◌, ltb, ◌==◌, ◌>>=◌,
  if◌then◌else◌, is_some, is_some_and, is_none_or, is_nil, any, all, ok_of,
}
use flagforge.Text.{Text, text, text_eq, contains, starts_with, ends_with, split_count}
use flagforge.TextMap.{lookup, set_contains}
use flagforge.Extern.{Extern}
use flagforge.Core.Value.{AttributeValue, to_text, attribute_as_f64, attribute_as_str, scalars}
use flagforge.Core.Context.{EvaluationContext, attribute, bucketing_subject}
use flagforge.Core.Flag.{
  Operator, is_in, not_in, not_contains, greater_than, greater_than_or_equal, less_than,
  less_than_or_equal, matches, not_matches, semver_equal, semver_greater_than, semver_less_than,
  exists, not_exists, is_negated, Condition, Rule, Segment, SegmentRule, SegmentRollout,
  SegmentMatch, SegmentSet,
}
use flagforge.Core.Bucket.{bucket}

-- Negated operators reuse their positive twin.
unfoldable pub positive_counterpart : Operator → Operator
positive_counterpart not_in = is_in
positive_counterpart not_contains = Operator.contains
positive_counterpart not_matches = matches
positive_counterpart op = op

-- Segment rollouts share `bucket` with flag rollouts, behind a prefix.
unfoldable pub segment_namespace : Text → Text
segment_namespace segment_key = text "segment:" ++ segment_key

module _ ⦃x : Extern⦄ where
  open x use {
    F64, f64_eq, f64_lt, f64_le, Regex, regex_new, regex_is_match, Version, semver_parse, semver_eq,
    semver_lt,
  }

  -- `EvaluationEnv` of engine.rs: the salt and the segments of one environment.
  pub record EvaluationEnv : Type 0 where
    pub salt : Text
    pub segments : SegmentSet

  unfoldable pub text_pair : AttributeValue → AttributeValue → Option (Text × Text)
  text_pair actual expected = do a ← to_text actual; e ← to_text expected; some (a, e)

  unfoldable pub numeric_pair : AttributeValue → AttributeValue → Option (F64 × F64)
  numeric_pair actual expected = do
    a ← attribute_as_f64 actual
    e ← attribute_as_f64 expected
    some (a, e)

  -- Accepts `1`, `1.2` and `1.2.3`.
  abbrev padded : ℕ → Text → Option Text
  padded pieces raw =
      if pieces == 1
      then some (raw ++ text ".0.0")
      else if pieces == 2
      then some (raw ++ text ".0")
      else none

  unfoldable pub lenient_semver : Text → Option Version
  unfolding split_count
  lenient_semver raw = elim (semver_parse raw) [
    | some v ↦ some v
    | none ↦ padded (split_count b'.' raw) raw >>= semver_parse
  ]

  unfoldable pub semver_pair : AttributeValue → AttributeValue → Option (Version × Version)
  unfolding text_pair lenient_semver
  semver_pair actual expected = do
    (a, e) ← text_pair actual expected
    va ← lenient_semver a
    ve ← lenient_semver e
    some (va, ve)

  -- The compiled pattern, or nothing if it does not compile. Core/Matcher/Cache.antt has the cache.
  unfoldable pub compiled : Text → Option Regex
  compiled pattern = ok_of (regex_new pattern)

  abbrev text_equals : Option Text → Option Text → Bool
  text_equals (some a) (some e) = text_eq a e
  text_equals _ _ = false

  abbrev equals_or : Option F64 → Option F64 → Bool → Bool
  equals_or (some a) (some e) otherwise = f64_eq a e
  equals_or _ _ otherwise = otherwise

  -- Numbers compare numerically, everything else by its text.
  unfoldable pub equals : AttributeValue → AttributeValue → Bool
  equals actual expected =
      equals_or (attribute_as_f64 actual) (attribute_as_f64 expected)
        (text_equals (to_text actual) (to_text expected))

  abbrev matches_pattern : Option Text → Option Text → Bool
  matches_pattern (some t) (some pattern) = is_some_and (compiled pattern) λ re. regex_is_match re t
  matches_pattern _ _ = false

  unfoldable pub compare : Operator → AttributeValue → AttributeValue → Bool
  unfolding equals text_pair numeric_pair semver_pair compiled
  compare is_in a e = equals a e
  compare Operator.contains a e = is_some_and (text_pair a e) λ p. contains p.0 p.1
  compare Operator.starts_with a e = is_some_and (text_pair a e) λ p. starts_with p.0 p.1
  compare Operator.ends_with a e = is_some_and (text_pair a e) λ p. ends_with p.0 p.1
  compare greater_than a e = is_some_and (numeric_pair a e) λ p. f64_lt p.1 p.0
  compare greater_than_or_equal a e = is_some_and (numeric_pair a e) λ p. f64_le p.1 p.0
  compare less_than a e = is_some_and (numeric_pair a e) λ p. f64_lt p.0 p.1
  compare less_than_or_equal a e = is_some_and (numeric_pair a e) λ p. f64_le p.0 p.1
  compare matches a e = matches_pattern (to_text a) (attribute_as_str e)
  compare semver_equal a e = is_some_and (semver_pair a e) λ p. semver_eq p.0 p.1
  compare semver_greater_than a e = is_some_and (semver_pair a e) λ p. semver_lt p.1 p.0
  compare semver_less_than a e = is_some_and (semver_pair a e) λ p. semver_lt p.0 p.1
  compare exists a e = false
  compare not_exists a e = false
  compare not_in a e = false
  compare not_contains a e = false
  compare not_matches a e = false

  -- The nested `any` of `condition_matches`.
  unfoldable pub any_match : Operator → List AttributeValue → List AttributeValue → Bool
  any_match base actuals expecteds =
      any (λ scalar. any (λ expected. compare base scalar expected) expecteds) actuals

  unfoldable pub present_matches : Operator → AttributeValue → List AttributeValue → Bool
  present_matches op actual values =
      if is_nil values
      then false
      else if is_negated op
      then not (any_match (positive_counterpart op) (scalars actual) values)
      else any_match (positive_counterpart op) (scalars actual) values

  unfoldable pub decide : Operator → Option AttributeValue → List AttributeValue → Bool
  decide exists present values = is_some present
  decide not_exists present values = not (is_some present)
  decide op none values = false
  decide op (some actual) values = present_matches op actual values

  unfoldable pub condition_matches : Condition → EvaluationContext → Bool
  unfolding decide present_matches any_match compare
  condition_matches c ctx = decide c.operator (attribute ctx c.attribute) c.values

  -- Without a stable subject nobody is a member.
  unfoldable pub in_rollout : Text → Text → SegmentRollout → Option Text → Bool
  in_rollout salt segment_key rollout none = false
  in_rollout salt segment_key rollout (some subject) =
      ltb (bucket salt (segment_namespace segment_key) subject) rollout.percentage

  unfoldable pub segment_rule_matches : SegmentRule → Text → EvaluationContext → Text → Bool
  unfolding in_rollout
  segment_rule_matches rule segment_key ctx salt =
      if not (all (λ c. condition_matches c ctx) rule.conditions)
      then false
      else is_none_or rule.rollout
          λ rollout. in_rollout salt segment_key rollout (bucketing_subject ctx rollout.bucket_by)

  unfoldable pub segment_contains : Segment → EvaluationContext → Text → Bool
  segment_contains segment ctx salt =
      if set_contains segment.excluded ctx.key
      then false
      else if set_contains segment.included ctx.key
      then true
      else any (λ rule. segment_rule_matches rule segment.key ctx salt) segment.rules

  unfoldable pub in_segment : Text → EvaluationContext → EvaluationEnv → Bool
  in_segment key ctx env =
      is_some_and (lookup key env.segments) λ segment. segment_contains segment ctx env.salt

  unfoldable pub segment_match_holds : SegmentMatch → EvaluationContext → EvaluationEnv → Bool
  segment_match_holds required ctx env =
      (is_nil required.any_of || any (λ k. in_segment k ctx env) required.any_of)
      && not (any (λ k. in_segment k ctx env) required.none_of)

  unfoldable pub rule_matches : Rule → EvaluationContext → EvaluationEnv → Bool
  rule_matches rule ctx env =
      all (λ c. condition_matches c ctx) rule.conditions
      && is_none_or rule.segments λ m. segment_match_holds m ctx env
