-- ===== src/Tests/Toy.antt =====
-- Stand-ins for what the program does not implement, and a flag, a segment and a context.
use flagforge.Prelude.{
  ℕ, Bool, true, false, ◌==◌, ltb, leb, Option, none, some, List, [], ◌∷◌, if◌then◌else◌, ok, err,
}
use flagforge.Prelude.Int.{pos}
use flagforge.Text.{Text, text, text_eq, text_lt, contains, starts_with}
use flagforge.Text.Decimal.{show}
use flagforge.Extern.{Extern}
use flagforge.Core.Value.{VariantValue, AttributeValue}
use flagforge.Core.Context.{EvaluationContext}
use flagforge.Core.Flag.{
  is_in, rollout, fixed, WeightedVariant, Variant, Condition, Rule, Flag, SegmentRule, Segment,
}
use flagforge.Core.Matcher.{EvaluationEnv}
use flagforge.Core.Snapshot.{ExperimentSpec, EnvironmentSnapshot}

-- Natural numbers for `f64`, substrings for regular expressions, and the bytes themselves for their
-- digest.
instance abbrev pub toy : Extern
toy = record {
  F64 = ℕ;
  f64_eq = ◌==◌;
  f64_lt = ltb;
  f64_le = leb;
  f64_of = λ n. n;
  f64_fract = λ n. 0;
  f64_abs = λ n. n;
  f64_is_finite = λ n. true;
  f64_as_i64 = pos;
  f64_to_string = show;
  Json = Option Bool;
  json_null = none;
  json_as_bool = λ j. j;
  json_as_f64 = λ j. none;
  json_as_str = λ j. none;
  Regex = Text;
  regex_new = λ p. if starts_with p (text "(") then err (text "unclosed group") else ok p;
  regex_is_match = λ re t. contains t re;
  Version = Text;
  semver_parse = λ s. some s;
  semver_eq = text_eq;
  semver_lt = text_lt;
  sha256 = λ bytes. bytes;
  uuid_to_string = show;
}

abbrev pub on_off : List Variant
on_off =
    record { key = text "on"; value = VariantValue.bool true }
    ∷ record { key = text "off"; value = VariantValue.bool false }
    ∷ []

abbrev pub plan_in_pro : Condition
plan_in_pro = record {
  attribute = text "plan";
  operator = is_in;
  values = AttributeValue.string (text "pro") ∷ [];
}

abbrev pub halves : List WeightedVariant
halves =
    record { variant = text "on"; weight = 50000 }
    ∷ record { variant = text "off"; weight = 50000 }
    ∷ []

abbrev pub pro_rule : Rule
pro_rule = record {
  id = 7;
  description = none;
  conditions = plan_in_pro ∷ [];
  segments = some (record { any_of = text "beta" ∷ []; none_of = [] });
  distribution = fixed (text "on");
}

abbrev pub flag : Flag
flag = record {
  key = text "checkout";
  variants = on_off;
  enabled = true;
  off_variant = text "off";
  fallthrough = rollout halves none;
  rules = pro_rule ∷ [];
  version = pos 3;
}

-- The same flag split by account, with no rule.
abbrev pub by_account : Flag
by_account = record flag { fallthrough = rollout halves (some (text "account")); rules = [] }

abbrev pub beta_rule : SegmentRule
beta_rule = record {
  id = 1;
  description = none;
  conditions = plan_in_pro ∷ [];
  rollout = some (record { percentage = 20000; bucket_by = none });
}

abbrev pub beta : Segment
beta = record {
  key = text "beta";
  description = none;
  included = text "ada" ∷ [];
  excluded = text "eve" ∷ [];
  rules = beta_rule ∷ [];
  version = pos 5;
}

abbrev pub env : EvaluationEnv
env = record { salt = text "salt"; segments = (text "beta", beta) ∷ [] }

abbrev pub ada : EvaluationContext
ada = record {
  key = text "ada";
  attributes = (text "plan", AttributeValue.string (text "pro")) ∷ [];
}

abbrev pub bob : EvaluationContext
bob = record { key = text "bob"; attributes = [] }

abbrev pub experiment : ExperimentSpec
experiment = record {
  key = text "cta";
  flag_key = text "checkout";
  metric_key = text "paid";
  control_variant = text "off";
  version = pos 9;
}

abbrev pub snapshot : EnvironmentSnapshot
snapshot = record {
  environment_id = 1;
  environment_key = text "production";
  salt = text "salt";
  flags = (text "checkout", flag) ∷ [];
  segments = (text "beta", beta) ∷ [];
  experiments = experiment ∷ [];
  version = pos 9;
}

-- The program, to be run on these.
unfoldable pub opened : Unit {0}
unfolding flagforge.Core.Engine.evaluate flagforge.Core.Engine.serve_resolved
    flagforge.Core.Engine.serve flagforge.Core.Engine.resolve flagforge.Core.Matcher.rule_matches
    flagforge.Core.Matcher.condition_matches flagforge.Core.Matcher.segment_match_holds
    flagforge.Core.Matcher.in_segment flagforge.Core.Matcher.segment_contains
    flagforge.Core.Matcher.segment_rule_matches flagforge.Core.Matcher.in_rollout
    flagforge.Core.Matcher.compiled flagforge.Text.text flagforge.Text.text_eq
    flagforge.TextMap.lookup flagforge.Core.Context.bucketing_subject flagforge.Core.Bucket.bucket
    flagforge.Core.Bucket.pick_weighted flagforge.Core.Value.to_text flagforge.Core.Value.scalars
    flagforge.Core.Context.attribute flagforge.Core.Value.attribute_as_f64
    flagforge.Core.Value.attribute_as_str flagforge.Core.Flag.is_negated
    flagforge.Core.Matcher.positive_counterpart flagforge.TextMap.set_contains
    flagforge.Core.Flag.variant flagforge.Text.starts_with flagforge.Core.Validate.validate
    flagforge.Core.Validate.validate_segment flagforge.Core.Validate.validate_references
    flagforge.Core.Validate.check_variants flagforge.Core.Validate.check_rules
    flagforge.Core.Validate.check_overlap flagforge.Core.Validate.check_segment_rules
    flagforge.Core.Validate.check_known flagforge.Core.Validate.check_references
    flagforge.Core.Validate.variant_keys flagforge.Core.Validate.check_rule
    flagforge.Core.Checks.unless flagforge.Core.Checks.is_valid_key
    flagforge.Core.Checks.check_rollout flagforge.Core.Checks.check_distribution
    flagforge.Core.Checks.check_weights flagforge.Core.Checks.total_of
    flagforge.Core.Checks.check_segment_match flagforge.Core.Checks.check_patterns
    flagforge.Core.Checks.check_condition flagforge.Core.Checks.check_conditions
    flagforge.Core.Validate.flag_issues flagforge.Core.Validate.segment_issues
    flagforge.Sdk.Events.has_cell flagforge.Sdk.Events.restore flagforge.Sdk.Events.Cells.count_of
    flagforge.Sdk.Events.Conservation.total flagforge.Sdk.Client.Exposures.running_on
    flagforge.Text.is_blank flagforge.Core.Flag.takes_values flagforge.Core.Flag.match_is_empty
    flagforge.Core.Flag.referenced flagforge.Sdk.Events.cell_eq
opened = tt
