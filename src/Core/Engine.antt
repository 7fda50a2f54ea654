-- ===== src/Core/Engine.antt =====
-- crates/core/src/engine.rs: the decision for a flag, with the reason behind it.
pub mod Decisions
pub mod Outcomes
use flagforge.Prelude.{
  ℕ, ◌+◌, Bool, true, false, not, Option, none, some, List, [], ◌∷◌, ◌++◌, if◌then◌else◌, unwrap_or,
  Result, ok, err,
}
use flagforge.Prelude.Int.{ℤ, pos}
use flagforge.Text.{Text, text}
use flagforge.Text.Decimal.{show}
use flagforge.Extern.{Extern}
use flagforge.Core.Value.{VariantValue, as_bool, null}
use flagforge.Core.Context.{EvaluationContext, bucketing_subject}
use flagforge.Core.Flag.{
  Distribution, fixed, rollout, WeightedVariant, Variant, Rule, Flag, variant,
}
use flagforge.Core.Bucket.{bucket, pick_weighted}
use flagforge.Core.Matcher.{EvaluationEnv, rule_matches}

pub data Reason : Type 0 where
  off : Reason
  target_match : (rule_id index : ℕ) → Reason
  fallthrough : Reason
  flag_not_found : Reason
  error : (message : Text) → Reason

unfoldable pub is_healthy : Reason → Bool
is_healthy (error message) = false
is_healthy flag_not_found = false
is_healthy _ = true

-- The messages, which `format!` makes.
abbrev pub missing_subject : Option Text → Text
missing_subject bucket_by =
    text "rollout buckets on attribute `"
    ++ unwrap_or bucket_by (text "<key>")
    ++ text "`, which the context did not provide"

abbrev pub uncovered : ℕ → Text
uncovered slot = text "rollout weights do not cover bucket " ++ show slot

abbrev pub undefined_variant : Text → Text
undefined_variant key = text "variant `" ++ key ++ text "` is not defined on this flag"

-- `Option::ok_or_else`.
abbrev ok_or : Option Text → Text → Result Text Text
ok_or none message = err message
ok_or (some v) message = ok v

module _ ⦃x : Extern⦄ where
  pub record Evaluation : Type 0 where
    pub flag_key : Text
    pub variant : Option Text
    pub value : VariantValue
    pub reason : Reason
    pub version : ℤ

  unfoldable pub not_found : Text → VariantValue → Evaluation
  not_found flag_key fallback = record {
    flag_key = flag_key;
    variant = none;
    value = fallback;
    reason = flag_not_found;
    version = pos 0;
  }

  unfoldable pub is_on : Evaluation → Bool
  is_on e = unwrap_or (as_bool e.value) false

  -- The value of a variant that may be missing.
  abbrev pub value_or_null : Option Variant → VariantValue
  value_or_null none = null
  value_or_null (some v) = v.value

  unfoldable pub degrade : Flag → Text → Evaluation
  degrade flag message = record {
    flag_key = flag.key;
    variant = none;
    value = value_or_null (variant flag flag.off_variant);
    reason = error message;
    version = flag.version;
  }

  unfoldable pub serve : Flag → Text → Reason → Evaluation
  unfolding degrade
  serve flag variant_key reason = elim (variant flag variant_key) [
    | some v ↦ record {
      flag_key = flag.key;
      variant = some v.key;
      value = v.value;
      reason = reason;
      version = flag.version;
    }
    | none ↦ degrade flag (undefined_variant variant_key)
  ]

  -- A rollout, once its subject is looked up.
  unfoldable pub resolve_rollout :
      Flag → List WeightedVariant → Option Text → Text → Option Text → Result Text Text
  resolve_rollout flag weights bucket_by salt none = err (missing_subject bucket_by)
  resolve_rollout flag weights bucket_by salt (some subject) =
      let slot = bucket salt flag.key subject in ok_or (pick_weighted weights slot) (uncovered slot)

  unfoldable pub resolve : Flag → Distribution → EvaluationContext → Text → Result Text Text
  unfolding resolve_rollout
  resolve flag (fixed v) ctx salt = ok v
  resolve flag (rollout weights bucket_by) ctx salt =
      resolve_rollout flag weights bucket_by salt (bucketing_subject ctx bucket_by)

  -- Serves what a distribution resolves to, or degrades.
  unfoldable pub serve_resolved : Flag → Result Text Text → Reason → Evaluation
  serve_resolved flag (ok v) reason = serve flag v reason
  serve_resolved flag (err message) reason = degrade flag message

  -- The loop over the rules, from index `index`, and the fallthrough behind it.
  unfoldable pub evaluate_from :
      Flag → EvaluationContext → EvaluationEnv → ℕ → List Rule → Evaluation
  unfolding serve_resolved
  evaluate_from flag ctx env index [] =
      serve_resolved flag (resolve flag flag.fallthrough ctx env.salt) fallthrough
  evaluate_from flag ctx env index (rule ∷ rules) =
      if rule_matches rule ctx env
      then serve_resolved flag (resolve flag rule.distribution ctx env.salt)
          (target_match rule.id index)
      else evaluate_from flag ctx env (index + 1) rules

  unfoldable pub evaluate : Flag → EvaluationContext → EvaluationEnv → Evaluation
  unfolding evaluate_from
  evaluate flag ctx env =
      if not flag.enabled
      then serve flag flag.off_variant off
      else evaluate_from flag ctx env 0 flag.rules
