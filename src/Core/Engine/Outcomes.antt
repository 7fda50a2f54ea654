-- ===== src/Core/Engine/Outcomes.antt =====
-- What every decision of crates/core/src/engine.rs is like, a healthy one and an error.
use flagforge.Prelude.{
  ℕ, ◌+◌, ◌≡◌, ap, refl, inl, inr, true, none, some, List, [], ◌∷◌, arith, Bool-cases, Option-cases,
  Result, ok, err, if_both,
}
use flagforge.Text.{Text, text_eq_iff}
use flagforge.Extern.{Extern}
use flagforge.Core.Context.{EvaluationContext}
use flagforge.Core.Flag.{Variant, Rule, Flag, find_variant, variant}
use flagforge.Core.Matcher.{EvaluationEnv, rule_matches}
use flagforge.Core.Engine.Decisions.{evaluate-on, evaluate-off}
use flagforge.Core.Engine.{
  Reason, off, target_match, fallthrough, error, Evaluation, value_or_null, degrade, serve, resolve,
  serve_resolved, evaluate_from, evaluate, is_healthy, undefined_variant,
}

module _ ⦃x : Extern⦄ where
  -- A decision is about the flag, and is either the value of one of its variants under a healthy
  -- reason, or an error that names no variant and falls back to the value of the off variant, `null`
  -- if that is missing.
  pub data Outcome (flag : Flag) (e : Evaluation) : Type 0 where
    served :
        (key : Text) (w : Variant)
        → variant flag key ≡ some w
        → w.key ≡ key
        → e.variant ≡ some key
        → e.value ≡ w.value
        → is_healthy e.reason ≡ true
        → Outcome flag e
    degraded :
        (message : Text)
        → e.variant ≡ none
        → e.value ≡ value_or_null (variant flag flag.off_variant)
        → e.reason ≡ error message
        → Outcome flag e

  pub record IsDecision (flag : Flag) (e : Evaluation) : Type 0 where
    pub flag_key : e.flag_key ≡ flag.key
    pub version : e.version ≡ flag.version
    pub outcome : Outcome flag e

  find_variant-key :
      (vs : List Variant) (key : Text) (w : Variant) → find_variant vs key ≡ some w → w.key ≡ key
  unfolding find_variant
  find_variant-key [] key w h = cc
  find_variant-key (v ∷ vs) key w h =
      ground (arith, text_eq_iff v.key key, find_variant-key vs key w)

  pub variant-key :
      (flag : Flag) (key : Text) (w : Variant) → variant flag key ≡ some w → w.key ≡ key
  unfolding variant
  variant-key flag key w h = find_variant-key flag.variants key w h

  degrade-IsDecision : (flag : Flag) (message : Text) → IsDecision flag (degrade flag message)
  unfolding degrade
  degrade-IsDecision flag message = record {
    flag_key = refl;
    version = refl;
    outcome = degraded message refl refl refl;
  }

  serve-IsDecision :
      (flag : Flag) (key : Text) (reason : Reason)
      → is_healthy reason ≡ true
      → IsDecision flag (serve flag key reason)
  unfolding serve
  serve-IsDecision flag key reason h = elim (Option-cases (variant flag key)) [
    | inl missing ↦ rw (missing, serve) (degrade-IsDecision flag (undefined_variant key))
    | inr (w, found) ↦
        let same = variant-key flag key w found in
        rw (found, serve)
          (record {
            flag_key = refl;
            version = refl;
            outcome = served key w found same (ap some same) refl h;
          })
  ]

  serve_resolved-IsDecision :
      (flag : Flag) (r : Result Text Text) (reason : Reason)
      → is_healthy reason ≡ true
      → IsDecision flag (serve_resolved flag r reason)
  unfolding serve_resolved
  serve_resolved-IsDecision flag (ok v) reason h = serve-IsDecision flag v reason h
  serve_resolved-IsDecision flag (err message) reason h = degrade-IsDecision flag message

  evaluate_from-IsDecision :
      (flag : Flag) (ctx : EvaluationContext) (env : EvaluationEnv) (index : ℕ) (rules : List Rule)
      → IsDecision flag (evaluate_from flag ctx env index rules)
  unfolding evaluate_from is_healthy
  evaluate_from-IsDecision flag ctx env index [] =
      serve_resolved-IsDecision flag (resolve flag flag.fallthrough ctx env.salt) fallthrough refl
  evaluate_from-IsDecision flag ctx env index (r ∷ rules) =
      if_both (IsDecision flag) (rule_matches r ctx env)
        (serve_resolved-IsDecision flag (resolve flag r.distribution ctx env.salt)
          (target_match r.id index) refl)
        (evaluate_from-IsDecision flag ctx env (index + 1) rules)

  -- Every evaluation of a flag is about that flag and its version, and is either the value of one
  -- of its variants under a healthy reason, or an error that names no variant and serves the off
  -- variant's value, `null` if that is missing.
  pub evaluate-IsDecision :
      (flag : Flag) (ctx : EvaluationContext) (env : EvaluationEnv)
      → IsDecision flag (evaluate flag ctx env)
  unfolding is_healthy
  evaluate-IsDecision flag ctx env = elim (Bool-cases flag.enabled) [
    | inl on ↦ rw (evaluate-on flag ctx env on) (evaluate_from-IsDecision flag ctx env 0 flag.rules)
    | inr no' ↦ rw (evaluate-off flag ctx env no') (serve-IsDecision flag flag.off_variant off refl)
  ]
