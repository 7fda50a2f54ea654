-- ===== src/Core/Validate/Healthy.antt =====
-- Flags that crates/core/src/validate.rs accepts, as crates/core/src/engine.rs serves them.
use flagforge.Prelude.{
  ℕ, ◌+◌, ◌%◌, ◌^◌, ◌<◌, ◌≡◌, ◌≢◌, refl, Bool, true, false, Option, none, some, List, [], ◌∷◌, map,
  arith, All, ok, err, ltb, lt→ltb, Option-cases, any, Bool-cases, inl, inr, ◌-◌, sym, ◌∙◌, if_both,
  ap,
}
use flagforge.Text.{Text, text_eq, text_eq_iff}
use flagforge.TextMap.{TextSet, set_contains}
use flagforge.Extern.{Extern}
use flagforge.Core.Context.{EvaluationContext, bucketing_subject}
use flagforge.Core.Flag.{
  Distribution, fixed, rollout, WeightedVariant, Variant, Rule, Flag, find_variant, variant,
}
use flagforge.Core.Bucket.{bucket, pick_weighted}
use flagforge.Core.Bucket.Preimage.{bucket-lt-total_weight}
use flagforge.Core.Bucket.Weights.{
  IsU32, sum_weights, sum_weights-lt, owner, pick_weighted-owner, pick_weighted-IsSome,
}
use flagforge.Core.Matcher.{EvaluationEnv, rule_matches}
use flagforge.Core.Engine.Decisions.{evaluate-on, evaluate-off, evaluate_from_none}
use flagforge.Core.Engine.{
  error, missing_subject, degrade, value_or_null, Reason, off, fallthrough, target_match, resolve,
  resolve_rollout, serve, serve_resolved, evaluate_from, evaluate, is_healthy, Evaluation,
}
use flagforge.Core.Checks.{total_of}
use flagforge.Core.Checks.Accepts.{IsDistribution, IsRollout}
use flagforge.Core.Validate.{variant_keys, validate}
use flagforge.Core.Validate.Accepts.{IsRule, validate_iff}

-- The checked sum is the sum, where `u64` cannot overflow.
total_of-eq-sum :
    (acc : ℕ) (ws : List WeightedVariant)
    → acc + sum_weights ws < 2 ^ 64
    → total_of acc ws ≡ acc + sum_weights ws
unfolding total_of sum_weights
total_of-eq-sum acc [] h = omega arith
total_of-eq-sum acc (w ∷ ws) h =
    let next : (acc + w.weight) % 2 ^ 64 ≡ acc + w.weight = omega arith in
    rw next (omega (arith, total_of-eq-sum (acc + w.weight) ws))

-- What is picked is one of the variants.
owner-All :
    (p : Text → Bool) (ws : List WeightedVariant) (b : ℕ) (v : Text)
    → All (λ w. p w.variant ≡ true) ws
    → owner ws b ≡ some v
    → p v ≡ true
unfolding owner
owner-All p [] b v h e = cc
owner-All p (w ∷ ws) b v h e = elim (Bool-cases (ltb b w.weight)) [
  | inl below ↦ let same : w.variant ≡ v = ground arith in rw (← same) h.0
  | inr above ↦ owner-All p ws (b - w.weight) v h.1 (ground arith)
]

module _ ⦃x : Extern⦄ where
  -- What the types of a distribution and a context promise, or leave to the caller: weights that are
  -- `u32`s, fewer than 2^32, and the attribute to bucket on.
  abbrev pub Ready : EvaluationContext → Distribution → Type 0
  Ready ctx (fixed v) = Unit
  Ready ctx (rollout ws bucket_by) = IsU32 ws × (bucketing_subject ctx bucket_by ≢ none)

  find_variant-known :
      (vs : List Variant) (v : Text)
      → any (text_eq v) (map (λ w. w.key) vs) ≡ true
      → (w : Variant) × (find_variant vs v ≡ some w)
  unfolding find_variant
  find_variant-known [] v h = cc
  find_variant-known (w ∷ vs) v h = elim (Bool-cases (text_eq w.key v)) [
    | inl here ↦ (w, rw here refl)
    | inr other ↦
        let rest =
          find_variant-known vs v (ground (arith, text_eq_iff v w.key, text_eq_iff w.key v)) in
        (rest.0, rw other rest.1)
  ]

  variant-known :
      (flag : Flag) (v : Text)
      → set_contains (variant_keys flag) v ≡ true
      → (w : Variant) × (variant flag v ≡ some w)
  unfolding variant variant_keys set_contains
  variant-known flag v h = find_variant-known flag.variants v h

  serve-healthy :
      (flag : Flag) (v : Text) (reason : Reason)
      → set_contains (variant_keys flag) v ≡ true
      → (serve flag v reason).reason ≡ reason
  unfolding serve
  serve-healthy flag v reason h = let found = variant-known flag v h in rw (found.1, serve) refl

  -- A well-formed rollout resolves to one of the variants.
  resolve_rollout-known :
      (flag : Flag) (variants : TextSet) (ws : List WeightedVariant) (bucket_by : Option Text)
      (salt subject : Text)
      → IsRollout variants ws bucket_by
      → IsU32 ws
      → (v : Text) × (resolve_rollout flag ws bucket_by salt (some subject) ≡ ok v)
        × (set_contains variants v ≡ true)
  unfolding resolve_rollout
  resolve_rollout-known flag variants ws bucket_by salt subject r u =
      let slot = bucket salt flag.key subject in
      let sum = sum_weights-lt ws u in
      let total = total_of-eq-sum 0 ws (omega arith) in
      let below : ltb slot (sum_weights ws) ≡ true =
        lt→ltb slot (sum_weights ws)
          (omega (arith, bucket-lt-total_weight salt flag.key subject, total, r.total)) in
      elim (Option-cases (pick_weighted ws slot)) [
        | inl gap ↦ cc (pick_weighted-IsSome ws slot u, gap, below)
        | inr (v, picked) ↦ (
          v,
          rw picked refl,
          owner-All (set_contains variants) ws slot v r.known
              (sym (pick_weighted-owner ws slot u) ∙ picked),
        )
      ]

  resolve-known :
      (flag : Flag) (variants : TextSet) (d : Distribution) (ctx : EvaluationContext) (salt : Text)
      → IsDistribution variants d
      → Ready ctx d
      → (v : Text) × (resolve flag d ctx salt ≡ ok v) × (set_contains variants v ≡ true)
  unfolding resolve
  resolve-known flag variants (fixed v) ctx salt known ready = (v, refl, known)
  resolve-known flag variants (rollout ws bucket_by) ctx salt known ready =
      elim (Option-cases (bucketing_subject ctx bucket_by)) [
        | inl missing ↦ absurd (ready.1 missing)
        | inr (subject, found) ↦
            rw found (resolve_rollout-known flag variants ws bucket_by salt subject known ready.0)
      ]

  serve_resolved-reason :
      (flag : Flag) (d : Distribution) (ctx : EvaluationContext) (salt : Text) (reason : Reason)
      → IsDistribution (variant_keys flag) d
      → Ready ctx d
      → (serve_resolved flag (resolve flag d ctx salt) reason).reason ≡ reason
  serve_resolved-reason flag d ctx salt reason known ready =
      let (v, resolved, among) = resolve-known flag (variant_keys flag) d ctx salt known ready in
      rw resolved (unfold serve_resolved in serve-healthy flag v reason among)

  evaluate_from-healthy :
      (flag : Flag) (ctx : EvaluationContext) (env : EvaluationEnv) (index : ℕ) (rules : List Rule)
      → IsDistribution (variant_keys flag) flag.fallthrough
      → Ready ctx flag.fallthrough
      → All (IsRule (variant_keys flag)) rules
      → All (λ r. Ready ctx r.distribution) rules
      → is_healthy (evaluate_from flag ctx env index rules).reason ≡ true
  unfolding evaluate_from is_healthy
  evaluate_from-healthy flag ctx env index [] known ready _ _ =
      ap is_healthy
        (serve_resolved-reason flag flag.fallthrough ctx env.salt fallthrough known ready)
  evaluate_from-healthy flag ctx env index (r ∷ rules) known ready well readies =
      if_both {A = Evaluation} (λ e. is_healthy e.reason ≡ true) (rule_matches r ctx env)
        (ap is_healthy (
          serve_resolved-reason flag r.distribution ctx env.salt (target_match r.id index)
            well.0.distribution readies.0))
        (evaluate_from-healthy flag ctx env (index + 1) rules known ready well.1 readies.1)

  -- A flag that `validate` accepts is never served an error, to a context that has the attributes
  -- that its rollouts bucket on and with weights that are `u32`s, fewer than 2^32 in a rollout.
  pub evaluate-healthy :
      (flag : Flag) (ctx : EvaluationContext) (env : EvaluationEnv)
      → validate flag ≡ ok tt
      → Ready ctx flag.fallthrough
      → All (λ r. Ready ctx r.distribution) flag.rules
      → is_healthy (evaluate flag ctx env).reason ≡ true
  unfolding is_healthy
  evaluate-healthy flag ctx env valid ready readies =
      let f = (validate_iff flag).0 valid in
      elim (Bool-cases flag.enabled) [
        | inl on ↦
            rw (evaluate-on flag ctx env on)
              (evaluate_from-healthy flag ctx env 0 flag.rules f.fallthrough ready f.rules readies)
        | inr no' ↦
            rw (evaluate-off flag ctx env no')
              (ap is_healthy (serve-healthy flag flag.off_variant off f.off_known))
      ]

  resolve-missing :
      (flag : Flag) (d : Distribution) (ws : List WeightedVariant) (bucket_by : Option Text)
      (ctx : EvaluationContext) (salt : Text)
      → d ≡ rollout ws bucket_by
      → bucketing_subject ctx bucket_by ≡ none
      → resolve flag d ctx salt ≡ err (missing_subject bucket_by)
  unfolding resolve
  resolve-missing flag d ws bucket_by ctx salt split missing = rw (split, missing) refl

  -- A flag that `validate` accepts is served an error with the off variant's value if it is
  -- enabled, no rule matches, and the context lacks the attribute that its fallthrough buckets on.
  pub evaluate_without_subject :
      (flag : Flag) (ctx : EvaluationContext) (env : EvaluationEnv) (ws : List WeightedVariant)
      (bucket_by : Option Text)
      → validate flag ≡ ok tt
      → flag.enabled ≡ true
      → flag.fallthrough ≡ rollout ws bucket_by
      → bucketing_subject ctx bucket_by ≡ none
      → All (λ r. rule_matches r ctx env ≡ false) flag.rules
      → (w : Variant) × (variant flag flag.off_variant ≡ some w)
        × ((evaluate flag ctx env).value ≡ w.value)
        × ((evaluate flag ctx env).reason ≡ error (missing_subject bucket_by))
  unfolding serve_resolved degrade
  evaluate_without_subject flag ctx env ws bucket_by valid on split missing unmatched =
      let (w, found) =
        variant-known flag flag.off_variant ((validate_iff flag).0 valid).off_known in
      let failed = resolve-missing flag flag.fallthrough ws bucket_by ctx env.salt split missing in
      let served : evaluate flag ctx env ≡ degrade flag (missing_subject bucket_by) =
        (evaluate-on flag ctx env on ∙ evaluate_from_none flag ctx env 0 flag.rules unmatched)
        ∙ ap (λ r. serve_resolved flag r fallthrough) failed in
      (w, found, ap (λ e. e.value) served ∙ ap value_or_null found, ap (λ e. e.reason) served)
