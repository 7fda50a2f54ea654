-- ===== src/Sdk/Client.antt =====
-- crates/sdk/src/client.rs: local evaluation against the snapshot that was fetched last, and the
-- experiment events that it records. Each call is a step; a fetch is given by its outcome.
pub mod Laws
pub mod Exposures
use flagforge.Prelude.{
  ℕ, ◌+◌, Bool, true, false, Option, none, some, List, [], ◌∷◌, if◌then◌else◌, unwrap_or, is_some,
  Result, ok, err,
}
use flagforge.Prelude.Int.{ℤ}
use flagforge.Text.{Text, text_eq}
use flagforge.Extern.{Extern}
use flagforge.Core.Value.{VariantValue, as_bool, as_str, as_f64, null}
use flagforge.Core.Context.{EvaluationContext}
use flagforge.Core.Engine.{Evaluation, not_found}
use flagforge.Core.Snapshot.{ExperimentSpec, EnvironmentSnapshot}
use flagforge.Core.Snapshot
use flagforge.Sdk.Events.{State, exposure, conversion, record_event}

module _ ⦃x : Extern⦄ where
  pub record Client : Type 0 where
    pub current : Option EnvironmentSnapshot
    pub recorder : State

  unfoldable pub is_ready : Client → Bool
  is_ready client = is_some client.current

  unfoldable pub version : Client → Option ℤ
  version client = elim client.current [ none ↦ none | some s ↦ some s.version ]

  -- The loop over the experiments that run on the flag.
  unfoldable pub record_exposures : Text → Text → List ExperimentSpec → State → State
  record_exposures flag variant [] recorder = recorder
  record_exposures flag variant (e ∷ es) recorder =
      record_exposures flag variant es
        (if text_eq e.flag_key flag then record_event recorder e.key variant exposure else recorder)

  -- A decision that served a variant is an exposure.
  unfoldable pub expose : Text → Option Text → List ExperimentSpec → State → State
  expose flag none es recorder = recorder
  expose flag (some variant) es recorder = record_exposures flag variant es recorder

  unfoldable pub evaluate : Client → Text → EvaluationContext → VariantValue → Evaluation × Client
  unfolding expose
  evaluate client flag ctx fallback = elim client.current [
    | some snapshot ↦
        let evaluation = Snapshot.evaluate snapshot flag ctx fallback in
        (
          evaluation,
          record client {
            recorder = expose flag evaluation.variant snapshot.experiments client.recorder;
          },
        )
    | none ↦ (not_found flag fallback, client)
  ]

  unfoldable pub is_enabled : Client → Text → EvaluationContext → Bool → Bool × Client
  is_enabled client flag ctx fallback =
      let (evaluation, client') = evaluate client flag ctx (VariantValue.bool fallback) in
      (unwrap_or (as_bool evaluation.value) fallback, client')

  unfoldable pub string_value : Client → Text → EvaluationContext → Text → Text × Client
  string_value client flag ctx fallback =
      let (evaluation, client') = evaluate client flag ctx (VariantValue.string fallback) in
      (unwrap_or (as_str evaluation.value) fallback, client')

  unfoldable pub number_value : Client → Text → EvaluationContext → x.F64 → x.F64 × Client
  number_value client flag ctx fallback =
      let (evaluation, client') = evaluate client flag ctx (VariantValue.number fallback) in
      (unwrap_or (as_f64 evaluation.value) fallback, client')

  -- One round of the loop of `track`, for an experiment that measures the metric.
  abbrev credit : Text → Option Text → ℕ × State → ℕ × State
  credit key none (credited, recorder) = (credited, recorder)
  credit key (some variant) (credited, recorder) =
      (credited + 1, record_event recorder key variant conversion)

  unfoldable pub track_one :
      EnvironmentSnapshot → Text → EvaluationContext → ExperimentSpec → ℕ × State → ℕ × State
  track_one snapshot metric ctx e acc =
      if text_eq e.metric_key metric
      then credit e.key (Snapshot.evaluate snapshot e.flag_key ctx null).variant acc
      else acc

  unfoldable pub track_from :
      EnvironmentSnapshot → Text → EvaluationContext → List ExperimentSpec → ℕ × State → ℕ × State
  track_from snapshot metric ctx [] acc = acc
  track_from snapshot metric ctx (e ∷ es) acc =
      track_from snapshot metric ctx es (track_one snapshot metric ctx e acc)

  unfoldable pub track : Client → Text → EvaluationContext → ℕ × Client
  unfolding track_from track_one
  track client metric ctx = elim client.current [
    | none ↦ (0, client)
    | some snapshot ↦
        let (credited, recorder) =
          track_from snapshot metric ctx snapshot.experiments (0, client.recorder) in
        (credited, record client { recorder = recorder })
  ]

  unfoldable pub evaluate_all : Client → EvaluationContext → List Evaluation
  evaluate_all client ctx = elim client.current [
    | some snapshot ↦ Snapshot.evaluate_all snapshot ctx
    | none ↦ []
  ]

  -- A fetch that failed leaves the configuration as it is.
  unfoldable pub refresh {ℓ} :
      {E : Type ℓ} → Client → Result EnvironmentSnapshot E → Result (Unit {0}) E × Client
  refresh client (ok snapshot) = (ok tt, record client { current = some snapshot })
  refresh client (err e) = (err e, client)
