-- ===== src/Sdk/Client/Laws.antt =====
-- What `track` of crates/sdk/src/client.rs counts with a snapshot loaded.
use flagforge.Prelude.{ℕ, ◌+◌, ◌&&◌, is_some, List, [], ◌∷◌, if◌then◌else◌}
use flagforge.Text.{Text, text_eq}
use flagforge.Extern.{Extern}
use flagforge.Core.Value.{null}
use flagforge.Core.Context.{EvaluationContext}
use flagforge.Core.Snapshot.{ExperimentSpec, EnvironmentSnapshot}
use flagforge.Core.Snapshot

module _ ⦃x : Extern⦄ where
  -- The experiments that measure a metric and serve the context a variant.
  unfoldable pub creditable :
      EnvironmentSnapshot → Text → EvaluationContext → List ExperimentSpec → ℕ
  creditable snapshot metric ctx [] = 0
  creditable snapshot metric ctx (e ∷ es) =
      (if text_eq e.metric_key metric
          && is_some (Snapshot.evaluate snapshot e.flag_key ctx null).variant
        then 1
        else 0)
      + creditable snapshot metric ctx es
