-- ===== src/Core/Snapshot.antt =====
-- crates/core/src/snapshot.rs: an immutable view of one environment. The time of its making is left
-- out of the record: nothing that is modelled reads it.
pub mod Laws
use flagforge.Prelude.{ℕ, Option, none, some, List, [], ◌∷◌, ◌++◌, map}
use flagforge.Prelude.Int.{ℤ, maximum}
use flagforge.Text.{Text}
use flagforge.TextMap.{TextMap, lookup, collect, values}
use flagforge.Extern.{Extern}
use flagforge.Core.Value.{VariantValue}
use flagforge.Core.Context.{EvaluationContext}
use flagforge.Core.Flag.{Flag, Segment, SegmentSet}
use flagforge.Core.Matcher.{EvaluationEnv}
use flagforge.Core.Engine.{Evaluation, not_found}
use flagforge.Core.Engine

-- `ExperimentSpec` of crates/core/src/experiment.rs.
pub record ExperimentSpec : Type 0 where
  pub key : Text
  pub flag_key : Text
  pub metric_key : Text
  pub control_variant : Text
  pub version : ℤ

module _ ⦃x : Extern⦄ where
  pub record EnvironmentSnapshot : Type 0 where
    pub environment_id : ℕ
    pub environment_key : Text
    pub salt : Text
    pub flags : TextMap Flag
    pub segments : SegmentSet
    pub experiments : List ExperimentSpec
    pub version : ℤ

  -- `into_iter().map(|f| (f.key.clone(), f)).collect()`.
  unfoldable pub flag_map : List Flag → TextMap Flag
  unfolding collect
  flag_map flags = collect [] (map (λ f. (f.key, f)) flags)

  unfoldable pub segment_map : List Segment → SegmentSet
  unfolding collect
  segment_map segments = collect [] (map (λ s. (s.key, s)) segments)

  -- The versions that the snapshot's own version covers.
  unfoldable pub versions : TextMap Flag → SegmentSet → List ℤ
  unfolding values
  versions flags segments =
      map (λ f. f.version) (values flags) ++ map (λ s. s.version) (values segments)

  unfoldable pub new : ℕ → Text → Text → List Flag → List Segment → EnvironmentSnapshot
  unfolding maximum versions flag_map segment_map
  new environment_id environment_key salt flags segments =
      let flags' = flag_map flags in
      let segments' = segment_map segments in
      record {
        environment_id = environment_id;
        environment_key = environment_key;
        salt = salt;
        flags = flags';
        segments = segments';
        experiments = [];
        version = maximum (versions flags' segments');
      }

  unfoldable pub with_experiments : EnvironmentSnapshot → List ExperimentSpec → EnvironmentSnapshot
  unfolding maximum
  with_experiments s experiments = record s {
    version = maximum (map (λ e. e.version) experiments ++ s.version ∷ []);
    experiments = experiments;
  }

  unfoldable pub get : EnvironmentSnapshot → Text → Option Flag
  unfolding lookup
  get s flag_key = lookup flag_key s.flags

  unfoldable pub env : EnvironmentSnapshot → EvaluationEnv
  env s = record { salt = s.salt; segments = s.segments }

  unfoldable pub evaluate :
      EnvironmentSnapshot → Text → EvaluationContext → VariantValue → Evaluation
  unfolding get env not_found
  evaluate s flag_key ctx fallback = elim (get s flag_key) [
    | some flag ↦ Engine.evaluate flag ctx (env s)
    | none ↦ not_found flag_key fallback
  ]

  unfoldable pub evaluate_all : EnvironmentSnapshot → EvaluationContext → List Evaluation
  unfolding env values
  evaluate_all s ctx = map (λ flag. Engine.evaluate flag ctx (env s)) (values s.flags)
