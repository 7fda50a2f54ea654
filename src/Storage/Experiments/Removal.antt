-- ===== src/Storage/Experiments/Removal.antt =====
-- crates/storage/src/experiments.rs: the deletion of an experiment, the start of a seeded one, and the
-- experiments of a flag.
use flagforge.Prelude.{
  ℕ, Bool, not, ◌&&◌, ◌||◌, none, some, List, [], ◌∷◌, ◌++◌, map, ◌==◌, if◌then◌else◌, is_nil,
  is_some, ok,
}
use flagforge.Text.{Text, text, text_eq}
use flagforge.Extern.{Extern}
use flagforge.Storage.Error.{StorageError, not_found}
use flagforge.Storage.Tables.{ExperimentRow, EnvironmentRow}
use flagforge.Storage.Rows.{rows_where, first_where, order_by, delete_where}
use flagforge.Storage.Exec.{Exec, Statement, pure, raise, ◌>>=◌, select, execute}
use flagforge.Storage.Experiments.{is_experiment, update_experiments, refuse}

module _ ⦃x : Extern⦄ where
  -- `WHERE .. AND state <> 'running'`; the counters go by cascade.
  unfoldable pub remove_experiment : ℕ → Text → Statement Bool
  unfolding delete_where rows_where first_where is_experiment text
  remove_experiment environment_id key now t =
      let doomed =
        rows_where
          (λ e. is_experiment environment_id key e && not (text_eq e.state (text "running")))
          t.experiments in
      let is_doomed =
        λ (id : ℕ). is_some (first_where (λ (e : ExperimentRow). e.id == id) doomed) in
      ok (
        is_nil doomed,
        record t {
          experiments =
              delete_where
                (λ e. is_experiment environment_id key e && not (text_eq e.state (text "running")))
                t.experiments;
          experiment_counters = delete_where (λ c. is_doomed c.experiment_id) t.experiment_counters;
        },
      )

  unfoldable pub delete_experiment : ℕ → Text → Exec StorageError (Unit {0})
  unfolding remove_experiment execute refuse text ◌>>=◌ pure
  delete_experiment environment_id key = do
    kept ← execute (remove_experiment environment_id key)
    if kept then refuse environment_id key (text "stopped (or still a draft)") else pure tt

  unfoldable pub backdate_experiment : ℕ → Text → ℕ → Statement Bool
  unfolding update_experiments is_experiment text
  backdate_experiment environment_id key started_at =
      update_experiments
        (λ e. is_experiment environment_id key e && text_eq e.state (text "running"))
        (λ now e. record e { started_at = some started_at })

  unfoldable pub backdate_start : ℕ → Text → ℕ → Exec StorageError (Unit {0})
  unfolding backdate_experiment execute raise pure text ◌>>=◌
  backdate_start environment_id key started_at = do
    unchanged ← execute (backdate_experiment environment_id key started_at)
    if unchanged then raise (not_found (text "experiment")) else pure tt

  -- `JOIN environments env ON env.id = e.environment_id`.
  unfoldable pub with_environments : List EnvironmentRow → List ExperimentRow → List (Text × Text)
  unfolding first_where
  with_environments environments [] = []
  with_environments environments (e ∷ es) =
      let rest = with_environments environments es in
      elim (first_where (λ v. v.id == e.environment_id) environments) [
        | none ↦ rest
        | some v ↦ (v.key, e.key) ∷ rest
      ]

  -- `ORDER BY env.key, e.key`.
  unfoldable pub experiments_referencing_flag : ℕ → Exec StorageError (List Text)
  unfolding with_environments rows_where order_by select pure text ◌>>=◌
  experiments_referencing_flag flag_id = do
    rows ← select (λ t.
        order_by (λ (v, e) (v', e'). t.collates v v' && (not (text_eq v v') || t.collates e e'))
          (with_environments t.environments (rows_where (λ e. e.flag_id == flag_id) t.experiments)))
    pure (map (λ (v, e). v ++ text "/" ++ e) rows)
