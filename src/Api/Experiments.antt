-- ===== src/Api/Experiments.antt =====
-- crates/api/src/routes/experiments.rs: the handlers of experiments, but for their results.
use flagforge.Prelude.{ℕ, not, any, Option, List, ◌++◌, Result, ok, err, map, if◌then◌else◌}
use flagforge.Text.{Text, text, text_eq}
use flagforge.Extern.{Extern}
use flagforge.Core.Flag.{Variant}
use flagforge.Core.Checks.{quoted}
use flagforge.Storage.Models.{ExperimentState, draft, running, stopped}
use flagforge.Storage.Error.{join_commas}
use flagforge.Storage.Exec.{Exec, pure, lift, ◌>>=◌, ◌>>◌}
use flagforge.Storage.Projects.{find_project, find_environment}
use flagforge.Storage.Flags.{Flag, find_flag}
use flagforge.Storage.Experiments.{
  Experiment, create_experiment, list_experiments, find_experiment, update_experiment,
  start_experiment, stop_experiment,
}
use flagforge.Storage.Experiments.Removal.{delete_experiment}
use flagforge.Api.Error.{ApiError, bad_request}
use flagforge.Api.Auth.{AuthUser, require_write, valid_key}
use flagforge.Api.Flags.{stored, refresh}
use flagforge.Api.Segments.{environment_of, audited}

module _ ⦃x : Extern⦄ where
  pub record CreateExperiment : Type 0 where
    pub key : Text
    pub name : Text
    pub description : Option Text
    pub flag_key : Text
    pub metric_key : Text
    pub control_variant : Text

  pub record UpdateExperiment : Type 0 where
    pub name : Option Text
    pub description : Option (Option Text)

  unfoldable pub list : AuthUser → Text → Text → Exec ApiError (List Experiment)
  unfolding environment_of list_experiments stored ◌>>=◌
  list caller project_key environment_key = do
    environment ← environment_of caller project_key environment_key
    stored (list_experiments environment.id)

  -- A flag that an experiment may be about, with the variant that is its control.
  unfoldable pub check_measurable : Flag → CreateExperiment → Result (Unit {0}) ApiError
  unfolding text text_eq join_commas
  check_measurable flag body =
      if flag.archived
      then err (
          bad_request (
            text "flag "
            ++ quoted body.flag_key
            ++ text " is archived; an experiment would measure traffic it no longer serves"))
      else if not (any (λ (v : Variant). text_eq v.key body.control_variant) flag.variants)
      then err (
          bad_request (
            quoted body.control_variant
            ++ text " is not a variant of "
            ++ quoted body.flag_key
            ++ text " (it has: "
            ++ join_commas (map (λ (v : Variant). v.key) flag.variants)
            ++ text ")"))
      else ok tt

  unfoldable pub create : AuthUser → Text → Text → CreateExperiment → Exec ApiError Experiment
  unfolding require_write valid_key find_project find_environment find_flag check_measurable
      create_experiment audited stored lift pure text ◌>>=◌
  create caller project_key environment_key body = do
    lift (require_write caller)
    lift (valid_key body.key (text "key"))
    lift (valid_key body.metric_key (text "metric_key"))
    project ← stored (find_project caller.organization_id project_key)
    environment ← stored (find_environment project.id environment_key)
    flag ← stored (find_flag project.id body.flag_key)
    lift (check_measurable flag body)
    experiment ← stored (
        create_experiment environment.id flag.id body.key body.name body.description body.metric_key
          body.control_variant)
    audited caller (text "experiment.created") (text "experiment") project_key environment_key
        body.key environment.id
    pure experiment

  unfoldable pub get : AuthUser → Text → Text → Text → Exec ApiError Experiment
  unfolding environment_of find_experiment stored ◌>>=◌
  get caller project_key environment_key experiment_key = do
    environment ← environment_of caller project_key environment_key
    stored (find_experiment environment.id experiment_key)

  unfoldable pub update :
      AuthUser → Text → Text → Text → UpdateExperiment → Exec ApiError Experiment
  unfolding require_write environment_of find_experiment update_experiment audited stored lift pure
      text ◌>>=◌
  update caller project_key environment_key experiment_key body = do
    lift (require_write caller)
    environment ← environment_of caller project_key environment_key
    previous ← stored (find_experiment environment.id experiment_key)
    experiment ← stored (update_experiment environment.id experiment_key body.name body.description)
    audited caller (text "experiment.updated") (text "experiment") project_key environment_key
        experiment_key environment.id
    pure experiment

  -- The move to a state, and the action that is recorded.
  unfoldable pub moving : ExperimentState → ℕ → Text → Exec ApiError (Experiment × Text)
  unfolding start_experiment stop_experiment stored pure text ◌>>=◌
  moving running environment_id key = do
    experiment ← stored (start_experiment environment_id key)
    pure (experiment, text "experiment.started")
  moving draft environment_id key = do
    experiment ← stored (stop_experiment environment_id key)
    pure (experiment, text "experiment.stopped")
  moving stopped environment_id key = do
    experiment ← stored (stop_experiment environment_id key)
    pure (experiment, text "experiment.stopped")

  unfoldable pub transition :
      AuthUser → Text → Text → Text → ExperimentState → Exec ApiError Experiment
  unfolding require_write environment_of moving refresh audited lift pure text ◌>>=◌
  transition caller project_key environment_key experiment_key to = do
    lift (require_write caller)
    environment ← environment_of caller project_key environment_key
    moved ← moving to environment.id experiment_key
    refresh environment.id
    audited caller moved.1 (text "experiment") project_key environment_key experiment_key
        environment.id
    pure moved.0

  unfoldable pub start : AuthUser → Text → Text → Text → Exec ApiError Experiment
  unfolding transition
  start caller project_key environment_key experiment_key =
      transition caller project_key environment_key experiment_key running

  unfoldable pub stop : AuthUser → Text → Text → Text → Exec ApiError Experiment
  unfolding transition
  stop caller project_key environment_key experiment_key =
      transition caller project_key environment_key experiment_key stopped

  unfoldable pub delete : AuthUser → Text → Text → Text → Exec ApiError (Unit {0})
  unfolding require_write environment_of find_experiment delete_experiment audited stored lift text
      ◌>>=◌
  delete caller project_key environment_key experiment_key = do
    lift (require_write caller)
    environment ← environment_of caller project_key environment_key
    previous ← stored (find_experiment environment.id experiment_key)
    stored (delete_experiment environment.id experiment_key)
    audited caller (text "experiment.deleted") (text "experiment") project_key environment_key
        experiment_key environment.id
