-- ===== src/Api/Flags.antt =====
-- crates/api/src/routes/flags.rs: the handlers of flags. A handler runs the guards, reads and writes of
-- the source in its order; `refresh` is the snapshot cache's, of which only the call is kept.
pub mod Sound
pub mod Reads
pub mod Service
pub mod Served
pub mod Handlers
pub mod Upserts
pub mod Writes
pub mod Inserts
use flagforge.Prelude.{
  ℕ, Bool, true, false, Option, none, some, List, [], ◌∷◌, ◌++◌, map, Result, ok, err, and_then,
  unwrap_or, ok_of, if◌then◌else◌,
}
use flagforge.Prelude.Int.{ℤ, pos}
use flagforge.Text.{Text, text}
use flagforge.Text.Trim.{trim}
use flagforge.Extern.{Extern}
use flagforge.Core.Flag.{Variant, Distribution, Rule, boolean}
use flagforge.Core.Flag as Core
use flagforge.Core.Checks.{Issues, ValidationIssue}
use flagforge.Core.Validate.{validate, validate_references}
use flagforge.Storage.Tables.{ProjectRow, EnvironmentRow}
use flagforge.Storage.Error.{StorageError}
use flagforge.Storage.Exec.{Exec, World, pure, lift, map_err, ◌>>=◌, ◌>>◌}
use flagforge.Storage.Projects.{find_project, find_environment, list_environments}
use flagforge.Storage.Flags.{Flag, FlagConfig, create_flag, find_flag, update_flag, delete_flag}
use flagforge.Storage.Flags.Configs.{find_config, upsert_config}
use flagforge.Storage.Segments.{segment_keys}
use flagforge.Storage.Audit.{entry, record_entry}
use flagforge.Api.Error.{ApiError, unprocessable, from_storage}
use flagforge.Api.Auth.{AuthUser, actor, require_write, require_admin, valid_key}

module _ ⦃x : Extern⦄ where
  -- `?` on a storage result in a handler.
  unfoldable pub stored : {A : Type 0} → Exec StorageError A → Exec ApiError A
  unfolding map_err from_storage
  stored m = map_err from_storage m

  -- `.await.ok()`.
  abbrev pub attempt_of :
      {A : Type 0} → Result A StorageError × World → Result (Option A) ApiError × World
  attempt_of (ok a, w) = (ok (some a), w)
  attempt_of (err e, w) = (ok none, w)

  unfoldable pub attempt : {A : Type 0} → Exec StorageError A → Exec ApiError (Option A)
  attempt m w = attempt_of (m w)

  abbrev pub refused : Result (Unit {0}) Issues → Result (Unit {0}) ApiError
  refused (ok u) = ok u
  refused (err issues) = err (unprocessable issues)

  -- The flag as the engine would build it.
  unfoldable pub candidate : Text → List Variant → Text → Distribution → List Rule → Core.Flag
  candidate key variants off_variant fallthrough rules = record {
    key = key;
    variants = variants;
    enabled = true;
    off_variant = off_variant;
    fallthrough = fallthrough;
    rules = rules;
    version = pos 0;
  }

  unfoldable pub validate_evaluable :
      Text → List Variant → Text → Distribution → List Rule → Result Core.Flag ApiError
  unfolding candidate validate
  validate_evaluable key variants off_variant fallthrough rules =
      let flag = candidate key variants off_variant fallthrough rules in
      and_then (refused (validate flag)) λ u. ok flag

  abbrev pub annotated_issue : Text → ValidationIssue → ValidationIssue
  annotated_issue environment_key issue = record issue {
    path = text "environments." ++ environment_key ++ text "." ++ issue.path;
  }

  unfoldable pub annotate : Text → ApiError → ApiError
  annotate environment_key (unprocessable issues) =
      unprocessable (map (annotated_issue environment_key) issues)
  annotate environment_key other = other

  abbrev pub annotated : {A : Type 0} → Text → Result A ApiError → Result A ApiError
  annotated environment_key (ok a) = ok a
  annotated environment_key (err e) = err (annotate environment_key e)

  pub record CreateFlag : Type 0 where
    pub key : Text
    pub name : Text
    pub description : Option Text
    pub variants : Option (List Variant)
    pub off_variant : Option Text
    pub fallthrough : Option Distribution

  unfoldable pub create : AuthUser → Text → CreateFlag → Exec ApiError Flag
  unfolding require_write valid_key find_project boolean validate_evaluable create_flag trim entry
      record_entry actor stored lift pure text ◌>>=◌
  create caller project_key body = do
    lift (require_write caller)
    lift (valid_key body.key (text "key"))
    project ← stored (find_project caller.organization_id project_key)
    let template = boolean body.key
    let variants = unwrap_or body.variants template.variants
    let off_variant = unwrap_or body.off_variant template.off_variant
    let fallthrough = unwrap_or body.fallthrough template.fallthrough
    lift (validate_evaluable body.key variants off_variant fallthrough [])
    flag ← stored (
        create_flag project.id body.key (trim body.name) body.description variants off_variant
          fallthrough)
    stored (
        record_entry (
          entry caller.organization_id (actor caller) (text "flag.created") (text "flag")
            (project_key ++ text "/" ++ flag.key) none))
    pure flag

  pub record UpdateFlag : Type 0 where
    pub name : Option Text
    pub description : Option (Option Text)
    pub variants : Option (List Variant)
    pub archived : Option Bool

  -- `for environment in environments`.
  unfoldable pub revalidate : Flag → List Variant → List EnvironmentRow → Exec ApiError (Unit {0})
  unfolding find_config validate_evaluable stored lift pure ◌>>=◌
  revalidate existing variants [] = pure tt
  revalidate existing variants (environment ∷ environments) = do
    config ← stored (find_config existing.id environment.id)
    lift (
        annotated environment.key (
          validate_evaluable existing.key variants config.off_variant config.fallthrough
            config.rules))
    revalidate existing variants environments

  unfoldable pub check_variants : Flag → ℕ → Option (List Variant) → Exec ApiError (Unit {0})
  unfolding revalidate list_environments stored pure ◌>>=◌
  check_variants existing project_id none = pure tt
  check_variants existing project_id (some variants) = do
    environments ← stored (list_environments project_id)
    revalidate existing variants environments

  -- `.as_deref().map(str::trim)`.
  unfoldable pub trimmed : Option Text → Option Text
  unfolding trim
  trimmed none = none
  trimmed (some name) = some (trim name)

  unfoldable pub update : AuthUser → Text → Text → UpdateFlag → Exec ApiError Flag
  unfolding require_write find_project find_flag check_variants update_flag trimmed entry
      record_entry actor stored lift pure text ◌>>=◌
  update caller project_key flag_key body = do
    lift (require_write caller)
    project ← stored (find_project caller.organization_id project_key)
    existing ← stored (find_flag project.id flag_key)
    check_variants existing project.id body.variants
    updated ←
        stored
          (update_flag existing.id (trimmed body.name) body.description body.variants body.archived)
    stored (
        record_entry (
          entry caller.organization_id (actor caller) (text "flag.updated") (text "flag")
            (project_key ++ text "/" ++ flag_key) none))
    pure updated

  unfoldable pub delete : AuthUser → Text → Text → Exec ApiError (Unit {0})
  unfolding require_admin find_project delete_flag entry record_entry actor stored lift text ◌>>=◌
  delete caller project_key flag_key = do
    lift (require_admin caller)
    project ← stored (find_project caller.organization_id project_key)
    stored (delete_flag project.id flag_key)
    stored (
        record_entry (
          entry caller.organization_id (actor caller) (text "flag.deleted") (text "flag")
            (project_key ++ text "/" ++ flag_key) none))

  pub record UpdateConfig : Type 0 where
    pub enabled : Bool
    pub off_variant : Text
    pub fallthrough : Distribution
    pub rules : List Rule
    pub expected_version : Option ℤ

  -- `state.cache.refresh(environment.id)`.
  unfoldable pub refresh : ℕ → Exec ApiError (Unit {0})
  refresh environment_id w = (ok tt, record w { refreshed = environment_id ∷ w.refreshed })

  unfoldable pub update_config :
      AuthUser → Text → Text → Text → UpdateConfig → Exec ApiError FlagConfig
  unfolding require_write find_project find_environment find_flag validate_evaluable segment_keys
      validate_references find_config upsert_config refresh entry record_entry actor stored attempt
      lift pure text ◌>>=◌
  update_config caller project_key environment_key flag_key body = do
    lift (require_write caller)
    project ← stored (find_project caller.organization_id project_key)
    environment ← stored (find_environment project.id environment_key)
    flag ← stored (find_flag project.id flag_key)
    wanted ←
        lift
          (validate_evaluable flag.key flag.variants body.off_variant body.fallthrough body.rules)
    known ← stored (segment_keys environment.id)
    lift (refused (validate_references wanted known))
    previous ← attempt (find_config flag.id environment.id)
    config ← stored (
        upsert_config flag.id environment.id body.enabled body.off_variant body.fallthrough
          body.rules body.expected_version)
    refresh environment.id
    stored (
        record_entry (
          entry caller.organization_id (actor caller) (text "flag.configured") (text "flag")
            (project_key ++ text "/" ++ environment_key ++ text "/" ++ flag_key)
            (some environment.id)))
    pure config
