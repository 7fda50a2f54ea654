-- ===== src/Storage/Snapshot.antt =====
-- crates/storage/src/snapshot.rs: the snapshot of an environment, read from the tables. The time at
-- which it was made is left out, as in the snapshot itself.
use flagforge.Prelude.{ℕ, ◌&&◌, Option, none, some, List, [], ◌∷◌, ◌==◌, Result, ok, and_then}
use flagforge.Text.{Text, text, text_eq}
use flagforge.Extern.{Extern}
use flagforge.Core.Flag.{Variant, Distribution, Rule}
use flagforge.Core.Flag as Core
use flagforge.Core.Snapshot.{EnvironmentSnapshot, with_experiments}
use flagforge.Core.Snapshot as Snapshot
use flagforge.Storage.Error.{StorageError}
use flagforge.Storage.Tables.{decode, ProjectRow, EnvironmentRow, FlagRow, ConfigRow}
use flagforge.Storage.Rows.{first_where}
use flagforge.Storage.Exec.{Exec, pure, lift, ◌>>=◌, select, found}
use flagforge.Storage.Experiments.{load_running_experiments}
use flagforge.Storage.Flags.Configs.{load_environment_flags}
use flagforge.Storage.Segments.{load_environment_segments}

module _ ⦃x : Extern⦄ where
  unfoldable pub evaluation_flag : FlagRow × ConfigRow → Result Core.Flag StorageError
  unfolding decode text
  evaluation_flag (f, c) = and_then (decode (text "flag variants") f.variants) λ variants.
      and_then (decode (text "flag fallthrough") c.fallthrough) λ fallthrough.
        and_then (decode (text "flag rules") c.rules) λ rules. ok (record {
          key = f.key;
          variants = variants;
          enabled = c.enabled;
          off_variant = c.off_variant;
          fallthrough = fallthrough;
          rules = rules;
          version = c.version;
        })

  -- `for row in rows`.
  unfoldable pub evaluation_flags :
      List (FlagRow × ConfigRow) → Result (List Core.Flag) StorageError
  unfolding evaluation_flag
  evaluation_flags [] = ok []
  evaluation_flags (row ∷ rows) =
      let rest = evaluation_flags rows in
      and_then (evaluation_flag row) λ flag. and_then rest λ flags. ok (flag ∷ flags)

  unfoldable pub load : ℕ → Exec StorageError EnvironmentSnapshot
  unfolding first_where load_environment_flags evaluation_flags load_environment_segments
      load_running_experiments with_experiments Snapshot.new select found lift pure text ◌>>=◌
  load environment_id = do
    row ← select (λ t. first_where (λ (e : EnvironmentRow). e.id == environment_id) t.environments)
    env ← found (text "environment") row
    rows ← load_environment_flags environment_id
    flags ← lift (evaluation_flags rows)
    segments ← load_environment_segments environment_id
    experiments ← load_running_experiments environment_id
    pure
        (with_experiments (Snapshot.new environment_id env.key env.salt flags segments) experiments)

  -- `JOIN projects p ON p.id = e.project_id`; a key of a project is unique in its organization.
  abbrev environment_in : Text → List EnvironmentRow → Option ProjectRow → Option EnvironmentRow
  environment_in key environments none = none
  environment_in key environments (some p) =
      first_where (λ e. e.project_id == p.id && text_eq e.key key) environments

  abbrev id_of : EnvironmentRow → ℕ
  id_of e = e.id

  unfoldable pub resolve_environment : ℕ → Text → Text → Exec StorageError ℕ
  unfolding first_where select found pure text ◌>>=◌
  resolve_environment organization_id project_key environment_key = do
    row ← select (λ t. environment_in environment_key t.environments (
        first_where (λ p. p.organization_id == organization_id && text_eq p.key project_key)
          t.projects))
    e ← found (text "environment") row
    pure (id_of e)
