-- ===== src/Storage/Flags/Configs.antt =====
-- crates/storage/src/flags.rs: a flag's configuration in one environment. A write carries the version
-- that its caller has read, if it has, and the statement changes no row of another version.
pub mod Versions
use flagforge.Prelude.{
  ℕ, ◌+◌, Bool, true, false, not, ◌&&◌, ◌||◌, Option, none, some, List, [], ◌∷◌, ◌==◌,
  if◌then◌else◌, is_some, is_none_or, unwrap_or, Result, ok, err, and_then,
}
use flagforge.Prelude.Int.{ℤ, pos}
use flagforge.Text.{Text, text}
use flagforge.Extern.{Extern}
use flagforge.Core.Flag.{Variant, Distribution, Rule}
use flagforge.Storage.Error.{
  SqlError, foreign_key_violation, other_failure, StorageError, version_conflict,
}
use flagforge.Storage.Version.{i64_eq, next_version}
use flagforge.Storage.Tables.{Tables, Stored, json, EnvironmentRow, FlagRow, ConfigRow}
use flagforge.Storage.Rows.{rows_where, first_where, order_by, update_where}
use flagforge.Storage.Exec.{Exec, Statement, pure, raise, lift, ◌>>=◌, select, write, found}
use flagforge.Storage.Experiments.{collected}
use flagforge.Storage.Flags.{Flag, FlagConfig, ConfiguredFlag, flag_of, build_config}

module _ ⦃x : Extern⦄ where
  open x use {uuid_to_string}

  -- `WHERE flag_id = $1 AND environment_id = $2`, the primary key.
  unfoldable pub is_config : ℕ → ℕ → ConfigRow → Bool
  is_config flag_id environment_id c = c.flag_id == flag_id && c.environment_id == environment_id

  unfoldable pub find_config : ℕ → ℕ → Exec StorageError FlagConfig
  unfolding first_where is_config select found lift build_config text ◌>>=◌
  find_config flag_id environment_id = do
    row ← select (λ t. first_where (is_config flag_id environment_id) t.flag_configs)
    c ← found (text "flag configuration") row
    lift (build_config c)

  -- The trigger `flag_configs_touch` at an update.
  unfoldable pub touched_config : ConfigRow → Result ConfigRow SqlError
  unfolding next_version
  touched_config c = elim (next_version c.version) [
    | none ↦ err other_failure
    | some version ↦ ok (record c { version = version })
  ]

  -- The columns that `DO UPDATE` takes over from the row that was to be inserted.
  abbrev pub overwritten : ConfigRow → ConfigRow → ConfigRow
  overwritten row c = record c {
    enabled = row.enabled;
    off_variant = row.off_variant;
    fallthrough = row.fallthrough;
    rules = row.rules;
  }

  -- The row is inserted if there is none.
  unfoldable pub insert_config : ConfigRow → Statement (Option ConfigRow)
  unfolding first_where
  insert_config row now t =
      if is_some (first_where (λ (f : FlagRow). f.id == row.flag_id) t.flags)
        && is_some (first_where (λ (e : EnvironmentRow). e.id == row.environment_id) t.environments)
      then ok (some row, record t { flag_configs = row ∷ t.flag_configs })
      else err foreign_key_violation

  -- The row that is there is changed, which gives it back.
  unfoldable pub change_config : ConfigRow → Statement (Option ConfigRow)
  unfolding update_where first_where is_config touched_config
  change_config row now t =
      and_then
        (update_where (is_config row.flag_id row.environment_id)
          (λ c. touched_config (overwritten row c)) t.flag_configs)
        λ cs. ok (
          first_where (is_config row.flag_id row.environment_id) cs,
          record t { flag_configs = cs },
        )

  abbrev pub upsert_found : ConfigRow → Option ℤ → Option ConfigRow → Statement (Option ConfigRow)
  upsert_found row expected none now t = insert_config row now t
  upsert_found row expected (some c) now t =
      if is_none_or expected (i64_eq c.version) then change_config row now t else ok (none, t)

  -- `INSERT .. ON CONFLICT DO UPDATE .. WHERE $7 IS NULL OR version = $7 RETURNING ..`.
  unfoldable pub upsert : ConfigRow → Option ℤ → Statement (Option ConfigRow)
  unfolding insert_config change_config first_where is_config i64_eq
  upsert row expected now t =
      upsert_found row expected
        (first_where (is_config row.flag_id row.environment_id) t.flag_configs) now t

  unfoldable pub applied : Option ℤ → Option ConfigRow → Result ConfigRow StorageError
  unfolding text
  applied expected none =
      err (version_conflict (text "flag configuration") (unwrap_or expected (pos 0)))
  applied expected (some c) = ok c

  abbrev pub new_config : ℕ → ℕ → Bool → Text → Distribution → List Rule → ConfigRow
  new_config flag_id environment_id enabled off_variant fallthrough rules = record {
    flag_id = flag_id;
    environment_id = environment_id;
    enabled = enabled;
    off_variant = off_variant;
    fallthrough = json fallthrough;
    rules = json rules;
    version = pos 1;
  }

  unfoldable pub upsert_config :
      ℕ → ℕ → Bool → Text → Distribution → List Rule → Option ℤ → Exec StorageError FlagConfig
  unfolding upsert write lift applied build_config text ◌>>=◌
  upsert_config flag_id environment_id enabled off_variant fallthrough rules expected = do
    row ←
        write (text "flag configuration") (uuid_to_string flag_id) (
          upsert (new_config flag_id environment_id enabled off_variant fallthrough rules) expected)
    c ← lift (applied expected row)
    lift (build_config c)

  -- `JOIN flag_configs c ON c.flag_id = f.id` with `c.environment_id`, the primary key.
  unfoldable pub configured : ℕ → List ConfigRow → List FlagRow → List (FlagRow × ConfigRow)
  unfolding first_where is_config
  configured environment_id cs [] = []
  configured environment_id cs (f ∷ fs) =
      let rest = configured environment_id cs fs in
      elim (first_where (is_config f.id environment_id) cs) [ none ↦ rest | some c ↦ (f, c) ∷ rest ]

  unfoldable pub configured_flag : FlagRow × ConfigRow → Result ConfiguredFlag StorageError
  unfolding flag_of build_config
  configured_flag (f, c) =
      and_then (flag_of f)
        λ flag. and_then (build_config c) λ config. ok (record { flag = flag; config = config })

  unfoldable pub list_configured : ℕ → ℕ → Bool → Exec StorageError (List ConfiguredFlag)
  unfolding configured configured_flag rows_where order_by select lift collected ◌>>=◌
  list_configured project_id environment_id include_archived = do
    rows ← select (λ t.
        order_by (λ (f, c) (f', c'). t.collates f.key f'.key)
          (configured environment_id t.flag_configs (
            rows_where (λ f. f.project_id == project_id && (include_archived || not f.archived))
              t.flags)))
    lift (collected configured_flag rows)

  -- The rows of an environment's flags that are not archived.
  unfoldable pub environment_rows : ℕ → Tables → List (FlagRow × ConfigRow)
  unfolding configured rows_where order_by
  environment_rows environment_id t =
      order_by (λ (f, c) (f', c'). t.collates f.key f'.key)
        (configured environment_id t.flag_configs (rows_where (λ f. not f.archived) t.flags))

  unfoldable pub load_environment_flags : ℕ → Exec StorageError (List (FlagRow × ConfigRow))
  unfolding environment_rows select
  load_environment_flags environment_id = select (environment_rows environment_id)
