-- ===== src/Storage/Flags.antt =====
-- crates/storage/src/flags.rs: flags and their configuration in each environment.
pub mod Configs
use flagforge.Prelude.{
  ℕ, ◌+◌, Bool, true, false, not, ◌&&◌, ◌||◌, Option, none, some, List, [], ◌∷◌, ◌++◌, map, ◌==◌,
  if◌then◌else◌, is_nil, is_some, is_none_or, unwrap_or, Result, ok, err, and_then,
}
use flagforge.Prelude.Int.{ℤ, pos}
use flagforge.Text.{Text, text, text_eq}
use flagforge.Extern.{Extern}
use flagforge.Core.Flag.{Variant, Distribution, Rule}
use flagforge.Storage.Error.{
  SqlError, unique_violation, foreign_key_violation, check_violation, other_failure, StorageError,
  not_found, in_use, version_conflict,
}
use flagforge.Storage.Version.{i64_eq, next_version}
use flagforge.Storage.Tables.{
  Tables, Stored, json, decode, ExperimentRow, EnvironmentRow, FlagRow, ConfigRow, ProjectRow,
  key_check, name_check,
}
use flagforge.Storage.Rows.{rows_where, first_where, order_by, update_where, delete_where}
use flagforge.Storage.Exec.{
  Exec, Statement, pure, raise, lift, ◌>>=◌, ◌>>◌, select, execute, write, found, transaction,
}
use flagforge.Storage.Experiments.{patched, collected}
use flagforge.Storage.Experiments.Removal.{experiments_referencing_flag}

module _ ⦃x : Extern⦄ where
  open x use {uuid_to_string}

  pub record Flag : Type 0 where
    pub id : ℕ
    pub project_id : ℕ
    pub key : Text
    pub name : Text
    pub description : Option Text
    pub variants : List Variant
    pub archived : Bool

  pub record FlagConfig : Type 0 where
    pub flag_id : ℕ
    pub environment_id : ℕ
    pub enabled : Bool
    pub off_variant : Text
    pub fallthrough : Distribution
    pub rules : List Rule
    pub version : ℤ

  pub record ConfiguredFlag : Type 0 where
    pub flag : Flag
    pub config : FlagConfig

  -- `Flag { .., variants: decode_variants(row.variants)?, .. }`.
  unfoldable pub flag_of : FlagRow → Result Flag StorageError
  unfolding decode text
  flag_of row = and_then (decode (text "flag") row.variants) λ variants. ok (record {
    id = row.id;
    project_id = row.project_id;
    key = row.key;
    name = row.name;
    description = row.description;
    variants = variants;
    archived = row.archived;
  })

  unfoldable pub build_config : ConfigRow → Result FlagConfig StorageError
  unfolding decode text
  build_config row = and_then (decode (text "flag configuration") row.fallthrough) λ fallthrough.
      and_then (decode (text "flag configuration") row.rules) λ rules. ok (record {
        flag_id = row.flag_id;
        environment_id = row.environment_id;
        enabled = row.enabled;
        off_variant = row.off_variant;
        fallthrough = fallthrough;
        rules = rules;
        version = row.version;
      })

  unfoldable pub is_flag : ℕ → Text → FlagRow → Bool
  is_flag project_id key f = f.project_id == project_id && text_eq f.key key

  unfoldable pub flag_violation : FlagRow → Tables → Option SqlError
  unfolding first_where is_flag key_check name_check
  flag_violation f t =
      if not (key_check f.key && name_check f.name)
      then some check_violation
      else if is_some (first_where (is_flag f.project_id f.key) t.flags)
      then some unique_violation
      else if not (is_some (first_where (λ (p : ProjectRow). p.id == f.project_id) t.projects))
      then some foreign_key_violation
      else none

  -- `INSERT INTO flags .. RETURNING ..`.
  unfoldable pub insert_flag : FlagRow → Statement FlagRow
  unfolding flag_violation
  insert_flag f now t = elim (flag_violation f t) [
    | some violation ↦ err violation
    | none ↦
        let row = record f { id = t.next_id } in
        ok (row, record t { flags = row ∷ t.flags; next_id = t.next_id + 1 })
  ]

  -- A configuration that is off, without rules.
  abbrev pub seeded : ℕ → Text → Stored Distribution → EnvironmentRow → ConfigRow
  seeded flag_id off_variant fallthrough e = record {
    flag_id = flag_id;
    environment_id = e.id;
    enabled = false;
    off_variant = off_variant;
    fallthrough = fallthrough;
    rules = json [];
    version = pos 1;
  }

  -- `INSERT INTO flag_configs SELECT .. FROM environments`; the flag is new, so that no row is there.
  unfoldable pub seed_configs : ℕ → ℕ → Text → Distribution → Statement (Unit {0})
  unfolding rows_where
  seed_configs flag_id project_id off_variant fallthrough now t = ok (
    tt,
    record t {
      flag_configs =
          map (seeded flag_id off_variant (json fallthrough))
            (rows_where (λ e. e.project_id == project_id) t.environments)
          ++ t.flag_configs;
    },
  )

  abbrev pub new_flag : ℕ → Text → Text → Option Text → List Variant → FlagRow
  new_flag project_id key name description variants = record {
    id = 0;
    project_id = project_id;
    key = key;
    name = name;
    description = description;
    variants = json variants;
    archived = false;
  }

  unfoldable pub create_flag :
      ℕ → Text → Text → Option Text → List Variant → Text → Distribution → Exec StorageError Flag
  unfolding insert_flag seed_configs flag_of write execute transaction lift pure text ◌>>=◌
  create_flag project_id key name description variants off_variant fallthrough = do
    row ← transaction (do
      row ←
          write (text "flag") key (insert_flag (new_flag project_id key name description variants))
      execute (seed_configs row.id project_id off_variant fallthrough)
      pure row)
    lift (flag_of row)

  unfoldable pub list_flags : ℕ → Bool → Exec StorageError (List Flag)
  unfolding rows_where order_by select lift flag_of collected ◌>>=◌
  list_flags project_id include_archived = do
    rows ← select (λ t.
        order_by (λ f f'. t.collates f.key f'.key)
          (rows_where (λ f. f.project_id == project_id && (include_archived || not f.archived))
            t.flags))
    lift (collected flag_of rows)

  unfoldable pub find_flag : ℕ → Text → Exec StorageError Flag
  unfolding first_where is_flag select found lift flag_of text ◌>>=◌
  find_flag project_id key = do
    row ← select (λ t. first_where (is_flag project_id key) t.flags)
    f ← found (text "flag") row
    lift (flag_of f)

  unfoldable pub flag_patch :
      Option Text → Option (Option Text) → Option (List Variant) → Option Bool → FlagRow → FlagRow
  unfolding patched
  flag_patch name description variants archived f = record f {
    name = unwrap_or name f.name;
    description = patched description f.description;
    variants = elim variants [ none ↦ f.variants | some vs ↦ json vs ];
    archived = unwrap_or archived f.archived;
  }

  abbrev pub checked_flag : FlagRow → Result FlagRow SqlError
  checked_flag f = if name_check f.name then ok f else err check_violation

  -- `UPDATE flags SET .. WHERE id = $1 RETURNING ..`.
  unfoldable pub patch_flag : ℕ → (FlagRow → FlagRow) → Statement (Option FlagRow)
  unfolding update_where first_where name_check
  patch_flag flag_id f now t =
      and_then (update_where (λ row. row.id == flag_id) (λ row. checked_flag (f row)) t.flags)
        λ rows. ok (first_where (λ row. row.id == flag_id) rows, record t { flags = rows })

  -- The key of `from_write` is the text of the id; no unique index is violated by these columns.
  unfoldable pub update_flag :
      ℕ
      → Option Text
      → Option (Option Text)
      → Option (List Variant)
      → Option Bool
      → Exec StorageError Flag
  unfolding patch_flag flag_patch write found lift flag_of text ◌>>=◌
  update_flag flag_id name description variants archived = do
    row ←
        write (text "flag") (uuid_to_string flag_id)
          (patch_flag flag_id (flag_patch name description variants archived))
    f ← found (text "flag") row
    lift (flag_of f)

  abbrev pub doomed_flags : ℕ → Text → Tables → List FlagRow
  doomed_flags project_id key t = rows_where (is_flag project_id key) t.flags

  abbrev pub is_among : ℕ → List FlagRow → Bool
  is_among id flags = is_some (first_where (λ (f : FlagRow). f.id == id) flags)

  -- The tables without a flag and, by cascade, its configurations.
  unfoldable pub without_flag : ℕ → Text → Tables → Tables
  unfolding rows_where first_where delete_where is_flag
  without_flag project_id key t = record t {
    flags = delete_where (is_flag project_id key) t.flags;
    flag_configs =
        delete_where (λ c. is_among c.flag_id (doomed_flags project_id key t)) t.flag_configs;
  }

  -- `DELETE FROM flags WHERE ..`, which an experiment on the flag restricts.
  unfoldable pub remove_flag : ℕ → Text → Statement Bool
  unfolding rows_where first_where is_flag without_flag
  remove_flag project_id key now t =
      let doomed = doomed_flags project_id key t in
      if not
        (is_some (first_where (λ (e : ExperimentRow). is_among e.flag_id doomed) t.experiments))
      then ok (is_nil doomed, without_flag project_id key t)
      else err foreign_key_violation

  unfoldable pub delete_flag : ℕ → Text → Exec StorageError (Unit {0})
  unfolding find_flag experiments_referencing_flag remove_flag execute raise pure text ◌>>=◌
  delete_flag project_id key = do
    flag ← find_flag project_id key
    referencing ← experiments_referencing_flag flag.id
    (if is_nil referencing then pure tt else raise (in_use (text "flag") key referencing))
    missing ← execute (remove_flag project_id key)
    if missing then raise (not_found (text "flag")) else pure tt
