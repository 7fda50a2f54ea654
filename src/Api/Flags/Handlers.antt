-- ===== src/Api/Flags/Handlers.antt =====
-- The handlers of flags over sound tables: however a handler ends, and whatever statements of it meet
-- an outage, the tables that it leaves are sound.
pub mod Variants
pub mod Configs
use mathlib.Core.List.{Memᴰ}
use flagforge.Prelude.{
  ℕ, ◌≡◌, refl, sym, ap, ◌∙◌, Bool, true, false, Option, none, some, List, [], ◌∷◌, ◌++◌, arith,
  Result, ok, err, and_then, Result-cases, inl, inr, unwrap_or, is_nil, ok_of, subst,
}
use flagforge.Prelude.Int.{ℤ}
use flagforge.Text.{Text, text}
use flagforge.Text.Trim.{trim}
use flagforge.Extern.{Extern}
use flagforge.Core.Flag.{Variant, Distribution, Rule, boolean}
use flagforge.Core.Flag as Core
use flagforge.Core.Validate.{validate, validate_references}
use flagforge.Storage.Error.{StorageError}
use flagforge.Storage.Tables.{
  Tables, json, ProjectRow, EnvironmentRow, FlagRow, ConfigRow, AuditRow,
}
use flagforge.Storage.Exec.{Exec, World, pure, lift, ◌>>=◌}
use flagforge.Storage.Exec.Keeps.{
  Meets, Ends, returns, fails, Meets-pure, Meets-raise, Meets-if, Meets-lift, Meets-bind,
  Meets-map_err, Meets-execute, Meets-write, Meets-select, Meets-found, Meets-mono, Meets-assume,
  Meets-transaction,
}
use flagforge.Storage.Flags.{
  Flag, FlagConfig, create_flag, new_flag, insert_flag, seed_configs, update_flag, patch_flag,
  flag_patch, delete_flag, remove_flag, build_config, flag_of,
}
use flagforge.Storage.Flags.Configs.{upsert, applied, new_config, upsert_config, find_config}
use flagforge.Storage.Projects.{find_project, find_environment, list_environments}
use flagforge.Storage.Experiments.Removal.{experiments_referencing_flag}
use flagforge.Storage.Segments.{segment_keys}
use flagforge.Storage.Audit.{entry, append_entry, record_entry}
use flagforge.Api.Error.{ApiError}
use flagforge.Api.Auth.{AuthUser, actor, require_write, require_admin, valid_key}
use flagforge.Api.Flags.{
  candidate, validate_evaluable, refused, annotated, stored, attempt, attempt_of, refresh,
  CreateFlag, create, UpdateFlag, trimmed, revalidate, check_variants, update, delete, UpdateConfig,
  update_config,
}
use flagforge.Api.Flags.Sound.{Served, Sound}
use flagforge.Api.Flags.Upserts.{Fit, upsert-Sound}
use flagforge.Api.Flags.Writes.{Patches, patch-Sound, remove-Sound}
use flagforge.Api.Flags.Inserts.{Fresh, insert-Sound, seed-Sound}
use flagforge.Api.Flags.Reads.{
  Known, Configured, find_project-Meets, find_environment-Meets, find_flag-Meets, find_config-Meets,
  list_environments-Meets, Meets-stored,
}

module _ ⦃x : Extern⦄ where
  -- Nothing more is known.
  abbrev pub Any : {A : Type 0} → A → Tables → Type 0
  Any a t = Unit

  abbrev pub Whatever : Tables → Type 0
  Whatever t = Unit

  pub record_entry-Sound :
      {R : Tables → Type 0} (row : AuditRow) → Meets Sound R (record_entry row) Any
  unfolding record_entry
  record_entry-Sound row = Meets-execute (append_entry row) (λ now t s r. (
    record {
      flag_ids = s.flag_ids;
      flag_given = s.flag_given;
      config_keys = s.config_keys;
      config_given = s.config_given;
      served = s.served;
    },
    tt,
  ))

  pub refresh-Meets :
      {R : Tables → Type 0} (environment_id : ℕ) → Meets Sound R (refresh environment_id) Any
  unfolding refresh
  refresh-Meets environment_id = record { at = λ w p r. returns p tt }

  pub validate_evaluable-ok :
      (key : Text) (vs : List Variant) (off : Text) (d : Distribution) (rs : List Rule)
      (f : Core.Flag)
      → validate_evaluable key vs off d rs ≡ ok f
      → validate (candidate key vs off d rs) ≡ ok tt
  unfolding validate_evaluable
  validate_evaluable-ok key vs off d rs f h =
      elim (Result-cases (validate (candidate key vs off d rs))) [
        | inl (u, e) ↦ e
        | inr (issues, e) ↦ absurd (ground (arith, e))
      ]

  -- A guard that tells nothing about the tables.
  pub guard-Meets :
      {A : Type 0} {R : Tables → Type 0} (v : Result A ApiError)
      → Meets Sound R (lift v) (λ a t. (v ≡ ok a) × R t)
  guard-Meets v = Meets-lift v (λ a t p r e. (e, r))

  create_flag-Sound :
      (project_id : ℕ) (key name : Text) (description : Option Text) (vs : List Variant)
      (off : Text) (d : Distribution)
      → validate (candidate key vs off d []) ≡ ok tt
      → Meets Sound Whatever (create_flag project_id key name description vs off d) Any
  unfolding create_flag
  create_flag-Sound project_id key name description vs off d valid =
      let new = new_flag project_id key name description vs in
      Meets-bind
        (Meets-transaction (
          Meets-bind
            (Meets-write (text "flag") key (insert_flag new)
              (λ now t s r. insert-Sound new key vs project_id now t refl refl refl s))
            (λ row.
              Meets-bind {Q = Any}
                (Meets-execute (seed_configs row.id project_id off d)
                  (λ now t s new. seed-Sound key vs project_id off d row t s new valid now))
                (λ u. Meets-pure row (λ t p r. tt)))))
        (λ row. Meets-lift (flag_of row) (λ f t p r e. tt))

  -- After the validator has passed a flag, the rest may use that it did.
  pub evaluable-Meets :
      {B : Type 0} {R : Tables → Type 0} {S : B → Tables → Type 0} {k : Core.Flag → Exec ApiError B}
      (key : Text) (vs : List Variant) (off : Text) (d : Distribution) (rs : List Rule)
      → (validate (candidate key vs off d rs) ≡ ok tt
          → (flag : Core.Flag) → Meets Sound R (k flag) S)
      → Meets Sound R (lift (validate_evaluable key vs off d rs) >>= k) S
  evaluable-Meets key vs off d rs f =
      Meets-bind (guard-Meets (validate_evaluable key vs off d rs)) (λ flag.
        Meets-assume (validate (candidate key vs off d rs) ≡ ok tt)
          (λ t p r. validate_evaluable-ok key vs off d rs flag r.0)
          (λ valid. Meets-mono (λ t r. r.1) (λ a t q. q) (f valid flag)))

  -- A guard, of which the rest uses nothing.
  pub guarded :
      {A B : Type 0} {R : Tables → Type 0} {S : B → Tables → Type 0} {k : A → Exec ApiError B}
      (v : Result A ApiError)
      → ((a : A) → Meets Sound R (k a) S)
      → Meets Sound R (lift v >>= k) S
  guarded v f = Meets-bind (guard-Meets v) (λ a. Meets-mono (λ t r. r.1) (λ b t q. q) (f a))

  -- The project of the caller, which tells nothing about flags.
  pub in_project :
      {B : Type 0} {R : Tables → Type 0} {S : B → Tables → Type 0}
      {k : ProjectRow → Exec ApiError B} (organization_id : ℕ) (key : Text)
      → ((p : ProjectRow) → Meets Sound R (k p) S)
      → Meets Sound R (stored (find_project organization_id key) >>= k) S
  in_project organization_id key f =
      Meets-bind (Meets-stored (find_project-Meets organization_id key)) f

  -- The audit entry comes last.
  pub recorded :
      {B : Type 0} {R : Tables → Type 0} {k : Unit {0} → Exec ApiError B} (row : AuditRow)
      → ((u : Unit {0}) → Meets Sound Whatever (k u) Any)
      → Meets Sound R (stored (record_entry row) >>= k) Any
  recorded row f = Meets-bind {Q = Any} (Meets-stored (record_entry-Sound row)) f

  pub create-Sound :
      (caller : AuthUser) (project_key : Text) (body : CreateFlag)
      → Meets Sound Whatever (create caller project_key body) Any
  unfolding create
  create-Sound caller project_key body =
      let vs = unwrap_or body.variants (boolean body.key).variants in
      let off = unwrap_or body.off_variant (boolean body.key).off_variant in
      let d = unwrap_or body.fallthrough (boolean body.key).fallthrough in
      guarded (require_write caller) (λ u. guarded (valid_key body.key (text "key")) (λ u.
        in_project caller.organization_id project_key (λ project.
          evaluable-Meets body.key vs off d [] (λ valid flag.
            Meets-bind {Q = Any}
              (Meets-stored (
                create_flag-Sound project.id body.key (trim body.name) body.description vs off d
                  valid))
              (λ made. recorded _ (λ u. Meets-pure made (λ t p r. tt)))))))

  delete_flag-Sound :
      {R : Tables → Type 0} (project_id : ℕ) (key : Text)
      → Meets Sound R (delete_flag project_id key) Any
  unfolding delete_flag experiments_referencing_flag
  delete_flag-Sound project_id key = Meets-bind (find_flag-Meets project_id key) (λ flag.
      Meets-bind {Q = Any} (Meets-bind (Meets-select _) (λ rows. Meets-pure _ (λ t p r. tt)))
        (λ referencing.
          Meets-bind {Q = Any}
            (Meets-if (is_nil referencing) _ _ (Meets-pure tt (λ t p r. tt)) (Meets-raise _))
            (λ u.
              Meets-bind {Q = Any}
                (Meets-execute (remove_flag project_id key)
                  (λ now t s r. remove-Sound project_id key now t s))
                (λ missing. Meets-if missing _ _ (Meets-raise _) (Meets-pure tt (λ t p r. tt))))))

  pub delete-Sound :
      (caller : AuthUser) (project_key flag_key : Text)
      → Meets Sound Whatever (delete caller project_key flag_key) Any
  unfolding delete
  delete-Sound caller project_key flag_key = guarded (require_admin caller) (λ u.
      in_project caller.organization_id project_key (λ project.
        Meets-bind {Q = Any} (Meets-stored (delete_flag-Sound project.id flag_key))
          (λ u. Meets-stored (record_entry-Sound _))))
