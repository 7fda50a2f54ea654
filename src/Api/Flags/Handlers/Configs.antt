-- ===== src/Api/Flags/Handlers/Configs.antt =====
-- The handler that writes a configuration, over sound tables.
use mathlib.Core.List.{Memᴰ}
use flagforge.Prelude.{ℕ, ◌≡◌, refl, sym, ◌∙◌, Bool, Option, some, List, ◌++◌, Result, ok}
use flagforge.Prelude.Int.{ℤ}
use flagforge.Text.{Text, text}
use flagforge.Extern.{Extern}
use flagforge.Core.Flag.{Distribution, Rule}
use flagforge.Core.Validate.{validate, validate_references}
use flagforge.Storage.Error.{StorageError}
use flagforge.Storage.Tables.{Tables, EnvironmentRow}
use flagforge.Storage.Exec.{Exec, World}
use flagforge.Storage.Exec.Keeps.{
  Meets, Ends, returns, fails, Meets-pure, Meets-lift, Meets-bind, Meets-write, Meets-select,
  Meets-mono,
}
use flagforge.Storage.Flags.{Flag, build_config}
use flagforge.Storage.Flags.Configs.{upsert, applied, new_config, upsert_config, find_config}
use flagforge.Storage.Segments.{segment_keys}
use flagforge.Storage.Audit.{entry}
use flagforge.Api.Auth.{AuthUser, actor, require_write}
use flagforge.Api.Flags.{candidate, refused, attempt, attempt_of, UpdateConfig, update_config}
use flagforge.Api.Flags.Sound.{Sound}
use flagforge.Api.Flags.Upserts.{Fit, upsert-Sound}
use flagforge.Api.Flags.Reads.{
  Known, find_environment-Meets, find_flag-Meets, find_config-Meets, Meets-stored,
}
use flagforge.Api.Flags.Handlers.{
  Any, Whatever, refresh-Meets, evaluable-Meets, guarded, in_project, recorded,
}

module _ ⦃x : Extern⦄ where
  -- A configuration that the validator passed for the flag and the environment that were read.
  fit :
      (f : Flag) (v : EnvironmentRow) (project_id : ℕ) (enabled : Bool) (off : Text)
      (d : Distribution) (rs : List Rule) (t : Tables)
      → Known f project_id t
      → Memᴰ v t.environments × (v.project_id ≡ project_id)
      → validate (candidate f.key f.variants off d rs) ≡ ok tt
      → Fit t (new_config f.id v.id enabled off d rs)
  fit f v project_id enabled off d rs t known at valid = record {
    flag = known.row;
    there = known.there;
    of_flag = sym known.id;
    serves = record {
      environment = v;
      there = at.0;
      here = refl;
      project = at.1 ∙ sym known.project;
      variants = f.variants;
      fallthrough = d;
      rules = rs;
      reads = (known.variants, refl, refl);
      valid = rw (known.key) valid;
    };
  }

  upsert_config-Sound :
      (f : Flag) (v : EnvironmentRow) (project_id : ℕ) (enabled : Bool) (off : Text)
      (d : Distribution) (rs : List Rule) (expected : Option ℤ)
      → validate (candidate f.key f.variants off d rs) ≡ ok tt
      → Meets Sound
          (λ t. Known f project_id t × (Memᴰ v t.environments × (v.project_id ≡ project_id)))
          (upsert_config f.id v.id enabled off d rs expected)
          Any
  unfolding upsert_config
  upsert_config-Sound f v project_id enabled off d rs expected valid =
      let row = new_config f.id v.id enabled off d rs in
      Meets-bind {Q = Any}
        (Meets-write _ _ (upsert row expected) (λ now t s r.
          upsert-Sound row expected now t s (fit f v project_id enabled off d rs t r.0 r.1 valid)))
        (λ o.
          Meets-bind {Q = Any} (Meets-lift (applied expected o) (λ c t p r e. tt))
            (λ c. Meets-lift (build_config c) (λ b t p r e. tt)))

  Ends-attempt :
      {A : Type 0} {R : Tables → Type 0} (o : Result A StorageError × World)
      → Ends (λ t. Sound t × R t) Any o
      → Ends Sound (λ (a : Option A) t. R t) (attempt_of o)
  Ends-attempt o (returns p q) = returns p.0 p.1
  Ends-attempt o (fails p) = returns p.0 p.1

  -- A read whose failure is dropped leaves what was known of the tables.
  attempt-Meets :
      {A : Type 0} {R : Tables → Type 0} (m : Exec StorageError A)
      → Meets (λ t. Sound t × R t) Whatever m Any
      → Meets Sound R (attempt m) (λ o t. R t)
  unfolding attempt
  attempt-Meets m h = record { at = λ w p r. Ends-attempt (m w) (h.at w (p, r) tt) }

  pub update_config-Sound :
      (caller : AuthUser) (project_key environment_key flag_key : Text) (body : UpdateConfig)
      → Meets Sound Whatever (update_config caller project_key environment_key flag_key body) Any
  unfolding update_config segment_keys
  update_config-Sound caller project_key environment_key flag_key body =
      guarded (require_write caller) (λ u. in_project caller.organization_id project_key (λ project.
        Meets-bind (Meets-stored (find_environment-Meets project.id environment_key)) (λ v.
          Meets-bind (Meets-stored (find_flag-Meets project.id flag_key)) (λ f.
            evaluable-Meets f.key f.variants body.off_variant body.fallthrough body.rules
              (λ valid wanted.
                Meets-bind (Meets-stored (Meets-mono (λ t r. r) (λ a t q. q.1) (Meets-select _)))
                  (λ known. guarded (refused (validate_references wanted known)) (λ u.
                    Meets-bind
                      (attempt-Meets (find_config f.id v.id)
                        (Meets-mono (λ t r. r) (λ a t q. tt) (find_config-Meets f.id v.id)))
                      (λ previous.
                        Meets-bind {Q = Any}
                          (Meets-stored (
                            Meets-mono (λ t r. (r.0, r.1.0)) (λ a t q. q)
                              (upsert_config-Sound f v project.id body.enabled body.off_variant
                                body.fallthrough body.rules body.expected_version valid)))
                          (λ config. Meets-bind {Q = Any} (refresh-Meets v.id) (λ u.
                            recorded
                              (entry caller.organization_id (actor caller) (text "flag.configured")
                                (text "flag")
                                (project_key ++ text "/" ++ environment_key ++ text "/" ++ flag_key)
                                (some v.id))
                              (λ u. Meets-pure config (λ t p r. tt))))))))))))
