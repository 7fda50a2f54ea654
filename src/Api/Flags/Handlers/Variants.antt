-- ===== src/Api/Flags/Handlers/Variants.antt =====
-- The handler that changes a flag, over sound tables: new variants are checked in every environment of
-- the project.
use mathlib.Core.List.{Memᴰ}
use flagforge.Prelude.{
  ℕ, ◌≡◌, refl, sym, ap, ◌∙◌, Bool, Option, none, some, List, [], ◌∷◌, ◌++◌, Result, ok, err, subst,
}
use flagforge.Text.{Text, text}
use flagforge.Extern.{Extern}
use flagforge.Core.Flag.{Variant, Distribution, Rule}
use flagforge.Core.Validate.{validate}
use flagforge.Storage.Tables.{Tables, EnvironmentRow}
use flagforge.Storage.Exec.Keeps.{
  Meets, Meets-pure, Meets-lift, Meets-bind, Meets-write, Meets-found, Meets-mono,
}
use flagforge.Storage.Flags.{Flag, FlagConfig, update_flag, patch_flag, flag_patch, flag_of}
use flagforge.Storage.Audit.{entry}
use flagforge.Api.Error.{ApiError}
use flagforge.Api.Auth.{AuthUser, actor, require_write}
use flagforge.Api.Flags.{
  candidate, validate_evaluable, annotated, UpdateFlag, trimmed, revalidate, check_variants, update,
}
use flagforge.Api.Flags.Sound.{Sound}
use flagforge.Api.Flags.Writes.{Patches, patch-Sound}
use flagforge.Api.Flags.Reads.{
  Known, Configured, find_flag-Meets, find_config-Meets, list_environments-Meets, Meets-stored,
}
use flagforge.Api.Flags.Handlers.{
  Any, Whatever, guard-Meets, validate_evaluable-ok, guarded, in_project, recorded,
}

module _ ⦃x : Extern⦄ where
  -- The new variants have passed in an environment.
  abbrev Passed : Flag → List Variant → EnvironmentRow → Tables → Type 0
  Passed f vs v t =
      (c : FlagConfig) × Configured c f.id v.id t
      × (validate (candidate f.key vs c.off_variant c.fallthrough c.rules) ≡ ok tt)

  annotated-ok :
      {A : Type 0} (key : Text) (v : Result A ApiError) (a : A) → annotated key v ≡ ok a → v ≡ ok a
  annotated-ok key (ok b) a h = h
  annotated-ok key (err e) a h = cc

  revalidate-Meets :
      (f : Flag) (vs : List Variant) (es : List EnvironmentRow) {R : Tables → Type 0}
      → Meets Sound R
          (revalidate f vs es)
          (λ u t. ((v : EnvironmentRow) → Memᴰ v es → Passed f vs v t) × R t)
  unfolding revalidate
  revalidate-Meets f vs [] = Meets-pure tt (λ t p r. (λ v m. elim m [ ], r))
  revalidate-Meets f vs (e ∷ es) = Meets-bind (Meets-stored (find_config-Meets f.id e.id)) (λ c.
      Meets-bind
        (guard-Meets
          (annotated e.key (validate_evaluable f.key vs c.off_variant c.fallthrough c.rules)))
        (λ flag.
          Meets-mono (λ t r. r)
            (λ u t q.
              let passed = annotated-ok e.key _ flag q.1.0 in
              let here : Passed f vs e t = (
                c,
                q.1.1.0,
                validate_evaluable-ok f.key vs c.off_variant c.fallthrough c.rules flag passed,
              ) in
              (
                λ v m. elim m [
                  | Memᴰ.head is' ↦ subst (λ v. Passed f vs v t) (sym is') here
                  | Memᴰ.tail k ↦ q.0 v k
                ],
                q.1.1.1,
              ))
            (revalidate-Meets f vs es)))

  -- The environments of a flag's project, where its new variants have passed.
  abbrev Ready : Flag → ℕ → Option (List Variant) → Tables → Type 0
  Ready f project_id none t = Unit
  Ready f project_id (some vs) t =
      (v : EnvironmentRow) → Memᴰ v t.environments → v.project_id ≡ project_id → Passed f vs v t

  check_variants-Meets :
      {R : Tables → Type 0} (f : Flag) (project_id : ℕ) (vs : Option (List Variant))
      → Meets Sound R (check_variants f project_id vs) (λ u t. Ready f project_id vs t × R t)
  unfolding check_variants
  check_variants-Meets f project_id none = Meets-pure tt (λ t p r. (tt, r))
  check_variants-Meets f project_id (some vs) =
      Meets-bind (Meets-stored (list_environments-Meets project_id)) (λ es.
        Meets-mono (λ t r. r) (λ u t q. (λ v m e. q.0 v (q.1.0 v m e), q.1.1))
          (revalidate-Meets f vs es))

  same_candidate :
      (k k' off off' : Text) (vs : List Variant) (d : Distribution) (rs : List Rule)
      → k ≡ k'
      → off ≡ off'
      → validate (candidate k' vs off' d rs) ≡ ok tt
      → validate (candidate k vs off d rs) ≡ ok tt
  same_candidate k k' off off' vs d rs p q valid = rw (p, q) valid

  -- A patch of a flag that was read, whose new variants are ready.
  patches :
      (f : Flag) (project_id : ℕ) (name : Option Text) (description : Option (Option Text))
      (vs : Option (List Variant)) (archived : Option Bool) (t : Tables)
      → Sound t
      → Known f project_id t
      → Ready f project_id vs t
      → Patches t f.id (flag_patch name description vs archived)
  unfolding flag_patch
  patches f project_id name description none archived t s known ready = record {
    keeps_id = λ g. refl;
    keeps_served = λ g c m k i e.
        let before = s.served g c m k e in
        record {
          environment = before.environment;
          there = before.there;
          here = before.here;
          project = before.project;
          variants = before.variants;
          fallthrough = before.fallthrough;
          rules = before.rules;
          reads = before.reads;
          valid = before.valid;
        };
  }
  patches f project_id name description (some vs) archived t s known ready = record {
    keeps_id = λ g. refl;
    keeps_served = λ g c m k i e.
        let before = s.served g c m k e in
        let same : g ≡ known.row = s.flag_ids g known.row m known.there (i ∙ sym known.id) in
        let in_project : before.environment.project_id ≡ project_id =
          before.project ∙ ap (λ r. r.project_id) same ∙ known.project in
        let (read, at, valid) = ready before.environment before.there in_project in
        let row : c ≡ at.row =
          s.config_keys c at.row k at.there (e ∙ i ∙ sym at.of_flag)
            (sym before.here ∙ sym at.of_environment) in
        record {
          environment = before.environment;
          there = before.there;
          here = before.here;
          project = before.project;
          variants = vs;
          fallthrough = read.fallthrough;
          rules = read.rules;
          reads = (
            refl,
            ap (λ r. r.fallthrough) row ∙ at.fallthrough,
            ap (λ r. r.rules) row ∙ at.rules,
          );
          valid =
              same_candidate g.key f.key c.off_variant read.off_variant vs read.fallthrough
                read.rules (ap (λ r. r.key) same ∙ known.key)
                (ap (λ r. r.off_variant) row ∙ at.off_variant) valid;
        };
  }

  update_flag-Sound :
      (f : Flag) (project_id : ℕ) (name : Option Text) (description : Option (Option Text))
      (vs : Option (List Variant)) (archived : Option Bool)
      → Meets Sound
          (λ t. Ready f project_id vs t × Known f project_id t)
          (update_flag f.id name description vs archived)
          Any
  unfolding update_flag
  update_flag-Sound f project_id name description vs archived =
      let g = flag_patch name description vs archived in
      Meets-bind {Q = Any}
        (Meets-write _ _ (patch_flag f.id g) (λ now t s r.
          patch-Sound f.id g now t s
            (patches f project_id name description vs archived t s r.1 r.0)))
        (λ row.
          Meets-bind {Q = Any} (Meets-mono (λ t r. r) (λ a t q. tt) (Meets-found (text "flag") row))
            (λ found'. Meets-lift (flag_of found') (λ b t p r e. tt)))

  pub update-Sound :
      (caller : AuthUser) (project_key flag_key : Text) (body : UpdateFlag)
      → Meets Sound Whatever (update caller project_key flag_key body) Any
  unfolding update
  update-Sound caller project_key flag_key body = guarded (require_write caller) (λ u.
      in_project caller.organization_id project_key (λ project.
        Meets-bind (Meets-stored (find_flag-Meets project.id flag_key)) (λ existing.
          Meets-bind (check_variants-Meets existing project.id body.variants) (λ u.
            Meets-bind {Q = Any}
              (Meets-stored (
                Meets-mono (λ t r. (r.0, r.1.0)) (λ a t q. q)
                  (update_flag-Sound existing project.id (trimmed body.name) body.description
                    body.variants body.archived)))
              (λ updated.
                recorded
                  (entry caller.organization_id (actor caller) (text "flag.updated") (text "flag")
                    (project_key ++ text "/" ++ flag_key) none)
                  (λ u. Meets-pure updated (λ t p r. tt)))))))
