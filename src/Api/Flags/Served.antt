-- ===== src/Api/Flags/Served.antt =====
-- From the requests on flags to the evaluation of flags: the snapshot that is loaded from the tables.
use mathlib.Core.List.{Memᴰ}
use flagforge.Prelude.{
  ℕ, ◌≡◌, refl, true, not, List, [], ◌∷◌, arith, ok, All, All-mono, Option-cases, inl, inr,
}
use flagforge.Extern.{Extern}
use flagforge.Core.Flag.{Variant, Distribution, Rule}
use flagforge.Core.Flag as Core
use flagforge.Core.Context.{EvaluationContext}
use flagforge.Core.Engine.{is_healthy, evaluate}
use flagforge.Core.Matcher.{EvaluationEnv}
use flagforge.Core.Validate.{validate, flag_issues}
use flagforge.Core.Validate.Healthy.{Ready, evaluate-healthy}
use flagforge.Storage.Tables.{decode, EnvironmentRow, FlagRow, ConfigRow}
use flagforge.Storage.Rows.{
  first_where, first_where-some, rows_where, rows_where-Memᴰ, order_by-from,
}
use flagforge.Storage.Exec.{World}
use flagforge.Storage.Flags.Configs.{is_config, configured, environment_rows}
use flagforge.Storage.Snapshot.{evaluation_flag, evaluation_flags}
use flagforge.Api.Auth.{AuthUser}
use flagforge.Api.Flags.{candidate}
use flagforge.Api.Flags.Sound.{Served, Sound}
use flagforge.Api.Flags.Service.{Request, serve_all, serve_all-Sound}

module _ ⦃x : Extern⦄ where
  -- Every row is read as a flag that the validator accepts.
  abbrev Reads : FlagRow × ConfigRow → Type 0
  Reads row = (f : Core.Flag) × (evaluation_flag row ≡ ok f) × (validate f ≡ ok tt)

  -- The validator does not look at the switch or the version of a flag.
  validate-candidate :
      (f : Core.Flag)
      → validate (candidate f.key f.variants f.off_variant f.fallthrough f.rules) ≡ ok tt
      → validate f ≡ ok tt
  unfolding validate flag_issues candidate
  validate-candidate f h = h

  reads :
      (environments : List EnvironmentRow) (f : FlagRow) (c : ConfigRow)
      → Served environments f c
      → Reads (f, c)
  unfolding evaluation_flag decode
  reads environments f c s =
      let flag : Core.Flag = record {
        key = f.key;
        variants = s.variants;
        enabled = c.enabled;
        off_variant = c.off_variant;
        fallthrough = s.fallthrough;
        rules = s.rules;
        version = c.version;
      } in
      (flag, rw (s.reads.0, s.reads.1, s.reads.2) refl, validate-candidate flag s.valid)

  of_flag :
      (f : FlagRow) (environment_id : ℕ) (c : ConfigRow)
      → is_config f.id environment_id c ≡ true
      → c.flag_id ≡ f.id
  unfolding is_config
  of_flag f environment_id c h = ground arith

  configured-Memᴰ :
      (environment_id : ℕ) (cs : List ConfigRow) (fs : List FlagRow) (row : FlagRow × ConfigRow)
      → Memᴰ row (configured environment_id cs fs)
      → Memᴰ row.0 fs × Memᴰ row.1 cs × (row.1.flag_id ≡ row.0.id)
  unfolding configured
  configured-Memᴰ environment_id cs [] row m = elim m [ ]
  configured-Memᴰ environment_id cs (f ∷ fs) row m =
      elim (Option-cases (first_where (is_config f.id environment_id) cs)) [
        | inl none' ↦
            let (k, l, e) =
              configured-Memᴰ environment_id cs fs row (rw (none', configured) at m) in
            (Memᴰ.tail k, l, e)
        | inr (c, some') ↦ elim (rw (some', configured) at m) [
          | Memᴰ.head is' ↦
              let (k, at) = first_where-some (is_config f.id environment_id) cs c some' in
              rw (is') (Memᴰ.head refl, k, of_flag f environment_id c at)
          | Memᴰ.tail n ↦
              let (k, l, e) = configured-Memᴰ environment_id cs fs row n in (Memᴰ.tail k, l, e)
        ]
      ]

  -- Rows that are read one by one are read together.
  all_read :
      (rows : List (FlagRow × ConfigRow))
      → ((row : FlagRow × ConfigRow) → Memᴰ row rows → Reads row)
      → (fs : List Core.Flag) × (evaluation_flags rows ≡ ok fs) × All (λ f. validate f ≡ ok tt) fs
  unfolding evaluation_flags
  all_read [] h = ([], refl, tt)
  all_read (row ∷ rows) h =
      let (f, read, valid) = h row (Memᴰ.head refl) in
      let (fs, reads', valids) = all_read rows (λ r m. h r (Memᴰ.tail m)) in
      (f ∷ fs, rw (read, reads') refl, (valid, valids))

  -- Whatever requests on flags are served one after another from sound tables, the flags of each
  -- environment can then be read from the tables, and none of them is ever served an error, to a
  -- context that has the attributes that its rollouts bucket on and with weights that are `u32`s,
  -- fewer than 2^32 in a rollout.
  pub serve_all-Healthy :
      (requests : List (AuthUser × Request)) (w : World) (environment_id : ℕ)
      → Sound w.tables
      → (fs : List Core.Flag) × (evaluation_flags
            (environment_rows environment_id (serve_all requests w).tables)
          ≡ ok fs)
        × All
            (λ f.
              (ctx : EvaluationContext) (env : EvaluationEnv)
              → Ready ctx f.fallthrough
              → All (λ r. Ready ctx r.distribution) f.rules
              → is_healthy (evaluate f ctx env).reason ≡ true)
            fs
  unfolding environment_rows
  serve_all-Healthy requests w environment_id sound =
      let t = (serve_all requests w).tables in
      let s = serve_all-Sound requests w sound in
      let (fs, read, valid) = all_read (environment_rows environment_id t) (λ row m.
        let (k, l, e) =
          configured-Memᴰ environment_id t.flag_configs (rows_where (λ f. not f.archived) t.flags)
            row (order_by-from _ row _ m) in
        let (there, active) = rows_where-Memᴰ (λ f. not f.archived) t.flags row.0 k in
        reads t.environments row.0 row.1 (s.served row.0 row.1 there l e)) in
      (
        fs,
        read,
        All-mono (λ f v ctx env ready readies. evaluate-healthy f ctx env v ready readies) fs valid,
      )
