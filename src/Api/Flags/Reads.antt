-- ===== src/Api/Flags/Reads.antt =====
-- What a handler knows of the tables from its reads.
use mathlib.Core.List.{Memᴰ}
use flagforge.Prelude.{
  ℕ, ◌≡◌, refl, sym, ◌∙◌, ◌&&◌, arith, ◌==◌, ==_iff, ok, Result-cases, inl, inr,
}
use flagforge.Text.{Text, text, text_eq}
use flagforge.Extern.{Extern}
use flagforge.Storage.Error.{StorageError}
use flagforge.Storage.Tables.{
  Tables, Stored, json, broken, decode, EnvironmentRow, FlagRow, ConfigRow,
}
use flagforge.Storage.Rows.{
  first_where, first_where-some, rows_where, rows_where-complete, order_by, order_by-Memᴰ,
}
use flagforge.Storage.Exec.{Exec}
use flagforge.Storage.Exec.Keeps.{
  Meets, Meets-bind, Meets-select, Meets-found, Meets-lookup, Meets-mono, Meets-map_err,
}
use flagforge.Storage.Projects.{find_project, find_environment, list_environments, listed_before}
use flagforge.Storage.Flags.{Flag, FlagConfig, flag_of, build_config, is_flag, find_flag}
use flagforge.Storage.Flags.Configs.{is_config, find_config}
use flagforge.Api.Error.{from_storage}
use flagforge.Api.Flags.{stored}

module _ ⦃x : Extern⦄ where
  decode-ok :
      {A : Type 0} (entity : Text) (c : Stored A) (a : A) → decode entity c ≡ ok a → c ≡ json a
  unfolding decode
  decode-ok entity (json b) a h = let same : b ≡ a = cc in rw (same) refl
  decode-ok entity (broken mentions) a h = cc

  -- A flag as it was read, and its row.
  pub record Known (f : Flag) (project_id : ℕ) (t : Tables) : Type 0 where
    pub row : FlagRow
    pub there : Memᴰ row t.flags
    pub id : row.id ≡ f.id
    pub key : row.key ≡ f.key
    pub project : row.project_id ≡ project_id
    pub variants : row.variants ≡ json f.variants

  -- A configuration as it was read, and its row.
  pub record Configured (c : FlagConfig) (flag_id environment_id : ℕ) (t : Tables) : Type 0 where
    pub row : ConfigRow
    pub there : Memᴰ row t.flag_configs
    pub of_flag : row.flag_id ≡ flag_id
    pub of_environment : row.environment_id ≡ environment_id
    pub off_variant : row.off_variant ≡ c.off_variant
    pub fallthrough : row.fallthrough ≡ json c.fallthrough
    pub rules : row.rules ≡ json c.rules

  flag_of-ok :
      (row : FlagRow) (f : Flag)
      → flag_of row ≡ ok f
      → (row.id ≡ f.id) × (row.key ≡ f.key) × (row.variants ≡ json f.variants)
  unfolding flag_of
  flag_of-ok row f h = elim (Result-cases (decode (text "flag") row.variants)) [
    | inl (vs, e) ↦ let read = decode-ok (text "flag") row.variants vs e in ground (arith, e, read)
    | inr (s, e) ↦ absurd (ground (arith, e))
  ]

  build_config-ok :
      (row : ConfigRow) (c : FlagConfig)
      → build_config row ≡ ok c
      → (row.off_variant ≡ c.off_variant)
        × (row.fallthrough ≡ json c.fallthrough)
        × (row.rules ≡ json c.rules)
  unfolding build_config
  build_config-ok row c h =
      elim (Result-cases (decode (text "flag configuration") row.fallthrough)) [
        | inl (d, e) ↦ elim (Result-cases (decode (text "flag configuration") row.rules)) [
          | inl (rs, e') ↦
              let read = decode-ok (text "flag configuration") row.fallthrough d e in
              let read' = decode-ok (text "flag configuration") row.rules rs e' in
              ground (arith, e, e', read, read')
          | inr (s, e') ↦ absurd (ground (arith, e, e'))
        ]
        | inr (s, e) ↦ absurd (ground (arith, e))
      ]

  module _ {P R : Tables → Type 0} where
    pub find_project-Meets :
        (organization_id : ℕ) (key : Text)
        → Meets P R (find_project organization_id key) (λ p t. R t)
    unfolding find_project
    find_project-Meets organization_id key =
        Meets-bind
          (Meets-select (λ t.
            first_where (λ p. p.organization_id == organization_id && text_eq p.key key)
              t.projects))
          (λ row. Meets-mono (λ t r. r.1) (λ p t r. r.1) (Meets-found (text "project") row))

    pub find_environment-Meets :
        (project_id : ℕ) (key : Text)
        → Meets P R
            (find_environment project_id key)
            (λ v t. (Memᴰ v t.environments × (v.project_id ≡ project_id)) × R t)
    unfolding find_environment
    find_environment-Meets project_id key =
        Meets-bind
          (Meets-select (λ t.
            first_where (λ e. e.project_id == project_id && text_eq e.key key) t.environments))
          (λ row.
            Meets-mono (λ t r. r)
              (λ v t r.
                let (m, p) =
                  first_where-some (λ e. e.project_id == project_id && text_eq e.key key)
                    t.environments v (sym r.1.0 ∙ r.0) in
                ((m, ground (arith, p)), r.1.1))
              (Meets-found (text "environment") row))

    pub find_flag-Meets :
        (project_id : ℕ) (key : Text)
        → Meets P R (find_flag project_id key) (λ f t. Known f project_id t × R t)
    unfolding find_flag is_flag
    find_flag-Meets project_id key =
        Meets-mono (λ t r. r)
          (λ f t r.
            let (row, at, read) = r.0 in
            let (m, p) = first_where-some (is_flag project_id key) t.flags row at in
            let (i, k, v) = flag_of-ok row f read in
            (
              record {
                row = row;
                there = m;
                id = i;
                key = k;
                project = ground (arith, p);
                variants = v;
              },
              r.1,
            ))
          (Meets-lookup (λ t. first_where (is_flag project_id key) t.flags) (text "flag") flag_of)

    pub find_config-Meets :
        (flag_id environment_id : ℕ)
        → Meets P R
            (find_config flag_id environment_id)
            (λ c t. Configured c flag_id environment_id t × R t)
    unfolding find_config is_config
    find_config-Meets flag_id environment_id =
        Meets-mono (λ t r. r)
          (λ c t r.
            let (row, at, read) = r.0 in
            let (m, p) =
              first_where-some (is_config flag_id environment_id) t.flag_configs row at in
            let (o, d, rs) = build_config-ok row c read in
            (
              record {
                row = row;
                there = m;
                of_flag = ground (arith, p);
                of_environment = ground (arith, p);
                off_variant = o;
                fallthrough = d;
                rules = rs;
              },
              r.1,
            ))
          (Meets-lookup (λ t. first_where (is_config flag_id environment_id) t.flag_configs)
            (text "flag configuration") build_config)

    pub list_environments-Meets :
        (project_id : ℕ)
        → Meets P R (list_environments project_id) (λ es t.
          ((v : EnvironmentRow) → Memᴰ v t.environments → v.project_id ≡ project_id → Memᴰ v es)
          × R t)
    unfolding list_environments
    list_environments-Meets project_id =
        Meets-mono (λ t r. r)
          (λ es t r. (
            λ v m p. rw (r.0) (
                order_by-Memᴰ (listed_before t.collates) v _ (
                  rows_where-complete (λ e. e.project_id == project_id) t.environments v m
                    ((==_iff v.project_id project_id).1 p))),
            r.1,
          ))
          (Meets-select (λ t.
            order_by (listed_before t.collates)
              (rows_where (λ e. e.project_id == project_id) t.environments)))

  -- The same reads and writes in a handler.
  pub Meets-stored :
      {A : Type 0} {P R : Tables → Type 0} {Q : A → Tables → Type 0} {m : Exec StorageError A}
      → Meets P R m Q
      → Meets P R (stored m) Q
  unfolding stored
  Meets-stored h = Meets-map_err from_storage h
