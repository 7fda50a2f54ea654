-- ===== src/Api/Flags/Inserts.antt =====
-- What the creation of a flag does to the tables: its row, and a configuration in every environment of
-- its project.
use mathlib.Core.List.{Memᴰ}
use mathlib.Core.List.Memᴰ
use flagforge.Prelude.{
  ℕ, ◌+◌, ◌≡◌, ◌≢◌, refl, sym, ap, ◌∙◌, List, [], ◌∷◌, map, arith, ◌==◌, ==_iff, ok, Option-cases,
  inl, inr, subst, ◌⊎◌,
}
use flagforge.Text.{Text}
use flagforge.Extern.{Extern}
use flagforge.Core.Flag.{Variant, Distribution}
use flagforge.Core.Validate.{validate}
use flagforge.Storage.Tables.{Tables, json, EnvironmentRow, FlagRow, ConfigRow}
use flagforge.Storage.Rows.{rows_where, rows_where-Memᴰ}
use flagforge.Storage.Exec.Keeps.{Settles}
use flagforge.Storage.Flags.{flag_violation, insert_flag, seeded, seed_configs}
use flagforge.Api.Flags.{candidate}
use flagforge.Api.Flags.Sound.{Served, Sound}

module _ ⦃x : Extern⦄ where
  -- A flag that was just inserted, and has no configuration.
  pub record Fresh (key : Text) (variants : List Variant) (project_id : ℕ) (row : FlagRow)
      (t : Tables) : Type 0 where
    pub there : Memᴰ row t.flags
    pub is_key : row.key ≡ key
    pub is_variants : row.variants ≡ json variants
    pub is_project : row.project_id ≡ project_id
    pub bare : (c : ConfigRow) → Memᴰ c t.flag_configs → c.flag_id ≢ row.id

  new_ids :
      (t : Tables) (r f g : FlagRow)
      → Sound t
      → r.id ≡ t.next_id
      → Memᴰ f (r ∷ t.flags)
      → Memᴰ g (r ∷ t.flags)
      → f.id ≡ g.id
      → f ≡ g
  new_ids t r f g s n (Memᴰ.head e) (Memᴰ.head e') p = e ∙ sym e'
  new_ids t r f g s n (Memᴰ.head e) (Memᴰ.tail m) p =
      let given = s.flag_given g m in
      let same : f.id ≡ t.next_id = ap (λ h. h.id) e ∙ n in absurd (omega arith)
  new_ids t r f g s n (Memᴰ.tail m) (Memᴰ.head e) p =
      let given = s.flag_given f m in
      let same : g.id ≡ t.next_id = ap (λ h. h.id) e ∙ n in absurd (omega arith)
  new_ids t r f g s n (Memᴰ.tail m) (Memᴰ.tail m') p = s.flag_ids f g m m' p

  inserted-Sound :
      (t : Tables) (r : FlagRow)
      → Sound t
      → r.id ≡ t.next_id
      → Sound (record t { flags = r ∷ t.flags; next_id = t.next_id + 1 })
  inserted-Sound t r s n = record {
    flag_ids = λ f g. new_ids t r f g s n;
    flag_given = λ f m. elim m [
      | Memᴰ.head e ↦ let same : f.id ≡ t.next_id = ap (λ h. h.id) e ∙ n in omega (arith, same)
      | Memᴰ.tail k ↦ let given = s.flag_given f k in omega (arith, given)
    ];
    config_keys = s.config_keys;
    config_given = λ c m. let given = s.config_given c m in omega (arith, given);
    served = λ f c m mc e. elim m [
      | Memᴰ.head is' ↦
          let given = s.config_given c mc in
          let same : f.id ≡ t.next_id = ap (λ h. h.id) is' ∙ n in
          absurd (omega (arith, given, same, e))
      | Memᴰ.tail k ↦ s.served f c k mc e
    ];
  }

  pub insert-Sound :
      (f : FlagRow) (key : Text) (variants : List Variant) (project_id : ℕ) (now : ℕ) (t : Tables)
      → f.key ≡ key
      → f.variants ≡ json variants
      → f.project_id ≡ project_id
      → Sound t
      → Settles Sound (λ row t'. Fresh key variants project_id row t') (insert_flag f now t)
  unfolding insert_flag
  insert-Sound f key variants project_id now t k v p s = elim (Option-cases (flag_violation f t)) [
    | inl none' ↦
        rw (none', Settles)
          (
            inserted-Sound t (record f { id = t.next_id }) s refl,
            record {
              there = Memᴰ.head refl;
              is_key = k;
              is_variants = v;
              is_project = p;
              bare = λ c m e. let given = s.config_given c m in absurd (omega (arith, e));
            },
          )
    | inr (w, some') ↦ rw (some', Settles) tt
  ]

  -- The configurations of a new flag: one for each environment of its project.
  seeds :
      (row : FlagRow) (off_variant : Text) (fallthrough : Distribution) (es : List EnvironmentRow)
      (c : ConfigRow)
      → Memᴰ c (map (seeded row.id off_variant (json fallthrough)) es)
      → (e : EnvironmentRow) × Memᴰ e es × (c ≡ seeded row.id off_variant (json fallthrough) e)
  seeds row off_variant fallthrough [] c m = elim m [ ]
  seeds row off_variant fallthrough (e ∷ es) c (Memᴰ.head is') = (e, Memᴰ.head refl, is')
  seeds row off_variant fallthrough (e ∷ es) c (Memᴰ.tail m) =
      let (v, k, is') = seeds row off_variant fallthrough es c m in (v, Memᴰ.tail k, is')

  module _ (key : Text) (variants : List Variant) (project_id : ℕ) (off_variant : Text)
      (fallthrough : Distribution) (row : FlagRow) (t : Tables) (s : Sound t)
      (new : Fresh key variants project_id row t)
      (valid : validate (candidate key variants off_variant fallthrough []) ≡ ok tt) where
    abbrev added : List ConfigRow
    added =
        map (seeded row.id off_variant (json fallthrough))
          (rows_where (λ e. e.project_id == project_id) t.environments)

    added-row :
        (c : ConfigRow)
        → Memᴰ c added
        → (e : EnvironmentRow) × Memᴰ e t.environments
          × (e.project_id ≡ project_id)
          × (c ≡ seeded row.id off_variant (json fallthrough) e)
    added-row c m =
        let (e, k, is') = seeds row off_variant fallthrough _ c m in
        let (there, at) = rows_where-Memᴰ (λ e. e.project_id == project_id) t.environments e k in
        (e, there, (==_iff e.project_id project_id).0 at, is')

    seeded-keys :
        (c d : ConfigRow)
        → Memᴰ c added ⊎ Memᴰ c t.flag_configs
        → Memᴰ d added ⊎ Memᴰ d t.flag_configs
        → c.flag_id ≡ d.flag_id
        → c.environment_id ≡ d.environment_id
        → c ≡ d
    seeded-keys c d (inl m) (inl k) p q =
        let (e, _, _, is') = added-row c m in
        let (v, _, _, is'') = added-row d k in
        let same : e.id ≡ v.id =
          sym (ap (λ r. r.environment_id) is') ∙ q ∙ ap (λ r. r.environment_id) is'' in
        is' ∙ same_seed e v same ∙ sym is''
      where
        same_seed :
            (e v : EnvironmentRow)
            → e.id ≡ v.id
            → seeded row.id off_variant (json fallthrough) e
              ≡ seeded row.id off_variant (json fallthrough) v
        same_seed e v h = rw (h) refl
    seeded-keys c d (inl m) (inr k) p q =
        let (e, _, _, is') = added-row c m in
        absurd (new.bare d k (sym p ∙ ap (λ r. r.flag_id) is'))
    seeded-keys c d (inr m) (inl k) p q =
        let (e, _, _, is') = added-row d k in absurd (new.bare c m (p ∙ ap (λ r. r.flag_id) is'))
    seeded-keys c d (inr m) (inr k) p q = s.config_keys c d m k p q

    seeded-Served :
        (f : FlagRow) (c : ConfigRow)
        → Memᴰ f t.flags
        → Memᴰ c added ⊎ Memᴰ c t.flag_configs
        → c.flag_id ≡ f.id
        → Served t.environments f c
    seeded-Served f c mf (inr k) e = s.served f c mf k e
    seeded-Served f c mf (inl m) e =
        let (v, there, project, is') = added-row c m in
        let same : row ≡ f = s.flag_ids row f new.there mf (sym (ap (λ r. r.flag_id) is') ∙ e) in
        subst (λ g. Served t.environments g c) same
          (record {
            environment = v;
            there = there;
            here = sym (ap (λ r. r.environment_id) is');
            project = project ∙ sym new.is_project;
            variants = variants;
            fallthrough = fallthrough;
            rules = [];
            reads = (new.is_variants, ap (λ r. r.fallthrough) is', ap (λ r. r.rules) is');
            valid = rw (new.is_key, ap (λ r. r.off_variant) is') valid;
          })

    pub seed-Sound :
        (now : ℕ)
        → Settles Sound
            (λ o t'. Unit)
            (seed_configs row.id project_id off_variant fallthrough now t)
    unfolding seed_configs
    seed-Sound now = (
      record {
        flag_ids = s.flag_ids;
        flag_given = s.flag_given;
        config_keys =
            λ c d m k. seeded-keys c d (Memᴰ.append_cases added m) (Memᴰ.append_cases added k);
        config_given = λ c m. elim (Memᴰ.append_cases added m) [
          | inl k ↦
              let (e, _, _, is') = added-row c k in
              rw (ap (λ r. r.flag_id) is') (s.flag_given row new.there)
          | inr k ↦ s.config_given c k
        ];
        served = λ f c mf m e. seeded-Served f c mf (Memᴰ.append_cases added m) e;
      },
      tt,
    )
