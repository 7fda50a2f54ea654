-- ===== src/Api/Flags/Upserts.antt =====
-- What the writes of a configuration do to the tables.
use mathlib.Core.List.{Memᴰ}
use flagforge.Prelude.{
  ℕ, ◌≡◌, sym, ap, ◌∙◌, true, Option, none, some, List, ◌∷◌, arith, if◌then◌else◌, is_none_or, ok,
  Bool-cases, Option-cases, Result-cases, inl, inr, subst, ◌⊎◌,
}
use flagforge.Prelude.Int.{ℤ}
use flagforge.Extern.{Extern}
use flagforge.Storage.Version.{i64_eq}
use flagforge.Storage.Tables.{Tables, FlagRow, ConfigRow}
use flagforge.Storage.Rows.{first_where-none, update_where, update_where-Memᴰ}
use flagforge.Storage.Exec.Keeps.{Settles, Settles-guard}
use flagforge.Storage.Flags.Configs.{
  is_config, touched_config, overwritten, insert_config, change_config, upsert_found, upsert,
}
use flagforge.Storage.Flags.Configs.Versions.{touched_config-ok, current}
use flagforge.Api.Flags.Sound.{Served, Sound}

module _ ⦃x : Extern⦄ where
  -- A row that may be stored: its flag is there, and it can be served.
  pub record Fit (t : Tables) (row : ConfigRow) : Type 0 where
    pub flag : FlagRow
    pub there : Memᴰ flag t.flags
    pub of_flag : row.flag_id ≡ flag.id
    pub serves : Served t.environments flag row

  is_config_iff :
      (a b : ℕ) (c : ConfigRow) → is_config a b c ≡ true → (c.flag_id ≡ a) × (c.environment_id ≡ b)
  unfolding is_config
  is_config_iff a b c h = ground arith

  is_config_self : (c : ConfigRow) → is_config c.flag_id c.environment_id c ≡ true
  unfolding is_config
  is_config_self c = ground arith

  -- Rows that replace others in a sound table, each fit or there before.
  replaced :
      (t : Tables) (cs : List ConfigRow)
      → Sound t
      → ((c d : ConfigRow)
          → Memᴰ c cs
          → Memᴰ d cs
          → c.flag_id ≡ d.flag_id
          → c.environment_id ≡ d.environment_id
          → c ≡ d)
      → ((c : ConfigRow) → Memᴰ c cs → Memᴰ c t.flag_configs ⊎ Fit t c)
      → Sound (record t { flag_configs = cs })
  replaced t cs s keys origin = record {
    flag_ids = s.flag_ids;
    flag_given = s.flag_given;
    config_keys = keys;
    config_given = λ c m. elim (origin c m) [
      | inl k ↦ s.config_given c k
      | inr fit ↦ rw (fit.of_flag) (s.flag_given fit.flag fit.there)
    ];
    served = λ f c mf mc e. elim (origin c mc) [
      | inl k ↦ s.served f c mf k e
      | inr fit ↦
          let same : fit.flag ≡ f = s.flag_ids fit.flag f fit.there mf (sym fit.of_flag ∙ e) in
          subst (λ g. Served t.environments g c) same fit.serves
    ];
  }

  clash :
      (t : Tables) (row c d : ConfigRow)
      → current row.flag_id row.environment_id t ≡ none
      → c ≡ row
      → Memᴰ d t.flag_configs
      → c.flag_id ≡ d.flag_id
      → c.environment_id ≡ d.environment_id
      → ⊥
  clash t row c d absent e m p q =
      let no' =
        first_where-none (is_config row.flag_id row.environment_id) t.flag_configs d absent m in
      let yes' : is_config row.flag_id row.environment_id d ≡ true =
        rw (← e, p, q) (is_config_self d) in
      cc (no', yes')

  -- A new configuration.
  insert-keys :
      (t : Tables) (row c d : ConfigRow)
      → Sound t
      → current row.flag_id row.environment_id t ≡ none
      → Memᴰ c (row ∷ t.flag_configs)
      → Memᴰ d (row ∷ t.flag_configs)
      → c.flag_id ≡ d.flag_id
      → c.environment_id ≡ d.environment_id
      → c ≡ d
  insert-keys t row c d s absent (Memᴰ.head e) (Memᴰ.head e') p q = e ∙ sym e'
  insert-keys t row c d s absent (Memᴰ.head e) (Memᴰ.tail m) p q =
      absurd (clash t row c d absent e m p q)
  insert-keys t row c d s absent (Memᴰ.tail m) (Memᴰ.head e) p q =
      absurd (clash t row d c absent e m (sym p) (sym q))
  insert-keys t row c d s absent (Memᴰ.tail m) (Memᴰ.tail m') p q = s.config_keys c d m m' p q

  -- What a change makes of a row.
  changes :
      (row c c' : ConfigRow)
      → (if is_config row.flag_id row.environment_id c
          then touched_config (overwritten row c)
          else ok c)
        ≡ ok c'
      → (c'.flag_id ≡ c.flag_id) × (c'.environment_id ≡ c.environment_id)
  changes row c c' h = elim (Bool-cases (is_config row.flag_id row.environment_id c)) [
    | inl yes' ↦
        let (v, next, is') = touched_config-ok (overwritten row c) c' (rw yes' at h) in
        (ap (λ r. r.flag_id) is', ap (λ r. r.environment_id) is')
    | inr no' ↦
        let same : c' ≡ c = ground (arith, rw no' at h) in
        (ap (λ r. r.flag_id) same, ap (λ r. r.environment_id) same)
  ]

  changed-Fit :
      (t : Tables) (row c c' : ConfigRow)
      → Fit t row
      → Memᴰ c t.flag_configs
      → (if is_config row.flag_id row.environment_id c
          then touched_config (overwritten row c)
          else ok c)
        ≡ ok c'
      → Memᴰ c' t.flag_configs ⊎ Fit t c'
  changed-Fit t row c c' fit m h = elim (Bool-cases (is_config row.flag_id row.environment_id c)) [
    | inl yes' ↦
        let (v, next, is') = touched_config-ok (overwritten row c) c' (rw yes' at h) in
        let (p, q) = is_config_iff row.flag_id row.environment_id c yes' in
        inr (record {
          flag = fit.flag;
          there = fit.there;
          of_flag = ap (λ r. r.flag_id) is' ∙ p ∙ fit.of_flag;
          serves = record {
            environment = fit.serves.environment;
            there = fit.serves.there;
            here = fit.serves.here ∙ sym q ∙ sym (ap (λ r. r.environment_id) is');
            project = fit.serves.project;
            variants = fit.serves.variants;
            fallthrough = fit.serves.fallthrough;
            rules = fit.serves.rules;
            reads = (
              fit.serves.reads.0,
              ap (λ r. r.fallthrough) is' ∙ fit.serves.reads.1,
              ap (λ r. r.rules) is' ∙ fit.serves.reads.2,
            );
            valid = rw (ap (λ r. r.off_variant) is') fit.serves.valid;
          };
        })
    | inr no' ↦ let same : c' ≡ c = ground (arith, rw no' at h) in inl (rw (same) m)
  ]

  -- A change of one row has one result.
  unique :
      (row c d c' d' : ConfigRow)
      → c ≡ d
      → (if is_config row.flag_id row.environment_id c
          then touched_config (overwritten row c)
          else ok c)
        ≡ ok c'
      → (if is_config row.flag_id row.environment_id d
          then touched_config (overwritten row d)
          else ok d)
        ≡ ok d'
      → c' ≡ d'
  unique row c d c' d' same hc hd = cc (same, hc, hd)

  insert-Sound :
      (row : ConfigRow) (now : ℕ) (t : Tables)
      → Sound t
      → Fit t row
      → current row.flag_id row.environment_id t ≡ none
      → Settles Sound (λ o t'. Unit) (insert_config row now t)
  unfolding insert_config
  insert-Sound row now t s fit absent =
      let kept =
        replaced t (row ∷ t.flag_configs) s (λ c d. insert-keys t row c d s absent)
          (λ c m. elim m [ Memᴰ.head e ↦ inr (subst (Fit t) (sym e) fit) | Memᴰ.tail k ↦ inl k ]) in
      Settles-guard Sound (λ o t'. Unit) _
        (ok (some row, record t { flag_configs = row ∷ t.flag_configs })) _ (kept, tt)

  change-Sound :
      (row : ConfigRow) (now : ℕ) (t : Tables)
      → Sound t
      → Fit t row
      → Settles Sound (λ o t'. Unit) (change_config row now t)
  unfolding change_config
  change-Sound row now t s fit =
      let upd =
        update_where (is_config row.flag_id row.environment_id)
          (λ c. touched_config (overwritten row c)) t.flag_configs in
      elim (Result-cases upd) [
        | inl (cs, done) ↦
            let from = λ (c' : ConfigRow) (m : Memᴰ c' cs).
              update_where-Memᴰ (is_config row.flag_id row.environment_id)
                (λ c. touched_config (overwritten row c)) t.flag_configs cs c' done m in
            let keys =
              λ (c' d' : ConfigRow) (m : Memᴰ c' cs) (m' : Memᴰ d' cs) (p : c'.flag_id ≡ d'.flag_id)
                  (q : c'.environment_id ≡ d'.environment_id).
                let (c, k, hc) = from c' m in
                let (d, l, hd) = from d' m' in
                let (cf, ce) = changes row c c' hc in
                let (df, de) = changes row d d' hd in
                let same : c ≡ d = s.config_keys c d k l (sym cf ∙ p ∙ df) (sym ce ∙ q ∙ de) in
                unique row c d c' d' same hc hd in
            let kept =
              replaced t cs s keys
                (λ c' m. let (c, k, h) = from c' m in changed-Fit t row c c' fit k h) in
            rw (done) (kept, tt)
        | inr (v, refused) ↦ rw (refused) tt
      ]

  -- A write of a configuration that may be stored.
  pub upsert-Sound :
      (row : ConfigRow) (expected : Option ℤ) (now : ℕ) (t : Tables)
      → Sound t
      → Fit t row
      → Settles Sound (λ o t'. Unit) (upsert row expected now t)
  unfolding upsert
  upsert-Sound row expected now t s fit =
      elim (Option-cases (current row.flag_id row.environment_id t)) [
        | inl absent ↦ rw (absent, upsert_found) (insert-Sound row now t s fit absent)
        | inr (c, there) ↦ elim (Bool-cases (is_none_or expected (i64_eq c.version))) [
          | inl yes' ↦ rw (there, upsert_found, yes') (change-Sound row now t s fit)
          | inr no' ↦ rw (there, upsert_found, no') (s, tt)
        ]
      ]
