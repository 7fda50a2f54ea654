-- ===== src/Storage/Flags/Configs/Versions.antt =====
-- What the writes of configurations do to their versions, over any sequence of writes by any callers.
use flagforge.Prelude.{
  ℕ, ◌≡◌, refl, true, Option, none, some, List, [], ◌∷◌, arith, if◌then◌else◌, is_none_or, Result,
  ok, err, Bool-cases, Option-cases, Result-cases, inl, inr,
}
use flagforge.Prelude.Int.{ℤ, le, le_refl, le_trans}
use flagforge.Extern.{Extern}
use flagforge.Storage.Error.{SqlError}
use flagforge.Storage.Version.{
  i64_eq, i64_eq_iff, next_version, next_version-Above, Above, Above→le, Above-ne, Above-le,
}
use flagforge.Storage.Tables.{Tables, ConfigRow}
use flagforge.Storage.Rows.{first_where, update_where, first_where-some, first_where-update_where}
use flagforge.Storage.Flags.Configs.{
  is_config, touched_config, overwritten, insert_config, change_config, upsert_found, upsert,
}

module _ ⦃x : Extern⦄ where
  -- The row of a flag in an environment, in the tables.
  abbrev pub current : ℕ → ℕ → Tables → Option ConfigRow
  current flag_id environment_id t = first_where (is_config flag_id environment_id) t.flag_configs

  -- The row is there, at a version that `v` allows.
  pub record At (v : ℤ → Type 0) (flag_id environment_id : ℕ) (t : Tables) : Type 0 where
    pub row : ConfigRow
    pub there : current flag_id environment_id t ≡ some row
    pub version : v row.version

  pub touched_config-ok :
      (c c' : ConfigRow)
      → touched_config c ≡ ok c'
      → (v : ℤ) × (next_version c.version ≡ some v) × (c' ≡ record c { version = v })
  unfolding touched_config
  touched_config-ok c c' h = elim (Option-cases (next_version c.version)) [
    | inl none' ↦ absurd (ground (arith, none'))
    | inr (v, some') ↦ (v, some', ground (arith, some'))
  ]

  -- A change leaves the primary key of each row alone.
  change-is_config :
      (row : ConfigRow) (a b : ℕ) (c c' : ConfigRow)
      → (if is_config row.flag_id row.environment_id c
          then touched_config (overwritten row c)
          else ok c)
        ≡ ok c'
      → is_config a b c' ≡ is_config a b c
  unfolding is_config
  change-is_config row a b c c' h = elim (Bool-cases (is_config row.flag_id row.environment_id c)) [
    | inl yes' ↦
        let (v, next, is') = touched_config-ok (overwritten row c) c' (rw yes' at h) in
        rw (is') refl
    | inr no' ↦ let same : c' ≡ c = ground (arith, rw no' at h) in rw (same) refl
  ]

  pub change_config-ok :
      (row : ConfigRow) (now : ℕ) (t t' : Tables) (o : Option ConfigRow)
      → change_config row now t ≡ ok (o, t')
      → (update_where
            (is_config row.flag_id row.environment_id)
            (λ c. touched_config (overwritten row c))
            t.flag_configs
          ≡ ok t'.flag_configs)
        × (o ≡ current row.flag_id row.environment_id t')
  unfolding change_config
  change_config-ok row now t t' o h =
      elim (Result-cases (
        update_where (is_config row.flag_id row.environment_id)
          (λ c. touched_config (overwritten row c)) t.flag_configs)) [
            | inl (cs, e) ↦ ground (arith, e)
            | inr (s, e) ↦ absurd (ground (arith, e))
          ]

  changed-version :
      (row c c' : ConfigRow)
      → (if is_config row.flag_id row.environment_id c
          then touched_config (overwritten row c)
          else ok c)
        ≡ ok c'
      → le c.version c'.version ≡ true
  changed-version row c c' h = elim (Bool-cases (is_config row.flag_id row.environment_id c)) [
    | inl yes' ↦
        let (v, next, is') = touched_config-ok (overwritten row c) c' (rw yes' at h) in
        rw (is') (Above→le c.version v (next_version-Above c.version v next))
    | inr no' ↦ let same : c' ≡ c = ground (arith, rw no' at h) in rw (same) (le_refl c.version)
  ]

  -- The row of a key after a change is the row before, changed.
  change-current :
      (row : ConfigRow) (now : ℕ) (t t' : Tables) (o : Option ConfigRow) (a b : ℕ) (c : ConfigRow)
      → change_config row now t ≡ ok (o, t')
      → current a b t ≡ some c
      → (c' : ConfigRow) × (current a b t' ≡ some c')
        × ((if is_config row.flag_id row.environment_id c
              then touched_config (overwritten row c)
              else ok c)
            ≡ ok c')
  change-current row now t t' o a b c h there =
      first_where-update_where (is_config row.flag_id row.environment_id) (is_config a b)
        (λ c. touched_config (overwritten row c)) t.flag_configs t'.flag_configs c
        (change-is_config row a b) (change_config-ok row now t t' o h).0 there

  change-At :
      (row : ConfigRow) (now : ℕ) (t t' : Tables) (o : Option ConfigRow) (a b : ℕ) (v : ℤ)
      → change_config row now t ≡ ok (o, t')
      → At (λ w. le v w ≡ true) a b t
      → At (λ w. le v w ≡ true) a b t'
  change-At row now t t' o a b v h i =
      let (c', there, came) = change-current row now t t' o a b i.row h i.there in
      record {
        row = c';
        there = there;
        version = le_trans v i.row.version c'.version i.version (changed-version row i.row c' came);
      }

  -- A new row stands beside those that are there.
  insert-At :
      (row : ConfigRow) (now : ℕ) (t t' : Tables) (o : Option ConfigRow) (a b : ℕ) (v : ℤ)
      → current row.flag_id row.environment_id t ≡ none
      → insert_config row now t ≡ ok (o, t')
      → At (λ w. le v w ≡ true) a b t
      → At (λ w. le v w ≡ true) a b t'
  unfolding insert_config first_where is_config
  insert-At row now t t' o a b v absent h i =
      let added : t'.flag_configs ≡ row ∷ t.flag_configs = ground arith in
      elim (Bool-cases (is_config a b row)) [
        | inl yes' ↦
            let flag : row.flag_id ≡ a = ground (arith, yes') in
            let environment : row.environment_id ≡ b = ground (arith, yes') in
            let gone : current a b t ≡ none = rw (← flag, ← environment) absent in
            absurd (cc (gone, i.there))
        | inr no' ↦ record { row = i.row; there = rw (added, no') (i.there); version = i.version }
      ]

  upsert-At :
      (row : ConfigRow) (expected : Option ℤ) (now : ℕ) (t t' : Tables) (o : Option ConfigRow)
      (a b : ℕ) (v : ℤ)
      → upsert row expected now t ≡ ok (o, t')
      → At (λ w. le v w ≡ true) a b t
      → At (λ w. le v w ≡ true) a b t'
  unfolding upsert
  upsert-At row expected now t t' o a b v h i =
      elim (Option-cases (current row.flag_id row.environment_id t)) [
        | inl absent ↦ insert-At row now t t' o a b v absent (rw (absent, upsert_found) at h) i
        | inr (c, there) ↦ elim (Bool-cases (is_none_or expected (i64_eq c.version))) [
          | inl yes' ↦ change-At row now t t' o a b v (rw (there, upsert_found, yes') at h) i
          | inr no' ↦
              let same : t' ≡ t = ground (arith, rw (there, upsert_found, no') at h) in rw (same) i
        ]
      ]

  abbrev tables_after : Tables → Result (Option ConfigRow × Tables) SqlError → Tables
  tables_after t (ok (o, t')) = t'
  tables_after t (err s) = t

  -- A sequence of writes, each at its time and with the version that its caller expects.
  unfoldable pub upsert_all : List (ℕ × ConfigRow × Option ℤ) → Tables → Tables
  unfolding upsert
  upsert_all [] t = t
  upsert_all ((now, row, expected) ∷ ws) t =
      upsert_all ws (tables_after t (upsert row expected now t))

  upsert_all-At :
      (ws : List (ℕ × ConfigRow × Option ℤ)) (t : Tables) (a b : ℕ) (v : ℤ)
      → At (λ w. le v w ≡ true) a b t
      → At (λ w. le v w ≡ true) a b (upsert_all ws t)
  unfolding upsert_all
  upsert_all-At [] t a b v i = i
  upsert_all-At ((now, row, expected) ∷ ws) t a b v i =
      upsert_all-At ws _ a b v (elim (Result-cases (upsert row expected now t)) [
        | inl ((o, t'), done) ↦
            rw (done, tables_after) (upsert-At row expected now t t' o a b v done i)
        | inr (s, refused) ↦ rw (refused, tables_after) i
      ])

  -- A write that expects a version below that of the row changes nothing.
  stale :
      (row : ConfigRow) (v : ℤ) (now : ℕ) (t : Tables)
      → At (Above v) row.flag_id row.environment_id t
      → upsert row (some v) now t ≡ ok (none, t)
  unfolding upsert
  stale row v now t i = rw (i.there, upsert_found, Above-ne v i.row.version i.version) refl

  -- Once a write that expects a version has changed a configuration, a later write of the same
  -- configuration that expects the same version changes nothing, whatever writes of configurations
  -- come between.
  pub upsert_once :
      (row : ConfigRow) (v : ℤ) (now : ℕ) (t t' : Tables) (old c : ConfigRow)
      (ws : List (ℕ × ConfigRow × Option ℤ)) (later : ConfigRow) (now' : ℕ)
      → current row.flag_id row.environment_id t ≡ some old
      → upsert row (some v) now t ≡ ok (some c, t')
      → later.flag_id ≡ row.flag_id
      → later.environment_id ≡ row.environment_id
      → upsert later (some v) now' (upsert_all ws t') ≡ ok (none, upsert_all ws t')
  unfolding upsert
  upsert_once row v now t t' old c ws later now' there h flag environment =
      elim (Bool-cases (i64_eq old.version v)) [
        | inl yes' ↦
            let (c', there', came) =
              change-current row now t t' (some c) row.flag_id row.environment_id old
                (rw (there, upsert_found, yes') at h) there in
            let it =
              first_where-some (is_config row.flag_id row.environment_id) t.flag_configs old
                there in
            let (w, next, is') = touched_config-ok (overwritten row old) c' (rw (it.1) at came) in
            let is_v : old.version ≡ v = (i64_eq_iff old.version v).0 yes' in
            let above : Above v c'.version =
              rw (is', ← is_v) (next_version-Above old.version w next) in
            let i =
              upsert_all-At ws t' row.flag_id row.environment_id c'.version
                (record { row = c'; there = there'; version = le_refl c'.version }) in
            stale later v now' (upsert_all ws t') (
              rw (flag, environment)
                (record {
                  row = i.row;
                  there = i.there;
                  version = Above-le v c'.version i.row.version above i.version;
                }))
        | inr no' ↦ absurd (cc (rw (there, upsert_found, no') at h))
      ]
