-- ===== src/Api/Flags/Writes.antt =====
-- What the other writes of flags do to the tables: insertion with a configuration in every
-- environment, changes of a flag's row, and deletion.
use mathlib.Core.List.{Memᴰ}
use flagforge.Prelude.{
  ℕ, ◌≡◌, sym, ap, ◌∙◌, List, arith, ◌==◌, if◌then◌else◌, is_nil, ok, Result-cases, inl, inr, subst,
  ◌⊎◌,
}
use flagforge.Text.{Text}
use flagforge.Extern.{Extern}
use flagforge.Storage.Tables.{Tables, FlagRow, ConfigRow}
use flagforge.Storage.Rows.{rows_where-Memᴰ, delete_where, update_where, update_where-Memᴰ}
use flagforge.Storage.Exec.Keeps.{Settles, Settles-guard}
use flagforge.Storage.Flags.{patch_flag, checked_flag, remove_flag, without_flag, doomed_flags}
use flagforge.Api.Flags.Sound.{Served, Sound}

module _ ⦃x : Extern⦄ where
  -- Fewer flags and configurations.
  fewer :
      (t : Tables) (fs : List FlagRow) (cs : List ConfigRow)
      → Sound t
      → ((f : FlagRow) → Memᴰ f fs → Memᴰ f t.flags)
      → ((c : ConfigRow) → Memᴰ c cs → Memᴰ c t.flag_configs)
      → Sound (record t { flags = fs; flag_configs = cs })
  fewer t fs cs s fewer_flags fewer_configs = record {
    flag_ids = λ f g m k. s.flag_ids f g (fewer_flags f m) (fewer_flags g k);
    flag_given = λ f m. s.flag_given f (fewer_flags f m);
    config_keys = λ c d m k. s.config_keys c d (fewer_configs c m) (fewer_configs d k);
    config_given = λ c m. s.config_given c (fewer_configs c m);
    served = λ f c m k. s.served f c (fewer_flags f m) (fewer_configs c k);
  }

  pub remove-Sound :
      (project_id : ℕ) (key : Text) (now : ℕ) (t : Tables)
      → Sound t
      → Settles Sound (λ o t'. Unit) (remove_flag project_id key now t)
  unfolding remove_flag without_flag delete_where
  remove-Sound project_id key now t s =
      let kept =
        fewer t (without_flag project_id key t).flags (without_flag project_id key t).flag_configs s
          (λ f m. (rows_where-Memᴰ _ t.flags f m).0)
          (λ c m. (rows_where-Memᴰ _ t.flag_configs c m).0) in
      Settles-guard Sound (λ o t'. Unit) _
        (ok (is_nil (doomed_flags project_id key t), without_flag project_id key t)) _ (kept, tt)

  -- A patch that keeps the id of a flag, and leaves it such that its configurations can be served.
  pub record Patches (t : Tables) (flag_id : ℕ) (g : FlagRow → FlagRow) : Type 0 where
    pub keeps_id : (f : FlagRow) → (g f).id ≡ f.id
    pub keeps_served :
        (f : FlagRow) (c : ConfigRow)
        → Memᴰ f t.flags
        → Memᴰ c t.flag_configs
        → f.id ≡ flag_id
        → c.flag_id ≡ f.id
        → Served t.environments (g f) c

  -- What a patch makes of a row.
  patched_row :
      (flag_id : ℕ) (g : FlagRow → FlagRow) (f f' : FlagRow)
      → (if f.id == flag_id then checked_flag (g f) else ok f) ≡ ok f'
      → ((f.id ≡ flag_id) × (f' ≡ g f)) ⊎ (f' ≡ f)
  patched_row flag_id g f f' h = ground arith

  patched-Sound :
      (flag_id : ℕ) (g : FlagRow → FlagRow) (t : Tables) (fs : List FlagRow)
      → Sound t
      → Patches t flag_id g
      → update_where (λ row. row.id == flag_id) (λ row. checked_flag (g row)) t.flags ≡ ok fs
      → Sound (record t { flags = fs })
  patched-Sound flag_id g t fs s p done = record {
    flag_ids = λ f' h' m k e.
        let (f, mf, from_f) = origin f' m in
        let (h, mh, from_h) = origin h' k in
        let same : f ≡ h = s.flag_ids f h mf mh (sym (id_of f f' from_f) ∙ e ∙ id_of h h' from_h) in
        cc (same, from_f, from_h);
    flag_given =
        λ f' m. let (f, mf, from_f) = origin f' m in rw (id_of f f' from_f) (s.flag_given f mf);
    config_keys = s.config_keys;
    config_given = s.config_given;
    served = λ f' c m mc e.
        let (f, mf, from_f) = origin f' m in
        let e' : c.flag_id ≡ f.id = e ∙ id_of f f' from_f in
        elim (patched_row flag_id g f f' from_f) [
          | inl (it, is') ↦
              subst (λ h. Served t.environments h c) (sym is') (p.keeps_served f c mf mc it e')
          | inr is' ↦ subst (λ h. Served t.environments h c) (sym is') (s.served f c mf mc e')
        ];
  }
    where
      origin :
          (f' : FlagRow)
          → Memᴰ f' fs
          → (f : FlagRow) × Memᴰ f t.flags
            × ((if f.id == flag_id then checked_flag (g f) else ok f) ≡ ok f')
      origin f' m =
          update_where-Memᴰ (λ row. row.id == flag_id) (λ row. checked_flag (g row)) t.flags fs f'
            done m

      id_of :
          (f f' : FlagRow)
          → (if f.id == flag_id then checked_flag (g f) else ok f) ≡ ok f'
          → f'.id ≡ f.id
      id_of f f' h = elim (patched_row flag_id g f f' h) [
        | inl (it, is') ↦ ap (λ r. r.id) is' ∙ p.keeps_id f
        | inr is' ↦ ap (λ r. r.id) is'
      ]

  pub patch-Sound :
      (flag_id : ℕ) (g : FlagRow → FlagRow) (now : ℕ) (t : Tables)
      → Sound t
      → Patches t flag_id g
      → Settles Sound (λ o t'. Unit) (patch_flag flag_id g now t)
  unfolding patch_flag
  patch-Sound flag_id g now t s p =
      elim (Result-cases
        (update_where (λ row. row.id == flag_id) (λ row. checked_flag (g row)) t.flags)) [
          | inl (fs, done) ↦ rw (done) (patched-Sound flag_id g t fs s p done, tt)
          | inr (v, refused) ↦ rw (refused) tt
        ]
