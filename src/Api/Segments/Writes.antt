-- ===== src/Api/Segments/Writes.antt =====
-- The statements that write segments keep every segment decidable.
use mathlib.Core.List.{Memᴰ}
use flagforge.Prelude.{
  ℕ, ◌≡◌, refl, sym, ap, ◌∙◌, Bool, true, false, ◌&&◌, Option, none, List, [], ◌∷◌, arith, ok,
  Result-cases, Option-cases, inl, inr, Bool-cases, subst, is_none_or, not, if◌then◌else◌,
}
use flagforge.Prelude.Int.{ℤ}
use flagforge.Text.{Text}
use flagforge.Extern.{Extern}
use flagforge.Core.Checks.{is_valid_key}
use flagforge.Core.Validate.{validate_segment}
use flagforge.Core.Validate.Segments.{validate_segment_iff}
use flagforge.Storage.Version.{i64_eq}
use flagforge.Storage.Tables.{Tables, json, SegmentRow}
use flagforge.Storage.Rows.{
  update_where, update_where-Memᴰ, rows_where-Memᴰ, first_where, first_where-none, delete_where,
}
use flagforge.Storage.Exec.Keeps.{Settles}
use flagforge.Storage.Segments.{
  Segment, SegmentPatch, build, is_segment, segment_patch, touched_segment, patch_segment,
  segment_violation, insert_segment, remove_segment,
}
use flagforge.Api.Segments.{patched_segment}
use flagforge.Api.Segments.Decidable.{Passes, Decidable, is_segment_iff, touched_lem, patch-Passes}

module _ ⦃x : Extern⦄ where
  -- A segment without members passes if its key is valid.
  empty-Passes :
      (s : SegmentRow)
      → is_valid_key s.key ≡ true
      → (s.included ≡ json []) × (s.excluded ≡ json []) × (s.rules ≡ json [])
      → Passes s
  empty-Passes s valid reads = record {
    included = [];
    excluded = [];
    rules = [];
    reads = reads;
    valid =
        (validate_segment_iff _).1
          (record { key = valid; apart = tt; ids_differ = tt; rules = tt });
  }

  -- A row that is not refused has a key that its environment does not have.
  unviolated :
      (s q : SegmentRow) (t : Tables)
      → segment_violation s t ≡ none
      → Memᴰ q t.segments
      → is_segment s.environment_id s.key q ≡ false
  unfolding segment_violation
  unviolated s q t h m =
      elim (Option-cases (first_where (is_segment s.environment_id s.key) t.segments)) [
        | inl e ↦ first_where-none (is_segment s.environment_id s.key) t.segments q e m
        | inr (r, e) ↦ absurd (ground (arith, h, e))
      ]

  inserted-keys :
      (t : Tables) (r s s' : SegmentRow)
      → Decidable t
      → ((q : SegmentRow) → Memᴰ q t.segments → is_segment r.environment_id r.key q ≡ false)
      → Memᴰ s (r ∷ t.segments)
      → Memᴰ s' (r ∷ t.segments)
      → s.environment_id ≡ s'.environment_id
      → s.key ≡ s'.key
      → s ≡ s'
  inserted-keys t r s s' d new (Memᴰ.head e) (Memᴰ.head e') i k = e ∙ sym e'
  inserted-keys t r s s' d new (Memᴰ.head e) (Memᴰ.tail m) i k =
      let there =
        (is_segment_iff r.environment_id r.key s').1
          (sym i ∙ ap (λ q. q.environment_id) e, sym k ∙ ap (λ q. q.key) e) in
      absurd (cc (there, new s' m))
  inserted-keys t r s s' d new (Memᴰ.tail m) (Memᴰ.head e) i k =
      let there =
        (is_segment_iff r.environment_id r.key s).1
          (i ∙ ap (λ q. q.environment_id) e, k ∙ ap (λ q. q.key) e) in
      absurd (cc (there, new s m))
  inserted-keys t r s s' d new (Memᴰ.tail m) (Memᴰ.tail m') i k = d.keys s s' m m' i k

  pub insert-Decidable :
      (s : SegmentRow) (now : ℕ) (t : Tables)
      → is_valid_key s.key ≡ true
      → (s.included ≡ json []) × (s.excluded ≡ json []) × (s.rules ≡ json [])
      → Decidable t
      → Settles Decidable (λ o t'. Unit) (insert_segment s now t)
  unfolding insert_segment
  insert-Decidable s now t valid reads d = elim (Option-cases (segment_violation s t)) [
    | inl e ↦
        let row : SegmentRow = record s { id = t.next_id } in
        rw (e, Settles)
          (
            record {
              keys = λ q q'. inserted-keys t row q q' d (λ r m. unviolated s r t e m);
              passes = λ q m. elim m [
                | Memᴰ.head here ↦ subst Passes (sym here) (empty-Passes row valid reads)
                | Memᴰ.tail k ↦ d.passes q k
              ];
            },
            tt,
          )
    | inr (v, e) ↦ rw (e, Settles) tt
  ]

  pub remove-Decidable :
      (environment_id : ℕ) (key : Text) (now : ℕ) (t : Tables)
      → Decidable t
      → Settles Decidable (λ o t'. Unit) (remove_segment environment_id key now t)
  unfolding remove_segment delete_where
  remove-Decidable environment_id key now t d = (
    record {
      keys = λ q q' m m'. d.keys q q' (kept q m) (kept q' m');
      passes = λ q m. d.passes q (kept q m);
    },
    tt,
  )
    where
      kept :
          (q : SegmentRow)
          → Memᴰ q (delete_where (is_segment environment_id key) t.segments)
          → Memᴰ q t.segments
      kept q m = (rows_where-Memᴰ (λ s. not (is_segment environment_id key s)) t.segments q m).0

  -- The row that a segment was read from.
  pub record Known (environment_id : ℕ) (key : Text) (previous : Segment) (t : Tables)
      : Type 0 where
    pub row : SegmentRow
    pub there : Memᴰ row t.segments
    pub here : is_segment environment_id key row ≡ true
    pub reads : build row ≡ ok previous

  -- What becomes of a row.
  unfoldable Becomes : (SegmentRow → Bool) → SegmentPatch → SegmentRow → SegmentRow → Type 0
  Becomes hit p s r = (if hit s then touched_segment (segment_patch p s) else ok s) ≡ ok r

  Becomes-keys :
      (hit : SegmentRow → Bool) (p : SegmentPatch) (s r : SegmentRow)
      → Becomes hit p s r
      → (r.environment_id ≡ s.environment_id) × (r.key ≡ s.key)
  unfolding Becomes segment_patch
  Becomes-keys hit p s r h = elim (Bool-cases (hit s)) [
    | inl yes' ↦ let h' = touched_lem (segment_patch p s) r (rw (yes') at h) in (h'.0, h'.1)
    | inr no' ↦ let it : s ≡ r = ground (arith, h, no') in rw (it) (refl, refl)
  ]

  module _ (environment_id : ℕ) (key : Text) (previous : Segment) (p : SegmentPatch)
      (valid : validate_segment (patched_segment previous p) ≡ ok tt) (t : Tables) where
    Becomes-Passes :
        (expected : Option ℤ) (s r : SegmentRow)
        → Decidable t
        → Known environment_id key previous t
        → Memᴰ s t.segments
        → Becomes
            (λ q. is_segment environment_id key q && is_none_or expected (i64_eq q.version))
            p
            s
            r
        → Passes r
    unfolding Becomes
    Becomes-Passes expected s r d known m h =
        elim (Bool-cases
          (is_segment environment_id key s && is_none_or expected (i64_eq s.version))) [
            | inl yes' ↦
                let hit : is_segment environment_id key s ≡ true = ground (arith, yes') in
                let at = (is_segment_iff environment_id key s).0 hit in
                let at' = (is_segment_iff environment_id key known.row).0 known.here in
                let same = d.keys s known.row m known.there (at.0 ∙ sym at'.0) (at.1 ∙ sym at'.1) in
                patch-Passes s r previous p (d.passes s m) (ap build same ∙ known.reads) valid
                  (rw (yes') at h)
            | inr no' ↦ let it : s ≡ r = ground (arith, h, no') in subst Passes it (d.passes s m)
          ]

    patched-Decidable :
        (expected : Option ℤ) (rows : List SegmentRow)
        → Decidable t
        → Known environment_id key previous t
        → update_where
            (λ q. is_segment environment_id key q && is_none_or expected (i64_eq q.version))
            (λ q. touched_segment (segment_patch p q))
            t.segments
          ≡ ok rows
        → Decidable (record t { segments = rows })
    unfolding Becomes
    patched-Decidable expected rows d known done = record {
      keys = λ r r' m m' i k.
          let (s, there, h) = origin r m in
          let (s', there', h') = origin r' m' in
          let (e, n) = Becomes-keys hit p s r h in
          let (e', n') = Becomes-keys hit p s' r' h' in
          let same = d.keys s s' there there' (sym e ∙ i ∙ e') (sym n ∙ k ∙ n') in cc (same, h, h');
      passes = λ r m. let (s, there, h) = origin r m in Becomes-Passes expected s r d known there h;
    }
      where
        hit : SegmentRow → Bool
        hit q = is_segment environment_id key q && is_none_or expected (i64_eq q.version)

        origin :
            (r : SegmentRow)
            → Memᴰ r rows
            → (s : SegmentRow) × Memᴰ s t.segments
              × ((if hit s then touched_segment (segment_patch p s) else ok s) ≡ ok r)
        origin r m =
            update_where-Memᴰ hit (λ q. touched_segment (segment_patch p q)) t.segments rows r done
              m

    pub patch-Decidable :
        (expected : Option ℤ) (now : ℕ)
        → Decidable t
        → Known environment_id key previous t
        → Settles Decidable (λ o t'. Unit) (patch_segment environment_id key p expected now t)
    unfolding patch_segment
    patch-Decidable expected now d known =
        elim (Result-cases (
          update_where
            (λ q. is_segment environment_id key q && is_none_or expected (i64_eq q.version))
            (λ q. touched_segment (segment_patch p q)) t.segments)) [
              | inl (rows, done) ↦ rw (done) (patched-Decidable expected rows d known done, tt)
              | inr (e, refused) ↦ rw (refused) tt
            ]
