-- ===== src/Api/Segments/Decidable.antt =====
-- What the table of segments must be for every segment to be decidable, and the statements that keep it.
use mathlib.Core.List.{Memᴰ}
use flagforge.Prelude.{
  ℕ, ◌≡◌, ◌↔◌, refl, ap, ◌∙◌, true, Option, none, some, List, arith, ◌==◌, ==_iff, ok, unwrap_or,
}
use flagforge.Prelude.Int.{pos}
use flagforge.Text.{Text, text_eq, text_eq_iff}
use flagforge.TextMap.{TextSet}
use flagforge.Extern.{Extern}
use flagforge.Core.Flag.{SegmentRule}
use flagforge.Core.Validate.{validate_segment, segment_issues}
use flagforge.Storage.Tables.{Tables, Stored, json, decode, SegmentRow}
use flagforge.Storage.Segments.{
  Segment, SegmentPatch, build, is_segment, segment_patch, touched_segment, coalesced,
}
use flagforge.Api.Segments.{patched_segment}

module _ ⦃x : Extern⦄ where
  -- The columns of a row can be read, and the segment that they make passes the validator.
  pub record Passes (s : SegmentRow) : Type 0 where
    pub included : TextSet
    pub excluded : TextSet
    pub rules : List SegmentRule
    pub reads : (s.included ≡ json included) × (s.excluded ≡ json excluded) × (s.rules ≡ json rules)
    pub valid :
        validate_segment (record {
          key = s.key;
          description = none;
          included = included;
          excluded = excluded;
          rules = rules;
          version = pos 0;
        })
        ≡ ok tt

  -- An environment has one segment with a key, and every segment passes.
  pub record Decidable (t : Tables) : Type 0 where
    pub keys :
        (s s' : SegmentRow)
        → Memᴰ s t.segments
        → Memᴰ s' t.segments
        → s.environment_id ≡ s'.environment_id
        → s.key ≡ s'.key
        → s ≡ s'
    pub passes : (s : SegmentRow) → Memᴰ s t.segments → Passes s

  pub is_segment_iff :
      (environment_id : ℕ) (key : Text) (s : SegmentRow)
      → (is_segment environment_id key s ≡ true)
        ↔ ((s.environment_id ≡ environment_id) × (s.key ≡ key))
  unfolding is_segment
  is_segment_iff environment_id key s =
      let e = ==_iff s.environment_id environment_id in
      let k = text_eq_iff s.key key in
      (
        λ h.
            let there : (s.environment_id == environment_id) ≡ true = ground (arith, h) in
            let same : text_eq s.key key ≡ true = ground (arith, h) in (e.0 there, k.0 same),
        λ h. rw (e.1 h.0, k.1 h.1) refl,
      )

  -- What a row that passes is read as.
  built :
      (s : SegmentRow) (p : Passes s) (previous : Segment)
      → build s ≡ ok previous
      → (s.key ≡ previous.key)
        × (p.included ≡ previous.included)
        × (p.excluded ≡ previous.excluded)
        × (p.rules ≡ previous.rules)
  unfolding build decode
  built s p previous h = ground (arith, h, p.reads)

  coalesced_lem :
      {A : Type 0} (o : Option A) (c : Stored A) (a : A)
      → c ≡ json a
      → coalesced o c ≡ json (unwrap_or o a)
  coalesced_lem none c a h = h
  coalesced_lem (some b) c a h = refl

  pub touched_lem :
      (s r : SegmentRow)
      → touched_segment s ≡ ok r
      → (r.environment_id ≡ s.environment_id)
        × (r.key ≡ s.key)
        × (r.included ≡ s.included)
        × (r.excluded ≡ s.excluded)
        × (r.rules ≡ s.rules)
  unfolding touched_segment
  touched_lem s r h = ground (arith, h)

  -- A patch that was validated on what a row was read as leaves a row that passes.
  pub patch-Passes :
      (s r : SegmentRow) (previous : Segment) (p : SegmentPatch)
      → Passes s
      → build s ≡ ok previous
      → validate_segment (patched_segment previous p) ≡ ok tt
      → touched_segment (segment_patch p s) ≡ ok r
      → Passes r
  unfolding segment_patch patched_segment validate_segment segment_issues
  patch-Passes s r previous p passes h valid done =
      let (key, included, excluded, rules) = built s passes previous h in
      let (at, same, i, e, rs) = touched_lem (segment_patch p s) r done in
      record {
        included = unwrap_or p.included previous.included;
        excluded = unwrap_or p.excluded previous.excluded;
        rules = unwrap_or p.rules previous.rules;
        reads = (
          i
              ∙ coalesced_lem p.included s.included previous.included
                  (passes.reads.0 ∙ ap json included),
          e
              ∙ coalesced_lem p.excluded s.excluded previous.excluded
                  (passes.reads.1 ∙ ap json excluded),
          rs ∙ coalesced_lem p.rules s.rules previous.rules (passes.reads.2 ∙ ap json rules),
        );
        valid = rw (same, key) valid;
      }
