-- ===== src/Storage/Segments.antt =====
-- crates/storage/src/segments.rs: segments, whose updates carry an expected version, and whose
-- deletion is refused while a rule of their environment names them.
use flagforge.Prelude.{
  ℕ, ◌+◌, Bool, false, not, ◌&&◌, ◌||◌, Option, none, some, List, [], ◌∷◌, map, any, ◌==◌,
  if◌then◌else◌, is_nil, is_some, is_none_or, unwrap_or, Result, ok, err, and_then,
}
use flagforge.Prelude.Int.{ℤ, pos}
use flagforge.Text.{Text, text, text_eq}
use flagforge.TextMap.{TextSet, set_contains}
use flagforge.Extern.{Extern}
use flagforge.Core.Flag.{Rule, SegmentRule, SegmentMatch}
use flagforge.Core.Flag as Core
use flagforge.Storage.Error.{
  SqlError, unique_violation, foreign_key_violation, check_violation, other_failure, StorageError,
  not_found, in_use, version_conflict,
}
use flagforge.Storage.Version.{i64_eq, next_version}
use flagforge.Storage.Tables.{
  Tables, Stored, json, broken, decode, EnvironmentRow, FlagRow, ConfigRow, SegmentRow, key_check,
  name_check,
}
use flagforge.Storage.Rows.{rows_where, first_where, order_by, update_where, delete_where}
use flagforge.Storage.Exec.{
  Exec, Statement, pure, raise, lift, ◌>>=◌, ◌>>◌, select, execute, write, found,
}
use flagforge.Storage.Experiments.{patched, collected}

module _ ⦃x : Extern⦄ where
  pub record Segment : Type 0 where
    pub id : ℕ
    pub environment_id : ℕ
    pub key : Text
    pub name : Text
    pub description : Option Text
    pub included : TextSet
    pub excluded : TextSet
    pub rules : List SegmentRule
    pub version : ℤ

  -- `Segment::definition`, the evaluation view.
  unfoldable pub definition : Segment → Core.Segment
  definition s = record {
    key = s.key;
    description = s.description;
    included = s.included;
    excluded = s.excluded;
    rules = s.rules;
    version = s.version;
  }

  unfoldable pub build : SegmentRow → Result Segment StorageError
  unfolding decode text
  build row = and_then (decode (text "segment") row.included) λ included.
      and_then (decode (text "segment") row.excluded) λ excluded.
        and_then (decode (text "segment") row.rules) λ rules. ok (record {
          id = row.id;
          environment_id = row.environment_id;
          key = row.key;
          name = row.name;
          description = row.description;
          included = included;
          excluded = excluded;
          rules = rules;
          version = row.version;
        })

  unfoldable pub is_segment : ℕ → Text → SegmentRow → Bool
  is_segment environment_id key s = s.environment_id == environment_id && text_eq s.key key

  unfoldable pub segment_violation : SegmentRow → Tables → Option SqlError
  unfolding first_where is_segment key_check name_check
  segment_violation s t =
      if not (key_check s.key && name_check s.name)
      then some check_violation
      else if is_some (first_where (is_segment s.environment_id s.key) t.segments)
      then some unique_violation
      else if not
          (is_some (first_where (λ (e : EnvironmentRow). e.id == s.environment_id) t.environments))
      then some foreign_key_violation
      else none

  unfoldable pub insert_segment : SegmentRow → Statement SegmentRow
  unfolding segment_violation
  insert_segment s now t = elim (segment_violation s t) [
    | some violation ↦ err violation
    | none ↦
        let row = record s { id = t.next_id } in
        ok (row, record t { segments = row ∷ t.segments; next_id = t.next_id + 1 })
  ]

  -- The columns that are inserted, and the defaults of the others.
  abbrev pub new_segment : ℕ → Text → Text → Option Text → SegmentRow
  new_segment environment_id key name description = record {
    id = 0;
    environment_id = environment_id;
    key = key;
    name = name;
    description = description;
    included = json [];
    excluded = json [];
    rules = json [];
    version = pos 1;
  }

  unfoldable pub create_segment : ℕ → Text → Text → Option Text → Exec StorageError Segment
  unfolding insert_segment write lift build text ◌>>=◌
  create_segment environment_id key name description = do
    row ←
        write (text "segment") key
          (insert_segment (new_segment environment_id key name description))
    lift (build row)

  unfoldable pub list_segments : ℕ → Exec StorageError (List Segment)
  unfolding rows_where order_by select lift build collected ◌>>=◌
  list_segments environment_id = do
    rows ← select (λ t.
        order_by (λ s s'. t.collates s.key s'.key)
          (rows_where (λ s. s.environment_id == environment_id) t.segments))
    lift (collected build rows)

  unfoldable pub find_segment : ℕ → Text → Exec StorageError Segment
  unfolding first_where is_segment select found lift build text ◌>>=◌
  find_segment environment_id key = do
    row ← select (λ t. first_where (is_segment environment_id key) t.segments)
    s ← found (text "segment") row
    lift (build s)

  -- What a caller may change; each part is absent or new.
  pub record SegmentPatch : Type 0 where
    pub name : Option Text
    pub description : Option (Option Text)
    pub included : Option TextSet
    pub excluded : Option TextSet
    pub rules : Option (List SegmentRule)

  abbrev pub coalesced {ℓ} : {A : Type ℓ} → Option A → Stored A → Stored A
  coalesced none old = old
  coalesced (some a) old = json a

  unfoldable pub segment_patch : SegmentPatch → SegmentRow → SegmentRow
  unfolding patched
  segment_patch p s = record s {
    name = unwrap_or p.name s.name;
    description = patched p.description s.description;
    included = coalesced p.included s.included;
    excluded = coalesced p.excluded s.excluded;
    rules = coalesced p.rules s.rules;
  }

  -- The trigger `segments_touch`, and then the checks.
  unfoldable pub touched_segment : SegmentRow → Result SegmentRow SqlError
  unfolding next_version name_check
  touched_segment s = elim (next_version s.version) [
    | none ↦ err other_failure
    | some version ↦
        if name_check s.name then ok (record s { version = version }) else err check_violation
  ]

  -- `UPDATE segments SET .. WHERE .. AND ($9 IS NULL OR version = $9) RETURNING ..`.
  unfoldable pub patch_segment : ℕ → Text → SegmentPatch → Option ℤ → Statement (Option SegmentRow)
  unfolding update_where first_where is_segment segment_patch touched_segment i64_eq
  patch_segment environment_id key p expected now t =
      let hit = λ (s : SegmentRow).
        is_segment environment_id key s && is_none_or expected (i64_eq s.version) in
      and_then (update_where hit (λ s. touched_segment (segment_patch p s)) t.segments) λ rows. ok (
        elim (first_where hit t.segments) [
          | none ↦ none
          | some s ↦ first_where (is_segment environment_id key) rows
        ],
        record t { segments = rows },
      )

  unfoldable pub patched_row : ℤ → Option ℤ → Option SegmentRow → Result SegmentRow StorageError
  unfolding text
  patched_row version expected none =
      err (version_conflict (text "segment") (unwrap_or expected version))
  patched_row version expected (some row) = ok row

  -- `if let Some(expected) = expected_version && current.version != expected`.
  unfoldable pub version_guard : ℤ → Option ℤ → Result (Unit {0}) StorageError
  unfolding i64_eq text
  version_guard version none = ok tt
  version_guard version (some expected) =
      if i64_eq version expected then ok tt else err (version_conflict (text "segment") expected)

  unfoldable pub update_segment : ℕ → Text → SegmentPatch → Option ℤ → Exec StorageError Segment
  unfolding find_segment version_guard patch_segment write lift patched_row build text ◌>>=◌
  update_segment environment_id key p expected = do
    current ← find_segment environment_id key
    lift (version_guard current.version expected)
    row ← write (text "segment") key (patch_segment environment_id key p expected)
    s ← lift (patched_row current.version expected row)
    lift (build s)

  abbrev names : Text → Option SegmentMatch → Bool
  names key none = false
  names key (some m) = set_contains m.any_of key || set_contains m.none_of key

  -- `rules @> [{"segments": {"any_of": [key]}}] OR rules @> [{"segments": {"none_of": [key]}}]`.
  unfoldable pub mentions_segment : Text → Stored (List Rule) → Bool
  unfolding set_contains
  mentions_segment key (json rules) = any (λ r. names key r.segments) rules
  mentions_segment key (broken mentions) = set_contains mentions key

  -- `JOIN flags f ON f.id = c.flag_id`.
  unfoldable pub flag_keys : List FlagRow → List ConfigRow → List Text
  unfolding first_where
  flag_keys flags [] = []
  flag_keys flags (c ∷ cs) =
      let rest = flag_keys flags cs in
      elim (first_where (λ (f : FlagRow). f.id == c.flag_id) flags) [
        | none ↦ rest
        | some f ↦ f.key ∷ rest
      ]

  unfoldable pub referencing_flags : ℕ → Text → Exec StorageError (List Text)
  unfolding flag_keys mentions_segment rows_where order_by select
  referencing_flags environment_id key = select (λ t. order_by t.collates (
      flag_keys t.flags (
        rows_where (λ c. c.environment_id == environment_id && mentions_segment key c.rules)
          t.flag_configs)))

  unfoldable pub remove_segment : ℕ → Text → Statement Bool
  unfolding rows_where delete_where is_segment
  remove_segment environment_id key now t = ok (
    is_nil (rows_where (is_segment environment_id key) t.segments),
    record t { segments = delete_where (is_segment environment_id key) t.segments },
  )

  unfoldable pub delete_segment : ℕ → Text → Exec StorageError (Unit {0})
  unfolding referencing_flags remove_segment execute raise pure text ◌>>=◌
  delete_segment environment_id key = do
    referencing ← referencing_flags environment_id key
    (if is_nil referencing then pure tt else raise (in_use (text "segment") key referencing))
    missing ← execute (remove_segment environment_id key)
    if missing then raise (not_found (text "segment")) else pure tt

  unfoldable pub segment_keys : ℕ → Exec StorageError TextSet
  unfolding rows_where select
  segment_keys environment_id =
      select
        (λ t. map (λ s. s.key) (rows_where (λ s. s.environment_id == environment_id) t.segments))

  unfoldable pub load_environment_segments : ℕ → Exec StorageError (List Core.Segment)
  unfolding list_segments definition pure ◌>>=◌
  load_environment_segments environment_id = do
    segments ← list_segments environment_id
    pure (map definition segments)
