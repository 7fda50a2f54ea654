-- ===== src/Api/Segments/Handlers.antt =====
-- The handlers of segments keep every segment decidable, however they end.
use flagforge.Prelude.{
  ℕ, ◌≡◌, refl, true, Option, arith, Result, ok, Result-cases, inl, inr, is_nil,
}
use flagforge.Prelude.Int.{ℤ}
use flagforge.Text.{Text, text}
use flagforge.Extern.{Extern}
use flagforge.Core.Checks.{is_valid_key}
use flagforge.Core.Validate.{validate_segment}
use flagforge.Storage.Tables.{Tables}
use flagforge.Storage.Rows.{first_where, first_where-some}
use flagforge.Storage.Exec.{Exec, lift, ◌>>=◌}
use flagforge.Storage.Exec.Keeps.{
  Meets, returns, Meets-pure, Meets-raise, Meets-if, Meets-lift, Meets-bind, Meets-execute,
  Meets-write, Meets-select, Meets-mono, Meets-assume, Meets-lookup,
}
use flagforge.Storage.Audit.{append_entry, record_entry}
use flagforge.Storage.Segments.{
  Segment, SegmentPatch, build, is_segment, find_segment, create_segment, new_segment,
  insert_segment, update_segment, patch_segment, patched_row, version_guard, delete_segment,
  remove_segment, referencing_flags,
}
use flagforge.Api.Error.{ApiError}
use flagforge.Api.Auth.{AuthUser, require_write, valid_key}
use flagforge.Api.Flags.{refresh}
use flagforge.Api.Flags.Reads.{find_project-Meets, find_environment-Meets, Meets-stored}
use flagforge.Api.Flags.Handlers.{Any, Whatever}
use flagforge.Api.Segments.{
  CreateSegment, UpdateSegment, environment_of, audited, create, patched_segment,
  validate_decidable, update, delete,
}
use flagforge.Api.Segments.Decidable.{Decidable}
use flagforge.Api.Segments.Writes.{Known, insert-Decidable, remove-Decidable, patch-Decidable}

module _ ⦃x : Extern⦄ where
  audited-Decidable :
      {R : Tables → Type 0} (caller : AuthUser) (action kind p e key : Text) (id : ℕ)
      → Meets Decidable R (audited caller action kind p e key id) Any
  unfolding audited record_entry
  audited-Decidable caller action kind p e key id = Meets-stored (
      Meets-execute (append_entry _)
        (λ now t d r. (record { keys = d.keys; passes = d.passes }, tt)))

  refresh-Decidable : {R : Tables → Type 0} (id : ℕ) → Meets Decidable R (refresh id) Any
  unfolding refresh
  refresh-Decidable id = record { at = λ w p r. returns p tt }

  environment_of-Decidable :
      {R : Tables → Type 0} (caller : AuthUser) (p e : Text)
      → Meets Decidable R (environment_of caller p e) (λ v t. R t)
  unfolding environment_of
  environment_of-Decidable caller p e =
      Meets-bind (Meets-stored (find_project-Meets caller.organization_id p)) (λ project.
        Meets-mono (λ t r. r) (λ v t r. r.1) (Meets-stored (find_environment-Meets project.id e)))

  -- A check, and what it tells to the rest.
  checked :
      {A B : Type 0} {R : Tables → Type 0} {S : B → Tables → Type 0} {k : A → Exec ApiError B}
      (v : Result A ApiError)
      → ((a : A) → v ≡ ok a → Meets Decidable R (k a) S)
      → Meets Decidable R (lift v >>= k) S
  checked {R = R} v f =
      Meets-bind {Q = λ a t. (v ≡ ok a) × R t} (Meets-lift v (λ a t p r e. (e, r))) (λ a.
        Meets-assume (v ≡ ok a) (λ t p r. r.0) (λ e. Meets-mono (λ t r. r.1) (λ b t q. q) (f a e)))

  -- What comes after a write: the caches and the audit entry.
  closed :
      {E A B : Type 0} {R : Tables → Type 0} {m : Exec E A} {k : A → Exec E B}
      → Meets Decidable R m Any
      → ((a : A) → Meets Decidable Whatever (k a) Any)
      → Meets Decidable R (m >>= k) Any
  closed h f = Meets-bind {Q = Any} h f

  valid_key-ok :
      (key field : Text) (u : Unit {0}) → valid_key key field ≡ ok u → is_valid_key key ≡ true
  unfolding valid_key
  valid_key-ok key field u h = ground (arith, h)

  create_segment-Decidable :
      {R : Tables → Type 0} (environment_id : ℕ) (key name : Text) (description : Option Text)
      → is_valid_key key ≡ true
      → Meets Decidable R (create_segment environment_id key name description) Any
  unfolding create_segment
  create_segment-Decidable environment_id key name description valid =
      let row = new_segment environment_id key name description in
      closed
        (Meets-write (text "segment") key (insert_segment row)
          (λ now t d r. insert-Decidable row now t valid (refl, refl, refl) d))
        (λ row. Meets-lift (build row) (λ s t p r e. tt))

  pub create-Decidable :
      (caller : AuthUser) (p e : Text) (body : CreateSegment)
      → Meets Decidable Whatever (create caller p e body) Any
  unfolding create
  create-Decidable caller p e body = checked (require_write caller) (λ u g.
      checked (valid_key body.key (text "key")) (λ u h.
        Meets-bind (environment_of-Decidable caller p e) (λ v.
          closed
            (Meets-stored (
              create_segment-Decidable v.id body.key body.name body.description
                (valid_key-ok body.key (text "key") u h)))
            (λ s. closed (refresh-Decidable v.id) (λ u.
              closed
                (audited-Decidable caller (text "segment.created") (text "segment") p e body.key
                  v.id)
                (λ u. Meets-pure s (λ t p r. tt)))))))

  find_segment-Known :
      {R : Tables → Type 0} (environment_id : ℕ) (key : Text)
      → Meets Decidable R
          (find_segment environment_id key)
          (λ s t. Known environment_id key s t × R t)
  unfolding find_segment
  find_segment-Known environment_id key =
      Meets-mono (λ t r. r)
        (λ s t q.
          let (row, at, reads) = q.0 in
          let (there, here) = first_where-some (is_segment environment_id key) t.segments row at in
          (record { row = row; there = there; here = here; reads = reads }, q.1))
        (Meets-lookup (λ t. first_where (is_segment environment_id key) t.segments) _ build)

  validate_decidable-ok :
      (previous : Segment) (p : SegmentPatch) (u : Unit {0})
      → validate_decidable previous p ≡ ok u
      → validate_segment (patched_segment previous p) ≡ ok tt
  unfolding validate_decidable
  validate_decidable-ok previous p u h =
      elim (Result-cases (validate_segment (patched_segment previous p))) [
        | inl (v, e) ↦ e
        | inr (issues, e) ↦ absurd (ground (arith, h, e))
      ]

  update_segment-Decidable :
      (environment_id : ℕ) (key : Text) (previous : Segment) (p : SegmentPatch)
      (expected : Option ℤ)
      → validate_segment (patched_segment previous p) ≡ ok tt
      → Meets Decidable
          (Known environment_id key previous)
          (update_segment environment_id key p expected)
          Any
  unfolding update_segment
  update_segment-Decidable environment_id key previous p expected valid =
      Meets-bind (find_segment-Known environment_id key) (λ current.
        Meets-bind (Meets-lift (version_guard current.version expected) (λ u t d r e. r.1)) (λ u.
          closed
            (Meets-write (text "segment") key (patch_segment environment_id key p expected)
              (λ now t d known.
                patch-Decidable environment_id key previous p valid t expected now d known))
            (λ row.
              closed (Meets-lift (patched_row current.version expected row) (λ s t d r e. tt))
                (λ s. Meets-lift (build s) (λ b t d r e. tt)))))

  pub update-Decidable :
      (caller : AuthUser) (p e key : Text) (body : UpdateSegment)
      → Meets Decidable Whatever (update caller p e key body) Any
  unfolding update
  update-Decidable caller p e key body = checked (require_write caller) (λ u g.
      Meets-bind (environment_of-Decidable caller p e) (λ v.
        Meets-bind (Meets-stored (find_segment-Known v.id key)) (λ previous.
          checked (validate_decidable previous body.patch) (λ u h.
            closed
              (Meets-stored (
                Meets-mono (λ t r. r.0) (λ a t q. tt)
                  (update_segment-Decidable v.id key previous body.patch body.expected_version
                    (validate_decidable-ok previous body.patch u h))))
              (λ s. closed (refresh-Decidable v.id) (λ u.
                closed
                  (audited-Decidable caller (text "segment.updated") (text "segment") p e key v.id)
                  (λ u. Meets-pure s (λ t p r. tt))))))))

  delete_segment-Decidable :
      {R : Tables → Type 0} (environment_id : ℕ) (key : Text)
      → Meets Decidable R (delete_segment environment_id key) Any
  unfolding delete_segment referencing_flags
  delete_segment-Decidable environment_id key = Meets-bind (Meets-select _) (λ referencing.
      Meets-bind {Q = Any}
        (Meets-if (is_nil referencing) _ _ (Meets-pure tt (λ t p r. tt)) (Meets-raise _))
        (λ u.
          Meets-bind {Q = Any}
            (Meets-execute (remove_segment environment_id key)
              (λ now t d r. remove-Decidable environment_id key now t d))
            (λ missing. Meets-if missing _ _ (Meets-raise _) (Meets-pure tt (λ t p r. tt)))))

  pub delete-Decidable :
      (caller : AuthUser) (p e key : Text) → Meets Decidable Whatever (delete caller p e key) Any
  unfolding delete
  delete-Decidable caller p e key = checked (require_write caller) (λ u g.
      Meets-bind (environment_of-Decidable caller p e) (λ v.
        Meets-bind (Meets-stored (find_segment-Known v.id key)) (λ previous.
          closed (Meets-stored (delete_segment-Decidable v.id key)) (λ u.
            closed (refresh-Decidable v.id) (λ u.
              audited-Decidable caller (text "segment.deleted") (text "segment") p e key v.id)))))
