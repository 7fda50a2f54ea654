-- ===== src/Api/Segments.antt =====
-- crates/api/src/routes/segments.rs: the handlers of segments, with the guards, reads and writes of the
-- source in its order.

pub mod Decidable
pub mod Writes
pub mod Handlers
pub mod Service
use flagforge.Prelude.{ℕ, Option, none, some, List, ◌++◌, Result, unwrap_or, map}
use flagforge.Prelude.Int.{ℤ}
use flagforge.Text.{Text, text}
use flagforge.TextMap.{TextSet}
use flagforge.Extern.{Extern}
use flagforge.Core.Flag.{SegmentRule}
use flagforge.Core.Flag as Core
use flagforge.Core.Validate.{validate_segment}
use flagforge.Storage.Exec.{Exec, pure, lift, ◌>>=◌, ◌>>◌}
use flagforge.Storage.Tables.{ProjectRow, EnvironmentRow}
use flagforge.Storage.Projects.{find_project, find_environment}
use flagforge.Storage.Segments.{
  Segment, SegmentPatch, create_segment, list_segments, find_segment, update_segment,
  referencing_flags, delete_segment,
}
use flagforge.Storage.Audit.{entry, record_entry}
use flagforge.Api.Error.{ApiError}
use flagforge.Api.Auth.{AuthUser, actor, require_write, valid_key}
use flagforge.Api.Flags.{stored, refused, refresh}

module _ ⦃x : Extern⦄ where
  pub record CreateSegment : Type 0 where
    pub key : Text
    pub name : Text
    pub description : Option Text

  -- The parts to change, which the storage layer takes one by one, and the version last read.
  pub record UpdateSegment : Type 0 where
    pub patch : SegmentPatch
    pub expected_version : Option ℤ

  pub record SegmentWithUsage : Type 0 where
    pub segment : Segment
    pub referenced_by : List Text

  -- The environment that a path names.
  unfoldable pub environment_of : AuthUser → Text → Text → Exec ApiError EnvironmentRow
  unfolding find_project find_environment stored ◌>>=◌
  environment_of caller project_key environment_key = do
    project ← stored (find_project caller.organization_id project_key)
    stored (find_environment project.id environment_key)

  -- The entry of an action on a resource of an environment.
  unfoldable pub audited :
      AuthUser → Text → Text → Text → Text → Text → ℕ → Exec ApiError (Unit {0})
  unfolding entry record_entry actor stored text
  audited caller action resource_type project_key environment_key key environment_id = stored (
      record_entry (
        entry caller.organization_id (actor caller) action resource_type
          (project_key ++ text "/" ++ environment_key ++ text "/" ++ key) (some environment_id)))

  unfoldable pub list : AuthUser → Text → Text → Exec ApiError (List Segment)
  unfolding environment_of list_segments stored ◌>>=◌
  list caller project_key environment_key = do
    environment ← environment_of caller project_key environment_key
    stored (list_segments environment.id)

  unfoldable pub create : AuthUser → Text → Text → CreateSegment → Exec ApiError Segment
  unfolding require_write valid_key environment_of create_segment refresh audited stored lift pure
      text ◌>>=◌
  create caller project_key environment_key body = do
    lift (require_write caller)
    lift (valid_key body.key (text "key"))
    environment ← environment_of caller project_key environment_key
    segment ← stored (create_segment environment.id body.key body.name body.description)
    refresh environment.id
    audited caller (text "segment.created") (text "segment") project_key environment_key body.key
        environment.id
    pure segment

  unfoldable pub get : AuthUser → Text → Text → Text → Exec ApiError SegmentWithUsage
  unfolding environment_of find_segment referencing_flags stored pure ◌>>=◌
  get caller project_key environment_key segment_key = do
    environment ← environment_of caller project_key environment_key
    segment ← stored (find_segment environment.id segment_key)
    referenced_by ← stored (referencing_flags environment.id segment_key)
    pure (record { segment = segment; referenced_by = referenced_by })

  -- The segment that the patch would produce.
  unfoldable pub patched_segment : Segment → SegmentPatch → Core.Segment
  patched_segment previous p = record {
    key = previous.key;
    description = none;
    included = unwrap_or p.included previous.included;
    excluded = unwrap_or p.excluded previous.excluded;
    rules = unwrap_or p.rules previous.rules;
    version = previous.version;
  }

  unfoldable pub validate_decidable : Segment → SegmentPatch → Result (Unit {0}) ApiError
  unfolding patched_segment validate_segment
  validate_decidable previous p = refused (validate_segment (patched_segment previous p))

  unfoldable pub update : AuthUser → Text → Text → Text → UpdateSegment → Exec ApiError Segment
  unfolding require_write environment_of find_segment validate_decidable update_segment refresh
      audited stored lift pure text ◌>>=◌
  update caller project_key environment_key segment_key body = do
    lift (require_write caller)
    environment ← environment_of caller project_key environment_key
    previous ← stored (find_segment environment.id segment_key)
    lift (validate_decidable previous body.patch)
    segment ← stored (update_segment environment.id segment_key body.patch body.expected_version)
    refresh environment.id
    audited caller (text "segment.updated") (text "segment") project_key environment_key segment_key
        environment.id
    pure segment

  unfoldable pub delete : AuthUser → Text → Text → Text → Exec ApiError (Unit {0})
  unfolding require_write environment_of find_segment delete_segment refresh audited stored lift
      text ◌>>=◌
  delete caller project_key environment_key segment_key = do
    lift (require_write caller)
    environment ← environment_of caller project_key environment_key
    previous ← stored (find_segment environment.id segment_key)
    stored (delete_segment environment.id segment_key)
    refresh environment.id
    audited caller (text "segment.deleted") (text "segment") project_key environment_key segment_key
        environment.id
