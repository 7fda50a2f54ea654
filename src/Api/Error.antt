-- ===== src/Api/Error.antt =====
-- crates/api/src/error.rs: the errors that handlers answer with, and what becomes of a storage error.
-- An internal error keeps its cause, which is logged and not sent.
use flagforge.Prelude.{ℕ, ◌++◌}
use flagforge.Text.{Text, text}
use flagforge.Core.Checks.{Issues, quoted}
use flagforge.Storage.Error.{
  StorageError, not_found, conflict, version_conflict, invalid, in_use, wrong_state, malformed,
  database, show_i64, join_commas,
}

pub data ApiError : Type 0 where
  bad_request unauthorized forbidden missing clash : (message : Text) → ApiError
  unprocessable : Issues → ApiError
  rate_limited : (retry_after_secs : ℕ) → ApiError
  internal : StorageError → ApiError

unfoldable pub status : ApiError → ℕ
status (bad_request m) = 400
status (unauthorized m) = 401
status (forbidden m) = 403
status (missing m) = 404
status (clash m) = 409
status (unprocessable issues) = 422
status (rate_limited secs) = 429
status (internal cause) = 500

-- `impl From<StorageError> for ApiError`; `clash` is `Conflict` and `missing` is `NotFound`.
unfoldable pub from_storage : StorageError → ApiError
unfolding text show_i64 join_commas
from_storage (not_found entity) = missing entity
from_storage (conflict entity key) =
    clash (entity ++ text " " ++ quoted key ++ text " already exists")
from_storage (version_conflict entity expected) = clash (
    entity
    ++ text " was modified by someone else (you were working from version "
    ++ show_i64 expected
    ++ text ")")
from_storage (in_use entity key referenced_by) = clash (
    entity
    ++ text " "
    ++ quoted key
    ++ text " is still referenced by "
    ++ join_commas referenced_by)
from_storage (wrong_state entity key actual needed) = clash (
    entity
    ++ text " "
    ++ quoted key
    ++ text " is "
    ++ actual
    ++ text "; this operation needs it "
    ++ needed)
from_storage (invalid entity) = bad_request (entity ++ text " failed a database constraint")
from_storage (malformed entity) = internal (malformed entity)
from_storage (database e) = internal (database e)
