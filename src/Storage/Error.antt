-- ===== src/Storage/Error.antt =====
-- crates/storage/src/error.rs: the errors of the storage layer, and what becomes of the violations
-- that Postgres reports. `Malformed` is kept without the text of `serde_json`.
use flagforge.Prelude.{◌+◌, Option, none, some, List, [], ◌∷◌, ◌++◌, Result, ok, err}
use flagforge.Prelude.Int.{ℤ, pos, negsuc}
use flagforge.Text.{Text, text}
use flagforge.Text.Decimal.{show}

-- What a statement of SQL fails with: a code of SQLSTATE that the source names, or anything else,
-- such as a connection that is lost.
pub data SqlError : Type 0 where
  unique_violation foreign_key_violation check_violation other_failure : SqlError

pub data StorageError : Type 0 where
  not_found : (entity : Text) → StorageError
  conflict : (entity key : Text) → StorageError
  version_conflict : (entity : Text) (expected : ℤ) → StorageError
  invalid : (entity : Text) → StorageError
  in_use : (entity key : Text) (referenced_by : List Text) → StorageError
  wrong_state : (entity key actual needed : Text) → StorageError
  malformed : (entity : Text) → StorageError
  database : SqlError → StorageError

unfoldable pub from_write : Text → Text → SqlError → StorageError
from_write entity key unique_violation = conflict entity key
from_write entity key foreign_key_violation = not_found entity
from_write entity key check_violation = invalid entity
from_write entity key other_failure = database other_failure

unfoldable pub or_not_found {ℓ} : {A : Type ℓ} → Text → Option A → Result A StorageError
or_not_found entity none = err (not_found entity)
or_not_found entity (some a) = ok a

-- `Display` of an `i64`.
unfoldable pub show_i64 : ℤ → Text
unfolding text
show_i64 (pos n) = show n
show_i64 (negsuc n) = text "-" ++ show (n + 1)

-- `join(", ")`.
unfoldable pub join_commas : List Text → Text
unfolding text
join_commas [] = []
join_commas (key ∷ []) = key
join_commas (key ∷ other ∷ keys) = key ++ text ", " ++ join_commas (other ∷ keys)
