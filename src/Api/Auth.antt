-- ===== src/Api/Auth.antt =====
-- crates/api/src/auth/extract.rs and crates/api/src/routes/mod.rs: what a handler asks of its caller and
-- of a key that the caller names.
use flagforge.Prelude.{ℕ, Option, some, ◌++◌, if◌then◌else◌, Result, ok, err}
use flagforge.Text.{Text, text}
use flagforge.Text.Decimal.{show}
use flagforge.Core.Checks.{is_valid_key, max_key_len, quoted}
use flagforge.Storage.Models.{Role, can_write, can_administer}
use flagforge.Api.Error.{ApiError, bad_request, forbidden}

pub record AuthUser : Type 0 where
  pub user_id : ℕ
  pub organization_id : ℕ
  pub email : Text
  pub role : Role

unfoldable pub actor : AuthUser → Option ℕ × Text
actor caller = (some caller.user_id, caller.email)

unfoldable pub require_write : AuthUser → Result (Unit {0}) ApiError
unfolding can_write text
require_write caller =
    if can_write caller.role
    then ok tt
    else err (forbidden (text "this role cannot modify configuration"))

unfoldable pub require_admin : AuthUser → Result (Unit {0}) ApiError
unfolding can_administer text
require_admin caller =
    if can_administer caller.role
    then ok tt
    else err (forbidden (text "this action requires an owner or admin"))

unfoldable pub valid_key : Text → Text → Result (Unit {0}) ApiError
unfolding is_valid_key text
valid_key candidate field =
    if is_valid_key candidate
    then ok tt
    else err (
        bad_request (
          quoted field
          ++ text " must be 1-"
          ++ show max_key_len
          ++ text " characters of letters, digits, `.`, `_` or `-`"))
