-- ===== src/Extern.antt =====
-- What the program calls and does not implement: the arithmetic of `f64`, and the crates
-- `serde_json`, `regex`, `semver`, `sha2` and `uuid`.
use flagforge.Prelude.{ℕ, Bool, Option, List, Result}
use flagforge.Prelude.Int.{ℤ}
use flagforge.Text.{Text}

pub record Extern : Type 1 where
  -- `f64`: the comparisons, which are all false at NaN; `as i64` saturates, and is 0 at NaN.
  pub F64 : Type 0
  pub f64_eq : F64 → F64 → Bool
  pub f64_lt : F64 → F64 → Bool
  pub f64_le : F64 → F64 → Bool
  pub f64_of : ℕ → F64
  pub f64_fract : F64 → F64
  pub f64_abs : F64 → F64
  pub f64_is_finite : F64 → Bool
  pub f64_as_i64 : F64 → ℤ
  pub f64_to_string : F64 → Text
  -- `serde_json::Value`, and what it is as a Boolean, a number or a string.
  pub Json : Type 0
  pub json_null : Json
  pub json_as_bool : Json → Option Bool
  pub json_as_f64 : Json → Option F64
  pub json_as_str : Json → Option Text
  -- `regex::Regex`; an error is given by its text.
  pub Regex : Type 0
  pub regex_new : Text → Result Regex Text
  pub regex_is_match : Regex → Text → Bool
  -- `semver::Version`.
  pub Version : Type 0
  pub semver_parse : Text → Option Version
  pub semver_eq : Version → Version → Bool
  pub semver_lt : Version → Version → Bool
  -- `sha2::Sha256` from the bytes hashed to the bytes of the digest.
  pub sha256 : List ℕ → List ℕ
  -- `Display` of `uuid::Uuid`, which is a 128-bit number here.
  pub uuid_to_string : ℕ → Text
