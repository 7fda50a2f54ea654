-- ===== src/Storage/Tables.antt =====
-- migrations: the tables that the storage layer reads and writes, with their columns, checks and
-- unique indexes. An id is a number, and an instant is one. The columns `created_at` and
-- `updated_at` are left out where no query reads them. A JSONB column holds the JSON of a value of
-- its type, which `serde_json` reads back as it was, or something else, of which only the segment
-- keys that a containment test finds in it are known.
use flagforge.Prelude.{ℕ, Bool, ◌&&◌, Option, List, ltb, leb, all, length, Result, ok, err}
use flagforge.Prelude.Int.{ℤ}
use flagforge.Text.{Text}
use flagforge.TextMap.{TextSet}
use flagforge.Extern.{Extern}
use flagforge.Core.Flag.{Variant, Distribution, Rule, SegmentRule}
use flagforge.Storage.Error.{StorageError, malformed}
use flagforge.Core.Checks.{is_key_char}

pub data Stored {ℓ} (A : Type ℓ) : Type ℓ where
  json : A → Stored A
  broken : (mentions : List Text) → Stored A

-- `serde_json::from_value` of a column.
unfoldable pub decode {ℓ} : {A : Type ℓ} → Text → Stored A → Result A StorageError
decode entity (json a) = ok a
decode entity (broken mentions) = err (malformed entity)

-- `CHECK (key ~ '^[a-zA-Z0-9._-]{1,128}$')`.
unfoldable pub key_check : Text → Bool
unfolding is_key_char
key_check key = ltb 0 (length key) && leb (length key) 128 && all is_key_char key

-- `CHECK (length(name) BETWEEN 1 AND 200)`.
unfoldable pub name_check : Text → Bool
name_check name = ltb 0 (length name) && leb (length name) 200

pub record ProjectRow : Type 0 where
  pub id : ℕ
  pub organization_id : ℕ
  pub key : Text
  pub name : Text
  pub description : Option Text

pub record EnvironmentRow : Type 0 where
  pub id : ℕ
  pub project_id : ℕ
  pub key : Text
  pub name : Text
  pub salt : Text
  pub is_production : Bool
  pub created_at : ℕ

pub record ExperimentRow : Type 0 where
  pub id : ℕ
  pub environment_id : ℕ
  pub flag_id : ℕ
  pub key : Text
  pub name : Text
  pub description : Option Text
  pub metric_key : Text
  pub control_variant : Text
  pub state : Text
  pub started_at : Option ℕ
  pub stopped_at : Option ℕ
  pub version : ℤ

pub record CounterRow : Type 0 where
  pub experiment_id : ℕ
  pub variant : Text
  pub kind : Text
  pub hour : ℕ
  pub count : ℕ

pub record AuditRow : Type 0 where
  pub organization_id : ℕ
  pub actor_user_id : Option ℕ
  pub actor_email : Text
  pub action : Text
  pub resource_type : Text
  pub resource_id : Text
  pub environment_id : Option ℕ

module _ ⦃x : Extern⦄ where
  pub record FlagRow : Type 0 where
    pub id : ℕ
    pub project_id : ℕ
    pub key : Text
    pub name : Text
    pub description : Option Text
    pub variants : Stored (List Variant)
    pub archived : Bool

  pub record ConfigRow : Type 0 where
    pub flag_id : ℕ
    pub environment_id : ℕ
    pub enabled : Bool
    pub off_variant : Text
    pub fallthrough : Stored Distribution
    pub rules : Stored (List Rule)
    pub version : ℤ

  pub record SegmentRow : Type 0 where
    pub id : ℕ
    pub environment_id : ℕ
    pub key : Text
    pub name : Text
    pub description : Option Text
    pub included : Stored TextSet
    pub excluded : Stored TextSet
    pub rules : Stored (List SegmentRule)
    pub version : ℤ

  -- `ORDER BY` on a text compares by the collation of the database: `collates a b` if `a` may stand
  -- before `b`. `next_id` is above every id given out, where `gen_random_uuid` draws one that is new.
  pub record Tables : Type 0 where
    pub projects : List ProjectRow
    pub environments : List EnvironmentRow
    pub flags : List FlagRow
    pub flag_configs : List ConfigRow
    pub segments : List SegmentRow
    pub experiments : List ExperimentRow
    pub experiment_counters : List CounterRow
    pub audit_log : List AuditRow
    pub next_id : ℕ
    pub collates : Text → Text → Bool
