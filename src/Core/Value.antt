-- ===== src/Core/Value.antt =====
-- crates/core/src/value.rs: the values of variants and of context attributes.
use flagforge.Prelude.{Bool, ◌&&◌, ◌^◌, Option, none, some, List, [], ◌∷◌, if◌then◌else◌}
use flagforge.Text.{Text, text}
use flagforge.Text.Decimal.{show_ℤ}
use flagforge.Extern.{Extern}

module _ ⦃x : Extern⦄ where
  open x use {
    F64, f64_eq, f64_lt, f64_of, f64_fract, f64_abs, f64_is_finite, f64_as_i64, f64_to_string, Json,
    json_null, json_as_bool, json_as_f64, json_as_str,
  }

  pub data VariantValue : Type 0 where
    bool : Bool → VariantValue
    number : F64 → VariantValue
    string : Text → VariantValue
    json : Json → VariantValue

  unfoldable pub as_bool : VariantValue → Option Bool
  as_bool (bool b) = some b
  as_bool (json v) = json_as_bool v
  as_bool _ = none

  unfoldable pub as_f64 : VariantValue → Option F64
  as_f64 (number n) = some n
  as_f64 (json v) = json_as_f64 v
  as_f64 _ = none

  unfoldable pub as_str : VariantValue → Option Text
  as_str (string s) = some s
  as_str (json v) = json_as_str v
  as_str _ = none

  abbrev pub null : VariantValue
  null = json json_null

  mutual
    pub data AttributeValue : Type 0 where
      bool : Bool → AttributeValue
      number : F64 → AttributeValue
      string : Text → AttributeValue
      list : Items → AttributeValue

    pub data Items : Type 0 where
      nil : Items
      cons : AttributeValue → Items → Items

  abbrev pub items : Items → List AttributeValue
  items nil = []
  items (cons v vs) = v ∷ items vs

  -- Renders a float without a trailing `.0`.
  unfoldable pub format_number : F64 → Text
  unfolding show_ℤ
  format_number n =
      if f64_eq (f64_fract n) (f64_of 0) && f64_is_finite n && f64_lt (f64_abs n) (f64_of (10 ^ 15))
      then show_ℤ (f64_as_i64 n)
      else f64_to_string n

  unfoldable pub attribute_as_str : AttributeValue → Option Text
  attribute_as_str (AttributeValue.string s) = some s
  attribute_as_str _ = none

  unfoldable pub attribute_as_f64 : AttributeValue → Option F64
  attribute_as_f64 (AttributeValue.number n) = some n
  attribute_as_f64 _ = none

  unfoldable pub to_text : AttributeValue → Option Text
  unfolding format_number text
  to_text (AttributeValue.string s) = some s
  to_text (AttributeValue.bool b) = some (if b then text "true" else text "false")
  to_text (AttributeValue.number n) = some (format_number n)
  to_text (AttributeValue.list vs) = none

  unfoldable pub scalars : AttributeValue → List AttributeValue
  scalars (AttributeValue.list vs) = items vs
  scalars (AttributeValue.bool b) = AttributeValue.bool b ∷ []
  scalars (AttributeValue.number n) = AttributeValue.number n ∷ []
  scalars (AttributeValue.string s) = AttributeValue.string s ∷ []
