-- ===== src/Core/Context.antt =====
-- crates/core/src/context.rs: the subject that a flag is evaluated for.
use flagforge.Prelude.{Option, none, some, []}
use flagforge.Text.{Text}
use flagforge.TextMap.{TextMap, lookup, insert}
use flagforge.Extern.{Extern}
use flagforge.Core.Value.{AttributeValue, to_text}

module _ ⦃x : Extern⦄ where
  pub record EvaluationContext : Type 0 where
    pub key : Text
    pub attributes : TextMap AttributeValue

  unfoldable pub new : Text → EvaluationContext
  new key = record { key = key; attributes = [] }

  unfoldable pub with : EvaluationContext → Text → AttributeValue → EvaluationContext
  unfolding insert
  with ctx name value = record ctx { attributes = insert name value ctx.attributes }

  unfoldable pub attribute : EvaluationContext → Text → Option AttributeValue
  unfolding lookup
  attribute ctx name = lookup name ctx.attributes

  -- `Option::and_then(AttributeValue::to_text)`.
  abbrev and_to_text : Option AttributeValue → Option Text
  and_to_text none = none
  and_to_text (some v) = to_text v

  -- The string that a rollout hashes on: the named attribute or, by default, the context's key.
  unfoldable pub bucketing_subject : EvaluationContext → Option Text → Option Text
  unfolding lookup
  bucketing_subject ctx none = some ctx.key
  bucketing_subject ctx (some name) = and_to_text (lookup name ctx.attributes)
