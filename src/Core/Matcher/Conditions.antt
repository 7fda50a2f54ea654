-- ===== src/Core/Matcher/Conditions.antt =====
-- What `condition_matches` of crates/core/src/matcher.rs decides, described without its loops.
use flagforge.Prelude.{
  ◌≡◌, ◌≢◌, refl, ◌↔◌, ◌⊎◌, inl, inr, true, false, Option, none, some, List, [], ◌∷◌, arith, any,
  Some, All, any_iff, any-eq-false_iff, Option-cases,
}
use flagforge.Prelude.Iff.{if-negated_iff, ↔-trans, Some-iff, All-iff}
use flagforge.Text.{Text}
use flagforge.Extern.{Extern}
use flagforge.Core.Value.{AttributeValue, attribute_as_str, scalars}
use flagforge.Core.Context.{EvaluationContext, attribute}
use flagforge.Core.Flag.{Operator, exists, not_exists, not_matches, matches, is_negated, Condition}
use flagforge.Core.Matcher.{
  positive_counterpart, compare, any_match, present_matches, decide, condition_matches, compiled,
}

module _ ⦃x : Extern⦄ where
  -- Some item of the attribute compares with some value, and no item does with any.
  abbrev pub SomePair : Operator → List AttributeValue → List AttributeValue → Type 0
  SomePair op actuals values = Some (λ a. Some (λ e. compare op a e ≡ true) values) actuals

  abbrev pub NoPair : Operator → List AttributeValue → List AttributeValue → Type 0
  NoPair op actuals values = All (λ a. All (λ e. compare op a e ≡ false) values) actuals

  any_match_iff :
      (op : Operator) (actuals values : List AttributeValue)
      → (any_match op actuals values ≡ true) ↔ SomePair op actuals values
  unfolding any_match
  any_match_iff op actuals values =
      ↔-trans (any_iff (λ a. any (λ e. compare op a e) values) actuals) (
        Some-iff (λ a. any (λ e. compare op a e) values ≡ true) _
          (λ a. any_iff (λ e. compare op a e) values) actuals)

  any_match-eq-false_iff :
      (op : Operator) (actuals values : List AttributeValue)
      → (any_match op actuals values ≡ false) ↔ NoPair op actuals values
  unfolding any_match
  any_match-eq-false_iff op actuals values =
      ↔-trans (any-eq-false_iff (λ a. any (λ e. compare op a e) values) actuals) (
        All-iff (λ a. any (λ e. compare op a e) values ≡ false) _
          (λ a. any-eq-false_iff (λ e. compare op a e) values) actuals)

  -- What a condition with an attribute, an operator and values means for the value of the attribute.
  abbrev pub Meets : Operator → AttributeValue → List AttributeValue → Type 0
  Meets op actual values =
      (values ≢ [])
      × ((is_negated op ≡ false) × SomePair (positive_counterpart op) (scalars actual) values
          ⊎ (is_negated op ≡ true) × NoPair (positive_counterpart op) (scalars actual) values)

  present_matches_iff :
      (op : Operator) (actual : AttributeValue) (values : List AttributeValue)
      → (present_matches op actual values ≡ true) ↔ Meets op actual values
  unfolding present_matches
  present_matches_iff op actual [] = ground arith
  present_matches_iff op actual (v ∷ vs) =
      let pairs =
        if-negated_iff (is_negated op)
          (any_match (positive_counterpart op) (scalars actual) (v ∷ vs))
          (any_match_iff (positive_counterpart op) (scalars actual) (v ∷ vs))
          (any_match-eq-false_iff (positive_counterpart op) (scalars actual) (v ∷ vs)) in
      (λ h. (λ e. cc, pairs.0 h), λ m. pairs.1 m.1)

  -- When an operator holds of an attribute that may be missing.
  pub data Holds (op : Operator) (present : Option AttributeValue) (values : List AttributeValue)
      : Type 0 where
    there : op ≡ exists → present ≢ none → Holds op present values
    missing : op ≡ not_exists → present ≡ none → Holds op present values
    meets :
        (actual : AttributeValue)
        → op ≢ exists
        → op ≢ not_exists
        → present ≡ some actual
        → Meets op actual values
        → Holds op present values

  decide_sound :
      (op : Operator) (present : Option AttributeValue) (values : List AttributeValue)
      → decide op present values ≡ true
      → Holds op present values
  unfolding decide
  decide_sound exists present values h = there refl (λ e. ground arith)
  decide_sound not_exists present values h = missing refl (ground arith)
  decide_sound op none values h = cc
  decide_sound op (some actual) values h =
      meets actual (λ e. cc) (λ e. cc) refl ((present_matches_iff op actual values).0 h)

  decide_complete :
      (op : Operator) (present : Option AttributeValue) (values : List AttributeValue)
      → Holds op present values
      → decide op present values ≡ true
  unfolding decide
  decide_complete exists present values (there e p) = ground arith
  decide_complete exists present values (missing e p) = cc
  decide_complete exists present values (meets actual ne nn e m) = absurd (ne refl)
  decide_complete not_exists present values (there e p) = cc
  decide_complete not_exists present values (missing e p) = rw p
  decide_complete not_exists present values (meets actual ne nn e m) = absurd (nn refl)
  decide_complete op none values (there e p) = cc
  decide_complete op none values (missing e p) = cc
  decide_complete op none values (meets actual ne nn e m) = cc
  decide_complete op (some actual) values (there e p) = cc
  decide_complete op (some actual) values (missing e p) = cc
  decide_complete op (some actual) values (meets actual' ne nn e m) =
      let same : actual ≡ actual' = cc in (present_matches_iff op actual values).1 (rw same m)

  -- A condition matches exactly if its operator holds of the attribute that it names: presence or
  -- absence for `exists` and `not_exists`; otherwise the attribute is there, there is a value, and
  -- some item of the attribute compares with some value, or none does with any if the operator is
  -- negated.
  pub condition_matches_iff :
      (c : Condition) (ctx : EvaluationContext)
      → (condition_matches c ctx ≡ true) ↔ Holds c.operator (attribute ctx c.attribute) c.values
  unfolding condition_matches
  condition_matches_iff c ctx = (
    decide_sound c.operator (attribute ctx c.attribute) c.values,
    decide_complete c.operator (attribute ctx c.attribute) c.values,
  )

  -- No pattern among the values compiles.
  abbrev pub NoneCompile : List AttributeValue → Type 0
  NoneCompile values =
      All (λ e. (p : Text) → attribute_as_str e ≡ some p → compiled p ≡ none) values

  compare-matches :
      (a e : AttributeValue)
      → ((p : Text) → attribute_as_str e ≡ some p → compiled p ≡ none)
      → compare matches a e ≡ false
  unfolding compare
  compare-matches a e h = elim (Option-cases (attribute_as_str e)) [
    | inl absent ↦ ground arith
    | inr (p, given) ↦ ground (arith, h p given)
  ]

  NoneCompile-NoPair :
      (actuals values : List AttributeValue) → NoneCompile values → NoPair matches actuals values
  NoneCompile-NoPair [] values h = tt
  NoneCompile-NoPair (a ∷ actuals) values h = (within values h, NoneCompile-NoPair actuals values h)
    where
      within :
          (vs : List AttributeValue) → NoneCompile vs → All (λ e. compare matches a e ≡ false) vs
      within [] h = tt
      within (e ∷ vs) h = (compare-matches a e h.0, within vs h.1)

  present_matches_silent :
      (actual : AttributeValue) (values : List AttributeValue)
      → values ≢ []
      → any_match matches (scalars actual) values ≡ false
      → (present_matches matches actual values ≡ false)
        × (present_matches not_matches actual values ≡ true)
  unfolding present_matches is_negated positive_counterpart
  present_matches_silent actual values given silent = ground arith

  -- If no pattern of a condition compiles, there is at least one value and the context has the
  -- attribute, then `matches` does not match and `not_matches` does.
  pub condition_matches_uncompiled :
      (c : Condition) (ctx : EvaluationContext) {actual : AttributeValue}
      → attribute ctx c.attribute ≡ some actual
      → c.values ≢ []
      → NoneCompile c.values
      → (condition_matches (record c { operator = matches }) ctx ≡ false)
        × (condition_matches (record c { operator = not_matches }) ctx ≡ true)
  unfolding condition_matches
  condition_matches_uncompiled c ctx {actual} present given no_pattern =
      let silent = present_matches_silent actual c.values given (
        (any_match-eq-false_iff matches (scalars actual) c.values).1
          (NoneCompile-NoPair (scalars actual) c.values no_pattern)) in
      (rw present silent.0, rw present silent.1)
