-- ===== src/Core/Checks/Conditions.antt =====
-- What the checks of conditions in crates/core/src/validate.rs accept.
use flagforge.Prelude.{
  ℕ, ◌+◌, ◌≡◌, ◌≢◌, refl, ◌↔◌, inl, inr, Bool, true, false, ◌&&◌, some, List, [], ◌∷◌, All, is_nil,
  if◌then◌else◌, ok, Result-cases, Option-cases,
}
use flagforge.Prelude.Iff.{↔-trans}
use flagforge.Text.{Text, is_blank}
use flagforge.Extern.{Extern}
use flagforge.Core.Value.{AttributeValue, attribute_as_str}
use flagforge.Core.Flag.{takes_values, Condition}
use flagforge.Core.Checks.Accepts.{unless_iff, unless-not_iff, both_iff}
use flagforge.Core.Checks.{
  is_regex_operator, check_pattern, check_patterns, check_condition, check_conditions,
}

module _ ⦃x : Extern⦄ where
  -- A value that is a string and compiles.
  abbrev pub IsPattern : AttributeValue → Type 0
  IsPattern v =
      (p : Text) × (attribute_as_str v ≡ some p) × ((re : x.Regex) × (x.regex_new p ≡ ok re))

  check_pattern_iff :
      (v : AttributeValue) (path : Text)
      → (check_pattern (attribute_as_str v) path ≡ []) ↔ IsPattern v
  check_pattern_iff v path = elim (Option-cases (attribute_as_str v)) [
    | inl absent ↦ rw absent (λ h. cc ((unless_iff false path _).0 h), λ h. cc (h.1))
    | inr (p, given) ↦ elim (Result-cases (x.regex_new p)) [
      | inl (re, good) ↦ (λ h. (p, given, (re, good)), λ h. rw (given, good) refl)
      | inr (e, bad) ↦ (
        λ h. cc ((unless_iff false path _).0 (rw (given, bad) at h)),
        λ h. let same : h.0 ≡ p = cc (h.1) in let good = h.2.1 in cc (rw same at good),
      )
    ]
  ]

  check_patterns_iff :
      (path : Text) (k : ℕ) (vs : List AttributeValue)
      → (check_patterns path k vs ≡ []) ↔ All IsPattern vs
  unfolding check_patterns
  check_patterns_iff path k [] = (λ h. tt, λ h. refl)
  check_patterns_iff path k (v ∷ vs) =
      both_iff _ _ (check_pattern_iff v _) (check_patterns_iff path (k + 1) vs)

  -- A condition names its attribute, has a value if its operator takes any, and has patterns that
  -- compile if its operator is a regular expression's.
  pub record IsCondition (c : Condition) : Type 0 where
    pub named : is_blank c.attribute ≡ false
    pub some_value : takes_values c.operator ≡ true → c.values ≢ []
    pub patterns : is_regex_operator c.operator ≡ true → All IsPattern c.values

  some_value_iff :
      (t : Bool) (vs : List AttributeValue) → ((t && is_nil vs) ≡ false) ↔ (t ≡ true → vs ≢ [])
  some_value_iff true [] = (λ h. cc, λ h. absurd (h refl refl))
  some_value_iff true (v ∷ vs) = (λ h e e'. cc, λ h. refl)
  some_value_iff false vs = (λ h e e'. cc, λ h. refl)

  patterns_iff :
      (b : Bool) (path : Text) (vs : List AttributeValue)
      → ((if b then check_patterns path 0 vs else []) ≡ []) ↔ (b ≡ true → All IsPattern vs)
  patterns_iff true path vs =
      let all' = check_patterns_iff path 0 vs in (λ h e. all'.0 h, λ h. all'.1 (h refl))
  patterns_iff false path vs = (λ h e. cc, λ h. refl)

  check_condition_iff :
      (path : Text) (c : Condition) → (check_condition path c ≡ []) ↔ IsCondition c
  unfolding check_condition
  check_condition_iff path c =
      ↔-trans
        (both_iff _ _
          (both_iff _ _ (unless-not_iff (is_blank c.attribute) _ _) (
            ↔-trans (unless-not_iff (takes_values c.operator && is_nil c.values) _ _)
              (some_value_iff (takes_values c.operator) c.values)))
          (patterns_iff (is_regex_operator c.operator) path c.values))
        (
          λ h. record { named = h.0.0; some_value = h.0.1; patterns = h.1 },
          λ r. ((r.named, r.some_value), r.patterns),
        )

  pub check_conditions_iff :
      (prefix : Text) (j : ℕ) (cs : List Condition)
      → (check_conditions prefix j cs ≡ []) ↔ All IsCondition cs
  unfolding check_conditions
  check_conditions_iff prefix j [] = (λ h. tt, λ h. refl)
  check_conditions_iff prefix j (c ∷ cs) =
      both_iff _ _ (check_condition_iff _ c) (check_conditions_iff prefix (j + 1) cs)
