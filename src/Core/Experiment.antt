-- ===== src/Core/Experiment.antt =====
-- crates/core/src/experiment.rs: the judgement of an experiment's counts. The arithmetic of `f64` is
-- a parameter, and its constants are given by their decimal digits.
pub mod Verdicts
use flagforge.Prelude.{
  ℕ, Bool, true, false, ◌&&◌, Option, none, some, List, [], ◌∷◌, map, ltb, if◌then◌else◌, min,
  ◌>>=◌,
}
use flagforge.Prelude.Int.{ℤ, pos, negsuc}
use flagforge.Text.{Text, text_eq}

pub record VariantCounts : Type 0 where
  pub variant : Text
  pub exposures : ℕ
  pub conversions : ℕ

-- The operations of `f64`. `lit m e` is the literal of value m / 10^e.
pub record Floats : Type 1 where
  pub F64 : Type 0
  pub lit : ℕ → ℕ → F64
  pub add : F64 → F64 → F64
  pub sub : F64 → F64 → F64
  pub mul : F64 → F64 → F64
  pub div : F64 → F64 → F64
  pub neg : F64 → F64
  pub abs : F64 → F64
  pub sqrt : F64 → F64
  pub exp : F64 → F64
  pub clamp : F64 → F64 → F64 → F64
  pub lt : F64 → F64 → Bool
  pub le : F64 → F64 → Bool
  pub of_u64 : ℕ → F64
  pub sqrt_2 : F64

module _ ⦃x : Floats⦄ where
  open x use {F64, lit, add, sub, mul, div, neg, abs, sqrt, exp, clamp, lt, le, of_u64, sqrt_2}

  abbrev pub one : F64
  one = lit 1 0

  abbrev pub alpha : F64
  alpha = lit 5 2

  abbrev z_95 : F64
  z_95 = lit 1959963984540054 15

  pub record ConfidenceInterval : Type 0 where
    pub low : F64
    pub high : F64

  pub record Comparison : Type 0 where
    pub lift : F64
    pub z : F64
    pub p_value : F64
    pub significant : Bool

  pub record VariantResult : Type 0 where
    pub variant : Text
    pub exposures : ℕ
    pub conversions : ℕ
    pub rate : Option F64
    pub interval : Option ConfidenceInterval
    pub vs_control : Option Comparison

  unfoldable pub observed : VariantCounts → Option (F64 × F64)
  observed c =
      if ltb 0 c.exposures
      then some (of_u64 (min c.conversions c.exposures), of_u64 c.exposures)
      else none

  unfoldable pub wilson : F64 → F64 → ConfidenceInterval
  wilson rate n =
      let z2 = mul z_95 z_95 in
      let denominator = add one (div z2 n) in
      let center = div (add rate (div z2 (mul (lit 2 0) n))) denominator in
      let half_width =
        mul (div z_95 denominator)
          (sqrt (add (div (mul rate (sub one rate)) n) (div z2 (mul (mul (lit 4 0) n) n)))) in
      record {
        low = clamp (sub center half_width) (lit 0 0) rate;
        high = clamp (add center half_width) rate one;
      }

  -- Horner's scheme from the inside out.
  abbrev erf_polynomial : F64 → F64
  erf_polynomial t =
      let c5 = mul t (lit 1061405429 9) in
      let c4 = mul t (add (neg (lit 1453152027 9)) c5) in
      let c3 = mul t (add (lit 1421413741 9) c4) in
      let c2 = mul t (add (neg (lit 284496736 9)) c3) in mul t (add (lit 254829592 9) c2)

  unfoldable pub erf : F64 → F64
  erf v =
      let sign = if lt v (lit 0 0) then neg one else one in
      let w = abs v in
      let t = div one (add one (mul (lit 3275911 7) w)) in
      mul sign (sub one (mul (erf_polynomial t) (exp (mul (neg w) w))))

  unfoldable pub phi : F64 → F64
  unfolding erf
  phi v = mul (lit 5 1) (add one (erf (div v sqrt_2)))

  unfoldable pub two_proportion_z : F64 × F64 → F64 × F64 → Option Comparison
  unfolding phi
  two_proportion_z (x1, n1) (x2, n2) =
      let pooled = div (add x1 x2) (add n1 n2) in
      let variance = mul (mul pooled (sub one pooled)) (add (div one n1) (div one n2)) in
      let lift = sub (div x1 n1) (div x2 n2) in
      let z = div lift (sqrt variance) in
      let p_value = mul (lit 2 0) (sub one (phi (abs z))) in
      if le variance (lit 0 0)
      then none
      else some (record { lift = lift; z = z; p_value = p_value; significant = lt p_value alpha })

  -- `counts.iter().find(..)`.
  unfoldable pub find_control : Text → List VariantCounts → Option VariantCounts
  find_control control_variant [] = none
  find_control control_variant (c ∷ counts) =
      if text_eq c.variant control_variant then some c else find_control control_variant counts

  abbrev pub compared : Option (F64 × F64) → Option (F64 × F64) → Option Comparison
  compared (some own) (some control) = two_proportion_z own control
  compared _ _ = none

  abbrev rate_of : Option (F64 × F64) → Option F64
  rate_of none = none
  rate_of (some (v, n)) = some (div v n)

  abbrev interval_of : Option (F64 × F64) → Option ConfidenceInterval
  interval_of none = none
  interval_of (some (v, n)) = some (wilson (div v n) n)

  unfoldable pub judge : Text → Option (F64 × F64) → VariantCounts → VariantResult
  unfolding observed wilson two_proportion_z
  judge control_variant control c =
      let own = observed c in
      record {
        variant = c.variant;
        exposures = c.exposures;
        conversions = c.conversions;
        rate = rate_of own;
        interval = interval_of own;
        vs_control = if text_eq c.variant control_variant then none else compared own control;
      }

  unfoldable pub results : Text → List VariantCounts → List VariantResult
  unfolding find_control judge
  results control_variant counts =
      map (judge control_variant (find_control control_variant counts >>= observed)) counts
