-- ===== src/Core/Experiment/Verdicts.antt =====
-- What the results of crates/core/src/experiment.rs say of each variant.
use flagforge.Prelude.{
  ◌≡◌, ◌≢◌, refl, ap, Bool, true, false, not, ◌&&◌, Option, none, some, List, [], ◌∷◌, ◌++◌, map,
  ltb, min, arith, is_some, if◌then◌else◌, ◌>>=◌, All, inl, inr, Bool-cases,
}
use flagforge.Text.{Text, text_eq, text_eq_iff}
use flagforge.Core.Experiment.{
  VariantCounts, Floats, Comparison, VariantResult, alpha, one, phi, wilson, compared, observed,
  find_control, judge, results, two_proportion_z,
}

-- The control is the first of the counts with the control's key, if there is one.
abbrev pub IsControl : Text → List VariantCounts → Option VariantCounts → Type 0
IsControl key counts none = All (λ c. c.variant ≢ key) counts
IsControl key counts (some control) =
    (before : List VariantCounts) × (after : List VariantCounts) × (counts
      ≡ before ++ control ∷ after)
    × All (λ c. c.variant ≢ key) before
    × (control.variant ≡ key)

module _ ⦃x : Floats⦄ where
  open x use {add, sub, mul, div, sqrt, abs, lit, lt, le, of_u64}

  -- The conversions, no more than the exposures, and the share that they are of the exposures.
  abbrev pub converted : VariantCounts → x.F64
  converted c = of_u64 (min c.conversions c.exposures)

  abbrev pub share : VariantCounts → x.F64
  share c = div (converted c) (of_u64 c.exposures)

  -- The variance of the difference of two shares, from the share of both taken together.
  abbrev pub variance : VariantCounts → VariantCounts → x.F64
  variance c d =
      let n = of_u64 c.exposures in
      let m = of_u64 d.exposures in
      let pooled = div (add (converted c) (converted d)) (add n m) in
      mul (mul pooled (sub one pooled)) (add (div one n) (div one m))

  -- A variant can be compared that is not the control, if both have an exposure and the variance is not
  -- at most 0.
  abbrev pub comparable : Text → Option VariantCounts → VariantCounts → Bool
  comparable key none c = false
  comparable key (some control) c =
      not (text_eq c.variant key)
      && ltb 0 c.exposures
      && ltb 0 control.exposures
      && not (le (variance c control) (lit 0 0))

  -- The comparison of a variant with a control.
  pub record Compares (control c : VariantCounts) (d : Comparison) : Type 0 where
    pub lift : d.lift ≡ sub (share c) (share control)
    pub z : d.z ≡ div d.lift (sqrt (variance c control))
    pub p_value : d.p_value ≡ mul (lit 2 0) (sub one (phi (abs d.z)))
    pub significant : d.significant ≡ lt d.p_value alpha

  -- A comparison, if there is one, is with the control.
  abbrev pub Compared : Option VariantCounts → VariantCounts → Option Comparison → Type 0
  Compared control c none = Unit
  Compared none c (some d) = ⊥
  Compared (some control) c (some d) = Compares control c d

  -- What is reported of a variant.
  pub record IsVerdict (key : Text) (control : Option VariantCounts) (c : VariantCounts)
      (r : VariantResult) : Type 0 where
    pub variant : r.variant ≡ c.variant
    pub exposures : r.exposures ≡ c.exposures
    pub conversions : r.conversions ≡ c.conversions
    pub rate : r.rate ≡ (if ltb 0 c.exposures then some (share c) else none)
    pub interval :
        r.interval
        ≡ (if ltb 0 c.exposures then some (wilson (share c) (of_u64 c.exposures)) else none)
    pub is_compared : is_some r.vs_control ≡ comparable key control c
    pub comparison : Compared control c r.vs_control

  -- A verdict for each variant, in the order of the counts.
  abbrev pub Verdicts :
      Text → Option VariantCounts → List VariantCounts → List VariantResult → Type 0
  Verdicts key control [] [] = Unit
  Verdicts key control (c ∷ counts) (r ∷ rs) =
      IsVerdict key control c r × Verdicts key control counts rs
  Verdicts key control _ _ = ⊥

  find_control-IsControl :
      (key : Text) (counts : List VariantCounts) → IsControl key counts (find_control key counts)
  unfolding find_control
  find_control-IsControl key [] = tt
  find_control-IsControl key (c ∷ counts) = elim (Bool-cases (text_eq c.variant key)) [
    | inl here ↦ rw (here, find_control) ([], counts, refl, tt, (text_eq_iff c.variant key).0 here)
    | inr other ↦
        rw (other, find_control)
          (later (find_control key counts) other (find_control-IsControl key counts))
  ]
    where
      later :
          (o : Option VariantCounts)
          → text_eq c.variant key ≡ false
          → IsControl key counts o
          → IsControl key (c ∷ counts) o
      later none other h = ((λ e. cc ((text_eq_iff c.variant key).1 e, other)), h)
      later (some control) other (before, after, e, h, same) = (
        c ∷ before,
        after,
        ap (λ cs. c ∷ cs) e,
        ((λ e'. cc ((text_eq_iff c.variant key).1 e', other)), h),
        same,
      )

  two_proportion_z-Compares :
      (control c : VariantCounts)
      → let o =
          two_proportion_z
            (converted c, of_u64 c.exposures)
            (converted control, of_u64 control.exposures) in
        (is_some o ≡ not (le (variance c control) (lit 0 0))) × Compared (some control) c o
  unfolding two_proportion_z
  two_proportion_z-Compares control c = elim (Bool-cases (le (variance c control) (lit 0 0))) [
    | inl flat ↦ rw (flat) (refl, tt)
    | inr spread ↦
        rw (spread) (refl, record { lift = refl; z = refl; p_value = refl; significant = refl })
  ]

  compared-Compared :
      (key : Text) (control : Option VariantCounts) (c : VariantCounts)
      → text_eq c.variant key ≡ false
      → let o = compared (observed c) (control >>= observed) in
        (is_some o ≡ comparable key control c) × Compared control c o
  unfolding observed
  compared-Compared key none c other = elim (Bool-cases (ltb 0 c.exposures)) [
    | inl shown ↦ rw (shown) (refl, tt)
    | inr bare ↦ rw (bare) (refl, tt)
  ]
  compared-Compared key (some control) c other = elim (Bool-cases (ltb 0 c.exposures)) [
    | inr bare ↦ rw (bare, other) (refl, tt)
    | inl shown ↦ elim (Bool-cases (ltb 0 control.exposures)) [
      | inr bare ↦ rw (shown, bare, other) (refl, tt)
      | inl both ↦ rw (shown, both, other) (two_proportion_z-Compares control c)
    ]
  ]

  vs_control-Compared :
      (key : Text) (control : Option VariantCounts) (c : VariantCounts)
      → let o = (judge key (control >>= observed) c).vs_control in
        (is_some o ≡ comparable key control c) × Compared control c o
  unfolding judge
  vs_control-Compared key control c = elim (Bool-cases (text_eq c.variant key)) [
    | inr other ↦ rw (other, judge) (compared-Compared key control c other)
    | inl own ↦ own_control control own
  ]
    where
      own_control :
          (o : Option VariantCounts)
          → text_eq c.variant key ≡ true
          → (is_some (judge key (o >>= observed) c).vs_control ≡ comparable key o c)
            × Compared o c (judge key (o >>= observed) c).vs_control
      own_control none own = rw (own, judge) (refl, tt)
      own_control (some e) own = rw (own, judge) (refl, tt)

  judge-IsVerdict :
      (key : Text) (control : Option VariantCounts) (c : VariantCounts)
      → IsVerdict key control c (judge key (control >>= observed) c)
  unfolding judge observed
  judge-IsVerdict key control c =
      let (is_compared, comparison) = vs_control-Compared key control c in
      record {
        variant = refl;
        exposures = refl;
        conversions = refl;
        rate = ground arith;
        interval = ground arith;
        is_compared = is_compared;
        comparison = comparison;
      }

  map-Verdicts :
      (key : Text) (control : Option VariantCounts) (counts : List VariantCounts)
      → Verdicts key control counts (map (judge key (control >>= observed)) counts)
  map-Verdicts key control [] = tt
  map-Verdicts key control (c ∷ counts) =
      (judge-IsVerdict key control c, map-Verdicts key control counts)

  -- The results are verdicts on the counts in their order, against the control, the first of the
  -- counts with the key of the control if there is one: the counts as they are; the share of the
  -- exposures that are converted and its interval, exactly for a variant with an exposure; and a
  -- comparison, exactly of a variant other than the control where both have an exposure and the
  -- variance is not at most 0, with the difference of the two shares, its z-score and p-value, and
  -- significant exactly if the p-value is below alpha.
  pub results-Verdicts :
      (control_variant : Text) (counts : List VariantCounts)
      → (control : Option VariantCounts) × IsControl control_variant counts control
        × Verdicts control_variant control counts (results control_variant counts)
  unfolding results
  results-Verdicts control_variant counts =
      let control = find_control control_variant counts in
      (
        control,
        find_control-IsControl control_variant counts,
        map-Verdicts control_variant control counts,
      )
