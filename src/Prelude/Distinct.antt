-- ===== src/Prelude/Distinct.antt =====
-- Lists without repetition, as a loop over a set of what was seen finds them.
use mathlib.Core.Path.{◌≡◌, refl}
use mathlib.Core.Logic.{◌≢◌, ◌↔◌}
use mathlib.Core.Bool.{Bool, true, false}
use mathlib.Core.List.{List, [], ◌∷◌}
use native.Mathlib.Omega.{arith}
use flagforge.Prelude.Lists.{All, any}

abbrev pub Distinct {ℓ} : {A : Type ℓ} → List A → Type ℓ
Distinct [] = Unit
Distinct (k ∷ ks) = All (λ j. j ≢ k) ks × Distinct ks

module _ {ℓ} {A : Type ℓ} (eqb : A → A → Bool) where
  -- No item was seen before, where `seen` grows by each.
  abbrev pub Fresh : List A → List A → Type ℓ
  Fresh seen [] = Unit
  Fresh seen (k ∷ ks) = (any (eqb k) seen ≡ false) × Fresh (k ∷ seen) ks

  module _ (eqb_iff : (a b : A) → (eqb a b ≡ true) ↔ (a ≡ b)) where
    unseen-cons :
        (k : A) (seen ks : List A)
        → All (λ j. any (eqb j) (k ∷ seen) ≡ false) ks
          ↔ (All (λ j. j ≢ k) ks × All (λ j. any (eqb j) seen ≡ false) ks)
    unseen-cons k seen [] = ground arith
    unseen-cons k seen (j ∷ ks) = ground (arith, unseen-cons k seen ks, eqb_iff j k)

    pub Fresh-iff :
        (seen ks : List A) → Fresh seen ks ↔ (All (λ j. any (eqb j) seen ≡ false) ks × Distinct ks)
    Fresh-iff seen [] = ground arith
    Fresh-iff seen (k ∷ ks) =
        let ih = Fresh-iff (k ∷ seen) ks in
        let step = unseen-cons k seen ks in
        (
          λ h. let p = ih.0 h.1 in let q = step.0 p.0 in ((h.0, q.1), (q.0, p.1)),
          λ h. (h.0.0, ih.1 (step.1 (h.1.0, h.0.1), h.1.1)),
        )

    All-any_nil : (ks : List A) → All (λ j. any (eqb j) [] ≡ false) ks
    All-any_nil [] = tt
    All-any_nil (k ∷ ks) = (refl, All-any_nil ks)

    pub Fresh-nil_iff : (ks : List A) → Fresh [] ks ↔ Distinct ks
    Fresh-nil_iff ks =
        let all = Fresh-iff [] ks in (λ h. (all.0 h).1, λ d. all.1 (All-any_nil ks, d))
