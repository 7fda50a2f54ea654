-- ===== src/Prelude/Iff.antt =====
-- Boolean code and what it means, put together part by part.
use mathlib.Core.Path.{◌≡◌, refl}
use mathlib.Core.Logic.{◌↔◌, ◌⊎◌, ◌≢◌, inl, inr}
use mathlib.Core.Bool.{Bool, true, false, not, ◌&&◌, ◌||◌}
use mathlib.Core.List.{List, [], ◌∷◌}
use native.Mathlib.Omega.{arith}
use flagforge.Prelude.Tests.{if◌then◌else◌}
use flagforge.Prelude.Lists.{All, Some, is_nil}

module _ {ℓ κ} {P : Type ℓ} {Q : Type κ} where
  pub and_iff : (a b : Bool) → (a ≡ true) ↔ P → (b ≡ true) ↔ Q → ((a && b) ≡ true) ↔ (P × Q)
  and_iff true b p q = (λ h. (p.0 refl, q.0 h), λ h. q.1 h.1)
  and_iff false b p q = (λ h. cc, λ h. p.1 h.0)

  pub or_iff : (a b : Bool) → (a ≡ true) ↔ P → (b ≡ true) ↔ Q → ((a || b) ≡ true) ↔ (P ⊎ Q)
  or_iff true b p q = (λ h. inl (p.0 refl), λ h. refl)
  or_iff false b p q = (λ h. inr (q.0 h), λ h. elim h [ inl l ↦ cc (p.1 l) | inr r ↦ q.1 r ])

  pub if-negated_iff :
      (n m : Bool)
      → (m ≡ true) ↔ P
      → (m ≡ false) ↔ Q
      → ((if n then not m else m) ≡ true) ↔ ((n ≡ false) × P ⊎ (n ≡ true) × Q)
  if-negated_iff true m p q = (
    λ h. inr (refl, q.0 (ground arith)),
    λ d. elim d [ inl (e, h) ↦ cc | inr (e, h) ↦ rw (q.1 h) ],
  )
  if-negated_iff false m p q =
      (λ h. inl (refl, p.0 h), λ d. elim d [ inl (e, h) ↦ p.1 h | inr (e, h) ↦ cc ])

module _ {ℓ} {P : Type ℓ} where
  pub not_iff : (b : Bool) → (b ≡ false) ↔ P → (not b ≡ true) ↔ P
  not_iff true p = (λ h. cc, λ h. cc (p.1 h))
  not_iff false p = (λ h. p.0 refl, λ h. refl)

  -- An early `return false`, and an early `return true`.
  pub return-false_iff :
      (b c : Bool) → (c ≡ true) ↔ P → ((if b then false else c) ≡ true) ↔ ((b ≡ false) × P)
  return-false_iff true c p = (λ h. cc, λ h. cc (h.0))
  return-false_iff false c p = (λ h. (refl, p.0 h), λ h. p.1 h.1)

  pub return-true_iff :
      (b c : Bool) → (c ≡ true) ↔ P → ((if b then true else c) ≡ true) ↔ ((b ≡ true) ⊎ P)
  return-true_iff true c p = (λ h. inl refl, λ h. refl)
  return-true_iff false c p = (λ h. inr (p.0 h), λ h. elim h [ inl e ↦ cc | inr r ↦ p.1 r ])

pub is_nil_iff {ℓ} : {A : Type ℓ} (xs : List A) → (is_nil xs ≡ true) ↔ (xs ≡ [])
is_nil_iff [] = ground arith
is_nil_iff (x ∷ xs) = ground arith

pub ↔-trans {ℓ κ μ} : {P : Type ℓ} {Q : Type κ} {R : Type μ} → P ↔ Q → Q ↔ R → P ↔ R
↔-trans f g = (λ p. g.0 (f.0 p), λ r. f.1 (g.1 r))

module _ {ℓ κ} {A : Type ℓ} (P Q : A → Type κ) (f : (a : A) → P a ↔ Q a) where
  pub All-iff : (xs : List A) → All P xs ↔ All Q xs
  All-iff [] = (λ h. h, λ h. h)
  All-iff (a ∷ xs) =
      let ih = All-iff xs in (λ h. ((f a).0 h.0, ih.0 h.1), λ h. ((f a).1 h.0, ih.1 h.1))

  pub Some-iff : (xs : List A) → Some P xs ↔ Some Q xs
  Some-iff xs = (λ (i, a, at, p). (i, a, at, (f a).0 p), λ (i, a, at, q). (i, a, at, (f a).1 q))

pub is_nil-eq-false_iff {ℓ} : {A : Type ℓ} (xs : List A) → (is_nil xs ≡ false) ↔ (xs ≢ [])
is_nil-eq-false_iff [] = (λ h. cc, λ h. absurd (h refl))
is_nil-eq-false_iff (x ∷ xs) = (λ h e. cc, λ h. refl)
