-- ===== src/Prelude/Lists.antt =====
-- Lists measured by native numbers, quantifiers over lists, and their Boolean tests.
use Prim.Native.Nat.{ℕ, zero, suc, ◌+◌}
use mathlib.Core.Path.{◌≡◌, refl, ap}
use mathlib.Core.Logic.{◌↔◌, inl, inr}
use mathlib.Core.Bool.{Bool, true, false, ◌&&◌, ◌||◌}
use mathlib.Core.List.{List, [], ◌∷◌, ◌++◌}
use mathlib.Core.Option.{Option, none, some}
use native.Mathlib.Omega.{arith}
use flagforge.Prelude.Tests.{Bool-cases}

module _ {ℓ} {A : Type ℓ} where
  abbrev pub length : List A → ℕ
  length [] = 0
  length (x ∷ xs) = suc (length xs)

  abbrev pub take : ℕ → List A → List A
  take zero xs = []
  take (suc n) [] = []
  take (suc n) (x ∷ xs) = x ∷ take n xs

  abbrev pub drop : ℕ → List A → List A
  drop zero xs = xs
  drop (suc n) [] = []
  drop (suc n) (x ∷ xs) = drop n xs

  abbrev pub get_elem? : List A → ℕ → Option A
  get_elem? [] i = none
  get_elem? (x ∷ xs) zero = some x
  get_elem? (x ∷ xs) (suc i) = get_elem? xs i

  -- `Vec::is_empty`.
  abbrev pub is_nil : List A → Bool
  is_nil [] = true
  is_nil (x ∷ xs) = false

  -- `Iterator::any` and `Iterator::all`.
  abbrev pub any : (A → Bool) → List A → Bool
  any p [] = false
  any p (x ∷ xs) = p x || any p xs

  abbrev pub all : (A → Bool) → List A → Bool
  all p [] = true
  all p (x ∷ xs) = p x && all p xs

  pub length-append : (xs ys : List A) → length (xs ++ ys) ≡ length xs + length ys
  length-append [] ys = omega arith
  length-append (x ∷ xs) ys = omega (arith, length-append xs ys)

  pub take-append-drop : (n : ℕ) (xs : List A) → take n xs ++ drop n xs ≡ xs
  take-append-drop zero xs = refl
  take-append-drop (suc n) [] = refl
  take-append-drop (suc n) (x ∷ xs) = ap (◌∷◌ x) (take-append-drop n xs)

  pub append-eq-nil : (xs ys : List A) → xs ++ ys ≡ [] → (xs ≡ []) × (ys ≡ [])
  append-eq-nil [] ys h = (refl, h)
  append-eq-nil (x ∷ xs) ys h = cc

  -- Two lists that start alike in length and agree as a whole agree in both parts.
  pub append-injective :
      (xs xs' ys ys' : List A)
      → length xs ≡ length xs'
      → xs ++ ys ≡ xs' ++ ys'
      → (xs ≡ xs') × (ys ≡ ys')
  append-injective [] [] ys ys' n h = (refl, h)
  append-injective [] (x ∷ xs') ys ys' n h = absurd (omega arith)
  append-injective (x ∷ xs) [] ys ys' n h = absurd (omega arith)
  append-injective (x ∷ xs) (x' ∷ xs') ys ys' n h =
      let tails : xs ++ ys ≡ xs' ++ ys' = cc in
      let rest = append-injective xs xs' ys ys' (omega arith) tails in
      (ground (arith, rest), rest.1)

module _ {ℓ κ} {A : Type ℓ} where
  -- A predicate that holds of every item.
  abbrev pub All : (A → Type κ) → List A → Type κ
  All P [] = Unit
  All P (x ∷ xs) = P x × All P xs

  pub All-append : (P : A → Type κ) (xs ys : List A) → All P (xs ++ ys) ↔ (All P xs × All P ys)
  All-append P [] ys = (λ h. (tt, h), λ h. h.1)
  All-append P (x ∷ xs) ys =
      let ih = All-append P xs ys in
      (λ h. ((h.0, (ih.0 h.1).0), (ih.0 h.1).1), λ h. (h.0.0, ih.1 (h.0.1, h.1)))

  pub All-mono : {P Q : A → Type κ} → ((a : A) → P a → Q a) → (xs : List A) → All P xs → All Q xs
  All-mono f [] h = tt
  All-mono f (x ∷ xs) h = (f x h.0, All-mono f xs h.1)

  -- A predicate that holds of some item, which its index finds.
  abbrev pub Some : (A → Type κ) → List A → Type (ℓ ⊔ κ)
  Some P xs = (i : ℕ) × (a : A) × (get_elem? xs i ≡ some a) × P a

  pub Some-cons : (P : A → Type κ) (x : A) (xs : List A) → Some P xs → Some P (x ∷ xs)
  Some-cons P x xs (i, a, at, p) = (suc i, a, at, p)

  pub All-get_elem? :
      (P : A → Type κ) (xs : List A) (i : ℕ) (a : A) → All P xs → get_elem? xs i ≡ some a → P a
  All-get_elem? P [] i a h e = cc
  All-get_elem? P (x ∷ xs) zero a h e = let same : x ≡ a = cc in rw (← same) h.0
  All-get_elem? P (x ∷ xs) (suc i) a h e = All-get_elem? P xs i a h.1 e

module _ {ℓ} {A : Type ℓ} (p : A → Bool) where
  pub any_sound : (xs : List A) → any p xs ≡ true → Some (λ a. p a ≡ true) xs
  any_sound [] h = cc
  any_sound (x ∷ xs) h = elim (Bool-cases (p x)) [
    | inl yes' ↦ (zero, x, refl, yes')
    | inr no' ↦ Some-cons (λ a. p a ≡ true) x xs (any_sound xs (rw no' at h))
  ]

  pub any_complete : (xs : List A) → Some (λ a. p a ≡ true) xs → any p xs ≡ true
  any_complete [] (i, a, at, h) = cc
  any_complete (x ∷ xs) (zero, a, at, h) = let same : x ≡ a = cc in rw (same, h)
  any_complete (x ∷ xs) (suc i, a, at, h) = ground (arith, any_complete xs (i, a, at, h))

  pub any_iff : (xs : List A) → (any p xs ≡ true) ↔ Some (λ a. p a ≡ true) xs
  any_iff xs = (any_sound xs, any_complete xs)

  pub any-eq-false_iff : (xs : List A) → (any p xs ≡ false) ↔ All (λ a. p a ≡ false) xs
  any-eq-false_iff [] = ground arith
  any-eq-false_iff (x ∷ xs) = ground (arith, any-eq-false_iff xs)

  pub all_iff : (xs : List A) → (all p xs ≡ true) ↔ All (λ a. p a ≡ true) xs
  all_iff [] = ground arith
  all_iff (x ∷ xs) = ground (arith, all_iff xs)
