-- ===== src/Prelude/Int.antt =====
-- Rust's `i64` as an integer, with the order that `max` uses. No arithmetic on it is modelled here.
use flagforge.Prelude.Tests.{leb, if◌then◌else◌}
use Prim.Native.Nat.{ℕ}
use mathlib.Core.Path.{◌≡◌, refl}
use mathlib.Core.Bool.{Bool, true, false}
use mathlib.Core.List.{List, [], ◌∷◌}
use native.Mathlib.Omega.{arith}

-- `negsuc n` is -(n + 1).
pub data ℤ : Type 0 where
  pos : ℕ → ℤ
  negsuc : ℕ → ℤ

unfoldable pub le : ℤ → ℤ → Bool
le (pos a) (pos b) = leb a b
le (pos a) (negsuc b) = false
le (negsuc a) (pos b) = true
le (negsuc a) (negsuc b) = leb b a

unfoldable pub max_of : ℤ → ℤ → ℤ
unfolding le
max_of a b = if le a b then b else a

-- `Iterator::max` and then `unwrap_or(0)`.
unfoldable pub maximum_from : ℤ → List ℤ → ℤ
maximum_from m [] = m
maximum_from m (a ∷ as') = maximum_from (max_of m a) as'

unfoldable pub maximum : List ℤ → ℤ
unfolding maximum_from
maximum [] = pos 0
maximum (a ∷ as') = maximum_from a as'

pub le_refl : (a : ℤ) → le a a ≡ true
unfolding le
le_refl (pos a) = ground arith
le_refl (negsuc a) = ground arith

pub le_trans : (a b c : ℤ) → le a b ≡ true → le b c ≡ true → le a c ≡ true
unfolding le
le_trans (pos a) (pos b) (pos c) p q = ground arith
le_trans (pos a) (pos b) (negsuc c) p q = ground arith
le_trans (pos a) (negsuc b) c p q = cc
le_trans (negsuc a) b (pos c) p q = refl
le_trans (negsuc a) (pos b) (negsuc c) p q = cc
le_trans (negsuc a) (negsuc b) (negsuc c) p q = ground arith

pub le-max_left : (a b : ℤ) → le a (max_of a b) ≡ true
unfolding max_of
le-max_left a b = ground (arith, le_refl a)

pub le-max_right : (a b : ℤ) → le b (max_of a b) ≡ true
unfolding max_of le
le-max_right (pos a) (pos b) = ground arith
le-max_right (pos a) (negsuc b) = ground arith
le-max_right (negsuc a) (pos b) = ground arith
le-max_right (negsuc a) (negsuc b) = ground arith

pub maximum_from-start : (m : ℤ) (as' : List ℤ) → le m (maximum_from m as') ≡ true
unfolding maximum_from
maximum_from-start m [] = le_refl m
maximum_from-start m (a ∷ as') =
    le_trans m (max_of m a) _ (le-max_left m a) (maximum_from-start (max_of m a) as')
