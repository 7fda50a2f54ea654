-- ===== src/Core/Bucket/Weights.antt =====
-- How `pick_weighted` of crates/core/src/bucket.rs shares the buckets out.
use flagforge.Prelude.{
  ℕ, zero, suc, ◌+◌, ◌-◌, ◌*◌, ◌%◌, ◌^◌, ◌<◌, ◌≤◌, ◌≡◌, ◌∙◌, refl, ap, Option, none, some, List, [],
  ◌∷◌, arith, ltb, lt→ltb, le→ltb, if◌then◌else◌, length, All, Bool, false, is_some,
}
use flagforge.Text.{Text, text_eq}
use flagforge.Core.Flag.{WeightedVariant}
use flagforge.Core.Bucket.{pick_from, pick_weighted}

-- The sum of the weights, with no bound, and of the weights of the entries named `v`.
unfoldable pub sum_weights : List WeightedVariant → ℕ
sum_weights [] = 0
sum_weights (w ∷ ws) = w.weight + sum_weights ws

unfoldable pub weight_of : Text → List WeightedVariant → ℕ
weight_of v [] = 0
weight_of v (w ∷ ws) = (if text_eq w.variant v then w.weight else 0) + weight_of v ws

-- The weights are `u32`s, and fewer than 2^32: the loop's `u64` cannot overflow.
abbrev pub IsU32 : List WeightedVariant → Type 0
IsU32 ws = All (λ w. w.weight < 2 ^ 32) ws × (length ws ≤ 2 ^ 32)

sum_weights-le :
    (ws : List WeightedVariant)
    → All (λ w. w.weight < 2 ^ 32) ws
    → sum_weights ws ≤ length ws * (2 ^ 32 - 1)
unfolding sum_weights
sum_weights-le [] h = omega arith
sum_weights-le (w ∷ ws) h = omega (arith, h.0, sum_weights-le ws h.1)

pub sum_weights-lt : (ws : List WeightedVariant) → IsU32 ws → sum_weights ws < 2 ^ 64
sum_weights-lt ws h = omega (arith, h.1, sum_weights-le ws h.0)

-- The reference: intervals laid end to end.
unfoldable pub owner : List WeightedVariant → ℕ → Option Text
owner [] b = none
owner (w ∷ ws) b = if ltb b w.weight then some w.variant else owner ws (b - w.weight)

-- The loop stands at `c`, and the bucket `t` lies `b` above.
pick_from-owner :
    (c : ℕ) (ws : List WeightedVariant) (b t : ℕ)
    → t ≡ c + b
    → c + sum_weights ws < 2 ^ 64
    → pick_from c ws t ≡ owner ws b
unfolding pick_from owner sum_weights
pick_from-owner c [] b t e h = refl
pick_from-owner c (w ∷ ws) b t e h =
    let next : (c + w.weight) % 2 ^ 64 ≡ c + w.weight = omega arith in
    ground (arith, next, pick_from-owner (c + w.weight) ws (b - w.weight) t)

pub pick_weighted-owner :
    (ws : List WeightedVariant) (b : ℕ) → IsU32 ws → pick_weighted ws b ≡ owner ws b
unfolding pick_weighted
pick_weighted-owner ws b h =
    pick_from-owner 0 ws b b (omega arith) (omega (arith, sum_weights-lt ws h))

-- A bucket is owned exactly if it lies below the sum of the weights.
owner-IsSome : (ws : List WeightedVariant) (b : ℕ) → is_some (owner ws b) ≡ ltb b (sum_weights ws)
unfolding owner sum_weights
owner-IsSome [] b = ground arith
owner-IsSome (w ∷ ws) b = ground (arith, owner-IsSome ws (b - w.weight))

pub pick_weighted-IsSome :
    (ws : List WeightedVariant) (b : ℕ)
    → IsU32 ws
    → is_some (pick_weighted ws b) ≡ ltb b (sum_weights ws)
pick_weighted-IsSome ws b h = rw (pick_weighted-owner ws b h) (owner-IsSome ws b)

-- How many numbers below `n` pass a test.
unfoldable pub count_below : ℕ → (ℕ → Bool) → ℕ
count_below zero p = 0
count_below (suc n) p = (if p n then 1 else 0) + count_below n p

count_below-zero : (p : ℕ → Bool) → count_below 0 p ≡ 0
unfolding count_below
count_below-zero p = refl

count_below-ext :
    (n : ℕ) (p q : ℕ → Bool) → ((b : ℕ) → b < n → p b ≡ q b) → count_below n p ≡ count_below n q
unfolding count_below
count_below-ext zero p q h = refl
count_below-ext (suc n) p q h =
    rw (h n (omega arith), count_below-ext n p q (λ b l. h b (omega arith))) refl

count_below-add :
    (m n k : ℕ) (p : ℕ → Bool)
    → k ≡ m + n
    → count_below k p ≡ count_below m p + count_below n (λ b. p (m + b))
unfolding count_below
count_below-add m zero k p e = let e' : k ≡ m = omega arith in rw e' (omega arith)
count_below-add m (suc n) zero p e = absurd (omega arith)
count_below-add m (suc n) (suc k) p e =
    let e' : k ≡ m + n = omega arith in
    let head : p k ≡ p (m + n) = ap p e' in ground (arith, count_below-add m n k p e', head)

count_below-const : (n : ℕ) (c : Bool) → count_below n (λ _. c) ≡ (if c then n else 0)
unfolding count_below
count_below-const zero c = ground arith
count_below-const (suc n) c = ground (arith, count_below-const n c)

-- Whether the variant `v` is picked.
unfoldable pub is_variant : Text → Option Text → Bool
is_variant v none = false
is_variant v (some w) = text_eq w v

owner-after :
    (w : WeightedVariant) (ws : List WeightedVariant) (b : ℕ)
    → owner (w ∷ ws) (w.weight + b) ≡ owner ws b
unfolding owner
owner-after w ws b =
    let back : w.weight + b - w.weight ≡ b = omega arith in
    rw (le→ltb (w.weight + b) w.weight (omega arith), back) refl

owner-within :
    (w : WeightedVariant) (ws : List WeightedVariant) (b : ℕ)
    → b < w.weight
    → owner (w ∷ ws) b ≡ some w.variant
unfolding owner
owner-within w ws b h = rw (lt→ltb b w.weight h) refl

count-owner :
    (v : Text) (ws : List WeightedVariant)
    → count_below (sum_weights ws) (λ b. is_variant v (owner ws b)) ≡ weight_of v ws
unfolding sum_weights weight_of
count-owner v [] = count_below-zero _
count-owner v (w ∷ ws) =
    let p : ℕ → Bool = λ b. is_variant v (owner (w ∷ ws) b) in
    let split = count_below-add w.weight (sum_weights ws) (w.weight + sum_weights ws) p refl in
    let first : count_below w.weight p ≡ count_below w.weight (λ _. text_eq w.variant v) =
      count_below-ext w.weight p (λ _. text_eq w.variant v)
        (λ b h. unfold is_variant in ap (is_variant v) (owner-within w ws b h)) in
    let later : count_below (sum_weights ws) (λ b. p (w.weight + b))
        ≡ count_below (sum_weights ws) (λ b. is_variant v (owner ws b)) =
      count_below-ext (sum_weights ws) (λ b. p (w.weight + b)) (λ b. is_variant v (owner ws b))
        (λ b h. ap (is_variant v) (owner-after w ws b)) in
    omega (
      arith,
      split,
      first,
      later,
      count_below-const w.weight (text_eq w.variant v),
      count-owner v ws,
    )

-- Of the buckets below the sum of the weights, `pick_weighted` gives a variant exactly as many as
-- its weight, if the weights are `u32`s and fewer than 2^32.
pub count-pick_weighted :
    (v : Text) (ws : List WeightedVariant)
    → IsU32 ws
    → count_below (sum_weights ws) (λ b. is_variant v (pick_weighted ws b)) ≡ weight_of v ws
count-pick_weighted v ws h =
    count_below-ext (sum_weights ws) (λ b. is_variant v (pick_weighted ws b))
      (λ b. is_variant v (owner ws b)) (λ b _. ap (is_variant v) (pick_weighted-owner ws b h))
    ∙ count-owner v ws
