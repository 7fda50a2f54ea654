-- ===== src/Api/RateLimit/Clients.antt =====
-- What clients of crates/api/src/rate_limit.rs have to do with each other.
use flagforge.Prelude.{
  ℕ, ◌≡◌, ◌≢◌, ◌⊎◌, Bool, not, if_both, refl, true, false, Option, none, some, [], ◌∷◌, ltb, length,
  arith, Bool-cases, inl, inr,
}
use flagforge.Text.{Text, text_eq, text_eq_iff}
use flagforge.TextMap.{TextMap, lookup, lookup-insert}
use flagforge.Api.RateLimit.{
  Rates, Bucket, RateLimiter, is_fresh, sweep, swept, sweep_threshold, check,
}

module _ ⦃x : Rates⦄ where
  -- A bucket that has been idle for so long that a sweep drops it.
  abbrev pub is_idle : ℕ → Option Bucket → Bool
  is_idle now none = false
  is_idle now (some b) = not (is_fresh now b)

  abbrev pub Untouched : Text → ℕ → TextMap Bucket → TextMap Bucket → Type 0
  Untouched client now before after =
      (lookup client after ≡ lookup client before) ⊎ (is_idle now (lookup client before) ≡ true)

  sweep-Untouched :
      (client : Text) (now : ℕ) (buckets : TextMap Bucket)
      → Untouched client now buckets (sweep now buckets)
  unfolding sweep lookup
  sweep-Untouched client now [] = inl refl
  sweep-Untouched client now ((k, b) ∷ buckets) =
      let rest = sweep-Untouched client now buckets in
      elim (Bool-cases (is_fresh now b)) [
        | inl fresh ↦ elim (Bool-cases (text_eq client k)) [
          | inl same ↦ inl (rw (fresh, same) refl)
          | inr apart ↦ rw (fresh, apart) rest
        ]
        | inr idle ↦ elim (Bool-cases (text_eq client k)) [
          | inl same ↦ inr (rw (same, idle) refl)
          | inr apart ↦ rw (idle, apart) rest
        ]
      ]

  swept-Untouched :
      (client : Text) (now : ℕ) (buckets : TextMap Bucket)
      → Untouched client now buckets (swept now buckets)
  swept-Untouched client now buckets =
      if_both (Untouched client now buckets) (ltb sweep_threshold (length buckets))
        (sweep-Untouched client now buckets) (inl refl)

  -- A call for one client leaves the bucket of any other as it was, unless that bucket has been
  -- idle for so long that a sweep drops it.
  pub check-Untouched :
      (limiter : RateLimiter) (client other : Text) (now : ℕ)
      → other ≢ client
      → Untouched other now limiter.buckets (check limiter client now).1.buckets
  unfolding check
  check-Untouched limiter client other now apart =
      let apart' : text_eq other client ≡ false = ground (arith, text_eq_iff other client, apart) in
      rw (lookup-insert client other _ (swept now limiter.buckets), apart')
        (swept-Untouched other now limiter.buckets)
