-- ===== src/Api/RateLimit.antt =====
-- crates/api/src/rate_limit.rs: the token bucket of each client, and how a request is put down to a
-- client. A call holds its bucket's lock throughout and the clock is an argument, in nanoseconds.
pub mod Clients
pub mod Keys
use flagforge.Prelude.{
  ℕ, ◌-◌, Bool, true, false, ◌&&◌, Option, none, some, List, [], ◌∷◌, ◌++◌, ltb, ◌==◌,
  if◌then◌else◌, length, is_nil, unwrap_or, max, Result, ok, err,
}
use flagforge.Text.{Text, text}
use flagforge.Text.Trim.{trim}
use flagforge.TextMap.{TextMap, lookup, insert}

-- The operations of `f64`, with `as_secs_f64` of a duration and `as u64` of a wait.
pub record Rates : Type 1 where
  pub F64 : Type 0
  pub of_u32 : ℕ → F64
  pub secs : ℕ → F64
  pub add : F64 → F64 → F64
  pub sub : F64 → F64 → F64
  pub mul : F64 → F64 → F64
  pub div : F64 → F64 → F64
  pub min_of : F64 → F64 → F64
  pub max_of : F64 → F64 → F64
  pub ceil : F64 → F64
  pub lt : F64 → F64 → Bool
  pub le : F64 → F64 → Bool
  pub as_u64 : F64 → ℕ

abbrev pub sweep_threshold : ℕ
sweep_threshold = 10000

module _ ⦃x : Rates⦄ where
  open x use {F64, of_u32, secs, add, sub, mul, div, min_of, max_of, ceil, lt, le, as_u64}

  abbrev pub idle_eviction_secs : F64
  idle_eviction_secs = of_u32 300

  pub record Bucket : Type 0 where
    pub tokens : F64
    pub last_refill : ℕ

  pub record RateLimiter : Type 0 where
    pub buckets : TextMap Bucket
    pub burst : F64
    pub per_second : F64

  unfoldable pub new : ℕ → ℕ → RateLimiter
  new burst per_second = record {
    buckets = [];
    burst = of_u32 (max burst 1);
    per_second = of_u32 (max per_second 1);
  }

  abbrev pub is_fresh : ℕ → Bucket → Bool
  is_fresh now bucket = lt (secs (now - bucket.last_refill)) idle_eviction_secs

  -- `retain`.
  unfoldable pub sweep : ℕ → TextMap Bucket → TextMap Bucket
  sweep now [] = []
  sweep now ((client, bucket) ∷ buckets) =
      let rest = sweep now buckets in if is_fresh now bucket then (client, bucket) ∷ rest else rest

  abbrev pub swept : ℕ → TextMap Bucket → TextMap Bucket
  swept now buckets = if ltb sweep_threshold (length buckets) then sweep now buckets else buckets

  unfoldable pub refill : RateLimiter → ℕ → Bucket → Bucket
  refill limiter now bucket = record {
    tokens =
        min_of (add bucket.tokens (mul (secs (now - bucket.last_refill)) limiter.per_second))
          limiter.burst;
    last_refill = now;
  }

  -- The answer for a refilled bucket, and the bucket that is left.
  unfoldable pub spend : RateLimiter → Bucket → Result (Unit {0}) ℕ × Bucket
  spend limiter bucket =
      if le (of_u32 1) bucket.tokens
      then (ok tt, record bucket { tokens = sub bucket.tokens (of_u32 1) })
      else (
        err (
            as_u64
              (max_of (ceil (div (sub (of_u32 1) bucket.tokens) limiter.per_second)) (of_u32 1))),
        bucket,
      )

  unfoldable pub check : RateLimiter → Text → ℕ → Result (Unit {0}) ℕ × RateLimiter
  unfolding sweep refill spend lookup insert
  check limiter client now =
      let buckets = swept now limiter.buckets in
      let bucket =
        unwrap_or (lookup client buckets) (record { tokens = limiter.burst; last_refill = now }) in
      let (answer, left) = spend limiter (refill limiter now bucket) in
      (answer, record limiter { buckets = insert client left buckets })

-- `split(',').next()`.
unfoldable pub before_comma : Text → Text
before_comma [] = []
before_comma (c ∷ s) = let rest = before_comma s in if c == 44 then [] else c ∷ rest

-- The headers of a request that count, as far as they are texts.
pub record Headers : Type 0 where
  pub authorization : Option Text
  pub forwarded_for : Option Text

abbrev pub address_key : Text → Text
address_key ip = if is_nil ip then text "anonymous" else text "ip:" ++ ip

-- `hash` is the hexadecimal digest of a credential.
unfoldable pub client_key : (Text → Text) → Headers → Text
unfolding before_comma trim text
client_key hash headers = elim headers.authorization [
  | some credential ↦ text "cred:" ++ hash credential
  | none ↦ elim headers.forwarded_for [
    | some addresses ↦ address_key (trim (before_comma addresses))
    | none ↦ text "anonymous"
  ]
]
