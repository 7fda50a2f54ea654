-- ===== src/Core/Bucket.antt =====
-- crates/core/src/bucket.rs: the bucket of a subject, and the variant that owns a bucket.
pub mod Preimage
pub mod Weights
use flagforge.Prelude.{
  ℕ, ◌+◌, ◌*◌, ◌/◌, ◌%◌, ◌^◌, Option, none, some, List, [], ◌∷◌, ◌++◌, ltb, if◌then◌else◌, take,
}
use flagforge.Text.{Text, len}
use flagforge.Text.Utf8.{utf8}
use flagforge.Extern.{Extern}
use flagforge.Core.Flag.{WeightedVariant, total_weight}

-- `u64::to_be_bytes` and `u64::from_be_bytes`.
unfoldable pub be_bytes : ℕ → List ℕ
be_bytes n =
    n / 2 ^ 56 % 256
    ∷ n / 2 ^ 48 % 256
    ∷ n / 2 ^ 40 % 256
    ∷ n / 2 ^ 32 % 256
    ∷ n / 2 ^ 24 % 256
    ∷ n / 2 ^ 16 % 256
    ∷ n / 2 ^ 8 % 256
    ∷ n % 256
    ∷ []

unfoldable pub from_be_bytes : ℕ → List ℕ → ℕ
from_be_bytes acc [] = acc
from_be_bytes acc (b ∷ bs) = from_be_bytes (acc * 256 + b) bs

-- What `hasher.update` is given: each part behind its length.
unfoldable pub preimage : List Text → List ℕ
unfolding be_bytes utf8 len
preimage [] = []
preimage (part ∷ parts) = be_bytes (len part) ++ utf8 part ++ preimage parts

module _ ⦃x : Extern⦄ where
  -- The digest is an array of 32 bytes by its type, so the slice of 8 is there.
  unfoldable pub bucket : Text → Text → Text → ℕ
  unfolding preimage from_be_bytes
  bucket salt flag_key subject =
      let head = from_be_bytes 0 (take 8 (x.sha256 (preimage (salt ∷ flag_key ∷ subject ∷ [])))) in
      head % total_weight % 2 ^ 32

-- The loop of `pick_weighted`; the sum is a `u64`.
unfoldable pub pick_from : ℕ → List WeightedVariant → ℕ → Option Text
pick_from cumulative [] bucket = none
pick_from cumulative (entry ∷ weights) bucket =
    let next = (cumulative + entry.weight) % 2 ^ 64 in
    if ltb bucket next then some entry.variant else pick_from next weights bucket

unfoldable pub pick_weighted : List WeightedVariant → ℕ → Option Text
unfolding pick_from
pick_weighted weights bucket = pick_from 0 weights bucket
