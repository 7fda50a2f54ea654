-- ===== src/Core/Bucket/Preimage.antt =====
-- The bytes that crates/core/src/bucket.rs hashes, and the range of a bucket.
use flagforge.Prelude.{
  ℕ, ◌^◌, ◌<◌, ◌≡◌, refl, sym, List, [], ◌∷◌, arith, length, All, append-injective, ◌∙◌,
}
use flagforge.Text.{Text, len}
use flagforge.Text.Utf8.{utf8, IsUnicode, length-utf8, utf8-injective}
use flagforge.Extern.{Extern}
use flagforge.Core.Flag.{total_weight}
use flagforge.Core.Bucket.{be_bytes, preimage, bucket}

be_bytes-injective : (m n : ℕ) → m < 2 ^ 64 → n < 2 ^ 64 → be_bytes m ≡ be_bytes n → m ≡ n
unfolding be_bytes
be_bytes-injective m n hm hn h = ground arith

-- A text that fits in memory: code points, and a length that is a `usize`.
abbrev pub IsStr : Text → Type 0
IsStr s = IsUnicode s × (len s < 2 ^ 64)

length-be_bytes : (m n : ℕ) → length (be_bytes m) ≡ length (be_bytes n)
unfolding be_bytes
length-be_bytes m n = refl

preimage-cons_injective :
    (s t : Text) (ss ts : List Text)
    → IsStr s
    → IsStr t
    → preimage (s ∷ ss) ≡ preimage (t ∷ ts)
    → (s ≡ t) × (preimage ss ≡ preimage ts)
unfolding preimage
preimage-cons_injective s t ss ts hs ht h =
    let heads =
      append-injective (be_bytes (len s)) (be_bytes (len t)) _ _ (length-be_bytes (len s) (len t))
        h in
    let lens = be_bytes-injective (len s) (len t) hs.1 ht.1 heads.0 in
    let bodies =
      append-injective (utf8 s) (utf8 t) (preimage ss) (preimage ts)
        (length-utf8 s ∙ lens ∙ sym (length-utf8 t)) heads.1 in
    (utf8-injective s t hs.0 ht.0 bodies.0, bodies.1)

-- Lists of as many texts, each of Unicode code points and shorter than 2^64 bytes, are hashed from
-- the same bytes only if they are the same.
pub preimage-injective :
    (ss ts : List Text)
    → length ss ≡ length ts
    → All IsStr ss
    → All IsStr ts
    → preimage ss ≡ preimage ts
    → ss ≡ ts
preimage-injective [] [] n hs ht h = refl
preimage-injective [] (t ∷ ts) n hs ht h = absurd (omega arith)
preimage-injective (s ∷ ss) [] n hs ht h = absurd (omega arith)
preimage-injective (s ∷ ss) (t ∷ ts) n hs ht h =
    let parts = preimage-cons_injective s t ss ts hs.0 ht.0 h in
    let rest = preimage-injective ss ts (omega arith) hs.1 ht.1 parts.1 in cc (parts.0, rest)

module _ ⦃x : Extern⦄ where
  -- A bucket lies below the total weight, and fits the `u32` that it is returned in.
  pub bucket-lt-total_weight : (salt key subject : Text) → bucket salt key subject < total_weight
  unfolding bucket
  bucket-lt-total_weight salt key subject = omega arith
