-- ===== src/Core/Validate/Namespace.antt =====
-- Keys that crates/core/src/validate.rs accepts, and a segment's key as crates/core/src/matcher.rs
-- prefixes it.
use flagforge.Prelude.{◌≡◌, ◌≢◌, ap, refl, true, false, [], ◌∷◌, arith}
use flagforge.Text.{Text, text}
use flagforge.Core.Bucket.{preimage}
use flagforge.Core.Bucket.Preimage.{IsStr, preimage-injective}
use flagforge.Core.Matcher.{segment_namespace}
use flagforge.Core.Checks.{is_valid_key}

segment_namespace-invalid : (k : Text) → is_valid_key (segment_namespace k) ≡ false
unfolding segment_namespace text is_valid_key
segment_namespace-invalid k = ground arith

-- A flag whose key is accepted and a segment are never hashed from the same bytes, whatever their
-- salts and subjects, texts of Unicode code points shorter than 2^64 bytes.
pub preimage-segment_namespace :
    (salt salt' flag_key segment_key subject subject' : Text)
    → is_valid_key flag_key ≡ true
    → IsStr salt
    → IsStr salt'
    → IsStr flag_key
    → IsStr (segment_namespace segment_key)
    → IsStr subject
    → IsStr subject'
    → preimage (salt ∷ flag_key ∷ subject ∷ [])
      ≢ preimage (salt' ∷ segment_namespace segment_key ∷ subject' ∷ [])
preimage-segment_namespace salt salt' flag_key segment_key subject subject' valid a b c d e f same =
    let parts =
      preimage-injective (salt ∷ flag_key ∷ subject ∷ [])
        (salt' ∷ segment_namespace segment_key ∷ subject' ∷ []) refl (a, (c, (e, tt)))
        (b, (d, (f, tt))) same in
    let keys : flag_key ≡ segment_namespace segment_key = cc parts in
    cc (ap is_valid_key keys, segment_namespace-invalid segment_key)
