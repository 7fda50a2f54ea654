-- ===== src/Text/Utf8.antt =====
-- UTF-8: the bytes of a text (`str::as_bytes`).
use flagforge.Prelude.{
  ℕ, ◌+◌, ◌/◌, ◌%◌, ◌<◌, ◌≡◌, refl, sym, List, [], ◌∷◌, ◌++◌, arith, ltb, if◌then◌else◌, length,
  All, length-append,
}
use flagforge.Text.{Text, len, utf8_width}

unfoldable pub encode : ℕ → List ℕ
encode c =
    if ltb c 128
    then c ∷ []
    else if ltb c 2048
    then (192 + c / 64) ∷ (128 + c % 64) ∷ []
    else if ltb c 65536
    then (224 + c / 4096) ∷ (128 + c / 64 % 64) ∷ (128 + c % 64) ∷ []
    else (240 + c / 262144) ∷ (128 + c / 4096 % 64) ∷ (128 + c / 64 % 64) ∷ (128 + c % 64) ∷ []

unfoldable pub utf8 : Text → List ℕ
unfolding encode
utf8 [] = []
utf8 (c ∷ s) = encode c ++ utf8 s

-- A text of Unicode code points.
abbrev pub IsUnicode : Text → Type 0
IsUnicode s = All (λ c. c < 1114112) s

length-encode : (c : ℕ) → length (encode c) ≡ utf8_width c
unfolding encode utf8_width
length-encode c = ground arith

pub length-utf8 : (s : Text) → length (utf8 s) ≡ len s
unfolding utf8 len
length-utf8 [] = refl
length-utf8 (c ∷ s) =
    omega (arith, length-append {0} (encode c) (utf8 s), length-encode c, length-utf8 s)

-- A code point can be read back from the front of the bytes that follow from it.
encode-injective :
    (c d : ℕ) (r s : List ℕ)
    → c < 1114112
    → d < 1114112
    → encode c ++ r ≡ encode d ++ s
    → (c ≡ d) × (r ≡ s)
unfolding encode
encode-injective c d r s hc hd h = ground arith

encode-ne-nil : (c : ℕ) (r : List ℕ) → encode c ++ r ≡ [] → ⊥
unfolding encode
encode-ne-nil c r h = ground arith

pub utf8-injective : (s t : Text) → IsUnicode s → IsUnicode t → utf8 s ≡ utf8 t → s ≡ t
unfolding utf8
utf8-injective [] [] hs ht h = refl
utf8-injective [] (d ∷ t) hs ht h = absurd (encode-ne-nil d (utf8 t) (sym h))
utf8-injective (c ∷ s) [] hs ht h = absurd (encode-ne-nil c (utf8 s) h)
utf8-injective (c ∷ s) (d ∷ t) hs ht h =
    ground (arith, encode-injective c d (utf8 s) (utf8 t) hs.0 ht.0 h, utf8-injective s t hs.1 ht.1)
