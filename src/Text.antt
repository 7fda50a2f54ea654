-- ===== src/Text.antt =====
-- Rust's `String` and `str` as lists of Unicode code points, with what the source uses of them:
-- equality, the order of `BTreeMap` keys, substring tests, `trim`, `len`, UTF-8 and `format!`.
-- The order of code points is the order of their UTF-8 bytes.
pub mod Order
pub mod Utf8
pub mod Decimal
pub mod Trim
use Prim.Native.Char.{code}
use flagforge.Prelude.{
  ℕ, zero, suc, ◌+◌, ◌≡◌, ◌↔◌, refl, Bool, true, false, ◌&&◌, ◌||◌, List, [], ◌∷◌, ◌++◌, String,
  arith, ltb, leb, ◌==◌, if◌then◌else◌, all,
}

abbrev pub Text : Type 0
Text = List ℕ

-- The code points of a literal.
unfoldable pub text : String → Text
text String.[] = []
text (String.◌∷◌ c s) = code c ∷ text s

unfoldable pub text_eq : Text → Text → Bool
text_eq [] [] = true
text_eq (a ∷ s) (b ∷ t) = a == b && text_eq s t
text_eq _ _ = false

unfoldable pub text_lt : Text → Text → Bool
text_lt [] [] = false
text_lt [] (b ∷ t) = true
text_lt (a ∷ s) [] = false
text_lt (a ∷ s) (b ∷ t) = ltb a b || a == b && text_lt s t

unfoldable pub is_empty : Text → Bool
is_empty [] = true
is_empty (a ∷ s) = false

-- `str::starts_with`, `str::ends_with` and `str::contains` with a `&str` pattern.
unfoldable pub starts_with : Text → Text → Bool
starts_with s [] = true
starts_with [] (b ∷ t) = false
starts_with (a ∷ s) (b ∷ t) = a == b && starts_with s t

unfoldable pub ends_with : Text → Text → Bool
unfolding text_eq
ends_with [] t = text_eq [] t
ends_with (a ∷ s) t = text_eq (a ∷ s) t || ends_with s t

unfoldable pub contains : Text → Text → Bool
unfolding starts_with
contains [] t = starts_with [] t
contains (a ∷ s) t = starts_with (a ∷ s) t || contains s t

-- `char::is_whitespace`: the code points with the property White_Space.
abbrev in_range : ℕ → ℕ → ℕ → Bool
in_range lo hi c = leb lo c && leb c hi

unfoldable pub is_whitespace : ℕ → Bool
is_whitespace c =
    in_range 9 13 c
    || c == 32
    || c == 133
    || c == 160
    || c == 5760
    || in_range 8192 8202 c
    || in_range 8232 8233 c
    || c == 8239
    || c == 8287
    || c == 12288

-- `s.trim().is_empty()`.
unfoldable pub is_blank : Text → Bool
unfolding is_whitespace
is_blank s = all is_whitespace s

-- `str::len`, the number of UTF-8 bytes.
unfoldable pub utf8_width : ℕ → ℕ
utf8_width c = if ltb c 128 then 1 else if ltb c 2048 then 2 else if ltb c 65536 then 3 else 4

unfoldable pub len : Text → ℕ
unfolding utf8_width
len [] = 0
len (c ∷ s) = utf8_width c + len s

-- The number of pieces of `s.split(c)`.
unfoldable pub split_count : ℕ → Text → ℕ
split_count c [] = 1
split_count c (a ∷ s) = (if a == c then 1 else 0) + split_count c s

pub text_eq_iff : (s t : Text) → (text_eq s t ≡ true) ↔ (s ≡ t)
unfolding text_eq
text_eq_iff [] [] = ground arith
text_eq_iff [] (b ∷ t) = ground arith
text_eq_iff (a ∷ s) [] = ground arith
text_eq_iff (a ∷ s) (b ∷ t) = ground (arith, text_eq_iff s t)

pub text_eq_refl : (s : Text) → text_eq s s ≡ true
text_eq_refl s = (text_eq_iff s s).1 refl
