-- ===== src/Text/Decimal.antt =====
-- `format!("{}", n)` of an integer: its decimal digits, without leading zeros.
use flagforge.Prelude.{
  ℕ, zero, suc, ◌+◌, ◌-◌, ◌*◌, ◌/◌, ◌%◌, ◌<◌, ◌≡◌, refl, [], ◌∷◌, ◌++◌, arith, ltb, if◌then◌else◌,
}
use flagforge.Prelude.Int.{ℤ, pos, negsuc}
use flagforge.Text.{Text}

-- The fuel bounds the number of digits; the number itself is enough.
unfoldable pub digits : ℕ → ℕ → Text
digits zero n = []
digits (suc f) n =
    let front = digits f (n / 10) in if ltb n 10 then (48 + n) ∷ [] else front ++ (48 + n % 10) ∷ []

unfoldable pub show : ℕ → Text
unfolding digits
show n = digits (suc n) n

-- The number that decimal digits stand for.
abbrev read_from : ℕ → Text → ℕ
read_from acc [] = acc
read_from acc (d ∷ s) = read_from (acc * 10 + (d - 48)) s

abbrev pub read : Text → ℕ
read s = read_from 0 s

read_from-append :
    (acc : ℕ) (s : Text) (d : ℕ) → read_from acc (s ++ d ∷ []) ≡ read_from acc s * 10 + (d - 48)
read_from-append acc [] d = refl
read_from-append acc (e ∷ s) d = read_from-append (acc * 10 + (e - 48)) s d

read-digits : (f n : ℕ) → n < f → read (digits f n) ≡ n
unfolding digits
read-digits zero n h = absurd (omega arith)
read-digits (suc f) n h =
    ground (arith, read-digits f (n / 10), read_from-append 0 (digits f (n / 10)) (48 + n % 10))

-- Printing loses nothing.
pub read-show : (n : ℕ) → read (show n) ≡ n
unfolding show
read-show n = read-digits (suc n) n (omega arith)

unfoldable pub show_ℤ : ℤ → Text
unfolding show
show_ℤ (pos n) = show n
show_ℤ (negsuc n) = b'-' ∷ show (suc n)
