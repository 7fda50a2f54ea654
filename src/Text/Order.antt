-- ===== src/Text/Order.antt =====
-- The order of texts is a strict linear order, as `BTreeMap` needs it.
use flagforge.Prelude.{◌≡◌, true, false, [], ◌∷◌, arith}
use flagforge.Text.{Text, text_eq, text_lt}

pub text_lt_irrefl : (s : Text) → text_lt s s ≡ false
unfolding text_lt
text_lt_irrefl [] = ground arith
text_lt_irrefl (a ∷ s) = ground (arith, text_lt_irrefl s)

pub text_lt_trans : (r s t : Text) → text_lt r s ≡ true → text_lt s t ≡ true → text_lt r t ≡ true
unfolding text_lt
text_lt_trans [] [] t p q = cc
text_lt_trans [] (b ∷ s) [] p q = cc
text_lt_trans [] (b ∷ s) (c ∷ t) p q = ground arith
text_lt_trans (a ∷ r) [] t p q = cc
text_lt_trans (a ∷ r) (b ∷ s) [] p q = cc
text_lt_trans (a ∷ r) (b ∷ s) (c ∷ t) p q = ground (arith, text_lt_trans r s t)

-- Of two different texts one comes first.
pub text_lt_total : (s t : Text) → text_eq s t ≡ false → text_lt s t ≡ false → text_lt t s ≡ true
unfolding text_lt text_eq
text_lt_total [] [] p q = cc
text_lt_total [] (b ∷ t) p q = cc
text_lt_total (a ∷ s) [] p q = ground arith
text_lt_total (a ∷ s) (b ∷ t) p q = ground (arith, text_lt_total s t)
