-- ===== src/Storage/Version.antt =====
-- migrations/20260101000002_change_notifications.sql: the column `version`, a BIGINT that a trigger raises
-- by one at each update. Postgres refuses the update where the sum is out of range.
use flagforge.Prelude.{
  ℕ, suc, zero, ◌+◌, ◌≡◌, ◌↔◌, Bool, true, false, Option, none, some, arith, ltb, ◌==◌,
  if◌then◌else◌,
}
use flagforge.Prelude.Int.{ℤ, pos, negsuc, le}

abbrev pub max_i64 : ℕ
max_i64 = 9223372036854775807

-- `version = $n` on two BIGINTs.
unfoldable pub i64_eq : ℤ → ℤ → Bool
i64_eq (pos a) (pos b) = a == b
i64_eq (negsuc a) (negsuc b) = a == b
i64_eq _ _ = false

-- `NEW.version := OLD.version + 1`.
unfoldable pub next_version : ℤ → Option ℤ
next_version (pos n) = if ltb n max_i64 then some (pos (n + 1)) else none
next_version (negsuc zero) = some (pos 0)
next_version (negsuc (suc n)) = some (negsuc n)

pub i64_eq_iff : (a b : ℤ) → (i64_eq a b ≡ true) ↔ (a ≡ b)
unfolding i64_eq
i64_eq_iff (pos a) (pos b) = ground arith
i64_eq_iff (pos a) (negsuc b) = ground arith
i64_eq_iff (negsuc a) (pos b) = ground arith
i64_eq_iff (negsuc a) (negsuc b) = ground arith

-- `b` is above `a`.
abbrev pub Above : ℤ → ℤ → Type 0
Above a b = le b a ≡ false

pub next_version-Above : (v w : ℤ) → next_version v ≡ some w → Above v w
unfolding next_version le
next_version-Above (pos n) w h = ground arith
next_version-Above (negsuc zero) w h = ground arith
next_version-Above (negsuc (suc n)) w h = ground arith

pub Above-trans : (a b c : ℤ) → Above a b → Above b c → Above a c
unfolding le
Above-trans (pos a) (pos b) (pos c) p q = ground arith
Above-trans (pos a) (pos b) (negsuc c) p q = ground arith
Above-trans (pos a) (negsuc b) (pos c) p q = ground arith
Above-trans (pos a) (negsuc b) (negsuc c) p q = ground arith
Above-trans (negsuc a) (pos b) (pos c) p q = ground arith
Above-trans (negsuc a) (pos b) (negsuc c) p q = ground arith
Above-trans (negsuc a) (negsuc b) (pos c) p q = ground arith
Above-trans (negsuc a) (negsuc b) (negsuc c) p q = ground arith

pub Above-ne : (a b : ℤ) → Above a b → i64_eq b a ≡ false
unfolding le i64_eq
Above-ne (pos a) (pos b) p = ground arith
Above-ne (pos a) (negsuc b) p = ground arith
Above-ne (negsuc a) (pos b) p = ground arith
Above-ne (negsuc a) (negsuc b) p = ground arith

pub Above→le : (a b : ℤ) → Above a b → le a b ≡ true
unfolding le
Above→le (pos a) (pos b) h = ground arith
Above→le (pos a) (negsuc b) h = ground arith
Above→le (negsuc a) (pos b) h = ground arith
Above→le (negsuc a) (negsuc b) h = ground arith

pub Above-le : (a b c : ℤ) → Above a b → le b c ≡ true → Above a c
unfolding le
Above-le (pos a) (pos b) (pos c) p q = ground arith
Above-le (pos a) (pos b) (negsuc c) p q = ground arith
Above-le (pos a) (negsuc b) (pos c) p q = ground arith
Above-le (pos a) (negsuc b) (negsuc c) p q = ground arith
Above-le (negsuc a) (pos b) (pos c) p q = ground arith
Above-le (negsuc a) (pos b) (negsuc c) p q = ground arith
Above-le (negsuc a) (negsuc b) (pos c) p q = ground arith
Above-le (negsuc a) (negsuc b) (negsuc c) p q = ground arith
