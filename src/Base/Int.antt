-- ===== src/Base/Int.antt =====
-- Signed integers over the native numbers: return codes, descriptors, system call results.
use Prim.Native.Nat.{ℕ, ◌-◌, ◌%◌, ◌^◌}
use mathlib.Core.Path.{◌≡◌}
use mathlib.Core.Bool.{Bool, true, false}
use native.Mathlib.Omega.{arith}
use lib_sp.Base.Tests.{◌==◌, leb, ltb, if◌then◌else◌}

-- `negsuc n` is -(n + 1).
pub data ℤ : Type 0 where
  pos : ℕ → ℤ
  negsuc : ℕ → ℤ

-- `minus n` is -(n), for n at least 1.
abbrev pub minus : ℕ → ℤ
minus n = negsuc (n - 1)

abbrev pub eq_ℤ : ℤ → ℤ → Bool
eq_ℤ (pos a) (pos b) = a == b
eq_ℤ (negsuc a) (negsuc b) = a == b
eq_ℤ (pos a) (negsuc b) = false
eq_ℤ (negsuc a) (pos b) = false

-- r < 0
abbrev pub is_negative : ℤ → Bool
is_negative (pos a) = false
is_negative (negsuc a) = true

-- 0 < r
abbrev pub is_positive : ℤ → Bool
is_positive (pos a) = leb 1 a
is_positive (negsuc a) = false

-- The conversion of an `int` to an unsigned type of `w` bits.
abbrev pub to_unsigned : ℕ → ℤ → ℕ
to_unsigned w (pos a) = a % 2 ^ w
to_unsigned w (negsuc a) = (2 ^ w - 1) - a % 2 ^ w

-- The conversion of an unsigned type of `w` bits to `int`, whose range is halved.
abbrev pub to_signed : ℕ → ℕ → ℤ
to_signed w n = if ltb (n % 2 ^ w) (2 ^ (w - 1)) then pos (n % 2 ^ w) else minus (2 ^ w - n % 2 ^ w)

pub eq_ℤ→eq : (a b : ℤ) → eq_ℤ a b ≡ true → a ≡ b
eq_ℤ→eq (pos a) (pos b) h = ground arith
eq_ℤ→eq (negsuc a) (negsuc b) h = ground arith
eq_ℤ→eq (pos a) (negsuc b) h = cc
eq_ℤ→eq (negsuc a) (pos b) h = cc

pub eq_ℤ_refl : (a : ℤ) → eq_ℤ a a ≡ true
eq_ℤ_refl (pos a) = ground arith
eq_ℤ_refl (negsuc a) = ground arith
