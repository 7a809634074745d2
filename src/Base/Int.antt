-- ===== src/Base/Int.antt =====
-- Signed integers over the native numbers, and the conversions of C between its integer types.
use Prim.Native.Nat.{ℕ, zero, suc, ◌+◌, ◌-◌, ◌%◌, ◌<◌}
use mathlib.Core.Bool.{Bool, true, false}
use mathlib.Core.Path.{◌≡◌}
use mathlib.Core.Logic.{◌↔◌}
use native.Mathlib.Omega.{arith}
use iperf.Base.Tests.{ltb, ◌==◌, if◌then◌else◌}

-- `negsuc n` is -(n + 1).
pub data ℤ : Type 0 where
  pos : ℕ → ℤ
  negsuc : ℕ → ℤ

abbrev pub pos_part : ℤ → ℕ
pos_part (pos n) = n
pos_part (negsuc n) = 0

abbrev pub neg_part : ℤ → ℕ
neg_part (pos n) = 0
neg_part (negsuc n) = suc n

-- a - b, as an integer.
abbrev pub sub_ℕ : ℕ → ℕ → ℤ
sub_ℕ a b = if ltb a b then negsuc (b - a - 1) else pos (a - b)

infixl 65 ◌+ℤ◌
unfoldable pub ◌+ℤ◌ : ℤ → ℤ → ℤ
a +ℤ b = sub_ℕ (pos_part a + pos_part b) (neg_part a + neg_part b)

abbrev pub ltb_ℤ : ℤ → ℤ → Bool
ltb_ℤ a b = ltb (pos_part a + neg_part b) (pos_part b + neg_part a)

abbrev pub eqb_ℤ : ℤ → ℤ → Bool
eqb_ℤ (pos m) (pos n) = m == n
eqb_ℤ (negsuc m) (negsuc n) = m == n
eqb_ℤ _ _ = false

abbrev pub is_nonzero : ℤ → Bool
is_nonzero (pos zero) = false
is_nonzero _ = true

abbrev pub is_positive_int : ℤ → Bool
is_positive_int (pos (suc _)) = true
is_positive_int _ = false

-- The 64-bit pattern of an integer: the conversion to uint64_t.
abbrev pub to_u64 : ℤ → ℕ
to_u64 (pos n) = n % 18446744073709551616
to_u64 (negsuc n) = 18446744073709551615 - n % 18446744073709551616

-- The conversion to int, modulo 2^32 into the signed range.
abbrev pub signed32 : ℕ → ℤ
signed32 w = if ltb w 2147483648 then pos w else negsuc (4294967295 - w)

unfoldable pub to_int : ℤ → ℤ
to_int (pos n) = signed32 (n % 4294967296)
to_int (negsuc n) = signed32 (4294967295 - n % 4294967296)

-- The range of an int.
abbrev pub IsInt : ℤ → Type 0
IsInt (pos n) = n < 2147483648
IsInt (negsuc n) = n < 2147483648

pub to_int_lem : (z : ℤ) → IsInt z → to_int z ≡ z
unfolding to_int
to_int_lem (pos n) h = ground arith
to_int_lem (negsuc n) h = ground arith

pub eqb_ℤ_iff : (x y : ℤ) → (eqb_ℤ x y ≡ true) ↔ (x ≡ y)
eqb_ℤ_iff x y = ground arith
