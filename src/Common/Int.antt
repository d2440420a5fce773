-- ===== src/Common/Int.antt =====
-- Signed integers over the native numbers, and the two's complement casts of C.
use Prim.Native.Nat.{ℕ, suc, ◌+◌, ◌-◌, ◌%◌, ◌<◌}
use mathlib.Core.Path.{◌≡◌}
use native.Mathlib.Omega.{arith}
use split_flap.Common.Tests.{if◌then◌else◌, ltb, leb}

-- `negsuc n` is -(n + 1).
pub data ℤ : Type 0 where
  pos : ℕ → ℤ
  negsuc : ℕ → ℤ

abbrev pub pos_part : ℤ → ℕ
pos_part (pos n) = n
pos_part (negsuc n) = 0

abbrev pub neg_part : ℤ → ℕ
neg_part (pos n) = 0
neg_part (negsuc n) = suc n

-- a - b, as an integer.
abbrev pub sub_ℕ : ℕ → ℕ → ℤ
sub_ℕ a b = if leb b a then pos (a - b) else negsuc (b - a - 1)

infixl 65 ◌+ℤ◌ ◌-ℤ◌
unfoldable pub ◌+ℤ◌ : ℤ → ℤ → ℤ
a +ℤ b = sub_ℕ (pos_part a + pos_part b) (neg_part a + neg_part b)

unfoldable pub ◌-ℤ◌ : ℤ → ℤ → ℤ
a -ℤ b = sub_ℕ (pos_part a + neg_part b) (neg_part a + pos_part b)

-- |a|
abbrev pub abs : ℤ → ℕ
abs (pos n) = n
abs (negsuc n) = suc n

-- C's `a % m`: the remainder has the sign of the dividend.
abbrev pub rem : ℤ → ℕ → ℤ
rem (pos n) m = pos (n % m)
rem (negsuc n) m = if ltb 0 (suc n % m) then negsuc (suc n % m - 1) else pos 0

-- `(uint16_t)a` and `(int16_t)w`; `(uint8_t)a` and `(int8_t)w`.
abbrev pub to_u16 : ℤ → ℕ
to_u16 (pos n) = n % 65536
to_u16 (negsuc n) = 65535 - n % 65536

abbrev pub of_u16 : ℕ → ℤ
of_u16 w = if ltb w 32768 then pos w else negsuc (65535 - w)

abbrev pub to_u8 : ℤ → ℕ
to_u8 (pos n) = n % 256
to_u8 (negsuc n) = 255 - n % 256

abbrev pub of_u8 : ℕ → ℤ
of_u8 w = if ltb w 128 then pos w else negsuc (255 - w)

-- The values of int16_t.
abbrev pub IsInt16 : ℤ → Type 0
IsInt16 (pos n) = n < 32768
IsInt16 (negsuc n) = n < 32768

pub of_u16-to_u16 : (a : ℤ) → IsInt16 a → of_u16 (to_u16 a) ≡ a
of_u16-to_u16 (pos n) h = ground arith
of_u16-to_u16 (negsuc n) h = ground arith

pub to_u16-of_u16 : (w : ℕ) → w < 65536 → to_u16 (of_u16 w) ≡ w
to_u16-of_u16 w h = ground arith

pub to_u16-lt : (a : ℤ) → to_u16 a < 65536
to_u16-lt (pos n) = omega arith
to_u16-lt (negsuc n) = omega arith

pub of_u16-IsInt16 : (w : ℕ) → w < 65536 → IsInt16 (of_u16 w)
of_u16-IsInt16 w h = ground arith
