-- ===== src/Common/Word.antt =====
-- Fixed-width unsigned arithmetic: the casts, the wrapping difference, `~`, and the loop counters.
use Prim.Native.Nat.{ℕ, ◌+◌, ◌-◌, ◌%◌, ◌<◌}
use split_flap.Common.Tests.{if◌then◌else◌, ltb}

abbrev pub u8 : ℕ → ℕ
u8 n = n % 256

abbrev pub u16 : ℕ → ℕ
u16 n = n % 65536

abbrev pub u32 : ℕ → ℕ
u32 n = n % 4294967296

-- `a - b` on uint32_t; 2 ^ 32 is added first since `-` on ℕ stops at 0.
abbrev pub sub32 : ℕ → ℕ → ℕ
sub32 a b = (a + 4294967296 - b) % 4294967296

abbrev pub sub16 : ℕ → ℕ → ℕ
sub16 a b = (a + 65536 - b) % 65536

-- `(uint8_t)~x` and `(uint16_t)~x` of a value that fits.
abbrev pub not8 : ℕ → ℕ
not8 x = 255 - x

abbrev pub not16 : ℕ → ℕ
not16 x = 65535 - x

-- `if (counter < 0xFF) counter++;`
abbrev pub bump8 : ℕ → ℕ
bump8 n = if ltb n 255 then n + 1 else n

abbrev pub bump16 : ℕ → ℕ
bump16 n = if ltb n 65535 then n + 1 else n

abbrev pub IsByte : ℕ → Type 0
IsByte n = n < 256

abbrev pub IsWord16 : ℕ → Type 0
IsWord16 n = n < 65536

abbrev pub IsWord32 : ℕ → Type 0
IsWord32 n = n < 4294967296
