-- ===== src/Base/Words.antt =====
-- Machine words as native numbers. Release builds wrap on overflow, so every sum and difference
-- is written with its modulus; `-` on ℕ stops at 0, so a difference adds the modulus first.
use Prim.Native.Nat.{ℕ, ◌+◌, ◌-◌, ◌/◌, ◌%◌, ◌^◌}
use mathlib.Core.Bool.{Bool}
use capybara.Base.Tests.{◌==◌}

abbrev pub u16_mod : ℕ
u16_mod = 2 ^ 16

abbrev pub u32_mod : ℕ
u32_mod = 2 ^ 32

abbrev pub u64_mod : ℕ
u64_mod = 2 ^ 64

abbrev pub u8 : ℕ → ℕ
u8 n = n % 256

abbrev pub u16 : ℕ → ℕ
u16 n = n % u16_mod

abbrev pub u32 : ℕ → ℕ
u32 n = n % u32_mod

abbrev pub add16 : ℕ → ℕ → ℕ
add16 a b = (a + b) % u16_mod

abbrev pub add32 : ℕ → ℕ → ℕ
add32 a b = (a + b) % u32_mod

abbrev pub sub32 : ℕ → ℕ → ℕ
sub32 a b = (a + u32_mod - b) % u32_mod

abbrev pub add64 : ℕ → ℕ → ℕ
add64 a b = (a + b) % u64_mod

abbrev pub sub64 : ℕ → ℕ → ℕ
sub64 a b = (a + u64_mod - b) % u64_mod

-- `!x` of a 16-bit word.
abbrev pub not16 : ℕ → ℕ
not16 x = 65535 - x % u16_mod

-- `x & (1 << k) != 0`.
abbrev pub test_bit : ℕ → ℕ → Bool
test_bit x k = (x / 2 ^ k) % 2 == 1
