-- ===== src/Base/Bits.antt =====
-- `|` of a shifted field and a narrower one is a sum, and `&` with a mask is a remainder. The native operation means `bitwise`, a
-- recursion on binary digits with fuel; one step of it, then induction on the width.
use Prim.Native.Nat.{
  ℕ, zero, suc, ◌+◌, ◌*◌, ◌/◌, ◌%◌, ◌^◌, ◌≤◌, ◌<◌, ◌-◌, max, min, bit_or, bit_and, digits,
  bit_or-bitwise, bit_and-bitwise,
}
use mathlib.Core.Path.{◌≡◌, refl, ap, ap₂}
use native.Mathlib.Nat.{pow-suc}
use native.Mathlib.Omega.{arith}

-- The binary digits of two numbers, combined one by one: more fuel than the first number, or just as
-- much, is all the same.
module _ (rest : ℕ → ℕ) (combine : ℕ → ℕ → ℕ) where
  digits_fuel :
      (few many x y : ℕ)
      → x ≤ few
      → few ≤ many
      → digits rest combine many x y ≡ digits rest combine few x y
  digits_fuel zero zero x y enough more = refl
  digits_fuel zero (suc many) zero y enough more = refl
  digits_fuel zero (suc many) (suc x) y enough more = absurd (omega arith)
  digits_fuel (suc few) zero x y enough more = absurd (omega arith)
  digits_fuel (suc few) (suc many) zero y enough more = refl
  digits_fuel (suc few) (suc many) (suc x) y enough more = omega (
    arith,
    digits_fuel few many (suc x / 2) (y / 2) (omega (arith, enough)) (omega (arith, more)),
  )

zero-bit_or : (b : ℕ) → bit_or 0 b ≡ b
zero-bit_or b = bit_or-bitwise 0 b

or_step : (a b : ℕ) → bit_or a b ≡ bit_or (a / 2) (b / 2) * 2 + max (a % 2) (b % 2)
or_step zero b = omega (arith, zero-bit_or b, zero-bit_or (b / 2))
or_step (suc a) b =
    let fewer =
      digits_fuel (λ x. x) max (suc a / 2) a (suc a / 2) (b / 2) (omega arith) (omega arith) in
    omega (arith, fewer, bit_or-bitwise (suc a / 2) (b / 2), bit_or-bitwise (suc a) b)

or-zero_below : (n a : ℕ) → a ≤ n → bit_or a 0 ≡ a
or-zero_below n zero h = refl
or-zero_below zero (suc a) h = absurd (omega arith)
or-zero_below (suc n) (suc a) h =
    omega (arith, or_step (suc a) 0, or-zero_below n (suc a / 2) (omega arith))

pub bit_or_zero : (a : ℕ) → bit_or a 0 ≡ a
bit_or_zero a = or-zero_below a a (omega arith)

-- `hi << k | lo`, where `lo` fits `k` bits.
pub bit_or_shifted : (k hi lo : ℕ) → lo < 2 ^ k → bit_or (hi * 2 ^ k) lo ≡ hi * 2 ^ k + lo
bit_or_shifted zero hi lo h = ground (arith, bit_or_zero hi)
bit_or_shifted (suc k) hi lo h = ground (
  arith,
  or_step (hi * 2 ^ suc k) lo,
  ap (λ (t : ℕ). hi * t) (pow-suc 2 k),
  pow-suc 2 k,
  bit_or_shifted k hi (lo / 2) (omega (arith, pow-suc 2 k)),
)

and_step : (a b : ℕ) → bit_and a b ≡ bit_and (a / 2) (b / 2) * 2 + min (a % 2) (b % 2)
and_step zero b = omega (arith, bit_and-bitwise 0 b, bit_and-bitwise 0 (b / 2))
and_step (suc a) b =
    let fewer =
      digits_fuel (λ x. 0) min (suc a / 2) a (suc a / 2) (b / 2) (omega arith) (omega arith) in
    omega (arith, fewer, bit_and-bitwise (suc a / 2) (b / 2), bit_and-bitwise (suc a) b)

pub pow_pos : (k : ℕ) → 1 ≤ 2 ^ k
pow_pos zero = omega arith
pow_pos (suc k) = omega (arith, pow-suc 2 k, pow_pos k)

half_pow : (k : ℕ) → 2 ^ suc k / 2 ≡ 2 ^ k
half_pow k = omega (arith, pow-suc 2 k)

half_mask : (k : ℕ) → (2 ^ suc k - 1) / 2 ≡ 2 ^ k - 1
half_mask k = omega (arith, pow-suc 2 k, pow_pos k)

mask_odd : (k : ℕ) → (2 ^ suc k - 1) % 2 ≡ 1
mask_odd k = omega (arith, pow-suc 2 k, pow_pos k)

-- `n & mask`, for the mask of the `k` lowest bits, of a number of `k` bits and of the next one.
pub bit_and_mask : (k n : ℕ) → n < 2 ^ k → bit_and n (2 ^ k - 1) ≡ n
bit_and_mask zero zero fits = refl
bit_and_mask zero (suc n) fits = absurd (omega arith)
bit_and_mask (suc k) n fits = omega (
  arith,
  and_step n (2 ^ suc k - 1),
  mask_odd k,
  ap (bit_and (n / 2)) (half_mask k),
  bit_and_mask k (n / 2) (omega (arith, pow-suc 2 k)),
)

pub bit_and_mask_full : (k : ℕ) → bit_and (2 ^ k) (2 ^ k - 1) ≡ 0
bit_and_mask_full zero = refl
bit_and_mask_full (suc k) = omega (
  arith,
  and_step (2 ^ suc k) (2 ^ suc k - 1),
  pow-suc 2 k,
  ap₂ bit_and (half_pow k) (half_mask k),
  bit_and_mask_full k,
)
