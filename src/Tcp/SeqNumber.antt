-- ===== src/Tcp/SeqNumber.antt =====
-- `SeqNumber` of tcp/sequence_number.rs. A sequence number is its `u32` value, a number below
-- 2 ^ 32; a comparison reads the wrapped difference as an `i32`.
pub mod Laws
mod Tests
use capybara.Base.{ℕ, ◌^◌, Bool, add32, sub32, ltb, leb, ◌==◌, ◌&&◌, ◌||◌}

-- The sign tests of `x as i32`.
abbrev is_negative : ℕ → Bool
is_negative x = leb (2 ^ 31) x

unfoldable pub add : ℕ → ℕ → ℕ
add a b = add32 a b

unfoldable pub sub : ℕ → ℕ → ℕ
sub a b = sub32 a b

unfoldable pub lt : ℕ → ℕ → Bool
lt a b = is_negative (sub32 a b)

unfoldable pub le : ℕ → ℕ → Bool
le a b = is_negative (sub32 a b) || sub32 a b == 0

unfoldable pub gt : ℕ → ℕ → Bool
gt a b = ltb 0 (sub32 a b) && ltb (sub32 a b) (2 ^ 31)

unfoldable pub ge : ℕ → ℕ → Bool
ge a b = ltb (sub32 a b) (2 ^ 31)
