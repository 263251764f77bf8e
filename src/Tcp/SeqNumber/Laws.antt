-- ===== src/Tcp/SeqNumber/Laws.antt =====
-- Arithmetic and comparisons on the circle of 2 ^ 32 sequence numbers.
use capybara.Base.{
  ℕ, ◌+◌, ◌-◌, ◌^◌, ◌≤◌, ◌<◌, ◌≡◌, ◌≢◌, ◌⊎◌, inl, inr, ◌↔◌, true, false, Bool-cases, ◌==◌, not,
  arith, ltb, leb,
}
use capybara.Tcp.SeqNumber.{add, sub, lt, le, gt, ge}

pub add-lt-mod : (a b : ℕ) → add a b < 2 ^ 32
unfolding add
add-lt-mod a b = omega arith

pub sub-lt-mod : (a b : ℕ) → sub a b < 2 ^ 32
unfolding sub
sub-lt-mod a b = omega arith

-- Subtraction undoes addition, across the wrap, in both arguments.
pub sub-add : (a n : ℕ) → a < 2 ^ 32 → n < 2 ^ 32 → (sub (add a n) a ≡ n) × (add a (sub n a) ≡ n)
unfolding add sub
sub-add a n ha hn = omega arith

pub add-add : (a m n : ℕ) → add (add a m) n ≡ add a (m + n)
unfolding add
add-add a m n = omega arith

-- The difference of two numbers at offsets from one base is the difference of the offsets.
pub sub-add_offsets :
    (a m n : ℕ) → a < 2 ^ 32 → m ≤ n → n < 2 ^ 32 → sub (add a n) (add a m) ≡ n - m
unfolding add sub
sub-add_offsets a m n ha h hn = omega arith

-- Two sequence numbers at the offsets `m` and `n` from any base compare as the offsets do, by all
-- four operators, as long as the offsets are less than 2 ^ 31 apart.
pub compare-add_offsets :
    (a m n : ℕ)
    → m < n + 2 ^ 31
    → n < m + 2 ^ 31
    → (lt (add a m) (add a n) ≡ ltb m n)
      × (le (add a m) (add a n) ≡ leb m n)
      × (gt (add a m) (add a n) ≡ ltb n m)
      × (ge (add a m) (add a n) ≡ leb n m)
unfolding add lt le gt ge
compare-add_offsets a m n h k = ground arith

-- `a < b` holds exactly when `b` lies 1 to 2 ^ 31 numbers ahead of `a` on the circle.
pub lt-iff_ahead :
    (a b : ℕ) → a < 2 ^ 32 → b < 2 ^ 32 → (lt a b ≡ true) ↔ ((1 ≤ sub b a) × (sub b a ≤ 2 ^ 31))
unfolding lt sub
lt-iff_ahead a b ha hb = ground arith

far : (a b : ℕ) → (sub a b == 2 ^ 31) ≡ false → sub a b ≢ 2 ^ 31
far a b near e = ground (arith, near, e)

-- Two numbers are exactly 2 ^ 31 apart, and then `a < b` and not `b > a`, `a <= b` and not `b >= a`;
-- or `a < b` says the same as `b > a`, and `a <= b` the same as `b >= a`. In either case `a >= b` is
-- the negation of `a < b`.
pub compare_swap :
    (a b : ℕ)
    → a < 2 ^ 32
    → b < 2 ^ 32
    → (((sub a b ≡ 2 ^ 31)
          × (lt a b ≡ true)
          × (gt b a ≡ false)
          × (le a b ≡ true)
          × (ge b a ≡ false))
        ⊎ ((sub a b ≢ 2 ^ 31) × (gt b a ≡ lt a b) × (ge b a ≡ le a b)))
      × (ge a b ≡ not (lt a b))
unfolding lt le gt ge sub
compare_swap a b ha hb = elim (Bool-cases (sub a b == 2 ^ 31)) [
  | inl apart ↦ (inl (ground (arith, apart)), ground arith)
  | inr near ↦ (inr (far a b near, ground (arith, near), ground (arith, near)), ground arith)
]
