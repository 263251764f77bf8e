-- ===== src/Checksum/Laws.antt =====
-- What the carry loop computes, and that its fuel is enough.
use capybara.Base.{
  ℕ, zero, suc, ◌+◌, ◌-◌, ◌/◌, ◌%◌, ◌≤◌, ◌<◌, ◌^◌, ◌≡◌, arith, Bool-cases, ltb, inl, inr,
}
use capybara.Checksum.{fold_carry, finish}

fold_carry-small : (fuel s : ℕ) → s ≤ 0xffff → fold_carry fuel s ≡ s
unfolding fold_carry
fold_carry-small zero s h = ground arith
fold_carry-small (suc f) s h = ground arith

fold_carry-large :
    (fuel s : ℕ) → 0xffff < s → fold_carry (suc fuel) s ≡ fold_carry fuel (s - 0xffff)
unfolding fold_carry
fold_carry-large f s h = ground arith

-- With a round of fuel for each 0xFFFF, the loop ends and leaves the representative from 1 to
-- 0xFFFF of a positive state modulo 0xFFFF.
pub fold_carry_lem :
    (fuel s : ℕ) → 1 ≤ s → s / 0xffff < fuel → fold_carry fuel s ≡ (s - 1) % 0xffff + 1
fold_carry_lem zero s p h = absurd (omega arith)
fold_carry_lem (suc f) s p h = elim (Bool-cases (ltb 0xffff s)) [
  | inl big ↦ ground (arith, fold_carry-large f s, fold_carry_lem f (s - 0xffff))
  | inr small ↦ ground (arith, fold_carry-small (suc f) s)
]

-- The checksum of a positive sum is its complement in 16 bits, 0xFFFE less the residue of the sum
-- less one modulo 0xFFFF: the loop ends within the fuel it is given.
pub finish_lem : (s : ℕ) → 1 ≤ s → finish s ≡ 0xfffe - (s - 1) % 0xffff
unfolding finish
finish_lem s p = omega (arith, fold_carry_lem (s / 0xffff + 1) s p (omega arith))

pub finish-lt : (s : ℕ) → 1 ≤ s → finish s < 0xffff
finish-lt s p = omega (arith, finish_lem s p)

finish_zero : finish 0 < 2 ^ 16
unfolding finish
finish_zero = omega arith

pub finish-lt_u16 : (s : ℕ) → finish s < 2 ^ 16
finish-lt_u16 zero = finish_zero
finish-lt_u16 (suc n) = omega (arith, finish-lt (suc n) (omega arith))
