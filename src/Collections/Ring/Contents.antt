-- ===== src/Collections/Ring/Contents.antt =====
-- The items that are in a circular buffer, as a list.
use capybara.Base.{
  ℕ, zero, suc, ◌+◌, ◌-◌, ◌^◌, ◌≤◌, ◌<◌, ◌≡◌, ◌≢◌, ◌⊎◌, inl, inr, refl, ap, ◌∙◌, arith, List, [],
  ◌∷◌, ◌++◌, length, get_elem?, set, ◌==◌, ==_iff, Bool-cases, if◌then◌else◌, some,
}
use Prim.Native.Nat.{bit_and}
use capybara.Base.Bits.{bit_and_mask, bit_and_mask_full}
use capybara.Collections.Ring.{step}

-- The index behind `i`, and the one `m` places behind it, in an array of `n` elements.
abbrev pub follow : ℕ → ℕ → ℕ
follow n i = if i + 1 == n then 0 else i + 1

unfoldable pub advance : ℕ → ℕ → ℕ → ℕ
advance n i zero = i
advance n i (suc m) = advance n (follow n i) m

-- The mask of a power of two wraps the index around.
pub step-follow : (k i : ℕ) → i < 2 ^ k → step (2 ^ k - 1) i ≡ follow (2 ^ k) i
unfolding step
step-follow k i inside = elim (Bool-cases (i + 1 == 2 ^ k)) [
  | inl last ↦
      let e : i + 1 ≡ 2 ^ k = (==_iff (i + 1) (2 ^ k)).0 last in
      rw last (ap (λ m. bit_and m (2 ^ k - 1)) e ∙ bit_and_mask_full k)
  | inr before ↦ rw before (bit_and_mask k (i + 1) (ground (arith, before, inside)))
]

pub advance_lem :
    (n i m : ℕ)
    → i < n
    → m ≤ n
    → ((i + m < n) × (advance n i m ≡ i + m)) ⊎ ((n ≤ i + m) × (advance n i m + n ≡ i + m))
unfolding advance
advance_lem n i zero inside few = inl (omega arith, omega arith)
advance_lem n i (suc m) inside few = ground (arith, advance_lem n (follow n i) m)

pub advance-suc : (n i m : ℕ) → advance n i (suc m) ≡ follow n (advance n i m)
unfolding advance
advance-suc n i zero = refl
advance-suc n i (suc m) = advance-suc n (follow n i) m

pub follow-lt : (n i : ℕ) → i < n → follow n i < n
follow-lt n i inside = ground arith

pub advance-lt : (n i m : ℕ) → i < n → m ≤ n → advance n i m < n
advance-lt n i m inside few = elim (advance_lem n i m inside few) [
  | inl (before, at) ↦ omega (arith, before, at)
  | inr (behind, at) ↦ omega (arith, behind, at, inside, few)
]

-- Fewer than `n` places on is another place.
pub advance-ne : (n i m : ℕ) → i < n → 1 ≤ m → m < n → advance n i m ≢ i
advance-ne n i m inside some_places few same = elim (advance_lem n i m inside (omega arith)) [
  | inl (before, at) ↦ absurd (omega (arith, at, same))
  | inr (behind, at) ↦ absurd (omega (arith, at, same))
]

module _ {T : Type 0} where
  -- The items `xs` stand in an array of `n` elements from `i` on.
  abbrev pub Holds : ℕ → List T → ℕ → List T → Type 0
  Holds n buffer i [] = Unit
  Holds n buffer i (x ∷ xs) = (get_elem? buffer i ≡ some x) × Holds n buffer (follow n i) xs

  get_elem?-set_other :
      (xs : List T) (i j : ℕ) (v : T) → i ≢ j → get_elem? (set xs i v) j ≡ get_elem? xs j
  get_elem?-set_other [] i j v other = refl
  get_elem?-set_other (x ∷ xs) zero zero v other = absurd (other refl)
  get_elem?-set_other (x ∷ xs) zero (suc j) v other = refl
  get_elem?-set_other (x ∷ xs) (suc i) zero v other = refl
  get_elem?-set_other (x ∷ xs) (suc i) (suc j) v other =
      get_elem?-set_other xs i j v (λ e. other (ap suc e))

  pub get_elem?-set_self :
      (xs : List T) (i : ℕ) (v : T) → i < length xs → get_elem? (set xs i v) i ≡ some v
  get_elem?-set_self [] i v inside = absurd (omega arith)
  get_elem?-set_self (x ∷ xs) zero v inside = refl
  get_elem?-set_self (x ∷ xs) (suc i) v inside = get_elem?-set_self xs i v (omega (arith, inside))

  -- A write behind the items leaves them.
  pub Holds-set :
      (n : ℕ) (buffer : List T) (i : ℕ) (xs : List T) (v : T) (m : ℕ)
      → i < n
      → m < n
      → length xs ≤ m
      → Holds n buffer i xs
      → Holds n (set buffer (advance n i m) v) i xs
  unfolding advance
  Holds-set n buffer i [] v m inside few within holds = tt
  Holds-set n buffer i (x ∷ xs) v zero inside few within holds = absurd (omega (arith, within))
  Holds-set n buffer i (x ∷ xs) v (suc m) inside few within (first, holds) = (
    get_elem?-set_other buffer (advance n i (suc m)) i v
          (advance-ne n i (suc m) inside (omega arith) few)
        ∙ first,
    Holds-set n buffer (follow n i) xs v m (follow-lt n i inside) (omega arith)
        (omega (arith, within)) holds,
  )

  -- The item behind them is one of them once its place is taken in.
  pub Holds-append :
      (n : ℕ) (buffer : List T) (i : ℕ) (xs : List T) (v : T)
      → Holds n buffer i xs
      → get_elem? buffer (advance n i (length xs)) ≡ some v
      → Holds n buffer i (xs ++ (v ∷ []))
  unfolding advance
  Holds-append n buffer i [] v holds there = (there, tt)
  Holds-append n buffer i (x ∷ xs) v (first, holds) there =
      (first, Holds-append n buffer (follow n i) xs v holds there)
