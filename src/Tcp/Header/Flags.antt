-- ===== src/Tcp/Header/Flags.antt =====
-- The two octets of a TCP header that hold flags give them back.
use capybara.Base.{
  ℕ, ◌*◌, ◌/◌, ◌^◌, ◌≤◌, ◌≡◌, refl, arith, Bool, true, false, test_bit, u8, ◌&&◌, List, [], ◌∷◌,
  length, get_or, zero, suc,
}
use capybara.Base.Bits.{bit_or_shifted}
use capybara.Tcp.Header.Segment.{or_flag}

-- Octet 13, as `serialize` puts it together.
abbrev pub octet13 : Bool → Bool → Bool → Bool → Bool → Bool → Bool → Bool → ℕ
octet13 cwr ece urg ack psh rst syn fin =
    let flags = or_flag cwr 7 0 in
    let flags = or_flag ece 6 flags in
    let flags = or_flag urg 5 flags in
    let flags = or_flag ack 4 flags in
    let flags = or_flag psh 3 flags in
    let flags = or_flag rst 2 flags in let flags = or_flag syn 1 flags in or_flag fin 0 flags

abbrev same : Bool → Bool → Bool
same true b = b
same false true = false
same false false = true

same_lem : (a b : Bool) → same a b ≡ true → a ≡ b
same_lem a b h = ground arith

and_lem : (a b : Bool) → (a && b) ≡ true → (a ≡ true) × (b ≡ true)
and_lem a b h = ground arith

-- A test of every list of `n` Booleans, checked by running it.
abbrev every : ℕ → (List Bool → Bool) → Bool
every zero p = p []
every (suc n) p = every n (λ l. p (true ∷ l)) && every n (λ l. p (false ∷ l))

every_lem :
    (n : ℕ) (p : List Bool → Bool) → every n p ≡ true → (l : List Bool) → length l ≡ n → p l ≡ true
every_lem zero p h [] e = h
every_lem zero p h (b ∷ l) e = absurd (omega arith)
every_lem (suc n) p h [] e = absurd (omega arith)
every_lem (suc n) p h (true ∷ l) e = every_lem n (λ l. p (true ∷ l)) (ground arith) l (omega arith)
every_lem (suc n) p h (false ∷ l) e =
    every_lem n (λ l. p (false ∷ l)) (ground arith) l (omega arith)

abbrev octet13_test : Bool → Bool → Bool → Bool → Bool → Bool → Bool → Bool → Bool
octet13_test cwr ece urg ack psh rst syn fin =
    let octet = octet13 cwr ece urg ack psh rst syn fin in
    same (test_bit octet 7) cwr
    && same (test_bit octet 6) ece
    && same (test_bit octet 5) urg
    && same (test_bit octet 4) ack
    && same (test_bit octet 3) psh
    && same (test_bit octet 2) rst
    && same (test_bit octet 1) syn
    && same (test_bit octet 0) fin

octet13_test_all : List Bool → Bool
octet13_test_all l =
    octet13_test (get_or l 0 false) (get_or l 1 false) (get_or l 2 false) (get_or l 3 false)
      (get_or l 4 false) (get_or l 5 false) (get_or l 6 false) (get_or l 7 false)

-- Each flag is the bit that `parse` reads it from.
pub octet13_lem :
    (cwr ece urg ack psh rst syn fin : Bool)
    → (let octet = octet13 cwr ece urg ack psh rst syn fin in
        (test_bit octet 7 ≡ cwr)
        × (test_bit octet 6 ≡ ece)
        × (test_bit octet 5 ≡ urg)
        × (test_bit octet 4 ≡ ack)
        × (test_bit octet 3 ≡ psh)
        × (test_bit octet 2 ≡ rst)
        × (test_bit octet 1 ≡ syn)
        × (test_bit octet 0 ≡ fin))
unfolding octet13_test_all
octet13_lem cwr ece urg ack psh rst syn fin =
    let octet = octet13 cwr ece urg ack psh rst syn fin in
    let checked : octet13_test cwr ece urg ack psh rst syn fin ≡ true =
      every_lem 8 octet13_test_all refl (cwr ∷ ece ∷ urg ∷ ack ∷ psh ∷ rst ∷ syn ∷ fin ∷ []) refl in
    let (h, h0) = and_lem _ (same (test_bit octet 0) fin) checked in
    let (h, h1) = and_lem _ (same (test_bit octet 1) syn) h in
    let (h, h2) = and_lem _ (same (test_bit octet 2) rst) h in
    let (h, h3) = and_lem _ (same (test_bit octet 3) psh) h in
    let (h, h4) = and_lem _ (same (test_bit octet 4) ack) h in
    let (h, h5) = and_lem _ (same (test_bit octet 5) urg) h in
    let (h7, h6) = and_lem (same (test_bit octet 7) cwr) (same (test_bit octet 6) ece) h in
    (
      same_lem (test_bit octet 7) cwr h7,
      same_lem (test_bit octet 6) ece h6,
      same_lem (test_bit octet 5) urg h5,
      same_lem (test_bit octet 4) ack h4,
      same_lem (test_bit octet 3) psh h3,
      same_lem (test_bit octet 2) rst h2,
      same_lem (test_bit octet 1) syn h1,
      same_lem (test_bit octet 0) fin h0,
    )

-- Octet 12 gives back the size of the header and its flag.
pub octet12_lem :
    (ns : Bool) (words : ℕ)
    → words ≤ 15
    → (let octet = or_flag ns 0 (u8 (u8 words * 2 ^ 4)) in
        (octet / 2 ^ 4 ≡ words) × (test_bit octet 0 ≡ ns))
octet12_lem true words h =
    let low : u8 (u8 words * 2 ^ 4) ≡ words * 2 ^ 4 = omega (arith, h) in
    rw low (ground (arith, h, bit_or_shifted 4 words 1 (omega arith)))
octet12_lem false words h = ground (arith, h)
