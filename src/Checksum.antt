-- ===== src/Checksum.antt =====
-- The end of every ones-complement checksum of the stack (ipv4/datagram.rs, udp/datagram/header.rs,
-- tcp/segment.rs): `while state > 0xFFFF { state -= 0xFFFF; } !state as u16`.
pub mod Laws
use capybara.Base.{ℕ, zero, suc, ◌+◌, ◌-◌, ◌/◌, ltb, if◌then◌else◌, not16, List, [], ◌∷◌, add32}
use capybara.Wire.{NetworkEndian}

-- The loop, with fuel for its rounds.
pub fold_carry : ℕ → ℕ → ℕ
fold_carry zero state = state
fold_carry (suc fuel) state =
    let rest = fold_carry fuel (state - 0xffff) in if ltb 0xffff state then rest else state

-- Each round takes off 0xFFFF, so `state / 0xFFFF` rounds are enough.
pub finish : ℕ → ℕ
unfolding fold_carry
finish state = not16 (fold_carry (state / 0xffff + 1) state)

module _ (ne : NetworkEndian) where
  -- The loop over `data.chunks_exact(2)`, and the last byte of odd data with a zero behind it.
  abbrev pub add_chunks : List ℕ → ℕ → ℕ
  add_chunks [] state = state
  add_chunks (b ∷ []) state = add32 state (ne.read_u16 b 0)
  add_chunks (a ∷ b ∷ rest) state = add_chunks rest (add32 state (ne.read_u16 a b))
