-- ===== src/Tcp/Header/Options.antt =====
-- Writing the options of a TCP header: `TcpOptions2::compute_size` and `TcpOptions2::serialize`,
-- inetstack/protocols/tcp/segment.rs.
use capybara.Base.{ℕ, zero, suc, ◌+◌, ◌*◌, List, [], ◌∷◌, ◌++◌, u8, Option, none, some}
use capybara.Base.Panic.{◌>>=◌}
use capybara.Tcp.Header.{
  Sack, TcpOption, no_operation, maximum_segment_size, window_scale, sack_permitted, sack,
  timestamp,
}
use capybara.Wire.{NetworkEndian}

-- `TcpOptions2::compute_size`.
abbrev pub option_size : TcpOption → ℕ
option_size no_operation = 1
option_size (maximum_segment_size mss) = 4
option_size (window_scale scale) = 3
option_size sack_permitted = 2
option_size (sack num_sacks sacks) = 2 + 8 * num_sacks
option_size (timestamp sender echo) = 10

module _ (ne : NetworkEndian) where
  abbrev pub u32_bytes : ℕ → List ℕ
  u32_bytes n = let w = ne.write_u32 n in w.0 ∷ w.1 ∷ w.2 ∷ w.3 ∷ []

  -- `for i in 0..num_sacks` over the array; an index past its end panics.
  abbrev pub sack_bytes : ℕ → List Sack → Option (List ℕ)
  sack_bytes zero sacks = some []
  sack_bytes (suc n) [] = none
  sack_bytes (suc n) (s ∷ sacks) =
      sack_bytes n sacks >>= λ rest. some (u32_bytes s.begin ++ (u32_bytes s.end ++ rest))

  -- `TcpOptions2::serialize`: the bytes that it writes.
  abbrev pub option_bytes : TcpOption → Option (List ℕ)
  option_bytes no_operation = some (1 ∷ [])
  option_bytes (maximum_segment_size mss) =
      let w = ne.write_u16 mss in some (2 ∷ 4 ∷ w.0 ∷ w.1 ∷ [])
  option_bytes (window_scale scale) = some (3 ∷ 3 ∷ scale ∷ [])
  option_bytes sack_permitted = some (4 ∷ 2 ∷ [])
  option_bytes (sack num_sacks sacks) =
      sack_bytes num_sacks sacks >>= λ rest. some (5 ∷ u8 (2 + 8 * u8 num_sacks) ∷ rest)
  option_bytes (timestamp sender echo) = some (8 ∷ 10 ∷ (u32_bytes sender ++ u32_bytes echo))
