-- ===== src/Ethernet2/Laws.antt =====
-- Round trip and errors of Ethernet headers.
use capybara.Base.{ℕ, ◌<◌, ◌≡◌, arith, List, ◌++◌}
use capybara.Base.Fallible.{ok}
use capybara.Wire.{NetworkEndian, FromPrimitive, read-write_u16}
use capybara.Ethernet2.{
  EtherType2, arp, ipv4, ipv6, Ethernet2Header, ether_type_number, ether_type_try_from, parse,
  serialize,
}

number-lt : (t : EtherType2) → ether_type_number t < 65536
number-lt arp = omega arith
number-lt ipv4 = omega arith
number-lt ipv6 = omega arith

module _ (ne : NetworkEndian) (types : FromPrimitive ether_type_number) where
  -- Parsing what `serialize` wrote, with any payload behind it, gives the header and the payload.
  pub parse_frame-serialize :
      (h : Ethernet2Header) (payload : List ℕ)
      → parse ne types (serialize ne h ++ payload) ≡ ok (h, payload)
  unfolding parse serialize
  parse_frame-serialize h payload =
      rw
        (
          read-write_u16 ne (ether_type_number h.ether_type) (number-lt h.ether_type),
          ether_type_try_from,
          types.from-disc h.ether_type,
        )
        (ground arith)
