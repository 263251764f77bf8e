-- ===== src/Udp/Tests.antt =====
-- The laws of UDP headers at a concrete datagram.
use capybara.Base.{ℕ, ◌≡◌, arith, false, List, [], ◌∷◌, ◌++◌}
use capybara.Base.Fallible.{ok}
use capybara.Ipv4
use capybara.Ipv4.{Ipv4Header}
use capybara.Udp.{UdpHeader, serialize, parse}
use capybara.Udp.Laws.{parse_datagram-serialize}
use capybara.Wire.{Ipv4Addr, big_endian}

abbrev here : Ipv4Addr
here = record { a = 198; b = 0; c = 0; d = 1 }

abbrev there : Ipv4Addr
there = record { a = 198; b = 0; c = 0; d = 2 }

abbrev ip : Ipv4Header
ip = record {
  version = 4;
  ihl = 5;
  dscp = 0;
  ecn = 0;
  total_length = 31;
  identification = 0;
  flags = 2;
  fragment_offset = 0;
  ttl = 255;
  protocol = Ipv4.udp;
  header_checksum = 0;
  src_addr = here;
  dst_addr = there;
}

abbrev header : UdpHeader
header = record { src_port = 32; dest_port = 45 }

abbrev payload : List ℕ
payload = 1 ∷ 2 ∷ 3 ∷ []

parse_datagram-serialize_example :
    parse big_endian ip (serialize big_endian header ip payload false ++ payload) false
    ≡ ok (header, payload)
parse_datagram-serialize_example =
    parse_datagram-serialize big_endian ip header payload false false (omega arith) (omega arith)
      (omega arith)

-- A datagram without a checksum.
abbrev datagram : List ℕ
datagram = 0 ∷ 32 ∷ 0 ∷ 45 ∷ 0 ∷ 11 ∷ 0 ∷ 0 ∷ 1 ∷ 2 ∷ 3 ∷ []
