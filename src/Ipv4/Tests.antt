-- ===== src/Ipv4/Tests.antt =====
-- The laws of IPv4 headers at a concrete datagram.
use capybara.Base.{
  ℕ, ◌≡◌, ◌==◌, refl, arith, List, [], ◌∷◌, ◌++◌, Option, some, none, if◌then◌else◌,
}
use capybara.Base.Fallible.{ok}
use capybara.Wire.{Ipv4Addr, FromPrimitive, big_endian}
use capybara.Ipv4.{IpProtocol, icmpv4, tcp, udp, Ipv4Header, protocol_number, serialize, parse}
use capybara.Ipv4.Bounds.{IsSendable}
use capybara.Ipv4.Laws.{parse-serialize, sent}

abbrev from : ℕ → Option IpProtocol
from n =
    if n == 0x01
    then some icmpv4
    else if n == 0x06
    then some tcp
    else if n == 0x11
    then some udp
    else none

from-number : (p : IpProtocol) → from (protocol_number p) ≡ some p
from-number icmpv4 = refl
from-number tcp = refl
from-number udp = refl

number-from : (n : ℕ) (p : IpProtocol) → from n ≡ some p → protocol_number p ≡ n
number-from n icmpv4 h = ground (arith, h)
number-from n tcp h = ground (arith, h)
number-from n udp h = ground (arith, h)

abbrev protocols : FromPrimitive protocol_number
protocols = record { from = from; from-disc = from-number; disc-from = number-from }

abbrev here : Ipv4Addr
here = record { a = 198; b = 0; c = 0; d = 1 }

abbrev there : Ipv4Addr
there = record { a = 198; b = 0; c = 0; d = 2 }

abbrev header : Ipv4Header
header = record {
  version = 4;
  ihl = 5;
  dscp = 10;
  ecn = 1;
  total_length = 20;
  identification = 77;
  flags = 2;
  fragment_offset = 0;
  ttl = 64;
  protocol = udp;
  header_checksum = 0;
  src_addr = here;
  dst_addr = there;
}

header-IsSendable : IsSendable header
header-IsSendable = record {
  version_four = refl;
  no_options = refl;
  dscp_fits = omega arith;
  ecn_fits = omega arith;
  identification_fits = omega arith;
  flags_fit = omega arith;
  not_evil = refl;
  no_more_fragments = refl;
  first_fragment = refl;
  alive = omega arith;
  ttl_fits = omega arith;
  src_IsAddr = omega arith;
  dst_IsAddr = omega arith;
}

abbrev payload : List ℕ
payload = 1 ∷ 2 ∷ 3 ∷ []

abbrev padding : List ℕ
padding = 0 ∷ 0 ∷ []

parse-serialize_example :
    parse big_endian protocols (serialize big_endian header 3 ++ (payload ++ padding))
    ≡ ok (sent big_endian protocols header 3, payload)
parse-serialize_example =
    parse-serialize big_endian protocols header payload padding header-IsSendable (omega arith)

abbrev datagram : List ℕ
datagram = serialize big_endian header 3 ++ (payload ++ padding)
