-- ===== src/Tcp/Header/Tests.antt =====
-- The laws of TCP headers at a segment with three options.
use capybara.Base.{
  ℕ, ◌≤◌, ◌≡◌, ◌⊎◌, refl, arith, inl, true, false, ◌⊎◌, List, [], ◌∷◌, ◌++◌, length, get_or, take,
  drop, some,
}
use capybara.Base.Fallible.{ok}
use capybara.Checksum.{finish}
use capybara.Ipv4
use capybara.Ipv4.{Ipv4Header}
use capybara.Tcp.Header.{TcpHeader, no_operation, maximum_segment_size, window_scale, sack}
use capybara.Tcp.Header.Accepts.{parse_segment-accepts}
use capybara.Tcp.Header.Laws.{parse_segment-serialize}
use capybara.Tcp.Header.OptionLaws.{same, next, mss_fits, scale_fits, sacks_fit}
use capybara.Tcp.Header.OptionReader.{read_options}
use capybara.Tcp.Header.Parser.{
  parse, parse_behind, offset_tests, checked_offset, parse_checked, header_of, no_options,
}
use capybara.Tcp.Header.Pieces.{IsSendable}
use capybara.Tcp.Header.Segment.{compute_size, serialize, tcp_sum}
use capybara.Wire.{Ipv4Addr, big_endian}

abbrev here : Ipv4Addr
here = record { a = 10; b = 0; c = 1; d = 8 }

abbrev there : Ipv4Addr
there = record { a = 10; b = 0; c = 1; d = 9 }

abbrev ip : Ipv4Header
ip = record {
  version = 4;
  ihl = 5;
  dscp = 0;
  ecn = 0;
  total_length = 63;
  identification = 0;
  flags = 2;
  fragment_offset = 0;
  ttl = 255;
  protocol = Ipv4.tcp;
  header_checksum = 0;
  src_addr = here;
  dst_addr = there;
}

abbrev header : TcpHeader
header = record {
  src_port = 10000;
  dst_port = 201;
  seq_num = 4000000000;
  ack_num = 17;
  ns = true;
  cwr = false;
  ece = false;
  urg = false;
  ack = true;
  psh = true;
  rst = false;
  syn = true;
  fin = false;
  window_size = 65535;
  urgent_pointer = 3;
  num_options = 3;
  option_list =
      maximum_segment_size 1460
      ∷ window_scale 7
      ∷ sack 1 (
          record { begin = 5; end = 9 }
          ∷ record { begin = 0; end = 0 }
          ∷ record { begin = 0; end = 0 }
          ∷ record { begin = 0; end = 0 }
          ∷ [])
      ∷ no_operation
      ∷ no_operation
      ∷ [];
}

header-IsSendable : IsSendable header
header-IsSendable = record {
  src_port_fits = omega arith;
  dst_port_fits = omega arith;
  seq_num_fits = omega arith;
  ack_num_fits = omega arith;
  window_fits = omega arith;
  urgent_fits = omega arith;
  at_most = omega arith;
  options = next (mss_fits (omega arith)) (
      next (scale_fits (omega arith))
        (next (sacks_fit (omega arith) (omega arith) (next (omega arith, omega arith) same)) same));
}

header_size : compute_size header ≡ some 40
unfolding compute_size
header_size = refl

abbrev payload : List ℕ
payload = 104 ∷ 105 ∷ 33 ∷ []

parse_segment-serialize_example :
    (bytes : List ℕ) × (serialize big_endian header 40 ip payload false ≡ some bytes)
    × (length bytes ≡ 40)
    × (parse big_endian ip (bytes ++ payload) false ≡ some (ok (header, payload)))
parse_segment-serialize_example =
    parse_segment-serialize big_endian header ip payload 40 false false header-IsSendable
      header_size (omega arith) (inl refl)

-- A segment of twenty bytes and no options, whose checksum is left to the device.
abbrev plain : List ℕ
plain = 39 ∷ 16 ∷ 0 ∷ 201 ∷ 0 ∷ 0 ∷ 0 ∷ 1 ∷ 0 ∷ 0 ∷ 0 ∷ 2 ∷ 80 ∷ 16 ∷ 1 ∷ 0 ∷ 0 ∷ 0 ∷ 0 ∷ 0 ∷ 7 ∷ []

abbrev plain_header : TcpHeader
plain_header = record {
  src_port = 10000;
  dst_port = 201;
  seq_num = 1;
  ack_num = 2;
  ns = false;
  cwr = false;
  ece = false;
  urg = false;
  ack = true;
  psh = false;
  rst = false;
  syn = false;
  fin = false;
  window_size = 256;
  urgent_pointer = 0;
  num_options = 0;
  option_list = no_options;
}

parsed : parse big_endian ip plain true ≡ some (ok (plain_header, 7 ∷ []))
unfolding parse parse_behind checked_offset offset_tests parse_checked read_options header_of
parsed = refl

parse_segment-accepts_example :
    let hdr = take 20 plain in
    (20 ≤ 20)
    × (20 ≤ 60)
    × (20 ≤ length plain)
    × (7 ∷ [] ≡ drop 20 plain)
    × (plain_header.src_port ≡ big_endian.read_u16 (get_or hdr 0 0) (get_or hdr 1 0))
    × (plain_header.dst_port ≡ big_endian.read_u16 (get_or hdr 2 0) (get_or hdr 3 0))
    × (plain_header.num_options ≤ 5)
    × (length plain_header.option_list ≡ 5)
    × ((true ≡ true)
        ⊎ (big_endian.read_u16 (get_or hdr 16 0) (get_or hdr 17 0)
            ≡ finish (tcp_sum big_endian ip hdr (7 ∷ []))))
parse_segment-accepts_example =
    parse_segment-accepts big_endian ip plain true plain_header (7 ∷ []) parsed
