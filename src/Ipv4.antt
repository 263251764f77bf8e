-- ===== src/Ipv4.antt =====
-- IPv4 headers, inetstack/protocols/ipv4/datagram.rs and ip/protocol.rs.
mod Bounds
pub mod Laws
mod Tests
use capybara.Base.{
  ℕ, zero, suc, ◌+◌, ◌-◌, ◌*◌, ◌/◌, ◌%◌, ◌^◌, List, [], ◌∷◌, length, get_or, drop, take, ltb, ◌==◌,
  ◌!=◌, u8, u16, add16, add32, test_bit, bit_or, Errno, Result, fail, some, none,
}
use capybara.Base.Fallible.{ok, reject, ◌>>=◌, ◌>>◌}
use capybara.Checksum.{finish}
use capybara.Wire.{Ipv4Addr, NetworkEndian, FromPrimitive, ipv4_from_u32}

-- `IpProtocol`.
pub data IpProtocol : Type 0 where
  icmpv4 tcp udp : IpProtocol

abbrev pub protocol_number : IpProtocol → ℕ
protocol_number icmpv4 = 0x01
protocol_number tcp = 0x06
protocol_number udp = 0x11

pub record Ipv4Header : Type 0 where
  pub version : ℕ
  pub ihl : ℕ
  pub dscp : ℕ
  pub ecn : ℕ
  pub total_length : ℕ
  pub identification : ℕ
  pub flags : ℕ
  pub fragment_offset : ℕ
  pub ttl : ℕ
  pub protocol : IpProtocol
  pub header_checksum : ℕ
  pub src_addr : Ipv4Addr
  pub dst_addr : Ipv4Addr

abbrev pub ipv4_header_min_size : ℕ
ipv4_header_min_size = 20

abbrev pub ipv4_version : ℕ
ipv4_version = 4

-- `Ipv4Header::new`.
unfoldable pub new : Ipv4Addr → Ipv4Addr → IpProtocol → Ipv4Header
new src_addr dst_addr protocol = record {
  version = ipv4_version;
  ihl = ipv4_header_min_size / 4;
  dscp = 0;
  ecn = 0;
  total_length = ipv4_header_min_size;
  identification = 0;
  flags = 2;
  fragment_offset = 0;
  ttl = 255;
  protocol = protocol;
  header_checksum = 0;
  src_addr = src_addr;
  dst_addr = dst_addr;
}

module _ (ne : NetworkEndian) where
  -- `for i in i..i + n { state += read_u16(&buf[2 * i..2 * i + 2]) }`
  abbrev pub add_words : ℕ → ℕ → List ℕ → ℕ → ℕ
  add_words zero i buf state = state
  add_words (suc n) i buf state =
      add_words n (i + 1) buf
        (add32 state (ne.read_u16 (get_or buf (2 * i) 0) (get_or buf (2 * i + 1) 0)))

  -- `Ipv4Header::compute_checksum`: words 0 to 4 and 6 to 9; word 5 is the checksum itself.
  pub compute_checksum : List ℕ → ℕ
  compute_checksum buf = finish (add_words 4 6 buf (add_words 5 0 buf 0xffff))

  -- The bytes that `serialize` writes, with a given checksum.
  pub header_bytes : Ipv4Header → ℕ → ℕ × ℕ → List ℕ
  header_bytes h payload_len sum =
      let len = ne.write_u16 (add16 ipv4_header_min_size (u16 payload_len)) in
      let id = ne.write_u16 h.identification in
      let frag = ne.write_u16 (bit_or (u16 (h.flags * 2 ^ 13)) (h.fragment_offset % 2 ^ 13)) in
      let src = h.src_addr in
      let dst = h.dst_addr in
      bit_or (u8 (h.version * 2 ^ 4)) h.ihl
      ∷ bit_or (u8 (h.dscp * 2 ^ 2)) (h.ecn % 4)
      ∷ len.0
      ∷ len.1
      ∷ id.0
      ∷ id.1
      ∷ frag.0
      ∷ frag.1
      ∷ h.ttl
      ∷ protocol_number h.protocol
      ∷ sum.0
      ∷ sum.1
      ∷ src.a
      ∷ src.b
      ∷ src.c
      ∷ src.d
      ∷ dst.a
      ∷ dst.b
      ∷ dst.c
      ∷ dst.d
      ∷ []

  -- `Ipv4Header::serialize`: the twenty bytes that it writes. The checksum is computed while its
  -- own two bytes hold what the buffer held before, written here as zeros.
  pub serialize : Ipv4Header → ℕ → List ℕ
  serialize h payload_len =
      let sum = compute_checksum (header_bytes h payload_len (0, 0)) in
      header_bytes h payload_len (ne.write_u16 sum)

  module _ (protocols : FromPrimitive protocol_number) where
    -- `IpProtocol::try_from`.
    pub protocol_try_from : ℕ → Result IpProtocol
    protocol_try_from n = elim (protocols.from n) [
      | some p ↦ ok p
      | none ↦ fail Errno.enotsup "unsupported IPv4 protocol"
    ]

    -- `Ipv4Header::parse`: the header, and the payload with the header and the padding cut off.
    pub parse : List ℕ → Result (Ipv4Header × List ℕ)
    unfolding protocol_try_from compute_checksum
    parse buf = do
      reject (ltb (length buf) ipv4_header_min_size) Errno.ebadmsg "ipv4 datagram too small"
      let version = get_or buf 0 0 / 2 ^ 4
      reject (version != ipv4_version) Errno.enotsup "unsupported IP version"
      let ihl = get_or buf 0 0 % 2 ^ 4
      let hdr_size = ihl * 2 ^ 2
      reject (ltb hdr_size ipv4_header_min_size) Errno.ebadmsg "ipv4 IHL is too small"
      reject (ltb (length buf) hdr_size) Errno.ebadmsg "ipv4 datagram too small to fit in header"
      let hdr_buf = take hdr_size buf
      let dscp = get_or hdr_buf 1 0 / 2 ^ 2
      let ecn = get_or hdr_buf 1 0 % 4
      let total_length = ne.read_u16 (get_or hdr_buf 2 0) (get_or hdr_buf 3 0)
      reject (ltb total_length hdr_size) Errno.ebadmsg "ipv4 datagram smaller than header"
      reject (ltb (length buf) total_length) Errno.ebadmsg "ipv4 datagram size mismatch"
      let identification = ne.read_u16 (get_or hdr_buf 4 0) (get_or hdr_buf 5 0)
      let flags = get_or hdr_buf 6 0 / 2 ^ 5
      reject (test_bit flags 2) Errno.ebadmsg "ipv4 datagram is marked as evil"
      reject (test_bit flags 0) Errno.enotsup "ipv4 fragmentation is not supported"
      let fragment_offset = ne.read_u16 (get_or hdr_buf 6 0) (get_or hdr_buf 7 0) % 2 ^ 13
      reject (fragment_offset != 0) Errno.enotsup "ipv4 fragmentation is not supported"
      let time_to_live = get_or hdr_buf 8 0
      reject (time_to_live == 0) Errno.ebadmsg "ipv4 datagram too old"
      protocol ← protocol_try_from (get_or hdr_buf 9 0)
      let header_checksum = ne.read_u16 (get_or hdr_buf 10 0) (get_or hdr_buf 11 0)
      reject (header_checksum == 0xffff) Errno.ebadmsg "ipv4 checksum invalid"
      reject (header_checksum != compute_checksum hdr_buf) Errno.ebadmsg "ipv4 checksum mismatch"
      let src_addr = ipv4_from_u32 (
          ne.read_u32 (get_or hdr_buf 12 0) (get_or hdr_buf 13 0) (get_or hdr_buf 14 0)
            (get_or hdr_buf 15 0))
      let dst_addr = ipv4_from_u32 (
          ne.read_u32 (get_or hdr_buf 16 0) (get_or hdr_buf 17 0) (get_or hdr_buf 18 0)
            (get_or hdr_buf 19 0))
      let padding_bytes = length buf - total_length
      let payload = drop hdr_size buf
      let header : Ipv4Header = record {
        version = version;
        ihl = ihl;
        dscp = dscp;
        ecn = ecn;
        total_length = total_length;
        identification = identification;
        flags = flags;
        fragment_offset = fragment_offset;
        ttl = time_to_live;
        protocol = protocol;
        header_checksum = header_checksum;
        src_addr = src_addr;
        dst_addr = dst_addr;
      }
      ok (header, take (length payload - padding_bytes) payload)
