-- ===== src/Udp.antt =====
-- UDP headers, inetstack/protocols/udp/datagram/header.rs.
pub mod Laws
pub mod Queue
pub mod Peer
mod Tests
use capybara.Base.{
  ℕ, ◌+◌, Bool, true, false, List, [], ◌∷◌, length, get_or, drop, take, ltb, ◌==◌, ◌!=◌, ◌&&◌, not,
  u16, add32, Errno, Result, fail, if◌then◌else◌,
}
use capybara.Base.Fallible.{ok, reject, ◌>>=◌, ◌>>◌}
use capybara.Checksum.{finish, add_chunks}
use capybara.Ipv4
use capybara.Ipv4.{Ipv4Header, protocol_number}
use capybara.Wire.{NetworkEndian}

abbrev pub udp_header_size : ℕ
udp_header_size = 8

-- `UdpHeader`.
pub record UdpHeader : Type 0 where
  pub src_port : ℕ
  pub dest_port : ℕ

module _ (ne : NetworkEndian) where
  -- `UdpHeader::checksum`, of the pseudo header, the ports, the length and the data.
  pub checksum : Ipv4Header → List ℕ → List ℕ → ℕ
  checksum ipv4_hdr udp_hdr payload =
      let src = ipv4_hdr.src_addr in
      let dst = ipv4_hdr.dst_addr in
      let state = add32 0xffff (ne.read_u16 src.a src.b) in
      let state = add32 state (ne.read_u16 src.c src.d) in
      let state = add32 state (ne.read_u16 dst.a dst.b) in
      let state = add32 state (ne.read_u16 dst.c dst.d) in
      let state = add32 state (ne.read_u16 0 (protocol_number Ipv4.udp)) in
      let state = add32 state (length udp_hdr + length payload) in
      let state = add32 state (ne.read_u16 (get_or udp_hdr 0 0) (get_or udp_hdr 1 0)) in
      let state = add32 state (ne.read_u16 (get_or udp_hdr 2 0) (get_or udp_hdr 3 0)) in
      let state = add32 state (ne.read_u16 (get_or udp_hdr 4 0) (get_or udp_hdr 5 0)) in
      finish (add_chunks ne payload state)

  -- The bytes that `serialize` writes, with a given checksum.
  abbrev pub header_with : UdpHeader → ℕ → ℕ × ℕ → List ℕ
  header_with h payload_len sum =
      let src = ne.write_u16 h.src_port in
      let dest = ne.write_u16 h.dest_port in
      let len = ne.write_u16 (u16 (udp_header_size + payload_len)) in
      src.0 ∷ src.1 ∷ dest.0 ∷ dest.1 ∷ len.0 ∷ len.1 ∷ sum.0 ∷ sum.1 ∷ []

  -- `UdpHeader::serialize`: the eight bytes that it writes. The checksum does not read its own two
  -- bytes, which hold what the buffer held before and are written here as zeros.
  pub serialize : UdpHeader → Ipv4Header → List ℕ → Bool → List ℕ
  serialize h ipv4_hdr payload checksum_offload =
      let unsummed = header_with h (length payload) (0, 0) in
      let sum = if checksum_offload then 0 else checksum ipv4_hdr unsummed payload in
      header_with h (length payload) (ne.write_u16 sum)

  -- `UdpHeader::parse_from_slice`: the header and the data behind it.
  pub parse : Ipv4Header → List ℕ → Bool → Result (UdpHeader × List ℕ)
  parse ipv4_hdr buf checksum_offload = do
    reject (ltb (length buf) udp_header_size) Errno.ebadmsg "UDP segment too small"
    let hdr_buf = take udp_header_size buf
    let src_port = ne.read_u16 (get_or hdr_buf 0 0) (get_or hdr_buf 1 0)
    let dest_port = ne.read_u16 (get_or hdr_buf 2 0) (get_or hdr_buf 3 0)
    let len = ne.read_u16 (get_or hdr_buf 4 0) (get_or hdr_buf 5 0)
    reject (len != length buf) Errno.ebadmsg "UDP length mismatch"
    let payload_buf = drop udp_header_size buf
    let sum = ne.read_u16 (get_or hdr_buf 6 0) (get_or hdr_buf 7 0)
    reject (not checksum_offload && (sum != 0) && (sum != checksum ipv4_hdr hdr_buf payload_buf))
        Errno.ebadmsg "UDP checksum mismatch"
    ok (record { src_port = src_port; dest_port = dest_port }, payload_buf)
