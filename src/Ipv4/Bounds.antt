-- ===== src/Ipv4/Bounds.antt =====
-- The checksum of an IPv4 header, and the bytes of a header that the stack can send.
use capybara.Base.{
  ℕ, ◌+◌, ◌*◌, ◌%◌, ◌^◌, ◌≤◌, ◌<◌, ◌≡◌, refl, ap, arith, List, [], ◌∷◌, get_or, get_or-byte,
  IsBytes, zero, suc, false, test_bit, bit_or, u8, u16, add16,
}
use capybara.Base.Bits.{bit_or_shifted}
use capybara.Checksum.Laws.{finish-lt}
use capybara.Wire.{NetworkEndian, IsAddr, read_u16-lt, write_u16_bytes}
use capybara.Ipv4.{
  Ipv4Header, IpProtocol, icmpv4, tcp, udp, protocol_number, header_bytes, compute_checksum,
  add_words,
}

-- A header that the stack can send: an IPv4 header with no options that is not a fragment.
pub record IsSendable (h : Ipv4Header) : Type 0 where
  pub version_four : h.version ≡ 4
  pub no_options : h.ihl ≡ 5
  pub dscp_fits : h.dscp < 64
  pub ecn_fits : h.ecn < 4
  pub identification_fits : h.identification < 2 ^ 16
  pub flags_fit : h.flags < 8
  pub not_evil : test_bit h.flags 2 ≡ false
  pub no_more_fragments : test_bit h.flags 0 ≡ false
  pub first_fragment : h.fragment_offset ≡ 0
  pub alive : 1 ≤ h.ttl
  pub ttl_fits : h.ttl < 256
  pub src_IsAddr : IsAddr h.src_addr
  pub dst_IsAddr : IsAddr h.dst_addr

number-lt : (p : IpProtocol) → protocol_number p < 256
number-lt icmpv4 = omega arith
number-lt tcp = omega arith
number-lt udp = omega arith

module _ (ne : NetworkEndian) where
  -- Adding up words of octets does not overflow the 32-bit state.
  add_words_bounds :
      (n i : ℕ) (buf : List ℕ) (state : ℕ)
      → IsBytes buf
      → state + n * 65535 < 2 ^ 32
      → (state ≤ add_words ne n i buf state) × (add_words ne n i buf state ≤ state + n * 65535)
  add_words_bounds zero i buf state h fits = omega arith
  add_words_bounds (suc n) i buf state h fits = ground (
    arith,
    get_or-byte buf (2 * i) h,
    get_or-byte buf (2 * i + 1) h,
    read_u16-lt ne (get_or buf (2 * i) 0) (get_or buf (2 * i + 1) 0),
    add_words_bounds n (i + 1) buf
        (state + ne.read_u16 (get_or buf (2 * i) 0) (get_or buf (2 * i + 1) 0)) h,
  )

  -- The checksum of any header fits 16 bits and is never 0xFFFF, the value that `parse` rejects
  -- before it compares.
  pub compute_checksum-lt : (buf : List ℕ) → IsBytes buf → compute_checksum ne buf < 0xffff
  unfolding compute_checksum
  compute_checksum-lt buf h =
      let first = add_words_bounds 5 0 buf 0xffff h (omega arith) in
      let second =
        add_words_bounds 4 6 buf (add_words ne 5 0 buf 0xffff) h (omega (arith, first)) in
      finish-lt (add_words ne 4 6 buf (add_words ne 5 0 buf 0xffff)) (omega (arith, first, second))

  -- The first bytes of a sendable header, as sums.
  version_byte : (h : Ipv4Header) → IsSendable h → bit_or (u8 (h.version * 2 ^ 4)) h.ihl ≡ 69
  version_byte h s = rw (s.version_four, s.no_options)

  dscp_byte :
      (h : Ipv4Header)
      → IsSendable h
      → bit_or (u8 (h.dscp * 2 ^ 2)) (h.ecn % 4) ≡ h.dscp * 4 + h.ecn
  dscp_byte h s = ground (arith, s, bit_or_shifted 2 h.dscp h.ecn)

  flags_word :
      (h : Ipv4Header)
      → IsSendable h
      → bit_or (u16 (h.flags * 2 ^ 13)) (h.fragment_offset % 2 ^ 13) ≡ h.flags * 2 ^ 13
  flags_word h s = ground (arith, s, bit_or_shifted 13 h.flags 0)

  pub header_bytes-IsBytes :
      (h : Ipv4Header) (n : ℕ) → IsSendable h → IsBytes (header_bytes ne h n (0, 0))
  unfolding header_bytes
  header_bytes-IsBytes h n s = ground (
    arith,
    s,
    version_byte h s,
    dscp_byte h s,
    flags_word h s,
    number-lt h.protocol,
    write_u16_bytes ne (add16 20 (u16 n)),
    write_u16_bytes ne h.identification,
    write_u16_bytes ne (h.flags * 2 ^ 13),
  )

  sent_length : (n : ℕ) → 20 + n < 2 ^ 16 → add16 20 (u16 n) ≡ 20 + n
  sent_length n fits = omega arith

  abbrev pub bytes_sent : Ipv4Header → ℕ → ℕ × ℕ → List ℕ
  bytes_sent h n sum =
      let len = ne.write_u16 (20 + n) in
      let id = ne.write_u16 h.identification in
      let src = h.src_addr in
      let dst = h.dst_addr in
      69
      ∷ (h.dscp * 4 + h.ecn)
      ∷ len.0
      ∷ len.1
      ∷ id.0
      ∷ id.1
      ∷ (h.flags * 32)
      ∷ 0
      ∷ h.ttl
      ∷ protocol_number h.protocol
      ∷ sum.0
      ∷ sum.1
      ∷ src.a
      ∷ src.b
      ∷ src.c
      ∷ src.d
      ∷ dst.a
      ∷ dst.b
      ∷ dst.c
      ∷ dst.d
      ∷ []

  pub header_bytes_lem :
      (h : Ipv4Header) (n : ℕ) (sum : ℕ × ℕ)
      → IsSendable h
      → 20 + n < 2 ^ 16
      → header_bytes ne h n sum ≡ bytes_sent h n sum
  unfolding header_bytes
  header_bytes_lem h n sum s fits = ground (
    arith,
    version_byte h s,
    dscp_byte h s,
    flags_word h s,
    ne.write_u16_lem (h.flags * 2 ^ 13),
    s,
    ap ne.write_u16 (sent_length n fits),
  )

  -- The checksum does not read its own bytes.
  pub compute_checksum-header_bytes :
      (h : Ipv4Header) (n : ℕ) (sum : ℕ × ℕ)
      → compute_checksum ne (header_bytes ne h n sum)
        ≡ compute_checksum ne (header_bytes ne h n (0, 0))
  unfolding header_bytes compute_checksum
  compute_checksum-header_bytes h n sum = refl
