-- ===== src/Ipv4/Laws.antt =====
-- What `Ipv4Header::parse` accepts, and its round trip with `serialize`.
use capybara.Base.{
  ℕ, ◌+◌, ◌-◌, ◌*◌, ◌/◌, ◌%◌, ◌^◌, ◌≤◌, ◌<◌, ◌≡◌, ◌≢◌, sym, ◌∙◌, ap, arith, List, [], ◌∷◌, ◌++◌,
  length, take, drop, false, test_bit, some, length-append, length-drop, get_or, take-append,
  Result,
}
use capybara.Base.Fallible.{ok}
use capybara.Wire.{NetworkEndian, FromPrimitive, ipv4_from_u32, read-write_u16, read-addr}
use capybara.Ipv4.{
  Ipv4Header, IpProtocol, protocol_number, protocol_try_from, parse, serialize, header_bytes,
  compute_checksum,
}
use capybara.Ipv4.Bounds.{
  IsSendable, compute_checksum-lt, header_bytes-IsBytes, header_bytes_lem,
  compute_checksum-header_bytes,
}

module _ (ne : NetworkEndian) (protocols : FromPrimitive protocol_number) where
  -- A datagram with no options that passes every test.
  parse_plain :
      (b1 b2 b3 b4 b5 b6 b7 b8 b9 b10 b11 b12 b13 b14 b15 b16 b17 b18 b19 : ℕ) (rest : List ℕ)
      {p : IpProtocol}
      → 20 ≤ ne.read_u16 b2 b3
      → ne.read_u16 b2 b3 ≤ 20 + length rest
      → test_bit (b6 / 2 ^ 5) 2 ≡ false
      → test_bit (b6 / 2 ^ 5) 0 ≡ false
      → ne.read_u16 b6 b7 % 2 ^ 13 ≡ 0
      → 1 ≤ b8
      → protocols.from b9 ≡ some p
      → ne.read_u16 b10 b11 < 0xffff
      → (let hdr =
            69 ∷ b1 ∷ b2 ∷ b3 ∷ b4 ∷ b5 ∷ b6 ∷ b7 ∷ b8 ∷ b9 ∷ b10 ∷ b11 ∷ b12 ∷ b13 ∷ b14 ∷ b15
            ∷ b16 ∷ b17 ∷ b18 ∷ b19 ∷ [] in
          ne.read_u16 b10 b11 ≡ compute_checksum ne hdr
          → parse ne protocols (hdr ++ rest)
            ≡ ok (
              record {
                version = 4;
                ihl = 5;
                dscp = b1 / 2 ^ 2;
                ecn = b1 % 4;
                total_length = ne.read_u16 b2 b3;
                identification = ne.read_u16 b4 b5;
                flags = b6 / 2 ^ 5;
                fragment_offset = 0;
                ttl = b8;
                protocol = p;
                header_checksum = ne.read_u16 b10 b11;
                src_addr = ipv4_from_u32 (ne.read_u32 b12 b13 b14 b15);
                dst_addr = ipv4_from_u32 (ne.read_u32 b16 b17 b18 b19);
              },
              take (length rest - (20 + length rest - ne.read_u16 b2 b3)) rest,
            ))
  unfolding parse protocol_try_from
  parse_plain b1 b2 b3 b4 b5 b6 b7 b8 b9 b10 b11 b12 b13 b14 b15 b16 b17 b18 b19 rest lo hi evil mf
        frag ttl prot cs1 cs2 =
      ground arith

  -- Whatever `parse` accepts is an unfragmented IPv4 datagram whose lengths fit one another, whose
  -- checksum is right and never 0xFFFF, and the payload returned is the part of the buffer from the
  -- end of the header to the total length.
  pub parse-accepts :
      (buf : List ℕ) (h : Ipv4Header) (payload : List ℕ)
      → parse ne protocols buf ≡ ok (h, payload)
      → (h.version ≡ 4)
        × (20 ≤ h.ihl * 4)
        × (h.ihl * 4 ≤ h.total_length)
        × (h.total_length ≤ length buf)
        × (test_bit h.flags 2 ≡ false)
        × (test_bit h.flags 0 ≡ false)
        × (h.fragment_offset ≡ 0)
        × (1 ≤ h.ttl)
        × (h.header_checksum ≡ compute_checksum ne (take (h.ihl * 4) buf))
        × (h.header_checksum ≢ 0xffff)
        × (payload ≡ take (h.total_length - h.ihl * 4) (drop (h.ihl * 4) buf))
  unfolding parse protocol_try_from
  parse-accepts buf h payload e = ground (arith, length-drop (get_or buf 0 0 % 2 ^ 4 * 2 ^ 2) buf)

  -- What `parse` makes of a header: the length and the checksum are those that were written.
  abbrev pub sent : Ipv4Header → ℕ → Ipv4Header
  sent h n = record h {
    total_length = 20 + n;
    header_checksum = compute_checksum ne (header_bytes ne h n (0, 0));
  }

  -- The fields that `parse` reads are those that were sent.
  sent_fields :
      (h : Ipv4Header) (payload padding : List ℕ)
      → IsSendable h
      → 20 + length payload < 2 ^ 16
      → (let n = length payload in
          let len = ne.write_u16 (20 + n) in
          let id = ne.write_u16 h.identification in
          let sum = compute_checksum ne (header_bytes ne h n (0, 0)) in
          let cs = ne.write_u16 sum in
          let src = h.src_addr in
          let dst = h.dst_addr in
          let rest = payload ++ padding in
          ◌≡◌ {A = Result (Ipv4Header × List ℕ)}
            (ok (
              record {
                version = 4;
                ihl = 5;
                dscp = (h.dscp * 4 + h.ecn) / 2 ^ 2;
                ecn = (h.dscp * 4 + h.ecn) % 4;
                total_length = ne.read_u16 len.0 len.1;
                identification = ne.read_u16 id.0 id.1;
                flags = h.flags * 32 / 2 ^ 5;
                fragment_offset = 0;
                ttl = h.ttl;
                protocol = h.protocol;
                header_checksum = ne.read_u16 cs.0 cs.1;
                src_addr = ipv4_from_u32 (ne.read_u32 src.a src.b src.c src.d);
                dst_addr = ipv4_from_u32 (ne.read_u32 dst.a dst.b dst.c dst.d);
              },
              take (length rest - (20 + length rest - ne.read_u16 len.0 len.1)) rest,
            ))
            (ok (sent h n, payload)))
  sent_fields h payload padding s fits =
      let n = length payload in
      let sum = compute_checksum ne (header_bytes ne h n (0, 0)) in
      let sum_lt =
        compute_checksum-lt ne (header_bytes ne h n (0, 0)) (header_bytes-IsBytes ne h n s) in
      let count : length (payload ++ padding) - (20 + length (payload ++ padding) - (20 + n)) ≡ n =
        omega (arith, length-append payload padding) in
      rw
        (
          read-write_u16 ne (20 + n) fits,
          read-write_u16 ne h.identification s.identification_fits,
          read-write_u16 ne sum (omega (arith, sum_lt)),
          read-addr ne h.src_addr s.src_IsAddr,
          read-addr ne h.dst_addr s.dst_IsAddr,
          count,
          take-append payload padding,
        )
        (ground (arith, s))

  -- Parsing what `serialize` wrote for a sendable header, with a payload that fits and any padding
  -- behind it, gives back the header, with its length and checksum filled in, and the payload
  -- without the padding.
  pub parse-serialize :
      (h : Ipv4Header) (payload padding : List ℕ)
      → IsSendable h
      → 20 + length payload < 2 ^ 16
      → parse ne protocols (serialize ne h (length payload) ++ (payload ++ padding))
        ≡ ok (sent h (length payload), payload)
  unfolding serialize
  parse-serialize h payload padding s fits =
      let n = length payload in
      let sum = compute_checksum ne (header_bytes ne h n (0, 0)) in
      let sum_lt =
        compute_checksum-lt ne (header_bytes ne h n (0, 0)) (header_bytes-IsBytes ne h n s) in
      let len = ne.write_u16 (20 + n) in
      let id = ne.write_u16 h.identification in
      let cs = ne.write_u16 sum in
      let src = h.src_addr in
      let dst = h.dst_addr in
      let rlen = read-write_u16 ne (20 + n) fits in
      let rsum = read-write_u16 ne sum (omega (arith, sum_lt)) in
      let rfrag = ne.read_u16_lem (h.flags * 32) 0 (omega (arith, s)) (omega arith) in
      rw (header_bytes_lem ne h n cs s fits) (
        parse_plain (h.dscp * 4 + h.ecn) len.0 len.1 id.0 id.1 (h.flags * 32) 0 h.ttl
          (protocol_number h.protocol) cs.0 cs.1 src.a src.b src.c src.d dst.a dst.b dst.c dst.d
          (payload ++ padding) (rw rlen (omega arith))
          (rw rlen (omega (arith, length-append payload padding))) (ground (arith, s))
          (ground (arith, s)) (rw rfrag (omega arith)) s.alive (protocols.from-disc h.protocol)
          (rw rsum sum_lt)
          (rsum
            ∙ sym (compute_checksum-header_bytes ne h n cs)
            ∙ ap (compute_checksum ne) (header_bytes_lem ne h n cs s fits))
        ∙ sent_fields h payload padding s fits)
