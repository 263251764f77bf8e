-- ===== src/Tcp/Header/Accepts.antt =====
-- What `TcpHeader::parse` accepts, and that it panics on no bytes.
use capybara.Base.{
  Errno, ◌<◌, get_elem?, ltb, Bool-cases, ℕ, zero, suc, ◌+◌, ◌*◌, ◌/◌, ◌%◌, ◌^◌, ◌≤◌, ◌≡◌, ◌⊎◌, inl,
  inr, refl, ap, arith, List, [], ◌∷◌, length, length-take, length-set, get_or, take, drop, set,
  slice, Bool, true, false, some, ◌!=◌, Result, Fail,
}
use capybara.Base.Fallible.{ok, err}
use capybara.Checksum.{finish}
use capybara.Ipv4.{Ipv4Header}
use capybara.Tcp.Header.{TcpHeader, TcpOption, max_tcp_options}
use capybara.Tcp.Header.OptionReader.{read_option, read_options}
use capybara.Tcp.Header.Parser.{
  offset_tests, no_options, header_of, checked_offset, parse_checked, parse,
}
use capybara.Tcp.Header.Pieces.{tcp_checksum-some, parse_passing}
use capybara.Tcp.Header.Segment.{tcp_sum, checksum_fails}
use capybara.Wire.{NetworkEndian}

pub Result-cases {ℓ} :
    {A : Type ℓ} (r : Result A) → ((f : Fail) × (r ≡ err f)) ⊎ ((a : A) × (r ≡ ok a))
Result-cases (err f) = inl (f, refl)
Result-cases (ok a) = inr (a, refl)

get_elem?-get_or : (xs : List ℕ) (i : ℕ) → i < length xs → get_elem? xs i ≡ some (get_or xs i 0)
get_elem?-get_or [] i h = absurd (omega arith)
get_elem?-get_or (x ∷ xs) zero h = refl
get_elem?-get_or (x ∷ xs) (suc i) h = get_elem?-get_or xs i (omega arith)

module _ (ne : NetworkEndian) where
  -- The loop over the options never counts more than the array holds.
  read_options-at_most :
      (fuel : ℕ) (bytes : List ℕ) (n : ℕ) (options : List TcpOption) (m : ℕ)
      (found : List TcpOption)
      → n ≤ max_tcp_options
      → read_options ne fuel bytes n options ≡ ok (m, found)
      → (m ≤ max_tcp_options) × (length found ≡ length options)
  unfolding read_options
  read_options-at_most fuel [] n options m found h e = ground (arith, h, e)
  read_options-at_most zero (kind ∷ rest) n options m found h e = ground (arith, h, e)
  read_options-at_most (suc fuel) (kind ∷ rest) n options m found h e =
      elim (Result-cases (read_option ne kind rest)) [
        | inl (f, failed) ↦
            ground (arith, e, failed, read_options-at_most fuel rest n options m found h)
        | inr ((o, others), read_one) ↦ ground (
          arith,
          e,
          read_one,
          read_options-at_most fuel rest n options m found h,
          read_options-at_most fuel others (n + 1) (set options n o) m found,
          length-set options n o,
        )
      ]

  checksum_fails-total :
      (ip : Ipv4Header) (hdr payload : List ℕ) (offload : Bool)
      → 20 ≤ length hdr
      → length hdr % 2 ≡ 0
      → (wrong : Bool) × (checksum_fails ne offload ip hdr payload ≡ some wrong)
  checksum_fails-total ip hdr payload true long even = (false, refl)
  checksum_fails-total ip hdr payload false long even = (
    ne.read_u16 (get_or hdr 16 0) (get_or hdr 17 0) != finish (tcp_sum ne ip hdr payload),
    rw (tcp_checksum-some ne ip hdr payload long even) refl,
  )

  checksum_right :
      (ip : Ipv4Header) (hdr payload rest : List ℕ) (offload wrong : Bool)
      → 20 ≤ length hdr
      → length hdr % 2 ≡ 0
      → checksum_fails ne offload ip hdr rest ≡ some wrong
      → wrong ≡ false
      → payload ≡ rest
      → (offload ≡ true)
        ⊎ (ne.read_u16 (get_or hdr 16 0) (get_or hdr 17 0) ≡ finish (tcp_sum ne ip hdr payload))
  checksum_right ip hdr payload rest true wrong long even tested right behind = inl refl
  checksum_right ip hdr payload rest false wrong long even tested right behind =
      let found = tcp_checksum-some ne ip hdr rest long even in
      let same : tcp_sum ne ip hdr payload ≡ tcp_sum ne ip hdr rest =
        ap (tcp_sum ne ip hdr) behind in
      inr (ground (arith, tested, found, right, same))

  -- The tests at the beginning refuse the bytes, or the data offset is in bounds; the index does not
  -- panic.
  checked_offset-cases :
      (buf : List ℕ)
      → let offset = get_or buf 12 0 / 2 ^ 4 * 4 in
        ((f : Fail) × (checked_offset buf ≡ some (err f)))
        ⊎ ((checked_offset buf ≡ some (ok offset))
            × (20 ≤ offset)
            × (offset ≤ 60)
            × (offset ≤ length buf))
  unfolding checked_offset offset_tests
  checked_offset-cases buf = elim (Bool-cases (ltb (length buf) 20)) [
    | inl short ↦
        let f : Fail = record { errno = Errno.ebadmsg; cause = "TCP segment too small" } in
        inl (f, rw short refl)
    | inr long ↦
        let byte = get_elem?-get_or buf 12 (ground (arith, long)) in
        let offset = get_or buf 12 0 / 2 ^ 4 * 4 in
        elim (Result-cases (offset_tests buf offset)) [
          | inl (f, failed) ↦ inl (f, ground (arith, long, byte, failed))
          | inr (n, e) ↦ inr (ground (arith, long, byte, e))
        ]
  ]

  parse_checked-accepts :
      (buf : List ℕ) (offset : ℕ) (wrong : Bool) (h : TcpHeader) (payload : List ℕ)
      → parse_checked ne buf offset wrong ≡ ok (h, payload)
      → let hdr = take offset buf in
        (wrong ≡ false)
        × (payload ≡ drop offset buf)
        × (h.src_port ≡ ne.read_u16 (get_or hdr 0 0) (get_or hdr 1 0))
        × (h.dst_port ≡ ne.read_u16 (get_or hdr 2 0) (get_or hdr 3 0))
        × (h.num_options ≤ 5)
        × (length h.option_list ≡ 5)
  unfolding parse_checked header_of
  parse_checked-accepts buf offset wrong h payload e =
      let options = slice (take offset buf) 20 offset in
      elim (Result-cases (read_options ne (length options) options 0 no_options)) [
        | inl (f, failed) ↦ absurd (ground (arith, e, failed))
        | inr ((m, found), read_all) ↦
            let (few, room) =
              read_options-at_most (length options) options 0 no_options m found (omega arith)
                read_all in
            ground (arith, e, read_all, few, room)
      ]

  -- What `parse` accepts: the data offset that the header states is from 20 to 60 bytes and within
  -- the bytes given, the data returned are the bytes behind it, there are at most five options in an
  -- array of five, and the checksum is right unless the check is left to the device.
  pub parse_segment-accepts :
      (ip : Ipv4Header) (buf : List ℕ) (offload : Bool) (h : TcpHeader) (payload : List ℕ)
      → parse ne ip buf offload ≡ some (ok (h, payload))
      → let offset = get_or buf 12 0 / 2 ^ 4 * 4 in
        let hdr = take offset buf in
        (20 ≤ offset)
        × (offset ≤ 60)
        × (offset ≤ length buf)
        × (payload ≡ drop offset buf)
        × (h.src_port ≡ ne.read_u16 (get_or hdr 0 0) (get_or hdr 1 0))
        × (h.dst_port ≡ ne.read_u16 (get_or hdr 2 0) (get_or hdr 3 0))
        × (h.num_options ≤ 5)
        × (length h.option_list ≡ 5)
        × ((offload ≡ true)
            ⊎ (ne.read_u16 (get_or hdr 16 0) (get_or hdr 17 0)
                ≡ finish (tcp_sum ne ip hdr payload)))
  unfolding parse
  parse_segment-accepts ip buf offload h payload e = elim (checked_offset-cases buf) [
    | inl (f, failed) ↦ absurd (ground (arith, e, failed))
    | inr (known, long, short, inside) ↦
        let offset = get_or buf 12 0 / 2 ^ 4 * 4 in
        let (wrong, tested) =
          checksum_fails-total ip (take offset buf) (drop offset buf) offload
            (omega (arith, length-take offset buf, long, inside))
            (omega (arith, length-take offset buf, inside)) in
        let passed = parse_passing ne ip buf offset offload wrong known long inside tested in
        let checked : parse_checked ne buf offset wrong ≡ ok (h, payload) =
          ground (arith, e, passed) in
        let (right, behind, src, dst, few, room) =
          parse_checked-accepts buf offset wrong h payload checked in
        (
          long,
          short,
          inside,
          behind,
          src,
          dst,
          few,
          room,
          checksum_right ip (take offset buf) payload (drop offset buf) offload wrong
              (omega (arith, length-take offset buf, long, inside))
              (omega (arith, length-take offset buf, inside)) tested right behind,
        )
  ]
