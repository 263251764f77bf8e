-- ===== src/Tcp/Header/Pieces.antt =====
-- What the parts of `TcpHeader::serialize` write, and the parts of `TcpHeader::parse` that read them
-- back.
use capybara.Base.{
  Bool, true, leb, length-take, ℕ, zero, suc, ltb, ltb-false→le, Bool-cases, ◌+◌, ◌-◌, ◌*◌, ◌/◌,
  ◌%◌, ◌^◌, ◌≤◌, ◌<◌, ◌≡◌, inl, inr, refl, ap, ◌∙◌, arith, List, [], ◌∷◌, ◌++◌, length,
  length-append, length-replicate, take, drop, take-append, drop-append, take_all, replicate, slice,
  u8, test_bit, false, some,
}
use capybara.Base.Fallible.{ok}
use capybara.Checksum.{finish}
use capybara.Ipv4.{Ipv4Header}
use capybara.Tcp.Header.{TcpHeader, TcpOption}
use capybara.Tcp.Header.Flags.{octet12_lem, octet13_lem}
use capybara.Tcp.Header.OptionLaws.{Filled, IsReadable, Ends, at_once, by_zero}
use capybara.Tcp.Header.OptionReader.{read_options}
use capybara.Tcp.Header.Parser.{
  no_options, header_of, offset_tests, checked_offset, parse_checked, parse_behind, parse,
}
use capybara.Tcp.Header.Segment.{
  options_bytes, options_size, compute_size, padded_options, tcp_checksum, tcp_sum, or_flag,
  fixed_bytes, checksum_fails,
}
use capybara.Wire.{NetworkEndian, read-write_u16, read-write_u32}

-- Headers whose fields have their widths, whose options are readable, and whose array of options
-- holds what `TcpHeader::new` puts there behind them.
pub record IsSendable (h : TcpHeader) : Type 0 where
  pub src_port_fits : h.src_port < 2 ^ 16
  pub dst_port_fits : h.dst_port < 2 ^ 16
  pub seq_num_fits : h.seq_num < 2 ^ 32
  pub ack_num_fits : h.ack_num < 2 ^ 32
  pub window_fits : h.window_size < 2 ^ 16
  pub urgent_fits : h.urgent_pointer < 2 ^ 16
  pub at_most : h.num_options ≤ 5
  pub options : Filled IsReadable h.num_options no_options h.option_list

module _ (ne : NetworkEndian) where
  -- The checksum of a header of an even length does not panic and fits 16 bits.
  pub tcp_checksum-some :
      (ip : Ipv4Header) (hdr payload : List ℕ)
      → 20 ≤ length hdr
      → length hdr % 2 ≡ 0
      → tcp_checksum ne ip hdr payload ≡ some (finish (tcp_sum ne ip hdr payload))
  unfolding tcp_checksum
  tcp_checksum-some ip hdr payload long even = ground (arith, long, even)

  pub tcp_sum_same :
      (ip : Ipv4Header) (h : TcpHeader) (size : ℕ) (options payload : List ℕ) (sum sum' : ℕ × ℕ)
      → tcp_sum ne ip (fixed_bytes ne h size sum ++ options) payload
        ≡ tcp_sum ne ip (fixed_bytes ne h size sum' ++ options) payload
  unfolding tcp_sum
  tcp_sum_same ip h size options payload sum sum' = refl

  -- The fixed bytes and the options behind them, as `serialize` leaves them.
  abbrev pub whole : TcpHeader → ℕ → ℕ × ℕ → List ℕ → List ℕ
  whole h size sum options = fixed_bytes ne h size sum ++ options

  pub checked_offset-whole :
      (h : TcpHeader) (words : ℕ) (sum : ℕ × ℕ) (options payload : List ℕ)
      → 5 ≤ words
      → words ≤ 15
      → 20 + length options ≡ words * 4
      → checked_offset (whole h (words * 4) sum options ++ payload) ≡ some (ok (words * 4))
  unfolding checked_offset offset_tests
  checked_offset-whole h words sum options payload lo hi len =
      let quarter : words * 4 / 4 ≡ words = omega arith in
      rw (quarter, (octet12_lem h.ns words hi).0)
        (ground (arith, lo, hi, len, length-append options payload))

  -- A data offset that is in bounds, and what the checksum says: no access panics.
  pub parse_passing :
      (ip : Ipv4Header) (buf : List ℕ) (size : ℕ) (offload wrong : Bool)
      → checked_offset buf ≡ some (ok size)
      → 20 ≤ size
      → size ≤ length buf
      → checksum_fails ne offload ip (take size buf) (drop size buf) ≡ some wrong
      → parse ne ip buf offload ≡ some (parse_checked ne buf size wrong)
  unfolding parse parse_behind
  parse_passing ip buf size offload wrong e long inside f =
      let len : length (take size buf) ≡ size = omega (arith, length-take size buf, inside) in
      let all : leb size (length buf) ≡ true = ground (arith, inside) in
      let fields : leb 16 (length (take size buf)) ≡ true = ground (arith, len, long) in
      let sum : leb 18 (length (take size buf)) ≡ true = ground (arith, len, long) in
      let pointer : leb 20 (length (take size buf)) ≡ true = ground (arith, len, long) in
      let options : leb size (length (take size buf)) ≡ true = ground (arith, len) in
      ground (arith, e, f, all, fields, sum, pointer, options)

  -- The fields are read back from where they were written.
  header_of-whole :
      (h : TcpHeader) (words : ℕ) (sum : ℕ × ℕ) (options : List ℕ)
      → IsSendable h
      → words ≤ 15
      → header_of ne (whole h (words * 4) sum options) h.num_options h.option_list ≡ h
  unfolding header_of
  header_of-whole h words sum options s hi =
      let quarter : words * 4 / 4 ≡ words = omega arith in
      let flags = octet13_lem h.cwr h.ece h.urg h.ack h.psh h.rst h.syn h.fin in
      let ns : test_bit (or_flag h.ns 0 (u8 (u8 (words * 4 / 4) * 2 ^ 4))) 0 ≡ h.ns =
        ap (λ w. test_bit (or_flag h.ns 0 (u8 (u8 w * 2 ^ 4))) 0) quarter
        ∙ (octet12_lem h.ns words hi).1 in
      λ i. record {
        src_port = read-write_u16 ne h.src_port s.src_port_fits i;
        dst_port = read-write_u16 ne h.dst_port s.dst_port_fits i;
        seq_num = read-write_u32 ne h.seq_num s.seq_num_fits i;
        ack_num = read-write_u32 ne h.ack_num s.ack_num_fits i;
        ns = ns i;
        cwr = flags.0 i;
        ece = flags.1 i;
        urg = flags.2 i;
        ack = flags.3 i;
        psh = flags.4 i;
        rst = flags.5 i;
        syn = flags.6 i;
        fin = flags.7 i;
        window_size = read-write_u16 ne h.window_size s.window_fits i;
        urgent_pointer = read-write_u16 ne h.urgent_pointer s.urgent_fits i;
        num_options = h.num_options;
        option_list = h.option_list;
      }

  pub parse_checked-whole :
      (h : TcpHeader) (words : ℕ) (sum : ℕ × ℕ) (written tail payload : List ℕ)
      → IsSendable h
      → words ≤ 15
      → 20 + length (written ++ tail) ≡ words * 4
      → ((fuel : ℕ)
          → length written ≤ fuel
          → read_options ne fuel (written ++ tail) 0 no_options ≡ ok (h.num_options, h.option_list))
      → parse_checked ne (whole h (words * 4) sum (written ++ tail) ++ payload) (words * 4) false
        ≡ ok (h, payload)
  unfolding parse_checked
  parse_checked-whole h words sum written tail payload s hi len back =
      let options = written ++ tail in
      let hdr = whole h (words * 4) sum options in
      let size : words * 4 ≡ length hdr = omega (arith, len) in
      let cut : take (words * 4) (hdr ++ payload) ≡ hdr =
        ap (λ n. take n (hdr ++ payload)) size ∙ take-append hdr payload in
      let rest : drop (words * 4) (hdr ++ payload) ≡ payload =
        ap (λ n. drop n (hdr ++ payload)) size ∙ drop-append hdr payload in
      let inner : slice hdr 20 (words * 4) ≡ options =
        take_all (words * 4 - 20) options (omega (arith, len)) in
      let read = back (length options) (omega (arith, length-append written tail)) in
      rw (cut, rest, inner, read)
        (ap (λ (m : TcpHeader). ok (m, payload)) (header_of-whole h words sum options s hi))

  no_options_size :
      (n : ℕ) (options : List TcpOption) (size : ℕ)
      → n ≡ 0
      → options_size n options ≡ some size
      → size ≡ 0
  no_options_size zero options size e f = ground (arith, f)
  no_options_size (suc n) options size e f = absurd (omega (arith, e))

  -- What `padded_options` puts behind the options, and that it fills the header up to its size.
  pub padded_options-fills :
      (h : TcpHeader) (size : ℕ) (written : List ℕ)
      → options_bytes ne h.num_options h.option_list ≡ some written
      → options_size h.num_options h.option_list ≡ some (length written)
      → compute_size h ≡ some size
      → (tail : List ℕ) × (padded_options ne h (size - 20) ≡ some (written ++ tail))
        × Ends tail
        × (20 + length (written ++ tail) ≡ size)
        × (size / 4 * 4 ≡ size)
  unfolding padded_options compute_size
  padded_options-fills h size written bytes sizes e = elim (Bool-cases (ltb 0 h.num_options)) [
    | inl any ↦
        let pad : List ℕ = replicate (size - 20 - (length written + 1)) 0 in
        let fill = length-append written (0 ∷ pad) in
        let pads = length-replicate {A = ℕ} (size - 20 - (length written + 1)) 0 in
        let top : size ≡ (20 + length written + 1 + 3) / 4 * 4 = ground (arith, e, sizes, any) in
        (
          0 ∷ pad,
          rw bytes (ground (arith, any, top)),
          by_zero,
          omega (arith, fill, pads, top),
          omega (arith, top),
        )
    | inr empty ↦
        let none_written =
          no_options_size h.num_options h.option_list (length written)
            (omega (arith, ltb-false→le 0 h.num_options empty)) sizes in
        let top : size ≡ 20 = ground (arith, e, sizes, empty, none_written) in
        (
          [],
          rw bytes (ground (arith, empty, top, none_written)),
          at_once,
          omega (arith, top, length-append written [], none_written),
          omega (arith, top),
        )
  ]
