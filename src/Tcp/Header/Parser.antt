-- ===== src/Tcp/Header/Parser.antt =====
-- `TcpHeader::parse`, inetstack/protocols/tcp/segment.rs.
use capybara.Base.{
  get_elem?, leb, ◌&&◌, ◌||◌, if◌then◌else◌, fail, ℕ, ◌*◌, ◌/◌, ◌^◌, List, length, get_or, take,
  drop, slice, replicate, Bool, ltb, test_bit, Option, none, some, Errno, Result,
}
use capybara.Base.Fallible.{ok, err, reject, ◌>>=◌, ◌>>◌}
use capybara.Base.Panic
use capybara.Ipv4.{Ipv4Header}
use capybara.Tcp.Header.{
  TcpOption, TcpHeader, no_operation, max_tcp_options, min_tcp_header_size, max_tcp_header_size,
}
use capybara.Tcp.Header.OptionReader.{read_options}
use capybara.Tcp.Header.Segment.{checksum_fails}
use capybara.Wire.{NetworkEndian}

-- The tests of the data offset.
unfoldable pub offset_tests : List ℕ → ℕ → Result ℕ
offset_tests buf data_offset = do
  reject (ltb (length buf) data_offset) Errno.ebadmsg "TCP segment smaller than data offset"
  reject (ltb data_offset min_tcp_header_size) Errno.ebadmsg "TCP data offset too small"
  reject (ltb max_tcp_header_size data_offset) Errno.ebadmsg "TCP data offset too large"
  ok data_offset

-- The tests at the beginning of `parse`, and the data offset; `none` is an index out of bounds.
unfoldable pub checked_offset : List ℕ → Option (Result ℕ)
checked_offset buf =
    if ltb (length buf) min_tcp_header_size
    then some (fail Errno.ebadmsg "TCP segment too small")
    else elim (get_elem? buf 12) [
      | none ↦ none
      | some byte ↦ some (offset_tests buf (byte / 2 ^ 4 * 4))
    ]

-- What follows accesses that are in bounds, or a panic.
abbrev pub in_bounds {ℓ} : {A : Type ℓ} → Bool → Option A → Option A
in_bounds inside rest = if inside then rest else none

abbrev pub no_options : List TcpOption
no_options = replicate max_tcp_options no_operation

module _ (ne : NetworkEndian) where
  -- The header that `parse` makes of the bytes of the header and of its options.
  unfoldable pub header_of : List ℕ → ℕ → List TcpOption → TcpHeader
  header_of hdr_buf num_options option_list = record {
    src_port = ne.read_u16 (get_or hdr_buf 0 0) (get_or hdr_buf 1 0);
    dst_port = ne.read_u16 (get_or hdr_buf 2 0) (get_or hdr_buf 3 0);
    seq_num =
        ne.read_u32 (get_or hdr_buf 4 0) (get_or hdr_buf 5 0) (get_or hdr_buf 6 0)
          (get_or hdr_buf 7 0);
    ack_num =
        ne.read_u32 (get_or hdr_buf 8 0) (get_or hdr_buf 9 0) (get_or hdr_buf 10 0)
          (get_or hdr_buf 11 0);
    ns = test_bit (get_or hdr_buf 12 0) 0;
    cwr = test_bit (get_or hdr_buf 13 0) 7;
    ece = test_bit (get_or hdr_buf 13 0) 6;
    urg = test_bit (get_or hdr_buf 13 0) 5;
    ack = test_bit (get_or hdr_buf 13 0) 4;
    psh = test_bit (get_or hdr_buf 13 0) 3;
    rst = test_bit (get_or hdr_buf 13 0) 2;
    syn = test_bit (get_or hdr_buf 13 0) 1;
    fin = test_bit (get_or hdr_buf 13 0) 0;
    window_size = ne.read_u16 (get_or hdr_buf 14 0) (get_or hdr_buf 15 0);
    urgent_pointer = ne.read_u16 (get_or hdr_buf 18 0) (get_or hdr_buf 19 0);
    num_options = num_options;
    option_list = option_list;
  }

  -- The rest of `parse`, once the checksum has been tested, with a round of fuel for each byte of
  -- the options.
  unfoldable pub parse_checked : List ℕ → ℕ → Bool → Result (TcpHeader × List ℕ)
  parse_checked buf data_offset checksum_is_wrong = do
    let hdr_buf = take data_offset buf
    reject checksum_is_wrong Errno.ebadmsg "TCP checksum mismatch"
    let options = slice hdr_buf min_tcp_header_size data_offset
    (num_options, option_list) ← read_options ne (length options) options 0 no_options
    ok (header_of hdr_buf num_options option_list, drop data_offset buf)

  -- What follows the data offset: the slice up to it, the slices of the fields and of the checksum,
  -- and, when that is right, the slices of the urgent pointer and of the options.
  unfoldable pub parse_behind :
      Ipv4Header → List ℕ → Bool → ℕ → Option (Result (TcpHeader × List ℕ))
  parse_behind ipv4_header buf rx_checksum_offload data_offset =
      let hdr_buf = take data_offset buf in
      let size = length hdr_buf in
      let checked : Bool → Option (Result (TcpHeader × List ℕ)) = λ wrong.
        in_bounds
          (wrong || leb 20 size && (leb data_offset min_tcp_header_size || leb data_offset size))
          (some (parse_checked buf data_offset wrong)) in
      let rest : Option (Result (TcpHeader × List ℕ)) =
        Panic.◌>>=◌
          (checksum_fails ne rx_checksum_offload ipv4_header hdr_buf (drop data_offset buf))
          checked in
      in_bounds
        (leb data_offset (length buf) && leb 16 size && (rx_checksum_offload || leb 18 size)) rest

  -- `TcpHeader::parse`: the header and the data behind it, or the error; `none` is a panic.
  unfoldable pub parse : Ipv4Header → List ℕ → Bool → Option (Result (TcpHeader × List ℕ))
  parse ipv4_header buf rx_checksum_offload = elim (checked_offset buf) [
    | none ↦ none
    | some checked ↦ elim checked [
      | err failure ↦ some (err failure)
      | ok data_offset ↦ parse_behind ipv4_header buf rx_checksum_offload data_offset
    ]
  ]
