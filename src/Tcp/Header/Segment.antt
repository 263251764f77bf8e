-- ===== src/Tcp/Header/Segment.antt =====
-- `TcpHeader::push_option`, `compute_size`, `serialize` and `tcp_checksum`,
-- inetstack/protocols/tcp/segment.rs. `none` is a panic.
use capybara.Base.{
  ℕ, zero, suc, ◌+◌, ◌-◌, ◌*◌, ◌/◌, ◌%◌, ◌^◌, List, [], ◌∷◌, ◌++◌, length, get_or, set, drop,
  replicate, Bool, true, false, ltb, leb, ◌==◌, ◌!=◌, bit_or, u8, add32, Option, none, some,
  if◌then◌else◌,
}
use capybara.Base.Panic.{require, ◌>>=◌, ◌>>◌}
use capybara.Checksum.{finish, add_chunks}
use capybara.Ipv4
use capybara.Ipv4.{Ipv4Header, protocol_number}
use capybara.Tcp.Header.{TcpOption, TcpHeader, min_tcp_header_size}
use capybara.Tcp.Header.Options.{option_size, option_bytes}
use capybara.Wire.{NetworkEndian}

-- `TcpHeader::push_option`. The array takes five options, and a sixth panics.
unfoldable pub push_option : TcpHeader → TcpOption → Option TcpHeader
push_option h option =
    require (ltb h.num_options (length h.option_list))
    >> some record h {
      option_list = set h.option_list h.num_options option;
      num_options = h.num_options + 1;
    }

-- `for i in 0..self.num_options { size += self.option_list[i].compute_size(); }`
abbrev pub options_size : ℕ → List TcpOption → Option ℕ
options_size zero options = some 0
options_size (suc n) [] = none
options_size (suc n) (option ∷ options) =
    options_size n options >>= λ rest. some (option_size option + rest)

-- `size.wrapping_add(3) & !0x3`.
abbrev pub round_up : ℕ → ℕ
round_up size = (size + 3) / 4 * 4

-- `TcpHeader::compute_size`.
unfoldable pub compute_size : TcpHeader → Option ℕ
compute_size h = do
  size ← options_size h.num_options h.option_list
  let end = if ltb 0 h.num_options then 1 else 0
  some (round_up (min_tcp_header_size + size + end))

-- `if flag { byte |= 1 << k; }`
abbrev pub or_flag : Bool → ℕ → ℕ → ℕ
or_flag flag k byte = if flag then bit_or byte (2 ^ k) else byte

module _ (ne : NetworkEndian) where
  -- The sum that `tcp_checksum` forms of the pseudo header, the header and the data.
  unfoldable pub tcp_sum : Ipv4Header → List ℕ → List ℕ → ℕ
  tcp_sum ipv4_header header payload =
      let src = ipv4_header.src_addr in
      let dst = ipv4_header.dst_addr in
      let state = add32 0xffff (ne.read_u16 src.a src.b) in
      let state = add32 state (ne.read_u16 src.c src.d) in
      let state = add32 state (ne.read_u16 dst.a dst.b) in
      let state = add32 state (ne.read_u16 dst.c dst.d) in
      let state = add32 state (ne.read_u16 0 (protocol_number Ipv4.tcp)) in
      let state = add32 state (length header + length payload) in
      let state = add32 state (ne.read_u16 (get_or header 0 0) (get_or header 1 0)) in
      let state = add32 state (ne.read_u16 (get_or header 2 0) (get_or header 3 0)) in
      let state = add32 state (ne.read_u16 (get_or header 4 0) (get_or header 5 0)) in
      let state = add32 state (ne.read_u16 (get_or header 6 0) (get_or header 7 0)) in
      let state = add32 state (ne.read_u16 (get_or header 8 0) (get_or header 9 0)) in
      let state = add32 state (ne.read_u16 (get_or header 10 0) (get_or header 11 0)) in
      let state = add32 state (ne.read_u16 (get_or header 12 0) (get_or header 13 0)) in
      let state = add32 state (ne.read_u16 (get_or header 14 0) (get_or header 15 0)) in
      let state = add32 state (ne.read_u16 (get_or header 18 0) (get_or header 19 0)) in
      let state = add_chunks ne (drop min_tcp_header_size header) state in
      add_chunks ne payload state

  -- `tcp_checksum`, with the slice of the fixed header and the assertion on the options' length.
  unfoldable pub tcp_checksum : Ipv4Header → List ℕ → List ℕ → Option ℕ
  tcp_checksum ipv4_header header payload = do
    require (leb min_tcp_header_size (length header))
    require (length header % 2 == 0)
    some (finish (tcp_sum ipv4_header header payload))

  -- The twenty bytes in front of the options, for a header of `size` bytes, with a given checksum.
  abbrev pub fixed_bytes : TcpHeader → ℕ → ℕ × ℕ → List ℕ
  fixed_bytes h size sum =
      let src = ne.write_u16 h.src_port in
      let dst = ne.write_u16 h.dst_port in
      let seq = ne.write_u32 h.seq_num in
      let ack = ne.write_u32 h.ack_num in
      let window = ne.write_u16 h.window_size in
      let urgent = ne.write_u16 h.urgent_pointer in
      let flags = or_flag h.cwr 7 0 in
      let flags = or_flag h.ece 6 flags in
      let flags = or_flag h.urg 5 flags in
      let flags = or_flag h.ack 4 flags in
      let flags = or_flag h.psh 3 flags in
      let flags = or_flag h.rst 2 flags in
      let flags = or_flag h.syn 1 flags in
      let flags = or_flag h.fin 0 flags in
      src.0
      ∷ src.1
      ∷ dst.0
      ∷ dst.1
      ∷ seq.0
      ∷ seq.1
      ∷ seq.2
      ∷ seq.3
      ∷ ack.0
      ∷ ack.1
      ∷ ack.2
      ∷ ack.3
      ∷ or_flag h.ns 0 (u8 (u8 (size / 4) * 2 ^ 4))
      ∷ flags
      ∷ window.0
      ∷ window.1
      ∷ sum.0
      ∷ sum.1
      ∷ urgent.0
      ∷ urgent.1
      ∷ []

  -- `for i in 0..self.num_options { ... self.option_list[i].serialize(...) }`
  abbrev pub options_bytes : ℕ → List TcpOption → Option (List ℕ)
  options_bytes zero options = some []
  options_bytes (suc n) [] = none
  options_bytes (suc n) (option ∷ options) = do
    front ← option_bytes ne option
    rest ← options_bytes n options
    some (front ++ rest)

  -- The options, the end of their list, and zeros up to the end of the buffer of `room` bytes.
  unfoldable pub padded_options : TcpHeader → ℕ → Option (List ℕ)
  padded_options h room = do
    options ← options_bytes h.num_options h.option_list
    let end = if ltb 0 h.num_options then 0 ∷ [] else []
    require (leb (length options + length end) room)
    some (options ++ (end ++ replicate (room - (length options + length end)) 0))

  -- `TcpHeader::serialize`: the bytes that the buffer, which has `room` bytes, then holds. The
  -- checksum does not read its own two bytes, which hold what the buffer held before and are
  -- written here as zeros.
  unfoldable pub serialize : TcpHeader → ℕ → Ipv4Header → List ℕ → Bool → Option (List ℕ)
  serialize h room ipv4_hdr payload tx_checksum_offload = do
    require (leb min_tcp_header_size room)
    size ← compute_size h
    options ← padded_options h (room - min_tcp_header_size)
    let unsummed = fixed_bytes h size (0, 0) ++ options
    let computed = tcp_checksum ipv4_hdr unsummed payload
    sum ← (if tx_checksum_offload then some 0 else computed)
    some (fixed_bytes h size (ne.write_u16 sum) ++ options)

  -- The test that `parse` makes of the checksum unless the device has made it: whether it fails.
  abbrev pub checksum_fails : Bool → Ipv4Header → List ℕ → List ℕ → Option Bool
  checksum_fails true ipv4_header hdr_buf data_buf = some false
  checksum_fails false ipv4_header hdr_buf data_buf = do
    sum ← tcp_checksum ipv4_header hdr_buf data_buf
    some (ne.read_u16 (get_or hdr_buf 16 0) (get_or hdr_buf 17 0) != sum)
