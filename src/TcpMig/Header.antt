-- ===== src/TcpMig/Header.antt =====
-- Headers of migration segments, inetstack/protocols/tcpmig/segment/header.rs.
pub mod Laws
use Prim.Native.String.{String}
use capybara.Base.{
  ℕ, ◌+◌, ◌-◌, ◌*◌, ◌/◌, ◌%◌, ◌^◌, List, [], ◌∷◌, ◌++◌, length, get_or, drop, take, Bool, true,
  false, ltb, leb, ◌==◌, ◌!=◌, ◌&&◌, u8, add16, u16_mod, test_bit, bit_or, Option, none, some,
  Errno, Result, fail, if◌then◌else◌,
}
use capybara.Base.Fallible.{ok, reject, ◌>>=◌, ◌>>◌}
use capybara.Ipv4.{Ipv4Header}
use capybara.Wire.{Ipv4Addr, SocketAddrV4, NetworkEndian}

abbrev pub tcpmig_header_size : ℕ
tcpmig_header_size = 28

abbrev pub rps_signal_header_size : ℕ
rps_signal_header_size = 20

abbrev pub magic_number : ℕ
magic_number = 0xcafedead

abbrev pub rps_signal_signature : ℕ
rps_signal_signature = 0xabcdabcd

-- `MigrationStage`.
pub data MigrationStage : Type 0 where
  no_stage : MigrationStage
  rejected : MigrationStage
  prepare_migration : MigrationStage
  prepare_migration_ack : MigrationStage
  connection_state : MigrationStage
  connection_state_ack : MigrationStage
  heartbeat_update : MigrationStage
  heartbeat_response : MigrationStage

-- `self.stage as u8`.
abbrev pub stage_number : MigrationStage → ℕ
stage_number no_stage = 0
stage_number rejected = 1
stage_number prepare_migration = 2
stage_number prepare_migration_ack = 3
stage_number connection_state = 4
stage_number connection_state_ack = 5
stage_number heartbeat_update = 12
stage_number heartbeat_response = 13

-- `MigrationStage::try_from`.
abbrev pub stage_try_from : ℕ → Option MigrationStage
stage_try_from n =
    if n == 0
    then some no_stage
    else if n == 1
    then some rejected
    else if n == 2
    then some prepare_migration
    else if n == 3
    then some prepare_migration_ack
    else if n == 4
    then some connection_state
    else if n == 5
    then some connection_state_ack
    else if n == 12
    then some heartbeat_update
    else if n == 13
    then some heartbeat_response
    else none

-- `TcpMigHeader`.
pub record TcpMigHeader : Type 0 where
  pub origin : SocketAddrV4
  pub client : SocketAddrV4
  pub length : ℕ
  pub fragment_offset : ℕ
  pub flag_load : Bool
  pub flag_next_fragment : Bool
  pub stage : MigrationStage
  pub source_udp_port : ℕ
  pub dest_udp_port : ℕ

-- `TcpMigHeader::new`.
unfoldable pub new : SocketAddrV4 → SocketAddrV4 → ℕ → MigrationStage → ℕ → ℕ → TcpMigHeader
new origin client payload_length stage source_udp_port dest_udp_port = record {
  origin = origin;
  client = client;
  length = add16 tcpmig_header_size payload_length;
  fragment_offset = 0;
  flag_load = false;
  flag_next_fragment = false;
  stage = stage;
  source_udp_port = source_udp_port;
  dest_udp_port = dest_udp_port;
}

-- `TcpMigHeader::swap_src_dst_port`.
unfoldable pub swap_src_dst_port : TcpMigHeader → TcpMigHeader
swap_src_dst_port h = record h {
  source_udp_port = h.dest_udp_port;
  dest_udp_port = h.source_udp_port;
}

-- `TcpMigHeader::serialize_flags_and_stage`.
abbrev pub flags_and_stage : Bool → Bool → MigrationStage → ℕ
flags_and_stage load next stage =
    bit_or (bit_or ((if load then 1 else 0) * 2 ^ 0) ((if next then 1 else 0) * 2 ^ 1))
      (u8 (stage_number stage * 2 ^ 4))

-- `data.chunks_exact(2).remainder()`, padded with zeros.
abbrev pub padded_remainder : List ℕ → ℕ × ℕ
padded_remainder [] = (0, 0)
padded_remainder (b ∷ []) = (b, 0)
padded_remainder (a ∷ b ∷ rest) = padded_remainder rest

module _ (ne : NetworkEndian) where
  -- `.fold(sum, |sum, e| sum.wrapping_add(read_u16(e)))` over `chunks_exact(2)`.
  abbrev pub fold_chunks : List ℕ → ℕ → ℕ
  fold_chunks [] sum = sum
  fold_chunks (b ∷ []) sum = sum
  fold_chunks (a ∷ b ∷ rest) sum = fold_chunks rest (add16 sum (ne.read_u16 a b))

  -- `TcpMigHeader::checksum`.
  pub checksum : Ipv4Header → List ℕ → List ℕ → ℕ
  checksum ipv4_hdr migration_hdr payload =
      let src = ipv4_hdr.src_addr in
      let dst = ipv4_hdr.dst_addr in
      let (b, c) = padded_remainder payload in
      let sum = fold_chunks (src.a ∷ src.b ∷ src.c ∷ src.d ∷ []) 0 in
      let sum = fold_chunks (dst.a ∷ dst.b ∷ dst.c ∷ dst.d ∷ []) sum in
      let sum = fold_chunks (take 6 migration_hdr) sum in
      let sum = fold_chunks (drop 8 migration_hdr) sum in
      let sum = fold_chunks payload sum in
      let sum = fold_chunks (b ∷ c ∷ []) sum in (u16_mod - sum) % u16_mod

  -- `TcpMigHeader::is_tcpmig`.
  pub is_tcpmig : List ℕ → Bool
  is_tcpmig buf =
      leb tcpmig_header_size (length buf)
      && (ne.read_u32 (get_or buf 8 0) (get_or buf 9 0) (get_or buf 10 0) (get_or buf 11 0)
          == magic_number)

  -- `TcpMigHeader::is_rps_signal`.
  pub is_rps_signal : List ℕ → Bool
  is_rps_signal buf =
      leb rps_signal_header_size (length buf)
      && (ne.read_u32 (get_or buf 8 0) (get_or buf 9 0) (get_or buf 10 0) (get_or buf 11 0)
          == rps_signal_signature)

  -- The bytes that `serialize` writes, with a given checksum.
  abbrev pub header_with : TcpMigHeader → ℕ × ℕ → List ℕ
  header_with h sum =
      let src = ne.write_u16 h.source_udp_port in
      let dest = ne.write_u16 h.dest_udp_port in
      let len = ne.write_u16 h.length in
      let magic = ne.write_u32 magic_number in
      let origin = h.origin.ip in
      let origin_port = ne.write_u16 h.origin.port in
      let client = h.client.ip in
      let client_port = ne.write_u16 h.client.port in
      let offset = ne.write_u16 h.fragment_offset in
      src.0
      ∷ src.1
      ∷ dest.0
      ∷ dest.1
      ∷ len.0
      ∷ len.1
      ∷ sum.0
      ∷ sum.1
      ∷ magic.0
      ∷ magic.1
      ∷ magic.2
      ∷ magic.3
      ∷ origin.a
      ∷ origin.b
      ∷ origin.c
      ∷ origin.d
      ∷ origin_port.0
      ∷ origin_port.1
      ∷ client.a
      ∷ client.b
      ∷ client.c
      ∷ client.d
      ∷ client_port.0
      ∷ client_port.1
      ∷ offset.0
      ∷ offset.1
      ∷ flags_and_stage h.flag_load h.flag_next_fragment h.stage
      ∷ 0
      ∷ []

  -- `TcpMigHeader::serialize`: the 28 bytes that it writes.
  pub serialize : TcpMigHeader → Ipv4Header → List ℕ → List ℕ
  serialize h ipv4_hdr payload =
      header_with h (ne.write_u16 (checksum ipv4_hdr (header_with h (ne.write_u16 0)) payload))

  module _ (invalid_stage : ℕ → String) where
    -- `match stage.try_into()`.
    abbrev pub stage_or_error : ℕ → Option MigrationStage → Result MigrationStage
    stage_or_error n (some stage) = ok stage
    stage_or_error n none = fail Errno.ebadmsg (invalid_stage n)

    -- `TcpMigHeader::parse_from_slice`, with the text that `format!` makes for an unknown stage: the
    -- header and the bytes behind it.
    pub parse_from_slice : Ipv4Header → List ℕ → Result (TcpMigHeader × List ℕ)
    parse_from_slice ipv4_hdr buf = do
      reject (ltb (length buf) tcpmig_header_size) Errno.ebadmsg "TCPMig segment too small"
      let magic = ne.read_u32 (get_or buf 8 0) (get_or buf 9 0) (get_or buf 10 0) (get_or buf 11 0)
      reject (magic != magic_number) Errno.ebadmsg "not a TCPMig segment"
      let hdr_buf = take tcpmig_header_size buf
      let source_udp_port = ne.read_u16 (get_or hdr_buf 0 0) (get_or hdr_buf 1 0)
      let dest_udp_port = ne.read_u16 (get_or hdr_buf 2 0) (get_or hdr_buf 3 0)
      let len = ne.read_u16 (get_or hdr_buf 4 0) (get_or hdr_buf 5 0)
      let sum = ne.read_u16 (get_or hdr_buf 6 0) (get_or hdr_buf 7 0)
      let origin_ip : Ipv4Addr = record {
        a = get_or hdr_buf 12 0;
        b = get_or hdr_buf 13 0;
        c = get_or hdr_buf 14 0;
        d = get_or hdr_buf 15 0;
      }
      let origin : SocketAddrV4 = record {
        ip = origin_ip;
        port = ne.read_u16 (get_or hdr_buf 16 0) (get_or hdr_buf 17 0);
      }
      let client_ip : Ipv4Addr = record {
        a = get_or hdr_buf 18 0;
        b = get_or hdr_buf 19 0;
        c = get_or hdr_buf 20 0;
        d = get_or hdr_buf 21 0;
      }
      let client : SocketAddrV4 = record {
        ip = client_ip;
        port = ne.read_u16 (get_or hdr_buf 22 0) (get_or hdr_buf 23 0);
      }
      let fragment_offset = ne.read_u16 (get_or hdr_buf 24 0) (get_or hdr_buf 25 0)
      let flags = get_or hdr_buf 26 0
      let flag_load = test_bit flags 0
      let flag_next_fragment = test_bit flags 1
      let number = flags / 2 ^ 4 % 2 ^ 4
      stage ← stage_or_error number (stage_try_from number)
      let payload_buf = drop tcpmig_header_size buf
      reject ((sum != 0) && (sum != checksum ipv4_hdr hdr_buf payload_buf)) Errno.ebadmsg
          "TCPMig checksum mismatch"
      let header : TcpMigHeader = record {
        origin = origin;
        client = client;
        length = len;
        fragment_offset = fragment_offset;
        flag_load = flag_load;
        flag_next_fragment = flag_next_fragment;
        stage = stage;
        source_udp_port = source_udp_port;
        dest_udp_port = dest_udp_port;
      }
      ok (header, payload_buf)
