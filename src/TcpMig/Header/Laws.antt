-- ===== src/TcpMig/Header/Laws.antt =====
-- The round trip of `TcpMigHeader::parse_from_slice` with `serialize`.
use Prim.Native.String.{String}
use capybara.Base.{
  ℕ, ◌/◌, ◌%◌, ◌^◌, ◌<◌, ◌≡◌, refl, arith, Bool, List, ◌++◌, test_bit, u16_mod, some,
}
use capybara.Base.Fallible.{ok}
use capybara.Ipv4.{Ipv4Header}
use capybara.TcpMig.Header.{
  MigrationStage, TcpMigHeader, stage_try_from, flags_and_stage, checksum, header_with, serialize,
  parse_from_slice, magic_number,
}
use capybara.Wire.{NetworkEndian, read-write_u16, read-write_u32}

-- The octet of the flags and the stage gives them back.
flags_and_stage_lem :
    (load next : Bool) (stage : MigrationStage)
    → (let octet = flags_and_stage load next stage in
        (test_bit octet 0 ≡ load)
        × (test_bit octet 1 ≡ next)
        × (stage_try_from (octet / 2 ^ 4 % 2 ^ 4) ≡ some stage))
flags_and_stage_lem load next stage = ground arith

-- Headers whose numbers have their widths.
pub record IsSendable (h : TcpMigHeader) : Type 0 where
  pub source_fits : h.source_udp_port < 2 ^ 16
  pub dest_fits : h.dest_udp_port < 2 ^ 16
  pub length_fits : h.length < 2 ^ 16
  pub offset_fits : h.fragment_offset < 2 ^ 16
  pub origin_fits : h.origin.port < 2 ^ 16
  pub client_fits : h.client.port < 2 ^ 16

module _ (ne : NetworkEndian) where
  checksum-lt : (ip : Ipv4Header) (hdr payload : List ℕ) → checksum ne ip hdr payload < u16_mod
  unfolding checksum
  checksum-lt ip hdr payload = omega arith

  -- The checksum does not read its own two bytes.
  checksum_same :
      (ip : Ipv4Header) (h : TcpMigHeader) (payload : List ℕ) (sum sum' : ℕ × ℕ)
      → checksum ne ip (header_with ne h sum) payload
        ≡ checksum ne ip (header_with ne h sum') payload
  unfolding checksum
  checksum_same ip h payload sum sum' = refl

  module _ (invalid_stage : ℕ → String) where
    -- Parsing what `serialize` wrote for a header whose numbers have their widths, before any data,
    -- gives back the header, its flags and its stage included, and the data.
    pub parse_from_slice-serialize :
        (h : TcpMigHeader) (ip : Ipv4Header) (payload : List ℕ)
        → IsSendable h
        → parse_from_slice ne invalid_stage ip (serialize ne h ip payload ++ payload)
          ≡ ok (h, payload)
    unfolding parse_from_slice serialize
    parse_from_slice-serialize h ip payload s =
        let sum = checksum ne ip (header_with ne h (ne.write_u16 0)) payload in
        let right = checksum_same ip h payload (ne.write_u16 0) (ne.write_u16 sum) in
        let flags = flags_and_stage_lem h.flag_load h.flag_next_fragment h.stage in
        rw
          (
            read-write_u32 ne magic_number (omega arith),
            read-write_u16 ne h.source_udp_port s.source_fits,
            read-write_u16 ne h.dest_udp_port s.dest_fits,
            read-write_u16 ne h.length s.length_fits,
            read-write_u16 ne h.fragment_offset s.offset_fits,
            read-write_u16 ne h.origin.port s.origin_fits,
            read-write_u16 ne h.client.port s.client_fits,
            read-write_u16 ne sum (checksum-lt ip (header_with ne h (ne.write_u16 0)) payload),
          )
          (ground (arith, right, flags))
