-- ===== src/Arp.antt =====
-- ARP messages, inetstack/protocols/arp/packet/header.rs.
pub mod Laws
pub mod Peer
mod Tests
use capybara.Base.{
  ℕ, List, [], ◌∷◌, length, get_or, take, ltb, ◌!=◌, Errno, Result, fail, some, none,
}
use capybara.Base.Fallible.{ok, reject, ◌>>=◌, ◌>>◌}
use capybara.Ethernet2.{mac_at}
use capybara.Wire.{MacAddress, Ipv4Addr, NetworkEndian, FromPrimitive, ipv4_from_u32}

abbrev pub arp_htype_ether2 : ℕ
arp_htype_ether2 = 1

abbrev pub arp_hlen_ether2 : ℕ
arp_hlen_ether2 = 6

abbrev pub arp_ptype_ipv4 : ℕ
arp_ptype_ipv4 = 0x800

abbrev pub arp_plen_ipv4 : ℕ
arp_plen_ipv4 = 4

abbrev pub arp_message_size : ℕ
arp_message_size = 28

-- `ArpOperation`.
pub data ArpOperation : Type 0 where
  request reply : ArpOperation

abbrev pub operation_number : ArpOperation → ℕ
operation_number request = 1
operation_number reply = 2

-- `ArpHeader`.
pub record ArpHeader : Type 0 where
  pub operation : ArpOperation
  pub sender_hardware_addr : MacAddress
  pub sender_protocol_addr : Ipv4Addr
  pub target_hardware_addr : MacAddress
  pub target_protocol_addr : Ipv4Addr

-- `ArpHeader::serialize`: the 28 bytes that it writes.
pub serialize : NetworkEndian → ArpHeader → List ℕ
serialize ne h =
    let htype = ne.write_u16 arp_htype_ether2 in
    let ptype = ne.write_u16 arp_ptype_ipv4 in
    let op = ne.write_u16 (operation_number h.operation) in
    let sha = h.sender_hardware_addr in
    let spa = h.sender_protocol_addr in
    let tha = h.target_hardware_addr in
    let tpa = h.target_protocol_addr in
    htype.0 ∷ htype.1 ∷ ptype.0 ∷ ptype.1 ∷ arp_hlen_ether2 ∷ arp_plen_ipv4 ∷ op.0 ∷ op.1 ∷ sha.m0
    ∷ sha.m1 ∷ sha.m2 ∷ sha.m3 ∷ sha.m4 ∷ sha.m5 ∷ spa.a ∷ spa.b ∷ spa.c ∷ spa.d ∷ tha.m0 ∷ tha.m1
    ∷ tha.m2 ∷ tha.m3 ∷ tha.m4 ∷ tha.m5 ∷ tpa.a ∷ tpa.b ∷ tpa.c ∷ tpa.d ∷ []

module _ (ne : NetworkEndian) (operations : FromPrimitive operation_number) where
  -- `FromPrimitive::from_u16(...).ok_or(...)`.
  abbrev pub operation_from : ℕ → Result ArpOperation
  operation_from n = elim (operations.from n) [
    | some op ↦ ok op
    | none ↦ fail Errno.enotsup "unsupported OPER"
  ]

  -- `Ipv4Addr::from(read_u32(...))` of four bytes.
  abbrev pub ip_at : ℕ → ℕ → ℕ → ℕ → Ipv4Addr
  ip_at a b c d = ipv4_from_u32 (ne.read_u32 a b c d)

  -- `ArpHeader::parse`.
  pub parse : List ℕ → Result ArpHeader
  parse whole = do
    reject (ltb (length whole) arp_message_size) Errno.ebadmsg "ARP message too short"
    let buf = take arp_message_size whole
    let hardware_type = ne.read_u16 (get_or buf 0 0) (get_or buf 1 0)
    reject (hardware_type != arp_htype_ether2) Errno.enotsup "unsupported HTYPE"
    let protocol_type = ne.read_u16 (get_or buf 2 0) (get_or buf 3 0)
    reject (protocol_type != arp_ptype_ipv4) Errno.enotsup "unsupported PTYPE"
    reject (get_or buf 4 0 != arp_hlen_ether2) Errno.enotsup "unsupported HLEN"
    reject (get_or buf 5 0 != arp_plen_ipv4) Errno.enotsup "unsupported PLEN"
    operation ← operation_from (ne.read_u16 (get_or buf 6 0) (get_or buf 7 0))
    ok (record {
      operation = operation;
      sender_hardware_addr = mac_at buf 8;
      sender_protocol_addr =
          ip_at (get_or buf 14 0) (get_or buf 15 0) (get_or buf 16 0) (get_or buf 17 0);
      target_hardware_addr = mac_at buf 18;
      target_protocol_addr =
          ip_at (get_or buf 24 0) (get_or buf 25 0) (get_or buf 26 0) (get_or buf 27 0);
    })
