-- ===== src/Ethernet2.antt =====
-- Ethernet frames, inetstack/protocols/ethernet2.
mod Laws
use capybara.Base.{ℕ, List, [], ◌∷◌, length, get_or, drop, ltb, Errno, Result, fail, some, none}
use capybara.Base.Fallible.{ok, reject, ◌>>=◌, ◌>>◌}
use capybara.Wire.{MacAddress, NetworkEndian, FromPrimitive}

pub data EtherType2 : Type 0 where
  arp ipv4 ipv6 : EtherType2

abbrev pub ether_type_number : EtherType2 → ℕ
ether_type_number arp = 0x806
ether_type_number ipv4 = 0x800
ether_type_number ipv6 = 0x86dd

pub record Ethernet2Header : Type 0 where
  pub dst_addr : MacAddress
  pub src_addr : MacAddress
  pub ether_type : EtherType2

abbrev pub ethernet2_header_size : ℕ
ethernet2_header_size = 14

-- `MacAddress::from_bytes` of the six bytes from `i` on.
abbrev pub mac_at : List ℕ → ℕ → MacAddress
mac_at buf i = record {
  m0 = get_or buf i 0;
  m1 = get_or (drop i buf) 1 0;
  m2 = get_or (drop i buf) 2 0;
  m3 = get_or (drop i buf) 3 0;
  m4 = get_or (drop i buf) 4 0;
  m5 = get_or (drop i buf) 5 0;
}

-- `Ethernet2Header::serialize`: the fourteen bytes that it writes.
pub serialize : NetworkEndian → Ethernet2Header → List ℕ
serialize ne h =
    let dst = h.dst_addr in
    let src = h.src_addr in
    let ty = ne.write_u16 (ether_type_number h.ether_type) in
    dst.m0 ∷ dst.m1 ∷ dst.m2 ∷ dst.m3 ∷ dst.m4 ∷ dst.m5 ∷ src.m0 ∷ src.m1 ∷ src.m2 ∷ src.m3 ∷ src.m4
    ∷ src.m5 ∷ ty.0 ∷ ty.1 ∷ []

module _ (ne : NetworkEndian) (types : FromPrimitive ether_type_number) where
  -- `EtherType2::try_from`.
  pub ether_type_try_from : ℕ → Result EtherType2
  ether_type_try_from n = elim (types.from n) [
    | some t ↦ ok t
    | none ↦ fail Errno.enotsup "unsupported ETHERTYPE"
  ]

  -- `Ethernet2Header::parse`: the header and the rest of the buffer. Every byte read lies below
  -- the size that the first test requires.
  pub parse : List ℕ → Result (Ethernet2Header × List ℕ)
  unfolding ether_type_try_from
  parse buf = do
    reject (ltb (length buf) ethernet2_header_size) Errno.ebadmsg "frame too small"
    let dst_addr = mac_at buf 0
    let src_addr = mac_at buf 6
    ether_type ← ether_type_try_from (ne.read_u16 (get_or buf 12 0) (get_or buf 13 0))
    let hdr : Ethernet2Header = record {
      dst_addr = dst_addr;
      src_addr = src_addr;
      ether_type = ether_type;
    }
    ok (hdr, drop ethernet2_header_size buf)
