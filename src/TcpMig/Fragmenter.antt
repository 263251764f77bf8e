-- ===== src/TcpMig/Fragmenter.antt =====
-- Segments and the generator of their fragments, inetstack/protocols/tcpmig/segment/mod.rs.
pub mod Laws
use capybara.Base.{
  ℕ, zero, suc, ◌+◌, ◌-◌, List, [], ◌∷◌, ◌++◌, length, add16, ltb, leb, ◌==◌, ◌&&◌, Bool, true,
  false, not, Option, none, some, adjust, trim, if◌then◌else◌,
}
use capybara.Base.Panic.{◌>>=◌, ◌>>◌}
use capybara.Ethernet2
use capybara.Ethernet2.{Ethernet2Header}
use capybara.Ipv4
use capybara.Ipv4.{Ipv4Header, ipv4_header_min_size}
use capybara.TcpMig.Header
use capybara.TcpMig.Header.{TcpMigHeader, tcpmig_header_size}
use capybara.Wire.{NetworkEndian}

-- 1500 bytes, less the headers.
abbrev pub max_fragment_size : ℕ
max_fragment_size = 1500 - ipv4_header_min_size - tcpmig_header_size

-- `TcpMigSegment`.
pub record TcpMigSegment : Type 0 where
  pub ethernet2_hdr : Ethernet2Header
  pub ipv4_hdr : Ipv4Header
  pub tcpmig_hdr : TcpMigHeader
  pub payload : List ℕ

-- `TcpMigFragmenter`.
pub record TcpMigFragmenter : Type 0 where
  pub segment : TcpMigSegment
  pub current_fragment : ℕ

-- `TcpMigSegment::fragments`.
abbrev pub fragments : TcpMigSegment → TcpMigFragmenter
fragments segment = record { segment = segment; current_fragment = 0 }

-- `TcpMigSegment::write_header`: the bytes of the three headers.
unfoldable pub write_header : NetworkEndian → TcpMigSegment → List ℕ
write_header ne s =
    Ethernet2.serialize ne s.ethernet2_hdr
    ++ (Ipv4.serialize ne s.ipv4_hdr (tcpmig_header_size + length s.payload)
        ++ Header.serialize ne s.tcpmig_hdr s.ipv4_hdr s.payload)

-- The data of the next fragment, the data left, and whether there is a fragment after it, for
-- fragments of at most `size` bytes.
unfoldable pub cut : ℕ → List ℕ → Option (List ℕ × List ℕ × Bool)
cut size payload = if leb (length payload) size then some (payload, [], false) else (do
  front ← trim (length payload - size) payload
  rest ← adjust size payload
  some (front, rest, true))

-- `TcpMigFragmenter::next`: the fragment, if there is one, and the fragmenter behind it.
unfoldable pub next : TcpMigFragmenter → Option (Option TcpMigSegment × TcpMigFragmenter)
next f =
    let segment = f.segment in
    if (length segment.payload == 0) && not (f.current_fragment == 0) then some (none, f) else (do
      (front, rest, more) ← cut max_fragment_size segment.payload
      let tcpmig_hdr : TcpMigHeader = record (segment.tcpmig_hdr) {
        flag_next_fragment = more;
        fragment_offset = f.current_fragment;
      }
      let fragment : TcpMigSegment = record segment { tcpmig_hdr = tcpmig_hdr; payload = front }
      some (
        some fragment,
        record f {
          segment = record segment { payload = rest };
          current_fragment = add16 f.current_fragment 1;
        },
      ))

-- `for fragment in segment.fragments()`, with fuel for the fragments: `none` also when it runs out.
unfoldable pub collect : ℕ → TcpMigFragmenter → Option (List TcpMigSegment)
collect zero f = none
collect (suc fuel) f = do
  (fragment, f) ← next f
  elim fragment [ none ↦ some [] | some s ↦ collect fuel f >>= λ rest. some (s ∷ rest) ]
