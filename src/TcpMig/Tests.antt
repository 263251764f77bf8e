-- ===== src/TcpMig/Tests.antt =====
-- The laws of migration segments at concrete headers and data.
use capybara.Base.{
  ℕ, zero, suc, ◌≡◌, ◌≢◌, ◌⊎◌, refl, arith, true, false, [], ◌∷◌, ◌++◌, length, replicate, some,
  none, trim, adjust,
}
use capybara.Base.Fallible.{ok}
use capybara.Ethernet2
use capybara.Ethernet2.{Ethernet2Header}
use capybara.Ipv4
use capybara.Ipv4.{Ipv4Header}
use capybara.TcpMig.Defragmenter.{TcpMigDefragmenter, new_defragmenter, defragment}
use capybara.TcpMig.Defragmenter.Fill.{concat}
use capybara.TcpMig.Defragmenter.Laws.{Represents, emptied, whole_header}
use capybara.TcpMig.Defragmenter.Slots.{Slots, mark, bodies, count, present}
use capybara.TcpMig.Fragmenter.{TcpMigSegment, cut, next, collect, fragments}
use capybara.TcpMig.Fragmenter.Laws.{AreFragments, fragment, last, more}
use capybara.TcpMig.Header.{TcpMigHeader, connection_state, serialize, parse_from_slice}
use capybara.TcpMig.Header.Laws.{IsSendable, parse_from_slice-serialize}
use capybara.TcpMig.Reassembly.{Arrives, defragment-Represents}
use capybara.TcpMig.Shuffled.{
  reassemble, slots_of, Shuffled, complete, arrival, reassemble-leftover, reassemble-collect,
}
use capybara.Wire.{Ipv4Addr, MacAddress, big_endian}

abbrev here : Ipv4Addr
here = record { a = 10; b = 0; c = 1; d = 8 }

abbrev there : Ipv4Addr
there = record { a = 10; b = 0; c = 1; d = 9 }

abbrev ip : Ipv4Header
ip = record {
  version = 4;
  ihl = 5;
  dscp = 0;
  ecn = 0;
  total_length = 20;
  identification = 0;
  flags = 2;
  fragment_offset = 0;
  ttl = 255;
  protocol = Ipv4.udp;
  header_checksum = 0;
  src_addr = here;
  dst_addr = there;
}

abbrev mac : MacAddress
mac = record { m0 = 2; m1 = 0; m2 = 0; m3 = 0; m4 = 0; m5 = 1 }

abbrev header : TcpMigHeader
header = record {
  origin = record { ip = here; port = 10000 };
  client = record { ip = there; port = 201 };
  length = 31;
  fragment_offset = 0;
  flag_load = true;
  flag_next_fragment = false;
  stage = connection_state;
  source_udp_port = 10000;
  dest_udp_port = 10001;
}

header-IsSendable : IsSendable header
header-IsSendable = record {
  source_fits = omega arith;
  dest_fits = omega arith;
  length_fits = omega arith;
  offset_fits = omega arith;
  origin_fits = omega arith;
  client_fits = omega arith;
}

parse_from_slice-serialize_example :
    parse_from_slice big_endian
      (λ n. "unknown stage")
      ip
      (serialize big_endian header ip (1 ∷ 2 ∷ 3 ∷ []) ++ (1 ∷ 2 ∷ 3 ∷ []))
    ≡ ok (header, 1 ∷ 2 ∷ 3 ∷ [])
parse_from_slice-serialize_example =
    parse_from_slice-serialize big_endian (λ n. "unknown stage") header ip (1 ∷ 2 ∷ 3 ∷ [])
      header-IsSendable

-- A segment of two fragments.
abbrev segment : TcpMigSegment
segment = record {
  ethernet2_hdr = record { dst_addr = mac; src_addr = mac; ether_type = Ethernet2.ipv4 };
  ipv4_hdr = ip;
  tcpmig_hdr = header;
  payload = replicate 1500 7;
}

abbrev first : TcpMigSegment
first = fragment segment 0 (replicate 1452 7) true

abbrev second : TcpMigSegment
second = fragment segment 1 (replicate 48 7) false

two-AreFragments : AreFragments segment 0 segment.payload (first ∷ second ∷ [])
two-AreFragments = more refl refl (omega arith) (last (omega arith))

-- The second one arrives first.
swapped :
    Shuffled segment (first ∷ second ∷ []) (slots_of (first ∷ second ∷ [])) (second ∷ first ∷ [])
swapped = arrival 1 (omega arith) refl (arrival 0 (omega arith) refl (complete refl))

reassemble-leftover_example :
    (d d' : TcpMigDefragmenter) × (reassemble new_defragmenter (second ∷ first ∷ [])
      ≡ some (d, some (whole_header header, segment.payload), []))
    × (reassemble d (second ∷ first ∷ [])
        ≡ some (
          d',
          some (whole_header header, segment.payload ++ replicate (length segment.payload) 0),
          [],
        ))
reassemble-leftover_example =
    reassemble-leftover segment segment segment.payload segment.payload (first ∷ second ∷ [])
      (first ∷ second ∷ []) (second ∷ first ∷ []) (second ∷ first ∷ []) two-AreFragments
      two-AreFragments (omega arith) (omega arith) swapped swapped

collected : collect 3 (fragments segment) ≡ some (first ∷ second ∷ [])
unfolding collect next cut trim adjust
collected = refl

reassemble-collect_example :
    (d' : TcpMigDefragmenter) × (reassemble new_defragmenter (second ∷ first ∷ [])
      ≡ some (d', some (whole_header header, segment.payload), []))
reassemble-collect_example =
    reassemble-collect segment 3 (first ∷ second ∷ []) (second ∷ first ∷ []) (omega arith)
      (omega arith) (omega arith) collected swapped

-- A message of two short fragments, with nothing received yet.
abbrev slots : Slots
slots = (false, 1 ∷ 2 ∷ []) ∷ (false, 3 ∷ []) ∷ []

none_yet : (j : ℕ) → [] ≡ present slots j
none_yet zero = refl
none_yet (suc zero) = refl
none_yet (suc (suc j)) = refl

new-Represents : Represents 0 slots new_defragmenter
new-Represents = record {
  contents = λ j. none_yet j;
  within = omega arith;
  count_is = refl;
  sized = refl;
  known = λ e. absurd (ground (arith, e));
  unknown = λ e. refl;
}

abbrev late : TcpMigHeader
late = record header { fragment_offset = 1 }

late-Arrives : Arrives slots late (3 ∷ [])
late-Arrives = record { inside = omega arith; new = refl; flag = refl; body = refl }

defragment-Represents_example :
    (d' : TcpMigDefragmenter) × (let marked = mark 1 slots in
      ((count marked ≡ length marked)
        × (defragment new_defragmenter late (3 ∷ [])
            ≡ some (emptied d', some (whole_header late, concat (bodies slots) ++ replicate 0 0)))
        × Represents 0 marked d')
      ⊎ ((count marked ≢ length marked)
          × (defragment new_defragmenter late (3 ∷ []) ≡ some (d', none))
          × Represents 0 marked d'))
defragment-Represents_example =
    defragment-Represents 0 slots new_defragmenter late (3 ∷ []) new-Represents (omega arith)
      (omega arith) late-Arrives
