-- ===== src/TcpMig/Fragmenter/Laws.antt =====
-- The fragments of a segment carry its data, in order.
use capybara.Base.{
  ℕ, zero, suc, ◌+◌, ◌-◌, ◌/◌, ◌^◌, ◌≤◌, ◌<◌, ◌≡◌, ◌⊎◌, inl, inr, refl, sym, ap, ◌∙◌, arith, List,
  [], ◌∷◌, ◌++◌, append-nil, length, length-take, length-drop, take, drop, take-append-drop, leb,
  Bool, true, false, Bool-cases, leb→le, some, none, trim_lem, adjust_lem,
}
use capybara.TcpMig.Fragmenter.{
  TcpMigSegment, TcpMigFragmenter, max_fragment_size, cut, next, collect, fragments,
}

-- The fragment of `s` at an offset, with its data.
abbrev pub fragment : TcpMigSegment → ℕ → List ℕ → Bool → TcpMigSegment
fragment s offset payload more = record s {
  tcpmig_hdr = record (s.tcpmig_hdr) { flag_next_fragment = more; fragment_offset = offset };
  payload = payload;
}

-- The fragments of `s` from an offset on, for the data left: full ones and the last one, numbered
-- one after the other, and only the last one without the flag.
pub data AreFragments (s : TcpMigSegment) : ℕ → List ℕ → List TcpMigSegment → Type 0 where
  last :
      {offset : ℕ} {payload : List ℕ}
      → length payload ≤ max_fragment_size
      → AreFragments s offset payload (fragment s offset payload false ∷ [])
  more :
      {offset : ℕ} {payload front rest : List ℕ} {others : List TcpMigSegment}
      → payload ≡ front ++ rest
      → length front ≡ max_fragment_size
      → 1 ≤ length rest
      → AreFragments s (offset + 1) rest others
      → AreFragments s offset payload (fragment s offset front true ∷ others)

-- The data of segments, one after the other.
abbrev pub payloads : List TcpMigSegment → List ℕ
payloads [] = []
payloads (s ∷ segments) = s.payload ++ payloads segments

abbrev at : TcpMigSegment → List ℕ → ℕ → TcpMigFragmenter
at s payload offset = record { segment = record s { payload = payload }; current_fragment = offset }

cut-short :
    (size : ℕ) (payload : List ℕ)
    → length payload ≤ size
    → cut size payload ≡ some (payload, [], false)
unfolding cut
cut-short size payload short = ground (arith, short)

cut-long :
    (size : ℕ) (payload : List ℕ)
    → size < length payload
    → cut size payload ≡ some (take size payload, drop size payload, true)
unfolding cut
cut-long size payload long =
    let all : length payload - (length payload - size) ≡ size = omega (arith, long) in
    rw
      (
        trim_lem (length payload - size) payload (omega arith),
        adjust_lem size payload (omega (arith, long)),
        all,
      )
      (ground (arith, long))

next-cut :
    (s : TcpMigSegment) (payload front rest : List ℕ) (offset : ℕ) (flag : Bool)
    → cut max_fragment_size payload ≡ some (front, rest, flag)
    → (1 ≤ length payload) ⊎ (offset ≡ 0)
    → offset + 1 < 2 ^ 16
    → next (at s payload offset)
      ≡ some (some (fragment s offset front flag), at s rest (offset + 1))
unfolding next
next-cut s payload front rest offset flag e start fits = ground (arith, e, start, fits)

next-end :
    (s : TcpMigSegment) (offset : ℕ)
    → 1 ≤ offset
    → next (at s [] offset) ≡ some (none, at s [] offset)
unfolding next
next-end s offset h = ground (arith, h)

collect-rest :
    (fuel : ℕ) (f : TcpMigFragmenter) (s : TcpMigSegment) (f' : TcpMigFragmenter)
    (others : List TcpMigSegment)
    → next f ≡ some (some s, f')
    → collect fuel f' ≡ some others
    → collect (suc fuel) f ≡ some (s ∷ others)
unfolding collect
collect-rest fuel f s f' others e rest = ground (arith, e, rest)

collect-end :
    (fuel : ℕ) (f f' : TcpMigFragmenter) → next f ≡ some (none, f') → collect (suc fuel) f ≡ some []
unfolding collect
collect-end fuel f f' e = ground (arith, e)

collect_from :
    (fuel : ℕ) (s : TcpMigSegment) (payload : List ℕ) (offset : ℕ)
    → (1 ≤ length payload) ⊎ (offset ≡ 0)
    → offset + length payload / max_fragment_size + 1 < 2 ^ 16
    → length payload / max_fragment_size + 2 ≤ fuel
    → (segments : List TcpMigSegment) × (collect fuel (at s payload offset) ≡ some segments)
      × AreFragments s offset payload segments
collect_from zero s payload offset start fits enough = absurd (omega arith)
collect_from (suc zero) s payload offset start fits enough = absurd (omega arith)
collect_from (suc (suc fuel)) s payload offset start fits enough =
    elim (Bool-cases (leb (length payload) max_fragment_size)) [
      | inl short ↦
          let fit : length payload ≤ max_fragment_size =
            leb→le (length payload) max_fragment_size short in
          (
            fragment s offset payload false ∷ [],
            collect-rest (suc fuel) (at s payload offset) (fragment s offset payload false)
                (at s [] (offset + 1)) []
                (next-cut s payload payload [] offset false
                  (cut-short max_fragment_size payload fit) start (omega arith))
                (collect-end fuel (at s [] (offset + 1)) (at s [] (offset + 1))
                  (next-end s (offset + 1) (omega arith))),
            last fit,
          )
      | inr long ↦
          let beyond : max_fragment_size < length payload = ground (arith, long) in
          let front = take max_fragment_size payload in
          let rest = drop max_fragment_size payload in
          let left = length-drop max_fragment_size payload in
          let (others, e, are) =
            collect_from (suc fuel) s rest (offset + 1) (inl (omega (arith, left, beyond)))
              (omega (arith, left, beyond)) (omega (arith, left, beyond)) in
          (
            fragment s offset front true ∷ others,
            collect-rest (suc fuel) (at s payload offset) (fragment s offset front true)
                (at s rest (offset + 1)) others
                (next-cut s payload front rest offset true
                  (cut-long max_fragment_size payload beyond) start (omega arith))
                e,
            more (sym (take-append-drop max_fragment_size payload))
                (omega (arith, length-take max_fragment_size payload, beyond))
                (omega (arith, left, beyond)) are,
          )
    ]

pub payloads_lem :
    (s : TcpMigSegment) (offset : ℕ) (payload : List ℕ) (segments : List TcpMigSegment)
    → AreFragments s offset payload segments
    → payloads segments ≡ payload
payloads_lem s offset payload [] f = elim f [ ]
payloads_lem s offset payload (x ∷ []) (last short) = append-nil payload
payloads_lem s offset payload (x ∷ segments)
      (more {front} {rest} {others} split full some_left are) =
    ap (◌++◌ front) (payloads_lem s (offset + 1) rest others are) ∙ sym split

-- The generator ends, without a panic, and yields the fragments of the segment: of at most 1452
-- bytes each, numbered from zero, all but the last full and with the flag for a next fragment; and
-- their data, one after the other, are the data of the segment, as long as the number of fragments
-- fits the 16 bits of an offset.
pub collect-AreFragments :
    (s : TcpMigSegment) (fuel : ℕ)
    → length s.payload / max_fragment_size + 1 < 2 ^ 16
    → length s.payload / max_fragment_size + 2 ≤ fuel
    → (segments : List TcpMigSegment) × (collect fuel (fragments s) ≡ some segments)
      × AreFragments s 0 s.payload segments
      × (payloads segments ≡ s.payload)
collect-AreFragments s fuel fits enough =
    let (segments, e, are) =
      collect_from fuel s s.payload 0 (inr refl) (omega (arith, fits)) enough in
    (segments, e, are, payloads_lem s 0 s.payload segments are)
