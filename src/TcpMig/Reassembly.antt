-- ===== src/TcpMig/Reassembly.antt =====
-- The fragments of a segment, received in any order, give back the segment's data: the fragmenter
-- and the defragmenter together.
use capybara.Base.{
  ℕ, ◌+◌, ◌-◌, ◌≤◌, ◌<◌, ◌≡◌, ◌≢◌, ◌⊎◌, inl, inr, ap, ◌∙◌, arith, List, ◌++◌, length, replicate,
  false, Bool-cases, none, some, ltb, ◌==◌,
}
use capybara.TcpMig.Defragmenter.{TcpMigDefragmenter, reset, stored, finish_message, defragment}
use capybara.TcpMig.Defragmenter.Fill.{concat, bytes}
use capybara.TcpMig.Defragmenter.Laws.{
  Represents, emptied, whole_header, finish-waits, finish-full, stored-other, stored-last,
  defragment-other, defragment-last,
}
use capybara.TcpMig.Defragmenter.Slots.{
  Slots, received, body_of, mark, bodies, count, length-mark, bodies-mark,
}
use capybara.TcpMig.Header.{TcpMigHeader}

-- A fragment of the message in `slots`, which has not been received before.
pub record Arrives (slots : Slots) (hdr : TcpMigHeader) (buf : List ℕ) : Type 0 where
  pub inside : hdr.fragment_offset < length slots
  pub new : received slots hdr.fragment_offset ≡ false
  pub flag : hdr.flag_next_fragment ≡ ltb (hdr.fragment_offset + 1) (length slots)
  pub body : buf ≡ body_of slots hdr.fragment_offset

total_known :
    (extra : ℕ) (slots : Slots) (d : TcpMigDefragmenter)
    → Represents extra slots d
    → (d.total_fragments ≡ none) ⊎ (d.total_fragments ≡ some (length slots))
total_known extra slots d r = elim (Bool-cases (received slots (length slots - 1))) [
  | inl there ↦ inr (r.known there).0
  | inr missing ↦ inl (r.unknown missing)
]

-- The fragment is stored, and the view marks it.
defragment-stores :
    (extra : ℕ) (slots : Slots) (d : TcpMigDefragmenter) (hdr : TcpMigHeader) (buf : List ℕ)
    → Represents extra slots d
    → 2 ≤ length slots
    → Arrives slots hdr buf
    → (d' : TcpMigDefragmenter) × (defragment d hdr buf ≡ finish_message d' hdr)
      × Represents extra (mark hdr.fragment_offset slots) d'
defragment-stores extra slots d hdr buf r several a =
    let i = hdr.fragment_offset in
    elim (Bool-cases (ltb (i + 1) (length slots))) [
      | inl before ↦ (
        stored d d.total_fragments i (body_of slots i),
        ap (defragment d hdr) a.body ∙ defragment-other d hdr (body_of slots i) (a.flag ∙ before),
        stored-other extra slots d i r (ground (arith, before)) a.new,
      )
      | inr at_end ↦
          let k : i + 1 ≡ length slots = ground (arith, at_end, a.inside) in
          (
            stored d (some (i + 1)) i (body_of slots i),
            ap (defragment d hdr) a.body
                ∙ defragment-last d hdr (body_of slots i) (a.flag ∙ at_end)
                    (omega (arith, k, several)) (omega (arith, k, r.within)),
            stored-last extra slots d i r k a.new,
          )
    ]

-- The defragmenter implements the view: a fragment of a message of several, which has some data or
-- before which some bytes were counted, marks its place if it has not been received before; with the
-- last one missing, in whatever order, the message comes out, its bytes in their order with as many
-- zeros behind them as bytes were counted before the message, and the defragmenter is empty again but
-- for the size it has counted; before that nothing comes out. It does not panic.
pub defragment-Represents :
    (extra : ℕ) (slots : Slots) (d : TcpMigDefragmenter) (hdr : TcpMigHeader) (buf : List ℕ)
    → Represents extra slots d
    → 2 ≤ length slots
    → 1 ≤ extra + bytes (bodies slots)
    → Arrives slots hdr buf
    → (d' : TcpMigDefragmenter) × (let marked = mark hdr.fragment_offset slots in
        ((count marked ≡ length marked)
          × (defragment d hdr buf
              ≡ some
                  (emptied d', some (whole_header hdr, concat (bodies slots) ++ replicate extra 0)))
          × Represents extra marked d')
        ⊎ ((count marked ≢ length marked)
            × (defragment d hdr buf ≡ some (d', none))
            × Represents extra marked d'))
defragment-Represents extra slots d hdr buf r several some_bytes a =
    let marked = mark hdr.fragment_offset slots in
    let (d', e, r') = defragment-stores extra slots d hdr buf r several a in
    let len = length-mark hdr.fragment_offset slots in
    let same = bodies-mark hdr.fragment_offset slots in
    elim (Bool-cases (count marked == length marked)) [
      | inl full ↦
          let all : count marked ≡ length marked = ground (arith, full) in
          (
            d',
            inl (
              all,
              e
                  ∙ finish-full extra marked d' hdr r' (omega (arith, len, several))
                      (omega (arith, some_bytes, ap bytes same)) all
                  ∙ ap
                      (λ b.
                        some (
                          reset d',
                          some (whole_header hdr, concat b ++ replicate {A = ℕ} extra 0),
                        ))
                      same,
              r',
            ),
          )
      | inr missing ↦
          let waits : count marked ≢ length marked = λ all. ground (arith, missing, all) in
          (
            d',
            inr (
              waits,
              e
                  ∙ finish-waits d' hdr (length marked) (total_known extra marked d' r')
                      (λ same_count. waits (omega (arith, same_count, r'.count_is))),
              r',
            ),
          )
    ]
