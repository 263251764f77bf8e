-- ===== src/Tcp/Established/OutOfOrder/Overlap.antt =====
-- What `store_out_of_order_segment` makes of a segment that overlaps a stored one.
use capybara.Base.{
  ℕ, ◌+◌, ◌-◌, ◌^◌, ◌≤◌, ◌<◌, ◌≡◌, arith, [], ◌∷◌, some, length, length-take, take, drop, true,
  false, ◌==◌, ==_refl,
}
use capybara.Tcp.SeqNumber
use capybara.Tcp.Established.Block.{Buffer, Receiver}
use capybara.Tcp.Established.OutOfOrder.{Stored, store_segment, drain, push}
use capybara.Tcp.Established.OutOfOrder.Scan.{compare_stored_lem}
use capybara.Tcp.Established.OutOfOrder.Deliver.{add-u32}

-- Two buffers whose offsets `o` and `p` lie close together.
pub record AreNear (o p : ℕ) (stored buf : Buffer) : Type 0 where
  pub stored_nonempty : 1 ≤ length stored
  pub buf_nonempty : 1 ≤ length buf
  pub stored_fits : length stored ≤ 2 ^ 30
  pub buf_fits : length buf ≤ 2 ^ 30

seq_ne :
    (base a b : ℕ) → a < b → b < a + 2 ^ 32 → (SeqNumber.add base a == SeqNumber.add base b) ≡ false
unfolding SeqNumber.add
seq_ne base a b h k = ground arith

seq_gt :
    (base a b : ℕ) → a < b → b < a + 2 ^ 32 → (SeqNumber.add base b == SeqNumber.add base a) ≡ false
unfolding SeqNumber.add
seq_gt base a b h k = ground arith

module _ (base o p : ℕ) (stored buf : Buffer) (near : AreNear o p stored buf) where
  abbrev alone : Stored
  alone = (SeqNumber.add base o, stored) ∷ []

  -- A new segment that starts inside a stored one and ends after it keeps one byte of the overlap:
  -- its rest is stored at the sequence number of the last stored byte, not of the byte after it.
  pub store_segment-tail_overlap :
      o ≤ p
      → p < o + length stored
      → o + length stored < p + length buf
      → store_segment alone (SeqNumber.add base p) (SeqNumber.add base (p + length buf - 1)) buf
        ≡ some (
            (SeqNumber.add base o, stored)
            ∷ (SeqNumber.add base (o + length stored - 1), drop (o + length stored - 1 - p) buf)
            ∷ [])
  unfolding store_segment
  store_segment-tail_overlap h1 h2 h3 =
      rw
        (compare_stored_lem base p o buf stored near.buf_nonempty near.stored_nonempty
          (omega (arith, near)) (omega (arith, near)) (omega (arith, near)))
        (ground (arith, h1))

  -- A new segment that starts before a stored one and ends inside it is put behind it in the
  -- store, although it comes before it.
  pub store_segment-front_overlap :
      p < o
      → o < p + length buf
      → p + length buf ≤ o + length stored
      → store_segment alone (SeqNumber.add base p) (SeqNumber.add base (p + length buf - 1)) buf
        ≡ some ((SeqNumber.add base o, stored) ∷ (SeqNumber.add base p, take (o - p) buf) ∷ [])
  unfolding store_segment
  store_segment-front_overlap h1 h2 h3 =
      rw
        (compare_stored_lem base p o buf stored near.buf_nonempty near.stored_nonempty
          (omega (arith, near)) (omega (arith, near)) (omega (arith, near)))
        (ground (arith, h1))

  -- After a tail overlap, when the data before the stored segment has arrived, the stored segment
  -- is delivered and the rest of the new one is stuck: its bytes are the next ones but one, yet its
  -- sequence number is not the one that the receiver waits for.
  pub tail_overlap_stuck :
      (r : Receiver)
      → o ≤ p
      → p < o + length stored
      → o + length stored < p + length buf
      → (out : Stored) × (store_segment alone
            (SeqNumber.add base p)
            (SeqNumber.add base (p + length buf - 1))
            buf
          ≡ some out)
        × (drain out (SeqNumber.add base o) r false ≡ (
          (SeqNumber.add base (o + length stored - 1), drop (o + length stored - 1 - p) buf) ∷ [],
          SeqNumber.add base (o + length stored),
          push r stored,
          true,
        ))
  unfolding drain
  tail_overlap_stuck r h1 h2 h3 =
      let l = length stored in
      (
        (SeqNumber.add base o, stored)
            ∷ (SeqNumber.add base (o + l - 1), drop (o + l - 1 - p) buf)
            ∷ [],
        store_segment-tail_overlap h1 h2 h3,
        rw (
          ==_refl (SeqNumber.add base o),
          add-u32 base o l (omega (arith, near)),
          seq_ne base (o + l - 1) (o + l) (omega (arith, near)) (omega arith),
        ),
      )

  -- After a front overlap, when the data before the new segment has arrived, nothing is delivered,
  -- although the store holds the very next bytes: the front of the new segment stands in it at the
  -- sequence number that the receiver waits for, behind the stored segment.
  pub front_overlap_stuck :
      (r : Receiver)
      → p < o
      → o < p + length buf
      → p + length buf ≤ o + length stored
      → let waiting = SeqNumber.add base p in
        let out : Stored = (SeqNumber.add base o, stored) ∷ (waiting, take (o - p) buf) ∷ [] in
        (store_segment alone waiting (SeqNumber.add base (p + length buf - 1)) buf ≡ some out)
        × (1 ≤ length (take (o - p) buf))
        × (drain out waiting r false ≡ (out, waiting, r, false))
  unfolding drain
  front_overlap_stuck r h1 h2 h3 = (
    store_segment-front_overlap h1 h2 h3,
    omega (arith, length-take (o - p) buf, h1, near.buf_nonempty),
    rw (seq_gt base p o h1 (omega (arith, near))),
  )
