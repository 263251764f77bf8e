-- ===== src/Tcp/Established/OutOfOrder/Scan.antt =====
-- The comparison with a stored segment, in terms of stream offsets.
use capybara.Base.{
  ℕ, ◌+◌, ◌-◌, ◌^◌, ◌≤◌, ◌<◌, ◌≡◌, arith, some, length, take, drop, ltb, leb, if◌then◌else◌, adjust,
  trim, sub32, u32, add32,
}
use capybara.Tcp.SeqNumber
use capybara.Tcp.SeqNumber.Laws.{compare-add_offsets}
use capybara.Tcp.Established.Block.{Buffer}
use capybara.Tcp.Established.OutOfOrder.{
  Verdict, before, encompasses, front_overlap, duplicate, after, compare_stored,
}

-- The verdict on a new segment at offset `p`, against one stored at offset `o` with `l` bytes.
abbrev pub compare_offsets : ℕ → ℕ → Buffer → ℕ → ℕ → Verdict
compare_offsets base p buf o l =
    let k = length buf in
    if ltb p o
    then (if leb (p + k) o
        then before
        else if ltb (o + l) (p + k)
        then encompasses
        else front_overlap (SeqNumber.add base (o - 1)) (take (o - p) buf))
    else if leb (p + k) (o + l)
    then duplicate
    else if leb (o + l) p
    then after (SeqNumber.add base p) buf
    else after (SeqNumber.add base (o + l - 1)) (drop (o + l - 1 - p) buf)

-- The last sequence number of a stored segment.
stored_end_lem :
    (base o l : ℕ)
    → 1 ≤ l
    → l ≤ 2 ^ 31
    → SeqNumber.add (SeqNumber.add base o) (sub32 (u32 l) 1) ≡ SeqNumber.add base (o + l - 1)
unfolding SeqNumber.add
stored_end_lem base o l h k = omega arith

-- How much of the new segment overlaps the front of a stored one, and what is left of it.
excess_lem :
    (base p k o : ℕ)
    → o < p + k
    → p + k ≤ o + 2 ^ 31
    → (add32 (SeqNumber.sub (SeqNumber.add base (p + k - 1)) (SeqNumber.add base o)) 1 ≡ p + k - o)
      × (1 ≤ o
          → SeqNumber.sub (SeqNumber.add base (p + k - 1)) (p + k - o) ≡ SeqNumber.add base (o - 1))
unfolding SeqNumber.add SeqNumber.sub
excess_lem base p k o h fits = (omega arith, λ one. omega arith)

-- How far the end of a stored segment reaches into the new one.
overlap_lem :
    (base p o l : ℕ)
    → p < o + l
    → o + l ≤ p + 2 ^ 31
    → (SeqNumber.sub (SeqNumber.add base (o + l - 1)) (SeqNumber.add base p) ≡ o + l - 1 - p)
      × (SeqNumber.add (SeqNumber.add base p) (o + l - 1 - p) ≡ SeqNumber.add base (o + l - 1))
unfolding SeqNumber.add SeqNumber.sub
overlap_lem base p o l h fits = omega arith

-- The code's modular comparison is the comparison of offsets, while these are close together.
pub compare_stored_lem :
    (base p o : ℕ) (buf stored : Buffer)
    → 1 ≤ length buf
    → 1 ≤ length stored
    → length stored ≤ 2 ^ 31
    → p + length buf ≤ o + 2 ^ 31
    → o + length stored ≤ p + 2 ^ 31
    → compare_stored
        (SeqNumber.add base p)
        (SeqNumber.add base (p + length buf - 1))
        buf
        (SeqNumber.add base o)
        stored
      ≡ some (compare_offsets base p buf o (length stored))
unfolding compare_stored adjust trim
compare_stored_lem base p o buf stored hk hl fits h1 h2 =
    let k = length buf in
    let l = length stored in
    rw (stored_end_lem base o l hl fits) (
      ground (
        arith,
        compare-add_offsets base p o (omega arith) (omega arith),
        compare-add_offsets base (p + k - 1) o (omega arith) (omega arith),
        compare-add_offsets base (o + l - 1) (p + k - 1) (omega arith) (omega arith),
        compare-add_offsets base (p + k - 1) (o + l - 1) (omega arith) (omega arith),
        compare-add_offsets base (o + l - 1) p (omega arith) (omega arith),
        excess_lem base p k o,
        overlap_lem base p o l,
      ))
