-- ===== src/Tcp/Established/Receive/Front.antt =====
-- The start of a segment against the window.
use capybara.Base.{
  ℕ, ◌+◌, ◌-◌, ◌≤◌, ◌<◌, ◌^◌, ◌≡◌, refl, arith, false, Option, some, none, length, drop, ltb, leb,
  ◌==◌, Bool-cases, adjust, adjust_lem, add32, sub32, inl, inr, ◌⊎◌, if◌then◌else◌, length-drop,
}
use capybara.Base.Panic.{◌>>=◌}
use capybara.Tcp.SeqNumber
use capybara.Tcp.Established.Receive.{Segment, flag, trim_front}
use capybara.Tcp.Established.Receive.Whole.{text_start, IsWhole, IsAtStart, flag-bit}

-- The numbers a duplicate front takes, when the end of the segment is new.
duplicate_lem :
    (n : ℕ) (seg : Segment)
    → n < 2 ^ 32
    → IsWhole seg
    → IsAtStart seg
    → 2 ^ 31 ≤ sub32 seg.seg_start n
    → sub32 seg.seg_end n < 2 ^ 31
    → let dup = sub32 n seg.seg_start in
      (1 ≤ dup)
      × (dup + 1 ≤ seg.seg_len)
      × (add32 seg.seg_start dup ≡ n)
      × (sub32 seg.seg_len dup ≡ seg.seg_len - dup)
      × (seg.seg_end ≡ add32 n (seg.seg_len - dup - 1))
unfolding SeqNumber.add
duplicate_lem n seg hn whole empty before new = elim (Bool-cases (ltb 0 seg.seg_len)) [
  | inl some_len ↦
      let e = whole.end (ground (arith, some_len)) in omega (arith, e, whole.start, whole.small)
  | inr no_len ↦
      let e = empty (ground (arith, no_len)) in absurd (omega (arith, e, whole.start, whole.small))
]

-- The segment that is kept starts in the window of `w` from `n`, is whole, has the same FIN, and its
-- text is the old text from the sequence number on at which it now starts.
unfoldable pub IsKept : ℕ → ℕ → Segment → Option (Option Segment) → Type 0
unfolding SeqNumber.add SeqNumber.sub
IsKept n w seg result =
    (seg' : Segment) × (d : ℕ) × (result ≡ some (some seg'))
    × IsWhole seg'
    × (SeqNumber.sub seg'.seg_start n ≤ w - 1)
    × (seg'.header.fin ≡ seg.header.fin)
    × (flag seg'.header.syn ≤ flag seg.header.syn)
    × (d ≤ length seg.text)
    × (seg'.text ≡ drop d seg.text)
    × (text_start seg' ≡ SeqNumber.add (text_start seg) d)

front-IsKept :
    (n w dup : ℕ) (seg : Segment)
    → n < 2 ^ 32
    → IsWhole seg
    → IsAtStart seg
    → dup ≡ sub32 n seg.seg_start
    → 2 ^ 31 ≤ sub32 seg.seg_start n
    → sub32 seg.seg_end n < 2 ^ 31
    → IsKept n w seg (do
      text ← adjust (if seg.header.syn then sub32 dup 1 else dup) seg.text
      some (
          some (record {
            seg_start = SeqNumber.add seg.seg_start dup;
            seg_end = seg.seg_end;
            seg_len = sub32 seg.seg_len dup;
            header = (let header = seg.header in record header { syn = false });
            text = text;
          })))
unfolding IsKept SeqNumber.add SeqNumber.sub
front-IsKept n w dup seg hn whole empty h before new =
    let (some_dup, fits, at_n, left, at_end) = duplicate_lem n seg hn whole empty before new in
    let f = flag-bit seg.header.fin in
    let d = dup - flag seg.header.syn in
    let whole_len = whole.len in
    let adj : (if seg.header.syn then sub32 dup 1 else dup) ≡ d =
      ground (arith, some_dup, h, whole.small, fits) in
    let rest : Segment = record {
      seg_start = SeqNumber.add seg.seg_start dup;
      seg_end = seg.seg_end;
      seg_len = sub32 seg.seg_len dup;
      header = (let header = seg.header in record header { syn = false });
      text = drop d seg.text;
    } in
    let d_fits : d ≤ length seg.text = ground (arith, whole_len, fits, some_dup, h, f) in
    let d_flag : d + flag seg.header.syn ≡ dup = ground (arith, some_dup, h) in
    let at_next : rest.seg_start ≡ n = omega (arith, at_n, h) in
    let kept_len : rest.seg_len ≡ seg.seg_len - dup = omega (arith, left, h) in
    let kept_text : length rest.text ≡ length seg.text - d = length-drop d seg.text in
    let rest_whole : IsWhole rest = record {
      start = omega (arith, at_next, hn);
      len = omega (arith, kept_len, kept_text, d_flag, d_fits, whole_len, fits, h);
      small = omega (arith, kept_len, whole.small);
      end = λ some_len. omega (arith, at_end, at_next, kept_len, h, some_len);
    } in
    rw (adj, adjust_lem d seg.text d_fits)
      (
        rest,
        d,
        refl,
        rest_whole,
        omega (arith, at_next, hn),
        refl,
        omega arith,
        d_fits,
        refl,
        omega (arith, d_flag, at_n, h, whole.start),
      )

-- For a window of less than half the sequence space, the start of a segment is handled without a
-- panic: either the segment is dropped, or what is kept starts in the window, is whole, has the
-- same FIN, and its text is the old text from the sequence number on at which it now starts.
pub trim_front-InWindow :
    (n w : ℕ) (seg : Segment)
    → n < 2 ^ 32
    → w < 2 ^ 31
    → IsWhole seg
    → IsAtStart seg
    → (trim_front n (SeqNumber.add n w) seg ≡ some none)
      ⊎ IsKept n w seg (trim_front n (SeqNumber.add n w) seg)
unfolding trim_front IsKept SeqNumber.add SeqNumber.sub SeqNumber.lt SeqNumber.ge
trim_front-InWindow n w seg hn hw whole empty = elim (Bool-cases (seg.seg_start == n)) [
  | inl e ↦ rw e (
      inr
        (seg, 0, refl, whole, ground (arith, e), refl, omega arith, omega arith, refl, omega arith))
  | inr e ↦ rw e (elim (Bool-cases (leb (2 ^ 31) (sub32 seg.seg_start n))) [
    | inl before ↦ rw before (elim (Bool-cases (leb (2 ^ 31) (sub32 seg.seg_end n))) [
      | inl old ↦ rw old (inl refl)
      | inr new ↦ rw new (
          inr (
            front-IsKept n w (sub32 n seg.seg_start) seg hn whole empty refl
              (ground (arith, before)) (ground (arith, new))))
    ])
    | inr after ↦ rw after (elim (Bool-cases (ltb (sub32 seg.seg_start (add32 n w)) (2 ^ 31))) [
      | inl outside ↦ rw outside (inl refl)
      | inr inside ↦ rw inside (
          inr (
            seg,
            0,
            refl,
            whole,
            ground (arith, inside, after, e, whole.start),
            refl,
            omega arith,
            omega arith,
            refl,
            omega arith,
          ))
    ])
  ])
]
