-- ===== src/Tcp/Established/Receive/Back.antt =====
-- The end of a segment against the window.
use capybara.Base.{
  ℕ, ◌+◌, ◌-◌, ◌≤◌, ◌<◌, ◌^◌, ◌≡◌, refl, sym, arith, false, Option, some, length, take, ltb,
  Bool-cases, trim, trim_lem, add32, sub32, inl, inr, if◌then◌else◌, take_all, length-take,
}
use capybara.Base.Panic.{◌>>=◌}
use capybara.Tcp.SeqNumber
use capybara.Tcp.Established.Receive.{Segment, flag, trim_back}
use capybara.Tcp.Established.Receive.Whole.{IsWhole, flag-bit}

-- The segment that is left keeps its start, its SYN and the first bytes of its text, is whole, and
-- ends in the window of `w` from `n`.
unfoldable pub IsCut : ℕ → ℕ → Segment → Option Segment → Type 0
unfolding SeqNumber.sub
IsCut n w seg result =
    (seg' : Segment) × (k : ℕ) × (result ≡ some seg')
    × IsWhole seg'
    × (seg'.seg_start ≡ seg.seg_start)
    × (SeqNumber.sub seg'.seg_start n + seg'.seg_len ≤ w)
    × (seg'.header.syn ≡ seg.header.syn)
    × (seg'.text ≡ take k seg.text)

back-IsCut :
    (n w excess : ℕ) (seg : Segment)
    → n < 2 ^ 32
    → w < 2 ^ 31
    → IsWhole seg
    → excess ≡ add32 (sub32 seg.seg_end (add32 n w)) 1
    → sub32 seg.seg_start n ≤ w - 1
    → flag seg.header.syn ≤ w
    → 1 ≤ seg.seg_len
    → sub32 seg.seg_end (add32 n w) < 2 ^ 31
    → IsCut n w seg (do
      text ← trim (if seg.header.fin then sub32 excess 1 else excess) seg.text
      some (record {
        seg_start = seg.seg_start;
        seg_end = SeqNumber.sub seg.seg_end excess;
        seg_len = sub32 seg.seg_len excess;
        header = (let header = seg.header in record header { fin = false });
        text = text;
      }))
unfolding IsCut SeqNumber.add SeqNumber.sub
back-IsCut n w excess seg hn hw whole h start syn some_len past =
    let last = whole.end some_len in
    let whole_len = whole.len in
    let s = flag-bit seg.header.syn in
    let d = excess - flag seg.header.fin in
    let len_small = whole.small in
    let at_start = whole.start in
    let some_excess : 1 ≤ excess = omega (arith, h) in
    let excess_lem : excess + w ≡ sub32 seg.seg_start n + seg.seg_len =
      omega (arith, h, last, start, len_small, at_start, past, hw, hn) in
    let adj : (if seg.header.fin then sub32 excess 1 else excess) ≡ d =
      ground (arith, some_excess, excess_lem, start, len_small) in
    let fits : excess + flag seg.header.syn ≤ seg.seg_len =
      omega (arith, excess_lem, start, syn, s) in
    let d_flag : d + flag seg.header.fin ≡ excess = ground (arith, some_excess) in
    let d_fits : d ≤ length seg.text = omega (arith, d_flag, fits, whole_len) in
    let rest : Segment = record {
      seg_start = seg.seg_start;
      seg_end = SeqNumber.sub seg.seg_end excess;
      seg_len = sub32 seg.seg_len excess;
      header = (let header = seg.header in record header { fin = false });
      text = take (length seg.text - d) seg.text;
    } in
    let kept_len : rest.seg_len ≡ seg.seg_len - excess = omega (arith, fits, len_small) in
    let kept_text : length rest.text ≡ length seg.text - d =
      omega (arith, length-take (length seg.text - d) seg.text) in
    let rest_whole : IsWhole rest = record {
      start = at_start;
      len = omega (arith, kept_len, kept_text, d_flag, d_fits, whole_len, fits);
      small = omega (arith, kept_len, len_small);
      end = λ some_left. omega (arith, last, kept_len, some_left, at_start, len_small, fits);
    } in
    rw (adj, trim_lem d seg.text d_fits)
      (
        rest,
        length seg.text - d,
        refl,
        rest_whole,
        refl,
        omega (arith, kept_len, excess_lem, fits),
        refl,
        refl,
      )

-- A whole segment that starts in a window of less than half the sequence space, and is no SYN if
-- the window is empty, is cut at the end of the window without a panic: it keeps its start, its
-- SYN and the first bytes of its text, is whole, and ends in the window.
pub trim_back-InWindow :
    (n w : ℕ) (seg : Segment)
    → n < 2 ^ 32
    → w < 2 ^ 31
    → IsWhole seg
    → SeqNumber.sub seg.seg_start n ≤ w - 1
    → flag seg.header.syn ≤ w
    → IsCut n w seg (trim_back (SeqNumber.add n w) seg)
unfolding trim_back IsCut SeqNumber.add SeqNumber.sub SeqNumber.ge
trim_back-InWindow n w seg hn hw whole start syn = elim (Bool-cases (ltb 0 seg.seg_len)) [
  | inl e1 ↦
      let last = whole.end (ground (arith, e1)) in
      rw e1 (elim (Bool-cases (ltb (sub32 seg.seg_end (add32 n w)) (2 ^ 31))) [
        | inl e ↦ rw e (
            back-IsCut n w (add32 (sub32 seg.seg_end (add32 n w)) 1) seg hn hw whole refl start syn
              (ground (arith, e1)) (ground (arith, e)))
        | inr e ↦ rw e (
          seg,
          length seg.text,
          refl,
          whole,
          refl,
          ground (arith, e, last, e1, start, whole.small, whole.start),
          refl,
          sym (take_all (length seg.text) seg.text (omega arith)),
        )
      ])
  | inr e1 ↦ rw e1 (
    seg,
    length seg.text,
    refl,
    whole,
    refl,
    ground (arith, e1, start),
    refl,
    sym (take_all (length seg.text) seg.text (omega arith)),
  )
]
