-- ===== src/Tcp/Established/Receive/Whole.antt =====
-- Segments whose length and end fit their text and flags, as `receive` computes them.
use capybara.Base.{ℕ, ◌+◌, ◌-◌, ◌≤◌, ◌<◌, ◌^◌, ◌≡◌, arith, Bool, true, false, length}
use capybara.Tcp.Header.{TcpHeader}
use capybara.Tcp.SeqNumber
use capybara.Tcp.Established.Block.{Buffer}
use capybara.Tcp.Established.Receive.{Segment, flag, arrived}

-- The sequence number of the first byte of the text: a SYN takes one before it.
abbrev pub text_start : Segment → ℕ
unfolding SeqNumber.add
text_start seg = SeqNumber.add seg.seg_start (flag seg.header.syn)

-- The length counts the text and the flags, and the end is the last number of them.
pub record IsWhole (seg : Segment) : Type 0 where
  pub start : seg.seg_start < 2 ^ 32
  pub len : seg.seg_len ≡ length seg.text + flag seg.header.syn + flag seg.header.fin
  pub small : seg.seg_len < 2 ^ 31
  pub end : 1 ≤ seg.seg_len → seg.seg_end ≡ SeqNumber.add seg.seg_start (seg.seg_len - 1)

-- A segment that takes no sequence number ends where it starts.
abbrev pub IsAtStart : Segment → Type 0
IsAtStart seg = seg.seg_len ≡ 0 → seg.seg_end ≡ seg.seg_start

pub flag-bit : (b : Bool) → flag b ≤ 1
flag-bit true = omega arith
flag-bit false = omega arith

pub arrived-IsWhole :
    (header : TcpHeader) (text : Buffer)
    → header.seq_num < 2 ^ 32
    → length text + 2 < 2 ^ 31
    → IsWhole (arrived header text)
unfolding arrived SeqNumber.add
arrived-IsWhole header text hs ht =
    let s = flag-bit header.syn in
    let f = flag-bit header.fin in
    record {
      start = hs;
      len = omega (arith, s, f);
      small = omega (arith, s, f);
      end = λ h. ground (arith, s, f);
    }

pub arrived-IsAtStart : (header : TcpHeader) (text : Buffer) → IsAtStart (arrived header text)
unfolding arrived SeqNumber.add
arrived-IsAtStart header text h = ground (arith, h)
