-- ===== src/Tcp/Established/Receive/Window.antt =====
-- What the trimming of `receive` leaves of a segment.
use capybara.Base.{
  ℕ, ◌+◌, ◌≤◌, ◌<◌, ◌^◌, ◌≡◌, ◌∙◌, ap, arith, some, none, length, take, drop, inl, inr, ◌⊎◌,
}
use capybara.Tcp.Header.{TcpHeader}
use capybara.Tcp.SeqNumber
use capybara.Tcp.Established.Block.{Buffer}
use capybara.Tcp.Established.Receive.{Segment, flag, arrived, trim_front, trim_back}
use capybara.Tcp.Established.Receive.Whole.{text_start, arrived-IsWhole, arrived-IsAtStart}
use capybara.Tcp.Established.Receive.Front.{IsKept, trim_front-InWindow}
use capybara.Tcp.Established.Receive.Back.{IsCut, trim_back-InWindow}

-- For a segment of fewer than 2 ^ 31 sequence numbers and a window of less than half the sequence
-- space that is not empty if the segment has a SYN, the acceptability test and the trimming never
-- panic. Either the segment is dropped, or what is left of it lies in the window, and its text is
-- the part of the text that starts at the sequence number on at which the text now starts.
pub accepted-InWindow :
    (n w : ℕ) (header : TcpHeader) (text : Buffer)
    → n < 2 ^ 32
    → w < 2 ^ 31
    → header.seq_num < 2 ^ 32
    → length text + 2 < 2 ^ 31
    → flag header.syn ≤ w
    → let after = SeqNumber.add n w in
      (trim_front n after (arrived header text) ≡ some none)
      ⊎ ((seg seg' : Segment) × (d : ℕ) × (k : ℕ) × (trim_front n after (arrived header text)
            ≡ some (some seg))
          × (trim_back after seg ≡ some seg')
          × (SeqNumber.sub seg'.seg_start n + seg'.seg_len ≤ w)
          × (seg'.seg_len ≡ length seg'.text + flag seg'.header.syn + flag seg'.header.fin)
          × (d ≤ length text)
          × (seg'.text ≡ take k (drop d text))
          × (text_start seg' ≡ SeqNumber.add (SeqNumber.add header.seq_num (flag header.syn)) d))
unfolding arrived IsKept IsCut SeqNumber.add
accepted-InWindow n w header text hn hw hs ht syn =
    let whole = arrived-IsWhole header text hs ht in
    let empty = arrived-IsAtStart header text in
    elim (trim_front-InWindow n w (arrived header text) hn hw whole empty) [
      | inl dropped ↦ inl dropped
      | inr (seg, d, front, whole', start, fin, syn', fits, text', at) ↦
          let (seg', k, back, whole'', start', inside, same_syn, text'') =
            trim_back-InWindow n w seg hn hw whole' start (omega (arith, syn', syn)) in
          inr (
            seg,
            seg',
            d,
            k,
            front,
            back,
            inside,
            whole''.len,
            fits,
            text'' ∙ ap (take k) text',
            omega (arith, start', ap flag same_syn, at),
          )
    ]
