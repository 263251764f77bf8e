-- ===== src/Tcp/Established/Receive/Last.antt =====
-- Segments of a peer that make `receive` panic.
use capybara.Base.{ℕ, ◌<◌, ◌^◌, ◌≡◌, refl, arith, true, false, [], some, none, trim, add32, sub32}
use capybara.Tcp.Header.{TcpHeader}
use capybara.Tcp.SeqNumber
use capybara.Tcp.Established.Block.{Buffer, CongestionControl, RtoCalculator, ControlBlock}
use capybara.Tcp.Established.Output.{get_receive_window_size}
use capybara.Tcp.Established.Receive.{arrived, trim_front, trim_back, receive}

add_zero : (n : ℕ) → n < 2 ^ 32 → SeqNumber.add n 0 ≡ n
unfolding SeqNumber.add
add_zero n h = omega arith

-- A segment that starts at RCV.NXT is not cut in front.
front_at_next :
    (n after : ℕ) (header : TcpHeader) (text : Buffer)
    → header.seq_num ≡ n
    → trim_front n after (arrived header text) ≡ some (some (arrived header text))
unfolding trim_front arrived
front_at_next n after header text h = ground (arith, h)

syn_panics :
    (n : ℕ) (header : TcpHeader)
    → n < 2 ^ 32
    → header.seq_num ≡ n
    → header.syn ≡ true
    → header.fin ≡ false
    → trim_back n (arrived header []) ≡ none
unfolding trim_back arrived SeqNumber.add SeqNumber.sub SeqNumber.ge trim
syn_panics n header hn start syn fin =
    let same : sub32 (add32 n 0) n ≡ 0 = omega (arith, hn) in rw (syn, fin, start, same) refl

module _ {cc : CongestionControl} {rc : RtoCalculator} where
  -- A SYN without text or FIN that is next in sequence makes `receive` panic when the receive window
  -- is closed: one byte is to be trimmed from an empty buffer.
  pub receive-syn_window_closed :
      (cb : ControlBlock cc rc) (header : TcpHeader)
      → cb.receiver.receive_next < 2 ^ 32
      → header.seq_num ≡ cb.receiver.receive_next
      → header.syn ≡ true
      → header.fin ≡ false
      → get_receive_window_size cb ≡ 0
      → receive cb header [] ≡ none
  unfolding receive
  receive-syn_window_closed cb header hn start syn fin closed_window =
      let n = cb.receiver.receive_next in
      rw
        (
          front_at_next n (SeqNumber.add n (get_receive_window_size cb)) header [] start,
          closed_window,
          add_zero n hn,
          syn_panics n header hn start syn fin,
        )
        refl
