-- ===== src/Tcp/Established/Receive/Tests.antt =====
-- The laws of `receive` at concrete segments.
use capybara.Base.{
  ◌+◌, ◌^◌, ◌≡◌, ◌≤◌, ◌<◌, refl, arith, [], ◌++◌, ◌∷◌, some, none, Bool, true, false, length, drop,
  take, ℕ, ◌==◌, ◌⊎◌,
}
use capybara.Tcp.Header.{TcpHeader}
use capybara.Tcp.SeqNumber
use capybara.Tcp.Established.Block.{established, closed, Buffer, ControlBlock}
use capybara.Tcp.Established.Example.{
  no_congestion_control, fixed_rto, connection, idle_connection, sender, two_unacked, ack_header,
}
use capybara.Tcp.Established.Output.{
  hdr_window_size, get_receive_window_size, receive_window, scaled_window,
}
use capybara.Tcp.Established.Output.Laws.{acks}
use capybara.Tcp.Established.Receive.{
  Segment, flag, arrived, trim_front, trim_back, process_ack, acknowledge, after_all_acked, receive,
  receive_in_window,
}
use capybara.Tcp.Established.Receive.Ack.{
  acknowledge-IsOutstanding, process_ack-IsOutstanding, process_ack-half_way,
}
use capybara.Tcp.Established.Receive.Last.{receive-syn_window_closed}
use capybara.Tcp.Established.Receive.States.{receive-Moves}
use capybara.Tcp.Established.Receive.Diagram.{Moves}
use capybara.Tcp.Established.Receive.Window.{accepted-InWindow}
use capybara.Tcp.Established.Receive.Whole.{text_start}
use capybara.Tcp.Established.Sender.Acknowledged.{total_span, unacked_bytes, IsOutstanding}

-- Bytes 98 to 101 of a stream that is received up to 100, in a window of 1.
abbrev overlapping : Buffer
overlapping = 7 ∷ 8 ∷ 9 ∷ 10 ∷ []

accepted-InWindow_example :
    (trim_front 100 (SeqNumber.add 100 1) (arrived (ack_header 98 3) overlapping) ≡ some none)
    ⊎ ((seg seg' : Segment) × (d : ℕ) × (k : ℕ) × (trim_front 100
            (SeqNumber.add 100 1)
            (arrived (ack_header 98 3) overlapping)
          ≡ some (some seg))
        × (trim_back (SeqNumber.add 100 1) seg ≡ some seg')
        × (SeqNumber.sub seg'.seg_start 100 + seg'.seg_len ≤ 1)
        × (seg'.seg_len ≡ length seg'.text + flag seg'.header.syn + flag seg'.header.fin)
        × (d ≤ length overlapping)
        × (seg'.text ≡ take k (drop d overlapping))
        × (text_start seg' ≡ SeqNumber.add (SeqNumber.add 98 0) d))
accepted-InWindow_example =
    accepted-InWindow 100 1 (ack_header 98 3) overlapping (omega arith) (omega arith) (omega arith)
      (omega arith) (omega arith)

sender-IsOutstanding : IsOutstanding sender
unfolding SeqNumber.add
sender-IsOutstanding = record {
  una = omega arith;
  span = refl;
  small = omega arith;
  last = (omega arith, tt);
}

window_fits : hdr_window_size connection ≡ some 4096
unfolding hdr_window_size get_receive_window_size receive_window scaled_window SeqNumber.sub
window_fits = refl

ack_of_four : 2 ≡ SeqNumber.add 0xffff_fffe 4
unfolding SeqNumber.add
ack_of_four = refl

acknowledge-IsOutstanding_example :
    (cb' : ControlBlock no_congestion_control fixed_rto) × (acknowledge connection
        (ack_header 100 2)
      ≡ some cb')
    × IsOutstanding cb'.sender
    × (cb'.sender.send_unacked ≡ 2)
    × (cb'.sender.send_next ≡ 3)
    × (cb'.transmitted ≡ [])
    × (unacked_bytes cb'.sender.unacked_queue ≡ drop 4 (unacked_bytes two_unacked))
    × (((4 ≡ total_span two_unacked)
          × (cb'.retransmit_deadline ≡ none)
          × (cb'.state ≡ after_all_acked established))
        ⊎ ((4 < total_span two_unacked)
            × (cb'.retransmit_deadline ≡ some 250)
            × (cb'.state ≡ established)))
acknowledge-IsOutstanding_example =
    acknowledge-IsOutstanding connection (ack_header 100 2) 4 sender-IsOutstanding (omega arith)
      (omega arith) ack_of_four

not_half : (SeqNumber.sub 9 0xffff_fffe == 2 ^ 31) ≡ false
unfolding SeqNumber.sub
not_half = refl

process_ack-IsOutstanding_example :
    (goes_on : Bool) × (cb' : ControlBlock no_congestion_control fixed_rto) × (process_ack
        connection
        (ack_header 100 9)
      ≡ some (goes_on, cb'))
    × IsOutstanding cb'.sender
    × (((1 ≤ SeqNumber.sub 9 0xffff_fffe)
          × (SeqNumber.sub 9 0xffff_fffe ≤ total_span two_unacked)
          × (goes_on ≡ true)
          × (cb'.sender.send_unacked ≡ 9)
          × (cb'.sender.send_next ≡ 3)
          × (cb'.transmitted ≡ []))
        ⊎ (((total_span two_unacked < SeqNumber.sub 9 0xffff_fffe)
              × (SeqNumber.sub 9 0xffff_fffe < 2 ^ 31)
              × (goes_on ≡ false)
              × (cb'.sender ≡ sender)
              × (cb'.transmitted ≡ [] ++ acks connection 4096))
            ⊎ (((SeqNumber.sub 9 0xffff_fffe ≡ 0) ⊎ (2 ^ 31 < SeqNumber.sub 9 0xffff_fffe))
                × (goes_on ≡ true)
                × (cb'.sender ≡ sender)
                × (cb'.transmitted ≡ []))))
process_ack-IsOutstanding_example =
    process_ack-IsOutstanding connection (ack_header 100 9) 4096 sender-IsOutstanding window_fits
      (omega arith) not_half

half_way : 2 ^ 31 + 3 ≡ SeqNumber.add 3 (2 ^ 31)
unfolding SeqNumber.add
half_way = refl

process_ack-half_way_example : process_ack idle_connection (ack_header 100 (2 ^ 31 + 3)) ≡ none
process_ack-half_way_example =
    process_ack-half_way idle_connection (ack_header 100 (2 ^ 31 + 3)) (omega arith) refl refl
      half_way

-- A connection whose receive buffer is full, and a SYN.
abbrev full : ControlBlock no_congestion_control fixed_rto
full = let cb = connection in record cb { receive_buffer_size = 0 }

abbrev syn_header : TcpHeader
syn_header = let h = ack_header 100 3 in record h { syn = true }

full-closed : get_receive_window_size full ≡ 0
unfolding get_receive_window_size receive_window SeqNumber.sub
full-closed = refl

receive-syn_window_closed_example : receive full syn_header [] ≡ none
receive-syn_window_closed_example =
    receive-syn_window_closed full syn_header (omega arith) refl refl refl full-closed

-- A RST in the window.
abbrev rst_header : TcpHeader
rst_header = let h = ack_header 100 3 in record h { rst = true }

abbrev reset : ControlBlock no_congestion_control fixed_rto
reset = let cb = connection in record cb { state = closed }

is_reset : receive connection rst_header [] ≡ some reset
unfolding receive arrived trim_front trim_back receive_in_window SeqNumber.add SeqNumber.sub
    SeqNumber.ge SeqNumber.lt get_receive_window_size receive_window
is_reset = refl

receive-Moves_example : Moves established closed
receive-Moves_example = receive-Moves connection reset rst_header [] is_reset
