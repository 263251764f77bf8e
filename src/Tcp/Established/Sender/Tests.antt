-- ===== src/Tcp/Established/Sender/Tests.antt =====
-- The laws of the send side at concrete connections.
use capybara.Base.{◌+◌, ◌≡◌, refl, arith, List, [], ◌∷◌, ◌++◌, some, true, drop, max, ℕ}
use capybara.Base.Fallible.{ok}
use capybara.Tcp.SeqNumber
use capybara.Tcp.Established.Block.{UnackedSegment, ControlBlock}
use capybara.Tcp.Established.Example.{
  no_congestion_control, fixed_rto, link_addr, two_unacked, sender, connection, idle_connection,
}
use capybara.Tcp.Established.Output.{
  hdr_window_size, get_receive_window_size, receive_window, scaled_window,
}
use capybara.Tcp.Established.Sender.{remove_acknowledged, transmit_new, send}
use capybara.Tcp.Established.Sender.Acknowledged.{
  total_span, unacked_bytes, FinIsLast, IsOutstanding, remove_acknowledged_lem,
}
use capybara.Tcp.Established.Sender.Accept.{IsAccepted, send-IsAccepted}
use capybara.Tcp.Established.Sender.Background.{pass, idle, with_window, pass-fin_stuck}
use capybara.Tcp.Established.Sender.Laws.{transmit_new-IsOutstanding}

remove_acknowledged_lem_example :
    (queue' : List UnackedSegment) × (est' : Unit {0}) × (remove_acknowledged fixed_rto 50
        two_unacked 4 tt
      ≡ some (queue', est'))
    × (total_span queue' + 4 ≡ total_span two_unacked)
    × (unacked_bytes queue' ≡ drop 4 (unacked_bytes two_unacked))
    × FinIsLast queue'
remove_acknowledged_lem_example =
    remove_acknowledged_lem fixed_rto 50 two_unacked 4 tt (omega arith, tt) (omega arith)

sender-IsOutstanding : IsOutstanding sender
unfolding SeqNumber.add
sender-IsOutstanding = record {
  una = omega arith;
  span = refl;
  small = omega arith;
  last = (omega arith, tt);
}

window_fits : hdr_window_size connection ≡ some 4096
unfolding hdr_window_size get_receive_window_size receive_window scaled_window SeqNumber.sub
window_fits = refl

transmit_new-IsOutstanding_example :
    (cb' : ControlBlock no_congestion_control fixed_rto) × (deadline : ℕ) × (transmit_new connection
        5 true
        (7 ∷ 8 ∷ [])
        link_addr
      ≡ some cb')
    × IsOutstanding cb'.sender
    × (cb'.sender.send_next ≡ SeqNumber.add 3 (max 1 2))
    × (unacked_bytes cb'.sender.unacked_queue ≡ unacked_bytes two_unacked ++ (7 ∷ 8 ∷ []))
    × (cb'.retransmit_deadline ≡ some deadline)
    × (total_span cb'.sender.unacked_queue ≡ total_span two_unacked + max 1 2)
    × (cb'.sender.unsent_queue ≡ [])
    × (cb'.sender.send_unacked ≡ 0xffff_fffe)
transmit_new-IsOutstanding_example =
    transmit_new-IsOutstanding connection 5 4096 true (7 ∷ 8 ∷ []) link_addr sender-IsOutstanding
      (omega arith, (omega arith, tt)) (omega arith) window_fits

-- A connection whose peer has closed its window.
abbrev window_closed : ControlBlock no_congestion_control fixed_rto
window_closed = with_window 0 idle_connection

pass-fin_stuck_example :
    (cb' : ControlBlock no_congestion_control fixed_rto) × (send window_closed []
      ≡ some (ok tt, cb'))
    × (cb'.sender.unsent_queue ≡ [] ∷ [])
    × (pass (with_window 500 cb') link_addr ≡ some (idle (with_window 500 cb')))
pass-fin_stuck_example =
    pass-fin_stuck window_closed link_addr 500 refl (omega arith) refl refl refl

send-IsAccepted_example : IsAccepted connection (7 ∷ 8 ∷ []) (send connection (7 ∷ 8 ∷ []))
send-IsAccepted_example =
    send-IsAccepted connection (7 ∷ 8 ∷ []) 4096 refl sender-IsOutstanding
      (omega arith, (omega arith, tt)) (omega arith) (omega arith) (omega arith) window_fits
