-- ===== src/Tcp/Migration/Tests.antt =====
-- A connection with two segments outstanding that moves.
use capybara.Base.{
  ℕ, ◌≡◌, refl, arith, List, [], ◌∷◌, ◌++◌, length, drop, replicate, some, none, false,
}
use capybara.Tcp.SeqNumber
use capybara.Tcp.Established.Block.{ControlBlock, established}
use capybara.Tcp.Established.Example.{
  connection, sender, receiver, link_addr, no_congestion_control, fixed_rto,
}
use capybara.Tcp.Established.Sender.Acknowledged.{IsOutstanding, unacked_bytes}
use capybara.Tcp.Migration.Laws.{StateFits, without_times}
use capybara.Tcp.Migration.Moved.{state_of, migrate-IsOutstanding}
use capybara.Tcp.Migration.RoundTrip.{read_state-write_state}
use capybara.Tcp.Migration.Handover.{Host, into_state, from_state}
use capybara.Tcp.Migration.State.{ControlBlockState, serialized_size, write_state, read_state}
use capybara.Wire.{big_endian}

abbrev busy : ControlBlock no_congestion_control fixed_rto
busy =
    let cb = connection in
    record cb { out_of_order = (200, 9 ∷ 9 ∷ []) ∷ []; out_of_order_fin = some 202 }

busy-StateFits : StateFits (state_of busy)
busy-StateFits = record {
  local_port = omega arith;
  remote_port = omega arith;
  buffer_size = omega arith;
  scale = omega arith;
  fin = λ n e. ground (arith, e);
  stored_count = omega arith;
  entries = ((omega arith, omega arith), tt);
  receiver = record {
    reader = omega arith;
    next_fits = omega arith;
    count = omega arith;
    buffers = tt;
  };
  sender = record {
    unsent = omega arith;
    una = omega arith;
    nxt = omega arith;
    window = omega arith;
    update_seq = omega arith;
    update_ack = omega arith;
    mss = omega arith;
    unacked_count = omega arith;
    unacked = (omega arith, (omega arith, tt));
    unsent_count = omega arith;
    buffers = tt;
  };
}

read_state-write_state_example :
    (bytes : List ℕ) × (length bytes ≡ serialized_size (state_of busy))
    × (write_state big_endian (state_of busy) (replicate 200 0)
        ≡ some (bytes, drop (serialized_size (state_of busy)) (replicate 200 0)))
    × (read_state big_endian (bytes ++ (7 ∷ [])) ≡ some (without_times (state_of busy), 7 ∷ []))
read_state-write_state_example =
    read_state-write_state big_endian (state_of busy) (replicate 200 0) (7 ∷ []) busy-StateFits
      (omega arith)

abbrev host : Host no_congestion_control fixed_rto
host = record {
  link_addr = link_addr;
  offload = false;
  link = none;
  now = 70;
  ack_delay_timeout = 5;
  new_control = λ mss seq. tt;
  new_estimate = tt;
}

sender-IsOutstanding : IsOutstanding sender
unfolding SeqNumber.add
sender-IsOutstanding = record {
  una = omega arith;
  span = refl;
  small = omega arith;
  last = (omega arith, tt);
}

migrate-IsOutstanding_example :
    (left : ControlBlock no_congestion_control fixed_rto) × (bytes : List ℕ)
    × (moved : ControlBlockState) × (into_state busy ≡ some (state_of busy, left))
    × (write_state big_endian (state_of busy) (replicate 200 0)
        ≡ some (bytes, drop (serialized_size (state_of busy)) (replicate 200 0)))
    × (read_state big_endian (bytes ++ []) ≡ some (moved, []))
    × (left.sender.unacked_queue ≡ [])
    × (left.sender.unsent_queue ≡ [])
    × (left.receiver.recv_queue ≡ [])
    × (left.out_of_order ≡ [])
    × (let cb' = from_state host moved in
        IsOutstanding cb'.sender
        × (unacked_bytes cb'.sender.unacked_queue ≡ 1 ∷ 2 ∷ 3 ∷ 4 ∷ 5 ∷ [])
        × (cb'.sender.send_unacked ≡ 0xffff_fffe)
        × (cb'.sender.send_next ≡ 3)
        × (cb'.sender.unsent_queue ≡ [])
        × (cb'.receiver ≡ receiver)
        × (cb'.out_of_order ≡ busy.out_of_order)
        × (cb'.out_of_order_fin ≡ some 202)
        × (cb'.state ≡ established)
        × (cb'.retransmit_deadline ≡ none)
        × (cb'.ack_deadline ≡ none))
migrate-IsOutstanding_example =
    migrate-IsOutstanding big_endian host busy (replicate 200 0) [] sender-IsOutstanding
      busy-StateFits (omega arith)
