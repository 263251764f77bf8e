-- ===== src/Tcp/Established/Example.antt =====
-- A connection for the tests of the modules of Tcp/Established: no congestion control, a fixed
-- retransmission timeout, and sequence numbers that are about to wrap around.
use capybara.Base.{ℕ, ◌^◌, ◌-◌, true, false, List, [], ◌∷◌, none, some}
use capybara.Tcp.Header.{TcpHeader}
use capybara.Tcp.Established.Block.{
  established, Receiver, UnackedSegment, Sender, CongestionControl, RtoCalculator, ControlBlock,
}
use capybara.Wire.{Ipv4Addr, MacAddress}

-- `None` of congestion_control/none.rs.
abbrev pub no_congestion_control : CongestionControl
no_congestion_control = record {
  Control = Unit {0};
  get_cwnd = λ c. 2 ^ 32 - 1;
  get_limited_transmit_cwnd_increase = λ c. 0;
  get_retransmit_now_flag = λ c. false;
  on_cwnd_check_before_send = λ c. c;
  on_ack_received = λ c rto una nxt ack. c;
  on_rto = λ c una. c;
  on_send = λ c rto sent. c;
  on_fast_retransmit = λ c. c;
}

abbrev pub fixed_rto : RtoCalculator
fixed_rto = record { Estimate = Unit {0}; add_sample = λ e t. e; back_off = λ e. e; rto = λ e. 200 }

abbrev pub here : Ipv4Addr
here = record { a = 192; b = 168; c = 1; d = 1 }

abbrev pub there : Ipv4Addr
there = record { a = 192; b = 168; c = 1; d = 2 }

abbrev pub link_addr : MacAddress
link_addr = record { m0 = 2; m1 = 0; m2 = 0; m3 = 0; m4 = 0; m5 = 9 }

-- Two segments outstanding, of three and two bytes.
abbrev pub two_unacked : List UnackedSegment
two_unacked =
    record { bytes = 1 ∷ 2 ∷ 3 ∷ []; initial_tx = some 10 }
    ∷ record { bytes = 4 ∷ 5 ∷ []; initial_tx = none }
    ∷ []

abbrev pub sender : Sender
sender = record {
  send_unacked = 0xffff_fffe;
  unacked_queue = two_unacked;
  send_next = 3;
  unsent_queue = [];
  unsent_seq_no = 3;
  send_window = 1000;
  send_window_last_update_seq = 0;
  send_window_last_update_ack = 0;
  window_scale = 0;
  mss = 536;
}

abbrev pub receiver : Receiver
receiver = record { reader_next = 100; receive_next = 100; recv_queue = [] }

abbrev pub connection : ControlBlock no_congestion_control fixed_rto
connection = record {
  local = record { ip = here; port = 80 };
  remote = record { ip = there; port = 9000 };
  local_link_addr = link_addr;
  tx_checksum_offload = false;
  link = some link_addr;
  now = 50;
  transmitted = [];
  sender = sender;
  state = established;
  ack_delay_timeout = 5;
  ack_deadline = none;
  receive_buffer_size = 4096;
  window_scale = 0;
  waiting = false;
  woken = 0;
  out_of_order = [];
  out_of_order_fin = none;
  receiver = receiver;
  user_is_done_sending = false;
  control = tt;
  retransmit_deadline = none;
  estimate = tt;
}

-- Nothing outstanding, and nothing that waits.
abbrev pub idle_sender : Sender
idle_sender = let s = sender in record s { send_unacked = 3; unacked_queue = [] }

abbrev pub idle_connection : ControlBlock no_congestion_control fixed_rto
idle_connection = let cb = connection in record cb { sender = idle_sender }

-- A segment with the ACK flag.
abbrev pub ack_header : ℕ → ℕ → TcpHeader
ack_header seq_num ack_num = record {
  src_port = 9000;
  dst_port = 80;
  seq_num = seq_num;
  ack_num = ack_num;
  ns = false;
  cwr = false;
  ece = false;
  urg = false;
  ack = true;
  psh = false;
  rst = false;
  syn = false;
  fin = false;
  window_size = 500;
  urgent_pointer = 0;
  num_options = 0;
  option_list = [];
}
