-- ===== src/Tcp/Established/Block.antt =====
-- The state of an established connection: `Receiver` and `ControlBlock` of
-- tcp/established/ctrlblk.rs, `Sender` and `UnackedSegment` of tcp/established/sender.rs. Cells,
-- reference cells and watched values are plain fields; times and durations are numbers.
use capybara.Base.{ℕ, Bool, List, Option}
use capybara.Ethernet2.{Ethernet2Header}
use capybara.Ipv4.{Ipv4Header}
use capybara.Tcp.Header.{TcpHeader}
use capybara.Wire.{SocketAddrV4, MacAddress}

abbrev pub Buffer : Type 0
Buffer = List ℕ

-- `State`.
pub data State : Type 0 where
  established fin_wait1 fin_wait2 closing time_wait close_wait last_ack closed : State

-- `Receiver`.
pub record Receiver : Type 0 where
  pub reader_next : ℕ
  pub receive_next : ℕ
  pub recv_queue : List Buffer

-- `UnackedSegment`.
pub record UnackedSegment : Type 0 where
  pub bytes : Buffer
  pub initial_tx : Option ℕ

-- `Sender`.
pub record Sender : Type 0 where
  pub send_unacked : ℕ
  pub unacked_queue : List UnackedSegment
  pub send_next : ℕ
  pub unsent_queue : List Buffer
  pub unsent_seq_no : ℕ
  pub send_window : ℕ
  pub send_window_last_update_seq : ℕ
  pub send_window_last_update_ack : ℕ
  pub window_scale : ℕ
  pub mss : ℕ

-- `TcpSegment` of tcp/segment.rs, what is handed to the runtime.
pub record TcpSegment : Type 0 where
  pub ethernet2_hdr : Ethernet2Header
  pub ipv4_hdr : Ipv4Header
  pub tcp_hdr : TcpHeader
  pub body : Option Buffer
  pub tx_checksum_offload : Bool

-- The trait `CongestionControl` of tcp/established/congestion_control: the state of an
-- implementation and the hooks that a connection calls.
pub record CongestionControl : Type 1 where
  pub Control : Type 0
  pub get_cwnd : Control → ℕ
  pub get_limited_transmit_cwnd_increase : Control → ℕ
  pub get_retransmit_now_flag : Control → Bool
  pub on_cwnd_check_before_send : Control → Control
  pub on_ack_received : Control → ℕ → ℕ → ℕ → ℕ → Control
  pub on_rto : Control → ℕ → Control
  pub on_send : Control → ℕ → ℕ → Control
  pub on_fast_retransmit : Control → Control

-- The interface of `RtoCalculator` of tcp/established/rto.rs, which computes with `f64`.
pub record RtoCalculator : Type 1 where
  pub Estimate : Type 0
  pub add_sample : Estimate → ℕ → Estimate
  pub back_off : Estimate → Estimate
  pub rto : Estimate → ℕ

-- `ControlBlock`. `transmitted` is what `rt.transmit` was given, latest last. `link` is what the
-- ARP cache answers for the remote address while a call runs, and `now` the clock's time.
-- `waiting` says whether a waker is stored, and `woken` how often one was woken.
pub record ControlBlock (cc : CongestionControl) (rc : RtoCalculator) : Type 0 where
  pub local : SocketAddrV4
  pub remote : SocketAddrV4
  pub local_link_addr : MacAddress
  pub tx_checksum_offload : Bool
  pub link : Option MacAddress
  pub now : ℕ
  pub transmitted : List TcpSegment
  pub sender : Sender
  pub state : State
  pub ack_delay_timeout : ℕ
  pub ack_deadline : Option ℕ
  pub receive_buffer_size : ℕ
  pub window_scale : ℕ
  pub waiting : Bool
  pub woken : ℕ
  pub out_of_order : List (ℕ × Buffer)
  pub out_of_order_fin : Option ℕ
  pub receiver : Receiver
  pub user_is_done_sending : Bool
  pub control : cc.Control
  pub retransmit_deadline : Option ℕ
  pub estimate : rc.Estimate
