-- ===== src/Tcp/Header.antt =====
-- `TcpHeader` and its options, inetstack/protocols/tcp/segment.rs.
pub mod Options
pub mod OptionReader
pub mod Segment
pub mod Parser
mod OptionLaws
mod Flags
mod Pieces
pub mod Accepts
pub mod Fuel
pub mod Laws
mod Tests
use capybara.Base.{ℕ, Bool, false, List, replicate}

-- `SelectiveAcknowlegement`.
pub record Sack : Type 0 where
  pub begin : ℕ
  pub end : ℕ

-- `TcpOptions2`. The array `[SelectiveAcknowlegement; 4]` is a list of four.
pub data TcpOption : Type 0 where
  no_operation : TcpOption
  maximum_segment_size : ℕ → TcpOption
  window_scale : ℕ → TcpOption
  sack_permitted : TcpOption
  sack : ℕ → List Sack → TcpOption
  timestamp : ℕ → ℕ → TcpOption

-- The array `[TcpOptions2; MAX_TCP_OPTIONS]` is a list of five.
pub record TcpHeader : Type 0 where
  pub src_port : ℕ
  pub dst_port : ℕ
  pub seq_num : ℕ
  pub ack_num : ℕ
  pub ns : Bool
  pub cwr : Bool
  pub ece : Bool
  pub urg : Bool
  pub ack : Bool
  pub psh : Bool
  pub rst : Bool
  pub syn : Bool
  pub fin : Bool
  pub window_size : ℕ
  pub urgent_pointer : ℕ
  pub num_options : ℕ
  pub option_list : List TcpOption

abbrev pub max_tcp_options : ℕ
max_tcp_options = 5

abbrev pub min_tcp_header_size : ℕ
min_tcp_header_size = 20

abbrev pub max_tcp_header_size : ℕ
max_tcp_header_size = 60

-- `TcpHeader::new`.
unfoldable pub new : ℕ → ℕ → TcpHeader
new src_port dst_port = record {
  src_port = src_port;
  dst_port = dst_port;
  seq_num = 0;
  ack_num = 0;
  ns = false;
  cwr = false;
  ece = false;
  urg = false;
  ack = false;
  psh = false;
  rst = false;
  syn = false;
  fin = false;
  window_size = 0;
  urgent_pointer = 0;
  num_options = 0;
  option_list = replicate max_tcp_options no_operation;
}
