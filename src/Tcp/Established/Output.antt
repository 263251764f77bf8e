-- ===== src/Tcp/Established/Output.antt =====
-- Headers and segments out: `tcp_header`, `send_ack`, `emit` and the receive window of
-- tcp/established/ctrlblk.rs.
pub mod Laws
use capybara.Base.{
  ℕ, ◌+◌, ◌/◌, ◌^◌, Bool, true, false, List, [], ◌∷◌, ◌++◌, Option, some, none, sub32, ltb,
  if◌then◌else◌,
}
use capybara.Base.Panic.{◌>>=◌}
use capybara.Ethernet2
use capybara.Ipv4
use capybara.Tcp.Header
use capybara.Tcp.Header.{TcpHeader}
use capybara.Tcp.SeqNumber
use capybara.Tcp.Established.Block.{
  Buffer, State, established, fin_wait1, fin_wait2, closing, time_wait, close_wait, last_ack,
  closed, TcpSegment, CongestionControl, RtoCalculator, ControlBlock, Receiver,
}
use capybara.Wire.{MacAddress}

-- The state after a segment with FIN went out.
unfoldable pub after_fin_sent : State → State
after_fin_sent established = fin_wait1
after_fin_sent close_wait = last_ack
after_fin_sent s = s

-- `get_receive_window_size`: the buffer less what was received and not yet read.
unfoldable pub receive_window : ℕ → Receiver → ℕ
unfolding SeqNumber.sub
receive_window receive_buffer_size r =
    sub32 receive_buffer_size (SeqNumber.sub r.receive_next r.reader_next)

-- `hdr_window_size`: the window in units of the scale, a panic if it does not fit 16 bits.
unfoldable pub scaled_window : ℕ → ℕ → Option ℕ
scaled_window window scale = let w = window / 2 ^ scale in if ltb w (2 ^ 16) then some w else none

module _ {cc : CongestionControl} {rc : RtoCalculator} where
  unfoldable pub get_receive_window_size : ControlBlock cc rc → ℕ
  unfolding receive_window
  get_receive_window_size cb = receive_window cb.receive_buffer_size cb.receiver

  unfoldable pub hdr_window_size : ControlBlock cc rc → Option ℕ
  unfolding get_receive_window_size scaled_window
  hdr_window_size cb = scaled_window (get_receive_window_size cb) cb.window_scale

  -- `tcp_header`.
  unfoldable pub tcp_header : ControlBlock cc rc → Option TcpHeader
  unfolding Header.new
  tcp_header cb = do
    window ← hdr_window_size cb
    let header = Header.new cb.local.port cb.remote.port
    some (record header { window_size = window; ack = true; ack_num = cb.receiver.receive_next })

  -- `emit`: hands the segment to the runtime, cancels the delayed ACK, and enters the next state
  -- if the segment carries a FIN.
  unfoldable pub emit :
      ControlBlock cc rc → TcpHeader → Option Buffer → MacAddress → ControlBlock cc rc
  unfolding after_fin_sent Ipv4.new
  emit cb header body remote_link_addr =
      let eth : Ethernet2.Ethernet2Header = record {
        dst_addr = remote_link_addr;
        src_addr = cb.local_link_addr;
        ether_type = Ethernet2.ipv4;
      } in
      let segment : TcpSegment = record {
        ethernet2_hdr = eth;
        ipv4_hdr = Ipv4.new cb.local.ip cb.remote.ip Ipv4.tcp;
        tcp_hdr = header;
        body = body;
        tx_checksum_offload = cb.tx_checksum_offload;
      } in
      record cb {
        transmitted = cb.transmitted ++ (segment ∷ []);
        ack_deadline = none;
        state = if header.fin then after_fin_sent cb.state else cb.state;
      }

  -- `send_ack`: an empty segment, sent only if the link address is known.
  unfoldable pub send_ack : ControlBlock cc rc → Option (ControlBlock cc rc)
  send_ack cb = do
    header ← tcp_header cb
    let ack = record header { seq_num = cb.sender.send_next }
    elim cb.link [ some addr ↦ some (emit cb ack none addr) | none ↦ some cb ]
