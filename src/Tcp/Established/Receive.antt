-- ===== src/Tcp/Established/Receive.antt =====
-- `ControlBlock::receive` of tcp/established/ctrlblk.rs, in the order of its phases: the
-- acceptability test, the trimming to the window, RST, SYN and ACK, and then the data and the FIN.
-- The statistics of the feature `tcp-migration` are left out.
pub mod Whole
pub mod Front
pub mod Back
pub mod Window
pub mod Ack
pub mod Diagram
pub mod States
pub mod Last
mod Tests
use capybara.Base.{
  ℕ, ◌+◌, ◌-◌, Bool, true, false, List, [], ◌∷◌, Option, some, none, length, ltb, leb, ◌==◌, ◌!=◌,
  ◌&&◌, ◌||◌, if◌then◌else◌, add32, sub32, u32, adjust, trim,
}
use capybara.Base.Panic.{◌>>=◌}
use capybara.Tcp.Header.{TcpHeader}
use capybara.Tcp.SeqNumber
use capybara.Tcp.Established.Block.{
  Buffer, State, established, fin_wait1, fin_wait2, closing, time_wait, close_wait, last_ack,
  closed, CongestionControl, RtoCalculator, ControlBlock,
}
use capybara.Tcp.Established.Output.{get_receive_window_size, send_ack}
use capybara.Tcp.Established.OutOfOrder.{
  store_out_of_order_segment, store_out_of_order_fin, receive_data,
}
use capybara.Tcp.Established.Sender.{remove_acknowledged_data, update_send_window}

-- A segment while it is processed: the local variables of `receive`, the header with the flags
-- that trimming clears, and the data.
pub record Segment : Type 0 where
  pub seg_start : ℕ
  pub seg_end : ℕ
  pub seg_len : ℕ
  pub header : TcpHeader
  pub text : Buffer

abbrev pub flag : Bool → ℕ
flag true = 1
flag false = 0

unfoldable pub arrived : TcpHeader → Buffer → Segment
unfolding SeqNumber.add
arrived header text =
    let seg_len = add32 (add32 (u32 (length text)) (flag header.syn)) (flag header.fin) in
    let last = SeqNumber.add header.seq_num (sub32 seg_len 1) in
    record {
      seg_start = header.seq_num;
      seg_end = if ltb 0 seg_len then last else header.seq_num;
      seg_len = seg_len;
      header = header;
      text = text;
    }

-- The start of the segment against the window: a segment without new data or past the window is
-- dropped (`none` inside), and what was received before is cut off the front.
unfoldable pub trim_front : ℕ → ℕ → Segment → Option (Option Segment)
unfolding SeqNumber.sub SeqNumber.add SeqNumber.lt SeqNumber.ge
trim_front receive_next after_receive_window seg =
    let duplicate = SeqNumber.sub receive_next seg.seg_start in
    let to_adjust = if seg.header.syn then sub32 duplicate 1 else duplicate in
    let header = seg.header in
    let cut = (do
      text ← adjust to_adjust seg.text
      let rest : Segment = record {
        seg_start = SeqNumber.add seg.seg_start duplicate;
        seg_end = seg.seg_end;
        seg_len = sub32 seg.seg_len duplicate;
        header = record header { syn = false };
        text = text;
      }
      some (some rest)) in
    if seg.seg_start == receive_next
    then some (some seg)
    else if SeqNumber.lt seg.seg_start receive_next
    then if SeqNumber.lt seg.seg_end receive_next then some none else cut
    else if SeqNumber.ge seg.seg_start after_receive_window
    then some none
    else some (some seg)

-- The end of the segment against the window: what lies past it is cut off, the FIN first.
unfoldable pub trim_back : ℕ → Segment → Option Segment
unfolding SeqNumber.sub SeqNumber.ge
trim_back after_receive_window seg =
    let excess = add32 (SeqNumber.sub seg.seg_end after_receive_window) 1 in
    let to_trim = if seg.header.fin then sub32 excess 1 else excess in
    let header = seg.header in
    let cut = (do
      text ← trim to_trim seg.text
      let rest : Segment = record {
        seg_start = seg.seg_start;
        seg_end = SeqNumber.sub seg.seg_end excess;
        seg_len = sub32 seg.seg_len excess;
        header = record header { fin = false };
        text = text;
      }
      some rest) in
    if ltb 0 seg.seg_len && SeqNumber.ge seg.seg_end after_receive_window then cut else some seg

-- The state once everything sent is acknowledged.
unfoldable pub after_all_acked : State → State
after_all_acked fin_wait1 = fin_wait2
after_all_acked closing = time_wait
after_all_acked last_ack = closed
after_all_acked s = s

-- The state once the FIN of the peer is consumed; a panic in the state Closed.
unfoldable pub after_fin_received : State → Option State
after_fin_received established = some close_wait
after_fin_received fin_wait1 = some closing
after_fin_received fin_wait2 = some time_wait
after_fin_received closed = none
after_fin_received s = some s

-- The states in which data is received.
unfoldable pub receives_data : State → Bool
receives_data established = true
receives_data fin_wait1 = true
receives_data fin_wait2 = true
receives_data s = false

module _ {cc : CongestionControl} {rc : RtoCalculator} where
  -- An acknowledgement of new data that was sent.
  unfoldable pub acknowledge : ControlBlock cc rc → TcpHeader → Option (ControlBlock cc rc)
  acknowledge cb header = do
    let send_next = cb.sender.send_next
    removed ← remove_acknowledged_data cb (SeqNumber.sub header.ack_num cb.sender.send_unacked)
    let s = removed.sender
    let updated : ControlBlock cc rc = record removed {
      sender = update_send_window (record s { send_unacked = header.ack_num }) header;
    }
    let all_acked : ControlBlock cc rc = record updated {
      retransmit_deadline = none;
      state = after_all_acked updated.state;
    }
    let rearmed : ControlBlock cc rc = record updated {
      retransmit_deadline = some (updated.now + rc.rto updated.estimate);
    }
    some (if header.ack_num == send_next then all_acked else rearmed)

  -- The ACK field: whether the segment is processed further, and the connection then.
  unfoldable pub process_ack : ControlBlock cc rc → TcpHeader → Option (Bool × ControlBlock cc rc)
  process_ack cb header =
      let una = cb.sender.send_unacked in
      let nxt = cb.sender.send_next in
      let told : ControlBlock cc rc = record cb {
        control = cc.on_ack_received cb.control (rc.rto cb.estimate) una nxt header.ack_num;
      } in
      let new_data = (do out ← acknowledge told header; some (true, out)) in
      let not_sent = (do out ← send_ack told; some (false, out)) in
      if SeqNumber.lt una header.ack_num
      then if SeqNumber.le header.ack_num nxt then new_data else not_sent
      else some (true, told)

  -- A segment that does not start at RCV.NXT: its data and its FIN are stored.
  unfoldable pub receive_out_of_order : ControlBlock cc rc → Segment → Option (ControlBlock cc rc)
  unfolding receives_data SeqNumber.sub store_out_of_order_fin
  receive_out_of_order cb seg =
      let with_fin = store_out_of_order_fin cb seg.seg_end in
      let cb' : ControlBlock cc rc = if seg.header.fin then with_fin else cb in
      let seg_len = if seg.header.fin then sub32 seg.seg_len 1 else seg.seg_len in
      let seg_end = if seg.header.fin then SeqNumber.sub seg.seg_end 1 else seg.seg_end in
      let store = (do
        stored ←
            (if ltb 0 seg_len
              then store_out_of_order_segment cb' seg.seg_start seg_end seg.text
              else some cb')
        send_ack stored) in
      if ltb 0 seg.seg_len && receives_data cb.state then store else some cb

  -- The FIN that stands next in sequence.
  unfoldable pub consume_fin : ControlBlock cc rc → Option (ControlBlock cc rc)
  unfolding after_fin_received SeqNumber.add
  consume_fin cb = do
    state ← after_fin_received cb.state
    let r = cb.receiver
    let over : ControlBlock cc rc = record cb {
      receiver = record r { receive_next = SeqNumber.add r.receive_next 1 };
      state = state;
    }
    send_ack over

  -- The delayed ACK: the timer starts, or if it already runs the ACK goes out now.
  unfoldable pub schedule_ack : ControlBlock cc rc → Option (ControlBlock cc rc)
  schedule_ack cb =
      let now = send_ack (record cb { ack_deadline = none }) in
      elim cb.ack_deadline [
        | none ↦ some (record cb { ack_deadline = some (cb.now + cb.ack_delay_timeout) })
        | some t ↦ now
      ]

  -- The text of an in-order segment, with `header.fin` and `should_schedule_ack` then.
  unfoldable pub receive_text :
      ControlBlock cc rc → Segment → Option (Bool × Bool × ControlBlock cc rc)
  unfolding receives_data
  receive_text cb seg =
      let (out, fin_next) = receive_data cb seg.text in
      let taken = some (seg.header.fin || fin_next, true, out) in
      if ltb 0 (length seg.text) && receives_data cb.state
      then taken
      else some (seg.header.fin, false, cb)

  unfoldable pub receive_in_order : ControlBlock cc rc → Segment → Option (ControlBlock cc rc)
  receive_in_order cb seg = do
    (fin, should_schedule_ack, out) ← receive_text cb seg
    if fin then consume_fin out else (if should_schedule_ack then schedule_ack out else some out)

  -- What follows the trimming: RST, SYN, ACK, and the rest of the segment.
  unfoldable pub receive_in_window : ControlBlock cc rc → ℕ → Segment → Option (ControlBlock cc rc)
  receive_in_window cb receive_next seg =
      let acked = (do
        (goes_on, out) ← process_ack cb seg.header
        let rest =
            if seg.seg_start != receive_next
            then receive_out_of_order out seg
            else receive_in_order out seg
        if goes_on then rest else some out) in
      let shut : ControlBlock cc rc = record cb { state = closed } in
      if seg.header.rst
      then some shut
      else if seg.header.syn
      then some shut
      else if seg.header.ack
      then acked
      else some cb

  -- `ControlBlock::receive`.
  unfoldable pub receive : ControlBlock cc rc → TcpHeader → Buffer → Option (ControlBlock cc rc)
  receive cb header text = do
    let receive_next = cb.receiver.receive_next
    let after_receive_window = SeqNumber.add receive_next (get_receive_window_size cb)
    front ← trim_front receive_next after_receive_window (arrived header text)
    elim front [
      | none ↦ if header.rst then some cb else send_ack cb
      | some seg ↦ (do
        trimmed ← trim_back after_receive_window seg
        receive_in_window cb receive_next trimmed)
    ]
