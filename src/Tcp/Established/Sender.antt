-- ===== src/Tcp/Established/Sender.antt =====
-- The send side of an established connection, tcp/established/sender.rs, and `close` of
-- tcp/established/ctrlblk.rs.
pub mod Acknowledged
pub mod Unsent
pub mod Laws
pub mod Background
pub mod Accept
mod Tests
use capybara.Base.{
  ℕ, zero, suc, ◌+◌, ◌-◌, ◌*◌, ◌^◌, Bool, true, false, List, [], ◌∷◌, ◌++◌, Option, some, none,
  length, ltb, leb, ◌==◌, ◌&&◌, ◌||◌, if◌then◌else◌, add32, u32, u32_mod, Errno, Result, fail,
  adjust, trim,
}
use capybara.Base.Fallible.{ok}
use capybara.Base.Panic.{◌>>=◌}
use capybara.Tcp.Header.{TcpHeader}
use capybara.Tcp.SeqNumber
use capybara.Tcp.Established.Block.{
  Buffer, Sender, UnackedSegment, CongestionControl, RtoCalculator, ControlBlock,
}
use capybara.Tcp.Established.Output.{tcp_header, emit}
use capybara.Wire.{MacAddress}

abbrev pub unsent_queue_cutoff : ℕ
unsent_queue_cutoff = 1024

-- `Sender::new`.
unfoldable pub new : ℕ → ℕ → ℕ → ℕ → Sender
new seq_no send_window window_scale mss = record {
  send_unacked = seq_no;
  unacked_queue = [];
  send_next = seq_no;
  unsent_queue = [];
  unsent_seq_no = seq_no;
  send_window = send_window;
  send_window_last_update_seq = seq_no;
  send_window_last_update_ack = seq_no;
  window_scale = window_scale;
  mss = mss;
}

-- The loop of `remove_acknowledged_data`, with `bytes_remaining` and the RTO estimate. On an empty
-- queue with bytes remaining the source asserts in debug builds, and else loops without end.
unfoldable pub remove_acknowledged :
    (rc : RtoCalculator)
    → ℕ
    → List UnackedSegment
    → ℕ
    → rc.Estimate
    → Option (List UnackedSegment × rc.Estimate)
remove_acknowledged rc now [] bytes_remaining est =
    if bytes_remaining == 0 then some ([], est) else none
remove_acknowledged rc now (segment ∷ rest) bytes_remaining est =
    let len = length segment.bytes in
    let est' : rc.Estimate = elim segment.initial_tx [
      | some t ↦ rc.add_sample est (now - t)
      | none ↦ est
    ] in
    let later =
      remove_acknowledged rc now rest (if len == 0 then 0 else bytes_remaining - len) est' in
    let cut = (do
      bytes ← adjust bytes_remaining segment.bytes
      some (record segment { bytes = bytes; initial_tx = none } ∷ rest, est')) in
    if bytes_remaining == 0
    then some (segment ∷ rest, est)
    else if ltb bytes_remaining len
    then cut
    else later

-- `pop_one_unsent_byte`: the byte, and the queue with one byte less.
unfoldable pub pop_one_unsent_byte : List Buffer → Option (Option (Buffer × List Buffer))
pop_one_unsent_byte [] = some none
pop_one_unsent_byte (buf ∷ rest) = do
  left ← adjust 1 buf
  one ← trim (length buf - 1) buf
  some (some (one, left ∷ rest))

-- `pop_unsent`: the buffer to send, whether to set PSH, and the queue that is left.
unfoldable pub pop_unsent : List Buffer → ℕ → Option (Option (Buffer × Bool × List Buffer))
pop_unsent [] max_bytes = some none
pop_unsent (buf ∷ rest) max_bytes =
    let cut = (do
      left ← adjust max_bytes buf
      front ← trim (length buf - max_bytes) buf
      some (some (front, false, left ∷ rest))) in
    if ltb max_bytes (length buf) then cut else some (some (buf, true, rest))

-- `top_size_unsent`.
unfoldable pub top_size_unsent : List Buffer → Option ℕ
top_size_unsent [] = none
top_size_unsent (buf ∷ rest) = some (length buf)

-- `update_send_window`: only by a segment that is not older than the last one used.
unfoldable pub update_send_window : Sender → TcpHeader → Sender
unfolding SeqNumber.lt SeqNumber.le
update_send_window s header =
    let wl1 = s.send_window_last_update_seq in
    let newer =
      SeqNumber.lt wl1 header.seq_num
      || (wl1 == header.seq_num && SeqNumber.le s.send_window_last_update_ack header.ack_num) in
    let updated : Sender = record s {
      send_window = u32 (header.window_size * 2 ^ s.window_scale);
      send_window_last_update_seq = header.seq_num;
      send_window_last_update_ack = header.ack_num;
    } in
    if newer then updated else s

module _ {cc : CongestionControl} {rc : RtoCalculator} where
  -- A first transmission at SND.NXT of `buf`, which takes `len` sequence numbers: the congestion
  -- control is told, the segment goes out and onto the retransmission queue, and the
  -- retransmission timer starts if it does not run. The end of `send` and of the background sender.
  unfoldable pub transmit_new :
      ControlBlock cc rc → ℕ → Bool → Buffer → MacAddress → Option (ControlBlock cc rc)
  unfolding SeqNumber.add
  transmit_new cb sent_data do_push buf addr = do
    let fin = length buf == 0
    let len = if fin then 1 else length buf
    let told : ControlBlock cc rc = record cb {
      control = cc.on_send cb.control (rc.rto cb.estimate) sent_data;
    }
    header ← tcp_header told
    let out =
        emit told
          (record header {
            seq_num = cb.sender.send_next;
            fin = fin;
            psh = if fin then false else do_push;
          })
          (some buf) addr
    let s = out.sender
    let segment : UnackedSegment = record { bytes = buf; initial_tx = some cb.now }
    let deadline = cb.now + rc.rto cb.estimate
    some (record out {
      sender = record s {
        send_next = SeqNumber.add s.send_next len;
        unacked_queue = s.unacked_queue ++ (segment ∷ []);
      };
      retransmit_deadline = elim cb.retransmit_deadline [ some t ↦ some t | none ↦ some deadline ];
    })

  -- The slow path of `send`: the buffer waits for the background sender.
  unfoldable pub queue_unsent :
      ControlBlock cc rc → Buffer → Option (Result (Unit {0}) × ControlBlock cc rc)
  unfolding SeqNumber.add
  queue_unsent cb buf =
      let s = cb.sender in
      let queued : ControlBlock cc rc = record cb {
        sender = record s {
          unsent_queue = s.unsent_queue ++ (buf ∷ []);
          unsent_seq_no = SeqNumber.add s.unsent_seq_no (u32 (length buf));
        };
      } in
      if ltb unsent_queue_cutoff (length s.unsent_queue)
      then some (fail Errno.ebusy "too many packets to send", cb)
      else some (ok tt, queued)

  -- The fast path of `send`: the buffer goes out now.
  unfoldable pub send_now :
      ControlBlock cc rc → ℕ → Buffer → MacAddress → Option (Result (Unit {0}) × ControlBlock cc rc)
  send_now cb sent_data buf addr = do
    out ← transmit_new cb sent_data true buf addr
    let s' = out.sender
    let len = if length buf == 0 then 1 else length buf
    let done : ControlBlock cc rc = record out {
      sender = record s' { unsent_seq_no = SeqNumber.add s'.unsent_seq_no len };
    }
    some (ok tt, done)

  -- `send` when nothing waits: at once, if the windows and the ARP cache allow it.
  unfoldable pub try_send :
      ControlBlock cc rc → Buffer → Option (Result (Unit {0}) × ControlBlock cc rc)
  try_send cb buf =
      let s = cb.sender in
      let sent_data = SeqNumber.sub s.send_next s.send_unacked in
      let in_flight_after_send = add32 sent_data (length buf) in
      let checked : ControlBlock cc rc = record cb {
        control = cc.on_cwnd_check_before_send cb.control;
      } in
      let effective_cwnd =
        add32 (cc.get_cwnd checked.control)
          (cc.get_limited_transmit_cwnd_increase checked.control) in
      let win_sz = s.send_window in
      let allowed =
        ltb 0 win_sz
        && leb in_flight_after_send win_sz
        && leb in_flight_after_send effective_cwnd in
      let now : Option (Result (Unit {0}) × ControlBlock cc rc) = elim cb.link [
        | some addr ↦ send_now checked sent_data buf addr
        | none ↦ queue_unsent checked buf
      ] in
      if allowed then now else queue_unsent checked buf

  -- `Sender::send`.
  unfoldable pub send :
      ControlBlock cc rc → Buffer → Option (Result (Unit {0}) × ControlBlock cc rc)
  send cb buf =
      let tried : Option (Result (Unit {0}) × ControlBlock cc rc) = elim cb.sender.unsent_queue [
        | [] ↦ try_send cb buf
        | _ ∷ _ ↦ queue_unsent cb buf
      ] in
      if cb.user_is_done_sending
      then some (fail Errno.einval "Connection is closing", cb)
      else if leb u32_mod (length buf)
      then some (fail Errno.einval "buffer too large", cb)
      else tried

  -- `Sender::retransmit`: the earliest unacknowledged segment again, and no more RTT sample of it.
  unfoldable pub retransmit : ControlBlock cc rc → Option (ControlBlock cc rc)
  retransmit cb =
      let s = cb.sender in
      elim s.unacked_queue [
        | [] ↦ some cb
        | segment ∷ rest ↦
            let marked : ControlBlock cc rc = record cb {
              sender = record s { unacked_queue = record segment { initial_tx = none } ∷ rest };
            } in
            let fin = length segment.bytes == 0 in
            let again = λ (addr : MacAddress). (do
              header ← tcp_header marked
              some (
                  emit marked
                    (record header {
                      seq_num = s.send_unacked;
                      fin = fin;
                      psh = if fin then false else true;
                    })
                    (some segment.bytes) addr)) in
            elim cb.link [ some addr ↦ again addr | none ↦ some marked ]
      ]

  -- `remove_acknowledged_data`.
  unfoldable pub remove_acknowledged_data : ControlBlock cc rc → ℕ → Option (ControlBlock cc rc)
  unfolding remove_acknowledged
  remove_acknowledged_data cb bytes_acknowledged = do
    (queue, est) ←
        remove_acknowledged rc cb.now cb.sender.unacked_queue bytes_acknowledged cb.estimate
    let s = cb.sender
    some (record cb { sender = record s { unacked_queue = queue }; estimate = est })

  -- `ControlBlock::close`: an empty buffer is the end-of-send marker. A failing `send` panics.
  unfoldable pub close : ControlBlock cc rc → Option (ControlBlock cc rc)
  unfolding send
  close cb =
      let closing = (do
        (result, cb') ← send cb []
        elim result [ ok u ↦ some (record cb' { user_is_done_sending = true }) | _ ↦ none ]) in
      if cb.user_is_done_sending then some cb else closing
