-- ===== src/Tcp/Established/Sender/Background.antt =====
-- One pass of the loop of the background task, tcp/established/background/sender.rs, up to the point
-- where it waits, and why a queued end-of-send marker is not sent.
use capybara.Base.{
  ℕ, ◌+◌, ◌-◌, ◌≤◌, ◌<◌, ◌^◌, ◌≡◌, refl, ◌∙◌, ap, arith, true, false, List, [], ◌∷◌, ◌++◌, Option,
  some, length, min, ltb, leb, ◌==◌, ◌||◌, if◌then◌else◌, add32, u32,
}
use capybara.Base.Fallible.{ok}
use capybara.Base.Panic.{◌>>=◌}
use capybara.Tcp.SeqNumber
use capybara.Tcp.SeqNumber.Laws.{add-add}
use capybara.Tcp.Established.Block.{
  Buffer, Sender, UnackedSegment, CongestionControl, RtoCalculator, ControlBlock,
}
use capybara.Tcp.Established.Output.{tcp_header, emit}
use capybara.Tcp.Established.Sender.{
  send, try_send, pop_unsent, pop_one_unsent_byte, top_size_unsent, transmit_new, queue_unsent,
  unsent_queue_cutoff,
}
use capybara.Wire.{MacAddress}

-- How a pass ends: waiting for data, waiting for a window after a probe, waiting for room in the
-- windows, or with a segment sent.
pub data PassEnd (cc : CongestionControl) (rc : RtoCalculator) : Type 0 where
  idle probed blocked sent : ControlBlock cc rc → PassEnd cc rc

module _ {cc : CongestionControl} {rc : RtoCalculator} where
  -- The probe of a closed window: one byte, onto the wire and the retransmission queue.
  unfoldable pub probe_window : ControlBlock cc rc → MacAddress → Option (PassEnd cc rc)
  probe_window cb addr = do
    popped ← pop_one_unsent_byte cb.sender.unsent_queue
    (buf, left) ← popped
    let s = cb.sender
    let segment : UnackedSegment = record { bytes = buf; initial_tx = some cb.now }
    let cb' : ControlBlock cc rc = record cb {
      sender = record s {
        unsent_queue = left;
        send_next = SeqNumber.add s.send_next 1;
        unacked_queue = s.unacked_queue ++ (segment ∷ []);
      };
    }
    header ← tcp_header cb'
    some (probed (emit cb' (record header { seq_num = s.send_next }) (some buf) addr))

  -- The segment that fits the windows.
  unfoldable pub send_queued : ControlBlock cc rc → ℕ → ℕ → MacAddress → Option (PassEnd cc rc)
  send_queued cb effective_cwnd sent_data addr = do
    let s = cb.sender
    let max_size = min (min (s.send_window - sent_data) s.mss) (effective_cwnd - sent_data)
    popped ← pop_unsent s.unsent_queue max_size
    (buf, do_push, left) ← popped
    let taken : ControlBlock cc rc = record cb { sender = record s { unsent_queue = left } }
    out ← transmit_new taken sent_data do_push buf addr
    some (sent out)

  -- A pass of `sender`, where `addr` is what the ARP query answers. `none` is a panic.
  unfoldable pub pass : ControlBlock cc rc → MacAddress → Option (PassEnd cc rc)
  pass cb addr =
      let s = cb.sender in
      let sent_data = SeqNumber.sub s.send_next s.send_unacked in
      let checked : ControlBlock cc rc = record cb {
        control = cc.on_cwnd_check_before_send cb.control;
      } in
      let effective_cwnd =
        add32 (cc.get_cwnd checked.control)
          (cc.get_limited_transmit_cwnd_increase checked.control) in
      let when_open = (do
        next_buf_size ← top_size_unsent s.unsent_queue
        let no_room =
            leb s.send_window (add32 sent_data (u32 next_buf_size))
            || leb effective_cwnd sent_data
            || leb (effective_cwnd - sent_data) (u32 s.mss)
        let queued = send_queued checked effective_cwnd sent_data addr
        if no_room then some (blocked checked) else queued) in
      let probe = probe_window cb addr in
      if s.send_next == s.unsent_seq_no
      then some (idle cb)
      else if s.send_window == 0
      then probe
      else when_open

-- The bytes that wait, where the end-of-send marker has none.
abbrev pub total_unsent : List Buffer → ℕ
total_unsent [] = 0
total_unsent (buf ∷ rest) = length buf + total_unsent rest

-- `unsent_seq_no` is SND.NXT and the bytes that wait.
abbrev pub IsQueued : Sender → Type 0
IsQueued s = s.unsent_seq_no ≡ SeqNumber.add s.send_next (total_unsent s.unsent_queue)

total_unsent-append :
    (queue : List Buffer) (buf : Buffer)
    → total_unsent (queue ++ (buf ∷ [])) ≡ total_unsent queue + length buf
total_unsent-append [] buf = omega arith
total_unsent-append (b ∷ queue) buf = omega (arith, total_unsent-append queue buf)

module _ {cc : CongestionControl} {rc : RtoCalculator} where
  -- Up to the cutoff, the slow path of `send` takes a buffer, or the end-of-send marker, to the end
  -- of the queue, and `unsent_seq_no` stays SND.NXT and the bytes that wait.
  pub queue_unsent-IsQueued :
      (cb : ControlBlock cc rc) (buf : Buffer)
      → length cb.sender.unsent_queue ≤ unsent_queue_cutoff
      → length buf < 2 ^ 32
      → IsQueued cb.sender
      → (cb' : ControlBlock cc rc) × (queue_unsent cb buf ≡ some (ok tt, cb'))
        × (cb'.sender.unsent_queue ≡ cb.sender.unsent_queue ++ (buf ∷ []))
        × IsQueued cb'.sender
  unfolding queue_unsent
  queue_unsent-IsQueued cb buf room small queued =
      let s = cb.sender in
      let more = total_unsent-append s.unsent_queue buf in
      let room' : ltb unsent_queue_cutoff (length s.unsent_queue) ≡ false = ground (arith, room) in
      let low : u32 (length buf) ≡ length buf = omega (arith, small) in
      rw room' (
        _,
        refl,
        refl,
        rw (low, more)
            (ap (λ n. SeqNumber.add n (length buf)) queued
              ∙ add-add s.send_next (total_unsent s.unsent_queue) (length buf)),
      )

  -- The window of the peer is another one.
  abbrev pub with_window : ℕ → ControlBlock cc rc → ControlBlock cc rc
  with_window window cb =
      let s = cb.sender in record cb { sender = record s { send_window = window } }

  -- When all data have been sent and the window of the peer is closed, `send` takes the end-of-send
  -- marker and it waits alone; and the background task goes idle without sending it, whatever window
  -- the peer has opened then.
  pub pass-fin_stuck :
      (cb : ControlBlock cc rc) (addr : MacAddress) (window : ℕ)
      → cb.user_is_done_sending ≡ false
      → cb.sender.send_next < 2 ^ 32
      → cb.sender.unsent_seq_no ≡ cb.sender.send_next
      → cb.sender.unsent_queue ≡ []
      → cb.sender.send_window ≡ 0
      → (cb' : ControlBlock cc rc) × (send cb [] ≡ some (ok tt, cb'))
        × (cb'.sender.unsent_queue ≡ [] ∷ [])
        × (pass (with_window window cb') addr ≡ some (idle (with_window window cb')))
  unfolding pass send try_send queue_unsent SeqNumber.add
  pass-fin_stuck cb addr window open_end small all_sent empty closed =
      let s = cb.sender in
      let control = cc.on_cwnd_check_before_send cb.control in
      let cb' : ControlBlock cc rc = record cb {
        control = control;
        sender = record s {
          unsent_queue = s.unsent_queue ++ ([] ∷ []);
          unsent_seq_no = SeqNumber.add s.unsent_seq_no (u32 0);
        };
      } in
      let room : ltb unsent_queue_cutoff (length s.unsent_queue) ≡ false = rw empty refl in
      let same : (s.send_next == SeqNumber.add s.unsent_seq_no (u32 0)) ≡ true =
        ground (arith, all_sent, small) in
      (
        cb',
        ground (arith, open_end, empty, closed, room),
        ap (λ (q : List Buffer). q ++ ([] ∷ [])) empty,
        rw same refl,
      )
