-- ===== src/Tcp/Migration/Moved.antt =====
-- A connection that is taken away from one server, written, read and set up on another.
use capybara.Base.{
  ℕ, ◌+◌, ◌≤◌, ◌<◌, ◌^◌, ◌≡◌, refl, sym, ap, ◌∙◌, arith, List, [], ◌∷◌, ◌++◌, map, length, drop,
  some, none,
}
use capybara.Tcp.SeqNumber
use capybara.Tcp.Established.Block.{
  UnackedSegment, ControlBlock, CongestionControl, RtoCalculator, established,
}
use capybara.Tcp.Established.Sender.Acknowledged.{
  span, total_span, unacked_bytes, FinIsLast, IsOutstanding,
}
use capybara.Tcp.Migration.Laws.{StateFits, forget_tx, without_times}
use capybara.Tcp.Migration.RoundTrip.{read_state-write_state}
use capybara.Tcp.Migration.Handover.{receiver_state, Host, into_state, from_state}
use capybara.Tcp.Migration.State.{ControlBlockState, serialized_size, write_state, read_state}
use capybara.Wire.{NetworkEndian}

span-forget_tx :
    (q : List UnackedSegment)
    → (total_span (map forget_tx q) ≡ total_span q)
      × (unacked_bytes (map forget_tx q) ≡ unacked_bytes q)
span-forget_tx [] = (refl, refl)
span-forget_tx (s ∷ q) =
    let (spans, bytes) = span-forget_tx q in
    (ap (λ n. span s + n) spans, ap (λ b. s.bytes ++ b) bytes)

FinIsLast-forget_tx : (q : List UnackedSegment) → FinIsLast q → FinIsLast (map forget_tx q)
FinIsLast-forget_tx [] h = tt
FinIsLast-forget_tx (s ∷ []) h = tt
FinIsLast-forget_tx (s ∷ next ∷ q) h = (h.0, FinIsLast-forget_tx (next ∷ q) h.1)

module _ {cc : CongestionControl} {rc : RtoCalculator} where
  -- The state that is taken, where it is.
  abbrev pub state_of : ControlBlock cc rc → ControlBlockState
  state_of cb = record {
    local = cb.local;
    remote = cb.remote;
    receive_buffer_size = cb.receive_buffer_size;
    window_scale = cb.window_scale;
    out_of_order_fin = cb.out_of_order_fin;
    out_of_order_queue = cb.out_of_order;
    receiver = receiver_state cb.receiver;
    sender = record {
      unsent_seq_no = cb.sender.unsent_seq_no;
      send_unacked = cb.sender.send_unacked;
      send_next = cb.sender.send_next;
      send_window = cb.sender.send_window;
      send_window_last_update_seq = cb.sender.send_window_last_update_seq;
      send_window_last_update_ack = cb.sender.send_window_last_update_ack;
      mss = cb.sender.mss;
      window_scale = cb.sender.window_scale;
      unacked_queue = cb.sender.unacked_queue;
      unsent_queue = cb.sender.unsent_queue;
    };
  }

  into_state_lem :
      (cb : ControlBlock cc rc)
      → cb.sender.mss < 2 ^ 32
      → (left : ControlBlock cc rc) × (into_state cb ≡ some (state_of cb, left))
        × (left.sender.unacked_queue ≡ [])
        × (left.sender.unsent_queue ≡ [])
        × (left.receiver.recv_queue ≡ [])
        × (left.out_of_order ≡ [])
  unfolding into_state
  into_state_lem cb fits =
      let left : ControlBlock cc rc = record cb {
        out_of_order = [];
        receiver = record (cb.receiver) { recv_queue = [] };
        sender = record (cb.sender) { unacked_queue = []; unsent_queue = [] };
      } in
      (left, ground (arith, fits), refl, refl, refl, refl)

  from_state-IsOutstanding :
      (host : Host cc rc) (cb : ControlBlock cc rc)
      → IsOutstanding cb.sender
      → IsOutstanding (from_state host (without_times (state_of cb))).sender
  unfolding from_state
  from_state-IsOutstanding host cb out =
      let q = cb.sender.unacked_queue in
      let spans = (span-forget_tx q).0 in
      record {
        una = out.una;
        span = out.span ∙ ap (SeqNumber.add cb.sender.send_unacked) (sym spans);
        small = omega (arith, spans, out.small);
        last = FinIsLast-forget_tx q out.last;
      }

  -- A connection that moves. Taking its state leaves its queues empty on the old server; the state
  -- is written into a buffer with room for it, and read back with whatever stands behind it left;
  -- and the connection set up from it on the new server has its retransmission queue exactly as
  -- SND.UNA and SND.NXT say, the same bytes to acknowledge and to send, the same text received for
  -- the application and out of order, and the state ESTABLISHED with no timer running. Nothing
  -- panics, for numbers of their widths and queues that can be counted in 32 bits.
  pub migrate-IsOutstanding :
      (ne : NetworkEndian) (host : Host cc rc) (cb : ControlBlock cc rc) (buf rest : List ℕ)
      → IsOutstanding cb.sender
      → StateFits (state_of cb)
      → serialized_size (state_of cb) ≤ length buf
      → (left : ControlBlock cc rc) × (bytes : List ℕ) × (moved : ControlBlockState) × (into_state
            cb
          ≡ some (state_of cb, left))
        × (write_state ne (state_of cb) buf
            ≡ some (bytes, drop (serialized_size (state_of cb)) buf))
        × (read_state ne (bytes ++ rest) ≡ some (moved, rest))
        × (left.sender.unacked_queue ≡ [])
        × (left.sender.unsent_queue ≡ [])
        × (left.receiver.recv_queue ≡ [])
        × (left.out_of_order ≡ [])
        × (let cb' = from_state host moved in
            IsOutstanding cb'.sender
            × (unacked_bytes cb'.sender.unacked_queue ≡ unacked_bytes cb.sender.unacked_queue)
            × (cb'.sender.send_unacked ≡ cb.sender.send_unacked)
            × (cb'.sender.send_next ≡ cb.sender.send_next)
            × (cb'.sender.unsent_queue ≡ cb.sender.unsent_queue)
            × (cb'.receiver ≡ cb.receiver)
            × (cb'.out_of_order ≡ cb.out_of_order)
            × (cb'.out_of_order_fin ≡ cb.out_of_order_fin)
            × (cb'.state ≡ established)
            × (cb'.retransmit_deadline ≡ none)
            × (cb'.ack_deadline ≡ none))
  unfolding from_state
  migrate-IsOutstanding ne host cb buf rest out fits room =
      let (left, taken, no_unacked, no_unsent, no_text, no_stored) =
        into_state_lem cb fits.sender.mss in
      let (bytes, sized, written, back) =
        read_state-write_state ne (state_of cb) buf rest fits room in
      (
        left,
        bytes,
        without_times (state_of cb),
        taken,
        written,
        back,
        no_unacked,
        no_unsent,
        no_text,
        no_stored,
        (
          from_state-IsOutstanding host cb out,
          (span-forget_tx cb.sender.unacked_queue).1,
          refl,
          refl,
          refl,
          refl,
          refl,
          refl,
          refl,
          refl,
          refl,
        ),
      )
