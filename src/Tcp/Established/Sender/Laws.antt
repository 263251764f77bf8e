-- ===== src/Tcp/Established/Sender/Laws.antt =====
-- A first transmission and what is outstanding.
use capybara.Base.{
  ℕ, ◌+◌, ◌≤◌, ◌<◌, ◌^◌, ◌≡◌, refl, sym, ◌∙◌, ap, arith, Bool, List, [], ◌∷◌, ◌++◌, some, length,
  max, ◌==◌, Option-cases, inl, inr, append-nil, append_assoc, if◌then◌else◌,
}
use capybara.Tcp.Header
use capybara.Tcp.Header.{TcpHeader}
use capybara.Tcp.SeqNumber
use capybara.Tcp.SeqNumber.Laws.{add-add}
use capybara.Tcp.Established.Block.{
  Buffer, Sender, UnackedSegment, CongestionControl, RtoCalculator, ControlBlock,
}
use capybara.Tcp.Established.Output.{tcp_header, emit, hdr_window_size, get_receive_window_size}
use capybara.Tcp.Established.Sender.{transmit_new}
use capybara.Tcp.Established.Sender.Acknowledged.{
  span, total_span, unacked_bytes, FinIsLast, IsOutstanding,
}
use capybara.Wire.{MacAddress}

-- No segment of the queue is the end-of-send marker.
abbrev pub AllText : List UnackedSegment → Type 0
AllText [] = Unit {0}
AllText (segment ∷ rest) = (1 ≤ length segment.bytes) × AllText rest

FinIsLast-append :
    (queue : List UnackedSegment) (segment : UnackedSegment)
    → AllText queue
    → FinIsLast (queue ++ (segment ∷ []))
FinIsLast-append [] segment h = tt
FinIsLast-append (a ∷ []) segment h = (h.0, tt)
FinIsLast-append (a ∷ b ∷ rest) segment h = (h.0, FinIsLast-append (b ∷ rest) segment h.1)

total_span-append :
    (queue : List UnackedSegment) (segment : UnackedSegment)
    → total_span (queue ++ (segment ∷ [])) ≡ total_span queue + span segment
total_span-append [] segment = omega arith
total_span-append (a ∷ rest) segment = omega (arith, total_span-append rest segment)

unacked_bytes-append :
    (queue : List UnackedSegment) (segment : UnackedSegment)
    → unacked_bytes (queue ++ (segment ∷ [])) ≡ unacked_bytes queue ++ segment.bytes
unacked_bytes-append [] segment = append-nil segment.bytes
unacked_bytes-append (a ∷ rest) segment =
    ap (◌++◌ a.bytes) (unacked_bytes-append rest segment)
    ∙ sym (append_assoc a.bytes (unacked_bytes rest) segment.bytes)

module _ {cc : CongestionControl} {rc : RtoCalculator} where
  told : ControlBlock cc rc → ℕ → ControlBlock cc rc
  told cb sent_data = record cb { control = cc.on_send cb.control (rc.rto cb.estimate) sent_data }

  same_window :
      (cb : ControlBlock cc rc) (sent_data : ℕ)
      → hdr_window_size (told cb sent_data) ≡ hdr_window_size cb
  unfolding hdr_window_size get_receive_window_size told
  same_window cb sent_data = refl

  -- While no end-of-send marker is outstanding and the window fits the header, sending a buffer, or
  -- the marker, does not panic: the queue then holds what is outstanding, its bytes are followed by
  -- those of the buffer, SND.NXT moves by the sequence numbers that these take, and the
  -- retransmission timer runs. The unsent queue and SND.UNA stay.
  pub transmit_new-IsOutstanding :
      (cb : ControlBlock cc rc) (sent_data window : ℕ) (do_push : Bool) (buf : Buffer)
      (addr : MacAddress)
      → IsOutstanding cb.sender
      → AllText cb.sender.unacked_queue
      → total_span cb.sender.unacked_queue + max 1 (length buf) < 2 ^ 31
      → hdr_window_size cb ≡ some window
      → (cb' : ControlBlock cc rc) × (deadline : ℕ) × (transmit_new cb sent_data do_push buf addr
          ≡ some cb')
        × IsOutstanding cb'.sender
        × (cb'.sender.send_next ≡ SeqNumber.add cb.sender.send_next (max 1 (length buf)))
        × (unacked_bytes cb'.sender.unacked_queue ≡ unacked_bytes cb.sender.unacked_queue ++ buf)
        × (cb'.retransmit_deadline ≡ some deadline)
        × (total_span cb'.sender.unacked_queue
            ≡ total_span cb.sender.unacked_queue + max 1 (length buf))
        × (cb'.sender.unsent_queue ≡ cb.sender.unsent_queue)
        × (cb'.sender.send_unacked ≡ cb.sender.send_unacked)
  unfolding transmit_new tcp_header emit Header.new told
  transmit_new-IsOutstanding cb sent_data window do_push buf addr outstanding text small fits =
      let s = cb.sender in
      let len = if length buf == 0 then 1 else length buf in
      let len_lem : len ≡ max 1 (length buf) = ground arith in
      let segment : UnackedSegment = record { bytes = buf; initial_tx = some cb.now } in
      let queue = s.unacked_queue ++ (segment ∷ []) in
      let more : total_span queue ≡ total_span s.unacked_queue + len =
        total_span-append s.unacked_queue segment
        ∙ ap (λ n. total_span s.unacked_queue + n) (sym len_lem) in
      let sent : Sender = record s {
        send_next = SeqNumber.add s.send_next len;
        unacked_queue = queue;
      } in
      let small' : total_span s.unacked_queue + max 1 (length buf) < 2 ^ 31 = small in
      let kept : IsOutstanding sent = record {
        una = outstanding.una;
        span =
            ap (λ n. SeqNumber.add n len) outstanding.span
            ∙ add-add s.send_unacked (total_span s.unacked_queue) len
            ∙ ap (λ n. SeqNumber.add s.send_unacked n) (sym more);
        small = omega (arith, more, len_lem, small');
        last = FinIsLast-append s.unacked_queue segment text;
      } in
      let next = ap (λ n. SeqNumber.add s.send_next n) len_lem in
      let total : total_span queue ≡ total_span s.unacked_queue + max 1 (length buf) =
        omega (arith, more, len_lem) in
      let bytes = unacked_bytes-append s.unacked_queue segment in
      rw (same_window cb sent_data ∙ fits) (elim (Option-cases cb.retransmit_deadline) [
        | inl e ↦
            rw e (_, cb.now + rc.rto cb.estimate, refl, kept, next, bytes, refl, total, refl, refl)
        | inr (t, e) ↦ rw e (_, t, refl, kept, next, bytes, refl, total, refl, refl)
      ])
