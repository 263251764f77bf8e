-- ===== src/Tcp/Established/Receive/Ack.antt =====
-- What the ACK field of a segment does to the send side.
use capybara.Base.{
  ℕ, ◌+◌, ◌≤◌, ◌<◌, ◌^◌, ◌≡◌, refl, sym, ◌∙◌, ap, arith, Bool, true, false, [], ◌++◌, some, none,
  drop, ltb, ◌==◌, ◌⊎◌, inl, inr, Bool-cases,
}
use capybara.Tcp.Header.{TcpHeader}
use capybara.Tcp.SeqNumber
use capybara.Tcp.SeqNumber.Laws.{sub-add, add-lt-mod, add-add}
use capybara.Tcp.Established.Block.{Sender, CongestionControl, RtoCalculator, ControlBlock}
use capybara.Tcp.Established.Output.{hdr_window_size, get_receive_window_size}
use capybara.Tcp.Established.Output.Laws.{acks, send_ack_lem}
use capybara.Tcp.Established.Sender.{
  remove_acknowledged, remove_acknowledged_data, update_send_window,
}
use capybara.Tcp.Established.Sender.Acknowledged.{
  total_span, unacked_bytes, IsOutstanding, remove_acknowledged_lem,
}
use capybara.Tcp.Established.Receive.{acknowledge, process_ack, after_all_acked}

-- What `update_send_window` leaves alone.
update_send_window_lem :
    (s : Sender) (header : TcpHeader)
    → let s' = update_send_window s header in
      (s'.send_unacked ≡ s.send_unacked)
      × (s'.unacked_queue ≡ s.unacked_queue)
      × (s'.send_next ≡ s.send_next)
      × (s'.unsent_queue ≡ s.unsent_queue)
unfolding update_send_window
update_send_window_lem s header = (ground arith, ground arith, ground arith, ground arith)

acked_all :
    (s : Sender) (header : TcpHeader) (k : ℕ)
    → IsOutstanding s
    → k ≤ total_span s.unacked_queue
    → header.ack_num ≡ SeqNumber.add s.send_unacked k
    → header.ack_num == s.send_next ≡ true
    → k ≡ total_span s.unacked_queue
unfolding SeqNumber.add
acked_all s header k outstanding fits at e =
    let same : header.ack_num ≡ s.send_next = ground (arith, e) in
    omega (arith, same, at, outstanding.span, outstanding.small, outstanding.una, fits)

strictly : (k n : ℕ) → k ≤ n → (k ≡ n → ⊥) → k < n
strictly k n h differ = elim (Bool-cases (k == n)) [
  | inl e ↦ absurd (differ (ground (arith, e)))
  | inr e ↦ ground (arith, h, e)
]

acked_some :
    (s : Sender) (header : TcpHeader) (k : ℕ)
    → IsOutstanding s
    → header.ack_num ≡ SeqNumber.add s.send_unacked k
    → header.ack_num == s.send_next ≡ false
    → k ≡ total_span s.unacked_queue
    → ⊥
acked_some s header k outstanding at e h =
    let same : header.ack_num ≡ s.send_next =
      at ∙ ap (λ n. SeqNumber.add s.send_unacked n) h ∙ sym outstanding.span in
    ground (arith, e, same)

-- What the two comparisons of `process_ack` say of the distance from SND.UNA.
ack_cases :
    (s : Sender) (header : TcpHeader)
    → IsOutstanding s
    → header.ack_num < 2 ^ 32
    → (SeqNumber.sub header.ack_num s.send_unacked == 2 ^ 31) ≡ false
    → let j = SeqNumber.sub header.ack_num s.send_unacked in
      let total = total_span s.unacked_queue in
      (SeqNumber.lt s.send_unacked header.ack_num ≡ true → (1 ≤ j) × (j < 2 ^ 31))
      × (SeqNumber.lt s.send_unacked header.ack_num ≡ false → (j ≡ 0) ⊎ (2 ^ 31 < j))
      × (SeqNumber.lt s.send_unacked header.ack_num ≡ true
          → (SeqNumber.le header.ack_num s.send_next ≡ true → j ≤ total)
            × (SeqNumber.le header.ack_num s.send_next ≡ false → total < j))
unfolding SeqNumber.sub SeqNumber.lt SeqNumber.le SeqNumber.add
ack_cases s header outstanding at half =
    let una = outstanding.una in
    let small = outstanding.small in
    let spanned = outstanding.span in
    (
      (λ new. ground (arith, half, una, at, new)),
      (λ old. elim (Bool-cases (ltb 0 (SeqNumber.sub header.ack_num s.send_unacked))) [
        | inl pos ↦ inr (ground (arith, old, pos, una, at))
        | inr zero_j ↦ inl (ground (arith, zero_j))
      ]),
      (λ new. (
        (λ sent. ground (arith, half, una, at, new, sent, spanned, small)),
        (λ unsent. ground (arith, half, una, at, new, unsent, spanned, small)),
      )),
    )

module _ {cc : CongestionControl} {rc : RtoCalculator} where
  -- An ACK of `k` outstanding sequence numbers, from 1 to all: the retransmission queue loses
  -- exactly them, with their bytes, and is still what is outstanding; if everything is acknowledged
  -- the retransmission timer stops and the state moves on, else the timer starts afresh. Nothing is
  -- transmitted.
  pub acknowledge-IsOutstanding :
      (cb : ControlBlock cc rc) (header : TcpHeader) (k : ℕ)
      → IsOutstanding cb.sender
      → 1 ≤ k
      → k ≤ total_span cb.sender.unacked_queue
      → header.ack_num ≡ SeqNumber.add cb.sender.send_unacked k
      → (cb' : ControlBlock cc rc) × (acknowledge cb header ≡ some cb')
        × IsOutstanding cb'.sender
        × (cb'.sender.send_unacked ≡ header.ack_num)
        × (cb'.sender.send_next ≡ cb.sender.send_next)
        × (cb'.transmitted ≡ cb.transmitted)
        × (unacked_bytes cb'.sender.unacked_queue ≡ drop k (unacked_bytes cb.sender.unacked_queue))
        × (((k ≡ total_span cb.sender.unacked_queue)
              × (cb'.retransmit_deadline ≡ none)
              × (cb'.state ≡ after_all_acked cb.state))
            ⊎ ((k < total_span cb.sender.unacked_queue)
                × (cb'.retransmit_deadline ≡ some (cb.now + rc.rto cb'.estimate))
                × (cb'.state ≡ cb.state)))
  unfolding acknowledge remove_acknowledged_data
  acknowledge-IsOutstanding cb header k outstanding some_k fits at =
      let s = cb.sender in
      let una = outstanding.una in
      let small = outstanding.small in
      let spanned = outstanding.span in
      let dist : SeqNumber.sub header.ack_num s.send_unacked ≡ k =
        rw at (sub-add s.send_unacked k una (omega (arith, fits, small))).0 in
      let (queue, est, removed, total, bytes, last) =
        remove_acknowledged_lem rc cb.now s.unacked_queue k cb.estimate outstanding.last fits in
      let acked : Sender = record s { unacked_queue = queue; send_unacked = header.ack_num } in
      let (same_una, same_queue, same_next, same_unsent) = update_send_window_lem acked header in
      let s' = update_send_window acked header in
      let kept : IsOutstanding s' = record {
        una = omega (arith, same_una, at, add-lt-mod s.send_unacked k);
        span =
            rw (same_next, same_una, same_queue)
              (spanned
                ∙ sym (
                    ap (λ a. SeqNumber.add a (total_span queue)) at
                    ∙ add-add s.send_unacked k (total_span queue)
                    ∙ ap (λ n. SeqNumber.add s.send_unacked n) (omega (arith, total))));
        small = rw same_queue (omega (arith, total, small));
        last = rw same_queue last;
      } in
      rw (dist, removed)
        (elim (Bool-cases (header.ack_num == s.send_next)) [
          | inl e ↦ rw e (
              let all_acked : ControlBlock cc rc = record cb {
                sender = s';
                estimate = est;
                retransmit_deadline = none;
                state = after_all_acked cb.state;
              } in
              let all = acked_all s header k outstanding fits at e in
              (
                all_acked,
                refl,
                kept,
                same_una,
                same_next,
                refl,
                ap unacked_bytes same_queue ∙ bytes,
                inl (omega (arith, all, fits), refl, refl),
              ))
          | inr e ↦ rw e (
              let rearmed : ControlBlock cc rc = record cb {
                sender = s';
                estimate = est;
                retransmit_deadline = some (cb.now + rc.rto est);
              } in
              (
                rearmed,
                refl,
                kept,
                same_una,
                same_next,
                refl,
                ap unacked_bytes same_queue ∙ bytes,
                inr (
                  strictly k (total_span s.unacked_queue) fits
                      (acked_some s header k outstanding at e),
                  refl,
                  refl,
                ),
              ))
        ])

  told : ControlBlock cc rc → TcpHeader → ControlBlock cc rc
  told cb header = record cb {
    control =
        cc.on_ack_received cb.control (rc.rto cb.estimate) cb.sender.send_unacked
          cb.sender.send_next header.ack_num;
  }

  same_window :
      (cb : ControlBlock cc rc) (header : TcpHeader)
      → hdr_window_size (told cb header) ≡ hdr_window_size cb
  unfolding hdr_window_size get_receive_window_size told
  same_window cb header = refl

  -- When the window fits the header and the ACK is not at exactly half the sequence space from
  -- SND.UNA, the ACK field is handled without a panic, and the queue still holds what is outstanding.
  -- Processing stops, with an unchanged sender, exactly when the ACK is of something not yet sent;
  -- then an ACK is handed to the runtime, if the link address is known, and else nothing is. SND.UNA
  -- never moves unless to an ACK of what was sent.
  pub process_ack-IsOutstanding :
      (cb : ControlBlock cc rc) (header : TcpHeader) (window : ℕ)
      → IsOutstanding cb.sender
      → hdr_window_size cb ≡ some window
      → header.ack_num < 2 ^ 32
      → (SeqNumber.sub header.ack_num cb.sender.send_unacked == 2 ^ 31) ≡ false
      → let j = SeqNumber.sub header.ack_num cb.sender.send_unacked in
        let outstanding = total_span cb.sender.unacked_queue in
        (goes_on : Bool) × (cb' : ControlBlock cc rc) × (process_ack cb header
          ≡ some (goes_on, cb'))
        × IsOutstanding cb'.sender
        × (((1 ≤ j)
              × (j ≤ outstanding)
              × (goes_on ≡ true)
              × (cb'.sender.send_unacked ≡ header.ack_num)
              × (cb'.sender.send_next ≡ cb.sender.send_next)
              × (cb'.transmitted ≡ cb.transmitted))
            ⊎ (((outstanding < j)
                  × (j < 2 ^ 31)
                  × (goes_on ≡ false)
                  × (cb'.sender ≡ cb.sender)
                  × (cb'.transmitted ≡ cb.transmitted ++ acks cb window))
                ⊎ (((j ≡ 0) ⊎ (2 ^ 31 < j))
                    × (goes_on ≡ true)
                    × (cb'.sender ≡ cb.sender)
                    × (cb'.transmitted ≡ cb.transmitted))))
  unfolding process_ack told
  process_ack-IsOutstanding cb header window outstanding fits at half =
      let s = cb.sender in
      let una = s.send_unacked in
      let j = SeqNumber.sub header.ack_num una in
      let total = total_span s.unacked_queue in
      let (new_at, old_at, sent_at) = ack_cases s header outstanding at half in
      elim (Bool-cases (SeqNumber.lt una header.ack_num)) [
        | inl new ↦
            let (some_j, low_j) = new_at new in
            rw new (elim (Bool-cases (SeqNumber.le header.ack_num s.send_next)) [
              | inl sent ↦
                  let j_fits = (sent_at new).0 sent in
                  let (cb', acked, kept, una', next', quiet, bytes, timer) =
                    acknowledge-IsOutstanding (told cb header) header j outstanding some_j j_fits
                      (sym (sub-add una header.ack_num outstanding.una at).1) in
                  rw (sent, acked)
                    (true, cb', refl, kept, inl (some_j, j_fits, refl, una', next', quiet))
              | inr unsent ↦
                  let j_past = (sent_at new).1 unsent in
                  let (cb', acked, same, same_r, same_state, answered) =
                    send_ack_lem (told cb header) window (same_window cb header ∙ fits) in
                  rw (unsent, acked)
                    (
                      false,
                      cb',
                      refl,
                      rw same outstanding,
                      inr (inl (j_past, low_j, refl, same, answered)),
                    )
            ])
        | inr old ↦
            let j_old = old_at old in
            rw old (true, told cb header, refl, outstanding, inr (inr (j_old, refl, refl, refl)))
      ]

  -- With nothing outstanding, an ACK at exactly half the sequence space from SND.UNA passes both
  -- comparisons, and removing what it acknowledges does not end (it asserts in debug builds).
  pub process_ack-half_way :
      (cb : ControlBlock cc rc) (header : TcpHeader)
      → cb.sender.send_unacked < 2 ^ 32
      → cb.sender.unacked_queue ≡ []
      → cb.sender.send_next ≡ cb.sender.send_unacked
      → header.ack_num ≡ SeqNumber.add cb.sender.send_unacked (2 ^ 31)
      → process_ack cb header ≡ none
  unfolding process_ack acknowledge remove_acknowledged_data remove_acknowledged SeqNumber.add
      SeqNumber.sub SeqNumber.lt SeqNumber.le
  process_ack-half_way cb header una empty next at =
      let half : SeqNumber.lt cb.sender.send_unacked header.ack_num ≡ true =
        ground (arith, at, una) in
      let below : SeqNumber.le header.ack_num cb.sender.send_next ≡ true =
        ground (arith, at, una, next) in
      let dist : (SeqNumber.sub header.ack_num cb.sender.send_unacked) ≡ 2 ^ 31 =
        omega (arith, at, una) in
      rw (half, below, dist, empty) refl
