-- ===== src/Tcp/Established/Receive/States.antt =====
-- The states that a segment can lead to.
use capybara.Base.{
  ℕ, ◌≡◌, refl, Bool, false, Option, some, none, if◌then◌else◌, Bool-cases, Option-cases, ◌==◌, ltb,
  ◌&&◌, sub32, inl, inr, sym, ◌∙◌,
}
use mathlib.Core.Path.{subst}
use capybara.Base.Panic.{◌>>=◌}
use capybara.Tcp.Header
use capybara.Tcp.Header.{TcpHeader}
use capybara.Tcp.SeqNumber
use capybara.Tcp.Established.Block.{
  Buffer, State, closed, CongestionControl, RtoCalculator, ControlBlock,
}
use capybara.Tcp.Established.Output.{
  send_ack, tcp_header, hdr_window_size, get_receive_window_size, emit,
}
use capybara.Tcp.Established.OutOfOrder.{
  store_segment, store_out_of_order_segment, store_out_of_order_fin, receive_data,
}
use capybara.Tcp.Established.Sender.{remove_acknowledged, remove_acknowledged_data}
use capybara.Tcp.Established.Receive.{
  Segment, after_fin_received, acknowledge, process_ack, receive_out_of_order, consume_fin,
  schedule_ack, receive_text, receives_data, receive_in_order, receive_in_window, receive,
  trim_back,
}
use capybara.Tcp.Established.Receive.Diagram.{
  Moves, stay, once, MovesOnce, same, shut, after_all_acked-MovesOnce, after_fin_received-MovesOnce,
  join, Holds, returned, Holds-bind, Holds-map, Holds-if, trivially, at_result,
}

module _ {cc : CongestionControl} {rc : RtoCalculator} where
  send_ack-state :
      (cb : ControlBlock cc rc)
      → Holds (λ (cb' : ControlBlock cc rc). cb'.state ≡ cb.state) (send_ack cb)
  unfolding send_ack tcp_header emit Header.new
  send_ack-state cb =
      Holds-bind (λ (h : TcpHeader). h.fin ≡ false)
        (λ (cb' : ControlBlock cc rc). cb'.state ≡ cb.state) (tcp_header cb) _
        (Holds-bind (λ w. Unit {0}) (λ (h : TcpHeader). h.fin ≡ false) (hdr_window_size cb) _
          (trivially (hdr_window_size cb)) (λ w. λ h. returned _ refl))
        (λ header. λ fin. elim (Option-cases cb.link) [
          | inl e ↦ rw e (returned cb refl)
          | inr (addr, e) ↦ rw (e, fin) (returned _ refl)
        ])

  -- An ACK is sent from a connection that has made its moves.
  send_ack-MovesOnce :
      (s : State) (cb : ControlBlock cc rc)
      → MovesOnce s cb.state
      → Holds (λ (cb' : ControlBlock cc rc). MovesOnce s cb'.state) (send_ack cb)
  send_ack-MovesOnce s cb moved =
      Holds-map (send_ack cb) (send_ack-state cb) (λ cb'. λ e. rw e moved)

  acknowledge-MovesOnce :
      (cb : ControlBlock cc rc) (header : TcpHeader)
      → Holds (λ (cb' : ControlBlock cc rc). MovesOnce cb.state cb'.state) (acknowledge cb header)
  unfolding acknowledge remove_acknowledged_data
  acknowledge-MovesOnce cb header =
      Holds-bind (λ (removed : ControlBlock cc rc). removed.state ≡ cb.state)
        (λ (cb' : ControlBlock cc rc). MovesOnce cb.state cb'.state)
        (remove_acknowledged_data cb (SeqNumber.sub header.ack_num cb.sender.send_unacked)) _
        (Holds-bind (λ r. Unit {0}) (λ (removed : ControlBlock cc rc). removed.state ≡ cb.state)
          (remove_acknowledged rc cb.now cb.sender.unacked_queue
            (SeqNumber.sub header.ack_num cb.sender.send_unacked) cb.estimate)
          _ (trivially _) (λ r. λ h. returned _ refl))
        (λ removed. λ e. elim (Bool-cases (header.ack_num == cb.sender.send_next)) [
          | inl all ↦ rw all (returned _ (rw e (after_all_acked-MovesOnce cb.state)))
          | inr rest ↦ rw rest (returned _ (rw e (same cb.state)))
        ])

  process_ack-MovesOnce :
      (cb : ControlBlock cc rc) (header : TcpHeader)
      → Holds
          (λ (r : Bool × ControlBlock cc rc). MovesOnce cb.state r.1.state)
          (process_ack cb header)
  unfolding process_ack
  process_ack-MovesOnce cb header =
      let told : ControlBlock cc rc = record cb {
        control =
            cc.on_ack_received cb.control (rc.rto cb.estimate) cb.sender.send_unacked
              cb.sender.send_next header.ack_num;
      } in
      Holds-if (λ (r : Bool × ControlBlock cc rc). MovesOnce cb.state r.1.state) _ _ _
        (Holds-if (λ (r : Bool × ControlBlock cc rc). MovesOnce cb.state r.1.state) _ _ _
          (Holds-bind (λ (cb' : ControlBlock cc rc). MovesOnce cb.state cb'.state)
            (λ (r : Bool × ControlBlock cc rc). MovesOnce cb.state r.1.state)
            (acknowledge told header) _ (acknowledge-MovesOnce told header)
            (λ cb'. λ h. returned _ h))
          (Holds-bind (λ (cb' : ControlBlock cc rc). MovesOnce cb.state cb'.state)
            (λ (r : Bool × ControlBlock cc rc). MovesOnce cb.state r.1.state) (send_ack told) _
            (send_ack-MovesOnce cb.state told (same cb.state)) (λ cb'. λ h. returned _ h)))
        (returned _ (same cb.state))

  store-state :
      (cb : ControlBlock cc rc) (new_start new_end : ℕ) (buf : Buffer)
      → Holds
          (λ (cb' : ControlBlock cc rc). cb'.state ≡ cb.state)
          (store_out_of_order_segment cb new_start new_end buf)
  unfolding store_out_of_order_segment
  store-state cb new_start new_end buf =
      Holds-bind (λ stored. Unit {0}) (λ (cb' : ControlBlock cc rc). cb'.state ≡ cb.state)
        (store_segment cb.out_of_order new_start new_end buf) _ (trivially _)
        (λ stored. λ h. returned _ refl)

  -- The text is stored, if any, and an ACK goes out.
  store_and_ack-state :
      (s : State) (cb : ControlBlock cc rc) (some_text : Bool) (new_start new_end : ℕ)
      (buf : Buffer)
      → cb.state ≡ s
      → Holds
          (λ (cb' : ControlBlock cc rc). cb'.state ≡ s)
          ((if some_text then store_out_of_order_segment cb new_start new_end buf else some cb)
            >>= send_ack)
  store_and_ack-state s cb some_text new_start new_end buf e =
      Holds-bind (λ (cb' : ControlBlock cc rc). cb'.state ≡ s)
        (λ (cb' : ControlBlock cc rc). cb'.state ≡ s)
        (if some_text then store_out_of_order_segment cb new_start new_end buf else some cb)
        send_ack
        (Holds-if (λ (cb' : ControlBlock cc rc). cb'.state ≡ s) some_text _ _
          (Holds-map _ (store-state cb new_start new_end buf) (λ cb'. λ e'. e' ∙ e))
          (returned cb e))
        (λ stored. λ h. Holds-map (send_ack stored) (send_ack-state stored) (λ cb'. λ e'. e' ∙ h))

  receive_out_of_order-state :
      (cb : ControlBlock cc rc) (seg : Segment)
      → Holds (λ (cb' : ControlBlock cc rc). cb'.state ≡ cb.state) (receive_out_of_order cb seg)
  unfolding receive_out_of_order store_out_of_order_fin
  receive_out_of_order-state cb seg = elim (Bool-cases seg.header.fin) [
    | inl e ↦ rw e (
        Holds-if (λ (cb' : ControlBlock cc rc). cb'.state ≡ cb.state)
          (ltb 0 seg.seg_len && receives_data cb.state) _ _
          (store_and_ack-state cb.state (record cb { out_of_order_fin = some seg.seg_end })
            (ltb 0 (sub32 seg.seg_len 1)) seg.seg_start (SeqNumber.sub seg.seg_end 1) seg.text refl)
          (returned cb refl))
    | inr e ↦ rw e (
        Holds-if (λ (cb' : ControlBlock cc rc). cb'.state ≡ cb.state)
          (ltb 0 seg.seg_len && receives_data cb.state) _ _
          (store_and_ack-state cb.state cb (ltb 0 seg.seg_len) seg.seg_start seg.seg_end seg.text
            refl)
          (returned cb refl))
  ]

  consume_fin-MovesOnce :
      (cb : ControlBlock cc rc)
      → Holds (λ (cb' : ControlBlock cc rc). MovesOnce cb.state cb'.state) (consume_fin cb)
  unfolding consume_fin
  consume_fin-MovesOnce cb =
      Holds-bind (MovesOnce cb.state) (λ (cb' : ControlBlock cc rc). MovesOnce cb.state cb'.state)
        (after_fin_received cb.state) _ (after_fin_received-MovesOnce cb.state)
        (λ t. λ moved. send_ack-MovesOnce cb.state _ moved)

  schedule_ack-state :
      (cb : ControlBlock cc rc)
      → Holds (λ (cb' : ControlBlock cc rc). cb'.state ≡ cb.state) (schedule_ack cb)
  unfolding schedule_ack
  schedule_ack-state cb = elim (Option-cases cb.ack_deadline) [
    | inl e ↦ rw e (returned _ refl)
    | inr (t, e) ↦ rw e (send_ack-state (record cb { ack_deadline = none }))
  ]

  receive_text-state :
      (cb : ControlBlock cc rc) (seg : Segment)
      → Holds (λ (r : Bool × Bool × ControlBlock cc rc). r.2.state ≡ cb.state) (receive_text cb seg)
  unfolding receive_text receive_data
  receive_text-state cb seg =
      Holds-if (λ (r : Bool × Bool × ControlBlock cc rc). r.2.state ≡ cb.state) _ _ _
        (returned _ refl) (returned _ refl)

  receive_in_order-MovesOnce :
      (cb : ControlBlock cc rc) (seg : Segment)
      → Holds (λ (cb' : ControlBlock cc rc). MovesOnce cb.state cb'.state) (receive_in_order cb seg)
  unfolding receive_in_order
  receive_in_order-MovesOnce cb seg =
      Holds-bind (λ (r : Bool × Bool × ControlBlock cc rc). r.2.state ≡ cb.state)
        (λ (cb' : ControlBlock cc rc). MovesOnce cb.state cb'.state) (receive_text cb seg) _
        (receive_text-state cb seg)
        (λ r. λ e.
          Holds-if (λ (cb' : ControlBlock cc rc). MovesOnce cb.state cb'.state) r.0 _ _
            (Holds-map (consume_fin r.2) (consume_fin-MovesOnce r.2)
              (λ cb'. λ m. subst (λ s. MovesOnce s cb'.state) e m))
            (Holds-if (λ (cb' : ControlBlock cc rc). MovesOnce cb.state cb'.state) r.1 _ _
              (Holds-map (schedule_ack r.2) (schedule_ack-state r.2)
                (λ cb'. λ e'. subst (λ s. MovesOnce cb.state s) (sym (e' ∙ e)) (same cb.state)))
              (returned _ (subst (λ s. MovesOnce cb.state s) (sym e) (same cb.state)))))

  receive_in_window-Moves :
      (cb : ControlBlock cc rc) (receive_next : ℕ) (seg : Segment)
      → Holds
          (λ (cb' : ControlBlock cc rc). Moves cb.state cb'.state)
          (receive_in_window cb receive_next seg)
  unfolding receive_in_window
  receive_in_window-Moves cb receive_next seg =
      let step = λ (cb' : ControlBlock cc rc). Moves cb.state cb'.state in
      Holds-if step seg.header.rst _ _ (returned _ (once cb.state closed (shut cb.state))) (
        Holds-if step seg.header.syn _ _ (returned _ (once cb.state closed (shut cb.state))) (
          Holds-if step seg.header.ack _ _
            (Holds-bind (λ (r : Bool × ControlBlock cc rc). MovesOnce cb.state r.1.state) step
              (process_ack cb seg.header) _ (process_ack-MovesOnce cb seg.header)
              (λ r. λ m.
                Holds-if step r.0 _ _
                  (Holds-if step _ _ _
                    (Holds-map (receive_out_of_order r.1 seg) (receive_out_of_order-state r.1 seg)
                      (λ cb'. λ e.
                        join cb.state r.1.state cb'.state m
                          (subst (λ s. MovesOnce r.1.state s) (sym e) (same r.1.state))))
                    (Holds-map (receive_in_order r.1 seg) (receive_in_order-MovesOnce r.1 seg)
                      (λ cb'. λ m'. join cb.state r.1.state cb'.state m m')))
                  (returned _ (join cb.state r.1.state r.1.state m (same r.1.state)))))
            (returned cb (stay cb.state))))

  after_front :
      (cb : ControlBlock cc rc) (header : TcpHeader) (front : Option Segment)
      → Holds
          (λ (cb' : ControlBlock cc rc). Moves cb.state cb'.state)
          (elim front as (λ x. Option (ControlBlock cc rc)) [
            | none ↦ if header.rst then some cb else send_ack cb
            | some seg ↦ (do
              trimmed ←
                  trim_back
                    (SeqNumber.add cb.receiver.receive_next (get_receive_window_size cb))
                    seg
              receive_in_window cb cb.receiver.receive_next trimmed)
          ])
  after_front cb header none =
      Holds-if (λ (cb' : ControlBlock cc rc). Moves cb.state cb'.state) header.rst _ _
        (returned cb (stay cb.state))
        (Holds-map (send_ack cb) (send_ack-state cb)
          (λ cb'. λ e. subst (λ s. Moves cb.state s) (sym e) (stay cb.state)))
  after_front cb header (some seg) =
      Holds-bind (λ trimmed. Unit {0}) (λ (cb' : ControlBlock cc rc). Moves cb.state cb'.state) _ _
        (trivially _) (λ trimmed. λ h. receive_in_window-Moves cb cb.receiver.receive_next trimmed)

  moves :
      (cb : ControlBlock cc rc) (header : TcpHeader) (text : Buffer)
      → Holds (λ (cb' : ControlBlock cc rc). Moves cb.state cb'.state) (receive cb header text)
  unfolding receive
  moves cb header text =
      let step = λ (cb' : ControlBlock cc rc). Moves cb.state cb'.state in
      Holds-bind (λ front. Unit {0}) step _ _ (trivially _)
        (λ front. λ h. after_front cb header front)

  -- When `receive` returns, the state is the old one, or one or two moves from it: no segment,
  -- whatever it holds, takes a connection along an arrow that is not in the diagram.
  pub receive-Moves :
      (cb cb' : ControlBlock cc rc) (header : TcpHeader) (text : Buffer)
      → receive cb header text ≡ some cb'
      → Moves cb.state cb'.state
  receive-Moves cb cb' header text e =
      at_result (λ (out : ControlBlock cc rc). Moves cb.state out.state) cb'
        (subst (Holds (λ (out : ControlBlock cc rc). Moves cb.state out.state)) e
          (moves cb header text))
