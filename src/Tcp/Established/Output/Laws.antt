-- ===== src/Tcp/Established/Output/Laws.antt =====
-- What sending an ACK changes, and the receive window.
use capybara.Base.{
  ℕ, ◌+◌, ◌≤◌, ◌<◌, ◌^◌, ◌≡◌, refl, sym, arith, List, [], ◌∷◌, ◌++◌, append-nil, some, none,
  Option-cases, inl, inr, true,
}
use capybara.Ethernet2
use capybara.Ipv4
use capybara.Tcp.Header
use capybara.Tcp.SeqNumber
use capybara.Tcp.Established.Block.{
  Receiver, TcpSegment, CongestionControl, RtoCalculator, ControlBlock,
}
use capybara.Tcp.Established.Output.{receive_window, hdr_window_size, tcp_header, emit, send_ack}

-- The window and what waits to be read make up the buffer.
pub receive_window_lem :
    (size unread : ℕ) (r : Receiver)
    → r.reader_next < 2 ^ 32
    → size < 2 ^ 32
    → unread ≤ size
    → r.receive_next ≡ SeqNumber.add r.reader_next unread
    → receive_window size r + unread ≡ size
unfolding receive_window SeqNumber.sub SeqNumber.add
receive_window_lem size unread r hr hs h at = omega (arith, at)

module _ {cc : CongestionControl} {rc : RtoCalculator} where
  -- The segments that an ACK is: one without data, of what has been received, with the window and at
  -- SND.NXT, if the link address is known.
  abbrev pub acks : ControlBlock cc rc → ℕ → List TcpSegment
  acks cb window = elim cb.link [
    | none ↦ []
    | some addr ↦
        record {
          ethernet2_hdr = record {
            dst_addr = addr;
            src_addr = cb.local_link_addr;
            ether_type = Ethernet2.ipv4;
          };
          ipv4_hdr = Ipv4.new cb.local.ip cb.remote.ip Ipv4.tcp;
          tcp_hdr = record (Header.new cb.local.port cb.remote.port) {
            window_size = window;
            ack = true;
            ack_num = cb.receiver.receive_next;
            seq_num = cb.sender.send_next;
          };
          body = none;
          tx_checksum_offload = cb.tx_checksum_offload;
        }
        ∷ []
  ]

  -- When the window fits the header, `send_ack` does not panic, hands the ACK to the runtime, and
  -- leaves the sender, the receiver and the state of the connection.
  pub send_ack_lem :
      (cb : ControlBlock cc rc) (window : ℕ)
      → hdr_window_size cb ≡ some window
      → (cb' : ControlBlock cc rc) × (send_ack cb ≡ some cb')
        × (cb'.sender ≡ cb.sender)
        × (cb'.receiver ≡ cb.receiver)
        × (cb'.state ≡ cb.state)
        × (cb'.transmitted ≡ cb.transmitted ++ acks cb window)
  unfolding send_ack tcp_header emit Header.new Ipv4.new
  send_ack_lem cb window fits = rw fits (elim (Option-cases cb.link) [
    | inl e ↦ rw e (cb, refl, refl, refl, refl, sym (append-nil cb.transmitted))
    | inr (addr, e) ↦
        let header = Header.new cb.local.port cb.remote.port in
        rw e (
          emit cb
              (record header {
                window_size = window;
                ack = true;
                ack_num = cb.receiver.receive_next;
                seq_num = cb.sender.send_next;
              })
              none addr,
          refl,
          refl,
          refl,
          refl,
          refl,
        )
  ])
