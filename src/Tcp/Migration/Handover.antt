-- ===== src/Tcp/Migration/Handover.antt =====
-- A connection's way into its state and out of it, tcp/established/ctrlblk.rs and
-- tcp/established/sender.rs. `none` is a panic.
use capybara.Base.{ℕ, [], ltb, u32_mod, Bool, false, Option, none, some}
use capybara.Base.Panic.{require, ◌>>=◌, ◌>>◌}
use capybara.Tcp.Established.Block.{
  Receiver, Sender, ControlBlock, CongestionControl, RtoCalculator, established,
}
use capybara.Tcp.Migration.State.{ReceiverState, SenderState, ControlBlockState}
use capybara.Wire.{MacAddress}

-- `SenderState::from(&Sender)`, which takes the queues away.
abbrev pub sender_state : Sender → Option SenderState
sender_state s =
    require (ltb s.mss u32_mod)
    >> some (record {
      unsent_seq_no = s.unsent_seq_no;
      send_unacked = s.send_unacked;
      send_next = s.send_next;
      send_window = s.send_window;
      send_window_last_update_seq = s.send_window_last_update_seq;
      send_window_last_update_ack = s.send_window_last_update_ack;
      mss = s.mss;
      window_scale = s.window_scale;
      unacked_queue = s.unacked_queue;
      unsent_queue = s.unsent_queue;
    })

-- `ReceiverState::from(&Receiver)`, which takes the queue away.
abbrev pub receiver_state : Receiver → ReceiverState
receiver_state r = record {
  reader_next = r.reader_next;
  receive_next = r.receive_next;
  recv_queue = r.recv_queue;
}

-- `Sender::from(SenderState)`.
abbrev pub sender_from : SenderState → Sender
sender_from s = record {
  send_unacked = s.send_unacked;
  unacked_queue = s.unacked_queue;
  send_next = s.send_next;
  unsent_queue = s.unsent_queue;
  unsent_seq_no = s.unsent_seq_no;
  send_window = s.send_window;
  send_window_last_update_seq = s.send_window_last_update_seq;
  send_window_last_update_ack = s.send_window_last_update_ack;
  window_scale = s.window_scale;
  mss = s.mss;
}

-- `Receiver::from_state`.
abbrev pub receiver_from : ReceiverState → Receiver
receiver_from s = record {
  reader_next = s.reader_next;
  receive_next = s.receive_next;
  recv_queue = s.recv_queue;
}

-- What the new server gives a connection: its address, its configuration, its clock, what its ARP
-- cache answers, and new instances of `congestion_control::None` and `RtoCalculator`.
pub record Host (cc : CongestionControl) (rc : RtoCalculator) : Type 0 where
  pub link_addr : MacAddress
  pub offload : Bool
  pub link : Option MacAddress
  pub now : ℕ
  pub ack_delay_timeout : ℕ
  pub new_control : ℕ → ℕ → cc.Control
  pub new_estimate : rc.Estimate

module _ {cc : CongestionControl} {rc : RtoCalculator} where
  -- `ControlBlockState::from(&ControlBlock)`: the state, and what is left of the connection.
  unfoldable pub into_state : ControlBlock cc rc → Option (ControlBlockState × ControlBlock cc rc)
  into_state cb = do
    sender ← sender_state cb.sender
    let state : ControlBlockState = record {
      local = cb.local;
      remote = cb.remote;
      receive_buffer_size = cb.receive_buffer_size;
      window_scale = cb.window_scale;
      out_of_order_fin = cb.out_of_order_fin;
      out_of_order_queue = cb.out_of_order;
      receiver = receiver_state cb.receiver;
      sender = sender;
    }
    some (
      state,
      record cb {
        out_of_order = [];
        receiver = record (cb.receiver) { recv_queue = [] };
        sender = record (cb.sender) { unacked_queue = []; unsent_queue = [] };
      },
    )

  -- `ControlBlock::from_state`.
  unfoldable pub from_state : Host cc rc → ControlBlockState → ControlBlock cc rc
  from_state host s =
      let sender = sender_from s.sender in
      record {
        local = s.local;
        remote = s.remote;
        local_link_addr = host.link_addr;
        tx_checksum_offload = host.offload;
        link = host.link;
        now = host.now;
        transmitted = [];
        sender = sender;
        state = established;
        ack_delay_timeout = host.ack_delay_timeout;
        ack_deadline = none;
        receive_buffer_size = s.receive_buffer_size;
        window_scale = s.window_scale;
        waiting = false;
        woken = 0;
        out_of_order = s.out_of_order_queue;
        out_of_order_fin = s.out_of_order_fin;
        receiver = receiver_from s.receiver;
        user_is_done_sending = false;
        control = host.new_control sender.mss sender.send_unacked;
        retransmit_deadline = none;
        estimate = host.new_estimate;
      }
