-- ===== src/Tcp/Migration/State.antt =====
-- `ReceiverState`, `SenderState` and `ControlBlockState` and their serialization,
-- tcp/established/ctrlblk.rs and tcp/established/sender.rs.
use capybara.Base.{ℕ, ◌+◌, List, [], ◌∷◌, length, Option, none, some}
use capybara.Base.Panic.{◌>>=◌}
use capybara.Tcp.Established.Block.{Buffer, UnackedSegment}
use capybara.Tcp.Migration.Codec.{
  Writing, Reading, put, both, write_word, write_half, read_word, read_half, write_buffer,
  read_buffer, write_pair, read_pair, write_unacked, read_unacked, write_option, read_option,
  write_deque, read_deque, sum_of,
}
use capybara.Wire.{SocketAddrV4, NetworkEndian}

pub record ReceiverState : Type 0 where
  pub reader_next : ℕ
  pub receive_next : ℕ
  pub recv_queue : List Buffer

pub record SenderState : Type 0 where
  pub unsent_seq_no : ℕ
  pub send_unacked : ℕ
  pub send_next : ℕ
  pub send_window : ℕ
  pub send_window_last_update_seq : ℕ
  pub send_window_last_update_ack : ℕ
  pub mss : ℕ
  pub window_scale : ℕ
  pub unacked_queue : List UnackedSegment
  pub unsent_queue : List Buffer

pub record ControlBlockState : Type 0 where
  pub local : SocketAddrV4
  pub remote : SocketAddrV4
  pub receive_buffer_size : ℕ
  pub window_scale : ℕ
  pub out_of_order_fin : Option ℕ
  pub out_of_order_queue : List (ℕ × Buffer)
  pub receiver : ReceiverState
  pub sender : SenderState

-- The folds of the three `serialized_size` functions.
abbrev pub buffer_size : Buffer → ℕ
buffer_size b = 4 + length b

abbrev pub unacked_size : UnackedSegment → ℕ
unacked_size s = 4 + length s.bytes

abbrev pub stored_size : ℕ × Buffer → ℕ
stored_size (seq, b) = 4 + 4 + length b

abbrev pub receiver_size : ReceiverState → ℕ
receiver_size s = 8 + (4 + sum_of buffer_size s.recv_queue)

abbrev pub sender_size : SenderState → ℕ
sender_size s =
    29 + (4 + sum_of unacked_size s.unacked_queue) + (4 + sum_of buffer_size s.unsent_queue)

-- `ControlBlockState::serialized_size`.
abbrev pub serialized_size : ControlBlockState → ℕ
serialized_size s =
    20
    + (1 + elim s.out_of_order_fin [ none ↦ 0 | some seq ↦ 4 ])
    + (4 + sum_of stored_size s.out_of_order_queue)
    + receiver_size s.receiver
    + sender_size s.sender

module _ (ne : NetworkEndian) where
  abbrev pub write_receiver : ReceiverState → Writing
  write_receiver s =
      both (write_word ne s.reader_next)
        (both (write_word ne s.receive_next) (write_deque ne (write_buffer ne) s.recv_queue))

  abbrev pub read_receiver : Reading ReceiverState
  read_receiver buf = do
    (reader_next, buf) ← read_word ne buf
    (receive_next, buf) ← read_word ne buf
    (recv_queue, buf) ← read_deque ne (read_buffer ne) buf
    some (
      record { reader_next = reader_next; receive_next = receive_next; recv_queue = recv_queue },
      buf,
    )

  abbrev pub write_sender : SenderState → Writing
  write_sender s = both (write_word ne s.unsent_seq_no) (
      both (write_word ne s.send_unacked) (
        both (write_word ne s.send_next) (
          both (write_word ne s.send_window) (
            both (write_word ne s.send_window_last_update_seq) (
              both (write_word ne s.send_window_last_update_ack) (
                both (write_word ne s.mss) (
                  both (put (s.window_scale ∷ [])) (
                    both (write_deque ne (write_unacked ne) s.unacked_queue)
                      (write_deque ne (write_buffer ne) s.unsent_queue)))))))))

  abbrev pub read_octet : Reading ℕ
  read_octet [] = none
  read_octet (b ∷ buf) = some (b, buf)

  abbrev pub read_sender : Reading SenderState
  read_sender buf = do
    (unsent_seq_no, buf) ← read_word ne buf
    (send_unacked, buf) ← read_word ne buf
    (send_next, buf) ← read_word ne buf
    (send_window, buf) ← read_word ne buf
    (send_window_last_update_seq, buf) ← read_word ne buf
    (send_window_last_update_ack, buf) ← read_word ne buf
    (mss, buf) ← read_word ne buf
    (window_scale, buf) ← read_octet buf
    (unacked_queue, buf) ← read_deque ne (read_unacked ne) buf
    (unsent_queue, buf) ← read_deque ne (read_buffer ne) buf
    some (
      record {
        unsent_seq_no = unsent_seq_no;
        send_unacked = send_unacked;
        send_next = send_next;
        send_window = send_window;
        send_window_last_update_seq = send_window_last_update_seq;
        send_window_last_update_ack = send_window_last_update_ack;
        mss = mss;
        window_scale = window_scale;
        unacked_queue = unacked_queue;
        unsent_queue = unsent_queue;
      },
      buf,
    )

  abbrev pub write_address : SocketAddrV4 → Writing
  write_address s = both (put (s.ip.a ∷ s.ip.b ∷ s.ip.c ∷ s.ip.d ∷ [])) (write_half ne s.port)

  abbrev pub read_address : Reading SocketAddrV4
  read_address buf = do
    (a, buf) ← read_octet buf
    (b, buf) ← read_octet buf
    (c, buf) ← read_octet buf
    (d, buf) ← read_octet buf
    (port, buf) ← read_half ne buf
    some (record { ip = record { a = a; b = b; c = c; d = d }; port = port }, buf)

  -- `ControlBlockState::serialize_into`.
  unfoldable pub write_state : ControlBlockState → Writing
  write_state s = both (write_address s.local) (
      both (write_address s.remote) (
        both (write_word ne s.receive_buffer_size) (
          both (write_word ne s.window_scale) (
            both (write_option ne s.out_of_order_fin) (
              both (write_deque ne (write_pair ne) s.out_of_order_queue)
                (both (write_receiver s.receiver) (write_sender s.sender)))))))

  -- `ControlBlockState::deserialize_from`.
  unfoldable pub read_state : Reading ControlBlockState
  read_state buf = do
    (local, buf) ← read_address buf
    (remote, buf) ← read_address buf
    (receive_buffer_size, buf) ← read_word ne buf
    (window_scale, buf) ← read_word ne buf
    (out_of_order_fin, buf) ← read_option ne buf
    (out_of_order_queue, buf) ← read_deque ne (read_pair ne) buf
    (receiver, buf) ← read_receiver buf
    (sender, buf) ← read_sender buf
    some (
      record {
        local = local;
        remote = remote;
        receive_buffer_size = receive_buffer_size;
        window_scale = window_scale;
        out_of_order_fin = out_of_order_fin;
        out_of_order_queue = out_of_order_queue;
        receiver = receiver;
        sender = sender;
      },
      buf,
    )
