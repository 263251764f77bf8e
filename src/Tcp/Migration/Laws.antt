-- ===== src/Tcp/Migration/Laws.antt =====
-- The round trips of the parts of a connection's state.
use capybara.Base.{
  ℕ, ◌+◌, ◌^◌, ◌<◌, ◌≡◌, refl, ap, ◌∙◌, arith, List, [], ◌∷◌, ◌++◌, map, length, length-append,
  append_assoc, none, some,
}
use capybara.Tcp.Established.Block.{Buffer, UnackedSegment}
use capybara.Tcp.Migration.Codec.{
  Writing, put, both, write_word, write_buffer, read_buffer, write_pair, read_pair, write_unacked,
  read_unacked, write_deque, read_deque, sum_of,
}
use capybara.Tcp.Migration.CodecLaws.{
  Writes, Keeps, All, put-Writes, both-Writes, word_bytes, buffer-Keeps, unacked-Keeps, pair-Keeps,
  deque-Keeps, All-AllKept, map_same,
}
use capybara.Tcp.Migration.State.{
  ReceiverState, SenderState, ControlBlockState, buffer_size, unacked_size, stored_size,
  receiver_size, sender_size, write_receiver, read_receiver, write_sender, read_sender,
}
use capybara.Wire.{NetworkEndian, read-write_u32}

abbrev pub BufferFits : Buffer → Type 0
BufferFits b = length b < 2 ^ 32

abbrev pub UnackedFits : UnackedSegment → Type 0
UnackedFits s = length s.bytes < 2 ^ 32

abbrev pub StoredFits : ℕ × Buffer → Type 0
StoredFits (seq, b) = (seq < 2 ^ 32) × (length b < 2 ^ 32)

-- States whose numbers have their widths, and whose queues and buffers can be counted in 32 bits.
pub record ReceiverFits (s : ReceiverState) : Type 0 where
  pub reader : s.reader_next < 2 ^ 32
  pub next_fits : s.receive_next < 2 ^ 32
  pub count : length s.recv_queue < 2 ^ 32
  pub buffers : All BufferFits s.recv_queue

pub record SenderFits (s : SenderState) : Type 0 where
  pub unsent : s.unsent_seq_no < 2 ^ 32
  pub una : s.send_unacked < 2 ^ 32
  pub nxt : s.send_next < 2 ^ 32
  pub window : s.send_window < 2 ^ 32
  pub update_seq : s.send_window_last_update_seq < 2 ^ 32
  pub update_ack : s.send_window_last_update_ack < 2 ^ 32
  pub mss : s.mss < 2 ^ 32
  pub unacked_count : length s.unacked_queue < 2 ^ 32
  pub unacked : All UnackedFits s.unacked_queue
  pub unsent_count : length s.unsent_queue < 2 ^ 32
  pub buffers : All BufferFits s.unsent_queue

pub record StateFits (s : ControlBlockState) : Type 0 where
  pub local_port : s.local.port < 2 ^ 16
  pub remote_port : s.remote.port < 2 ^ 16
  pub buffer_size : s.receive_buffer_size < 2 ^ 32
  pub scale : s.window_scale < 2 ^ 32
  pub fin : (n : ℕ) → s.out_of_order_fin ≡ some n → n < 2 ^ 32
  pub stored_count : length s.out_of_order_queue < 2 ^ 32
  pub entries : All StoredFits s.out_of_order_queue
  pub receiver : ReceiverFits s.receiver
  pub sender : SenderFits s.sender

-- What the times of transmission, which are not written, become.
abbrev pub forget_tx : UnackedSegment → UnackedSegment
forget_tx s = record { bytes = s.bytes; initial_tx = none }

abbrev pub without_times : ControlBlockState → ControlBlockState
without_times s = record s {
  sender = record (s.sender) { unacked_queue = map forget_tx s.sender.unacked_queue };
}

module _ (ne : NetworkEndian) where
  buffers-Keeps :
      (q : List Buffer)
      → length q < 2 ^ 32
      → All BufferFits q
      → Keeps
          (write_deque ne (write_buffer ne) q)
          (read_deque ne (read_buffer ne))
          (4 + sum_of buffer_size q)
          q
  buffers-Keeps q small all =
      let k =
        deque-Keeps ne (write_buffer ne) (read_buffer ne) buffer_size (λ (b : Buffer). b) q small
          (All-AllKept BufferFits (write_buffer ne) (read_buffer ne) buffer_size (λ (b : Buffer). b)
            (buffer-Keeps ne) q all) in
      record {
        bytes = k.bytes;
        sized = k.sized;
        written = k.written;
        back = λ rest. k.back rest ∙ ap (λ l. some (l, rest)) (map_same q);
      }

  pub stored-Keeps :
      (q : List (ℕ × Buffer))
      → length q < 2 ^ 32
      → All StoredFits q
      → Keeps
          (write_deque ne (write_pair ne) q)
          (read_deque ne (read_pair ne))
          (4 + sum_of stored_size q)
          q
  stored-Keeps q small all =
      let k =
        deque-Keeps ne (write_pair ne) (read_pair ne) stored_size (λ (p : ℕ × Buffer). p) q small
          (All-AllKept StoredFits (write_pair ne) (read_pair ne) stored_size (λ (p : ℕ × Buffer). p)
            (λ (p : ℕ × Buffer) (fits : StoredFits p). pair-Keeps ne p.0 p.1 fits.0 fits.1) q
            all) in
      record {
        bytes = k.bytes;
        sized = k.sized;
        written = k.written;
        back = λ rest. k.back rest ∙ ap (λ l. some (l, rest)) (map_same q);
      }

  unacked_queue-Keeps :
      (q : List UnackedSegment)
      → length q < 2 ^ 32
      → All UnackedFits q
      → Keeps
          (write_deque ne (write_unacked ne) q)
          (read_deque ne (read_unacked ne))
          (4 + sum_of unacked_size q)
          (map forget_tx q)
  unacked_queue-Keeps q small all =
      deque-Keeps ne (write_unacked ne) (read_unacked ne) unacked_size forget_tx q small (
        All-AllKept UnackedFits (write_unacked ne) (read_unacked ne) unacked_size forget_tx
          (unacked-Keeps ne) q all)

  pub receiver-Keeps :
      (s : ReceiverState)
      → ReceiverFits s
      → Keeps (write_receiver ne s) (read_receiver ne) (receiver_size s) s
  receiver-Keeps s fits =
      let k = buffers-Keeps s.recv_queue fits.count fits.buffers in
      let rest_writes =
        both-Writes (write_word ne s.receive_next) (write_deque ne (write_buffer ne) s.recv_queue)
          (word_bytes ne s.receive_next) k.bytes (put-Writes (word_bytes ne s.receive_next))
          k.written in
      record {
        bytes = word_bytes ne s.reader_next ++ (word_bytes ne s.receive_next ++ k.bytes);
        sized = omega (arith, k.sized);
        written =
            both-Writes (write_word ne s.reader_next) _ (word_bytes ne s.reader_next)
              (word_bytes ne s.receive_next ++ k.bytes) (put-Writes (word_bytes ne s.reader_next))
              rest_writes;
        back = λ rest.
            rw
              (
                read-write_u32 ne s.reader_next fits.reader,
                read-write_u32 ne s.receive_next fits.next_fits,
                k.back rest,
              )
              refl;
      }

  -- A number in front of what is written.
  pub word-Writes :
      (n : ℕ) (write : Writing) (bytes : List ℕ)
      → Writes write bytes
      → Writes (both (write_word ne n) write) (word_bytes ne n ++ bytes)
  word-Writes n write bytes w =
      both-Writes (write_word ne n) write (word_bytes ne n) bytes (put-Writes (word_bytes ne n)) w

  pub sender-Keeps :
      (s : SenderState)
      → SenderFits s
      → Keeps
          (write_sender ne s)
          (read_sender ne)
          (sender_size s)
          (record s { unacked_queue = map forget_tx s.unacked_queue })
  sender-Keeps s fits =
      let k = unacked_queue-Keeps s.unacked_queue fits.unacked_count fits.unacked in
      let l = buffers-Keeps s.unsent_queue fits.unsent_count fits.buffers in
      let queues = both-Writes _ _ k.bytes l.bytes k.written l.written in
      let scale =
        both-Writes (put (s.window_scale ∷ [])) _ (s.window_scale ∷ []) (k.bytes ++ l.bytes)
          (put-Writes (s.window_scale ∷ [])) queues in
      record {
        bytes =
            word_bytes ne s.unsent_seq_no
            ++ (word_bytes ne s.send_unacked
                ++ (word_bytes ne s.send_next
                    ++ (word_bytes ne s.send_window
                        ++ (word_bytes ne s.send_window_last_update_seq
                            ++ (word_bytes ne s.send_window_last_update_ack
                                ++ (word_bytes ne s.mss
                                    ++ ((s.window_scale ∷ []) ++ (k.bytes ++ l.bytes))))))));
        sized = omega (arith, k.sized, l.sized, length-append k.bytes l.bytes);
        written = word-Writes s.unsent_seq_no _ _ (
            word-Writes s.send_unacked _ _ (
              word-Writes s.send_next _ _ (
                word-Writes s.send_window _ _ (
                  word-Writes s.send_window_last_update_seq _ _ (
                    word-Writes s.send_window_last_update_ack _ _
                      (word-Writes s.mss _ _ scale))))));
        back = λ rest.
            rw
              (
                append_assoc k.bytes l.bytes rest,
                read-write_u32 ne s.unsent_seq_no fits.unsent,
                read-write_u32 ne s.send_unacked fits.una,
                read-write_u32 ne s.send_next fits.nxt,
                read-write_u32 ne s.send_window fits.window,
                read-write_u32 ne s.send_window_last_update_seq fits.update_seq,
                read-write_u32 ne s.send_window_last_update_ack fits.update_ack,
                read-write_u32 ne s.mss fits.mss,
                k.back (l.bytes ++ rest),
                l.back rest,
              )
              refl;
      }
