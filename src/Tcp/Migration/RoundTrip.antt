-- ===== src/Tcp/Migration/RoundTrip.antt =====
-- The round trip of the state of a connection.
use capybara.Base.{
  ℕ, ◌+◌, ◌≤◌, ◌≡◌, refl, ap, ◌∙◌, arith, List, [], ◌∷◌, ◌++◌, length, length-append, append_assoc,
  drop, Option, none, some,
}
use capybara.Tcp.Migration.Codec.{put, write_half}
use capybara.Tcp.Migration.CodecLaws.{
  Writes, Keeps, put-Writes, both-Writes, word_bytes, option-Keeps,
}
use capybara.Tcp.Migration.Laws.{
  StateFits, without_times, stored-Keeps, receiver-Keeps, sender-Keeps, word-Writes,
}
use capybara.Tcp.Migration.State.{
  ControlBlockState, serialized_size, write_address, write_state, read_state,
}
use capybara.Wire.{SocketAddrV4, NetworkEndian, read-write_u16, read-write_u32}

module _ (ne : NetworkEndian) where
  abbrev address_bytes : SocketAddrV4 → List ℕ
  address_bytes s =
      let w = ne.write_u16 s.port in s.ip.a ∷ s.ip.b ∷ s.ip.c ∷ s.ip.d ∷ w.0 ∷ w.1 ∷ []

  address-Writes : (s : SocketAddrV4) → Writes (write_address ne s) (address_bytes s)
  address-Writes s =
      let w = ne.write_u16 s.port in
      both-Writes (put (s.ip.a ∷ s.ip.b ∷ s.ip.c ∷ s.ip.d ∷ [])) (write_half ne s.port)
        (s.ip.a ∷ s.ip.b ∷ s.ip.c ∷ s.ip.d ∷ []) (w.0 ∷ w.1 ∷ [])
        (put-Writes (s.ip.a ∷ s.ip.b ∷ s.ip.c ∷ s.ip.d ∷ [])) (put-Writes (w.0 ∷ w.1 ∷ []))

  fin_size :
      (o : Option ℕ) → (elim o [ none ↦ 1 | some n ↦ 5 ]) ≡ 1 + elim o [ none ↦ 0 | some n ↦ 4 ]
  fin_size none = refl
  fin_size (some n) = refl

  state-Keeps :
      (s : ControlBlockState)
      → StateFits s
      → Keeps (write_state ne s) (read_state ne) (serialized_size s) (without_times s)
  unfolding write_state read_state
  state-Keeps s fits =
      let o = option-Keeps ne s.out_of_order_fin fits.fin in
      let q = stored-Keeps ne s.out_of_order_queue fits.stored_count fits.entries in
      let r = receiver-Keeps ne s.receiver fits.receiver in
      let t = sender-Keeps ne s.sender fits.sender in
      let tail = both-Writes _ _ o.bytes (q.bytes ++ (r.bytes ++ t.bytes)) o.written (
        both-Writes _ _ q.bytes (r.bytes ++ t.bytes) q.written
          (both-Writes _ _ r.bytes t.bytes r.written t.written)) in
      record {
        bytes =
            address_bytes s.local
            ++ (address_bytes s.remote
                ++ (word_bytes ne s.receive_buffer_size
                    ++ (word_bytes ne s.window_scale
                        ++ (o.bytes ++ (q.bytes ++ (r.bytes ++ t.bytes))))));
        sized = omega (
          arith,
          fin_size s.out_of_order_fin,
          o.sized,
          q.sized,
          r.sized,
          t.sized,
          length-append o.bytes (q.bytes ++ (r.bytes ++ t.bytes)),
          length-append q.bytes (r.bytes ++ t.bytes),
          length-append r.bytes t.bytes,
        );
        written = both-Writes _ _ (address_bytes s.local) _ (address-Writes s.local) (
            both-Writes _ _ (address_bytes s.remote) _ (address-Writes s.remote)
              (word-Writes ne s.receive_buffer_size _ _ (word-Writes ne s.window_scale _ _ tail)));
        back = λ rest.
            rw
              (
                append_assoc o.bytes (q.bytes ++ (r.bytes ++ t.bytes)) rest,
                append_assoc q.bytes (r.bytes ++ t.bytes) rest,
                append_assoc r.bytes t.bytes rest,
                read-write_u16 ne s.local.port fits.local_port,
                read-write_u16 ne s.remote.port fits.remote_port,
                read-write_u32 ne s.receive_buffer_size fits.buffer_size,
                read-write_u32 ne s.window_scale fits.scale,
                o.back (q.bytes ++ (r.bytes ++ (t.bytes ++ rest))),
                q.back (r.bytes ++ (t.bytes ++ rest)),
                r.back (t.bytes ++ rest),
                t.back rest,
              )
              refl;
      }

  -- A state whose numbers have their widths, and whose queues and buffers can be counted in 32 bits,
  -- is written without a panic into any buffer that has room for `serialized_size` bytes, takes up
  -- exactly that many, and is read back from them, with anything behind them left, as it was but for
  -- the times at which its unacknowledged segments were sent.
  pub read_state-write_state :
      (s : ControlBlockState) (buf rest : List ℕ)
      → StateFits s
      → serialized_size s ≤ length buf
      → (bytes : List ℕ) × (length bytes ≡ serialized_size s)
        × (write_state ne s buf ≡ some (bytes, drop (serialized_size s) buf))
        × (read_state ne (bytes ++ rest) ≡ some (without_times s, rest))
  read_state-write_state s buf rest fits room =
      let k = state-Keeps s fits in
      (
        k.bytes,
        k.sized,
        k.written buf (omega (arith, k.sized, room)) ∙ ap (λ n. some (k.bytes, drop n buf)) k.sized,
        k.back rest,
      )
