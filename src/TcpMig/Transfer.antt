-- ===== src/TcpMig/Transfer.antt =====
-- The second half of a migration, both sides together: the state of the connection is serialized,
-- fragmented, put together, read, acknowledged (tcpmig/active.rs with all that it calls).
use capybara.Base.{
  ℕ, ◌+◌, ◌/◌, ◌^◌, ◌<◌, ◌≡◌, refl, sym, ap, ◌∙◌, arith, List, [], ◌∷◌, length, Option, none, some,
}
use mathlib.Core.Path.{subst}
use capybara.Base.Fallible.{ok}
use capybara.Tcp.Migration.Laws.{StateFits}
use capybara.Tcp.Migration.TcpState
use capybara.Tcp.Migration.TcpState.{
  TcpState, set_local, carried_state, serialized_size, deserialize-serialize,
}
use capybara.TcpMig.Active.{
  ActiveMigration, state_received, migration_completed, quietly, outgoing, send, process_packet,
  take_state, send_connection_state, next_header,
}
use capybara.TcpMig.Active.Laws.{AllAt, send-AllAt, send-AreFragments}
use capybara.TcpMig.Active.Moves.{answered, answer_lem, bare}
use capybara.TcpMig.Defragmenter.{new_defragmenter}
use capybara.TcpMig.Defragmenter.Laws.{whole_header}
use capybara.TcpMig.Fragmenter.{TcpMigSegment, max_fragment_size}
use capybara.TcpMig.Fragmenter.Laws.{AreFragments}
use capybara.TcpMig.Header.{
  TcpMigHeader, new, connection_state, connection_state_ack, prepare_migration,
  prepare_migration_ack, swap_src_dst_port,
}
use capybara.TcpMig.Shuffled.{slots_of, Shuffled}
use capybara.Wire.{NetworkEndian}
use capybara.TcpMig.Arrivals.{
  Shuffled-AllAt, reassemble-AreFragments, receive_state, receive_state-reassemble, Shuffled-base,
}

abbrev pub segments_of : Option (ActiveMigration × List TcpMigSegment) → List TcpMigSegment
segments_of (some (a, sent)) = sent
segments_of none = []

module _ (ne : NetworkEndian) where
  -- The header of the segment that carries the state.
  abbrev state_header : ActiveMigration → TcpMigHeader
  state_header a = new a.origin a.client 0 connection_state a.self_udp_port a.dest_udp_port

  -- The segments that carry a state, or none if it cannot be sent.
  abbrev pub state_segments : ActiveMigration → TcpState → List TcpMigSegment
  state_segments a s = segments_of (send_connection_state ne a s)

  abbrev state_sent : ActiveMigration → ActiveMigration
  state_sent a = record a { last_sent_stage = connection_state }

  -- The state as the other side takes it, under the address of that side.
  abbrev pub taken_over : ActiveMigration → TcpState → TcpState
  taken_over t s =
      set_local (record { ip = t.local_ipv4_addr; port = t.self_udp_port }) (carried_state s)

  send_connection_state-parts :
      (a : ActiveMigration) (s : TcpState) (buf : List ℕ) (segments : List TcpMigSegment)
      → a.last_sent_stage ≡ prepare_migration
      → TcpState.serialize ne s ≡ some buf
      → send (state_sent a) (state_header a) buf ≡ some segments
      → send_connection_state ne a s ≡ some (state_sent a, segments)
  unfolding send_connection_state
  send_connection_state-parts a s buf segments prepared written sent =
      ground (arith, prepared, written, sent)

  stages :
      (a : ActiveMigration) (segments : List TcpMigSegment)
      → AllAt (state_header a).stage segments
      → AllAt connection_state segments
  unfolding new
  stages a segments at = at

  -- A state of a size that can be fragmented is sent.
  pub send_connection_state-sends :
      (a : ActiveMigration) (s : TcpState)
      → a.last_sent_stage ≡ prepare_migration
      → StateFits s.cb
      → serialized_size s / max_fragment_size + 1 < 2 ^ 16
      → (buf : List ℕ) × (segments : List TcpMigSegment) × (send_connection_state ne a s
          ≡ some (state_sent a, segments))
        × AreFragments (outgoing (state_sent a) (state_header a) buf) 0 buf segments
        × AllAt connection_state segments
        × (TcpState.deserialize ne buf ≡ some (carried_state s))
        × (length buf ≡ serialized_size s)
  send_connection_state-sends a s prepared fits small =
      let (buf, written, sized, read) = deserialize-serialize ne s fits in
      let fewer : length buf / max_fragment_size + 1 < 2 ^ 16 =
        subst (λ n. n / max_fragment_size + 1 < 2 ^ 16) (sym sized) small in
      let (segments, sent, are) = send-AreFragments (state_sent a) (state_header a) buf fewer in
      (
        buf,
        segments,
        send_connection_state-parts a s buf segments prepared written sent,
        are,
        stages a segments (send-AllAt (state_sent a) (state_header a) buf segments sent),
        read,
        sized,
      )

  pub take_state_lem :
      (a : ActiveMigration) (hdr : TcpMigHeader) (buf : List ℕ) (s : TcpState)
      → TcpState.deserialize ne buf ≡ some (carried_state s)
      → let ack = next_header hdr connection_state_ack in
        take_state ne a (some (hdr, buf))
        ≡ some (answered (state_received (taken_over a s)) a ack connection_state_ack)
  unfolding take_state
  take_state_lem a hdr buf s read =
      let ack = next_header hdr connection_state_ack in
      rw read (answer_lem (state_received (taken_over a s)) a ack connection_state_ack)

  -- The side that gives the connection away is ready to send a state of the right widths and of a size
  -- that can be fragmented; the other side waits for it with nothing received so far. Then the state
  -- is sent; and when its segments have arrived in any order, each once, the other side reports exactly
  -- that state, under its own address and less the times of transmission, with the bytes that the
  -- application has written; it answers with one segment; and on that segment the first side reports
  -- that the migration is completed. Nothing panics.
  pub migration_lem :
      (a t : ActiveMigration) (s : TcpState) (base : TcpMigSegment) (order : List TcpMigSegment)
      → a.last_sent_stage ≡ prepare_migration
      → t.last_sent_stage ≡ prepare_migration_ack
      → t.defragmenter ≡ new_defragmenter
      → StateFits s.cb
      → serialized_size s / max_fragment_size + 1 < 2 ^ 16
      → Shuffled base (state_segments a s) (slots_of (state_segments a s)) order
      → (a' t' : ActiveMigration) × (ack : TcpMigSegment) × (send_connection_state ne a s
          ≡ some (a', state_segments a s))
        × (receive_state ne t order
            ≡ some (record {
              result = ok (state_received (taken_over t s));
              active = t';
              sent = ack ∷ [];
            }))
        × (process_packet ne a' ack.tcpmig_hdr ack.payload ≡ quietly (ok migration_completed) a')
  unfolding process_packet swap_src_dst_port
  migration_lem a t s base order prepared waiting fresh fits small shuffled =
      let (buf, segments, sent, are, at, read, sized) =
        send_connection_state-sends a s prepared fits small in
      let same : state_segments a s ≡ segments = ap segments_of sent in
      let segment = outgoing (state_sent a) (state_header a) buf in
      let shuffled' =
        Shuffled-base base segment segments
          (subst (λ l. Shuffled base l (slots_of l) order) same shuffled) in
      let (d', whole) = reassemble-AreFragments segment buf segments order are shuffled' in
      let hdr = whole_header (state_header a) in
      let t' : ActiveMigration = record t { defragmenter = d' } in
      let reply =
        answered (state_received (taken_over t s)) t' (next_header hdr connection_state_ack)
          connection_state_ack in
      let received_state =
        receive_state-reassemble ne t new_defragmenter order d' hdr buf (taken_over t s) reply
          (Shuffled-AllAt segment segments at shuffled') waiting whole
          (take_state_lem t' hdr buf s read) refl in
      (
        state_sent a,
        reply.active,
        bare t' (next_header hdr connection_state_ack),
        sent ∙ ap (λ (l : List TcpMigSegment). some (state_sent a, l)) (sym same),
        (λ i. receive_state ne (record t { defragmenter = fresh i }) order) ∙ received_state,
        refl,
      )
