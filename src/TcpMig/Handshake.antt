-- ===== src/TcpMig/Handshake.antt =====
-- The first half of a migration, both sides together: the request and its acknowledgement
-- (tcpmig/active.rs).
use capybara.Base.{ℕ, ◌≡◌, refl, arith, [], ◌∷◌, true, some}
use capybara.Base.Fallible.{ok}
use capybara.TcpMig.Active.{
  ActiveMigration, received, prepare_migration_acked, quietly, initiate_migration, process_packet,
  next_header, other_port,
}
use capybara.TcpMig.Active.Laws.{send-empty}
use capybara.TcpMig.Active.Moves.{answered, answer_lem, bare}
use capybara.TcpMig.Fragmenter.{TcpMigSegment}
use capybara.TcpMig.Header.{
  TcpMigHeader, new, no_stage, prepare_migration, prepare_migration_ack, swap_src_dst_port,
}
use capybara.Wire.{NetworkEndian}

abbrev requested : ActiveMigration → ActiveMigration
requested a = record a { last_sent_stage = prepare_migration }

abbrev request_header : ActiveMigration → TcpMigHeader
request_header a =
    new a.origin a.client 0 prepare_migration a.self_udp_port (other_port a.self_udp_port)

abbrev pub ack_header : TcpMigHeader → TcpMigHeader
ack_header hdr = record (next_header hdr prepare_migration_ack) { flag_load = true }

initiate_migration-sends :
    (a : ActiveMigration)
    → a.last_sent_stage ≡ no_stage
    → initiate_migration a ≡ some (requested a, bare a (request_header a) ∷ [])
unfolding initiate_migration
initiate_migration-sends a idle = ground (arith, idle, send-empty (requested a) (request_header a))

module _ (ne : NetworkEndian) where
  pub process_packet-accepts :
      (t : ActiveMigration) (hdr : TcpMigHeader)
      → t.last_sent_stage ≡ no_stage
      → hdr.stage ≡ prepare_migration
      → process_packet ne t hdr []
        ≡ some (answered received t (ack_header hdr) prepare_migration_ack)
  unfolding process_packet
  process_packet-accepts t hdr idle is =
      ground (arith, idle, is, answer_lem received t (ack_header hdr) prepare_migration_ack)

  process_packet-prepared :
      (a : ActiveMigration) (hdr : TcpMigHeader) (qd : ℕ)
      → a.last_sent_stage ≡ prepare_migration
      → hdr.stage ≡ prepare_migration_ack
      → a.qd ≡ some qd
      → process_packet ne a hdr []
        ≡ quietly
            (ok (prepare_migration_acked qd))
            (record a { dest_udp_port = hdr.source_udp_port })
  unfolding process_packet
  process_packet-prepared a hdr qd at is there = ground (arith, at, is, there)

  -- Two sides that have sent nothing, the first with the descriptor of a connection: the first sends
  -- one request; the second takes it, answers with one segment and waits for the state, its
  -- defragmenter as it was; on that answer the first reports its descriptor, and is ready to send the
  -- state, to the port that it had asked. Nothing panics.
  pub handshake_lem :
      (a t : ActiveMigration) (qd : ℕ)
      → a.last_sent_stage ≡ no_stage
      → a.qd ≡ some qd
      → t.last_sent_stage ≡ no_stage
      → (a' a'' t' : ActiveMigration) × (request ack : TcpMigSegment) × (initiate_migration a
          ≡ some (a', request ∷ []))
        × (process_packet ne t request.tcpmig_hdr request.payload
            ≡ some (record { result = ok received; active = t'; sent = ack ∷ [] }))
        × (process_packet ne a' ack.tcpmig_hdr ack.payload
            ≡ quietly (ok (prepare_migration_acked qd)) a'')
        × (a''.last_sent_stage ≡ prepare_migration)
        × (a''.dest_udp_port ≡ other_port a.self_udp_port)
        × (t'.last_sent_stage ≡ prepare_migration_ack)
        × (t'.defragmenter ≡ t.defragmenter)
  unfolding new swap_src_dst_port
  handshake_lem a t qd idle there waiting =
      let request = bare a (request_header a) in
      let hdr = request.tcpmig_hdr in
      let reply = answered received t (ack_header hdr) prepare_migration_ack in
      let ack = bare t (ack_header hdr) in
      let done : ActiveMigration = record (requested a) {
        dest_udp_port = ack.tcpmig_hdr.source_udp_port;
      } in
      (
        requested a,
        done,
        reply.active,
        request,
        ack,
        initiate_migration-sends a idle,
        process_packet-accepts t hdr waiting refl,
        process_packet-prepared (requested a) ack.tcpmig_hdr qd refl refl there,
        refl,
        refl,
        refl,
        refl,
      )
