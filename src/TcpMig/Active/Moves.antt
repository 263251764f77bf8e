-- ===== src/TcpMig/Active/Moves.antt =====
-- What each call of an active migration does to the stage, and what it sends.
use capybara.Base.{
  ℕ, ◌≡◌, ◌⊎◌, inl, inr, refl, arith, List, [], ◌∷◌, true, false, Option, none, some, Option-cases,
  Result,
}
use mathlib.Core.Path.{subst}
use capybara.Base.Panic.{require-eq_some, >>=-eq_some}
use capybara.Base.Fallible.{ok}
use capybara.Tcp.Migration.TcpState
use capybara.Tcp.Migration.TcpState.{TcpState}
use capybara.TcpMig.Active.{
  ActiveMigration, Outcome, TcpmigReceiveStatus, received, state_received, answer, outgoing,
  initiate_migration, send_connection_state, process_packet, take_state, next_header,
}
use capybara.TcpMig.Active.Laws.{AllAt, send-AllAt, send-empty}
use capybara.TcpMig.Defragmenter.{defragment, TcpMigDefragmenter}
use capybara.TcpMig.Fragmenter.{TcpMigSegment}
use capybara.TcpMig.Header.{
  new, MigrationStage, no_stage, prepare_migration, prepare_migration_ack, connection_state,
  connection_state_ack, TcpMigHeader, swap_src_dst_port,
}
use capybara.Wire.{SocketAddrV4, NetworkEndian}

-- A segment without data on the wire.
abbrev pub bare : ActiveMigration → TcpMigHeader → TcpMigSegment
bare a hdr = outgoing a (record hdr { flag_next_fragment = false; fragment_offset = 0 }) []

pub answer_lem :
    (status : TcpmigReceiveStatus) (a : ActiveMigration) (hdr : TcpMigHeader)
    (stage : MigrationStage)
    → answer status a hdr stage
      ≡ some (record {
        result = ok status;
        active = record a { last_sent_stage = stage };
        sent = bare a hdr ∷ [];
      })
answer_lem status a hdr stage = rw (send-empty (record a { last_sent_stage = stage }) hdr) refl

stage_of-begun :
    (stage : MigrationStage) → elim stage [ no_stage ↦ true | _ ↦ false ] ≡ true → stage ≡ no_stage
stage_of-begun stage e = ground arith

stage_of-prepared :
    (stage : MigrationStage)
    → elim stage [ prepare_migration ↦ true | _ ↦ false ] ≡ true
    → stage ≡ prepare_migration
stage_of-prepared stage e = ground arith

sent_of :
    (a a' : ActiveMigration) (sent sent' : List TcpMigSegment)
    → ◌≡◌ {A = Option (ActiveMigration × List TcpMigSegment)} (some (a, sent)) (some (a', sent'))
    → sent ≡ sent'
sent_of a a' sent sent' e = cc

pub initiate_migration_lem :
    (a a' : ActiveMigration) (sent : List TcpMigSegment)
    → initiate_migration a ≡ some (a', sent)
    → (a.last_sent_stage ≡ no_stage)
      × (a'.last_sent_stage ≡ prepare_migration)
      × AllAt prepare_migration sent
unfolding initiate_migration new
initiate_migration_lem a a' sent e =
    let (tested, left) = require-eq_some _ _ e in
    let (sent', p, q) = >>=-eq_some _ _ left in
    let same = sent_of _ _ _ _ q in
    (
      stage_of-begun a.last_sent_stage tested,
      ground (arith, q),
      subst (AllAt prepare_migration) same (send-AllAt _ _ _ sent' p),
    )

pub send_connection_state_lem :
    (ne : NetworkEndian) (a a' : ActiveMigration) (s : TcpState) (sent : List TcpMigSegment)
    → send_connection_state ne a s ≡ some (a', sent)
    → (a.last_sent_stage ≡ prepare_migration)
      × (a'.last_sent_stage ≡ connection_state)
      × AllAt connection_state sent
unfolding send_connection_state new
send_connection_state_lem ne a a' s sent e =
    let (tested, serialized) = require-eq_some _ _ e in
    let (buf, written, left) = >>=-eq_some (TcpState.serialize ne s) _ serialized in
    let (sent', p, q) = >>=-eq_some {B = ActiveMigration × List TcpMigSegment} _ _ left in
    let same = sent_of _ _ _ _ q in
    (
      stage_of-prepared a.last_sent_stage tested,
      ground (arith, q),
      subst (AllAt connection_state) same (send-AllAt _ _ _ sent' p),
    )

-- The side that gives the connection away answers nothing, and stays at its stage.
pub process_packet-giver :
    (ne : NetworkEndian) (a : ActiveMigration) (hdr : TcpMigHeader) (buf : List ℕ) (o : Outcome)
    → (a.last_sent_stage ≡ prepare_migration) ⊎ (a.last_sent_stage ≡ connection_state)
    → process_packet ne a hdr buf ≡ some o
    → (o.active.last_sent_stage ≡ a.last_sent_stage) × (o.sent ≡ [])
unfolding process_packet
process_packet-giver ne a hdr buf o (inl at) e = ground (arith, at, e)
process_packet-giver ne a hdr buf o (inr at) e = ground (arith, at, e)

-- The state that a call hands on, if it does.
abbrev pub states_in : Result TcpmigReceiveStatus → List TcpState
states_in (ok (state_received s)) = s ∷ []
states_in _ = []

-- The side that takes the connection: a call leaves the stage and answers nothing, or it answers the
-- request, or it accepts a state and acknowledges it.
pub data TakerMove (a : ActiveMigration) (o : Outcome) : Type 0 where
  stays :
      o.active.last_sent_stage ≡ a.last_sent_stage
      → o.sent ≡ []
      → states_in o.result ≡ []
      → TakerMove a o
  prepares :
      a.last_sent_stage ≡ no_stage
      → o.active.last_sent_stage ≡ prepare_migration_ack
      → AllAt prepare_migration_ack o.sent
      → states_in o.result ≡ []
      → TakerMove a o
  accepts :
      (s : TcpState)
      → a.last_sent_stage ≡ prepare_migration_ack
      → o.active.last_sent_stage ≡ connection_state_ack
      → AllAt connection_state_ack o.sent
      → states_in o.result ≡ s ∷ []
      → TakerMove a o

-- What a side without a panic has answered.
abbrev pub answered :
    TcpmigReceiveStatus → ActiveMigration → TcpMigHeader → MigrationStage → Outcome
answered status a hdr stage = record {
  result = ok status;
  active = record a { last_sent_stage = stage };
  sent = bare a hdr ∷ [];
}

module _ (ne : NetworkEndian) (a : ActiveMigration) (hdr : TcpMigHeader) (buf : List ℕ) where
  process_packet-begun :
      (stage : MigrationStage) (o : Outcome)
      → hdr.stage ≡ stage
      → a.last_sent_stage ≡ no_stage
      → process_packet ne a hdr buf ≡ some o
      → TakerMove a o
  unfolding process_packet swap_src_dst_port
  process_packet-begun prepare_migration o is at e =
      let ack : TcpMigHeader = record (next_header hdr prepare_migration_ack) {
        flag_load = true;
      } in
      let reply = answer_lem received a ack prepare_migration_ack in
      let same : answered received a ack prepare_migration_ack ≡ o =
        ground (arith, is, at, e, reply) in
      subst (TakerMove a) same (prepares at refl (refl, tt) refl)
  process_packet-begun _ o is at e =
      stays (ground (arith, is, at, e)) (ground (arith, is, at, e)) (ground (arith, is, at, e))

  take_state-TakerMove :
      (d : TcpMigDefragmenter) (message : Option (TcpMigHeader × List ℕ)) (o : Outcome)
      → a.last_sent_stage ≡ prepare_migration_ack
      → take_state ne (record a { defragmenter = d }) message ≡ some o
      → TakerMove a o
  unfolding take_state swap_src_dst_port
  take_state-TakerMove d none o at e =
      stays (ground (arith, e)) (ground (arith, e)) (ground (arith, e))
  take_state-TakerMove d (some (h, bytes)) o at e =
      elim (Option-cases (TcpState.deserialize ne bytes)) [
        | inl failed ↦ absurd (ground (arith, failed, e))
        | inr (s, read) ↦
            let a' : ActiveMigration = record a { defragmenter = d } in
            let local : SocketAddrV4 = record { ip = a.local_ipv4_addr; port = a.self_udp_port } in
            let state = TcpState.set_local local s in
            let ack = next_header h connection_state_ack in
            let reply = answer_lem (state_received state) a' ack connection_state_ack in
            let same : answered (state_received state) a' ack connection_state_ack ≡ o =
              ground (arith, read, e, reply) in
            subst (TakerMove a) same (accepts state at refl (refl, tt) refl)
      ]

  process_packet-prepared :
      (stage : MigrationStage) (o : Outcome)
      → hdr.stage ≡ stage
      → a.last_sent_stage ≡ prepare_migration_ack
      → process_packet ne a hdr buf ≡ some o
      → TakerMove a o
  unfolding process_packet
  process_packet-prepared connection_state o is at e =
      elim (Option-cases (defragment a.defragmenter hdr buf)) [
        | inl failed ↦ absurd (ground (arith, failed, is, at, e))
        | inr ((d, message), stored) ↦
            take_state-TakerMove d message o at (ground (arith, stored, is, at, e))
      ]
  process_packet-prepared _ o is at e =
      stays (ground (arith, is, at, e)) (ground (arith, is, at, e)) (ground (arith, is, at, e))

  process_packet-done :
      (o : Outcome)
      → a.last_sent_stage ≡ connection_state_ack
      → process_packet ne a hdr buf ≡ some o
      → TakerMove a o
  unfolding process_packet
  process_packet-done o at e =
      stays (ground (arith, at, e)) (ground (arith, at, e)) (ground (arith, at, e))

  pub process_packet-TakerMove :
      (o : Outcome)
      → (a.last_sent_stage ≡ no_stage)
        ⊎ (a.last_sent_stage ≡ prepare_migration_ack)
        ⊎ (a.last_sent_stage ≡ connection_state_ack)
      → process_packet ne a hdr buf ≡ some o
      → TakerMove a o
  process_packet-TakerMove o (inl at) e = process_packet-begun hdr.stage o refl at e
  process_packet-TakerMove o (inr (inl at)) e = process_packet-prepared hdr.stage o refl at e
  process_packet-TakerMove o (inr (inr at)) e = process_packet-done o at e
