-- ===== src/TcpMig/Active.antt =====
-- One side of a migration, tcpmig/active.rs: what it last sent decides what it takes next. `none` is
-- a panic. The segments that are handed to the runtime are part of what an operation returns.
pub mod Laws
pub mod Moves
use capybara.Base.{
  ℕ, ◌+◌, ◌/◌, List, [], ◌∷◌, ◌++◌, length, ◌-◌, leb, ◌==◌, u16_mod, Bool, true, false, Option,
  none, some, if◌then◌else◌, Errno, Result, fail,
}
use capybara.Base.Panic.{require, ◌>>=◌, ◌>>◌}
use capybara.Base.Fallible.{ok, err}
use capybara.Ethernet2
use capybara.Ethernet2.{Ethernet2Header}
use capybara.Ipv4
use capybara.Tcp.Header.{TcpHeader}
use capybara.Tcp.Migration.TcpState
use capybara.Tcp.Migration.TcpState.{TcpState}
use capybara.TcpMig.Defragmenter.{TcpMigDefragmenter, new_defragmenter, defragment}
use capybara.TcpMig.Fragmenter.{TcpMigSegment, max_fragment_size, fragments, collect}
use capybara.TcpMig.Header
use capybara.TcpMig.Header.{
  MigrationStage, no_stage, rejected, prepare_migration, prepare_migration_ack, connection_state,
  connection_state_ack, heartbeat_update, heartbeat_response, TcpMigHeader, swap_src_dst_port,
}
use capybara.Wire.{Ipv4Addr, SocketAddrV4, MacAddress, NetworkEndian}

-- `TcpmigReceiveStatus`.
pub data TcpmigReceiveStatus : Type 0 where
  received : TcpmigReceiveStatus
  sent_reject : TcpmigReceiveStatus
  rejected_by_target : SocketAddrV4 → SocketAddrV4 → TcpmigReceiveStatus
  returned_by_switch : SocketAddrV4 → SocketAddrV4 → TcpmigReceiveStatus
  prepare_migration_acked : ℕ → TcpmigReceiveStatus
  state_received : TcpState → TcpmigReceiveStatus
  migration_completed : TcpmigReceiveStatus
  heartbeat_answered : ℕ → TcpmigReceiveStatus

-- `ActiveMigration`.
pub record ActiveMigration : Type 0 where
  pub local_ipv4_addr : Ipv4Addr
  pub local_link_addr : MacAddress
  pub remote_ipv4_addr : Ipv4Addr
  pub remote_link_addr : MacAddress
  pub self_udp_port : ℕ
  pub dest_udp_port : ℕ
  pub origin : SocketAddrV4
  pub client : SocketAddrV4
  pub last_sent_stage : MigrationStage
  pub qd : Option ℕ
  pub recv_queue : List (TcpHeader × List ℕ)
  pub defragmenter : TcpMigDefragmenter

-- `ActiveMigration::new`.
abbrev pub new :
    Ipv4Addr
    → MacAddress
    → Ipv4Addr
    → MacAddress
    → ℕ
    → ℕ
    → SocketAddrV4
    → SocketAddrV4
    → Option ℕ
    → ActiveMigration
new local_ip local_link remote_ip remote_link self_port dest_port origin client qd = record {
  local_ipv4_addr = local_ip;
  local_link_addr = local_link;
  remote_ipv4_addr = remote_ip;
  remote_link_addr = remote_link;
  self_udp_port = self_port;
  dest_udp_port = dest_port;
  origin = origin;
  client = client;
  last_sent_stage = no_stage;
  qd = qd;
  recv_queue = [];
  defragmenter = new_defragmenter;
}

-- `next_header`.
abbrev pub next_header : TcpMigHeader → MigrationStage → TcpMigHeader
next_header hdr stage = swap_src_dst_port (record hdr { stage = stage })

-- The segment that `send` makes.
abbrev pub outgoing : ActiveMigration → TcpMigHeader → List ℕ → TcpMigSegment
outgoing a hdr buf = record {
  ethernet2_hdr = record {
    dst_addr = a.remote_link_addr;
    src_addr = a.local_link_addr;
    ether_type = Ethernet2.ipv4;
  };
  ipv4_hdr = Ipv4.new a.local_ipv4_addr a.remote_ipv4_addr Ipv4.udp;
  tcpmig_hdr = hdr;
  payload = buf;
}

-- Fuel for 65,536 fragments, for one more that the wrap-around of their number makes, and for the end.
abbrev pub fragment_fuel : List ℕ → ℕ
fragment_fuel buf = length buf / max_fragment_size + 3

-- `ActiveMigration::send`: the fragments that are transmitted.
unfoldable pub send : ActiveMigration → TcpMigHeader → List ℕ → Option (List TcpMigSegment)
send a hdr buf =
    require (leb (length buf / max_fragment_size) (u16_mod - 1))
    >> collect (fragment_fuel buf) (fragments (outgoing a hdr buf))

-- What a call returns, the state it leaves and what it transmits.
pub record Outcome : Type 0 where
  pub result : Result TcpmigReceiveStatus
  pub active : ActiveMigration
  pub sent : List TcpMigSegment

abbrev pub quietly : Result TcpmigReceiveStatus → ActiveMigration → Option Outcome
quietly result a = some (record { result = result; active = a; sent = [] })

-- Sends a segment without data and records its stage.
abbrev pub answer :
    TcpmigReceiveStatus → ActiveMigration → TcpMigHeader → MigrationStage → Option Outcome
answer status a hdr stage = do
  let a : ActiveMigration = record a { last_sent_stage = stage }
  sent ← send a hdr []
  some (record { result = ok status; active = a; sent = sent })

module _ (ne : NetworkEndian) where
  -- The state of the connection, once all its fragments are there.
  unfoldable pub take_state : ActiveMigration → Option (TcpMigHeader × List ℕ) → Option Outcome
  take_state a none = quietly (ok received) a
  take_state a (some (hdr, buf)) = do
    state ← TcpState.deserialize ne buf
    let local : SocketAddrV4 = record { ip = a.local_ipv4_addr; port = a.self_udp_port }
    answer (state_received (TcpState.set_local local state)) a
        (next_header hdr connection_state_ack) connection_state_ack

  -- The cases of `ActiveMigration::process_packet`, by what was sent last.
  abbrev pub process_at : MigrationStage → ActiveMigration → TcpMigHeader → List ℕ → Option Outcome
  process_at no_stage a hdr buf = elim hdr.stage [
    | prepare_migration ↦
        answer received a (record (next_header hdr prepare_migration_ack) { flag_load = true })
          prepare_migration_ack
    | _ ↦ quietly (fail Errno.ebadmsg "expected PREPARE_MIGRATION") a
  ]
  process_at prepare_migration a hdr buf = elim hdr.stage [
    | prepare_migration_ack ↦ elim a.qd [
      | some qd ↦
          quietly (ok (prepare_migration_acked qd))
            (record a { dest_udp_port = hdr.source_udp_port })
      | none ↦ none
    ]
    | rejected ↦ quietly (ok (rejected_by_target hdr.origin hdr.client)) a
    | _ ↦ quietly (fail Errno.ebadmsg "expected PREPARE_MIGRATION_ACK or REJECTED") a
  ]
  process_at prepare_migration_ack a hdr buf = elim hdr.stage [
    | connection_state ↦ do
      (defragmenter, message) ← defragment a.defragmenter hdr buf
      take_state (record a { defragmenter = defragmenter }) message
    | _ ↦ quietly (fail Errno.ebadmsg "expected CONNECTION_STATE") a
  ]
  process_at connection_state a hdr buf = elim hdr.stage [
    | connection_state_ack ↦ quietly (ok migration_completed) a
    | _ ↦ quietly (fail Errno.ebadmsg "expected CONNECTION_STATE_ACK") a
  ]
  process_at connection_state_ack a hdr buf = quietly (ok received) a
  process_at rejected a hdr buf = none
  process_at heartbeat_update a hdr buf = none
  process_at heartbeat_response a hdr buf = none

  -- `ActiveMigration::process_packet`. The header of the datagram and the load, which it is given
  -- too, it does not read.
  unfoldable pub process_packet : ActiveMigration → TcpMigHeader → List ℕ → Option Outcome
  process_packet a hdr buf = process_at a.last_sent_stage a hdr buf

  -- `ActiveMigration::send_connection_state`.
  unfoldable pub send_connection_state :
      ActiveMigration → TcpState → Option (ActiveMigration × List TcpMigSegment)
  send_connection_state a state = do
    require (elim a.last_sent_stage [ prepare_migration ↦ true | _ ↦ false ])
    buf ← TcpState.serialize ne state
    let hdr = Header.new a.origin a.client 0 connection_state a.self_udp_port a.dest_udp_port
    let a : ActiveMigration = record a { last_sent_stage = connection_state }
    sent ← send a hdr buf
    some (a, sent)

-- The other of the two ports of the test bed.
abbrev pub other_port : ℕ → ℕ
other_port port = if port == 10001 then 10000 else 10001

-- `ActiveMigration::initiate_migration`.
unfoldable pub initiate_migration : ActiveMigration → Option (ActiveMigration × List TcpMigSegment)
initiate_migration a = do
  require (elim a.last_sent_stage [ no_stage ↦ true | _ ↦ false ])
  let hdr =
      Header.new a.origin a.client 0 prepare_migration a.self_udp_port (other_port a.self_udp_port)
  let a : ActiveMigration = record a { last_sent_stage = prepare_migration }
  sent ← send a hdr []
  some (a, sent)

-- `ActiveMigration::buffer_packet` and `ActiveMigration::take_buffered_packets`.
abbrev pub buffer_packet : TcpHeader → List ℕ → ActiveMigration → ActiveMigration
buffer_packet tcp_hdr bytes a = record a { recv_queue = a.recv_queue ++ ((tcp_hdr, bytes) ∷ []) }

abbrev pub take_buffered_packets : ActiveMigration → List (TcpHeader × List ℕ) × ActiveMigration
take_buffered_packets a = (a.recv_queue, record a { recv_queue = [] })
