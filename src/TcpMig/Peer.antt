-- ===== src/TcpMig/Peer.antt =====
-- The migrations of one server, tcpmig/peer.rs. `none` is a panic. A `HashMap` is a function from
-- keys, and the segments that are handed to the runtime are part of what an operation returns.
pub mod Laws
use Prim.Native.String.{String}
use capybara.Base.{
  ℕ, List, [], ◌∷◌, ◌++◌, length, get_or, take, drop, leb, ltb, ◌==◌, u32_mod, Bool, true, false,
  ◌&&◌, Option, none, some, if◌then◌else◌, Result, ◌⊎◌, inl, inr, ◌≡◌, refl, arith,
}
use capybara.Base.Panic.{require, ◌>>=◌, ◌>>◌}
use capybara.Base.Fallible.{ok, err}
use capybara.Ipv4.{Ipv4Header}
use capybara.Tcp.Header.{TcpHeader}
use capybara.Tcp.Migration.TcpState
use capybara.Tcp.Migration.TcpState.{
  TcpState, ApplicationState, MigratedApplicationState, no_app_state, registered, migrated_in,
}
use capybara.TcpMig.Active
use capybara.TcpMig.Active.{
  ActiveMigration, TcpmigReceiveStatus, received, sent_reject, rejected_by_target,
  returned_by_switch, prepare_migration_acked, state_received, migration_completed,
  heartbeat_answered, other_port,
}
use capybara.TcpMig.Fragmenter.{TcpMigSegment}
use capybara.TcpMig.Header.{
  TcpMigHeader, MigrationStage, no_stage, rejected, prepare_migration, prepare_migration_ack,
  connection_state, connection_state_ack, heartbeat_update, heartbeat_response, parse_from_slice,
}
use capybara.Wire.{Ipv4Addr, SocketAddrV4, MacAddress, NetworkEndian, ip_eq, mac_eq}
use capybara.Wire.Addrs.{AddrMap, insert, remove}

-- The addresses of the test bed, tcpmig/constants.rs.
abbrev pub frontend_mac : MacAddress
frontend_mac = record { m0 = 0x08; m1 = 0xc0; m2 = 0xeb; m3 = 0xb6; m4 = 0xe8; m5 = 0x05 }

abbrev pub backend_mac : MacAddress
backend_mac = record { m0 = 0x08; m1 = 0xc0; m2 = 0xeb; m3 = 0xb6; m4 = 0xc5; m5 = 0xad }

abbrev pub frontend_ip : Ipv4Addr
frontend_ip = record { a = 10; b = 0; c = 1; d = 8 }

abbrev pub backend_ip : Ipv4Addr
backend_ip = record { a = 10; b = 0; c = 1; d = 9 }

-- `TcpMigPeer`, less the delay for tests. Of the heartbeat message only the data are kept.
pub record TcpMigPeer : Type 0 where
  pub local_link_addr : MacAddress
  pub local_ipv4_addr : Ipv4Addr
  pub active_migrations : AddrMap ActiveMigration
  pub incoming_user_data : AddrMap (List ℕ)
  pub self_udp_port : ℕ
  pub heartbeat_data : List ℕ
  pub application_state : AddrMap MigratedApplicationState

-- `TcpMigPeer::set_port`.
abbrev pub set_port : ℕ → TcpMigPeer → TcpMigPeer
set_port port p = record p { self_udp_port = port }

-- An active migration of this server, to or from the other one.
abbrev pub active_for : TcpMigPeer → ℕ → SocketAddrV4 → SocketAddrV4 → Option ℕ → ActiveMigration
active_for p dest_port origin client qd =
    Active.new p.local_ipv4_addr p.local_link_addr
      (if ip_eq p.local_ipv4_addr frontend_ip then backend_ip else frontend_ip)
      (if mac_eq p.local_link_addr frontend_mac then backend_mac else frontend_mac) p.self_udp_port
      dest_port origin client qd

-- What a call returns, the state it leaves and what it transmits.
pub record PeerOutcome : Type 0 where
  pub result : Result TcpmigReceiveStatus
  pub peer : TcpMigPeer
  pub sent : List TcpMigSegment

abbrev pub with_active : SocketAddrV4 → ActiveMigration → TcpMigPeer → TcpMigPeer
with_active remote a p = record p { active_migrations = insert remote a p.active_migrations }

abbrev pub without_active : SocketAddrV4 → TcpMigPeer → TcpMigPeer
without_active remote p = record p { active_migrations = remove remote p.active_migrations }

-- The state of an application that came with a connection is kept for it.
abbrev pub keep_app_state : SocketAddrV4 → TcpState → TcpMigPeer → TcpMigPeer
keep_app_state client s p = elim s.app_state [
  | migrated_in bytes ↦ record p {
    application_state = insert client (migrated_in bytes) p.application_state;
  }
  | _ ↦ p
]

abbrev pub left_by : TcpState → TcpState
left_by s = elim s.app_state [ migrated_in bytes ↦ record s { app_state = no_app_state } | _ ↦ s ]

-- The state of a registered application goes with the connection.
abbrev pub with_app : Option MigratedApplicationState → TcpState → TcpState
with_app (some (registered object)) s = TcpState.add_app_state object s
with_app _ s = s

-- The end of `receive`: what the status does to the table of active migrations.
unfoldable pub settle :
    SocketAddrV4 → TcpmigReceiveStatus → TcpMigPeer → Option (TcpmigReceiveStatus × TcpMigPeer)
settle remote (prepare_migration_acked qd) p = some (prepare_migration_acked qd, p)
settle remote (state_received s) p =
    some (state_received (left_by s), keep_app_state s.cb.remote s p)
settle remote migration_completed p = some (migration_completed, without_active remote p)
settle remote (rejected_by_target origin client) p =
    some (rejected_by_target origin client, without_active remote p)
settle remote sent_reject p = some (sent_reject, without_active remote p)
settle remote received p = some (received, p)
settle remote (heartbeat_answered n) p = none
settle remote (returned_by_switch origin client) p = none

-- `active.process_packet(...)?` and what follows it.
unfoldable pub conclude :
    SocketAddrV4 → TcpMigPeer → List TcpMigSegment → Result TcpmigReceiveStatus → Option PeerOutcome
conclude remote p sent (err failure) = some (record { result = err failure; peer = p; sent = sent })
conclude remote p sent (ok status) = do
  (status, p) ← settle remote status p
  some (record { result = ok status; peer = p; sent = sent })

module _ (ne : NetworkEndian) where
  -- `u32::from_be_bytes` of the first four bytes.
  abbrev pub queue_len_of : List ℕ → Option ℕ
  queue_len_of (a ∷ b ∷ c ∷ d ∷ rest) = some (ne.read_u32 a b c d)
  queue_len_of _ = none

  -- The active migration takes the segment.
  unfoldable pub dispatch : TcpMigPeer → SocketAddrV4 → TcpMigHeader → List ℕ → Option PeerOutcome
  dispatch p remote hdr buf = do
    a ← p.active_migrations remote
    o ← Active.process_packet ne a hdr buf
    conclude remote (with_active remote o.active p) o.sent o.result

  -- A request for a migration, with the entry that its client has.
  unfoldable pub receive_request :
      Option ActiveMigration → TcpMigPeer → TcpMigHeader → List ℕ → Option PeerOutcome
  receive_request (some other) p hdr buf = some (record {
    result = ok (returned_by_switch hdr.origin hdr.client);
    peer = without_active hdr.client p;
    sent = [];
  })
  receive_request none p hdr buf =
      let a = active_for p hdr.origin.port hdr.origin hdr.client none in
      dispatch (with_active hdr.client a p) hdr.client hdr buf

  -- The cases of `receive`, by the stage of the header.
  unfoldable pub receive_at :
      MigrationStage → TcpMigPeer → TcpMigHeader → List ℕ → Option PeerOutcome
  receive_at heartbeat_response p hdr buf = do
    n ← queue_len_of buf
    some (record { result = ok (heartbeat_answered n); peer = p; sent = [] })
  receive_at prepare_migration p hdr buf =
      receive_request (p.active_migrations hdr.client) p hdr buf
  receive_at _ p hdr buf = dispatch p hdr.client hdr buf

  -- `TcpMigPeer::receive`, behind the parser.
  unfoldable pub receive_parsed : TcpMigPeer → TcpMigHeader → List ℕ → Option PeerOutcome
  receive_parsed p hdr buf = receive_at hdr.stage p hdr buf

  -- `TcpMigPeer::receive`, with the text that `format!` makes for an unknown stage.
  pub receive : (ℕ → String) → TcpMigPeer → Ipv4Header → List ℕ → Option PeerOutcome
  receive invalid_stage p ipv4_hdr buf = elim (parse_from_slice ne invalid_stage ipv4_hdr buf) [
    | err failure ↦ some (record { result = err failure; peer = p; sent = [] })
    | ok (hdr, bytes) ↦ receive_parsed p hdr bytes
  ]

  -- `TcpMigPeer::send_tcp_state`.
  unfoldable pub send_tcp_state : TcpMigPeer → TcpState → Option (TcpMigPeer × List TcpMigSegment)
  send_tcp_state p s = do
    let remote = TcpState.remote s
    let s = with_app (p.application_state remote) s
    let p : TcpMigPeer = record p { application_state = remove remote p.application_state }
    a ← p.active_migrations remote
    (a, sent) ← Active.send_connection_state ne a s
    let p = with_active remote a p
    some (record p { incoming_user_data = remove remote p.incoming_user_data }, sent)

  -- `TcpMigPeer::send_heartbeat`, whose transmission is commented out.
  pub send_heartbeat : ℕ → TcpMigPeer → Option TcpMigPeer
  send_heartbeat queue_len p =
      require (ltb queue_len u32_mod)
      >> require (leb 4 (length p.heartbeat_data))
      >> (let w = ne.write_u32 queue_len in
          some (record p { heartbeat_data = w.0 ∷ w.1 ∷ w.2 ∷ w.3 ∷ drop 4 p.heartbeat_data }))

-- `TcpMigPeer::initiate_migration`, behind the delay for tests.
unfoldable pub initiate_migration :
    TcpMigPeer → SocketAddrV4 × SocketAddrV4 → ℕ → Option (TcpMigPeer × List TcpMigSegment)
initiate_migration p conn qd =
    let (local, remote) = conn in
    elim (p.active_migrations remote) [
      | some other ↦ none
      | none ↦ (do
        (a, sent) ←
            Active.initiate_migration
              (active_for p (other_port p.self_udp_port) local remote (some qd))
        some (with_active remote a p, sent))
    ]

-- `TcpMigPeer::try_buffer_packet`: the packet comes back if there is no such migration.
unfoldable pub try_buffer_packet :
    SocketAddrV4 → TcpHeader → List ℕ → TcpMigPeer → Option (TcpHeader × List ℕ) × TcpMigPeer
try_buffer_packet remote tcp_hdr bytes p = elim (p.active_migrations remote) [
  | some a ↦ (none, with_active remote (Active.buffer_packet tcp_hdr bytes a) p)
  | none ↦ (some (tcp_hdr, bytes), p)
]

-- `TcpMigPeer::close_active_migration`.
unfoldable pub close_active_migration :
    SocketAddrV4 → TcpMigPeer → Option (List (TcpHeader × List ℕ)) × TcpMigPeer
close_active_migration remote p = elim (p.active_migrations remote) [
  | some a ↦ (some a.recv_queue, without_active remote p)
  | none ↦ (none, without_active remote p)
]

-- `TcpMigPeer::register_application_state`.
abbrev pub register_application_state : SocketAddrV4 → ApplicationState → TcpMigPeer → TcpMigPeer
register_application_state remote object p = record p {
  application_state = insert remote (registered object) p.application_state;
}

-- `TcpMigPeer::get_migrated_application_state`, with the `deserialize` of the application's type.
unfoldable pub get_migrated_application_state :
    (List ℕ → ApplicationState) → SocketAddrV4 → TcpMigPeer → Option ApplicationState × TcpMigPeer
get_migrated_application_state deserialize remote p =
    let removed : TcpMigPeer = record p { application_state = remove remote p.application_state } in
    elim (p.application_state remote) [
      | some app ↦ elim app [
        | migrated_in bytes ↦ (
          some (deserialize bytes),
          register_application_state remote (deserialize bytes) removed,
        )
        | _ ↦ (none, removed)
      ]
      | none ↦ (none, removed)
    ]
