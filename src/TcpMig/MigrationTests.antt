-- ===== src/TcpMig/MigrationTests.antt =====
-- A connection that moves between two servers.
use capybara.Base.{ℕ, ◌≡◌, refl, arith, List, [], ◌∷◌, length, some, none, Bool, true, false}
use capybara.Base.Fallible.{ok}
use capybara.Tcp.Migration.Laws.{StateFits}
use capybara.Tcp.Migration.State.{ControlBlockState, write_state}
use capybara.Tcp.Migration.TcpState
use capybara.Tcp.Migration.TcpState.{
  TcpState, ApplicationState, registered, no_app_state, carried_state, deserialize-serialize,
}
use capybara.TcpMig.Active
use capybara.TcpMig.Active.{
  ActiveMigration, Outcome, received, returned_by_switch, prepare_migration_acked, quietly,
  migration_completed, state_received, process_packet, send, send_connection_state,
  initiate_migration,
}
use capybara.TcpMig.Active.Moves.{bare}
use capybara.TcpMig.Defragmenter.{new_defragmenter}
use capybara.TcpMig.Fragmenter.{TcpMigSegment, collect, next, cut}
use capybara.TcpMig.Header.{
  MigrationStage, prepare_migration, prepare_migration_ack, connection_state, connection_state_ack,
  TcpMigHeader, new, swap_src_dst_port,
}
use capybara.TcpMig.Handshake.{ack_header, handshake_lem}
use capybara.TcpMig.Arrivals.{receive_state}
use capybara.TcpMig.Transfer.{state_segments, taken_over, migration_lem}
use capybara.TcpMig.Protocol.{World}
use capybara.TcpMig.Shuffled.{Shuffled, slots_of, complete, arrival}
use capybara.TcpMig.Peer.Laws.{receive_parsed-other, receive_parsed-repeated}
use capybara.TcpMig.Peer.{
  active_for, TcpMigPeer, PeerOutcome, receive_parsed, receive_at, receive_request, dispatch,
  conclude, settle, with_active, frontend_ip, backend_ip, frontend_mac, backend_mac,
}
use capybara.Wire.{SocketAddrV4, big_endian, ip_eq, mac_eq, addr_eq}

abbrev giver : ActiveMigration
giver =
    Active.new frontend_ip frontend_mac backend_ip backend_mac 10000 10001
      (record { ip = frontend_ip; port = 10000 }) (record { ip = backend_ip; port = 201 }) (some 7)

abbrev taker : ActiveMigration
taker =
    Active.new backend_ip backend_mac frontend_ip frontend_mac 10001 10000
      (record { ip = frontend_ip; port = 10000 }) (record { ip = backend_ip; port = 201 }) none

-- A connection with nothing in its queues but a byte received.
abbrev state : ControlBlockState
state = record {
  local = record { ip = frontend_ip; port = 10000 };
  remote = record { ip = backend_ip; port = 201 };
  receive_buffer_size = 65535;
  window_scale = 0;
  out_of_order_fin = none;
  out_of_order_queue = [];
  receiver = record { reader_next = 100; receive_next = 101; recv_queue = (42 ∷ []) ∷ [] };
  sender = record {
    unsent_seq_no = 500;
    send_unacked = 500;
    send_next = 500;
    send_window = 1024;
    send_window_last_update_seq = 100;
    send_window_last_update_ack = 500;
    mss = 1460;
    window_scale = 0;
    unacked_queue = [];
    unsent_queue = [];
  };
}

-- An application whose state is a number.
abbrev write_first : List ℕ → List ℕ
write_first [] = []
write_first (b ∷ buf) = 9 ∷ buf

length-write_first : (buf : List ℕ) → length (write_first buf) ≡ length buf
length-write_first [] = refl
length-write_first (b ∷ buf) = refl

abbrev counter : ApplicationState
counter = record {
  serialized_size = 1;
  serialize = write_first;
  length-serialize = length-write_first;
}

abbrev moving : TcpState
moving = record { cb = state; app_state = registered counter }

state-StateFits : StateFits state
state-StateFits = record {
  local_port = omega arith;
  remote_port = omega arith;
  buffer_size = omega arith;
  scale = omega arith;
  fin = λ n e. absurd (cc e);
  stored_count = omega arith;
  entries = tt;
  receiver = record {
    reader = omega arith;
    next_fits = omega arith;
    count = omega arith;
    buffers = (omega arith, tt);
  };
  sender = record {
    unsent = omega arith;
    una = omega arith;
    nxt = omega arith;
    window = omega arith;
    update_seq = omega arith;
    update_ack = omega arith;
    mss = omega arith;
    unacked_count = omega arith;
    unacked = tt;
    unsent_count = omega arith;
    buffers = tt;
  };
}

abbrev prepared : ActiveMigration
prepared = record giver { last_sent_stage = prepare_migration }

-- The bytes of the state.
abbrev bytes : List ℕ
bytes =
    10 ∷ 0 ∷ 1 ∷ 8 ∷ 39 ∷ 16 ∷ 10 ∷ 0 ∷ 1 ∷ 9 ∷ 0 ∷ 201 ∷ 0 ∷ 0 ∷ 255 ∷ 255 ∷ 0 ∷ 0 ∷ 0 ∷ 0 ∷ 0 ∷ 0
    ∷ 0 ∷ 0 ∷ 0 ∷ 0 ∷ 0 ∷ 0 ∷ 100 ∷ 0 ∷ 0 ∷ 0 ∷ 101 ∷ 0 ∷ 0 ∷ 0 ∷ 1 ∷ 0 ∷ 0 ∷ 0 ∷ 1 ∷ 42 ∷ 0 ∷ 0 ∷ 1
    ∷ 244 ∷ 0 ∷ 0 ∷ 1 ∷ 244 ∷ 0 ∷ 0 ∷ 1 ∷ 244 ∷ 0 ∷ 0 ∷ 4 ∷ 0 ∷ 0 ∷ 0 ∷ 0 ∷ 100 ∷ 0 ∷ 0 ∷ 1 ∷ 244
    ∷ 0 ∷ 0 ∷ 5 ∷ 180 ∷ 0 ∷ 0 ∷ 0 ∷ 0 ∷ 0 ∷ 0 ∷ 0 ∷ 0 ∷ 0 ∷ 1 ∷ 9 ∷ []

abbrev header : MigrationStage → ℕ → ℕ → Bool → TcpMigHeader
header stage source dest load = record {
  origin = giver.origin;
  client = giver.client;
  length = 28;
  fragment_offset = 0;
  flag_load = load;
  flag_next_fragment = false;
  stage = stage;
  source_udp_port = source;
  dest_udp_port = dest;
}

-- The four messages.
abbrev request : TcpMigSegment
request = Active.outgoing giver (header prepare_migration 10000 10001 false) []

abbrev agreed : TcpMigSegment
agreed = Active.outgoing taker (header prepare_migration_ack 10001 10000 true) []

abbrev message : TcpMigSegment
message = Active.outgoing giver (header connection_state 10000 10001 false) bytes

abbrev acknowledged : TcpMigSegment
acknowledged = Active.outgoing taker (header connection_state_ack 10001 10000 false) []

abbrev sent_last : MigrationStage → ActiveMigration → ActiveMigration
sent_last stage a = record a { last_sent_stage = stage }

abbrev waiting : ActiveMigration
waiting = sent_last prepare_migration_ack taker

deserialize-serialize_example :
    (buf : List ℕ) × (TcpState.serialize big_endian moving ≡ some buf)
    × (length buf ≡ 81)
    × (TcpState.deserialize big_endian buf ≡ some (carried_state moving))
deserialize-serialize_example = deserialize-serialize big_endian moving state-StateFits

handshake_lem_example :
    (a' a'' t' : ActiveMigration) × (q ack : TcpMigSegment) × (initiate_migration giver
      ≡ some (a', q ∷ []))
    × (process_packet big_endian taker q.tcpmig_hdr q.payload
        ≡ some (record { result = ok received; active = t'; sent = ack ∷ [] }))
    × (process_packet big_endian a' ack.tcpmig_hdr ack.payload
        ≡ quietly (ok (prepare_migration_acked 7)) a'')
    × (a''.last_sent_stage ≡ prepare_migration)
    × (a''.dest_udp_port ≡ 10001)
    × (t'.last_sent_stage ≡ prepare_migration_ack)
    × (t'.defragmenter ≡ new_defragmenter)
handshake_lem_example = handshake_lem big_endian giver taker 7 refl refl refl

in_order :
    Shuffled message
      (state_segments big_endian prepared moving)
      (slots_of (state_segments big_endian prepared moving))
      (message ∷ [])
unfolding send_connection_state TcpState.serialize write_state send new collect next cut
in_order = arrival 0 (omega arith) refl (complete refl)

migration_lem_example :
    (a' t' : ActiveMigration) × (ack : TcpMigSegment) × (send_connection_state big_endian prepared
        moving
      ≡ some (a', state_segments big_endian prepared moving))
    × (receive_state big_endian waiting (message ∷ [])
        ≡ some (record {
          result = ok (state_received (taken_over big_endian waiting moving));
          active = t';
          sent = ack ∷ [];
        }))
    × (process_packet big_endian a' ack.tcpmig_hdr ack.payload
        ≡ quietly (ok migration_completed) a')
migration_lem_example =
    migration_lem big_endian prepared waiting moving message (message ∷ []) refl refl refl
      state-StateFits (omega arith) in_order

-- The steps of a whole migration.
abbrev world :
    ActiveMigration → ActiveMigration → List TcpMigSegment → List TcpState → List TcpState → World
world a t network given accepted = record {
  giver = a;
  taker = t;
  network = network;
  given = given;
  accepted = accepted;
}

abbrev taken : TcpState
taken = taken_over big_endian waiting moving

abbrev before : World
before = world giver taker [] [] []

abbrev after : World
after =
    world (sent_last connection_state giver) (sent_last connection_state_ack taker)
      (request ∷ agreed ∷ message ∷ acknowledged ∷ []) (moving ∷ []) (taken ∷ [])

-- The table of a server.
abbrev peer : TcpMigPeer
peer = record {
  local_link_addr = backend_mac;
  local_ipv4_addr = backend_ip;
  active_migrations = λ k. none;
  incoming_user_data = λ k. none;
  self_udp_port = 10001;
  heartbeat_data = 0 ∷ 0 ∷ 0 ∷ 0 ∷ [];
  application_state = λ k. none;
}

receive_parsed-repeated_example :
    (first second : PeerOutcome) × (receive_parsed big_endian peer request.tcpmig_hdr []
      ≡ some first)
    × (first.result ≡ ok received)
    × (first.sent
        ≡ bare
            (active_for peer giver.origin.port giver.origin giver.client none)
            (ack_header request.tcpmig_hdr)
          ∷ [])
    × (receive_parsed big_endian first.peer request.tcpmig_hdr [] ≡ some second)
    × (second.result ≡ ok (returned_by_switch giver.origin giver.client))
    × (second.peer.active_migrations giver.client ≡ none)
    × (receive_parsed big_endian second.peer message.tcpmig_hdr bytes ≡ none)
receive_parsed-repeated_example =
    receive_parsed-repeated big_endian peer request.tcpmig_hdr message.tcpmig_hdr bytes refl refl
      refl refl

abbrev requested : PeerOutcome
requested = record {
  result = ok received;
  peer = with_active giver.client waiting (with_active giver.client taker peer);
  sent = agreed ∷ [];
}

request_received : receive_parsed big_endian peer request.tcpmig_hdr [] ≡ some requested
unfolding receive_parsed receive_at receive_request dispatch conclude settle addr_eq ip_eq mac_eq
    process_packet send swap_src_dst_port collect next cut
request_received = refl

abbrev other_client : SocketAddrV4
other_client = record { ip = frontend_ip; port = 77 }

other : addr_eq giver.client other_client ≡ false
unfolding addr_eq ip_eq
other = refl

receive_parsed-other_example : requested.peer.active_migrations other_client ≡ none
receive_parsed-other_example =
    receive_parsed-other big_endian peer other_client request.tcpmig_hdr [] requested other
      request_received
