-- ===== src/Udp/Peer.antt =====
-- UDP sockets, inetstack/protocols/udp/peer.rs. `none` is a panic. Datagrams that are handed to the
-- runtime are part of the state.
pub mod Laws
mod Tests
use Prim.Native.String.{String}
use capybara.Arp.Peer
use capybara.Arp.Peer.{ArpPeer}
use capybara.Base.{
  ℕ, List, [], ◌∷◌, ◌++◌, Bool, true, false, ◌==◌, if◌then◌else◌, Option, none, some, Errno, Result,
  fail,
}
use capybara.Base.Fallible.{ok, err}
use capybara.Base.Panic.{◌>>=◌}
use capybara.EphemeralPorts
use capybara.EphemeralPorts.{EphemeralPorts, is_private, alloc_port, alloc_any, free}
use capybara.Ethernet2
use capybara.Ethernet2.{Ethernet2Header}
use capybara.Ipv4
use capybara.Ipv4.{Ipv4Header}
use capybara.Udp
use capybara.Udp.{UdpHeader}
use capybara.Udp.Queue
use capybara.Udp.Queue.{Channel, SharedQueue}
use capybara.Wire.{Ipv4Addr, SocketAddrV4, MacAddress, NetworkEndian}
use capybara.Wire.Addrs.{AddrMap, insert, remove}

abbrev pub recv_queue_max_size : ℕ
recv_queue_max_size = 1024

abbrev pub send_queue_max_size : ℕ
send_queue_max_size = 1024

-- `SharedQueueSlot<Buffer>`.
pub record SharedQueueSlot : Type 0 where
  pub local : SocketAddrV4
  pub remote : SocketAddrV4
  pub bytes : List ℕ

-- `UdpDatagram`.
pub record UdpDatagram : Type 0 where
  pub ethernet2_hdr : Ethernet2Header
  pub ipv4_hdr : Ipv4Header
  pub udp_hdr : UdpHeader
  pub bytes : List ℕ
  pub checksum_offload : Bool

abbrev pub unspecified : Ipv4Addr
unspecified = record { a = 0; b = 0; c = 0; d = 0 }

-- A socket that is open, and the address that it is bound to, if it is.
abbrev pub Sockets : Type 0
Sockets = ℕ → Option (Option SocketAddrV4)

abbrev pub set_socket : ℕ → Option (Option SocketAddrV4) → Sockets → Sockets
set_socket qd socket sockets k = if qd == k then socket else sockets k

-- The choice of the port in `do_bind`, and what is left in the pool.
unfoldable pub choose_port : ℕ → EphemeralPorts → Result (ℕ × EphemeralPorts)
choose_port port e =
    if is_private port
    then elim (alloc_port port e) [ ok e' ↦ ok (port, e') | err failure ↦ err failure ]
    else if port == 0
    then alloc_any e
    else ok (port, e)

module _ (ch : Channel SharedQueueSlot) where
  -- `UdpPeer`.
  pub record UdpPeer : Type 0 where
    pub arp : ArpPeer
    pub ephemeral_ports : EphemeralPorts
    pub sockets : Sockets
    pub bound : AddrMap (SharedQueue ch)
    pub send_queue : SharedQueue ch
    pub local_link_addr : MacAddress
    pub local_ipv4_addr : Ipv4Addr
    pub checksum_offload : Bool
    pub sent : List UdpDatagram

  -- `UdpPeer::new`, when the task of the background sender is scheduled, with the pool of ports.
  abbrev pub new : MacAddress → Ipv4Addr → Bool → ArpPeer → EphemeralPorts → UdpPeer
  new local_link_addr local_ipv4_addr offload_checksum arp ephemeral_ports = record {
    arp = arp;
    ephemeral_ports = ephemeral_ports;
    sockets = λ qd. none;
    bound = λ addr. none;
    send_queue = Queue.new ch send_queue_max_size;
    local_link_addr = local_link_addr;
    local_ipv4_addr = local_ipv4_addr;
    checksum_offload = offload_checksum;
    sent = [];
  }

  -- `UdpPeer::do_socket`.
  unfoldable pub do_socket : ℕ → UdpPeer → Result (Unit {0}) × UdpPeer
  do_socket qd p = elim (p.sockets qd) [
    | none ↦ (ok tt, record p { sockets = set_socket qd (some none) p.sockets })
    | some socket ↦ (fail Errno.eexist "queue descriptor in use", p)
  ]

  -- The registration of the address in `do_bind`, and the rollback.
  unfoldable pub register :
      Option (Option SocketAddrV4) → ℕ → SocketAddrV4 → UdpPeer → Result (Unit {0}) × UdpPeer
  register (some none) qd addr p =
      let queue = Queue.new ch recv_queue_max_size in
      let p' : UdpPeer = record p {
        sockets = set_socket qd (some (some addr)) p.sockets;
        bound = insert addr queue p.bound;
      } in
      elim (p.bound addr) [
        | none ↦ (ok tt, p')
        | some old ↦ (
          fail Errno.eaddrinuse "address in use",
          if is_private addr.port
              then record p' { ephemeral_ports = free addr.port p'.ephemeral_ports }
              else p',
        )
      ]
  register _ qd addr p = (
    fail Errno.ebadf "invalid queue descriptor",
    if is_private addr.port
        then record p { ephemeral_ports = free addr.port p.ephemeral_ports }
        else p,
  )

  -- `UdpPeer::do_bind`, of an address that is not in use.
  unfoldable pub bind_free : ℕ → SocketAddrV4 → UdpPeer → Result (Unit {0}) × UdpPeer
  bind_free qd addr p = elim (choose_port addr.port p.ephemeral_ports) [
    | err failure ↦ (err failure, p)
    | ok (port, e) ↦
        register (p.sockets qd) qd (record addr { port = port }) (record p { ephemeral_ports = e })
  ]

  -- `UdpPeer::do_bind`.
  unfoldable pub do_bind : ℕ → SocketAddrV4 → UdpPeer → Result (Unit {0}) × UdpPeer
  do_bind qd addr p = elim (p.bound addr) [
    | some queue ↦ (fail Errno.eaddrinuse "address in use", p)
    | none ↦ bind_free qd addr p
  ]

  -- The end of `do_close`, for the socket that was removed.
  unfoldable pub unbind : Option SocketAddrV4 → UdpPeer → Result (Unit {0}) × UdpPeer
  unbind none p = (fail Errno.ebadf "invalid queue descriptor", p)
  unbind (some local) p = elim (p.bound local) [
    | some queue ↦ (ok tt, record p { bound = remove local p.bound })
    | none ↦ (fail Errno.ebadf "invalid queue descriptor", p)
  ]

  -- `UdpPeer::do_close`.
  unfoldable pub do_close : ℕ → UdpPeer → Result (Unit {0}) × UdpPeer
  do_close qd p = elim (p.sockets qd) [
    | none ↦ (fail Errno.ebadf "invalid queue descriptor", p)
    | some socket ↦ unbind socket (record p { sockets = set_socket qd none p.sockets })
  ]

  -- `UdpPeer::do_send`: the datagram.
  abbrev pub datagram : UdpPeer → MacAddress → List ℕ → SocketAddrV4 → SocketAddrV4 → UdpDatagram
  datagram p link_addr bytes local remote = record {
    ethernet2_hdr = record {
      dst_addr = link_addr;
      src_addr = p.local_link_addr;
      ether_type = Ethernet2.ipv4;
    };
    ipv4_hdr = Ipv4.new p.local_ipv4_addr remote.ip Ipv4.udp;
    udp_hdr = record { src_port = local.port; dest_port = remote.port };
    bytes = bytes;
    checksum_offload = p.checksum_offload;
  }

  -- The slow path of `do_pushto`.
  abbrev pub defer : SharedQueueSlot → UdpPeer → Option (Result (Unit {0}) × UdpPeer)
  defer slot p = do
    (result, queue) ← Queue.push ch slot p.send_queue
    some (result, record p { send_queue = queue })

  -- `UdpPeer::do_pushto`.
  unfoldable pub do_pushto :
      ℕ → List ℕ → SocketAddrV4 → UdpPeer → Option (Result (Unit {0}) × UdpPeer)
  do_pushto qd bytes remote p = elim (p.sockets qd) [
    | none ↦ some (fail Errno.ebadf "invalid queue descriptor", p)
    | some socket ↦ elim socket [
      | none ↦ some (fail Errno.ebadf "invalid queue descriptor", p)
      | some local ↦ elim (Peer.try_query remote.ip p.arp) [
        | some link_addr ↦
            some
              (ok tt, record p { sent = p.sent ++ (datagram p link_addr bytes local remote ∷ []) })
        | none ↦ defer (record { local = local; remote = remote; bytes = bytes }) p
      ]
    ]
  ]

  -- A round of `UdpPeer::background_sender`: the next unsent datagram, and what is done with it when
  -- the query for its address has an answer.
  abbrev pub next_unsent : UdpPeer → Option SharedQueueSlot × UdpPeer
  next_unsent p =
      let (slot, queue) = Queue.try_pop ch p.send_queue in (slot, record p { send_queue = queue })

  abbrev pub resolved : SharedQueueSlot → Result MacAddress → UdpPeer → UdpPeer
  resolved slot (ok link_addr) p = record p {
    sent = p.sent ++ (datagram p link_addr slot.bytes slot.local slot.remote ∷ []);
  }
  resolved slot (err failure) p = p

  -- `UdpPeer::do_pop`: the queue that the operation waits on.
  unfoldable pub do_pop : ℕ → UdpPeer → Option (SharedQueue ch)
  do_pop qd p = elim (p.sockets qd) [
    | none ↦ none
    | some socket ↦ elim socket [ none ↦ none | some local ↦ p.bound local ]
  ]

  -- The address whose queue takes a datagram: that of the datagram, or the wildcard with its port.
  abbrev pub receiver_of : UdpPeer → SocketAddrV4 → Option (SocketAddrV4 × SharedQueue ch)
  receiver_of p local =
      let wildcard : SocketAddrV4 = record { ip = unspecified; port = local.port } in
      elim (p.bound local) [
        | some queue ↦ some (local, queue)
        | none ↦ elim (p.bound wildcard) [ some queue ↦ some (wildcard, queue) | none ↦ none ]
      ]

  -- `recv_queue.push(...).unwrap()`.
  abbrev pub deliver :
      SocketAddrV4
      → SharedQueue ch
      → SharedQueueSlot
      → UdpPeer
      → Option (Result (Unit {0}) × UdpPeer)
  deliver addr queue slot p = do
    (result, queue) ← Queue.push ch slot queue
    elim result [
      | err failure ↦ none
      | ok pushed ↦ some (ok tt, record p { bound = insert addr queue p.bound })
    ]

  -- `UdpPeer::do_receive`, behind the parser.
  unfoldable pub receive_parsed :
      Ipv4Header → UdpHeader → List ℕ → UdpPeer → Option (Result (Unit {0}) × UdpPeer)
  receive_parsed ipv4_hdr hdr bytes p =
      let local : SocketAddrV4 = record { ip = ipv4_hdr.dst_addr; port = hdr.dest_port } in
      let remote : SocketAddrV4 = record { ip = ipv4_hdr.src_addr; port = hdr.src_port } in
      elim (receiver_of p local) [
        | none ↦ some (fail Errno.enotconn "port not bound", p)
        | some (addr, queue) ↦
            deliver addr queue (record { local = local; remote = remote; bytes = bytes }) p
      ]

  -- `UdpPeer::do_receive`.
  pub do_receive :
      NetworkEndian → Ipv4Header → List ℕ → UdpPeer → Option (Result (Unit {0}) × UdpPeer)
  do_receive ne ipv4_hdr buf p = elim (Udp.parse ne ipv4_hdr buf p.checksum_offload) [
    | err failure ↦ some (err failure, p)
    | ok (hdr, bytes) ↦ receive_parsed ipv4_hdr hdr bytes p
  ]
