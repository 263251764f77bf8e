-- ===== src/Lib.antt =====
-- Verification of the TCP/IP stack of Capybara (src/rust/inetstack).
--
-- The stack takes frames from a runtime (DPDK or raw sockets), parses the Ethernet, IPv4 and UDP
-- headers, and hands TCP segments to the connection that they belong to and UDP datagrams to the
-- queue of a socket. An established connection is a control block: a receiver with a queue for the
-- application and a store for out-of-order segments, a sender with a retransmission queue and a queue
-- of buffers that wait, and timers. The application's calls and the segments of the peer change it,
-- and a background task sends what waits when the windows open. Link addresses come from an ARP peer
-- with a cache.
--
-- A connection can move from one server to another. The two exchange TCPMig segments, which are UDP
-- datagrams: the giver asks, the taker agrees, the giver sends the state of the connection in
-- fragments, and the taker puts it together, takes the connection over and acknowledges.
--
-- The modules, and the code that each models:
--   Base        lists, machine words, and two ways to fail: Fallible for `Result<_, Fail>`
--               (src/rust/runtime/fail.rs) and Panic, where `none` stands for a panic
--   Wire        addresses, and the interfaces of the crates byteorder and num_traits
--   Checksum    the end of the ones-complement sums
--   Ethernet2   inetstack/protocols/ethernet2: Ethernet2Header::parse and serialize
--   Ipv4        inetstack/protocols/ipv4/datagram.rs: Ipv4Header::parse, serialize, compute_checksum
--   Collections Ring: collections/ring.rs, a queue between two threads, with the calls of one thread
--               (Contents, Refine) and the interleaved steps of two (Threads, with their States
--               and Fifo); TtlCache: inetstack/collections/hashttlcache/mod.rs
--   EphemeralPorts   inetstack/protocols/ip/ephemeral.rs, the pool of private ports
--   Udp         inetstack/protocols/udp/datagram/header.rs: UdpHeader::parse_from_slice, serialize and
--               checksum. Queue: udp/queue.rs. Peer: udp/peer.rs, the sockets; Laws
--               (with Ports, Bind and Calls) on what calls and datagrams keep
--   Arp         inetstack/protocols/arp/packet/header.rs: ArpHeader::parse and serialize. Peer:
--               arp/cache/mod.rs and arp/peer.rs, the table of addresses and the queries that wait
--   Tcp.SeqNumber    inetstack/protocols/tcp/sequence_number.rs
--   Tcp.Header       inetstack/protocols/tcp/segment.rs: Options and Segment write a header, Parser
--               and OptionReader read it
--   Tcp.Established  inetstack/protocols/tcp/established:
--     Block       the state: State, Receiver, Sender, UnackedSegment, ControlBlock
--     Output      ctrlblk.rs: tcp_header, emit, send_ack and the receive window
--     OutOfOrder  ctrlblk.rs: store_out_of_order_segment, receive_data, Receiver::push and pop
--     Sender      sender.rs, ControlBlock::close, and background/sender.rs (Sender.Background)
--     Receive     ctrlblk.rs: ControlBlock::receive
--     Example     a connection for the tests
--   Tcp.Migration    the modules `state` of ctrlblk.rs and sender.rs, the state of a connection that
--               moves: Codec (the traits Serialize and Deserialize of tcp/peer.rs for its parts),
--               State (the records and their bytes), Handover (from a connection and into one) and
--               TcpState (tcp/peer.rs: a connection with the state of its application)
--   TcpMig      inetstack/protocols/tcpmig. The segments: Header (segment/header.rs), Fragmenter
--               (segment/mod.rs) and Defragmenter (segment/defragmenter.rs, with the abstract view of
--               a message in Defragmenter.Slots; Shuffled for segments that come in any order). The
--               protocol: Active (active.rs, one migration on one side) and Peer (peer.rs, all of a
--               server's). Handshake and Transfer run the two sides against each other
--               (Arrivals: the segments of a state come in); Protocol is
--               the two sides and the network as a step relation, with the invariant of the stages
--               in Protocol.Stages and that of the state that was given in Protocol.Safety
-- Paths are from src/rust.
--
-- How state and operations correspond. Cells, reference cells and watched values of the source are
-- fields of records, and an operation is a function from a control block to a control block. Hash
-- maps are functions into Option, and a reference that two parts of the source share is in the
-- state of the part that changes it. Segments given to the runtime are the list `transmitted` of
-- the block, or a list that the call returns; what the clock and the ARP cache answer while an
-- operation runs are its fields `now` and `link`. An operation that can panic has `Option` as its
-- result. Numbers are natural numbers, with `% 2 ^ 32` written out where the source computes in 32
-- bits: additions and subtractions wrap around, as they do in a release build. The congestion
-- control is an interface record over the trait CongestionControl, and the estimator of the
-- retransmission timeout, which computes in floating point, an interface over its methods. So are
-- the bounded channel of the crate futures behind the queues of UDP, and the state of an
-- application. The loads and stores of the indexes of the ring buffer are steps of their own that
-- take effect at once; the source gives them the ordering Relaxed, which promises less.
--
-- Fuel. The checksum loop takes off 0xFFFF a round and is given a round for each 0xFFFF of its
-- state; the passes over the out-of-order store are given one more than its length, since each
-- further pass removes a stored segment. Both are shown to be enough. The loop of
-- remove_acknowledged_data is recursion on the queue: on an empty queue with bytes remaining the
-- source asserts in debug builds, and else does not end, and the model has `none`.
--
-- The loop over the options of a TCP header has a round of fuel for each byte, and more changes
-- nothing; the generator of fragments ends with two rounds more than full fragments. The loop of a
-- UDP queue that makes room is given one round more than its length.
--
-- Not modelled: the statistics of migration and TcpmigPollState, ICMP, the handshake of TCP and the
-- demultiplexing by ports, the timer tasks of a connection other than the sender, the repetition of
-- ARP requests, congestion control and round-trip estimation (floating point), ring buffers over
-- memory that is given, and the runtimes, schedulers and library operating systems around the stack
-- (system calls).
pub mod Base
pub mod Wire
pub mod Checksum
pub mod Collections
pub mod EphemeralPorts
pub mod Ethernet2
pub mod Ipv4
pub mod Udp
pub mod Arp
pub mod Tcp
pub mod TcpMig
