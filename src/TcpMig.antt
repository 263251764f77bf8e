-- ===== src/TcpMig.antt =====
-- The migration of TCP connections between servers, inetstack/protocols/tcpmig.
pub mod Header
pub mod Fragmenter
pub mod Defragmenter
pub mod Reassembly
pub mod Shuffled
pub mod Active
pub mod Protocol
pub mod Peer
pub mod Handshake
pub mod Arrivals
pub mod Transfer
mod MigrationTests
mod Tests
