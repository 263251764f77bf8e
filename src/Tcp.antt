-- ===== src/Tcp.antt =====
-- The TCP layer, inetstack/protocols/tcp.
pub mod SeqNumber
pub mod Header
pub mod Established
pub mod Migration
