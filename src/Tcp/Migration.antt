-- ===== src/Tcp/Migration.antt =====
-- The state of a connection that moves to another server: the modules `state` of
-- tcp/established/ctrlblk.rs and tcp/established/sender.rs.
pub mod Codec
pub mod State
pub mod Handover
mod CodecLaws
pub mod Laws
pub mod RoundTrip
pub mod Moved
pub mod TcpState
mod Tests
