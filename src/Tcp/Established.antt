-- ===== src/Tcp/Established.antt =====
-- Established connections, inetstack/protocols/tcp/established.
pub mod Block
pub mod Output
pub mod OutOfOrder
pub mod Sender
pub mod Receive
pub mod Example
