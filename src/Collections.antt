-- ===== src/Collections.antt =====
-- The collections of the repository, collections and inetstack/collections.
pub mod Ring
pub mod TtlCache
