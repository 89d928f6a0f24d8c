-- ===== src/Server.antt =====
-- internal/server: the inform path around the adoption engine, and the discovery listener.
pub mod Sessions
pub mod Discovery
pub mod Cycle
