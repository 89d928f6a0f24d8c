-- ===== src/Store.antt =====
-- internal/store: the device record and the rows that the controller keeps in it.
pub mod Value
pub mod Keys
pub mod Device
pub mod Mac
pub mod Blocked
pub mod CmdTask
pub mod TrustPolicy
pub mod Sessions
pub mod Db
