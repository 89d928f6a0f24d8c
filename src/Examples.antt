-- ===== src/Examples.antt =====
-- The theorems at concrete inputs, and instances of the interfaces for which their laws hold.
mod Data
mod Inform
mod Store
mod Events
mod Sessions
mod Discovery
mod Db
mod History
mod Cycle
mod Wireless
mod Adoption
