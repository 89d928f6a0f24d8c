-- ===== src/Events.antt =====
-- internal/clientevents: client events out of the session transitions of every access point.
pub mod Event
pub mod Presence
pub mod Tracker
pub mod History
