-- ===== src/Adoption.antt =====
-- internal/server/adoption: the engine that decides every decoded inform. A decision takes the
-- index of the next key draw and returns an error, or its value and the index after it. Logging is
-- left out.
pub mod Types
pub mod Noop
pub mod Lifecycle
pub mod Mgmt
pub mod Provision
pub mod Plain
pub mod Encrypted
pub mod Decide
pub mod Admits
