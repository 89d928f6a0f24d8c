-- ===== src/Inform.antt =====
-- internal/inform: the codec of the inform protocol.
pub mod Stations
pub mod Bytes
pub mod Packet
pub mod Pad
pub mod Hex
pub mod Crypto
pub mod Codec
