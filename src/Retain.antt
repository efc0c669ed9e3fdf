-- ===== src/Retain.antt =====
-- The store of retained values of crates/plc-retain.
pub mod Crc
pub mod Codec
pub mod Store
pub mod Remap
pub mod Symbols
