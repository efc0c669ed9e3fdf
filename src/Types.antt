-- ===== src/Types.antt =====
-- The shared types of crates/plc-types.
pub mod Ascii
pub mod OperatingMode
pub mod ProgramPhase
pub mod Quality
