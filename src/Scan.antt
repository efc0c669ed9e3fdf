-- ===== src/Scan.antt =====
-- The scan engine's cells of crates/plc-scan.
pub mod ModeCell
pub mod EpochHooks
pub mod Watchdog
pub mod Ring
pub mod RetainSignal
pub mod Convert
pub mod Engine
