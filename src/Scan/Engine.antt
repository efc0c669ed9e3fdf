-- ===== src/Scan/Engine.antt =====
-- The scan engine (crates/plc-scan/src/engine.rs). The telemetry of a scan is left out: it reads the
-- image and changes nothing else.
pub mod State
pub mod Requests
pub mod Install
pub mod Phases
pub mod Cycle
pub mod FailSafe
pub mod Atomic
