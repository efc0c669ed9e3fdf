-- ===== src/Io.antt =====
-- The process image of crates/plc-io.
pub mod Value
pub mod Force
pub mod FieldGate
pub mod DoubleBuffer
pub mod Image
