-- ===== src/Ir.antt =====
-- The bytecode of crates/plc-ir.
pub mod Bytes
pub mod Table
pub mod IrType
pub mod Opcode
pub mod PrimitiveId
pub mod Encode
pub mod Module
pub mod Spbc
pub mod Verify
