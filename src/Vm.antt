-- ===== src/Vm.antt =====
-- The virtual machine (crates/plc-vm).
pub mod Value
pub mod Memory
pub mod Operators
pub mod State
pub mod Exec
