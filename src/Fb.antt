-- ===== src/Fb.antt =====
-- The native function blocks of crates/plc-fb-primitives: a module for each block.
pub mod Edge
pub mod Elapsed
pub mod Ton
pub mod Tof
pub mod Tp
pub mod Ctu
pub mod Ctd
pub mod Rs
pub mod Sr
pub mod RTrig
pub mod FTrig
pub mod Pid
pub mod Dispatch
