-- ===== src/Tests.antt =====
-- Runs of the models on concrete inputs.
mod Blocks
mod Cells
mod Calls
mod Container
mod Outputs
mod Retained
mod Bytecode
mod Machine
mod Engine
mod Access
mod Remapped
