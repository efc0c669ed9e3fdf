-- ===== src/Ir/Verify.antt =====
-- The bytecode verifier of crates/plc-ir/src/verify.rs. An abstract stack is a list with its top
-- first; the map of stacks seen is an association list; the work list has the frame that `pop`
-- takes next at its front. An error is the number of its rule; the messages are left out.
pub mod Transfer
pub mod Loop
pub mod Rounds
pub mod Heights
pub mod Cover
pub mod Termination
pub mod Safety
pub mod Accepted
