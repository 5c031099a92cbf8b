-- ===== src/Sbt/Simulate.antt =====
-- Running what is emitted for an instruction does what the interpreter does with it.
pub mod Represents
pub mod Assign
pub mod Alu
pub mod Accesses
pub mod Leave
pub mod Control
pub mod Copies
pub mod Fallback
pub mod System
pub mod Handler
pub mod Instructions
pub mod Labels
pub mod Runs
pub mod Find
pub mod Jumps
pub mod Text
pub mod Progress
pub mod Steps
pub mod Whole
