-- ===== src/Interpreter/Agree.antt =====
-- The dispatchers do the same.
pub mod Split
pub mod Shift
pub mod OpImm
pub mod Op
pub mod Memory
pub mod Control
pub mod Word
pub mod SwitchOps
pub mod Switch
pub mod Threaded
pub mod Fetch
