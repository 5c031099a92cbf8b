-- ===== src/Interpreter.antt =====
-- emulator/Interpreter.cpp: one instruction, in each of the four ways in which it is dispatched.
pub mod Arms
pub mod Chain
pub mod Switch
pub mod Predecoded
pub mod Threaded
pub mod Agree
pub mod Bounds
pub mod Valid
pub mod MulDiv
pub mod DivRem
pub mod Jumps
pub mod Systems
