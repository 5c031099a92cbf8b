-- ===== src/Tests.antt =====
-- Runs of the model at concrete inputs, and the theorems at inputs that meet their hypotheses.
mod Machine
mod Decoding
mod Interpreting
mod Arithmetic
mod System
mod Stack
mod Translating
mod Emitting
mod Running
mod Reached
mod Whole
mod Loading
mod Emulating
mod Parsing
mod Recording
