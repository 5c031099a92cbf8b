-- ===== src/Sbt/Emit.antt =====
-- sbt/codegen: the statements that the translator emits, as abstract syntax, and what they do.
pub mod Syntax
pub mod Emitter
pub mod Instructions
pub mod Machine
pub mod Program
pub mod Runtime
