-- ===== src/Sbt.antt =====
-- sbt: the analysis that the translator's code generation rests on.
pub mod Blocks
pub mod Leaders
pub mod Harvest
pub mod Emit
pub mod Options
pub mod Simulate
