-- ===== src/Decoder.antt =====
-- lib/decoding: the instruction tables, the field extractors and `decode`.
pub mod Instructions
pub mod Table
pub mod Fields
pub mod Decode
pub mod FieldLaws
pub mod Unique
pub mod Registers
pub mod Encode
pub mod Amount
pub mod Immediate
