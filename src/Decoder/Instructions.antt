-- ===== src/Decoder/Instructions.antt =====
-- The types of lib/decoding/Instructions.h and of lib/decoding/Decoder.h.
use Prim.Native.Nat.{ℕ}
use mathlib.Core.Bool.{Bool}

pub data EInstruction : Type 0 where
  add sub xor or and sll srl sra slt sltu : EInstruction
  addi xori ori andi slli srli srai slti sltiu : EInstruction
  lb lh lw lbu lhu sb sh sw : EInstruction
  beq bne blt bge bltu bgeu : EInstruction
  jal jalr lui auipc ecall ebreak fence : EInstruction
  mul mulh mulhsu mulhu div divu rem remu : EInstruction
  lr_w sc_w invalid : EInstruction

-- R(egister), I(mmediate), S(tore), B(ranch), J(ump), U(pper immediate)
pub data EInstructionFmt : Type 0 where
  r i s b j u : EInstructionFmt

pub record InstructionSpec : Type 0 where
  pub type : EInstruction
  pub format : EInstructionFmt
  pub opcode : ℕ
  pub use_funct3 : Bool
  pub funct3 : ℕ
  pub use_funct7 : Bool
  pub funct7 : ℕ
  pub bits_mask : ℕ
  pub bits_pattern : ℕ

-- A decoded instruction. `immediate` is the bit pattern of the `int32_t`. The `handler` pointer is
-- a cache of the dispatch table's entry for `type`, and is not kept.
pub record Instruction : Type 0 where
  pub type : EInstruction
  pub instruction : ℕ
  pub immediate : ℕ
  pub address : ℕ
  pub rs1 : ℕ
  pub rs2 : ℕ
  pub rd : ℕ
