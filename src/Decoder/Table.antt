-- ===== src/Decoder/Table.antt =====
-- The specification tables of lib/decoding/Instructions.h, row by row, and the register use that is
-- derived from them. The columns are those of `InstructionSpec`.
use Prim.Native.Nat.{ℕ}
use mathlib.Core.Bool.{Bool, true, false}
use mathlib.Core.List.{List, [], ◌∷◌, ◌++◌}
use riscv_sbt.Decoder.Instructions.{EInstruction, EInstructionFmt, InstructionSpec}

abbrev spec : EInstruction → EInstructionFmt → ℕ → Bool → ℕ → Bool → ℕ → ℕ → ℕ → InstructionSpec
spec ty fmt op u3 f3 u7 f7 mask pat = record {
  type = ty;
  format = fmt;
  opcode = op;
  use_funct3 = u3;
  funct3 = f3;
  use_funct7 = u7;
  funct7 = f7;
  bits_mask = mask;
  bits_pattern = pat;
}

unfoldable pub rv32i : List InstructionSpec
rv32i =
    spec EInstruction.add EInstructionFmt.r 0b0110011 true 0x0 true 0x00 0x0 0x0
    ∷ spec EInstruction.sub EInstructionFmt.r 0b0110011 true 0x0 true 0x20 0x0 0x0
    ∷ spec EInstruction.xor EInstructionFmt.r 0b0110011 true 0x4 true 0x00 0x0 0x0
    ∷ spec EInstruction.or EInstructionFmt.r 0b0110011 true 0x6 true 0x00 0x0 0x0
    ∷ spec EInstruction.and EInstructionFmt.r 0b0110011 true 0x7 true 0x00 0x0 0x0
    ∷ spec EInstruction.sll EInstructionFmt.r 0b0110011 true 0x1 true 0x00 0x0 0x0
    ∷ spec EInstruction.srl EInstructionFmt.r 0b0110011 true 0x5 true 0x00 0x0 0x0
    ∷ spec EInstruction.sra EInstructionFmt.r 0b0110011 true 0x5 true 0x20 0x0 0x0
    ∷ spec EInstruction.slt EInstructionFmt.r 0b0110011 true 0x2 true 0x00 0x0 0x0
    ∷ spec EInstruction.sltu EInstructionFmt.r 0b0110011 true 0x3 true 0x00 0x0 0x0
    ∷ spec EInstruction.addi EInstructionFmt.i 0b0010011 true 0x0 false 0x00 0x0 0x0
    ∷ spec EInstruction.xori EInstructionFmt.i 0b0010011 true 0x4 false 0x00 0x0 0x0
    ∷ spec EInstruction.ori EInstructionFmt.i 0b0010011 true 0x6 false 0x00 0x0 0x0
    ∷ spec EInstruction.andi EInstructionFmt.i 0b0010011 true 0x7 false 0x00 0x0 0x0
    ∷ spec EInstruction.slli EInstructionFmt.i 0b0010011 true 0x1 true 0x00 0x0 0x0
    ∷ spec EInstruction.srli EInstructionFmt.i 0b0010011 true 0x5 true 0x00 0x0 0x0
    ∷ spec EInstruction.srai EInstructionFmt.i 0b0010011 true 0x5 true 0x20 0x0 0x0
    ∷ spec EInstruction.slti EInstructionFmt.i 0b0010011 true 0x2 false 0x00 0x0 0x0
    ∷ spec EInstruction.sltiu EInstructionFmt.i 0b0010011 true 0x3 false 0x00 0x0 0x0
    ∷ spec EInstruction.lb EInstructionFmt.i 0b0000011 true 0x0 false 0x00 0x0 0x0
    ∷ spec EInstruction.lh EInstructionFmt.i 0b0000011 true 0x1 false 0x00 0x0 0x0
    ∷ spec EInstruction.lw EInstructionFmt.i 0b0000011 true 0x2 false 0x00 0x0 0x0
    ∷ spec EInstruction.lbu EInstructionFmt.i 0b0000011 true 0x4 false 0x00 0x0 0x0
    ∷ spec EInstruction.lhu EInstructionFmt.i 0b0000011 true 0x5 false 0x00 0x0 0x0
    ∷ spec EInstruction.sb EInstructionFmt.s 0b0100011 true 0x0 false 0x00 0x0 0x0
    ∷ spec EInstruction.sh EInstructionFmt.s 0b0100011 true 0x1 false 0x00 0x0 0x0
    ∷ spec EInstruction.sw EInstructionFmt.s 0b0100011 true 0x2 false 0x00 0x0 0x0
    ∷ spec EInstruction.beq EInstructionFmt.b 0b1100011 true 0x0 false 0x00 0x0 0x0
    ∷ spec EInstruction.bne EInstructionFmt.b 0b1100011 true 0x1 false 0x00 0x0 0x0
    ∷ spec EInstruction.blt EInstructionFmt.b 0b1100011 true 0x4 false 0x00 0x0 0x0
    ∷ spec EInstruction.bge EInstructionFmt.b 0b1100011 true 0x5 false 0x00 0x0 0x0
    ∷ spec EInstruction.bltu EInstructionFmt.b 0b1100011 true 0x6 false 0x00 0x0 0x0
    ∷ spec EInstruction.bgeu EInstructionFmt.b 0b1100011 true 0x7 false 0x00 0x0 0x0
    ∷ spec EInstruction.jal EInstructionFmt.j 0b1101111 false 0x0 false 0x00 0x0 0x0
    ∷ spec EInstruction.jalr EInstructionFmt.i 0b1100111 true 0x0 false 0x00 0x0 0x0
    ∷ spec EInstruction.lui EInstructionFmt.u 0b0110111 false 0x0 false 0x00 0x0 0x0
    ∷ spec EInstruction.auipc EInstructionFmt.u 0b0010111 false 0x0 false 0x00 0x0 0x0
    ∷ spec EInstruction.ecall EInstructionFmt.i 0b1110011 false 0x0 false 0x00 0xFFF00000 0x00000000
    ∷ spec EInstruction.ebreak EInstructionFmt.i 0b1110011 false 0x0 false 0x00 0xFFF00000
        0x00100000
    ∷ []

unfoldable pub rv32m : List InstructionSpec
rv32m =
    spec EInstruction.mul EInstructionFmt.r 0b0110011 true 0x0 true 0x01 0 0
    ∷ spec EInstruction.mulh EInstructionFmt.r 0b0110011 true 0x1 true 0x01 0 0
    ∷ spec EInstruction.mulhsu EInstructionFmt.r 0b0110011 true 0x2 true 0x01 0 0
    ∷ spec EInstruction.mulhu EInstructionFmt.r 0b0110011 true 0x3 true 0x01 0 0
    ∷ spec EInstruction.div EInstructionFmt.r 0b0110011 true 0x4 true 0x01 0 0
    ∷ spec EInstruction.divu EInstructionFmt.r 0b0110011 true 0x5 true 0x01 0 0
    ∷ spec EInstruction.rem EInstructionFmt.r 0b0110011 true 0x6 true 0x01 0 0
    ∷ spec EInstruction.remu EInstructionFmt.r 0b0110011 true 0x7 true 0x01 0 0
    ∷ []

unfoldable pub rv32a : List InstructionSpec
rv32a =
    spec EInstruction.lr_w EInstructionFmt.r 0b0101111 true 0x2 false 0x0 0xF8000000 0x10000000
    ∷ spec EInstruction.sc_w EInstructionFmt.r 0b0101111 true 0x2 false 0x0 0xF8000000 0x18000000
    ∷ []

-- `SPEC_LISTS`, in the order in which `decode` and `forEachInstructionSpec` walk them
unfoldable pub spec_lists : List InstructionSpec
unfolding rv32i rv32m rv32a
spec_lists = rv32i ++ (rv32m ++ rv32a)
