-- ===== src/Interpreter/Predecoded.antt =====
-- `Interpreter::runInstructionPredecoded`: one `switch` on the type of a decoded instruction.
use Prim.Native.Nat.{bit_and, bit_or, bit_xor}
use mathlib.Core.Bool.{not}
use riscv_sbt.Base.{ltb, leb, ◌==◌}
use riscv_sbt.Base.Word.{u8, ◌>>>◌, ◌+w◌, ◌-w◌, shl32, sar32, slt32, of_bool, sext8, sext16}
use riscv_sbt.Base.Outcome.{Outcome, ok, ◌>>=◌}
use riscv_sbt.Runtime.Context.{Context, set_reg, print_unsupported, store}
use riscv_sbt.Decoder.Instructions.{EInstruction, Instruction}
use riscv_sbt.Interpreter.Arms.{
  mul_word, mulh_word, mulhsu_word, mulhu_word, div_word, divu_word, rem_word, remu_word, branch,
  load_into, jump_relative, jump_register, retire,
}

unfoldable pub execute :
    EInstruction → (Context → Outcome Context) → Instruction → Context → Outcome Context
execute EInstruction.add handle i c = ok (set_reg c i.rd (c.reg i.rs1 +w c.reg i.rs2))
execute EInstruction.sub handle i c = ok (set_reg c i.rd (c.reg i.rs1 -w c.reg i.rs2))
execute EInstruction.xor handle i c = ok (set_reg c i.rd (bit_xor (c.reg i.rs1) (c.reg i.rs2)))
execute EInstruction.or handle i c = ok (set_reg c i.rd (bit_or (c.reg i.rs1) (c.reg i.rs2)))
execute EInstruction.and handle i c = ok (set_reg c i.rd (bit_and (c.reg i.rs1) (c.reg i.rs2)))
execute EInstruction.sll handle i c =
    ok (set_reg c i.rd (shl32 (c.reg i.rs1) (bit_and (c.reg i.rs2) 0x1f)))
execute EInstruction.srl handle i c =
    ok (set_reg c i.rd (c.reg i.rs1 >>> bit_and (c.reg i.rs2) 0x1f))
execute EInstruction.sra handle i c =
    ok (set_reg c i.rd (sar32 (c.reg i.rs1) (u8 (bit_and (c.reg i.rs2) 0x1f))))
execute EInstruction.slt handle i c =
    ok (set_reg c i.rd (of_bool (slt32 (c.reg i.rs1) (c.reg i.rs2))))
execute EInstruction.sltu handle i c =
    ok (set_reg c i.rd (of_bool (ltb (c.reg i.rs1) (c.reg i.rs2))))
execute EInstruction.addi handle i c = ok (set_reg c i.rd (c.reg i.rs1 +w i.immediate))
execute EInstruction.xori handle i c = ok (set_reg c i.rd (bit_xor (c.reg i.rs1) i.immediate))
execute EInstruction.ori handle i c = ok (set_reg c i.rd (bit_or (c.reg i.rs1) i.immediate))
execute EInstruction.andi handle i c = ok (set_reg c i.rd (bit_and (c.reg i.rs1) i.immediate))
execute EInstruction.slli handle i c =
    ok (set_reg c i.rd (shl32 (c.reg i.rs1) (u8 (bit_and i.immediate 0x1f))))
execute EInstruction.srli handle i c =
    ok (set_reg c i.rd (c.reg i.rs1 >>> (u8 (bit_and i.immediate 0x1f))))
execute EInstruction.srai handle i c =
    ok (set_reg c i.rd (sar32 (c.reg i.rs1) (u8 (bit_and i.immediate 0x1f))))
execute EInstruction.slti handle i c =
    ok (set_reg c i.rd (of_bool (slt32 (c.reg i.rs1) i.immediate)))
execute EInstruction.sltiu handle i c =
    ok (set_reg c i.rd (of_bool (ltb (c.reg i.rs1) i.immediate)))
execute EInstruction.lb handle i c = load_into 1 sext8 c i.rd (c.reg i.rs1 +w i.immediate)
execute EInstruction.lh handle i c = load_into 2 sext16 c i.rd (c.reg i.rs1 +w i.immediate)
execute EInstruction.lw handle i c = load_into 4 (λ v. v) c i.rd (c.reg i.rs1 +w i.immediate)
execute EInstruction.lbu handle i c = load_into 1 (λ v. v) c i.rd (c.reg i.rs1 +w i.immediate)
execute EInstruction.lhu handle i c = load_into 2 (λ v. v) c i.rd (c.reg i.rs1 +w i.immediate)
execute EInstruction.sb handle i c = store 1 c (c.reg i.rs1 +w i.immediate) (c.reg i.rs2)
execute EInstruction.sh handle i c = store 2 c (c.reg i.rs1 +w i.immediate) (c.reg i.rs2)
execute EInstruction.sw handle i c = store 4 c (c.reg i.rs1 +w i.immediate) (c.reg i.rs2)
execute EInstruction.beq handle i c = ok (branch c (c.reg i.rs1 == c.reg i.rs2) i.immediate)
execute EInstruction.bne handle i c = ok (branch c (not (c.reg i.rs1 == c.reg i.rs2)) i.immediate)
execute EInstruction.blt handle i c = ok (branch c (slt32 (c.reg i.rs1) (c.reg i.rs2)) i.immediate)
execute EInstruction.bge handle i c =
    ok (branch c (not (slt32 (c.reg i.rs1) (c.reg i.rs2))) i.immediate)
execute EInstruction.bltu handle i c = ok (branch c (ltb (c.reg i.rs1) (c.reg i.rs2)) i.immediate)
execute EInstruction.bgeu handle i c = ok (branch c (leb (c.reg i.rs2) (c.reg i.rs1)) i.immediate)
execute EInstruction.jal handle i c = ok (jump_relative c i.rd i.immediate)
execute EInstruction.jalr handle i c = ok (jump_register c i.rd i.rs1 i.immediate)
execute EInstruction.lui handle i c = ok (set_reg c i.rd (shl32 i.immediate 12))
execute EInstruction.auipc handle i c = ok (set_reg c i.rd (c.pc +w shl32 i.immediate 12))
execute EInstruction.ecall handle i c = handle c
execute EInstruction.ebreak handle i c = ok (print_unsupported c)
execute EInstruction.fence handle i c = ok (print_unsupported c)
execute EInstruction.mul handle i c = ok (set_reg c i.rd (mul_word (c.reg i.rs1) (c.reg i.rs2)))
execute EInstruction.mulh handle i c = ok (set_reg c i.rd (mulh_word (c.reg i.rs1) (c.reg i.rs2)))
execute EInstruction.mulhsu handle i c =
    ok (set_reg c i.rd (mulhsu_word (c.reg i.rs1) (c.reg i.rs2)))
execute EInstruction.mulhu handle i c = ok (set_reg c i.rd (mulhu_word (c.reg i.rs1) (c.reg i.rs2)))
execute EInstruction.div handle i c = ok (set_reg c i.rd (div_word (c.reg i.rs1) (c.reg i.rs2)))
execute EInstruction.divu handle i c = ok (set_reg c i.rd (divu_word (c.reg i.rs1) (c.reg i.rs2)))
execute EInstruction.rem handle i c = ok (set_reg c i.rd (rem_word (c.reg i.rs1) (c.reg i.rs2)))
execute EInstruction.remu handle i c = ok (set_reg c i.rd (remu_word (c.reg i.rs1) (c.reg i.rs2)))
execute EInstruction.lr_w handle i c = load_into 4 (λ v. v) c i.rd (c.reg i.rs1)
execute EInstruction.sc_w handle i c = do
  s ← store 4 c (c.reg i.rs1) (c.reg i.rs2)
  ok (set_reg s i.rd 0)
execute EInstruction.invalid handle i c = ok (print_unsupported c)

unfoldable pub run_instruction_predecoded :
    (Context → Outcome Context) → Context → Instruction → Outcome Context
unfolding execute retire
run_instruction_predecoded handle ctx i = do c ← execute i.type handle i ctx; ok (retire c)
