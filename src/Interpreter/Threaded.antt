-- ===== src/Interpreter/Threaded.antt =====
-- `Interpreter::runInstructionsThreaded`: a label for each arm, the table of the labels, and the
-- jump from one instruction to the next.
use Prim.Native.Nat.{zero, suc, ◌/◌, ℕ, bit_and, bit_or, bit_xor}
use mathlib.Core.List.{List}
use mathlib.Core.Option.{none, some}
use mathlib.Core.Bool.{not}
use riscv_sbt.Base.{get_elem?, ltb, leb, ◌==◌}
use riscv_sbt.Base.Word.{u8, ◌>>>◌, ◌+w◌, ◌-w◌, shl32, sar32, slt32, of_bool, sext8, sext16}
use riscv_sbt.Base.Outcome.{Outcome, ok, fault, ◌>>=◌}
use riscv_sbt.Runtime.Context.{Context, set_reg, print_unsupported, store}
use riscv_sbt.Interpreter.Predecoded.{run_instruction_predecoded}
use riscv_sbt.Decoder.Instructions.{EInstruction, Instruction}
use riscv_sbt.Interpreter.Arms.{
  mul_word, mulh_word, mulhsu_word, mulhu_word, div_word, divu_word, rem_word, remu_word, branch,
  load_into, jump_relative, jump_register, retire,
}

pub data Label : Type 0 where
  l_add l_sub l_xor l_or l_and l_sll l_srl l_sra l_slt l_sltu : Label
  l_addi l_xori l_ori l_andi l_slli l_srli l_srai l_slti l_sltiu l_lb : Label
  l_lh l_lw l_lbu l_lhu l_sb l_sh l_sw l_beq l_bne l_blt : Label
  l_bge l_bltu l_bgeu l_jal l_jalr l_lui l_auipc l_ecall l_mul l_mulh : Label
  l_mulhsu l_mulhu l_div l_divu l_rem l_remu l_lr_w l_sc_w l_invalid : Label

-- the table `dispatch`, which is indexed by the type
unfoldable pub dispatch : EInstruction → Label
dispatch EInstruction.add = l_add
dispatch EInstruction.sub = l_sub
dispatch EInstruction.xor = l_xor
dispatch EInstruction.or = l_or
dispatch EInstruction.and = l_and
dispatch EInstruction.sll = l_sll
dispatch EInstruction.srl = l_srl
dispatch EInstruction.sra = l_sra
dispatch EInstruction.slt = l_slt
dispatch EInstruction.sltu = l_sltu
dispatch EInstruction.addi = l_addi
dispatch EInstruction.xori = l_xori
dispatch EInstruction.ori = l_ori
dispatch EInstruction.andi = l_andi
dispatch EInstruction.slli = l_slli
dispatch EInstruction.srli = l_srli
dispatch EInstruction.srai = l_srai
dispatch EInstruction.slti = l_slti
dispatch EInstruction.sltiu = l_sltiu
dispatch EInstruction.lb = l_lb
dispatch EInstruction.lh = l_lh
dispatch EInstruction.lw = l_lw
dispatch EInstruction.lbu = l_lbu
dispatch EInstruction.lhu = l_lhu
dispatch EInstruction.sb = l_sb
dispatch EInstruction.sh = l_sh
dispatch EInstruction.sw = l_sw
dispatch EInstruction.beq = l_beq
dispatch EInstruction.bne = l_bne
dispatch EInstruction.blt = l_blt
dispatch EInstruction.bge = l_bge
dispatch EInstruction.bltu = l_bltu
dispatch EInstruction.bgeu = l_bgeu
dispatch EInstruction.jal = l_jal
dispatch EInstruction.jalr = l_jalr
dispatch EInstruction.lui = l_lui
dispatch EInstruction.auipc = l_auipc
dispatch EInstruction.ecall = l_ecall
dispatch EInstruction.ebreak = l_invalid
dispatch EInstruction.fence = l_invalid
dispatch EInstruction.mul = l_mul
dispatch EInstruction.mulh = l_mulh
dispatch EInstruction.mulhsu = l_mulhsu
dispatch EInstruction.mulhu = l_mulhu
dispatch EInstruction.div = l_div
dispatch EInstruction.divu = l_divu
dispatch EInstruction.rem = l_rem
dispatch EInstruction.remu = l_remu
dispatch EInstruction.lr_w = l_lr_w
dispatch EInstruction.sc_w = l_sc_w
dispatch EInstruction.invalid = l_invalid

-- what stands between a label and its `DISPATCH()`
unfoldable pub label_arm :
    Label → (Context → Outcome Context) → Instruction → Context → Outcome Context
label_arm l_add handle i c = ok (set_reg c i.rd (c.reg i.rs1 +w c.reg i.rs2))
label_arm l_sub handle i c = ok (set_reg c i.rd (c.reg i.rs1 -w c.reg i.rs2))
label_arm l_xor handle i c = ok (set_reg c i.rd (bit_xor (c.reg i.rs1) (c.reg i.rs2)))
label_arm l_or handle i c = ok (set_reg c i.rd (bit_or (c.reg i.rs1) (c.reg i.rs2)))
label_arm l_and handle i c = ok (set_reg c i.rd (bit_and (c.reg i.rs1) (c.reg i.rs2)))
label_arm l_sll handle i c = ok (set_reg c i.rd (shl32 (c.reg i.rs1) (bit_and (c.reg i.rs2) 0x1f)))
label_arm l_srl handle i c = ok (set_reg c i.rd (c.reg i.rs1 >>> bit_and (c.reg i.rs2) 0x1f))
label_arm l_sra handle i c =
    ok (set_reg c i.rd (sar32 (c.reg i.rs1) (u8 (bit_and (c.reg i.rs2) 0x1f))))
label_arm l_slt handle i c = ok (set_reg c i.rd (of_bool (slt32 (c.reg i.rs1) (c.reg i.rs2))))
label_arm l_sltu handle i c = ok (set_reg c i.rd (of_bool (ltb (c.reg i.rs1) (c.reg i.rs2))))
label_arm l_addi handle i c = ok (set_reg c i.rd (c.reg i.rs1 +w i.immediate))
label_arm l_xori handle i c = ok (set_reg c i.rd (bit_xor (c.reg i.rs1) i.immediate))
label_arm l_ori handle i c = ok (set_reg c i.rd (bit_or (c.reg i.rs1) i.immediate))
label_arm l_andi handle i c = ok (set_reg c i.rd (bit_and (c.reg i.rs1) i.immediate))
label_arm l_slli handle i c =
    ok (set_reg c i.rd (shl32 (c.reg i.rs1) (u8 (bit_and i.immediate 0x1f))))
label_arm l_srli handle i c = ok (set_reg c i.rd (c.reg i.rs1 >>> (u8 (bit_and i.immediate 0x1f))))
label_arm l_srai handle i c =
    ok (set_reg c i.rd (sar32 (c.reg i.rs1) (u8 (bit_and i.immediate 0x1f))))
label_arm l_slti handle i c = ok (set_reg c i.rd (of_bool (slt32 (c.reg i.rs1) i.immediate)))
label_arm l_sltiu handle i c = ok (set_reg c i.rd (of_bool (ltb (c.reg i.rs1) i.immediate)))
label_arm l_lb handle i c = load_into 1 sext8 c i.rd (c.reg i.rs1 +w i.immediate)
label_arm l_lh handle i c = load_into 2 sext16 c i.rd (c.reg i.rs1 +w i.immediate)
label_arm l_lw handle i c = load_into 4 (λ v. v) c i.rd (c.reg i.rs1 +w i.immediate)
label_arm l_lbu handle i c = load_into 1 (λ v. v) c i.rd (c.reg i.rs1 +w i.immediate)
label_arm l_lhu handle i c = load_into 2 (λ v. v) c i.rd (c.reg i.rs1 +w i.immediate)
label_arm l_sb handle i c = store 1 c (c.reg i.rs1 +w i.immediate) (c.reg i.rs2)
label_arm l_sh handle i c = store 2 c (c.reg i.rs1 +w i.immediate) (c.reg i.rs2)
label_arm l_sw handle i c = store 4 c (c.reg i.rs1 +w i.immediate) (c.reg i.rs2)
label_arm l_beq handle i c = ok (branch c (c.reg i.rs1 == c.reg i.rs2) i.immediate)
label_arm l_bne handle i c = ok (branch c (not (c.reg i.rs1 == c.reg i.rs2)) i.immediate)
label_arm l_blt handle i c = ok (branch c (slt32 (c.reg i.rs1) (c.reg i.rs2)) i.immediate)
label_arm l_bge handle i c = ok (branch c (not (slt32 (c.reg i.rs1) (c.reg i.rs2))) i.immediate)
label_arm l_bltu handle i c = ok (branch c (ltb (c.reg i.rs1) (c.reg i.rs2)) i.immediate)
label_arm l_bgeu handle i c = ok (branch c (leb (c.reg i.rs2) (c.reg i.rs1)) i.immediate)
label_arm l_jal handle i c = ok (jump_relative c i.rd i.immediate)
label_arm l_jalr handle i c = ok (jump_register c i.rd i.rs1 i.immediate)
label_arm l_lui handle i c = ok (set_reg c i.rd (shl32 i.immediate 12))
label_arm l_auipc handle i c = ok (set_reg c i.rd (c.pc +w shl32 i.immediate 12))
label_arm l_ecall handle i c = handle c
label_arm l_mul handle i c = ok (set_reg c i.rd (mul_word (c.reg i.rs1) (c.reg i.rs2)))
label_arm l_mulh handle i c = ok (set_reg c i.rd (mulh_word (c.reg i.rs1) (c.reg i.rs2)))
label_arm l_mulhsu handle i c = ok (set_reg c i.rd (mulhsu_word (c.reg i.rs1) (c.reg i.rs2)))
label_arm l_mulhu handle i c = ok (set_reg c i.rd (mulhu_word (c.reg i.rs1) (c.reg i.rs2)))
label_arm l_div handle i c = ok (set_reg c i.rd (div_word (c.reg i.rs1) (c.reg i.rs2)))
label_arm l_divu handle i c = ok (set_reg c i.rd (divu_word (c.reg i.rs1) (c.reg i.rs2)))
label_arm l_rem handle i c = ok (set_reg c i.rd (rem_word (c.reg i.rs1) (c.reg i.rs2)))
label_arm l_remu handle i c = ok (set_reg c i.rd (remu_word (c.reg i.rs1) (c.reg i.rs2)))
label_arm l_lr_w handle i c = load_into 4 (λ v. v) c i.rd (c.reg i.rs1)
label_arm l_sc_w handle i c = do s ← store 4 c (c.reg i.rs1) (c.reg i.rs2); ok (set_reg s i.rd 0)
label_arm l_invalid handle i c = ok (print_unsupported c)

-- `instructions[(ctx.pc - textStartAddress) / 4]`, which is undefined past the vector's end
unfoldable pub slot : List Instruction → ℕ → ℕ → Outcome Instruction
slot instructions text_start pc = elim (get_elem? instructions ((pc -w text_start) / 4)) [
  | none ↦ fault
  | some i ↦ ok i
]

module _ (handle : Context → Outcome Context) (instructions : List Instruction)
    (text_start : ℕ) where
  -- From the label of `i` on, through `count` instructions and the `DISPATCH()` after each. An
  -- instruction's `handler` is the table's entry for its type, stored by the first loop.
  unfoldable pub threaded_from : ℕ → Instruction → Context → Outcome Context
  threaded_from zero i c = ok c
  threaded_from (suc count) i c = do
    done ← label_arm (dispatch i.type) handle i c
    let next = retire done
    target ← slot instructions text_start next.pc
    threaded_from count target next

  -- the function from its entry on, cut off after `count` instructions
  unfoldable pub run_instructions_threaded : ℕ → Context → Outcome Context
  run_instructions_threaded count c = do
    i ← slot instructions text_start c.pc
    threaded_from count i c

  -- `count` rounds of `runInstructionPredecoded` on the slots that `pc` selects, as in the loop of
  -- emulator/main.cpp without threading
  unfoldable pub predecoded_rounds : ℕ → Context → Outcome Context
  predecoded_rounds zero c = ok c
  predecoded_rounds (suc count) c = do
    i ← slot instructions text_start c.pc
    next ← run_instruction_predecoded handle c i
    predecoded_rounds count next
