-- ===== src/Interpreter/Switch.antt =====
-- `Interpreter::runInstructionSwitch`: the same arms behind nested `switch`es on the opcode and on
-- `funct3`. A `case` that ends without a `break` runs on into the next one.
use Prim.Native.Nat.{ℕ, bit_and, bit_or, bit_xor}
use mathlib.Core.Bool.{not, ◌&&◌}
use riscv_sbt.Base.{ltb, leb, ◌==◌, if◌then◌else◌}
use riscv_sbt.Base.Word.{u8, ◌>>>◌, ◌+w◌, ◌-w◌, shl32, sar32, slt32, of_bool, sext8, sext16}
use riscv_sbt.Base.Outcome.{Outcome, ok, ◌>>=◌}
use riscv_sbt.Runtime.Context.{Context, set_reg, print_unsupported, store, load}
use riscv_sbt.Decoder.Fields.{
  get_funct5, i_fmt_imm, s_fmt_imm, b_fmt_imm, j_fmt_imm, u_fmt_imm, get_shift, get_sh_type,
}
use riscv_sbt.Interpreter.Arms.{
  mul_word, mulh_word, mulhsu_word, mulhu_word, div_word, divu_word, rem_word, remu_word, branch,
  load_into, jump_relative, jump_register, retire,
}
use riscv_sbt.Interpreter.Chain.{Locals, locals}

module _ (handle : Context → Outcome Context) (l : Locals) (c : Context) where
  -- `case 0b0010011`
  unfoldable pub op_imm_cases : Outcome Context
  op_imm_cases =
      if l.funct3 == 0
      then ok (set_reg c l.rd (c.reg l.rs1 +w (i_fmt_imm l.word)))
      else if l.funct3 == 1
      then (if get_sh_type l.word == 0x00
          then ok (set_reg c l.rd (shl32 (c.reg l.rs1) (get_shift l.word)))
          else ok c)
      else if l.funct3 == 2
      then ok (set_reg c l.rd (of_bool (slt32 (c.reg l.rs1) (i_fmt_imm l.word))))
      else if l.funct3 == 3
      then ok (set_reg c l.rd (of_bool (ltb (c.reg l.rs1) (i_fmt_imm l.word))))
      else if l.funct3 == 4
      then ok (set_reg c l.rd (bit_xor (c.reg l.rs1) (i_fmt_imm l.word)))
      else if l.funct3 == 5
      then (if get_sh_type l.word == 0x00
          then ok (set_reg c l.rd (c.reg l.rs1 >>> (get_shift l.word)))
          else if get_sh_type l.word == 0x20
          then ok (set_reg c l.rd (sar32 (c.reg l.rs1) (get_shift l.word)))
          else ok c)
      else if l.funct3 == 6
      then ok (set_reg c l.rd (bit_or (c.reg l.rs1) (i_fmt_imm l.word)))
      else if l.funct3 == 7
      then ok (set_reg c l.rd (bit_and (c.reg l.rs1) (i_fmt_imm l.word)))
      else ok c

  -- `case 0b0110011`
  unfoldable pub op_cases : Outcome Context
  op_cases =
      if l.funct3 == 0
      then (if l.funct7 == 0x00
          then ok (set_reg c l.rd (c.reg l.rs1 +w c.reg l.rs2))
          else if l.funct7 == 0x20
          then ok (set_reg c l.rd (c.reg l.rs1 -w c.reg l.rs2))
          else if l.funct7 == 0x01
          then ok (set_reg c l.rd (mul_word (c.reg l.rs1) (c.reg l.rs2)))
          else ok c)
      else if l.funct3 == 1
      then (if l.funct7 == 0x00
          then ok (set_reg c l.rd (shl32 (c.reg l.rs1) (bit_and (c.reg l.rs2) 0x1f)))
          else if l.funct7 == 0x01
          then ok (set_reg c l.rd (mulh_word (c.reg l.rs1) (c.reg l.rs2)))
          else ok c)
      else if l.funct3 == 2
      then (if l.funct7 == 0x00
          then ok (set_reg c l.rd (of_bool (slt32 (c.reg l.rs1) (c.reg l.rs2))))
          else if l.funct7 == 0x01
          then ok (set_reg c l.rd (mulhsu_word (c.reg l.rs1) (c.reg l.rs2)))
          else ok c)
      else if l.funct3 == 3
      then (if l.funct7 == 0x00
          then ok (set_reg c l.rd (of_bool (ltb (c.reg l.rs1) (c.reg l.rs2))))
          else if l.funct7 == 0x01
          then ok (set_reg c l.rd (mulhu_word (c.reg l.rs1) (c.reg l.rs2)))
          else ok c)
      else if l.funct3 == 4
      then (if l.funct7 == 0x00
          then ok (set_reg c l.rd (bit_xor (c.reg l.rs1) (c.reg l.rs2)))
          else if l.funct7 == 0x01
          then ok (set_reg c l.rd (div_word (c.reg l.rs1) (c.reg l.rs2)))
          else ok c)
      else if l.funct3 == 5
      then (if l.funct7 == 0x00
          then ok (set_reg c l.rd (c.reg l.rs1 >>> bit_and (c.reg l.rs2) 0x1f))
          else if l.funct7 == 0x20
          then ok (set_reg c l.rd (sar32 (c.reg l.rs1) (u8 (bit_and (c.reg l.rs2) 0x1f))))
          else if l.funct7 == 0x01
          then ok (set_reg c l.rd (divu_word (c.reg l.rs1) (c.reg l.rs2)))
          else ok c)
      else if l.funct3 == 6
      then (if l.funct7 == 0x00
          then ok (set_reg c l.rd (bit_or (c.reg l.rs1) (c.reg l.rs2)))
          else if l.funct7 == 0x01
          then ok (set_reg c l.rd (rem_word (c.reg l.rs1) (c.reg l.rs2)))
          else ok c)
      else if l.funct3 == 7
      then (if l.funct7 == 0x00
          then ok (set_reg c l.rd (bit_and (c.reg l.rs1) (c.reg l.rs2)))
          else if l.funct7 == 0x01
          then ok (set_reg c l.rd (remu_word (c.reg l.rs1) (c.reg l.rs2)))
          else ok c)
      else ok c

  -- `case 0b0000011`
  unfoldable pub load_cases : Outcome Context
  load_cases =
      if l.funct3 == 0
      then load_into 1 sext8 c l.rd (c.reg l.rs1 +w (i_fmt_imm l.word))
      else if l.funct3 == 1
      then load_into 2 sext16 c l.rd (c.reg l.rs1 +w (i_fmt_imm l.word))
      else if l.funct3 == 2
      then load_into 4 (λ v. v) c l.rd (c.reg l.rs1 +w (i_fmt_imm l.word))
      else if l.funct3 == 4
      then load_into 1 (λ v. v) c l.rd (c.reg l.rs1 +w (i_fmt_imm l.word))
      else if l.funct3 == 5
      then load_into 2 (λ v. v) c l.rd (c.reg l.rs1 +w (i_fmt_imm l.word))
      else ok c

  -- `case 0b0100011`
  unfoldable pub store_cases : Outcome Context
  store_cases =
      if l.funct3 == 0
      then store 1 c (c.reg l.rs1 +w (s_fmt_imm l.word)) (c.reg l.rs2)
      else if l.funct3 == 1
      then store 2 c (c.reg l.rs1 +w (s_fmt_imm l.word)) (c.reg l.rs2)
      else if l.funct3 == 2
      then store 4 c (c.reg l.rs1 +w (s_fmt_imm l.word)) (c.reg l.rs2)
      else ok c

  -- `case 0b1100011`
  unfoldable pub branch_cases : Outcome Context
  branch_cases =
      if l.funct3 == 0
      then ok (branch c (c.reg l.rs1 == c.reg l.rs2) (b_fmt_imm l.word))
      else if l.funct3 == 1
      then ok (branch c (not (c.reg l.rs1 == c.reg l.rs2)) (b_fmt_imm l.word))
      else if l.funct3 == 4
      then ok (branch c (slt32 (c.reg l.rs1) (c.reg l.rs2)) (b_fmt_imm l.word))
      else if l.funct3 == 5
      then ok (branch c (not (slt32 (c.reg l.rs1) (c.reg l.rs2))) (b_fmt_imm l.word))
      else if l.funct3 == 6
      then ok (branch c (ltb (c.reg l.rs1) (c.reg l.rs2)) (b_fmt_imm l.word))
      else if l.funct3 == 7
      then ok (branch c (leb (c.reg l.rs2) (c.reg l.rs1)) (b_fmt_imm l.word))
      else ok c

  -- `case 0b0110111`
  unfoldable pub lui_case : Outcome Context
  lui_case = ok (set_reg c l.rd (shl32 (u_fmt_imm l.word) 12))

  -- `case 0b1100111`, whose `break` stands inside the `if`
  unfoldable pub jalr_case : Outcome Context
  unfolding lui_case
  jalr_case = if l.funct3 == 0 then ok (jump_register c l.rd l.rs1 (i_fmt_imm l.word)) else lui_case

  -- `case 0b1110011`
  unfoldable pub system_case : Outcome Context
  system_case = if l.funct3 == 0 && i_fmt_imm l.word == 0x0 then handle c else ok c

  -- `case 0b0101111`
  unfoldable pub atomic_cases : Outcome Context
  atomic_cases =
      if l.funct3 == 2
      then (if get_funct5 l.word == 0x02
          then load_into 4 (λ v. v) c l.rd (c.reg l.rs1)
          else if get_funct5 l.word == 0x03
          then (do s ← store 4 c (c.reg l.rs1) (c.reg l.rs2); ok (set_reg s l.rd 0))
          else ok c)
      else ok c

  -- the outer `switch`
  unfoldable pub cases : Outcome Context
  unfolding op_imm_cases op_cases load_cases store_cases branch_cases jalr_case lui_case system_case
      atomic_cases
  cases =
      if l.op == 0b0010011
      then op_imm_cases
      else if l.op == 0b0110011
      then op_cases
      else if l.op == 0b0000011
      then load_cases
      else if l.op == 0b0100011
      then store_cases
      else if l.op == 0b1100011
      then branch_cases
      else if l.op == 0b1101111
      then ok (jump_relative c l.rd (j_fmt_imm l.word))
      else if l.op == 0b1100111
      then jalr_case
      else if l.op == 0b0110111
      then lui_case
      else if l.op == 0b0010111
      then ok (set_reg c l.rd (c.pc +w shl32 (u_fmt_imm l.word) 12))
      else if l.op == 0b1110011
      then system_case
      else if l.op == 0b0101111
      then atomic_cases
      else ok (print_unsupported c)

unfoldable pub run_instruction_switch_word :
    (Context → Outcome Context) → Context → ℕ → Outcome Context
unfolding cases locals retire
run_instruction_switch_word handle ctx w = do c ← cases handle (locals w) ctx; ok (retire c)

unfoldable pub run_instruction_switch : (Context → Outcome Context) → Context → Outcome Context
run_instruction_switch handle ctx = do
  w ← load 4 ctx ctx.pc
  run_instruction_switch_word handle ctx w
