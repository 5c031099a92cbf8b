-- ===== src/Interpreter/Chain.antt =====
-- `Interpreter::runInstruction`: the chain of `if`s over the word. Each group of arms takes the
-- rest of the chain as its last argument.
use Prim.Native.Nat.{ℕ, bit_and, bit_or, bit_xor}
use mathlib.Core.Bool.{not, ◌&&◌}
use riscv_sbt.Base.{ltb, leb, ◌==◌, if◌then◌else◌}
use riscv_sbt.Base.Word.{u8, ◌>>>◌, ◌+w◌, ◌-w◌, shl32, sar32, slt32, of_bool, sext8, sext16}
use riscv_sbt.Base.Outcome.{Outcome, ok, ◌>>=◌}
use riscv_sbt.Runtime.Context.{Context, set_reg, print_unsupported, store, load}
use riscv_sbt.Decoder.Fields.{
  get_funct3, get_funct5, get_funct7, get_opcode, get_rs1, get_rs2, get_rd, i_fmt_imm, s_fmt_imm,
  b_fmt_imm, j_fmt_imm, u_fmt_imm, get_shift, get_sh_type,
}
use riscv_sbt.Interpreter.Arms.{
  mul_word, mulh_word, mulhsu_word, mulhu_word, div_word, divu_word, rem_word, remu_word, branch,
  load_into, jump_relative, jump_register, retire,
}

-- the locals that every dispatcher on the word itself starts with
pub record Locals : Type 0 where
  pub word : ℕ
  pub op : ℕ
  pub funct3 : ℕ
  pub funct7 : ℕ
  pub rs1 : ℕ
  pub rs2 : ℕ
  pub rd : ℕ

unfoldable pub locals : ℕ → Locals
locals w = record {
  word = w;
  op = get_opcode w;
  funct3 = get_funct3 w;
  funct7 = get_funct7 w;
  rs1 = get_rs1 w;
  rs2 = get_rs2 w;
  rd = get_rd w;
}

-- `handle` stands for `Syscall::handle`.
module _ (handle : Context → Outcome Context) (l : Locals) (c : Context) where
  -- the immediate operations, from `addi` to `sltiu`
  unfoldable pub op_imm_arms : Outcome Context → Outcome Context
  op_imm_arms rest =
      if l.op == 0b0010011 && l.funct3 == 0
      then ok (set_reg c l.rd (c.reg l.rs1 +w (i_fmt_imm l.word)))
      else if l.op == 0b0010011 && l.funct3 == 4
      then ok (set_reg c l.rd (bit_xor (c.reg l.rs1) (i_fmt_imm l.word)))
      else if l.op == 0b0010011 && l.funct3 == 6
      then ok (set_reg c l.rd (bit_or (c.reg l.rs1) (i_fmt_imm l.word)))
      else if l.op == 0b0010011 && l.funct3 == 7
      then ok (set_reg c l.rd (bit_and (c.reg l.rs1) (i_fmt_imm l.word)))
      else if l.op == 0b0010011 && l.funct3 == 1 && get_sh_type l.word == 0x00
      then ok (set_reg c l.rd (shl32 (c.reg l.rs1) (get_shift l.word)))
      else if l.op == 0b0010011 && l.funct3 == 5 && get_sh_type l.word == 0x00
      then ok (set_reg c l.rd (c.reg l.rs1 >>> (get_shift l.word)))
      else if l.op == 0b0010011 && l.funct3 == 5 && get_sh_type l.word == 0x20
      then ok (set_reg c l.rd (sar32 (c.reg l.rs1) (get_shift l.word)))
      else if l.op == 0b0010011 && l.funct3 == 2
      then ok (set_reg c l.rd (of_bool (slt32 (c.reg l.rs1) (i_fmt_imm l.word))))
      else if l.op == 0b0010011 && l.funct3 == 3
      then ok (set_reg c l.rd (of_bool (ltb (c.reg l.rs1) (i_fmt_imm l.word))))
      else rest

  -- the register operations, from `add` to `sltu`
  unfoldable pub op_arms : Outcome Context → Outcome Context
  op_arms rest =
      if l.op == 0b0110011 && l.funct3 == 0 && l.funct7 == 0x00
      then ok (set_reg c l.rd (c.reg l.rs1 +w c.reg l.rs2))
      else if l.op == 0b0110011 && l.funct3 == 0 && l.funct7 == 0x20
      then ok (set_reg c l.rd (c.reg l.rs1 -w c.reg l.rs2))
      else if l.op == 0b0110011 && l.funct3 == 4 && l.funct7 == 0x00
      then ok (set_reg c l.rd (bit_xor (c.reg l.rs1) (c.reg l.rs2)))
      else if l.op == 0b0110011 && l.funct3 == 6 && l.funct7 == 0x00
      then ok (set_reg c l.rd (bit_or (c.reg l.rs1) (c.reg l.rs2)))
      else if l.op == 0b0110011 && l.funct3 == 7 && l.funct7 == 0x00
      then ok (set_reg c l.rd (bit_and (c.reg l.rs1) (c.reg l.rs2)))
      else if l.op == 0b0110011 && l.funct3 == 1 && l.funct7 == 0x00
      then ok (set_reg c l.rd (shl32 (c.reg l.rs1) (bit_and (c.reg l.rs2) 0x1f)))
      else if l.op == 0b0110011 && l.funct3 == 5 && l.funct7 == 0x00
      then ok (set_reg c l.rd (c.reg l.rs1 >>> bit_and (c.reg l.rs2) 0x1f))
      else if l.op == 0b0110011 && l.funct3 == 5 && l.funct7 == 0x20
      then ok (set_reg c l.rd (sar32 (c.reg l.rs1) (u8 (bit_and (c.reg l.rs2) 0x1f))))
      else if l.op == 0b0110011 && l.funct3 == 2 && l.funct7 == 0x00
      then ok (set_reg c l.rd (of_bool (slt32 (c.reg l.rs1) (c.reg l.rs2))))
      else if l.op == 0b0110011 && l.funct3 == 3 && l.funct7 == 0x00
      then ok (set_reg c l.rd (of_bool (ltb (c.reg l.rs1) (c.reg l.rs2))))
      else rest

  -- the loads
  unfoldable pub load_arms : Outcome Context → Outcome Context
  load_arms rest =
      if l.op == 0b0000011 && l.funct3 == 0
      then load_into 1 sext8 c l.rd (c.reg l.rs1 +w (i_fmt_imm l.word))
      else if l.op == 0b0000011 && l.funct3 == 4
      then load_into 1 (λ v. v) c l.rd (c.reg l.rs1 +w (i_fmt_imm l.word))
      else if l.op == 0b0000011 && l.funct3 == 1
      then load_into 2 sext16 c l.rd (c.reg l.rs1 +w (i_fmt_imm l.word))
      else if l.op == 0b0000011 && l.funct3 == 5
      then load_into 2 (λ v. v) c l.rd (c.reg l.rs1 +w (i_fmt_imm l.word))
      else if l.op == 0b0000011 && l.funct3 == 2
      then load_into 4 (λ v. v) c l.rd (c.reg l.rs1 +w (i_fmt_imm l.word))
      else rest

  -- the stores
  unfoldable pub store_arms : Outcome Context → Outcome Context
  store_arms rest =
      if l.op == 0b0100011 && l.funct3 == 0
      then store 1 c (c.reg l.rs1 +w (s_fmt_imm l.word)) (c.reg l.rs2)
      else if l.op == 0b0100011 && l.funct3 == 1
      then store 2 c (c.reg l.rs1 +w (s_fmt_imm l.word)) (c.reg l.rs2)
      else if l.op == 0b0100011 && l.funct3 == 2
      then store 4 c (c.reg l.rs1 +w (s_fmt_imm l.word)) (c.reg l.rs2)
      else rest

  -- the conditional branches
  unfoldable pub branch_arms : Outcome Context → Outcome Context
  branch_arms rest =
      if l.op == 0b1100011 && l.funct3 == 0
      then ok (branch c (c.reg l.rs1 == c.reg l.rs2) (b_fmt_imm l.word))
      else if l.op == 0b1100011 && l.funct3 == 1
      then ok (branch c (not (c.reg l.rs1 == c.reg l.rs2)) (b_fmt_imm l.word))
      else if l.op == 0b1100011 && l.funct3 == 4
      then ok (branch c (slt32 (c.reg l.rs1) (c.reg l.rs2)) (b_fmt_imm l.word))
      else if l.op == 0b1100011 && l.funct3 == 5
      then ok (branch c (not (slt32 (c.reg l.rs1) (c.reg l.rs2))) (b_fmt_imm l.word))
      else if l.op == 0b1100011 && l.funct3 == 6
      then ok (branch c (ltb (c.reg l.rs1) (c.reg l.rs2)) (b_fmt_imm l.word))
      else if l.op == 0b1100011 && l.funct3 == 7
      then ok (branch c (leb (c.reg l.rs2) (c.reg l.rs1)) (b_fmt_imm l.word))
      else rest

  -- the jumps, the upper immediates and `ecall`
  unfoldable pub jump_arms : Outcome Context → Outcome Context
  jump_arms rest =
      if l.op == 0b1101111
      then ok (jump_relative c l.rd (j_fmt_imm l.word))
      else if l.op == 0b1100111 && l.funct3 == 0
      then ok (jump_register c l.rd l.rs1 (i_fmt_imm l.word))
      else if l.op == 0b0110111
      then ok (set_reg c l.rd (shl32 (u_fmt_imm l.word) 12))
      else if l.op == 0b0010111
      then ok (set_reg c l.rd (c.pc +w shl32 (u_fmt_imm l.word) 12))
      else if l.op == 0b1110011 && i_fmt_imm l.word == 0x0
      then handle c
      else rest

  -- RV32M
  unfoldable pub muldiv_arms : Outcome Context → Outcome Context
  muldiv_arms rest =
      if l.op == 0b0110011 && l.funct3 == 0 && l.funct7 == 0x01
      then ok (set_reg c l.rd (mul_word (c.reg l.rs1) (c.reg l.rs2)))
      else if l.op == 0b0110011 && l.funct3 == 1 && l.funct7 == 0x01
      then ok (set_reg c l.rd (mulh_word (c.reg l.rs1) (c.reg l.rs2)))
      else if l.op == 0b0110011 && l.funct3 == 2 && l.funct7 == 0x01
      then ok (set_reg c l.rd (mulhsu_word (c.reg l.rs1) (c.reg l.rs2)))
      else if l.op == 0b0110011 && l.funct3 == 3 && l.funct7 == 0x01
      then ok (set_reg c l.rd (mulhu_word (c.reg l.rs1) (c.reg l.rs2)))
      else if l.op == 0b0110011 && l.funct3 == 4 && l.funct7 == 0x01
      then ok (set_reg c l.rd (div_word (c.reg l.rs1) (c.reg l.rs2)))
      else if l.op == 0b0110011 && l.funct3 == 5 && l.funct7 == 0x01
      then ok (set_reg c l.rd (divu_word (c.reg l.rs1) (c.reg l.rs2)))
      else if l.op == 0b0110011 && l.funct3 == 6 && l.funct7 == 0x01
      then ok (set_reg c l.rd (rem_word (c.reg l.rs1) (c.reg l.rs2)))
      else if l.op == 0b0110011 && l.funct3 == 7 && l.funct7 == 0x01
      then ok (set_reg c l.rd (remu_word (c.reg l.rs1) (c.reg l.rs2)))
      else rest

  -- RV32A
  unfoldable pub atomic_arms : Outcome Context → Outcome Context
  atomic_arms rest =
      if l.op == 0b0101111 && l.funct3 == 2 && get_funct5 l.word == 0x02
      then load_into 4 (λ v. v) c l.rd (c.reg l.rs1)
      else if l.op == 0b0101111 && l.funct3 == 2 && get_funct5 l.word == 0x03
      then (do s ← store 4 c (c.reg l.rs1) (c.reg l.rs2); ok (set_reg s l.rd 0))
      else rest

  unfoldable pub chain : Outcome Context
  unfolding op_imm_arms op_arms load_arms store_arms branch_arms jump_arms muldiv_arms atomic_arms
  chain = op_imm_arms (
      op_arms (
        load_arms (
          store_arms
            (branch_arms (jump_arms (muldiv_arms (atomic_arms (ok (print_unsupported c)))))))))

unfoldable pub run_instruction_word : (Context → Outcome Context) → Context → ℕ → Outcome Context
unfolding chain locals retire
run_instruction_word handle ctx w = do c ← chain handle (locals w) ctx; ok (retire c)

-- Fetch the instruction at pc from memory, decode and execute it.
unfoldable pub run_instruction : (Context → Outcome Context) → Context → Outcome Context
run_instruction handle ctx = do w ← load 4 ctx ctx.pc; run_instruction_word handle ctx w
