-- ===== src/Interpreter/Arms.antt =====
-- What the arms of the dispatchers in emulator/Interpreter.cpp have in common: the expressions of
-- the M extension, a taken branch, and the two lines at the end of every instruction.
use Prim.Native.Nat.{ℕ, ◌*◌, ◌/◌, ◌%◌, bit_and}
use mathlib.Core.Bool.{Bool, ◌&&◌}
use riscv_sbt.Base.{◌==◌, if◌then◌else◌}
use riscv_sbt.Base.Word.{u32, u64, ◌>>>◌, ◌+w◌, ◌-w◌, sext64, sar64, sdiv32, srem32}
use riscv_sbt.Base.Outcome.{Outcome, ok, ◌>>=◌}
use riscv_sbt.Runtime.Context.{Context, set_reg, set_pc, load}

unfoldable pub mul_word : ℕ → ℕ → ℕ
mul_word a b = bit_and (u64 (a * b)) 0xffff_ffff

unfoldable pub mulh_word : ℕ → ℕ → ℕ
mulh_word a b = u32 (sar64 (u64 (sext64 a * sext64 b)) 32)

unfoldable pub mulhsu_word : ℕ → ℕ → ℕ
mulhsu_word a b = u32 (u64 (sext64 a * b) >>> 32)

unfoldable pub mulhu_word : ℕ → ℕ → ℕ
mulhu_word a b = u32 (u64 (a * b) >>> 32)

unfoldable pub div_word : ℕ → ℕ → ℕ
div_word a b =
    if b == 0
    then 0xffff_ffff
    else if a == 0x8000_0000 && b == 0xffff_ffff
    then 0x8000_0000
    else sdiv32 a b

unfoldable pub divu_word : ℕ → ℕ → ℕ
divu_word a b = if b == 0 then 0xffff_ffff else a / b

unfoldable pub rem_word : ℕ → ℕ → ℕ
rem_word a b = if b == 0 then a else if a == 0x8000_0000 && b == 0xffff_ffff then 0 else srem32 a b

unfoldable pub remu_word : ℕ → ℕ → ℕ
remu_word a b = if b == 0 then a else a % b

-- `if (taken) { ctx.pc += imm - 4; }`
unfoldable pub branch : Context → Bool → ℕ → Context
branch ctx taken imm = if taken then set_pc ctx (ctx.pc +w (imm -w 4)) else ctx

-- `ctx.reg[rd] = convert(ctx.memory.read<T>(address))`
unfoldable pub load_into : ℕ → (ℕ → ℕ) → Context → ℕ → ℕ → Outcome Context
load_into n convert ctx rd address = do v ← load n ctx address; ok (set_reg ctx rd (convert v))

-- `ctx.reg[rd] = ctx.pc + 4; ctx.pc += imm - 4;`
unfoldable pub jump_relative : Context → ℕ → ℕ → Context
jump_relative ctx rd imm =
    let linked = set_reg ctx rd (ctx.pc +w 4) in set_pc linked (linked.pc +w (imm -w 4))

-- `ctx.reg[rd] = ctx.pc + 4; ctx.pc = imm + ctx.reg[rs1] - 4;`, where the register is read after
-- the link is written
unfoldable pub jump_register : Context → ℕ → ℕ → ℕ → Context
jump_register ctx rd rs1 imm =
    let linked = set_reg ctx rd (ctx.pc +w 4) in set_pc linked ((imm +w linked.reg rs1) -w 4)

-- `ctx.pc += 4; ctx.reg[x0] = 0;`
unfoldable pub retire : Context → Context
retire ctx = set_reg (set_pc ctx (ctx.pc +w 4)) 0 0
