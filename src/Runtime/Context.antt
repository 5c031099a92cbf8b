-- ===== src/Runtime/Context.antt =====
-- lib/runtime/Context.h: the registers, the program counter and the memory of the guest.
use Prim.Native.Nat.{ℕ}
use mathlib.Core.List.{List, ◌∷◌}
use riscv_sbt.Base.Outcome.{Outcome, ok, ◌>>=◌}
use riscv_sbt.Runtime.Memory.{Memory, update, read, write}

-- `unsupported` is what the interpreter has printed: the value of `pc` in each line "Unsupported
-- … at", latest first. A register's index is below 32 since it is a field of five bits.
pub record Context : Type 0 where
  pub reg : ℕ → ℕ
  pub pc : ℕ
  pub memory : Memory
  pub unsupported : List ℕ

-- `ctx.reg[rd] = v`
unfoldable pub set_reg : Context → ℕ → ℕ → Context
set_reg ctx rd v = record ctx { reg = update ctx.reg rd v }

-- `ctx.pc = v`
unfoldable pub set_pc : Context → ℕ → Context
set_pc ctx v = record ctx { pc = v }

-- `printf("Unsupported instruction at 0x%08x\n", ctx.pc)`, and the same with `base opcode`; the
-- address is kept, the wording is not.
unfoldable pub print_unsupported : Context → Context
print_unsupported ctx = record ctx { unsupported = ctx.pc ∷ ctx.unsupported }

-- `ctx.memory.write<T>(address, value)`
unfoldable pub store : ℕ → Context → ℕ → ℕ → Outcome Context
store n ctx address value = do m ← write n ctx.memory address value; ok (record ctx { memory = m })

-- `ctx.memory.read<T>(address)`
unfoldable pub load : ℕ → Context → ℕ → Outcome ℕ
load n ctx address = read n ctx.memory address
