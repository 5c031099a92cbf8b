-- ===== src/Interpreter/Jumps.antt =====
-- Where control goes next. Every arm that sets pc takes off the 4 that the end of the instruction
-- adds again.
use Prim.Native.Nat.{ℕ, zero, suc, ◌+◌, ◌/◌, ◌%◌, ◌^◌, ◌≤◌}
use mathlib.Core.Path.{◌≡◌, refl}
use mathlib.Core.List.{List, [], ◌∷◌}
use native.Mathlib.Omega.{arith}
use riscv_sbt.Base.{Bool, ◌==◌, if◌then◌else◌, length, get_elem?, none}
use riscv_sbt.Base.Word.{IsU32, ◌+w◌, ◌-w◌}
use riscv_sbt.Base.Outcome.{Outcome, ok, fault}
use riscv_sbt.Decoder.Instructions.{Instruction}
use riscv_sbt.Runtime.Context.{Context, set_reg, set_pc}
use riscv_sbt.Interpreter.Arms.{branch, jump_relative, jump_register, retire}
use riscv_sbt.Interpreter.Threaded.{slot, run_instructions_threaded, predecoded_rounds}
use riscv_sbt.Interpreter.Agree.Threaded.{checked, run_instructions_threaded-predecoded}

module _ (c : Context) (imm : ℕ) (h : IsU32 imm) (hpc : IsU32 c.pc) where
  -- After a conditional branch pc is the branch's address plus the offset if it is taken and plus 4
  -- if not; after JAL it is the address plus the offset; both modulo 2 ^ 32.
  pub relative_targets :
      (taken : Bool) (rd : ℕ)
      → ((retire (branch c taken imm)).pc ≡ (c.pc + (if taken then imm else 4)) % 2 ^ 32)
        × ((retire (jump_relative c rd imm)).pc ≡ (c.pc + imm) % 2 ^ 32)
  unfolding branch jump_relative retire set_reg set_pc ◌+w◌ ◌-w◌
  relative_targets taken rd = (ground arith, omega arith)

  -- After JALR pc is the immediate plus the base register modulo 2 ^ 32 only if the base is not
  -- the link register too: then it is the immediate plus the return address, whatever the register
  -- held. The lowest bit is kept.
  pub jump_register_target :
      (rd rs1 : ℕ)
      → IsU32 (c.reg rs1)
      → (retire (jump_register c rd rs1 imm)).pc
        ≡ (imm + (if rs1 == rd then c.pc + 4 else c.reg rs1)) % 2 ^ 32
  unfolding jump_register retire set_reg set_pc ◌+w◌ ◌-w◌
  jump_register_target rd rs1 hr = ground arith

  -- After a conditional branch pc is the branch's address plus the offset if it is taken and plus 4
  -- if not; after JAL it is the address plus the offset; after JALR it is the immediate plus the base
  -- register, but plus the return address where the base is the link register too, and the lowest
  -- bit is kept. All of it is modulo 2 ^ 32.
  pub control_targets :
      (taken : Bool) (rd rs1 : ℕ)
      → IsU32 (c.reg rs1)
      → ((retire (branch c taken imm)).pc ≡ (c.pc + (if taken then imm else 4)) % 2 ^ 32)
        × ((retire (jump_relative c rd imm)).pc ≡ (c.pc + imm) % 2 ^ 32)
        × ((retire (jump_register c rd rs1 imm)).pc
            ≡ (imm + (if rs1 == rd then c.pc + 4 else c.reg rs1)) % 2 ^ 32)
  control_targets taken rd rs1 hr =
      let (taken_pc, relative_pc) = relative_targets taken rd in
      (taken_pc, relative_pc, jump_register_target rd rs1 hr)

get_elem?_past : (is : List Instruction) (n : ℕ) → length is ≤ n → get_elem? is n ≡ none
get_elem?_past [] n h = refl
get_elem?_past (i ∷ is) zero h = absurd (omega arith)
get_elem?_past (i ∷ is) (suc n) h = get_elem?_past is n (omega arith)

slot_past :
    (is : List Instruction) (start pc : ℕ)
    → length is ≤ (pc -w start) / 4
    → slot is start pc ≡ fault
unfolding slot
slot_past is start pc h = rw (get_elem?_past is ((pc -w start) / 4) h, slot)

-- The threaded interpreter looks up the slot of the next instruction before anything tests pc: when
-- the program comes to an address past the vector, such as the BASE_RA to which a program without
-- `exit` returns, it reads out of bounds.
pub threaded_past_end :
    (handle : Context → Outcome Context) (is : List Instruction) (start count : ℕ) (c c' : Context)
    → predecoded_rounds handle is start count c ≡ ok c'
    → length is ≤ (c'.pc -w start) / 4
    → run_instructions_threaded handle is start count c ≡ fault
unfolding checked
threaded_past_end handle is start count c c' ran past = rw (
  run_instructions_threaded-predecoded handle is start count c,
  ran,
  checked,
  slot_past is start c'.pc past,
)
