-- ===== src/Tests/Emitting.antt =====
-- What is emitted for an addition of a known register, and for a jump through a register.
use Prim.Native.Nat.{ℕ}
use mathlib.Core.Path.{◌≡◌, refl}
use mathlib.Core.Bool.{Bool, true, false}
use mathlib.Core.List.{[], ◌∷◌}
use native.Mathlib.Omega.{arith}
use riscv_sbt.Base.{◌==◌, if◌then◌else◌}
use riscv_sbt.Base.Outcome.{Outcome, ok}
use riscv_sbt.Decoder.Instructions.{EInstruction, Instruction}
use riscv_sbt.Runtime.Context.{Context, set_reg}
use riscv_sbt.Interpreter.Predecoded.{execute}
use riscv_sbt.Interpreter.Valid.{FitsWords}
use riscv_sbt.Sbt.Emit.Syntax.{pinned, in_context, literal, assign, binary, add_op, value}
use riscv_sbt.Sbt.Emit.Emitter.{
  TranslationOptions, Tracked, contains, has_host_register, emit_op, emit_to, host_operand,
  target_operand, source_operand,
}
use riscv_sbt.Sbt.Emit.Instructions.{emit_instruction, emit_body}
use riscv_sbt.Sbt.Emit.Machine.{Machine, exec}
use riscv_sbt.Sbt.Simulate.Assign.{IsAt, Follows}
use riscv_sbt.Sbt.Simulate.System.{IsHandler}
use riscv_sbt.Sbt.Simulate.Instructions.{emit_instruction-Follows}
use riscv_sbt.Tests.Machine.{start, start-FitsWords}

abbrev pub options : TranslationOptions
options = record {
  profile_indirect = false;
  translation_chaining = true;
  use_profiling_data = false;
  software_branch_prediction = true;
  pin_registers = true;
}

-- a system call answers its number
abbrev pub answer : Context → Outcome Context
answer c = ok (set_reg c 10 (c.reg 17))

abbrev pub answer_number : ℕ → Context → Outcome Context
answer_number n c = ok (set_reg c 10 n)

pub answer-IsHandler : IsHandler answer answer_number
answer-IsHandler = record {
  same_number = λ c. refl;
  any_pc = λ c p. unfold set_reg in refl;
  keeps = λ c.
      unfold set_reg in
      record { pc = refl; unsupported = refl; reg = λ r other. ground (arith, other) };
}

-- x11 holds 7
abbrev guest : Context
guest = record start { reg = λ r. if r == 11 then 7 else 0 }

-- The pinned registers are stale in the context.
abbrev machine : Machine
machine = record {
  ctx = record guest { pc = 100 };
  pins = guest.reg;
  address = 0;
  dispatch_index = 0;
}

-- the emitter has it that x11 holds 7
abbrev tracked : Tracked
tracked = record { known = λ r. r == 11; values = λ r. 7 }

guest-FitsWords : FitsWords guest
guest-FitsWords = record {
  regs = λ r. ground arith;
  pc = start-FitsWords.pc;
  bytes = start-FitsWords.bytes;
  heap_end = start-FitsWords.heap_end;
}

pub same_or : (b : Bool) (x : ℕ) → (if b then x else x) ≡ x
same_or true x = refl
same_or false x = refl

machine-IsAt : IsAt options tracked guest machine
machine-IsAt = record {
  rep = record {
    regs = λ r. same_or (has_host_register r) (guest.reg r);
    memory = refl;
    unsupported = refl;
  };
  tracked = λ r other known. ground (arith, known);
  zeroed = refl;
  words = guest-FitsWords;
}

-- add x12, x11, x5 at 0
abbrev add_at_0 : Instruction
add_at_0 = record {
  type = EInstruction.add;
  instruction = 0;
  immediate = 0;
  address = 0;
  rs1 = 11;
  rs2 = 5;
  rd = 12;
}

add_text :
    (emit_instruction options [] [] 0 tracked add_at_0).0
    ≡ assign (pinned 12) (binary add_op (value (literal 7)) (value (in_context 5))) ∷ []
unfolding emit_instruction emit_body emit_op emit_to host_operand target_operand source_operand
    has_host_register contains
add_text = refl

emit_instruction-Follows_example :
    Follows options 0 0
      (execute EInstruction.add answer add_at_0 guest)
      (exec answer answer_number 0
        (emit_instruction options [] (8 ∷ []) 0 tracked add_at_0).0
        machine)
      (emit_instruction options [] (8 ∷ []) 0 tracked add_at_0).1
emit_instruction-Follows_example =
    emit_instruction-Follows answer answer_number answer-IsHandler [] (8 ∷ []) 0 options tracked
      guest machine add_at_0 machine-IsAt refl (omega arith) tt
