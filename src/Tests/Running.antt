-- ===== src/Tests/Running.antt =====
-- A translated program of three instructions, the last of which only the fallback runs, to its end.
use Prim.Native.Nat.{ℕ, zero, suc, ◌-◌}
use mathlib.Core.Path.{◌≡◌, refl, sym, subst, ◌∙◌}
use mathlib.Core.List.{List, [], ◌∷◌}
use native.Mathlib.Omega.{arith}
use riscv_sbt.Base.{ltb, if◌then◌else◌}
use riscv_sbt.Base.Word.{◌+w◌, ◌-w◌}
use riscv_sbt.Base.Outcome.{ok, fault}
use riscv_sbt.Decoder.Instructions.{EInstruction, Instruction}
use riscv_sbt.Runtime.Context.{Context, set_reg, set_pc}
use riscv_sbt.Interpreter.Arms.{jump_register, retire}
use riscv_sbt.Interpreter.Predecoded.{execute, run_instruction_predecoded}
use riscv_sbt.Interpreter.Threaded.{slot, predecoded_rounds}
use riscv_sbt.Interpreter.Valid.{FitsWords}
use riscv_sbt.Sbt.Emit.Machine.{Machine}
use riscv_sbt.Tests.Emitting.{answer}
use riscv_sbt.Tests.Machine.{text_byte, memory}

-- addi x11, x0, 8; jalr x0, 0(x11); addi x12, x0, 1
abbrev pub addi_word : ℕ
addi_word = 0x0080_0593

abbrev pub jalr_word : ℕ
jalr_word = 0x0005_8067

abbrev pub last_word : ℕ
last_word = 0x0010_0613

abbrev pub addi_at_0 : Instruction
addi_at_0 = record {
  type = EInstruction.addi;
  instruction = addi_word;
  immediate = 8;
  address = 0;
  rs1 = 0;
  rs2 = 8;
  rd = 11;
}

abbrev pub jalr_at_4 : Instruction
jalr_at_4 = record {
  type = EInstruction.jalr;
  instruction = jalr_word;
  immediate = 0;
  address = 4;
  rs1 = 11;
  rs2 = 0;
  rd = 0;
}

abbrev pub addi_at_8 : Instruction
addi_at_8 = record {
  type = EInstruction.addi;
  instruction = last_word;
  immediate = 1;
  address = 8;
  rs1 = 0;
  rs2 = 1;
  rd = 12;
}

abbrev pub text : List Instruction
text = addi_at_0 ∷ jalr_at_4 ∷ addi_at_8 ∷ []

-- The jump to 8 is not expected: its instruction is no leader.
abbrev pub leaders : List ℕ
leaders = 0 ∷ []

abbrev text_bytes : ℕ → ℕ
text_bytes a =
    if ltb a 4
    then text_byte addi_word a
    else if ltb a 8
    then text_byte jalr_word (a - 4)
    else if ltb a 12
    then text_byte last_word (a - 8)
    else 0

abbrev pub start : Context
start = record {
  reg = λ r. 0;
  pc = 0;
  memory = record memory { bytes = text_bytes };
  unsupported = [];
}

pub start-FitsWords : FitsWords start
start-FitsWords = record {
  regs = λ r. omega arith;
  pc = omega arith;
  bytes = λ a. ground arith;
  heap_end = omega arith;
}

abbrev pub machine : Machine
machine = record { ctx = start; pins = start.reg; address = 0; dispatch_index = 0 }

pub slot_0 : slot text 0 0 ≡ ok addi_at_0
unfolding slot ◌-w◌
slot_0 = refl

pub slot_4 : slot text 0 4 ≡ ok jalr_at_4
unfolding slot ◌-w◌
slot_4 = refl

pub slot_8 : slot text 0 8 ≡ ok addi_at_8
unfolding slot ◌-w◌
slot_8 = refl

pub slot_12 : slot text 0 12 ≡ fault
unfolding slot ◌-w◌
slot_12 = refl

-- the state after each of the instructions
abbrev pub second : Context
second = retire (set_reg start 11 8)

abbrev pub third : Context
third = retire (jump_register second 0 11 0)

abbrev pub fourth : Context
fourth = retire (set_reg third 12 1)

rounds_0 :
    (j : ℕ)
    → predecoded_rounds answer text 0 (suc j) start ≡ predecoded_rounds answer text 0 j second
unfolding predecoded_rounds run_instruction_predecoded execute slot ◌-w◌ ◌+w◌
rounds_0 j = refl

rounds_4 :
    (j : ℕ)
    → predecoded_rounds answer text 0 (suc j) second ≡ predecoded_rounds answer text 0 j third
unfolding predecoded_rounds run_instruction_predecoded execute slot retire set_reg set_pc ◌-w◌ ◌+w◌
rounds_4 j = refl

rounds_8 :
    (j : ℕ)
    → predecoded_rounds answer text 0 (suc j) third ≡ predecoded_rounds answer text 0 j fourth
unfolding predecoded_rounds run_instruction_predecoded execute slot jump_register retire set_reg
    set_pc ◌-w◌ ◌+w◌
rounds_8 j = refl

rounds_12 : (j : ℕ) → predecoded_rounds answer text 0 (suc j) fourth ≡ fault
unfolding predecoded_rounds run_instruction_predecoded execute slot jump_register retire set_reg
    set_pc ◌-w◌ ◌+w◌
rounds_12 j = refl

-- the states that the interpreter reaches
pub reached :
    (P : Context → Type 0)
    → P start
    → P second
    → P third
    → P fourth
    → (j : ℕ) (d : Context) → predecoded_rounds answer text 0 j start ≡ ok d
    → P d
unfolding predecoded_rounds
reached P a b c e zero d ran = let is : start ≡ d = cc in subst P is a
reached P a b c e (suc zero) d ran =
    let done : ok second ≡ ok d = sym (rounds_0 0) ∙ ran in let is : second ≡ d = cc in subst P is b
reached P a b c e (suc (suc zero)) d ran =
    let done : ok third ≡ ok d = sym (rounds_0 1 ∙ rounds_4 0) ∙ ran in
    let is : third ≡ d = cc in subst P is c
reached P a b c e (suc (suc (suc zero))) d ran =
    let done : ok fourth ≡ ok d = sym (rounds_0 2 ∙ rounds_4 1 ∙ rounds_8 0) ∙ ran in
    let is : fourth ≡ d = cc in subst P is e
reached P a b c e (suc (suc (suc (suc j)))) d ran =
    let done : fault ≡ ok d =
      sym (rounds_0 (suc (suc (suc j))) ∙ rounds_4 (suc (suc j)) ∙ rounds_8 (suc j) ∙ rounds_12 j)
      ∙ ran in
    absurd cc
