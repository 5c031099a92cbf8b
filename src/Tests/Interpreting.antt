-- ===== src/Tests/Interpreting.antt =====
use Prim.Native.Nat.{ℕ, ◌+◌, ◌≤◌, ◌%◌, ◌^◌}
use mathlib.Core.Path.{◌≡◌, refl}
use mathlib.Core.List.{List, [], ◌∷◌}
use mathlib.Core.Logic.{◌↔◌}
use native.Mathlib.Omega.{arith}
use riscv_sbt.Base.{◌⊎◌, true}
use riscv_sbt.Base.Word.{◌+w◌, ◌-w◌, shl32, sar32}
use riscv_sbt.Base.Outcome.{Outcome, ok, fault, ◌>>=◌, Leaves, Leaves-of_all}
use riscv_sbt.Decoder.Instructions.{Instruction}
use riscv_sbt.Decoder.Fields.{
  get_opcode, get_funct3, get_rd, get_funct7, get_rs1, get_rs2, i_fmt_imm, j_fmt_imm,
}
use riscv_sbt.Decoder.Decode.{decode}
use riscv_sbt.Runtime.Memory.{Memory, read, write, load_bytes, store_bytes}
use riscv_sbt.Runtime.MemoryLaws.{reads-write}
use riscv_sbt.Runtime.Context.{Context, load, set_reg, set_pc}
use riscv_sbt.Interpreter.Arms.{retire, branch, jump_relative, jump_register}
use riscv_sbt.Interpreter.Jumps.{control_targets, threaded_past_end}
use riscv_sbt.Interpreter.Chain.{run_instruction_word, run_instruction}
use riscv_sbt.Interpreter.Switch.{run_instruction_switch_word}
use riscv_sbt.Interpreter.Predecoded.{run_instruction_predecoded}
use riscv_sbt.Interpreter.Threaded.{
  slot, label_arm, dispatch, threaded_from, run_instructions_threaded, predecoded_rounds,
}
use riscv_sbt.Interpreter.Valid.{IsValid, run_instruction_predecoded-IsValid}
use riscv_sbt.Interpreter.Agree.Word.{run_instruction_word-predecoded}
use riscv_sbt.Interpreter.Agree.SwitchOps.{is_executable}
use riscv_sbt.Interpreter.Agree.Switch.{run_instruction_switch_word-chain, jalr_agrees_iff}
use riscv_sbt.Interpreter.Agree.Threaded.{checked, run_instructions_threaded-predecoded}
use riscv_sbt.Interpreter.Agree.Fetch.{fetched_rounds, predecoded_rounds-fetched}
use riscv_sbt.Tests.Machine.{
  program, addi_word, sub_word, jal_word, start, stop, memory, start-FitsWords,
}

abbrev slots : List Instruction
slots = decode addi_word 0 ∷ decode sub_word 4 ∷ decode jal_word 8 ∷ []

abbrev left : Outcome Context → Context
left (ok c) = c
left _ = start

-- three instructions, the last of which jumps back to the first
three_rounds :
    let c = left (run_instructions_threaded stop slots 0 3 start) in
    (c.reg 5 ≡ 7) × (c.reg 6 ≡ 0xffff_fff9) × (c.reg 1 ≡ 12) × (c.pc ≡ 0)
unfolding run_instructions_threaded threaded_from slot decode get_opcode get_funct3 get_funct7
    get_rd get_rs1 get_rs2 i_fmt_imm j_fmt_imm ◌+w◌ ◌-w◌ sar32 shl32 label_arm dispatch retire
    set_reg set_pc jump_relative
three_rounds = (refl, refl, refl, refl)

run_instruction_word-predecoded_example :
    run_instruction_word stop start sub_word
    ≡ run_instruction_predecoded stop start (decode sub_word 4)
run_instruction_word-predecoded_example =
    run_instruction_word-predecoded stop start sub_word 4 (omega arith)

run_instruction_switch_word-chain_example :
    run_instruction_switch_word stop start sub_word ≡ run_instruction_word stop start sub_word
unfolding is_executable decode get_opcode get_funct3 get_funct7
run_instruction_switch_word-chain_example =
    run_instruction_switch_word-chain stop start sub_word 4 (omega arith) refl (λ e. cc)

-- `jalr` with funct3 = 1
jalr_agrees_iff_example :
    (run_instruction_switch_word stop start 0x0000_12e7
      ≡ run_instruction_word stop start 0x0000_12e7)
    ↔ (get_funct3 0x0000_12e7 ≡ 0)
unfolding get_opcode
jalr_agrees_iff_example = jalr_agrees_iff stop start 0x0000_12e7 refl

run_instructions_threaded-predecoded_example :
    run_instructions_threaded stop slots 0 3 start
    ≡ (predecoded_rounds stop slots 0 3 start >>= checked stop slots 0)
run_instructions_threaded-predecoded_example =
    run_instructions_threaded-predecoded stop slots 0 3 start

run_instruction_predecoded-IsValid_example :
    Leaves IsValid (run_instruction_predecoded stop start (decode sub_word 4))
unfolding decode get_opcode get_funct3 get_funct7
run_instruction_predecoded-IsValid_example =
    run_instruction_predecoded-IsValid stop (λ c v. tt) start (decode sub_word 4) (omega arith)
      start-FitsWords

predecoded_rounds-fetched_example :
    predecoded_rounds stop slots 0 1 start ≡ fetched_rounds stop 1 start
unfolding load read load_bytes slot ◌-w◌
predecoded_rounds-fetched_example =
    predecoded_rounds-fetched stop (λ c v. tt) slots 0 1 start start-FitsWords
      ((addi_word, refl, refl), Leaves-of_all _ (run_instruction stop start) (λ c. tt))

abbrev patched : Memory
patched = record memory { bytes = store_bytes program 100 2 0x12345 }

reads-write_example :
    (read 2 patched 100 ≡ ok (0x12345 % 256 ^ 2))
    × ((k q : ℕ) → (q + k ≤ 100) ⊎ (102 ≤ q) → read k patched q ≡ read k memory q)
unfolding write
reads-write_example = reads-write 2 memory 100 0x12345 {m' = patched} refl

-- `jalr ra, 16(ra)`, the second half of a far call
control_targets_example :
    ((retire (branch start true 16)).pc ≡ 16 % 2 ^ 32)
    × ((retire (jump_relative start 1 16)).pc ≡ 16 % 2 ^ 32)
    × ((retire (jump_register start 1 1 16)).pc ≡ (16 + 4) % 2 ^ 32)
control_targets_example =
    control_targets start 16 (omega arith) (omega arith) true 1 1 (omega arith)

abbrev returned : Context
returned = record start { pc = 0xdead_beef }

threaded_past_end_example : run_instructions_threaded stop slots 0 0 returned ≡ fault
unfolding predecoded_rounds ◌-w◌
threaded_past_end_example = threaded_past_end stop slots 0 0 returned returned refl (omega arith)
