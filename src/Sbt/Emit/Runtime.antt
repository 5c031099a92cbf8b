-- ===== src/Sbt/Emit/Runtime.antt =====
-- The code around the translated instructions: the dispatch loop, the exit and the interpreter
-- fallback of sbt/codegen/RuntimeEmitter.cpp, with its templates.
use Prim.Native.Nat.{ℕ, zero, suc, ◌/◌}
use mathlib.Core.List.{List}
use mathlib.Core.Option.{none, some}
use riscv_sbt.Base.{get_elem?}
use riscv_sbt.Base.Word.{◌-w◌}
use riscv_sbt.Base.Outcome.{Outcome, ok, fault, ◌>>=◌}
use riscv_sbt.Runtime.Context.{Context}
use riscv_sbt.Interpreter.Switch.{run_instruction_switch}
use riscv_sbt.Sbt.Emit.Syntax.{Stmt}
use riscv_sbt.Sbt.Emit.Emitter.{TranslationOptions, emit_register_store, emit_register_load}
use riscv_sbt.Sbt.Emit.Machine.{Machine, Next, onward, to_label, to_slot, exec}
use riscv_sbt.Sbt.Emit.Program.{Entry, label_entry, invalid_entry, exit_entry, after_label}

-- where `runTranslated` is: on the way to a label or a slot, at the test of the fallback's loop with
-- `pcDispatchIndex`, or after its `return`
pub data Place : Type 0 where
  jumping : Next → Place
  interpreting : ℕ → Place
  finished : Place

module _ (options : TranslationOptions) (handle : Context → Outcome Context)
    (handle_number : ℕ → Context → Outcome Context) (text_start : ℕ) (program : List Stmt)
    (table : List Entry) where
  -- `pcDispatchIndex = (ctx.pc - …) / 4`
  unfoldable pub pc_index : Context → ℕ
  pc_index c = (c.pc -w text_start) / 4

  -- the copies between the pinned registers and the context, which leave control where it is
  unfoldable pub copying : List Stmt → Place → Machine → Outcome (Machine × Place)
  copying text place m = do
    (after, next) ← exec handle handle_number text_start text m
    ok (after, place)

  -- EXIT, up to its `return`
  unfoldable pub exit_program : Machine → Outcome (Machine × Place)
  unfolding copying
  exit_program m = copying (emit_register_store options) finished m

  -- from a label on, up to the next jump; no program holds a jump to a label that is not emitted
  unfoldable pub run_from : ℕ → Next → Machine → Outcome (Machine × Place)
  run_from a next m = elim (after_label a program) [
    | none ↦ ok (m, jumping next)
    | some text ↦ do
      (after, target) ← exec handle handle_number text_start text m
      ok (after, jumping target)
  ]

  -- the end of the fallback, and the head of the dispatch loop
  unfoldable pub leave_fallback : Machine → Outcome (Machine × Place)
  unfolding copying pc_index
  leave_fallback m = copying (emit_register_load options) (jumping (to_slot (pc_index m.ctx))) m

  -- Past the last instruction stands EXIT. An index past the table reads what is after it.
  unfoldable pub step_program : Place → Machine → Outcome (Machine × Place)
  unfolding exit_program run_from copying leave_fallback pc_index
  step_program (jumping onward) m = exit_program m
  step_program (jumping (to_label a)) m = run_from a (to_label a) m
  step_program (jumping (to_slot k)) m = elim (get_elem? table k) [
    | none ↦ fault
    | some entry ↦ elim entry [
      | label_entry a ↦ run_from a (to_slot k) m
      | invalid_entry ↦ copying (emit_register_store options) (interpreting k) m
      | exit_entry ↦ exit_program m
    ]
  ]
  step_program (interpreting k) m = elim (get_elem? table k) [
    | none ↦ fault
    | some entry ↦ elim entry [
      | label_entry a ↦ leave_fallback m
      | invalid_entry ↦ do
        c ← run_instruction_switch handle m.ctx
        ok (record m { ctx = c }, interpreting (pc_index c))
      | exit_entry ↦ leave_fallback m
    ]
  ]
  step_program finished m = ok (m, finished)

  unfoldable pub run_program : ℕ → Place → Machine → Outcome (Machine × Place)
  unfolding step_program
  run_program zero place m = ok (m, place)
  run_program (suc count) place m = do
    (after, then) ← step_program place m
    run_program count then after

  -- `runTranslated` from its first line on: the registers are loaded, then the loop is entered
  unfoldable pub run_from_entry : ℕ → Machine → Outcome (Machine × Place)
  unfolding leave_fallback run_program
  run_from_entry count m = do (after, place) ← leave_fallback m; run_program count place after
