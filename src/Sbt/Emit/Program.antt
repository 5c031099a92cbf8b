-- ===== src/Sbt/Emit/Program.antt =====
-- The loop over the instructions in sbt/main.cpp, the dispatch table of
-- sbt/codegen/RuntimeEmitter.cpp, and a run of `runTranslated`.
use Prim.Native.Nat.{ℕ, zero, suc, ◌+◌, ◌*◌}
use mathlib.Core.Bool.{false}
use mathlib.Core.List.{List, [], ◌∷◌, ◌++◌}
use mathlib.Core.Option.{Option, none, some}
use riscv_sbt.Base.{get_elem?, ◌==◌, if◌then◌else◌}
use riscv_sbt.Base.Word.{◌+w◌}
use riscv_sbt.Base.Outcome.{Outcome, ok, ◌>>=◌}
use riscv_sbt.Decoder.Instructions.{Instruction}
use riscv_sbt.Runtime.Context.{Context}
use riscv_sbt.Sbt.Emit.Syntax.{Stmt, label_at}
use riscv_sbt.Sbt.Emit.Emitter.{TranslationOptions, Tracked, contains}
use riscv_sbt.Sbt.Emit.Instructions.{emit_instruction}
use riscv_sbt.Sbt.Emit.Machine.{Machine, Next, onward, to_label, to_slot, exec}

-- the emitter's arrays to begin with
unfoldable pub initial_tracked : Tracked
initial_tracked = record { known = λ r. false; values = λ r. 0 }

-- an element of `dispatch`: `&&L…`, `&&INVALID` or `&&EXIT`
pub data Entry : Type 0 where
  label_entry : ℕ → Entry
  invalid_entry exit_entry : Entry

-- the loop from index `i` on, with `count` words left
unfoldable pub entries_from : List ℕ → ℕ → ℕ → ℕ → List Entry
entries_from leaders text_start i zero = exit_entry ∷ []
entries_from leaders text_start i (suc count) =
    let address = text_start +w i * 4 in
    (if contains address leaders then label_entry address else invalid_entry)
    ∷ entries_from leaders text_start (i + 1) count

unfoldable pub emit_dispatch_table : List ℕ → ℕ → ℕ → List Entry
unfolding entries_from
emit_dispatch_table leaders text_start word_count = entries_from leaders text_start 0 word_count

-- the statements after a label
unfoldable pub after_label : ℕ → List Stmt → Option (List Stmt)
after_label a [] = none
after_label a (label_at b ∷ rest) =
    let later = after_label a rest in if a == b then some rest else later
after_label a (_ ∷ rest) = after_label a rest

module _ (options : TranslationOptions) (branch_targets : List (ℕ × List (ℕ × ℕ)))
    (leaders : List ℕ) (text_start : ℕ) where
  unfoldable pub emit_instructions : Tracked → List Instruction → List Stmt
  emit_instructions t [] = []
  emit_instructions t (i ∷ rest) =
      let (text, after) = emit_instruction options branch_targets leaders text_start t i in
      text ++ emit_instructions after rest

module _ (handle : Context → Outcome Context) (handle_number : ℕ → Context → Outcome Context)
    (text_start : ℕ) (program : List Stmt) (table : List Entry) where
  -- What a jump leads to. There is nothing at a label that is not emitted, and a jump through the
  -- table to INVALID or EXIT leaves the translated instructions.
  unfoldable pub resume_at : Next → Option (List Stmt)
  unfolding after_label
  resume_at onward = none
  resume_at (to_label a) = after_label a program
  resume_at (to_slot k) = elim (get_elem? table k) [
    | none ↦ none
    | some entry ↦ elim entry [
      | label_entry a ↦ after_label a program
      | invalid_entry ↦ none
      | exit_entry ↦ none
    ]
  ]

  -- `count` jumps, or until one leaves the translated instructions
  unfoldable pub run_translated : ℕ → Next → Machine → Outcome (Machine × Next)
  unfolding resume_at
  run_translated zero next m = ok (m, next)
  run_translated (suc count) next m = elim (resume_at next) [
    | none ↦ ok (m, next)
    | some text ↦ do
      (after, target) ← exec handle handle_number text_start text m
      run_translated count target after
  ]
