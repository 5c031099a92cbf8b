-- ===== src/Sbt/Simulate/Leave.antt =====
-- What follows the link of JALR: the predicted targets, then the dispatch table.
use Prim.Native.Nat.{ℕ, zero, suc, ◌/◌}
use mathlib.Core.Path.{◌≡◌, refl, ◌∙◌}
use mathlib.Core.Logic.{◌⊎◌, inl, inr}
use mathlib.Core.Bool.{Bool, true, false}
use mathlib.Core.List.{List, [], ◌∷◌, ◌++◌, append_assoc}
use mathlib.Core.Option.{none, some}
use riscv_sbt.Base.{◌==◌, ==→eq, Bool-cases, Option-cases, if◌then◌else◌}
use riscv_sbt.Base.Word.{◌-w◌}
use riscv_sbt.Base.Outcome.{Outcome, ok}
use riscv_sbt.Runtime.Context.{Context}
use riscv_sbt.Sbt.Emit.Syntax.{Stmt, goto_if_pc, start_timer}
use riscv_sbt.Sbt.Emit.Emitter.{TranslationOptions, contains}
use riscv_sbt.Sbt.Emit.Instructions.{take_most_frequent, predictions, leave_block}
use riscv_sbt.Sbt.Emit.Machine.{Machine, to_label, to_slot, exec_stmt, exec}

-- the machine that JALR leaves for the dispatch table
abbrev pub dispatched : ℕ → Machine → Machine
dispatched start k = record k { dispatch_index = (k.ctx.pc -w start) / 4 }

module _ (leaders : List ℕ) (n : ℕ) (destinations : List (ℕ × ℕ)) where
  pub predictions-empty :
      take_most_frequent destinations ≡ none → predictions (suc n) leaders destinations ≡ []
  unfolding predictions
  predictions-empty empty = rw (predictions, empty)

  pub predictions-some :
      (most : ℕ × ℕ) (others : List (ℕ × ℕ))
      → take_most_frequent destinations ≡ some (most, others)
      → predictions (suc n) leaders destinations
        ≡ (if contains most.0 leaders then goto_if_pc most.0 ∷ [] else [])
          ++ predictions n leaders others
  unfolding predictions
  predictions-some most others found = rw (predictions, found)

module _ (handle : Context → Outcome Context) (handle_number : ℕ → Context → Outcome Context)
    (leaders : List ℕ) (start : ℕ) (k : Machine) where
  -- A prediction is a jump to pc, or does nothing.
  guess-cases :
      (a : ℕ) (rest : List Stmt)
      → (exec handle handle_number start
            ((if contains a leaders then goto_if_pc a ∷ [] else []) ++ rest)
            k
          ≡ exec handle handle_number start rest k)
        ⊎ (exec handle handle_number start
              ((if contains a leaders then goto_if_pc a ∷ [] else []) ++ rest)
              k
            ≡ ok (k, to_label k.ctx.pc))
  unfolding exec exec_stmt
  guess-cases a rest = elim (Bool-cases (contains a leaders)) [
    | inl leader ↦ elim (Bool-cases (k.ctx.pc == a)) [
      | inl hit ↦ inr (rw (leader, hit, ==→eq k.ctx.pc a hit))
      | inr miss ↦ inl (rw (leader, miss))
    ]
    | inr other ↦ inl (rw other)
  ]

  predictions-cases :
      (n : ℕ) (destinations : List (ℕ × ℕ)) (rest : List Stmt)
      → (exec handle handle_number start (predictions n leaders destinations ++ rest) k
          ≡ exec handle handle_number start rest k)
        ⊎ (exec handle handle_number start (predictions n leaders destinations ++ rest) k
            ≡ ok (k, to_label k.ctx.pc))
  predictions-cases zero destinations rest = inl (unfold predictions in refl)
  predictions-cases (suc n) destinations rest =
      elim (Option-cases (take_most_frequent destinations)) [
        | inl empty ↦ inl (rw (predictions-empty leaders n destinations empty))
        | inr ((most, others), found) ↦
            elim (guess-cases most.0 (predictions n leaders others ++ rest)) [
              | inr hit ↦ inr (
                  rw (predictions-some leaders n destinations most others found, append_assoc, hit))
              | inl miss ↦ elim (predictions-cases n others rest) [
                | inl past ↦ inl (
                    rw (
                      predictions-some leaders n destinations most others found,
                      append_assoc,
                      miss,
                      past,
                    ))
                | inr hit ↦ inr (
                    rw (
                      predictions-some leaders n destinations most others found,
                      append_assoc,
                      miss,
                      hit,
                    ))
              ]
            ]
      ]

  leave_block-runs :
      (options : TranslationOptions) (branch_targets : List (ℕ × List (ℕ × ℕ)))
      → exec handle handle_number start (leave_block options branch_targets leaders start) k
        ≡ ok (dispatched start k, to_slot ((k.ctx.pc -w start) / 4))
  unfolding leave_block exec exec_stmt
  leave_block-runs options branch_targets = elim (Bool-cases options.translation_chaining) [
    | inl chained ↦ rw chained
    | inr back_to_loop ↦ rw back_to_loop
  ]

  pub guess_then_leave-cases :
      (options : TranslationOptions) (branch_targets : List (ℕ × List (ℕ × ℕ))) (guessing : Bool)
      (destinations : List (ℕ × ℕ))
      → (exec handle handle_number start
            ((if guessing then predictions 3 leaders destinations else [])
              ++ leave_block options branch_targets leaders start)
            k
          ≡ ok (dispatched start k, to_slot ((k.ctx.pc -w start) / 4)))
        ⊎ (exec handle handle_number start
              ((if guessing then predictions 3 leaders destinations else [])
                ++ leave_block options branch_targets leaders start)
              k
            ≡ ok (k, to_label k.ctx.pc))
  guess_then_leave-cases options branch_targets false destinations =
      inl (leave_block-runs options branch_targets)
  guess_then_leave-cases options branch_targets true destinations =
      elim (predictions-cases 3 destinations (leave_block options branch_targets leaders start)) [
        | inl past ↦ inl (past ∙ leave_block-runs options branch_targets)
        | inr hit ↦ inr hit
      ]

  -- A timer that is started changes nothing.
  pub timer-runs :
      (timed : Bool) (rest : List Stmt)
      → exec handle handle_number start ((if timed then start_timer ∷ [] else []) ++ rest) k
        ≡ exec handle handle_number start rest k
  unfolding exec exec_stmt
  timer-runs true rest = refl
  timer-runs false rest = refl
