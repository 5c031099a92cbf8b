-- ===== src/Interpreter/Agree/Memory.antt =====
-- Loads, stores and branches.
use Prim.Native.Nat.{ℕ}
use mathlib.Core.Path.{◌≡◌}
use riscv_sbt.Base.Outcome.{Outcome}
use riscv_sbt.Decoder.Fields.{get_opcode}
use riscv_sbt.Decoder.Decode.{decode}
use riscv_sbt.Runtime.Context.{Context}
use riscv_sbt.Interpreter.Chain.{locals, chain}
use riscv_sbt.Interpreter.Predecoded.{execute}
use riscv_sbt.Interpreter.Agree.Shift.{Agrees}
use riscv_sbt.Interpreter.Agree.Split.{split_funct3}

module _ (handle : Context → Outcome Context) (c : Context) (w a : ℕ) where
  pub load-agree : get_opcode w ≡ 0b0000011 → Agrees handle c w a
  unfolding chain locals execute decode
  load-agree op =
      split_funct3 w (λ e. rw (op, e)) (λ e. rw (op, e)) (λ e. rw (op, e)) (λ e. rw (op, e))
        (λ e. rw (op, e)) (λ e. rw (op, e)) (λ e. rw (op, e)) (λ e. rw (op, e))

  pub store-agree : get_opcode w ≡ 0b0100011 → Agrees handle c w a
  unfolding chain locals execute decode
  store-agree op =
      split_funct3 w (λ e. rw (op, e)) (λ e. rw (op, e)) (λ e. rw (op, e)) (λ e. rw (op, e))
        (λ e. rw (op, e)) (λ e. rw (op, e)) (λ e. rw (op, e)) (λ e. rw (op, e))

  pub branch-agree : get_opcode w ≡ 0b1100011 → Agrees handle c w a
  unfolding chain locals execute decode
  branch-agree op =
      split_funct3 w (λ e. rw (op, e)) (λ e. rw (op, e)) (λ e. rw (op, e)) (λ e. rw (op, e))
        (λ e. rw (op, e)) (λ e. rw (op, e)) (λ e. rw (op, e)) (λ e. rw (op, e))
