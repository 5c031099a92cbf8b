-- ===== src/Interpreter/Agree/Op.antt =====
-- The register operations: opcode 0b0110011.
use Prim.Native.Nat.{ℕ}
use mathlib.Core.Path.{◌≡◌}
use riscv_sbt.Base.Outcome.{Outcome}
use riscv_sbt.Decoder.Fields.{get_opcode, get_funct7}
use riscv_sbt.Decoder.Decode.{decode}
use riscv_sbt.Runtime.Context.{Context}
use riscv_sbt.Interpreter.Chain.{locals, chain}
use riscv_sbt.Interpreter.Predecoded.{execute}
use riscv_sbt.Interpreter.Agree.Shift.{Agrees}
use riscv_sbt.Interpreter.Agree.Split.{split_funct3, by_value}

module _ (handle : Context → Outcome Context) (c : Context) (w a : ℕ) where
  pub op-agree : get_opcode w ≡ 0b0110011 → Agrees handle c w a
  unfolding chain locals execute decode
  op-agree op =
      split_funct3 w
        (λ e.
          by_value (get_funct7 w) 0 (λ x. rw (op, e, x))
            (λ x1.
              by_value (get_funct7 w) 32 (λ x. rw (op, e, x))
                (λ x2.
                  by_value (get_funct7 w) 1 (λ x. rw (op, e, x)) (λ x3. rw (op, e, x1, x2, x3)))))
        (λ e.
          by_value (get_funct7 w) 0 (λ x. rw (op, e, x))
            (λ x1. by_value (get_funct7 w) 1 (λ x. rw (op, e, x)) (λ x2. rw (op, e, x1, x2))))
        (λ e.
          by_value (get_funct7 w) 0 (λ x. rw (op, e, x))
            (λ x1. by_value (get_funct7 w) 1 (λ x. rw (op, e, x)) (λ x2. rw (op, e, x1, x2))))
        (λ e.
          by_value (get_funct7 w) 0 (λ x. rw (op, e, x))
            (λ x1. by_value (get_funct7 w) 1 (λ x. rw (op, e, x)) (λ x2. rw (op, e, x1, x2))))
        (λ e.
          by_value (get_funct7 w) 0 (λ x. rw (op, e, x))
            (λ x1. by_value (get_funct7 w) 1 (λ x. rw (op, e, x)) (λ x2. rw (op, e, x1, x2))))
        (λ e.
          by_value (get_funct7 w) 0 (λ x. rw (op, e, x))
            (λ x1.
              by_value (get_funct7 w) 32 (λ x. rw (op, e, x))
                (λ x2.
                  by_value (get_funct7 w) 1 (λ x. rw (op, e, x)) (λ x3. rw (op, e, x1, x2, x3)))))
        (λ e.
          by_value (get_funct7 w) 0 (λ x. rw (op, e, x))
            (λ x1. by_value (get_funct7 w) 1 (λ x. rw (op, e, x)) (λ x2. rw (op, e, x1, x2))))
        (λ e.
          by_value (get_funct7 w) 0 (λ x. rw (op, e, x))
            (λ x1. by_value (get_funct7 w) 1 (λ x. rw (op, e, x)) (λ x2. rw (op, e, x1, x2))))
