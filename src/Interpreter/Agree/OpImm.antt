-- ===== src/Interpreter/Agree/OpImm.antt =====
-- The immediate operations: opcode 0b0010011.
use Prim.Native.Nat.{ℕ}
use mathlib.Core.Path.{◌≡◌}
use riscv_sbt.Base.Word.{IsU32}
use riscv_sbt.Base.Outcome.{Outcome}
use riscv_sbt.Decoder.Fields.{get_opcode, get_funct7, get_sh_type}
use riscv_sbt.Decoder.Decode.{decode}
use riscv_sbt.Runtime.Context.{Context}
use riscv_sbt.Interpreter.Chain.{locals, chain}
use riscv_sbt.Interpreter.Predecoded.{execute}
use riscv_sbt.Interpreter.Agree.Split.{split_funct3, by_value}
use riscv_sbt.Interpreter.Agree.Shift.{Agrees, shift-agree}

module _ (handle : Context → Outcome Context) (c : Context) (w a : ℕ) (h : IsU32 w) where
  pub op_imm-agree : get_opcode w ≡ 0b0010011 → Agrees handle c w a
  unfolding chain locals execute decode get_sh_type
  op_imm-agree op =
      split_funct3 w (λ e. rw (op, e))
        (λ e.
          by_value (get_funct7 w) 0x00 (λ x. rw (op, e, x, shift-agree w h)) (λ x. rw (op, e, x)))
        (λ e. rw (op, e)) (λ e. rw (op, e)) (λ e. rw (op, e))
        (λ e.
          by_value (get_funct7 w) 0x00 (λ x. rw (op, e, x, shift-agree w h))
            (λ x.
              by_value (get_funct7 w) 0x20 (λ y. rw (op, e, y, shift-agree w h))
                (λ y. rw (op, e, x, y))))
        (λ e. rw (op, e)) (λ e. rw (op, e))
