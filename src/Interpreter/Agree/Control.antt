-- ===== src/Interpreter/Agree/Control.antt =====
-- Jumps, upper immediates, `ecall`, the atomics and the opcodes that are not decoded.
use Prim.Native.Nat.{ℕ}
use mathlib.Core.Path.{◌≡◌}
use native.Mathlib.Omega.{arith}
use riscv_sbt.Base.{◌==◌}
use riscv_sbt.Base.Word.{IsU32}
use riscv_sbt.Base.Outcome.{Outcome}
use riscv_sbt.Decoder.Fields.{get_opcode, get_funct3, get_funct5, i_fmt_imm}
use riscv_sbt.Decoder.Decode.{decode}
use riscv_sbt.Runtime.Context.{Context}
use riscv_sbt.Interpreter.Chain.{locals, chain}
use riscv_sbt.Interpreter.Predecoded.{execute}
use riscv_sbt.Interpreter.Agree.Split.{by_value, by_test}
use riscv_sbt.Base.{bit_and}
use riscv_sbt.Interpreter.Agree.Shift.{Agrees, system-agree, atomic-agree}

module _ (handle : Context → Outcome Context) (c : Context) (w a : ℕ) where
  pub jal-agree : get_opcode w ≡ 0b1101111 → Agrees handle c w a
  unfolding chain locals execute decode
  jal-agree op = rw op

  pub lui-agree : get_opcode w ≡ 0b0110111 → Agrees handle c w a
  unfolding chain locals execute decode
  lui-agree op = rw op

  pub auipc-agree : get_opcode w ≡ 0b0010111 → Agrees handle c w a
  unfolding chain locals execute decode
  auipc-agree op = rw op

  pub jalr-agree : get_opcode w ≡ 0b1100111 → Agrees handle c w a
  unfolding chain locals execute decode
  jalr-agree op = by_value (get_funct3 w) 0 (λ e. rw (op, e)) (λ e. rw (op, e))

module _ (handle : Context → Outcome Context) (c : Context) (w a : ℕ) (h : IsU32 w) where
  pub system_op-agree : get_opcode w ≡ 0b1110011 → Agrees handle c w a
  unfolding chain locals execute decode
  system_op-agree op =
      by_test (i_fmt_imm w == 0) (λ e. rw (op, ← system-agree w h, e))
        (λ e.
          by_test (bit_and w 0xfff0_0000 == 0x0010_0000) (λ x. rw (op, ← system-agree w h, e, x))
            (λ x. rw (op, ← system-agree w h, e, x)))

  pub atomic_op-agree : get_opcode w ≡ 0b0101111 → Agrees handle c w a
  unfolding chain locals execute decode
  atomic_op-agree op =
      by_value (get_funct3 w) 2
        (λ e.
          by_value (get_funct5 w) 2 (λ x. rw (op, e, ← atomic-agree w h 2 (omega arith), x))
            (λ x.
              by_value (get_funct5 w) 3
                (λ y. rw (
                  op,
                  e,
                  ← atomic-agree w h 2 (omega arith),
                  ← atomic-agree w h 3 (omega arith),
                  y,
                ))
                (λ y. rw (
                  op,
                  e,
                  ← atomic-agree w h 2 (omega arith),
                  ← atomic-agree w h 3 (omega arith),
                  x,
                  y,
                ))))
        (λ e. rw (op, e))
