-- ===== src/Interpreter/Agree/Word.antt =====
-- `runInstruction` and `runInstructionPredecoded` do the same on every word.
use Prim.Native.Nat.{ℕ}
use mathlib.Core.Path.{◌≡◌}
use riscv_sbt.Base.{◌==◌, false}
use riscv_sbt.Base.Word.{IsU32}
use riscv_sbt.Base.Outcome.{Outcome}
use riscv_sbt.Decoder.Fields.{get_opcode}
use riscv_sbt.Decoder.Decode.{decode}
use riscv_sbt.Runtime.Context.{Context}
use riscv_sbt.Interpreter.Chain.{locals, chain, run_instruction_word}
use riscv_sbt.Interpreter.Predecoded.{execute, run_instruction_predecoded}
use riscv_sbt.Interpreter.Agree.Shift.{Agrees}
use riscv_sbt.Interpreter.Agree.Split.{by_value}
use riscv_sbt.Interpreter.Agree.OpImm.{op_imm-agree}
use riscv_sbt.Interpreter.Agree.Op.{op-agree}
use riscv_sbt.Interpreter.Agree.Memory.{load-agree, store-agree, branch-agree}
use riscv_sbt.Interpreter.Agree.Control.{
  jal-agree, lui-agree, auipc-agree, jalr-agree, system_op-agree, atomic_op-agree,
}

module _ (handle : Context → Outcome Context) (c : Context) (w a : ℕ) (h : IsU32 w) where
  -- an opcode outside the tables
  other-agree :
      (get_opcode w == 0b0010011) ≡ false
      → (get_opcode w == 0b0110011) ≡ false
      → (get_opcode w == 0b0000011) ≡ false
      → (get_opcode w == 0b0100011) ≡ false
      → (get_opcode w == 0b1100011) ≡ false
      → (get_opcode w == 0b1101111) ≡ false
      → (get_opcode w == 0b1100111) ≡ false
      → (get_opcode w == 0b0110111) ≡ false
      → (get_opcode w == 0b0010111) ≡ false
      → (get_opcode w == 0b1110011) ≡ false
      → (get_opcode w == 0b0101111) ≡ false
      → Agrees handle c w a
  unfolding chain locals execute decode
  other-agree e1 e2 e3 e4 e5 e6 e7 e8 e9 e10 e11 = rw (e1, e2, e3, e4, e5, e6, e7, e8, e9, e10, e11)

  chain-agree : Agrees handle c w a
  chain-agree = by_value (get_opcode w) 0b0010011 (op_imm-agree handle c w a h) λ e1.
      by_value (get_opcode w) 0b0110011 (op-agree handle c w a) λ e2.
        by_value (get_opcode w) 0b0000011 (load-agree handle c w a) λ e3.
          by_value (get_opcode w) 0b0100011 (store-agree handle c w a) λ e4.
            by_value (get_opcode w) 0b1100011 (branch-agree handle c w a) λ e5.
              by_value (get_opcode w) 0b1101111 (jal-agree handle c w a) λ e6.
                by_value (get_opcode w) 0b1100111 (jalr-agree handle c w a) λ e7.
                  by_value (get_opcode w) 0b0110111 (lui-agree handle c w a) λ e8.
                    by_value (get_opcode w) 0b0010111 (auipc-agree handle c w a) λ e9.
                      by_value (get_opcode w) 0b1110011 (system_op-agree handle c w a h) λ e10.
                        by_value (get_opcode w) 0b0101111 (atomic_op-agree handle c w a h)
                          λ e11. other-agree e1 e2 e3 e4 e5 e6 e7 e8 e9 e10 e11

  -- For every 32-bit word, whether it encodes an instruction or not, `runInstruction` on the word
  -- and `runInstructionPredecoded` on the decoded word leave the same registers, pc, memory and
  -- printed lines, or fault or exit alike, whatever the system calls do.
  pub run_instruction_word-predecoded :
      run_instruction_word handle c w ≡ run_instruction_predecoded handle c (decode w a)
  unfolding run_instruction_word run_instruction_predecoded
  run_instruction_word-predecoded = rw chain-agree
