-- ===== src/Interpreter/Agree/Shift.antt =====
-- The two ways in which the dispatchers read a shift amount, the function code of `ecall` and that
-- of the atomics.
use Prim.Native.Nat.{ℕ, ◌*◌, ◌^◌, ◌<◌, bit_and}
use mathlib.Core.Path.{◌≡◌}
use native.Mathlib.Omega.{arith}
use riscv_sbt.Base.{◌==◌}
use riscv_sbt.Base.Bits.{and_low, and_field}
use riscv_sbt.Base.Word.{IsU32, u8}
use riscv_sbt.Base.Outcome.{Outcome}
use riscv_sbt.Decoder.Fields.{get_funct5, get_shift, i_fmt_imm}
use riscv_sbt.Decoder.FieldLaws.{get_shift_lem, get_funct5_lem, i_fmt_imm_lem}
use riscv_sbt.Decoder.Decode.{decode}
use riscv_sbt.Runtime.Context.{Context}
use riscv_sbt.Interpreter.Chain.{locals, chain}
use riscv_sbt.Interpreter.Predecoded.{execute}

-- the chain of tests on a word does what the decoded instruction does
abbrev pub Agrees : (Context → Outcome Context) → Context → ℕ → ℕ → Type 0
Agrees handle c w a = chain handle (locals w) c ≡ execute (decode w a).type handle (decode w a) c

module _ (w : ℕ) (h : IsU32 w) where
  pub shift-agree : get_shift w ≡ u8 (bit_and (i_fmt_imm w) 0x1f)
  shift-agree = ground (arith, get_shift_lem w, i_fmt_imm_lem w h, and_low 5 (i_fmt_imm w))

  pub system-agree : (i_fmt_imm w == 0) ≡ (bit_and w 0xfff0_0000 == 0)
  system-agree = ground (arith, i_fmt_imm_lem w h, and_field 12 20 w)

  pub atomic-agree : (k : ℕ) → k < 32 → (get_funct5 w == k) ≡ (bit_and w 0xf800_0000 == k * 2 ^ 27)
  atomic-agree k hk = ground (arith, get_funct5_lem w, and_field 5 27 w)
