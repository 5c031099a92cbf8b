-- ===== src/Decoder/Immediate.antt =====
-- The immediates that `decode` stores are 32-bit patterns.
use Prim.Native.Nat.{ℕ}
use mathlib.Core.List.{List, [], ◌∷◌}
use native.Mathlib.Omega.{arith}
use riscv_sbt.Base.{Bool-cases, inl, inr}
use riscv_sbt.Base.Word.{IsU32}
use riscv_sbt.Decoder.Instructions.{EInstructionFmt, InstructionSpec}
use riscv_sbt.Decoder.Table.{spec_lists}
use riscv_sbt.Decoder.FieldLaws.{
  i_fmt_imm_lem, s_fmt_imm_lem, b_fmt_imm_lem, j_fmt_imm_lem, u_fmt_imm_lem,
}
use riscv_sbt.Decoder.Decode.{fits, format_imm, from_spec, no_instruction, decode_in, decode}

format_imm-lt : (f : EInstructionFmt) (w : ℕ) → IsU32 w → IsU32 (format_imm f w)
unfolding format_imm
format_imm-lt EInstructionFmt.r w h = omega arith
format_imm-lt EInstructionFmt.i w h = omega (arith, i_fmt_imm_lem w h)
format_imm-lt EInstructionFmt.s w h = omega (arith, s_fmt_imm_lem w h)
format_imm-lt EInstructionFmt.b w h = omega (arith, b_fmt_imm_lem w h)
format_imm-lt EInstructionFmt.j w h = omega (arith, j_fmt_imm_lem w h)
format_imm-lt EInstructionFmt.u w h = omega (arith, u_fmt_imm_lem w h)

decode_in-imm :
    (specs : List InstructionSpec) (w a : ℕ) → IsU32 w → IsU32 (decode_in specs w a).immediate
unfolding decode_in from_spec no_instruction
decode_in-imm [] w a h = omega arith
decode_in-imm (s ∷ specs) w a h = elim (Bool-cases (fits w s)) [
  | inl e ↦ rw e (format_imm-lt s.format w h)
  | inr e ↦ rw e (decode_in-imm specs w a h)
]

pub decode-imm : (w a : ℕ) → IsU32 w → IsU32 (decode w a).immediate
unfolding decode
decode-imm w a h = decode_in-imm spec_lists w a h
