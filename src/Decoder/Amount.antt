-- ===== src/Decoder/Amount.antt =====
-- The shift amount of a decoded shift by an immediate, which the emitter prints as rs2.
use Prim.Native.Nat.{ℕ, bit_and}
use mathlib.Core.Path.{◌≡◌, refl, sym, ap, ◌∙◌}
use mathlib.Core.Logic.{inl, inr}
use mathlib.Core.Bool.{Bool, true, false, ◌&&◌}
use mathlib.Core.List.{List, [], ◌∷◌}
use native.Mathlib.Omega.{arith}
use riscv_sbt.Base.{Bool-cases, if◌then◌else◌}
use riscv_sbt.Base.Bits.{and_low}
use riscv_sbt.Base.Word.{IsU32, u8}
use riscv_sbt.Decoder.Instructions.{EInstruction, EInstructionFmt, InstructionSpec}
use riscv_sbt.Decoder.Table.{spec_lists}
use riscv_sbt.Decoder.Fields.{get_rs2, i_fmt_imm}
use riscv_sbt.Decoder.FieldLaws.{get_rs2_lem, i_fmt_imm_lem}
use riscv_sbt.Decoder.Decode.{fits, format_imm, from_spec, no_instruction, decode_in, decode}

abbrev pub is_shift : EInstruction → Bool
is_shift EInstruction.slli = true
is_shift EInstruction.srli = true
is_shift EInstruction.srai = true
is_shift _ = false

abbrev is_i_format : EInstructionFmt → Bool
is_i_format EInstructionFmt.i = true
is_i_format _ = false

-- Every row for a shift is of the I format.
abbrev rows_fine : List InstructionSpec → Bool
rows_fine [] = true
rows_fine (s ∷ rest) = (if is_shift s.type then is_i_format s.format else true) && rows_fine rest

table_fine : rows_fine spec_lists ≡ true
unfolding spec_lists
table_fine = refl

i_format-imm : (f : EInstructionFmt) (w : ℕ) → is_i_format f ≡ true → format_imm f w ≡ i_fmt_imm w
unfolding format_imm
i_format-imm EInstructionFmt.r w e = absurd cc
i_format-imm EInstructionFmt.i w e = refl
i_format-imm EInstructionFmt.s w e = absurd cc
i_format-imm EInstructionFmt.b w e = absurd cc
i_format-imm EInstructionFmt.j w e = absurd cc
i_format-imm EInstructionFmt.u w e = absurd cc

rs2-amount : (w : ℕ) → IsU32 w → get_rs2 w ≡ u8 (bit_and (i_fmt_imm w) 0x1f)
rs2-amount w h = ground (arith, get_rs2_lem w, i_fmt_imm_lem w h, and_low 5 (i_fmt_imm w))

decode_in-amount :
    (specs : List InstructionSpec) (w a : ℕ)
    → IsU32 w
    → rows_fine specs ≡ true
    → is_shift (decode_in specs w a).type ≡ true
    → (decode_in specs w a).rs2 ≡ u8 (bit_and (decode_in specs w a).immediate 0x1f)
unfolding decode_in from_spec no_instruction
decode_in-amount [] w a h fine = λ shift. absurd cc
decode_in-amount (s ∷ specs) w a h fine = elim (Bool-cases (fits w s)) [
  | inl hit ↦ rw hit (λ shift.
      let row : is_i_format s.format ≡ true = ground (arith, fine, shift) in
      rs2-amount w h ∙ ap (λ x. u8 (bit_and x 0x1f)) (sym (i_format-imm s.format w row)))
  | inr miss ↦ rw miss (decode_in-amount specs w a h (ground (arith, fine)))
]

-- For a 32-bit word that decodes to SLLI, SRLI or SRAI, the field rs2, which the emitter prints, is
-- the amount that the interpreters take from the immediate.
pub decode-amount :
    (w a : ℕ)
    → IsU32 w
    → is_shift (decode w a).type ≡ true
    → (decode w a).rs2 ≡ u8 (bit_and (decode w a).immediate 0x1f)
unfolding decode
decode-amount w a h = decode_in-amount spec_lists w a h table_fine
