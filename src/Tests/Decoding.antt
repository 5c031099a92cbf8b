-- ===== src/Tests/Decoding.antt =====
use mathlib.Core.Path.{◌≡◌, refl}
use native.Mathlib.Omega.{arith}
use riscv_sbt.Base.{true}
use riscv_sbt.Base.Word.{sar32, shl32}
use riscv_sbt.Decoder.Instructions.{EInstruction, EInstructionFmt, InstructionSpec}
use riscv_sbt.Decoder.Table.{spec_lists}
use riscv_sbt.Decoder.Fields.{
  get_opcode, get_funct3, get_funct7, get_rs1, get_rs2, get_rd, i_fmt_imm, s_fmt_imm, b_fmt_imm,
  j_fmt_imm, u_fmt_imm,
}
use riscv_sbt.Decoder.FieldLaws.{sign_extend}
use riscv_sbt.Decoder.Decode.{decode, fits, from_spec}
use riscv_sbt.Decoder.Unique.{decode-row}
use riscv_sbt.Decoder.Registers.{register_use, opcode_register_use, register_use-opcode}
use riscv_sbt.Decoder.Encode.{
  encode_i, encode_s, encode_b, encode_u, encode_j, layout_fields, immediates-encode,
}
use riscv_sbt.Decoder.Amount.{is_shift, decode-amount}
use riscv_sbt.Base.Word.{u8}
use mathlib.Core.Bool.{true}
use Prim.Native.Nat.{ℕ, bit_and}
use riscv_sbt.Tests.Machine.{sub_word, jal_word}

-- the row of SUB
abbrev sub_row : InstructionSpec
sub_row = record {
  type = EInstruction.sub;
  format = EInstructionFmt.r;
  opcode = 0x33;
  use_funct3 = true;
  funct3 = 0;
  use_funct7 = true;
  funct7 = 0x20;
  bits_mask = 0;
  bits_pattern = 0;
}

decode_jal :
    ((decode jal_word 8).type ≡ EInstruction.jal) × ((decode jal_word 8).immediate ≡ 0xffff_fff8)
unfolding decode get_opcode j_fmt_imm sar32 shl32
decode_jal = (refl, refl)

decode-row_example : decode sub_word 4 ≡ from_spec sub_word 4 sub_row
unfolding spec_lists fits get_opcode get_funct3 get_funct7
decode-row_example = decode-row 1 sub_word 4 sub_row refl refl

register_use-opcode_example : register_use EInstruction.sub ≡ opcode_register_use 0x33
unfolding spec_lists
register_use-opcode_example = register_use-opcode 1 sub_row refl

layout_fields_example :
    (get_opcode 0x4050_0333 ≡ 0x33)
    × (get_rd 0x4050_0333 ≡ 6)
    × (get_funct3 0x4050_0333 ≡ 0)
    × (get_rs1 0x4050_0333 ≡ 0)
    × (get_rs2 0x4050_0333 ≡ 5)
    × (get_funct7 0x4050_0333 ≡ 0x20)
layout_fields_example =
    layout_fields 0x33 6 0 0 5 0x20 (omega arith) (omega arith) (omega arith) (omega arith)
      (omega arith) (omega arith)

immediates-encode_example :
    (i_fmt_imm (encode_i 0x13 5 2 0 0xfff) ≡ sign_extend 12 0xfff)
    × (s_fmt_imm (encode_s 0x13 2 0 8 0xfff) ≡ sign_extend 12 0xfff)
    × (b_fmt_imm (encode_b 0x13 2 0 8 0x1ffc) ≡ sign_extend 13 0x1ffc)
    × (u_fmt_imm (encode_u 0x13 5 0x80001) ≡ sign_extend 20 0x80001)
    × (j_fmt_imm (encode_j 0x13 5 0x1ffff8) ≡ sign_extend 21 0x1ffff8)
immediates-encode_example =
    immediates-encode 0x13 5 2 0 8 0xfff 0x1ffc 0x80001 0x1ffff8 (omega arith) (omega arith)
      (omega arith) (omega arith) (omega arith) (omega arith) (omega arith) refl (omega arith)
      (omega arith) refl

-- srai x5, x5, 3
abbrev srai_word : ℕ
srai_word = 0x4032_d293

srai_shifts : is_shift (decode srai_word 0).type ≡ true
unfolding decode get_opcode get_funct3 get_funct7
srai_shifts = refl

decode-amount_example : (decode srai_word 0).rs2 ≡ u8 (bit_and (decode srai_word 0).immediate 0x1f)
decode-amount_example = decode-amount srai_word 0 (omega arith) srai_shifts
