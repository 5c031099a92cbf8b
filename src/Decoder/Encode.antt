-- ===== src/Decoder/Encode.antt =====
-- The word layouts of the RISC-V manual, as sums of fields, and what the extractors make of them.
use Prim.Native.Nat.{ℕ, ◌+◌, ◌*◌, ◌/◌, ◌%◌, ◌^◌, ◌<◌}
use mathlib.Core.Path.{◌≡◌}
use native.Mathlib.Omega.{arith}
use riscv_sbt.Decoder.Fields.{
  get_funct3, get_funct7, get_opcode, get_rs1, get_rs2, get_rd, i_fmt_imm, s_fmt_imm, b_fmt_imm,
  j_fmt_imm, u_fmt_imm,
}
use riscv_sbt.Decoder.FieldLaws.{
  get_opcode_lem, get_funct3_lem, get_funct7_lem, get_rs1_lem, get_rs2_lem, get_rd_lem,
  i_fmt_imm_lem, s_fmt_imm_lem, b_fmt_imm_lem, j_fmt_imm_lem, u_fmt_imm_lem, sign_extend,
}

-- opcode, rd or the low immediate, funct3, rs1, rs2 or the shift amount, funct7 or the high immediate
abbrev pub layout : ℕ → ℕ → ℕ → ℕ → ℕ → ℕ → ℕ
layout op rd f3 rs1 rs2 f7 =
    op + rd * 2 ^ 7 + f3 * 2 ^ 12 + rs1 * 2 ^ 15 + rs2 * 2 ^ 20 + f7 * 2 ^ 25

-- The fields of a word are read back as they were laid out.
pub layout_fields :
    (op rd f3 rs1 rs2 f7 : ℕ)
    → op < 128
    → rd < 32
    → f3 < 8
    → rs1 < 32
    → rs2 < 32
    → f7 < 128
    → let w = layout op rd f3 rs1 rs2 f7 in
      (get_opcode w ≡ op)
      × (get_rd w ≡ rd)
      × (get_funct3 w ≡ f3)
      × (get_rs1 w ≡ rs1)
      × (get_rs2 w ≡ rs2)
      × (get_funct7 w ≡ f7)
layout_fields op rd f3 rs1 rs2 f7 h1 h2 h3 h4 h5 h6 =
    let w : ℕ = layout op rd f3 rs1 rs2 f7 in
    omega (
      arith,
      get_opcode_lem w,
      get_rd_lem w,
      get_funct3_lem w,
      get_rs1_lem w,
      get_rs2_lem w,
      get_funct7_lem w,
    )

-- the immediate of each format scattered over its fields; `v` is the pattern of the immediate's
-- own width, 12 bits (I, S), 13 (B), 20 (U) or 21 (J)
abbrev pub encode_i : ℕ → ℕ → ℕ → ℕ → ℕ → ℕ
encode_i op rd f3 rs1 v = layout op rd f3 rs1 (v % 2 ^ 5) (v / 2 ^ 5)

abbrev pub encode_s : ℕ → ℕ → ℕ → ℕ → ℕ → ℕ
encode_s op f3 rs1 rs2 v = layout op (v % 2 ^ 5) f3 rs1 rs2 (v / 2 ^ 5)

abbrev pub encode_b : ℕ → ℕ → ℕ → ℕ → ℕ → ℕ
encode_b op f3 rs1 rs2 v =
    layout op (v / 2 % 2 ^ 4 * 2 + v / 2 ^ 11 % 2) f3 rs1 rs2
      (v / 2 ^ 12 * 2 ^ 6 + v / 2 ^ 5 % 2 ^ 6)

abbrev pub encode_u : ℕ → ℕ → ℕ → ℕ
encode_u op rd v = op + rd * 2 ^ 7 + v * 2 ^ 12

abbrev pub encode_j : ℕ → ℕ → ℕ → ℕ
encode_j op rd v =
    encode_u op rd
      (v / 2 ^ 12 % 2 ^ 8 + v / 2 ^ 11 % 2 * 2 ^ 8 + v / 2 % 2 ^ 10 * 2 ^ 9 + v / 2 ^ 20 * 2 ^ 19)

-- The immediate of an I-format word is its 12-bit field, sign-extended.
i_fmt_imm-encode_i :
    (op rd f3 rs1 v : ℕ)
    → op < 128
    → rd < 32
    → f3 < 8
    → rs1 < 32
    → v < 2 ^ 12
    → i_fmt_imm (encode_i op rd f3 rs1 v) ≡ sign_extend 12 v
i_fmt_imm-encode_i op rd f3 rs1 v h1 h2 h3 h4 h5 =
    omega (arith, i_fmt_imm_lem (encode_i op rd f3 rs1 v) (omega arith))

-- The immediate of an S-format word is put together from its two fields and sign-extended.
s_fmt_imm-encode_s :
    (op f3 rs1 rs2 v : ℕ)
    → op < 128
    → f3 < 8
    → rs1 < 32
    → rs2 < 32
    → v < 2 ^ 12
    → s_fmt_imm (encode_s op f3 rs1 rs2 v) ≡ sign_extend 12 v
s_fmt_imm-encode_s op f3 rs1 rs2 v h1 h2 h3 h4 h5 =
    omega (arith, s_fmt_imm_lem (encode_s op f3 rs1 rs2 v) (omega arith))

-- The offset of a B-format word, even and of 13 bits, is put together from its four fields and
-- sign-extended.
b_fmt_imm-encode_b :
    (op f3 rs1 rs2 v : ℕ)
    → op < 128
    → f3 < 8
    → rs1 < 32
    → rs2 < 32
    → v < 2 ^ 13
    → v % 2 ≡ 0
    → b_fmt_imm (encode_b op f3 rs1 rs2 v) ≡ sign_extend 13 v
b_fmt_imm-encode_b op f3 rs1 rs2 v h1 h2 h3 h4 h5 even =
    omega (arith, b_fmt_imm_lem (encode_b op f3 rs1 rs2 v) (omega arith))

-- The immediate of a U-format word is its 20-bit field, sign-extended.
u_fmt_imm-encode_u :
    (op rd v : ℕ)
    → op < 128
    → rd < 32
    → v < 2 ^ 20
    → u_fmt_imm (encode_u op rd v) ≡ sign_extend 20 v
u_fmt_imm-encode_u op rd v h1 h2 h3 = omega (arith, u_fmt_imm_lem (encode_u op rd v) (omega arith))

-- The offset of a J-format word, even and of 21 bits, is put together from its four fields and
-- sign-extended.
j_fmt_imm-encode_j :
    (op rd v : ℕ)
    → op < 128
    → rd < 32
    → v < 2 ^ 21
    → v % 2 ≡ 0
    → j_fmt_imm (encode_j op rd v) ≡ sign_extend 21 v
j_fmt_imm-encode_j op rd v h1 h2 h3 even =
    omega (arith, j_fmt_imm_lem (encode_j op rd v) (omega arith))

-- The immediate of each format is read back from where its bits stand in the word, sign-extended
-- from its own width: 12 bits for I and S, 20 for U, and an even offset of 13 for B and of 21 for J.
pub immediates-encode :
    (op rd f3 rs1 rs2 v offset upper jump : ℕ)
    → op < 128
    → rd < 32
    → f3 < 8
    → rs1 < 32
    → rs2 < 32
    → v < 2 ^ 12
    → offset < 2 ^ 13
    → offset % 2 ≡ 0
    → upper < 2 ^ 20
    → jump < 2 ^ 21
    → jump % 2 ≡ 0
    → (i_fmt_imm (encode_i op rd f3 rs1 v) ≡ sign_extend 12 v)
      × (s_fmt_imm (encode_s op f3 rs1 rs2 v) ≡ sign_extend 12 v)
      × (b_fmt_imm (encode_b op f3 rs1 rs2 offset) ≡ sign_extend 13 offset)
      × (u_fmt_imm (encode_u op rd upper) ≡ sign_extend 20 upper)
      × (j_fmt_imm (encode_j op rd jump) ≡ sign_extend 21 jump)
immediates-encode op rd f3 rs1 rs2 v offset upper jump h1 h2 h3 h4 h5 hv ho even hu hj even_jump = (
  i_fmt_imm-encode_i op rd f3 rs1 v h1 h2 h3 h4 hv,
  s_fmt_imm-encode_s op f3 rs1 rs2 v h1 h3 h4 h5 hv,
  b_fmt_imm-encode_b op f3 rs1 rs2 offset h1 h3 h4 h5 ho even,
  u_fmt_imm-encode_u op rd upper h1 h2 hu,
  j_fmt_imm-encode_j op rd jump h1 h2 hj even_jump,
)
