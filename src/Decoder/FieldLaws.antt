-- ===== src/Decoder/FieldLaws.antt =====
-- The extractors as quotients and remainders, and the ranges of what they return.
use Prim.Native.Nat.{ℕ, ◌+◌, ◌-◌, ◌*◌, ◌/◌, ◌%◌, ◌^◌}
use mathlib.Core.Path.{◌≡◌}
use native.Mathlib.Omega.{arith}
use riscv_sbt.Base.Bits.{and_low, and_field, or_field, or_field_above}
use riscv_sbt.Base.Word.{IsU32, sar32, shl32}
use riscv_sbt.Decoder.Fields.{
  get_funct3, get_funct5, get_funct7, get_opcode, get_rs1, get_rs2, get_rd, get_shift, s_fmt_imm,
  b_fmt_imm, j_fmt_imm, i_fmt_imm, u_fmt_imm,
}

module _ (w : ℕ) where
  pub get_opcode_lem : get_opcode w ≡ w % 128
  unfolding get_opcode
  get_opcode_lem = and_low 7 w

  pub get_funct3_lem : get_funct3 w ≡ w / 2 ^ 12 % 8
  unfolding get_funct3
  get_funct3_lem = and_low 3 (w / 2 ^ 12)

  pub get_funct5_lem : get_funct5 w ≡ w / 2 ^ 27 % 32
  unfolding get_funct5
  get_funct5_lem = and_low 5 (w / 2 ^ 27)

  pub get_funct7_lem : get_funct7 w ≡ w / 2 ^ 25 % 128
  unfolding get_funct7
  get_funct7_lem = and_low 7 (w / 2 ^ 25)

  pub get_rs1_lem : get_rs1 w ≡ w / 2 ^ 15 % 32
  unfolding get_rs1
  get_rs1_lem = and_low 5 (w / 2 ^ 15)

  pub get_rs2_lem : get_rs2 w ≡ w / 2 ^ 20 % 32
  unfolding get_rs2
  get_rs2_lem = and_low 5 (w / 2 ^ 20)

  pub get_rd_lem : get_rd w ≡ w / 2 ^ 7 % 32
  unfolding get_rd
  get_rd_lem = and_low 5 (w / 2 ^ 7)

  pub get_shift_lem : get_shift w ≡ w / 2 ^ 20 % 32
  unfolding get_shift
  get_shift_lem = and_low 5 (w / 2 ^ 20)

-- the two's complement pattern of an `n`-bit field, widened to 32 bits
abbrev pub sign_extend : ℕ → ℕ → ℕ
sign_extend n v = (v + 2 ^ 32 - v / 2 ^ (n - 1) * 2 ^ n) % 2 ^ 32

module _ (w : ℕ) (h : IsU32 w) where
  pub i_fmt_imm_lem : i_fmt_imm w ≡ sign_extend 12 (w / 2 ^ 20)
  unfolding i_fmt_imm sar32
  i_fmt_imm_lem = ground (arith, and_field 12 20 w)

  pub u_fmt_imm_lem : u_fmt_imm w ≡ sign_extend 20 (w / 2 ^ 12)
  unfolding u_fmt_imm sar32
  u_fmt_imm_lem = ground (arith, and_field 20 12 w)

  pub s_fmt_imm_lem : s_fmt_imm w ≡ sign_extend 12 (w / 2 ^ 25 * 2 ^ 5 + w / 2 ^ 7 % 32)
  unfolding s_fmt_imm
  s_fmt_imm_lem = ground (
    arith,
    and_low 5 (w / 2 ^ 7),
    and_low 7 (w / 2 ^ 25),
    or_field_above 5 (w / 2 ^ 25) (w / 2 ^ 7 % 32),
    and_field 1 11 (w / 2 ^ 25 * 2 ^ 5 + w / 2 ^ 7 % 32),
    or_field_above 12 0xfffff (w / 2 ^ 25 * 2 ^ 5 + w / 2 ^ 7 % 32),
  )

  pub b_fmt_imm_lem :
      b_fmt_imm w
      ≡ sign_extend 13 (
          w / 2 ^ 31 * 2 ^ 12
          + w / 2 ^ 7 % 2 * 2 ^ 11
          + w / 2 ^ 25 % 64 * 2 ^ 5
          + w / 2 ^ 8 % 16 * 2)
  unfolding b_fmt_imm sar32 shl32
  b_fmt_imm_lem = ground (
    arith,
    and_low 1 (w / 2 ^ 31),
    and_low 1 (w / 2 ^ 7),
    and_low 6 (w / 2 ^ 25),
    and_low 4 (w / 2 ^ 8),
    or_field 12 (w / 2 ^ 31) (w / 2 ^ 7 % 2 * 2 ^ 11),
    or_field 11 (w / 2 ^ 31 * 2 + w / 2 ^ 7 % 2) (w / 2 ^ 25 % 64 * 2 ^ 5),
    or_field 5 ((w / 2 ^ 31 * 2 + w / 2 ^ 7 % 2) * 64 + w / 2 ^ 25 % 64) (w / 2 ^ 8 % 16 * 2),
  )

  pub j_fmt_imm_lem :
      j_fmt_imm w
      ≡ sign_extend 21 (
          w / 2 ^ 31 * 2 ^ 20
          + w / 2 ^ 12 % 256 * 2 ^ 12
          + w / 2 ^ 20 % 2 * 2 ^ 11
          + w / 2 ^ 21 % 1024 * 2)
  unfolding j_fmt_imm sar32 shl32
  j_fmt_imm_lem = ground (
    arith,
    and_low 1 (w / 2 ^ 31),
    and_low 8 (w / 2 ^ 12),
    and_low 1 (w / 2 ^ 20),
    and_low 10 (w / 2 ^ 21),
    or_field 20 (w / 2 ^ 31) (w / 2 ^ 12 % 256 * 2 ^ 12),
    or_field 12 (w / 2 ^ 31 * 256 + w / 2 ^ 12 % 256) (w / 2 ^ 20 % 2 * 2 ^ 11),
    or_field 11 ((w / 2 ^ 31 * 256 + w / 2 ^ 12 % 256) * 2 + w / 2 ^ 20 % 2)
        (w / 2 ^ 21 % 1024 * 2),
  )
