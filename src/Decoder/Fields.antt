-- ===== src/Decoder/Fields.antt =====
-- The field extractors of lib/decoding/Decoder.cpp.
use Prim.Native.Nat.{ℕ, bit_and, bit_or}
use riscv_sbt.Base.{◌==◌, if◌then◌else◌}
use riscv_sbt.Base.Word.{u32, ◌>>>◌, ◌<<<◌, shl32, sar32}

unfoldable pub get_funct3 : ℕ → ℕ
get_funct3 w = bit_and (w >>> 12) 0x7

unfoldable pub get_funct5 : ℕ → ℕ
get_funct5 w = bit_and (w >>> 27) 0x1f

unfoldable pub get_funct7 : ℕ → ℕ
get_funct7 w = bit_and (w >>> 25) 0x7f

unfoldable pub get_opcode : ℕ → ℕ
get_opcode w = bit_and w 0x7f

unfoldable pub get_rs1 : ℕ → ℕ
get_rs1 w = bit_and (w >>> 15) 0x1f

unfoldable pub get_rs2 : ℕ → ℕ
get_rs2 w = bit_and (w >>> 20) 0x1f

unfoldable pub get_rd : ℕ → ℕ
get_rd w = bit_and (w >>> 7) 0x1f

unfoldable pub i_fmt_imm : ℕ → ℕ
i_fmt_imm w = sar32 (bit_and w 0xfff0_0000) 20

unfoldable pub s_fmt_imm : ℕ → ℕ
s_fmt_imm w =
    let imm = bit_or (bit_and (w >>> 7) 0x1f) (u32 (bit_and (w >>> 25) 0x7f <<< 5)) in
    if bit_and imm 0x800 == 0 then imm else bit_or imm 0xffff_f000

unfoldable pub b_fmt_imm : ℕ → ℕ
b_fmt_imm w =
    let b12 = u32 (bit_and (w >>> 31) 0x1 <<< 12) in
    let b11 = u32 (bit_and (w >>> 7) 0x1 <<< 11) in
    let b10_5 = u32 (bit_and (w >>> 25) 0x3f <<< 5) in
    let b4_1 = u32 (bit_and (w >>> 8) 0xf <<< 1) in
    let imm = bit_or (bit_or (bit_or b12 b11) b10_5) b4_1 in sar32 (shl32 imm 19) 19

unfoldable pub j_fmt_imm : ℕ → ℕ
j_fmt_imm w =
    let b20 = u32 (bit_and (w >>> 31) 0x1 <<< 20) in
    let b19_12 = u32 (bit_and (w >>> 12) 0xff <<< 12) in
    let b11 = u32 (bit_and (w >>> 20) 0x1 <<< 11) in
    let b10_1 = u32 (bit_and (w >>> 21) 0x3ff <<< 1) in
    let imm = bit_or (bit_or (bit_or b20 b19_12) b11) b10_1 in sar32 (shl32 imm 11) 11

unfoldable pub u_fmt_imm : ℕ → ℕ
u_fmt_imm w = sar32 (bit_and w 0xffff_f000) 12

unfoldable pub get_shift : ℕ → ℕ
get_shift w = bit_and (w >>> 20) 0x1f

unfoldable pub get_sh_type : ℕ → ℕ
get_sh_type w = get_funct7 w
