-- ===== src/Decoder/Decode.antt =====
-- `Decoder::decode`: the first row of the tables that fits the word.
use Prim.Native.Nat.{ℕ, bit_and}
use mathlib.Core.Bool.{Bool, true, ◌&&◌, ◌||◌}
use mathlib.Core.List.{List, [], ◌∷◌}
use riscv_sbt.Base.{◌==◌, if◌then◌else◌}
use riscv_sbt.Decoder.Instructions.{EInstruction, EInstructionFmt, InstructionSpec, Instruction}
use riscv_sbt.Decoder.Table.{spec_lists}
use riscv_sbt.Decoder.Fields.{
  get_funct3, get_funct7, get_opcode, get_rs1, get_rs2, get_rd, i_fmt_imm, s_fmt_imm, b_fmt_imm,
  j_fmt_imm, u_fmt_imm,
}

-- the condition of the loop's `if`
unfoldable pub fits : ℕ → InstructionSpec → Bool
fits w spec =
    get_opcode w == spec.opcode
    && (if spec.use_funct3 then get_funct3 w == spec.funct3 else true)
    && (if spec.use_funct7 then get_funct7 w == spec.funct7 else true)
    && (spec.bits_mask == 0 || bit_and w spec.bits_mask == spec.bits_pattern)

-- the `switch` on the format; `Instruction instr{}` starts with a zero immediate
unfoldable pub format_imm : EInstructionFmt → ℕ → ℕ
format_imm EInstructionFmt.r w = 0
format_imm EInstructionFmt.i w = i_fmt_imm w
format_imm EInstructionFmt.s w = s_fmt_imm w
format_imm EInstructionFmt.b w = b_fmt_imm w
format_imm EInstructionFmt.j w = j_fmt_imm w
format_imm EInstructionFmt.u w = u_fmt_imm w

unfoldable pub from_spec : ℕ → ℕ → InstructionSpec → Instruction
from_spec w address spec = record {
  type = spec.type;
  instruction = w;
  immediate = format_imm spec.format w;
  address = address;
  rs1 = get_rs1 w;
  rs2 = get_rs2 w;
  rd = get_rd w;
}

unfoldable pub no_instruction : ℕ → Instruction
no_instruction address = record {
  type = EInstruction.invalid;
  instruction = 0;
  immediate = 0;
  address = address;
  rs1 = 0;
  rs2 = 0;
  rd = 0;
}

-- the two nested loops over the tables
unfoldable pub decode_in : List InstructionSpec → ℕ → ℕ → Instruction
decode_in [] w address = no_instruction address
decode_in (spec ∷ specs) w address =
    let rest = decode_in specs w address in if fits w spec then from_spec w address spec else rest

unfoldable pub decode : ℕ → ℕ → Instruction
unfolding decode_in fits from_spec no_instruction format_imm spec_lists
decode w address = decode_in spec_lists w address
