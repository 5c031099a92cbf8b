-- ===== src/Tests/Translating.antt =====
-- The leaders of a short text.
use mathlib.Core.Path.{◌≡◌, refl}
use mathlib.Core.Logic.{◌⊎◌, ◌↔◌, ◌≢◌, inl, inr}
use mathlib.Core.Bool.{false}
use mathlib.Core.List.{List, [], ◌∷◌}
use riscv_sbt.Base.Word.{◌+w◌}
use riscv_sbt.Base.Outcome.{Leaves}
use riscv_sbt.Decoder.Instructions.{EInstruction, Instruction}
use riscv_sbt.Runtime.Context.{Context}
use riscv_sbt.Interpreter.Predecoded.{run_instruction_predecoded}
use riscv_sbt.Sbt.Blocks.{
  IsLeader, get_leaders, instruction_leaders, leaders_at, harvest_static_data,
}
use riscv_sbt.Sbt.Leaders.{next_pc-IsLeader, return_point-IsLeader}
use riscv_sbt.Sbt.Harvest.{InText, IsDataWord, harvest_static_data_iff}
use riscv_sbt.Elf.{ElfBinarySection, compute_text_bounds}
use riscv_sbt.Tests.Machine.{start, stop}
use riscv_sbt.Tests.Loading.{data_first, text_second}

abbrev add_at_0 : Instruction
add_at_0 = record {
  type = EInstruction.add;
  instruction = 0;
  immediate = 0;
  address = 0;
  rs1 = 1;
  rs2 = 2;
  rd = 3;
}

-- jal x1, -4 at 4
abbrev jal_at_4 : Instruction
jal_at_4 = record {
  type = EInstruction.jal;
  instruction = 0;
  immediate = 0xffff_fffc;
  address = 4;
  rs1 = 0;
  rs2 = 0;
  rd = 1;
}

abbrev text : List Instruction
text = add_at_0 ∷ jal_at_4 ∷ []

text_leaders : get_leaders text false [] ≡ 0 ∷ 0 ∷ 8 ∷ []
unfolding get_leaders instruction_leaders leaders_at ◌+w◌
text_leaders = refl

abbrev at_4 : Context
at_4 = record start { pc = 4 }

jal_not_jalr : EInstruction.jal ≢ EInstruction.jalr
jal_not_jalr e = cc

jal_not_ecall : EInstruction.jal ≢ EInstruction.ecall
jal_not_ecall e = cc

next_pc-IsLeader_example :
    Leaves
      (λ (d : Context). (d.pc ≡ 4 +w 4) ⊎ IsLeader d.pc (get_leaders text false []))
      (run_instruction_predecoded stop at_4 jal_at_4)
next_pc-IsLeader_example =
    next_pc-IsLeader stop at_4 jal_at_4 text false [] (inr (inl refl)) refl jal_not_jalr
      jal_not_ecall

return_point-IsLeader_example : IsLeader (4 +w 4) (get_leaders text false [])
return_point-IsLeader_example =
    return_point-IsLeader jal_at_4 text false [] (inr (inl refl)) (inl refl)

-- a section of data that names an address of the text from 16 to 24
abbrev pointers : List ElfBinarySection
pointers = record data_first { words = 20 ∷ 100 ∷ [] } ∷ text_second ∷ []

harvest_static_data_iff_example : IsLeader 20 (harvest_static_data pointers (0 ∷ [])) ↔ (
    IsLeader 20 (0 ∷ [])
    ⊎ (InText (compute_text_bounds pointers).0 (compute_text_bounds pointers).1 20
        × IsDataWord 20 pointers))
harvest_static_data_iff_example = harvest_static_data_iff 20 pointers (0 ∷ [])
