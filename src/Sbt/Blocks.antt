-- ===== src/Sbt/Blocks.antt =====
-- sbt/analysis/BasicBlocks.cpp: the addresses at which basic blocks start.
use Prim.Native.Nat.{ℕ}
use mathlib.Core.Bool.{Bool, ◌&&◌}
use mathlib.Core.List.{List, [], ◌∷◌, ◌++◌, map}
use mathlib.Core.Path.{◌≡◌}
use mathlib.Core.Logic.{◌⊎◌}
use riscv_sbt.Elf.{ElfBinarySection, data_section, get_type_sections, compute_text_bounds}
use riscv_sbt.Base.{ltb, leb, if◌then◌else◌}
use riscv_sbt.Base.Word.{◌+w◌}
use riscv_sbt.Decoder.Instructions.{EInstruction, Instruction}

-- `std::set<uint32_t>` is a list of its elements, of which only the membership is used.
abbrev pub IsLeader : ℕ → List ℕ → Type 0
IsLeader x [] = ⊥
IsLeader x (y ∷ rest) = (x ≡ y) ⊎ IsLeader x rest

-- the addresses that the loop's body inserts for one instruction
unfoldable pub leaders_at : EInstruction → ℕ → ℕ → List ℕ
leaders_at EInstruction.beq address imm = (address +w imm) ∷ (address +w 4) ∷ []
leaders_at EInstruction.bne address imm = (address +w imm) ∷ (address +w 4) ∷ []
leaders_at EInstruction.blt address imm = (address +w imm) ∷ (address +w 4) ∷ []
leaders_at EInstruction.bge address imm = (address +w imm) ∷ (address +w 4) ∷ []
leaders_at EInstruction.bltu address imm = (address +w imm) ∷ (address +w 4) ∷ []
leaders_at EInstruction.bgeu address imm = (address +w imm) ∷ (address +w 4) ∷ []
leaders_at EInstruction.jal address imm = (address +w imm) ∷ (address +w 4) ∷ []
leaders_at EInstruction.jalr address imm = (address +w 4) ∷ []
leaders_at _ address imm = []

unfoldable pub instruction_leaders : List Instruction → List ℕ
unfolding leaders_at
instruction_leaders [] = []
instruction_leaders (i ∷ rest) = leaders_at i.type i.address i.immediate ++ instruction_leaders rest

-- the nested loops over the branch targets of the profile
unfoldable pub profiled_leaders : List (ℕ × List (ℕ × ℕ)) → List ℕ
profiled_leaders [] = []
profiled_leaders ((address, targets) ∷ rest) = map (λ t. t.0) targets ++ profiled_leaders rest

unfoldable pub get_leaders : List Instruction → Bool → List (ℕ × List (ℕ × ℕ)) → List ℕ
unfolding instruction_leaders profiled_leaders
get_leaders [] use_profiling_data branch_targets = []
get_leaders (i ∷ rest) use_profiling_data branch_targets =
    i.address
    ∷ (instruction_leaders (i ∷ rest)
        ++ (if use_profiling_data then profiled_leaders branch_targets else []))

-- one section's words
unfoldable pub harvest_section : ℕ → ℕ → List ℕ → List ℕ → List ℕ
harvest_section text_start text_end [] leaders = leaders
harvest_section text_start text_end (address ∷ rest) leaders =
    harvest_section text_start text_end rest
      (if leb text_start address && ltb address text_end then address ∷ leaders else leaders)

unfoldable pub harvest_sections : ℕ → ℕ → List ElfBinarySection → List ℕ → List ℕ
unfolding harvest_section
harvest_sections text_start text_end [] leaders = leaders
harvest_sections text_start text_end (s ∷ rest) leaders =
    harvest_sections text_start text_end rest (harvest_section text_start text_end s.words leaders)

-- The addresses of the text are those that loading the file has computed.
unfoldable pub harvest_static_data : List ElfBinarySection → List ℕ → List ℕ
unfolding harvest_sections
harvest_static_data sections leaders =
    let (text_start, text_end) = compute_text_bounds sections in
    harvest_sections text_start text_end (get_type_sections data_section sections) leaders
