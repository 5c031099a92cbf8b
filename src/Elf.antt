-- ===== src/Elf.antt =====
-- lib/elf: the sections of a loaded ELF file, the bounds of the text and the decoded instructions.
-- Reading the file is libelf's; its sections are given.
pub mod TextBounds
pub mod Loading
use Prim.Native.Nat.{ℕ, ◌+◌, ◌*◌, ◌/◌, bit_and, min, max}
use mathlib.Core.Bool.{Bool, true, false}
use mathlib.Core.List.{List, [], ◌∷◌, ◌++◌}
use mathlib.Core.Option.{Option, none, some}
use riscv_sbt.Base.{length, set, ltb, ◌==◌, if◌then◌else◌}
use riscv_sbt.Base.Word.{u32, ◌+w◌, ◌-w◌}
use riscv_sbt.Base.Outcome.{Outcome, ok, fault, ◌>>=◌}
use riscv_sbt.Decoder.Instructions.{EInstruction, Instruction}
use riscv_sbt.Decoder.Decode.{decode}
use riscv_sbt.Runtime.Memory.{Memory, data_size, write}

-- `Text`, `Data` and `Other`
pub data SectionType : Type 0 where
  text_section data_section other_section : SectionType

pub record SegmentInfo : Type 0 where
  pub virtual_address : ℕ
  pub load_address : ℕ
  pub segment_flags : ℕ

-- The name, which is only printed, is left out; the type is computed from the flags when asked for.
pub record ElfBinarySection : Type 0 where
  pub start_address : ℕ
  pub words : List ℕ
  pub segment_info : SegmentInfo
  pub section_flags : ℕ

-- `SHF_ALLOC` and `SHF_EXECINSTR` of elf.h
abbrev shf_alloc : ℕ
shf_alloc = 2

abbrev shf_execinstr : ℕ
shf_execinstr = 4

unfoldable pub resolve_section_type : ElfBinarySection → SectionType
resolve_section_type s =
    if bit_and s.section_flags shf_execinstr == 0
    then (if bit_and s.section_flags shf_alloc == 0 then other_section else data_section)
    else text_section

abbrev pub is_type : SectionType → SectionType → Bool
is_type text_section text_section = true
is_type data_section data_section = true
is_type other_section other_section = true
is_type _ _ = false

unfoldable pub get_byte_size : ElfBinarySection → ℕ
get_byte_size s = u32 (length s.words * 4)

unfoldable pub get_end_address : ElfBinarySection → ℕ
unfolding get_byte_size
get_end_address s = s.start_address +w get_byte_size s

unfoldable pub get_load_address : ElfBinarySection → ℕ
get_load_address s =
    s.segment_info.load_address +w (s.start_address -w s.segment_info.virtual_address)

unfoldable pub get_type_sections : SectionType → List ElfBinarySection → List ElfBinarySection
unfolding resolve_section_type
get_type_sections type [] = []
get_type_sections type (s ∷ rest) =
    if is_type (resolve_section_type s) type
    then s ∷ get_type_sections type rest
    else get_type_sections type rest

-- `found`, with the two addresses once it is set
unfoldable pub bounds_from : Option (ℕ × ℕ) → List ElfBinarySection → Option (ℕ × ℕ)
unfolding resolve_section_type get_end_address
bounds_from found [] = found
bounds_from found (s ∷ rest) =
    if is_type (resolve_section_type s) text_section
    then bounds_from
        (elim found [
          | none ↦ some (s.start_address, get_end_address s)
          | some (first, last) ↦ some (min first s.start_address, max last (get_end_address s))
        ])
        rest
    else bounds_from found rest

-- `textStartAddress` and `textEndAddress`, which are 0 to begin with
unfoldable pub compute_text_bounds : List ElfBinarySection → ℕ × ℕ
unfolding bounds_from
compute_text_bounds sections = elim (bounds_from none sections) [
  | none ↦ (0, 0)
  | some bounds ↦ bounds
]

unfoldable pub get_text_word_count : List ElfBinarySection → ℕ
unfolding compute_text_bounds
get_text_word_count sections =
    let (first, last) = compute_text_bounds sections in (last -w first) / 4

-- one section's words, from `address` on
unfoldable pub decode_words : ℕ → List ℕ → List Instruction
decode_words address [] = []
decode_words address (word ∷ rest) = decode word address ∷ decode_words (address +w 4) rest

unfoldable pub decode_sections : List ElfBinarySection → List Instruction
unfolding decode_words
decode_sections [] = []
decode_sections (s ∷ rest) = decode_words s.start_address s.words ++ decode_sections rest

unfoldable pub decode_to_container : List ElfBinarySection → List Instruction
unfolding get_type_sections decode_sections
decode_to_container sections = decode_sections (get_type_sections text_section sections)

-- the words of a section to `address` and on; what is left of `addr`, too
unfoldable pub load_words : ℕ → List ℕ → Memory → Outcome (Memory × ℕ)
load_words address [] m = ok (m, address)
load_words address (word ∷ rest) m = do
  written ← write 4 m address word
  load_words (address +w 4) rest written

-- The loop over the sections, with the highest end so far. A section that is too large is skipped.
unfoldable pub load_sections : ℕ → List ElfBinarySection → Memory → Outcome (Memory × ℕ)
unfolding get_load_address get_byte_size load_words
load_sections data_end [] m = ok (m, data_end)
load_sections data_end (s ∷ rest) m =
    let address = get_load_address s in
    let skipped = load_sections data_end rest m in
    if ltb data_size (address +w get_byte_size s) then skipped else (do
      (loaded, last) ← load_words address s.words m
      load_sections (if ltb data_end last then last else data_end) rest loaded)

unfoldable pub load_to_memory : List ElfBinarySection → Memory → Outcome (Memory × ℕ)
unfolding load_sections
load_to_memory sections m = load_sections 0 sections m
