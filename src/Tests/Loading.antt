-- ===== src/Tests/Loading.antt =====
-- A file with a section of data before its text.
use Prim.Native.Nat.{ℕ, ◌+◌, ◌*◌, ◌%◌, ◌^◌, ◌≤◌}
use mathlib.Core.Path.{◌≡◌, refl}
use mathlib.Core.Logic.{inl, inr}
use mathlib.Core.List.{List, [], ◌∷◌}
use mathlib.Core.Option.{some}
use native.Mathlib.Omega.{arith}
use riscv_sbt.Base.{get_elem?, length}
use riscv_sbt.Decoder.Decode.{decode}
use riscv_sbt.Base.Word.{◌+w◌, ◌-w◌}
use riscv_sbt.Base.Outcome.{ok}
use riscv_sbt.Runtime.Memory.{Memory, data_size, read}
use riscv_sbt.Elf.Loading.{end_of_load, EndsInRange, IsDisjoint, load_to_memory-words}
use riscv_sbt.Elf.{
  ElfBinarySection, SegmentInfo, text_section, resolve_section_type, get_byte_size, get_end_address,
  get_type_sections, compute_text_bounds, bounds_from, load_to_memory, get_load_address,
  decode_to_container,
}
use riscv_sbt.Elf.TextBounds.{IsText, IsAttained, compute_text_bounds-span}
use riscv_sbt.Sbt.Simulate.Runs.{Located}
use riscv_sbt.Sbt.Simulate.Text.{decode_to_container-Located}
use riscv_sbt.Tests.Machine.{addi_word, sub_word, memory}

abbrev segment : SegmentInfo
segment = record { virtual_address = 0; load_address = 0; segment_flags = 5 }

abbrev pub data_first : ElfBinarySection
data_first = record { start_address = 0; words = 1 ∷ []; segment_info = segment; section_flags = 3 }

abbrev pub text_second : ElfBinarySection
text_second = record {
  start_address = 16;
  words = addi_word ∷ sub_word ∷ [];
  segment_info = segment;
  section_flags = 6;
}

abbrev pub file : List ElfBinarySection
file = data_first ∷ text_second ∷ []

file_bounds : compute_text_bounds file ≡ (16, 24)
unfolding compute_text_bounds bounds_from resolve_section_type get_end_address get_byte_size ◌+w◌
file_bounds = refl

text_second-IsText : IsText text_second
unfolding resolve_section_type
text_second-IsText = refl

compute_text_bounds-span_example :
    ((compute_text_bounds file).0 ≤ 16)
    × (get_end_address text_second ≤ (compute_text_bounds file).1)
    × IsAttained file (compute_text_bounds file)
compute_text_bounds-span_example =
    compute_text_bounds-span file text_second (inr (inl refl)) text_second-IsText

file_text : get_type_sections text_section file ≡ text_second ∷ []
unfolding get_type_sections resolve_section_type
file_text = refl

decode_to_container-Located_example :
    (length (decode_to_container file) ≡ 2)
    × (get_elem? (decode_to_container file) 1 ≡ some (decode sub_word (16 +w 1 * 4)))
    × Located (decode_to_container file) 16 (decode_to_container file) 16
decode_to_container-Located_example =
    decode_to_container-Located file text_second file_text (omega arith) (omega arith) 1 sub_word
      refl

pub file_end : end_of_load data_first ≤ data_size
unfolding get_load_address ◌+w◌ ◌-w◌
file_end = omega arith

pub file_ends : EndsInRange file
unfolding get_load_address ◌+w◌ ◌-w◌
file_ends = (omega arith, (omega arith, tt))

pub file_apart : IsDisjoint file
unfolding get_load_address ◌+w◌ ◌-w◌
file_apart = ((inl (omega arith), tt), (tt, tt))

load_to_memory-words_example :
    (after : Memory) × (last : ℕ) × (load_to_memory file memory ≡ ok (after, last))
    × (read 4 after (get_load_address data_first + 0 * 4) ≡ ok (1 % 256 ^ 4))
load_to_memory-words_example =
    load_to_memory-words file memory file_ends file_apart data_first (inl refl) file_end 0 1 refl
