-- ===== src/Tests/Emulating.antt =====
-- `main` of the emulator on a file of two sections.
use Prim.Native.Nat.{ℕ, ◌+◌, ◌*◌, ◌^◌, ◌<◌}
use mathlib.Core.Path.{◌≡◌, refl, sym, subst}
use mathlib.Core.Logic.{inl, inr}
use mathlib.Core.List.{List, [], ◌∷◌}
use mathlib.Core.Option.{none, some}
use native.Mathlib.Omega.{arith}
use riscv_sbt.Base.{length}
use riscv_sbt.Base.Outcome.{ok}
use riscv_sbt.Decoder.Instructions.{Instruction}
use riscv_sbt.Runtime.Context.{Context}
use riscv_sbt.Runtime.Auxiliary.{at_pagesz, get_aux_value}
use riscv_sbt.Elf.{
  ElfBinarySection, resolve_section_type, compute_text_bounds, get_text_word_count,
  decode_to_container,
}
use riscv_sbt.Elf.TextBounds.{IsText, IsSection}
use riscv_sbt.Emulator.{Binary, load_guest, predecode, emulate}
use riscv_sbt.Emulator.Predecode.{IsSlot, predecode-slots}
use riscv_sbt.Emulator.Loop.{one_instruction, Follows, emulate-Follows}
use riscv_sbt.Emulator.Guest.{IsReady, load_guest-IsReady}
use riscv_sbt.Tests.Machine.{memory, stop}
use riscv_sbt.Tests.Stack.{aux}
use riscv_sbt.Tests.Running.{text, start}
use riscv_sbt.Tests.Loading.{file, file_ends, file_apart}

file_whole :
    (s : ElfBinarySection)
    → IsSection s file
    → IsText s
    → s.start_address + 4 * length s.words < 2 ^ 32
unfolding resolve_section_type
file_whole s (inl is) code =
    subst (λ x. x.start_address + 4 * length x.words < 2 ^ 32) (sym is) (omega arith)
file_whole s (inr (inl is)) code =
    subst (λ x. x.start_address + 4 * length x.words < 2 ^ 32) (sym is) (omega arith)
file_whole s (inr (inr none_left)) code = elim none_left [ ]

predecode-slots_example :
    (slots : List Instruction) × (predecode file ≡ ok slots)
    × (length slots ≡ get_text_word_count file)
    × ((k : ℕ)
        → k < get_text_word_count file
        → IsSlot (compute_text_bounds file).0 (decode_to_container file) slots k)
predecode-slots_example = predecode-slots file file_whole

emulate-Follows_example :
    Follows stop text 0 5 start (emulate (one_instruction stop text 0) 5 start)
emulate-Follows_example = emulate-Follows stop text 0 5 start

-- a file without a `_start`
abbrev binary : Binary
binary = record {
  sections = file;
  entry_address = 16;
  start_symbol = none;
  global_pointer = some 0x800;
}

load_guest-IsReady_example :
    (c : Context) × (load_guest binary aux memory ≡ ok c)
    × IsReady binary memory
        ((0x70 ∷ []) ∷ (0x78 ∷ []) ∷ [])
        aux.envp
        (get_aux_value aux.auxv at_pagesz)
        c
load_guest-IsReady_example =
    load_guest-IsReady binary aux memory (0x65 ∷ []) (0x70 ∷ []) ((0x78 ∷ []) ∷ []) file_ends
      file_apart refl (omega arith) (omega arith)
