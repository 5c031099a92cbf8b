-- ===== src/Emulator.antt =====
-- emulator/main.cpp: loading the guest, decoding its text beforehand, and the loop over the
-- interpreters that return after an instruction.
pub mod Inside
pub mod Predecode
pub mod Loop
pub mod Guest
use Prim.Native.Nat.{ℕ, zero, suc, ◌/◌}
use mathlib.Core.Bool.{true, ◌||◌}
use mathlib.Core.List.{List, [], ◌∷◌}
use mathlib.Core.Option.{Option, none, some}
use riscv_sbt.Base.{length, set, ltb, leb, ◌==◌, if◌then◌else◌}
use riscv_sbt.Base.Word.{◌-w◌}
use riscv_sbt.Base.Outcome.{Outcome, ok, exited, fault, ◌>>=◌}
use riscv_sbt.Decoder.Instructions.{EInstruction, Instruction}
use riscv_sbt.Runtime.Memory.{Memory, data_size}
use riscv_sbt.Runtime.Context.{Context, set_reg}
use riscv_sbt.Runtime.Arena.{initialize_heap}
use riscv_sbt.Runtime.Auxiliary.{Auxiliary, load_aux}
use riscv_sbt.Elf.{
  ElfBinarySection, compute_text_bounds, get_text_word_count, decode_to_container, load_to_memory,
}

abbrev pub base_ra : ℕ
base_ra = 0xdead_beef

-- What `main` asks of the file: the sections, the entry point, and the symbols `_start` and
-- `__global_pointer$`.
pub record Binary : Type 0 where
  pub sections : List ElfBinarySection
  pub entry_address : ℕ
  pub start_symbol : Option ℕ
  pub global_pointer : Option ℕ

-- sp, and, without a `_start`, ra and gp
unfoldable pub initial_registers : Binary → Context → Context
initial_registers binary c =
    let stacked = set_reg c 2 c.memory.initial_sp in
    elim binary.start_symbol [
      | none ↦
          set_reg (set_reg stacked 1 base_ra) 3
            (elim binary.global_pointer [ none ↦ 0 | some address ↦ address ])
      | some address ↦ stacked
    ]

-- The test of `argc`, and the `strcpy` of the path over the emulator's own name, which runs into what
-- is after it where the path is longer.
unfoldable pub take_name : Auxiliary → Outcome Auxiliary
take_name aux = elim aux.argv [
  | [] ↦ exited 1
  | name ∷ others ↦ elim others [
    | [] ↦ exited 1
    | path ∷ rest ↦
        if leb (length path) (length name)
        then ok (record aux { argv = path ∷ path ∷ rest })
        else fault
  ]
]

-- `main` up to its loop
unfoldable pub load_guest : Binary → Auxiliary → Memory → Outcome Context
unfolding initial_registers
load_guest binary aux m = do
  named ← take_name aux
  (loaded, data_end) ← load_to_memory binary.sections m
  stacked ← load_aux named true loaded
  ok (
      initial_registers binary record {
        reg = λ r. 0;
        pc = binary.entry_address;
        memory = initialize_heap data_end stacked;
        unsupported = [];
      })

-- `Instruction{EInstruction::INVALID}`
abbrev pub gap : Instruction
gap = record {
  type = EInstruction.invalid;
  instruction = 0;
  immediate = 0;
  address = 0;
  rs1 = 0;
  rs2 = 0;
  rd = 0;
}

unfoldable pub gaps : ℕ → List Instruction
gaps zero = []
gaps (suc count) = gap ∷ gaps count

-- The loop over the decoded instructions. An index past the vector's end is undefined.
unfoldable pub fill_slots : ℕ → List Instruction → List Instruction → Outcome (List Instruction)
fill_slots text_start [] slots = ok slots
fill_slots text_start (inst ∷ rest) slots =
    let k = (inst.address -w text_start) / 4 in
    let later = fill_slots text_start rest (set slots k inst) in
    if ltb k (length slots) then later else fault

unfoldable pub predecode : List ElfBinarySection → Outcome (List Instruction)
unfolding gaps fill_slots
predecode sections =
    fill_slots (compute_text_bounds sections).0 (decode_to_container sections)
      (gaps (get_text_word_count sections))

-- how the loop is left, if it is
pub data Stop : Type 0 where
  running returned out_of_bounds : Stop

-- `while (true)` around a call that runs one instruction, cut off after `count` rounds; no pc is below
-- 0
unfoldable pub emulate : (Context → Outcome Context) → ℕ → Context → Outcome (Context × Stop)
emulate run_one zero c = ok (c, running)
emulate run_one (suc count) c = do
  next ← run_one c
  (let later = emulate run_one count next in
      if next.pc == base_ra
      then ok (next, returned)
      else if leb data_size next.pc
      then ok (next, out_of_bounds)
      else later)
