-- ===== src/Tests/Recording.antt =====
-- A profile that is loaded, added to and saved.
use mathlib.Core.Path.{◌≡◌, refl}
use mathlib.Core.Logic.{inr}
use mathlib.Core.Bool.{true, false}
use mathlib.Core.List.{List, [], ◌∷◌}
use mathlib.Core.Option.{none, some}
use native.Mathlib.Omega.{arith}
use riscv_sbt.Profiling.{
  ProfilingInfo, parse_instruction_name, instruction_names, index_from, zeros, change_at,
  parse_address, stoul, read_prefixed, read_digits, digit_value,
}
use riscv_sbt.Profiling.Document.{
  Document, counted, load_counts, load_registers, load_counted, load_destinations, value_at,
  load_branches, has_non_zero_count, save, load_document,
}
use riscv_sbt.Profiling.Recorded.{
  Event, instruction_event, branch_event, register_event, record_all,
}
use riscv_sbt.Profiling.Opened.{IsOpened}
use riscv_sbt.Profiling.RoundTrip.{IsReloaded, load-save}

abbrev fresh : ProfilingInfo
fresh = record {
  append_mode = true;
  has_loaded_existing_data = false;
  instruction_counts = [];
  register_access_counts = [];
  indirect_branch_targets = [];
}

-- "0x10" with 4 jumps to "0x20"
abbrev document : Document
document = record {
  instruction_counts = some (("ADDI", 9) ∷ ("INVALID", 1) ∷ []);
  register_accesses = some (0 ∷ 3 ∷ []);
  indirect_branch_targets =
      some ((48 ∷ 120 ∷ 49 ∷ 48 ∷ [], counted ((48 ∷ 120 ∷ 50 ∷ 48 ∷ [], 4) ∷ [])) ∷ []);
}

abbrev loaded : ProfilingInfo
loaded = elim (load_document document fresh) [ none ↦ fresh | some p ↦ p ]

loaded-IsOpened : IsOpened loaded
unfolding load_document load_counts parse_instruction_name instruction_names index_from zeros
    load_registers load_branches load_destinations load_counted change_at value_at parse_address
    stoul read_prefixed read_digits digit_value has_non_zero_count
loaded-IsOpened = inr (document, fresh, refl)

abbrev events : List Event
events = instruction_event 10 ∷ register_event 5 1 0 2 ∷ branch_event 0x10 0x30 ∷ []

load-save_example :
    (after : ProfilingInfo) × (load_document (save (record_all events loaded)) fresh ≡ some after)
    × IsReloaded loaded (record_all events loaded) fresh after
load-save_example =
    load-save events loaded fresh (tt, (tt, ((omega arith, omega arith), tt))) loaded-IsOpened
