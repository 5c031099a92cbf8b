-- ===== src/Runtime/Memory.antt =====
-- lib/runtime/Memory.h: the arena and its typed reads and writes.
use Prim.Native.Nat.{ℕ, zero, suc, ◌+◌, ◌*◌, ◌/◌, ◌%◌}
use mathlib.Core.List.{List}
use riscv_sbt.Base.{leb, ◌==◌, if◌then◌else◌}
use riscv_sbt.Base.Outcome.{Outcome, ok, fault}

abbrev pub data_size : ℕ
data_size = 0x80000

abbrev pub mmap_size : ℕ
mmap_size = 0x80000

pub record MappedArea : Type 0 where
  pub base : ℕ
  pub size : ℕ

-- `bytes` is the array `data`, by guest address.
pub record Memory : Type 0 where
  pub bytes : ℕ → ℕ
  pub initial_sp : ℕ
  pub heap_end : ℕ
  pub heap_base : ℕ
  pub page_size : ℕ
  pub mapped_areas : List MappedArea

-- a store of one byte
abbrev pub update : (ℕ → ℕ) → ℕ → ℕ → ℕ → ℕ
update f i v j = if j == i then v else f j

-- `memcpy` between the array and a value of `n` bytes, least significant byte first, as on x86-64
unfoldable pub load_bytes : (ℕ → ℕ) → ℕ → ℕ → ℕ
load_bytes f address zero = 0
load_bytes f address (suc n) = f address + 256 * load_bytes f (address + 1) n

unfoldable pub store_bytes : (ℕ → ℕ) → ℕ → ℕ → ℕ → (ℕ → ℕ)
store_bytes f address zero value = f
store_bytes f address (suc n) value =
    store_bytes (update f address (value % 256)) (address + 1) n (value / 256)

-- `read<T>` and `write<T>` of a type of `n` bytes; `write` cuts the value to the type first.
unfoldable pub read : ℕ → Memory → ℕ → Outcome ℕ
read n m address =
    if leb (address + n) (data_size + mmap_size) then ok (load_bytes m.bytes address n) else fault

unfoldable pub write : ℕ → Memory → ℕ → ℕ → Outcome Memory
write n m address value =
    if leb (address + n) (data_size + mmap_size)
    then ok (record m { bytes = store_bytes m.bytes address n value })
    else fault
