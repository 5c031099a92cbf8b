-- ===== src/Runtime/Arena.antt =====
-- lib/runtime/Memory.cpp: the heap's bounds and the arena that `mmap` takes its space from.
pub mod Page
pub mod Placed
pub mod Erase
pub mod Reserve
use Prim.Native.Nat.{ℕ, ◌+◌, ◌-◌, ◌^◌, bit_and}
use mathlib.Core.Bool.{Bool, true, false}
use mathlib.Core.List.{List, [], ◌∷◌, ◌++◌}
use mathlib.Core.Option.{Option, none, some}
use mathlib.Core.Option
use riscv_sbt.Base.{ltb, leb, ◌==◌, if◌then◌else◌}
use riscv_sbt.Base.Word.{u32, u64, ◌+w◌, ◌-w◌}
use riscv_sbt.Runtime.Memory.{Memory, MappedArea, data_size, mmap_size}

-- `(address + (pageSize - 1)) & ~(pageSize - 1)` on `uint64_t`, for the page size `p`
unfoldable pub page_align : ℕ → ℕ → ℕ
page_align p address =
    let low = u64 (p + 2 ^ 64 - 1) in bit_and (u64 (address + low)) (2 ^ 64 - 1 - low)

unfoldable pub initialize_heap : ℕ → Memory → Memory
unfolding page_align
initialize_heap base m =
    let aligned = u32 (page_align m.page_size base) in
    record m { heap_base = aligned; heap_end = aligned }

-- `previousEnd`
unfoldable pub end_of : ℕ → MappedArea → ℕ
end_of p a = u32 (page_align p (a.base +w a.size))

-- the loop of `getMmapAddress`, over the areas in their order
unfoldable pub find_address : ℕ → ℕ → List MappedArea → ℕ
find_address p size [] = u32 (page_align p data_size)
find_address p size (a ∷ []) = end_of p a
find_address p size (a ∷ b ∷ rest) =
    let later = find_address p size (b ∷ rest) in
    if leb size (b.base -w end_of p a) then end_of p a else later

unfoldable pub get_mmap_address : ℕ → Memory → ℕ
unfolding find_address
get_mmap_address size m = find_address m.page_size size m.mapped_areas

-- `std::ranges::sort` by `base`. Areas of one base keep their order here, which the library does
-- not promise.
unfoldable pub insert : MappedArea → List MappedArea → List MappedArea
insert a [] = a ∷ []
insert a (b ∷ rest) =
    let later = insert a rest in if ltb b.base a.base then b ∷ later else a ∷ b ∷ rest

unfoldable pub sort : List MappedArea → List MappedArea
unfolding insert
sort [] = []
sort (a ∷ rest) = insert a (sort rest)

-- The Boolean is the function's result.
unfoldable pub reserve_mmap_space : ℕ → Memory → Bool × Memory
unfolding get_mmap_address sort
reserve_mmap_space size m =
    let address = get_mmap_address size m in
    if ltb (data_size + mmap_size) (address +w size) then (false, m) else (
      true,
      record m {
        mapped_areas = sort (m.mapped_areas ++ (record { base = address; size = size } ∷ []));
      },
    )

-- `find_if` and `erase` together: the areas without the first one of the given base, where its size
-- is the given one
unfoldable pub erase_area : ℕ → ℕ → List MappedArea → Option (List MappedArea)
erase_area address size [] = none
erase_area address size (a ∷ rest) =
    let later = erase_area address size rest in
    if a.base == address
    then (if a.size == size then some rest else none)
    else Option.map (λ left. a ∷ left) later

unfoldable pub free_mmap_space : ℕ → ℕ → Memory → Bool × Memory
unfolding erase_area
free_mmap_space address size m = elim (erase_area address size m.mapped_areas) [
  | none ↦ (false, m)
  | some left ↦ (true, record m { mapped_areas = left })
]
