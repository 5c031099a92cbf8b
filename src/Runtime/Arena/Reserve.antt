-- ===== src/Runtime/Arena/Reserve.antt =====
-- `reserveMmapSpace` and `freeMmapSpace` on the whole memory.
use Prim.Native.Nat.{ℕ, ◌+◌, ◌-◌, ◌%◌, ◌^◌, ◌≤◌, ◌<◌}
use mathlib.Core.Path.{◌≡◌, sym, subst}
use mathlib.Core.Bool.{true, false}
use mathlib.Core.List.{List, [], ◌∷◌, ◌++◌}
use mathlib.Core.Option.{some}
use mathlib.Core.Logic.{inl, inr}
use native.Mathlib.Omega.{arith}
use riscv_sbt.Base.{ltb, Bool-cases, Option-cases}
use riscv_sbt.Base.Word.{◌+w◌}
use riscv_sbt.Runtime.Memory.{Memory, MappedArea, data_size, mmap_size}
use riscv_sbt.Runtime.Arena.{
  find_address, insert, sort, erase_area, page_align, get_mmap_address, reserve_mmap_space,
  free_mmap_space,
}
use riscv_sbt.Runtime.Arena.Page.{IsPage, RoundsUp, page_align-RoundsUp}
use riscv_sbt.Runtime.Arena.Placed.{
  Placed, Apart, area, sort-placed_at, placed_at-Placed, end_of-RoundsUp, find_address-FreeAfter,
}
use riscv_sbt.Runtime.Arena.Erase.{erase_area-placed_at, erase_area-Placed}

-- The pages divide the arena, and the mapped areas stand apart in the second half of it.
pub record IsArena (m : Memory) : Type 0 where
  pub page : IsPage m.page_size
  pub placed : Placed m.page_size data_size m.mapped_areas

module _ (p : ℕ) (page : IsPage p) (size : ℕ) where
  empty-RoundsUp : RoundsUp p data_size (find_address p size [])
  unfolding find_address
  empty-RoundsUp =
      let (lo, hi, near, whole) = page_align-RoundsUp p data_size page (omega arith) in
      let same : page_align p data_size % 2 ^ 32 ≡ page_align p data_size = omega (arith, hi) in
      rw same (lo, hi, near, whole)

  abbrev pub Free : ℕ → List MappedArea → Type 0
  Free x areas = (data_size ≤ x) × (x ≤ data_size + mmap_size) × (x % p ≡ 0) × Apart x size areas

  find_address-Free :
      (areas : List MappedArea) → Placed p data_size areas → Free (find_address p size areas) areas
  find_address-Free [] v = let (lo, hi, near, whole) = empty-RoundsUp in (lo, hi, whole, tt)
  find_address-Free (a ∷ r) (low, whole, pos, hi, next) =
      let (past, e_hi, e_near, e_whole) = end_of-RoundsUp p page a hi in
      let (after, x_whole, x_hi, apart) =
        find_address-FreeAfter p page size data_size a r (low, whole, pos, hi, next) in
      (omega (arith, low, past, after), x_hi, x_whole, apart)

  abbrev extended : List MappedArea → List MappedArea
  extended areas = sort (areas ++ (area (find_address p size areas) size ∷ []))

  extended-Placed :
      (areas : List MappedArea)
      → 0 < size
      → find_address p size areas + size ≤ 2 ^ 20
      → Placed p data_size areas
      → Placed p data_size (extended areas)
  extended-Placed [] positive room v =
      let (lo, hi, near, whole) = empty-RoundsUp in
      unfold sort insert in (lo, whole, positive, room, tt)
  extended-Placed (a ∷ r) positive room v =
      subst (Placed p data_size) (sym (sort-placed_at p page size data_size a r positive v))
        (placed_at-Placed p page size data_size a r positive v room)

  erase_area-extended :
      (areas : List MappedArea)
      → 0 < size
      → Placed p data_size areas
      → erase_area (find_address p size areas) size (extended areas) ≡ some areas
  erase_area-extended [] positive v = unfold sort insert erase_area in ground arith
  erase_area-extended (a ∷ r) positive v =
      rw (sort-placed_at p page size data_size a r positive v)
        (erase_area-placed_at p page size data_size a r v)

module _ (m : Memory) (arena : IsArena m) (size : ℕ) where
  -- In a well-formed arena `getMmapAddress` returns the start of a page in the second half, no
  -- further than the arena's end, from where `size` bytes meet no mapped area.
  pub get_mmap_address-Free :
      Free m.page_size arena.page size (get_mmap_address size m) m.mapped_areas
  unfolding get_mmap_address
  get_mmap_address-Free = find_address-Free m.page_size arena.page size m.mapped_areas arena.placed

  -- `reserveMmapSpace` keeps the arena well-formed, whether it returns true or false, for a size
  -- above zero whose sum with the arena's end is below 2 ^ 32.
  pub reserve_mmap_space-IsArena :
      0 < size → size < 2 ^ 32 - (data_size + mmap_size) → IsArena (reserve_mmap_space size m).1
  unfolding reserve_mmap_space get_mmap_address ◌+w◌
  reserve_mmap_space-IsArena positive small =
      let x = find_address m.page_size size m.mapped_areas in
      let (lo, hi, whole, apart) =
        find_address-Free m.page_size arena.page size m.mapped_areas arena.placed in
      elim (Bool-cases (ltb (2 ^ 20) ((x + size) % 2 ^ 32))) [
        | inl over ↦ rw over arena
        | inr room ↦ rw room record {
          page = arena.page;
          placed =
              extended-Placed m.page_size arena.page size m.mapped_areas positive
                (ground (arith, hi, small, room)) arena.placed;
        }
      ]

  with_areas : List MappedArea → Memory
  with_areas areas = record m { mapped_areas = areas }

  free_mmap_space-areas :
      (x : ℕ) (areas : List MappedArea)
      → erase_area x size areas ≡ some m.mapped_areas
      → free_mmap_space x size (with_areas areas) ≡ (true, m)
  unfolding free_mmap_space with_areas
  free_mmap_space-areas x areas e = rw e

  reserve_mmap_space-true :
      (reserve_mmap_space size m).0 ≡ true
      → reserve_mmap_space size m
        ≡ (true, with_areas (extended m.page_size arena.page size m.mapped_areas))
  unfolding reserve_mmap_space get_mmap_address with_areas
  reserve_mmap_space-true given =
      elim (Bool-cases (ltb (2 ^ 20) (find_address m.page_size size m.mapped_areas +w size))) [
        | inl over ↦ let no : false ≡ true = rw over at (given) in cc
        | inr room ↦ rw room
      ]

  -- `freeMmapSpace` of the space that `reserveMmapSpace` has just given returns true and restores
  -- the memory's state, in a well-formed arena and for a size above zero.
  pub free-reserve :
      0 < size
      → (reserve_mmap_space size m).0 ≡ true
      → free_mmap_space (get_mmap_address size m) size (reserve_mmap_space size m).1 ≡ (true, m)
  free-reserve positive given = rw (reserve_mmap_space-true given) (
      unfold get_mmap_address in
      free_mmap_space-areas (find_address m.page_size size m.mapped_areas)
        (extended m.page_size arena.page size m.mapped_areas)
        (erase_area-extended m.page_size arena.page size m.mapped_areas positive arena.placed))

  -- In a well-formed arena `reserveMmapSpace` returns true for every 32-bit size so large that its
  -- sum with the address found is 2 ^ 32 or more.
  pub reserve_wraps :
      size < 2 ^ 32 → 2 ^ 32 ≤ get_mmap_address size m + size → (reserve_mmap_space size m).0 ≡ true
  unfolding reserve_mmap_space get_mmap_address ◌+w◌
  reserve_wraps word wraps =
      let x = find_address m.page_size size m.mapped_areas in
      let (lo, hi, whole, apart) =
        find_address-Free m.page_size arena.page size m.mapped_areas arena.placed in
      let passes : ltb (2 ^ 20) ((x + size) % 2 ^ 32) ≡ false = ground (arith, hi, word, wraps) in
      rw passes

-- `freeMmapSpace` keeps the arena well-formed, whatever it is called with.
pub free_mmap_space-IsArena :
    (m : Memory) (address size : ℕ) → IsArena m → IsArena (free_mmap_space address size m).1
unfolding free_mmap_space
free_mmap_space-IsArena m address size arena =
    elim (Option-cases (erase_area address size m.mapped_areas)) [
      | inl missing ↦ rw (free_mmap_space, missing) arena
      | inr (left, found) ↦
          rw (free_mmap_space, found)
            record {
              page = arena.page;
              placed =
                  erase_area-Placed m.page_size arena.page address size data_size m.mapped_areas
                    left arena.placed found;
            }
    ]

-- `reserveMmapSpace`, for a size above zero whose sum with the arena's end is below 2 ^ 32, and
-- `freeMmapSpace`, whatever it is called with, keep the arena well-formed, whether they return true
-- or false.
pub mmap_space-IsArena :
    (m : Memory) (address size : ℕ)
    → IsArena m
    → 0 < size
    → size < 2 ^ 32 - (data_size + mmap_size)
    → IsArena (reserve_mmap_space size m).1 × IsArena (free_mmap_space address size m).1
mmap_space-IsArena m address size arena positive small = (
  reserve_mmap_space-IsArena m arena size positive small,
  free_mmap_space-IsArena m address size arena,
)
