-- ===== src/Tests/System.antt =====
-- The arena and the system calls at concrete inputs.
use Prim.Native.Nat.{◌+◌, ◌^◌, ◌≤◌}
use mathlib.Core.Path.{◌≡◌, refl}
use mathlib.Core.Logic.{◌⊎◌}
use mathlib.Core.Bool.{true}
use mathlib.Core.List.{List, [], ◌∷◌}
use mathlib.Core.Option.{some}
use native.Mathlib.Omega.{arith}
use riscv_sbt.Base.{◌==◌, if◌then◌else◌}
use riscv_sbt.Base.Word.{◌+w◌, ◌-w◌}
use riscv_sbt.Base.Outcome.{ok, Leaves}
use riscv_sbt.Runtime.Memory.{Memory, MappedArea, read, load_bytes}
use riscv_sbt.Runtime.Context.{Context, load}
use riscv_sbt.Runtime.Arena.{
  end_of, find_address, page_align, get_mmap_address, reserve_mmap_space, free_mmap_space,
}
use riscv_sbt.Runtime.Arena.Page.{RoundsUp, page_align-RoundsUp}
use riscv_sbt.Runtime.Arena.Reserve.{
  IsArena, Free, get_mmap_address-Free, mmap_space-IsArena, free-reserve,
}
use riscv_sbt.Runtime.Syscall.{
  Host, brk, handle, handle_number, translate_pointer_array, a0, a1, a7, sp,
}
use riscv_sbt.Runtime.Syscall.Kept.{
  IsRequest, IsSameBut, handle-IsSameBut, IsArray, handle-IsArena, brk-result,
  translate_pointer_array-IsArray,
}
use riscv_sbt.Sbt.Simulate.System.{IsHandler}
use riscv_sbt.Sbt.Simulate.Handler.{guest_part, handle-IsHandler}
use riscv_sbt.Tests.Machine.{memory, start}

-- a page, two free pages, and half a page
abbrev areas : List MappedArea
areas = record { base = 0x80000; size = 0x1000 } ∷ record { base = 0x83000; size = 0x800 } ∷ []

abbrev mapped : Memory
mapped = record memory { mapped_areas = areas }

mapped-IsArena : IsArena mapped
unfolding end_of page_align ◌+w◌
mapped-IsArena = record {
  page = (12, omega arith, refl);
  placed = (
    omega arith,
    refl,
    omega arith,
    omega arith,
    (omega arith, refl, omega arith, omega arith, tt),
  );
}

first_gap : get_mmap_address 0x2000 mapped ≡ 0x81000
unfolding get_mmap_address find_address end_of page_align ◌+w◌ ◌-w◌
first_gap = refl

past_last : get_mmap_address 0x2001 mapped ≡ 0x84000
unfolding get_mmap_address find_address end_of page_align ◌+w◌ ◌-w◌
past_last = refl

page_align-RoundsUp_example : RoundsUp 4096 0x80001 (page_align 4096 0x80001)
page_align-RoundsUp_example = page_align-RoundsUp 4096 0x80001 (12, omega arith, refl) (omega arith)

get_mmap_address-Free_example :
    Free 4096 mapped-IsArena.page 0x2000 (get_mmap_address 0x2000 mapped) areas
get_mmap_address-Free_example = get_mmap_address-Free mapped mapped-IsArena 0x2000

mmap_space-IsArena_example :
    IsArena (reserve_mmap_space 0x1000 mapped).1 × IsArena (free_mmap_space 0x80000 0x1000 mapped).1
mmap_space-IsArena_example =
    mmap_space-IsArena mapped 0x80000 0x1000 mapped-IsArena (omega arith) (omega arith)

given : (reserve_mmap_space 0x2000 mapped).0 ≡ true
unfolding reserve_mmap_space get_mmap_address find_address end_of page_align ◌+w◌ ◌-w◌
given = refl

free-reserve_example :
    free_mmap_space (get_mmap_address 0x2000 mapped) 0x2000 (reserve_mmap_space 0x2000 mapped).1
    ≡ (true, mapped)
free-reserve_example = free-reserve mapped mapped-IsArena 0x2000 (omega arith) given

far : 2 ^ 32 ≤ get_mmap_address 0xffff_f000 mapped + 0xffff_f000
unfolding get_mmap_address find_address end_of page_align ◌+w◌ ◌-w◌
far = omega arith

-- A host on which every call succeeds, returns 0 and leaves the memory alone.
abbrev calm : Host (Unit {0})
calm = record {
  call = λ f args w bytes. ok (record { value = 0; world = w; bytes = bytes });
  mmap_call = λ args w bytes. (w, some 0x84000, bytes);
  clock_gettime = λ n w. (w, 0, 12, 34);
  errno = λ w. 0;
  data_address = 0;
}

-- a request for a page by `mmap`
abbrev asking : Context
asking = record {
  reg = λ r. if r == a1 then 0x1000 else if r == a7 then 222 else 0;
  pc = 0;
  memory = mapped;
  unsupported = [];
}

asking-IsRequest : IsRequest asking
asking-IsRequest = record { arena = mapped-IsArena; positive = omega arith; small = omega arith }

handle-IsSameBut_example :
    Leaves (λ (s : Unit {0} × Context). IsSameBut asking s.1) (handle calm (tt, asking))
handle-IsSameBut_example = handle-IsSameBut calm tt asking

handle-IsArena_example :
    Leaves
      (λ (s : Unit {0} × Context). IsArena s.1.memory × (s.1.reg a1 ≡ asking.reg a1))
      (handle calm (tt, asking))
handle-IsArena_example = handle-IsArena calm tt asking asking-IsRequest

brk-result_example :
    let d = (brk calm (tt, asking)).1 in
    (d.reg a0 ≡ d.memory.heap_end)
    × ((d.memory.heap_end ≡ 0x40000)
        ⊎ ((0x40000 ≤ d.memory.heap_end) × (d.memory.heap_end ≤ asking.reg sp)))
brk-result_example = brk-result calm tt asking

-- two pointers and a null, from 0x1000 on
abbrev pointing : Context
pointing = record start {
  memory = record memory { bytes = λ a. if a == 0x1000 then 7 else if a == 0x1005 then 9 else 0 };
}

pointing-IsArray : IsArray pointing 0x1000 (7 ∷ 0x900 ∷ [])
unfolding load read load_bytes
pointing-IsArray = (refl, omega arith, (refl, omega arith, refl))

translate_pointer_array-IsArray_example :
    translate_pointer_array calm 0x1000 pointing ≡ ok (some (7 ∷ 0x900 ∷ []))
translate_pointer_array-IsArray_example =
    translate_pointer_array-IsArray calm 0x1000 (7 ∷ 0x900 ∷ []) pointing (omega arith)
      pointing-IsArray

handle-IsHandler_example :
    IsHandler
      (λ c. guest_part (handle calm (tt, c)))
      (λ n c. guest_part (handle_number calm n (tt, c)))
handle-IsHandler_example = handle-IsHandler calm tt
