-- ===== src/Interpreter/Systems.antt =====
-- The system calls keep the widths of the guest's state, as the interpreters ask of their `handle`.
use Prim.Native.Nat.{ℕ, ◌+◌, ◌^◌, ◌<◌}
use mathlib.Core.Path.{◌≡◌, refl, sym, subst}
use mathlib.Core.Logic.{inl, inr}
use riscv_sbt.Base.{ltb, Bool-cases, Option-cases}
use riscv_sbt.Base.Word.{◌+w◌}
use riscv_sbt.Base.Outcome.{Leaves}
use riscv_sbt.Runtime.Memory.{Memory, data_size, mmap_size}
use riscv_sbt.Runtime.Context.{Context}
use riscv_sbt.Runtime.MemoryLaws.{IsBytes}
use riscv_sbt.Runtime.Arena.{get_mmap_address, reserve_mmap_space, free_mmap_space, erase_area}
use riscv_sbt.Runtime.Syscall.{Host, a0, a1, a7, handle}
use riscv_sbt.Runtime.Syscall.Frame.{Keeps, KeepsBytes, handle_number-Holds}
use riscv_sbt.Interpreter.Valid.{FitsWords, set_reg-FitsWords, store-FitsWords}

with_memory :
    (c : Context) (m : Memory)
    → m.bytes ≡ c.memory.bytes
    → m.heap_end ≡ c.memory.heap_end
    → FitsWords c
    → FitsWords (record c { memory = m })
with_memory c m same heap v = record {
  regs = v.regs;
  pc = v.pc;
  bytes = λ a. subst (λ f. f a < 256) (sym same) (v.bytes a);
  heap_end = subst (λ x. x < 2 ^ 32) (sym heap) v.heap_end;
}

free_same :
    (x size : ℕ) (m : Memory)
    → ((free_mmap_space x size m).1.bytes ≡ m.bytes)
      × ((free_mmap_space x size m).1.heap_end ≡ m.heap_end)
unfolding free_mmap_space
free_same x size m = elim (Option-cases (erase_area x size m.mapped_areas)) [
  | inl missing ↦ rw (free_mmap_space, missing) (refl, refl)
  | inr (left, found) ↦ rw (free_mmap_space, found) (refl, refl)
]

reserve_same :
    (size : ℕ) (m : Memory)
    → ((reserve_mmap_space size m).1.bytes ≡ m.bytes)
      × ((reserve_mmap_space size m).1.heap_end ≡ m.heap_end)
unfolding reserve_mmap_space
reserve_same size m =
    elim (Bool-cases (ltb (data_size + mmap_size) (get_mmap_address size m +w size))) [
      | inl over ↦ rw (reserve_mmap_space, over) (refl, refl)
      | inr room ↦ rw (reserve_mmap_space, room) (refl, refl)
    ]

FitsWords-Keeps : Keeps IsBytes FitsWords
FitsWords-Keeps = record {
  bytes = λ c v. v.bytes;
  set_a0 = λ c x small v. set_reg-FitsWords v a0 x small;
  fill = λ c f b v. record { regs = v.regs; pc = v.pc; bytes = b; heap_end = v.heap_end };
  stores = λ n p x c v. store-FitsWords v n p x;
  heap_end = λ c v. set_reg-FitsWords v a0 c.memory.heap_end v.heap_end;
  set_heap_end = λ c v. record { regs = v.regs; pc = v.pc; bytes = v.bytes; heap_end = v.regs a0 };
  free = λ c v.
      let (same, heap) = free_same (c.reg a0) (c.reg a1) c.memory in with_memory c _ same heap v;
  reserve =
      λ c v. let (same, heap) = reserve_same (c.reg a1) c.memory in with_memory c _ same heap v;
}

-- From a state of 32-bit words and bytes, every system call leaves such a state, if the host leaves
-- bytes in the guest's memory.
pub handle-FitsWords {ℓ} :
    {W : Type ℓ} (host : Host W) (w : W) (c : Context)
    → KeepsBytes host IsBytes
    → FitsWords c
    → Leaves (λ (s : W × Context). FitsWords s.1) (handle host (w, c))
unfolding handle
handle-FitsWords host w c host_keeps v =
    handle_number-Holds host IsBytes FitsWords host_keeps FitsWords-Keeps (c.reg a7) w c v
