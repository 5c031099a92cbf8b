-- ===== src/Runtime/Syscall/Kept.antt =====
-- What the system calls keep of the guest's registers and of the arena, and what `brk` returns.
use Prim.Native.Nat.{ℕ, zero, suc, ◌+◌, ◌-◌, ◌*◌, ◌^◌, ◌≤◌, ◌<◌}
use mathlib.Core.Path.{◌≡◌, refl}
use mathlib.Core.Logic.{◌≢◌, ◌⊎◌, inl, inr}
use mathlib.Core.Bool.{Bool, false, ◌||◌}
use native.Mathlib.Omega.{arith}
use mathlib.Core.List.{List, [], ◌∷◌}
use mathlib.Core.Option.{none, some}
use riscv_sbt.Base.{ltb, leb, ◌==◌, ne→==, Bool-cases, if◌then◌else◌}
use riscv_sbt.Base.Word.{◌+w◌}
use riscv_sbt.Base.Outcome.{
  Outcome, ok, fault, ◌>>=◌, Leaves, Leaves-bind, Leaves-map2, Leaves-of_all,
}
use riscv_sbt.Runtime.Memory.{Memory, data_size, mmap_size, read, write}
use riscv_sbt.Runtime.Context.{Context, set_reg, store, load}
use riscv_sbt.Runtime.Arena.Reserve.{IsArena, reserve_mmap_space-IsArena, free_mmap_space-IsArena}
use riscv_sbt.Runtime.Syscall.{
  Host, sp, a0, a1, a7, Answer, brk, handle, entries, translate_pointer_array,
}
use riscv_sbt.Runtime.Syscall.Frame.{Keeps, KeepsBytes, handle_number-Holds}

-- pc, the interpreter's output and every register but a0 are the same.
pub record IsSameBut (c d : Context) : Type 0 where
  pub pc : d.pc ≡ c.pc
  pub unsupported : d.unsupported ≡ c.unsupported
  pub reg : (r : ℕ) → r ≢ a0 → d.reg r ≡ c.reg r

-- a change of memory leaves registers alone
move : (c d : Context) (m : Memory) → IsSameBut c d → IsSameBut c (record d { memory = m })
move c d m h = record { pc = h.pc; unsupported = h.unsupported; reg = h.reg }

put : (c d : Context) (x : ℕ) → IsSameBut c d → IsSameBut c (set_reg d a0 x)
unfolding set_reg
put c d x h = record {
  pc = h.pc;
  unsupported = h.unsupported;
  reg = λ r other. ground (arith, h.reg r other);
}

store-IsSameBut :
    (c : Context) (n p x : ℕ) (d : Context) → IsSameBut c d → Leaves (IsSameBut c) (store n d p x)
unfolding store
store-IsSameBut c n p x d h =
    Leaves-bind (λ (m : Memory). Unit {0}) (IsSameBut c) (write n d.memory p x) _
      (Leaves-of_all _ _ (λ a. tt)) (λ m t. move c d m h)

IsSameBut-Keeps : (c : Context) → Keeps (λ f. Unit) (IsSameBut c)
IsSameBut-Keeps c = record {
  bytes = λ d h. tt;
  set_a0 = λ d x small h. put c d x h;
  fill = λ d f b h. move c d _ h;
  stores = λ n p x d h. store-IsSameBut c n p x d h;
  heap_end = λ d h. put c d _ h;
  set_heap_end = λ d h. move c d _ h;
  free = λ d h. move c d _ h;
  reserve = λ d h. move c d _ h;
}

-- the arena, where the size that a1 holds for `mmap` cannot wrap around
pub record IsRequest (c : Context) : Type 0 where
  pub arena : IsArena c.memory
  pub positive : 0 < c.reg a1
  pub small : c.reg a1 < 2 ^ 32 - (data_size + mmap_size)

with_memory :
    (c : Context) (m : Memory) → IsArena m → IsRequest c → IsRequest (record c { memory = m })
with_memory c m arena h = record { arena = arena; positive = h.positive; small = h.small }

put_result : (c : Context) (x : ℕ) → IsRequest c → IsRequest (set_reg c a0 x)
unfolding set_reg
put_result c x h = record { arena = h.arena; positive = h.positive; small = h.small }

same_areas : (m : Memory) (f : ℕ → ℕ) → IsArena m → IsArena (record m { bytes = f })
same_areas m f h = record { page = h.page; placed = h.placed }

store-IsRequest : (n p x : ℕ) (c : Context) → IsRequest c → Leaves IsRequest (store n c p x)
unfolding store write
store-IsRequest n p x c h = elim (Bool-cases (leb (p + n) (data_size + mmap_size))) [
  | inl inside ↦ rw inside (with_memory c _ (same_areas c.memory _ h.arena) h)
  | inr outside ↦ rw outside tt
]

IsRequest-Keeps : Keeps (λ f. Unit) IsRequest
IsRequest-Keeps = record {
  bytes = λ c h. tt;
  set_a0 = λ c x small h. put_result c x h;
  fill = λ c f b h. with_memory c _ (same_areas c.memory f h.arena) h;
  stores = store-IsRequest;
  heap_end = λ c h. put_result c _ h;
  set_heap_end = λ c h. with_memory c _ (record { page = h.arena.page; placed = h.arena.placed }) h;
  free = λ c h. with_memory c _ (free_mmap_space-IsArena c.memory _ _ h.arena) h;
  reserve =
      λ c h. with_memory c _ (reserve_mmap_space-IsArena c.memory h.arena _ h.positive h.small) h;
}

-- The pointers stand in the guest's memory from the address on, none is null, and a null follows.
abbrev pub IsArray : Context → ℕ → List ℕ → Type 0
IsArray c address [] = load 4 c address ≡ ok 0
IsArray c address (x ∷ rest) = (load 4 c address ≡ ok x) × (x ≢ 0) × IsArray c (address + 4) rest

module _ {ℓ} {W : Type ℓ} (host : Host W) where
  any_bytes : KeepsBytes host (λ f. Unit)
  any_bytes = record {
    call = λ f args w bytes b. Leaves-of_all (λ (a : Answer W). Unit {0}) _ (λ a. tt);
    mmap_call = λ args w bytes b. tt;
  }

  -- Every system call, known or not, on every path that leaves a state, leaves pc, the output and
  -- all registers but a0 as they were.
  pub handle-IsSameBut :
      (w : W) (c : Context) → Leaves (λ (s : W × Context). IsSameBut c s.1) (handle host (w, c))
  unfolding handle
  handle-IsSameBut w c =
      handle_number-Holds host (λ f. Unit) (IsSameBut c) any_bytes (IsSameBut-Keeps c) (c.reg a7) w
        c (record { pc = refl; unsupported = refl; reg = λ r h. refl })

  handle-IsRequest :
      (w : W) (c : Context)
      → IsRequest c
      → Leaves (λ (s : W × Context). IsRequest s.1) (handle host (w, c))
  unfolding handle
  handle-IsRequest w c h =
      handle_number-Holds host (λ f. Unit) IsRequest any_bytes IsRequest-Keeps (c.reg a7) w c h

  -- Every system call, on every path that leaves a state, leaves a well-formed arena, and a1 as it
  -- was, from a well-formed arena and a size in a1 that is above zero and does not wrap around with
  -- the arena's end.
  pub handle-IsArena :
      (w : W) (c : Context)
      → IsRequest c
      → Leaves
          (λ (s : W × Context). IsArena s.1.memory × (s.1.reg a1 ≡ c.reg a1))
          (handle host (w, c))
  handle-IsArena w c h =
      Leaves-map2 (λ (s : W × Context). IsRequest s.1) (λ (s : W × Context). IsSameBut c s.1) _
        (handle host (w, c)) (handle-IsRequest w c h) (handle-IsSameBut w c)
        (λ s request same. (request.arena, same.reg a1 (λ e. omega arith)))

  -- `brk` returns the heap's end, which it leaves alone or moves to an address from the heap's base
  -- to the stack pointer.
  pub brk-result :
      (w : W) (c : Context)
      → let d = (brk host (w, c)).1 in
        (d.reg a0 ≡ d.memory.heap_end)
        × ((d.memory.heap_end ≡ c.memory.heap_end)
            ⊎ ((c.memory.heap_base ≤ d.memory.heap_end) × (d.memory.heap_end ≤ c.reg sp)))
  unfolding brk set_reg
  brk-result w c = elim (Bool-cases (c.reg a0 == 0 || ltb (c.reg a0) c.memory.heap_base)) [
    | inl asks ↦ rw (brk, asks) (refl, inl refl)
    | inr sets ↦ elim (Bool-cases (ltb (c.reg sp) (c.reg a0))) [
      | inl stack ↦ rw (brk, sets, stack) (refl, inl refl)
      | inr room ↦ rw (brk, sets, room) (refl, inr (ground (arith, sets), ground (arith, room)))
    ]
  ]

  load-past : (c : Context) (p : ℕ) → 2 ^ 20 < p + 4 → load 4 c p ≡ fault
  unfolding load read
  load-past c p h = ground arith

  entries-IsArray :
      (n address : ℕ) (l : List ℕ) (c : Context)
      → data_size + mmap_size < address + 4 * n
      → IsArray c address l
      → entries host n address c ≡ ok l
  unfolding entries
  entries-IsArray zero address [] c room at =
      let past : load 4 c address ≡ fault = load-past c address (omega (arith, room)) in absurd cc
  entries-IsArray zero address (x ∷ rest) c room (at, other, later) =
      let past : load 4 c address ≡ fault = load-past c address (omega (arith, room)) in absurd cc
  entries-IsArray (suc n) address [] c room at = rw at refl
  entries-IsArray (suc n) address (x ∷ rest) c room (at, other, later) =
      elim (Bool-cases (leb (address + 4) (2 ^ 20))) [
        | inl inside ↦
            let next : address +w 4 ≡ address + 4 = unfold ◌+w◌ in ground (arith, inside) in
            let more = entries-IsArray n (address + 4) rest c (omega (arith, room)) later in
            rw (entries, at, next, more, ne→== x 0 other) refl
        | inr outside ↦
            let past : load 4 c address ≡ fault = load-past c address (ground (arith, outside)) in
            absurd cc
      ]

  not_null :
      (null : Bool) (o : Outcome (List ℕ)) (l : List ℕ)
      → null ≡ false
      → o ≡ ok l
      → (if null then ok none else (o >>= λ all. ok (some all))) ≡ ok (some l)
  not_null null o l other read = rw (other, read) refl

  -- `translatePointerArray` of an address that is not null, where an array of pointers that are not
  -- null stands in the guest's memory with a null after it, returns these pointers, however many
  -- there are.
  pub translate_pointer_array-IsArray :
      (address : ℕ) (l : List ℕ) (c : Context)
      → address ≢ 0
      → IsArray c address l
      → translate_pointer_array host address c ≡ ok (some l)
  unfolding translate_pointer_array
  translate_pointer_array-IsArray address l c other array =
      let read = entries-IsArray 0x4_0001 address l c (omega arith) array in
      not_null (address == 0) (entries host 0x4_0001 address c) l (ne→== address 0 other) read
