-- ===== src/Runtime/Syscall.antt =====
-- lib/runtime/syscall.h and syscall.cpp: the guest's system calls, over the host's.
pub mod Frame
pub mod Kept
pub mod Anywhere
use Prim.Native.Nat.{ℕ, zero, suc, ◌+◌, ◌-◌, ◌*◌, ◌%◌, ◌^◌, bit_and, bit_or}
use mathlib.Core.Bool.{Bool, true, false, ◌&&◌, ◌||◌, not}
use mathlib.Core.List.{List, [], ◌∷◌}
use mathlib.Core.Option.{Option, none, some}
use riscv_sbt.Base.{ltb, leb, ◌==◌, if◌then◌else◌}
use riscv_sbt.Base.Word.{u32, ◌+w◌, neg32, is_negative}
use riscv_sbt.Base.Outcome.{Outcome, ok, exited, fault, ◌>>=◌}
use riscv_sbt.Runtime.Memory.{Memory}
use riscv_sbt.Runtime.Context.{Context, set_reg, store, load}
use riscv_sbt.Runtime.Arena.{get_mmap_address, reserve_mmap_space, free_mmap_space}

-- The host functions that are called through the C library, by name. Pointers into the guest's
-- memory are guest addresses.
pub data HostCall : Type 0 where
  host_openat host_close host_read host_write host_munmap host_statx host_fork host_getpid :
      HostCall
  host_execve : Option (List ℕ) → Option (List ℕ) → HostCall

-- The value returned, as a 64-bit pattern, and what is left of the host and of the guest's memory.
pub record Answer {ℓ} (W : Type ℓ) : Type ℓ where
  pub value : ℕ
  pub world : W
  pub bytes : ℕ → ℕ

-- The host, whose state is a `W`. A call may end the process. `mmap` answers where the mapping is, or
-- none for `MAP_FAILED`; `clock_gettime` answers its result, the seconds and the nanoseconds.
-- `data_address` is where the array for the guest's memory stands.
pub record Host {ℓ} (W : Type ℓ) : Type ℓ where
  pub call : HostCall → List ℕ → W → (ℕ → ℕ) → Outcome (Answer W)
  pub mmap_call : List ℕ → W → (ℕ → ℕ) → W × Option ℕ × (ℕ → ℕ)
  pub clock_gettime : ℕ → W → W × ℕ × ℕ × ℕ
  pub errno : W → ℕ
  pub data_address : ℕ

-- registers.h
abbrev pub sp : ℕ
sp = 2

abbrev pub a0 : ℕ
a0 = 10

abbrev pub a1 : ℕ
a1 = 11

abbrev pub a2 : ℕ
a2 = 12

abbrev pub a3 : ℕ
a3 = 13

abbrev pub a4 : ℕ
a4 = 14

abbrev pub a5 : ℕ
a5 = 15

abbrev pub a7 : ℕ
a7 = 17

abbrev pub set_bytes : Context → (ℕ → ℕ) → Context
set_bytes c f = record c { memory = record c.memory { bytes = f } }

module _ {ℓ} {W : Type ℓ} (host : Host W) where
  -- the state that a system call changes
  abbrev pub State : Type ℓ
  State = W × Context

  -- `if (static_cast<int32_t>(ctx.reg[a0]) < 0) { ctx.reg[a0] = -errno; }`
  unfoldable pub handle_error : State → State
  handle_error (w, c) =
      if is_negative (c.reg a0) then (w, set_reg c a0 (neg32 (host.errno w))) else (w, c)

  -- `ctx.reg[a0] = f(args); handleError(ctx);`
  unfoldable pub call_host : HostCall → List ℕ → State → Outcome State
  unfolding handle_error
  call_host f args (w, c) = do
    answer ← host.call f args w c.memory.bytes
    ok (handle_error (answer.world, set_reg (set_bytes c answer.bytes) a0 (u32 answer.value)))

  -- the loop of `_writev`, with `count` entries left; `total` is an `int32_t`
  unfoldable pub write_entries : ℕ → ℕ → ℕ → ℕ → State → Outcome State
  write_entries zero i iov total (w, c) = ok (w, set_reg c a0 total)
  write_entries (suc count) i iov total (w, c) = do
    base ← load 4 c (u32 (iov + i * 8))
    len ← load 4 c (u32 (iov + i * 8 + 4))
    answer ← host.call host_write (c.reg a0 ∷ base ∷ len ∷ []) w c.memory.bytes
    let after = set_bytes c answer.bytes
    let rest = write_entries count (i + 1) iov (total +w answer.value) (answer.world, after)
    let error = if total == 0 then neg32 (host.errno answer.world) else total
    (if leb (2 ^ 63) answer.value
        then ok (answer.world, set_reg after a0 error)
        else if ltb (u32 answer.value) len
        then ok (answer.world, set_reg after a0 (total +w answer.value))
        else rest)

  unfoldable pub writev : State → Outcome State
  unfolding write_entries
  writev (w, c) = write_entries (c.reg a2) 0 (c.reg a1) 0 (w, c)

  unfoldable pub brk : State → State
  brk (w, c) =
      if c.reg a0 == 0 || ltb (c.reg a0) c.memory.heap_base
      then (w, set_reg c a0 c.memory.heap_end)
      else if ltb (c.reg sp) (c.reg a0)
      then (w, set_reg c a0 c.memory.heap_end)
      else (w, record c { memory = record c.memory { heap_end = c.reg a0 } })

  -- what `_mmap` does with the host's answer
  unfoldable pub take_mapping : Option ℕ → Bool → Context → Context
  take_mapping none freely c = set_reg c a0 0xffff_ffff
  take_mapping (some guest) freely c =
      let at = set_reg c a0 (u32 guest) in
      if freely then record at { memory = (reserve_mmap_space (at.reg a1) at.memory).1 } else at

  -- `_mmap` from the `assert` on. A build without assertions goes on to the host's `mmap` where it fails.
  unfoldable pub mmap_at : Bool → State → Outcome State
  unfolding handle_error take_mapping
  mmap_at freely (w, c) =
      if (host.data_address + c.reg a0) % c.memory.page_size == 0
      then (let args =
            c.reg a0 ∷ c.reg a1 ∷ c.reg a2 ∷ bit_or (c.reg a3) 0x10 ∷ c.reg a4 ∷ c.reg a5 ∷ [] in
          let (after, address, bytes) = host.mmap_call args w c.memory.bytes in
          ok (handle_error (after, take_mapping address freely (set_bytes c bytes))))
      else fault

  unfoldable pub mmap : State → Outcome State
  unfolding mmap_at
  mmap (w, c) =
      if c.reg a0 == 0
      then mmap_at true (w, set_reg c a0 (get_mmap_address (c.reg a1) c.memory))
      else mmap_at false (w, c)

  unfoldable pub munmap : State → Outcome State
  unfolding call_host
  munmap (w, c) =
      let freed = record c { memory = (free_mmap_space (c.reg a0) (c.reg a1) c.memory).1 } in
      call_host host_munmap (freed.reg a0 ∷ freed.reg a1 ∷ []) (w, freed)

  unfoldable pub clock_gettime64 : State → Outcome State
  unfolding handle_error
  clock_gettime64 (w, c) = do
    let (after, result, seconds, nanoseconds) = host.clock_gettime (c.reg a0) w
    let told = set_reg c a0 (u32 result)
    half ← store 8 told (told.reg a1) seconds
    full ← store 8 half (u32 (half.reg a1 + 8)) nanoseconds
    ok (handle_error (after, full))

  -- the loop of `translatePointerArray`, from an address on; the loop runs out of the array for the
  -- guest's memory, at the latest, before `fuel` entries
  unfoldable pub entries : ℕ → ℕ → Context → Outcome (List ℕ)
  entries zero address c = fault
  entries (suc fuel) address c = do
    entry ← load 4 c address
    let rest = entries fuel (address +w 4) c
    (if entry == 0 then ok [] else (rest >>= λ more. ok (entry ∷ more)))

  unfoldable pub translate_pointer_array : ℕ → Context → Outcome (Option (List ℕ))
  unfolding entries
  translate_pointer_array address c =
      if address == 0 then ok none else (entries 0x4_0001 address c >>= λ all. ok (some all))

  unfoldable pub execve : State → Outcome State
  unfolding call_host
  execve (w, c) = do
    argv ← translate_pointer_array (c.reg a1) c
    envp ← translate_pointer_array (c.reg a2) c
    call_host (host_execve argv envp) (c.reg a0 ∷ []) (w, c)

  -- the part of `_clone` after `fork`
  unfoldable pub after_fork : ℕ → ℕ → State → Outcome State
  after_fork flags pid (w, c) =
      if pid == 0
      then (if bit_and flags 0x0100_0000 == 0 then ok (w, c) else (do
        self ← host.call host_getpid [] w c.memory.bytes
        written ← store 4 c (c.reg a4) self.value
        ok (self.world, written)))
      else if not (is_negative pid) && not (bit_and flags 0x0010_0000 == 0)
      then (do written ← store 4 c (c.reg a2) pid; ok (w, written))
      else ok (w, c)

  unfoldable pub clone : State → Outcome State
  unfolding after_fork handle_error
  clone (w, c) =
      let flags = c.reg a0 in
      if not (c.reg a1 == 0) || not (bit_and flags 0x1_0900 == 0)
      then ok (w, set_reg c a0 0xffff_ffea)
      else (do
        answer ← host.call host_fork [] w c.memory.bytes
        (after, written) ← after_fork flags (u32 answer.value) (answer.world, c)
        ok (handle_error (after, set_reg written a0 (u32 answer.value))))

  unfoldable pub handle_number : ℕ → State → Outcome State
  unfolding call_host writev brk mmap munmap clock_gettime64 execve clone
  handle_number num (w, c) =
      if num == 56
      then call_host host_openat (c.reg a0 ∷ c.reg a1 ∷ c.reg a2 ∷ []) (w, c)
      else if num == 57
      then call_host host_close (c.reg a0 ∷ []) (w, c)
      else if num == 63
      then call_host host_read (c.reg a0 ∷ c.reg a1 ∷ c.reg a2 ∷ []) (w, c)
      else if num == 64
      then call_host host_write (c.reg a0 ∷ c.reg a1 ∷ c.reg a2 ∷ []) (w, c)
      else if num == 66
      then writev (w, c)
      else if num == 93 || num == 94
      then exited (c.reg a0)
      else if num == 96
      then ok (w, set_reg c a0 0)
      else if num == 214
      then ok (brk (w, c))
      else if num == 215
      then munmap (w, c)
      else if num == 220
      then clone (w, c)
      else if num == 221
      then execve (w, c)
      else if num == 222
      then mmap (w, c)
      else if num == 291
      then call_host host_statx (c.reg a0 ∷ c.reg a1 ∷ c.reg a2 ∷ c.reg a3 ∷ c.reg a4 ∷ []) (w, c)
      else if num == 403
      then clock_gettime64 (w, c)
      else ok (w, set_reg c a0 0xffff_ffea)

  unfoldable pub handle : State → Outcome State
  unfolding handle_number
  handle (w, c) = handle_number (c.reg a7) (w, c)
