-- ===== src/Runtime/Syscall/Frame.antt =====
-- A predicate on the guest's state that each of the elementary changes keeps is kept by every system
-- call.
use Prim.Native.Nat.{ℕ, zero, suc, ◌+◌, ◌*◌, ◌%◌, ◌^◌, ◌<◌, bit_and, bit_or}
use mathlib.Core.Logic.{inl, inr}
use mathlib.Core.Bool.{Bool, true, false, ◌||◌, ◌&&◌, not}
use mathlib.Core.List.{List, [], ◌∷◌}
use mathlib.Core.Option.{Option, none, some}
use native.Mathlib.Omega.{arith}
use riscv_sbt.Base.{ltb, leb, ◌==◌, Bool-cases, if◌then◌else◌}
use riscv_sbt.Base.Word.{u32, is_negative, ◌+w◌, neg32}
use riscv_sbt.Base.Outcome.{Outcome, ok, exited, fault, ◌>>=◌, Leaves, Leaves-bind}
use riscv_sbt.Runtime.Memory.{MappedArea}
use riscv_sbt.Runtime.Context.{Context, set_reg, store, load}
use riscv_sbt.Runtime.Arena.{
  end_of, find_address, get_mmap_address, reserve_mmap_space, free_mmap_space,
}
use riscv_sbt.Runtime.Syscall.{
  HostCall, host_write, host_munmap, host_fork, host_getpid, host_execve, Answer, Host, sp, a0, a1,
  a2, a3, a4, a5, set_bytes, handle_error, call_host, write_entries, writev, brk, take_mapping,
  mmap_at, mmap, munmap, clock_gettime64, translate_pointer_array, execve, after_fork, clone,
  handle_number,
}

-- The host keeps a property of the guest's bytes.
pub record KeepsBytes {ℓ} {W : Type ℓ} (host : Host W) (B : (ℕ → ℕ) → Type 0) : Type ℓ where
  pub call :
      (f : HostCall) (args : List ℕ) (w : W) (bytes : ℕ → ℕ)
      → B bytes
      → Leaves (λ (a : Answer W). B a.bytes) (host.call f args w bytes)
  pub mmap_call :
      (args : List ℕ) (w : W) (bytes : ℕ → ℕ) → B bytes → B (host.mmap_call args w bytes).2

-- The changes that the handlers make to the guest.
pub record Keeps (B : (ℕ → ℕ) → Type 0) (P : Context → Type 0) : Type 0 where
  pub bytes : (c : Context) → P c → B c.memory.bytes
  pub set_a0 : (c : Context) (x : ℕ) → x < 2 ^ 32 → P c → P (set_reg c a0 x)
  pub fill : (c : Context) (f : ℕ → ℕ) → B f → P c → P (set_bytes c f)
  pub stores : (n p x : ℕ) (c : Context) → P c → Leaves P (store n c p x)
  pub heap_end : (c : Context) → P c → P (set_reg c a0 c.memory.heap_end)
  pub set_heap_end :
      (c : Context) → P c → P (record c { memory = record c.memory { heap_end = c.reg a0 } })
  pub free :
      (c : Context)
      → P c
      → P (record c { memory = (free_mmap_space (c.reg a0) (c.reg a1) c.memory).1 })
  pub reserve :
      (c : Context) → P c → P (record c { memory = (reserve_mmap_space (c.reg a1) c.memory).1 })

find_address-lt : (p size : ℕ) (areas : List MappedArea) → find_address p size areas < 2 ^ 32
unfolding find_address end_of
find_address-lt p size [] = omega arith
find_address-lt p size (a ∷ []) = omega arith
find_address-lt p size (a ∷ b ∷ r) = ground (arith, find_address-lt p size (b ∷ r))

Leaves-if {ℓ κ} :
    {A : Type ℓ} (P : A → Type κ) (b : Bool) (x y : Outcome A)
    → Leaves P x
    → Leaves P y
    → Leaves P (if b then x else y)
Leaves-if P true x y hx hy = hx
Leaves-if P false x y hx hy = hy

Leaves-after {ℓ κ μ} :
    {A : Type ℓ} {B : Type μ} (P : B → Type κ) (m : Outcome A) (f : A → Outcome B)
    → ((a : A) → Leaves P (f a))
    → Leaves P (m >>= f)
Leaves-after P (ok a) f h = h a
Leaves-after P (exited n) f h = tt
Leaves-after P fault f h = tt

word_if : (b : Bool) (x y : ℕ) → x < 2 ^ 32 → y < 2 ^ 32 → (if b then x else y) < 2 ^ 32
word_if true x y hx hy = hx
word_if false x y hx hy = hy

module _ {ℓ} {W : Type ℓ} (host : Host W) (B : (ℕ → ℕ) → Type 0) (P : Context → Type 0)
    (host_keeps : KeepsBytes host B) (keeps : Keeps B P) where
  abbrev pub Holds : W × Context → Type 0
  Holds s = P s.1

  handle_error-Holds : (w : W) (c : Context) → P c → Holds (handle_error host (w, c))
  unfolding handle_error neg32
  handle_error-Holds w c h = elim (Bool-cases (is_negative (c.reg a0))) [
    | inl negative ↦ rw negative (keeps.set_a0 c _ (omega arith) h)
    | inr fine ↦ rw fine h
  ]

  call_host-Holds :
      (f : HostCall) (args : List ℕ) (w : W) (c : Context)
      → P c
      → Leaves Holds (call_host host f args (w, c))
  unfolding call_host
  call_host-Holds f args w c h =
      Leaves-bind _ Holds (host.call f args w c.memory.bytes) _
        (host_keeps.call f args w c.memory.bytes (keeps.bytes c h))
        λ a b.
          handle_error-Holds a.world (set_reg (set_bytes c a.bytes) a0 (u32 a.value))
            (keeps.set_a0 _ _ (omega arith) (keeps.fill c a.bytes b h))

  write_entries-Holds :
      (count i iov total : ℕ) (w : W) (c : Context)
      → total < 2 ^ 32
      → P c
      → Leaves Holds (write_entries host count i iov total (w, c))
  unfolding write_entries
  write_entries-Holds zero i iov total w c small h = keeps.set_a0 c total small h
  write_entries-Holds (suc count) i iov total w c small h =
      Leaves-after Holds (load 4 c (u32 (iov + i * 8))) _ λ base.
        Leaves-after Holds (load 4 c (u32 (iov + i * 8 + 4))) _ λ len.
          Leaves-bind _ Holds (host.call host_write (c.reg a0 ∷ base ∷ len ∷ []) w c.memory.bytes) _
            (host_keeps.call _ _ w c.memory.bytes (keeps.bytes c h))
            λ a b.
              let after = keeps.fill c a.bytes b h in
              let counted : total +w a.value < 2 ^ 32 = unfold ◌+w◌ in omega arith in
              let error : neg32 (host.errno a.world) < 2 ^ 32 = unfold neg32 in omega arith in
              Leaves-if Holds (leb (2 ^ 63) a.value) _ _
                (keeps.set_a0 _ _ (word_if (total == 0) _ _ error small) after)
                (Leaves-if Holds (ltb (u32 a.value) len) _ _ (keeps.set_a0 _ _ counted after) (
                  write_entries-Holds count (i + 1) iov (total +w a.value) a.world
                    (set_bytes c a.bytes) counted after))

  brk-Holds : (w : W) (c : Context) → P c → Holds (brk host (w, c))
  unfolding brk
  brk-Holds w c h = elim (Bool-cases (c.reg a0 == 0 || ltb (c.reg a0) c.memory.heap_base)) [
    | inl asks ↦ rw asks (keeps.heap_end c h)
    | inr sets ↦ elim (Bool-cases (ltb (c.reg sp) (c.reg a0))) [
      | inl stack ↦ rw (sets, stack) (keeps.heap_end c h)
      | inr room ↦ rw (sets, room) (keeps.set_heap_end c h)
    ]
  ]

  munmap-Holds : (w : W) (c : Context) → P c → Leaves Holds (munmap host (w, c))
  unfolding munmap
  munmap-Holds w c h = call_host-Holds host_munmap _ w _ (keeps.free c h)

  clock_gettime64-Holds : (w : W) (c : Context) → P c → Leaves Holds (clock_gettime64 host (w, c))
  unfolding clock_gettime64
  clock_gettime64-Holds w c h =
      let answer = host.clock_gettime (c.reg a0) w in
      let told = set_reg c a0 (u32 answer.1) in
      Leaves-bind P Holds (store 8 told (told.reg a1) answer.2) _
        (keeps.stores 8 _ _ told (keeps.set_a0 c _ (omega arith) h))
        λ half hh.
          Leaves-bind P Holds (store 8 half (u32 (half.reg a1 + 8)) answer.3) _
            (keeps.stores 8 _ _ half hh) (λ full hf. handle_error-Holds answer.0 full hf)

  take_mapping-Holds :
      (address : Option ℕ) (freely : Bool) (c : Context)
      → P c
      → P (take_mapping host address freely c)
  unfolding take_mapping
  take_mapping-Holds none freely c h = keeps.set_a0 c _ (omega arith) h
  take_mapping-Holds (some guest) true c h = keeps.reserve _ (keeps.set_a0 c _ (omega arith) h)
  take_mapping-Holds (some guest) false c h = keeps.set_a0 c _ (omega arith) h

  mmap_at-Holds :
      (freely : Bool) (w : W) (c : Context) → P c → Leaves Holds (mmap_at host freely (w, c))
  unfolding mmap_at
  mmap_at-Holds freely w c h =
      let args =
        c.reg a0 ∷ c.reg a1 ∷ c.reg a2 ∷ bit_or (c.reg a3) 0x10 ∷ c.reg a4 ∷ c.reg a5 ∷ [] in
      let filled = set_bytes c (host.mmap_call args w c.memory.bytes).2 in
      let filled_h =
        keeps.fill c _ (host_keeps.mmap_call args w c.memory.bytes (keeps.bytes c h)) h in
      Leaves-if Holds ((host.data_address + c.reg a0) % c.memory.page_size == 0) _ _
        (handle_error-Holds (host.mmap_call args w c.memory.bytes).0 _
          (take_mapping-Holds (host.mmap_call args w c.memory.bytes).1 freely filled filled_h))
        tt

  mmap-Holds : (w : W) (c : Context) → P c → Leaves Holds (mmap host (w, c))
  unfolding mmap get_mmap_address
  mmap-Holds w c h =
      Leaves-if Holds (c.reg a0 == 0) _ _
        (mmap_at-Holds true w _ (
          keeps.set_a0 c _ (find_address-lt c.memory.page_size (c.reg a1) c.memory.mapped_areas) h))
        (mmap_at-Holds false w c h)

  execve-Holds : (w : W) (c : Context) → P c → Leaves Holds (execve host (w, c))
  unfolding execve
  execve-Holds w c h = Leaves-after Holds (translate_pointer_array host (c.reg a1) c) _ λ argv.
      Leaves-after Holds (translate_pointer_array host (c.reg a2) c) _
        λ envp. call_host-Holds (host_execve argv envp) _ w c h

  after_fork-Holds :
      (flags pid : ℕ) (w : W) (c : Context) → P c → Leaves Holds (after_fork host flags pid (w, c))
  unfolding after_fork
  after_fork-Holds flags pid w c h =
      Leaves-if Holds (pid == 0) _ _
        (Leaves-if Holds (bit_and flags 0x0100_0000 == 0) _ _ h (
          Leaves-after Holds (host.call host_getpid [] w c.memory.bytes) _ λ self.
            Leaves-bind P Holds (store 4 c (c.reg a4) self.value) _ (keeps.stores 4 _ _ c h)
              (λ d hd. hd)))
        (Leaves-if Holds (not (is_negative pid) && not (bit_and flags 0x0010_0000 == 0)) _ _
          (Leaves-bind P Holds (store 4 c (c.reg a2) pid) _ (keeps.stores 4 _ _ c h) (λ d hd. hd))
          h)

  clone-Holds : (w : W) (c : Context) → P c → Leaves Holds (clone host (w, c))
  unfolding clone
  clone-Holds w c h =
      Leaves-if Holds (not (c.reg a1 == 0) || not (bit_and (c.reg a0) 0x1_0900 == 0)) _ _
        (keeps.set_a0 c _ (omega arith) h)
        (Leaves-after Holds (host.call host_fork [] w c.memory.bytes) _ λ a.
          Leaves-bind Holds Holds (after_fork host (c.reg a0) (u32 a.value) (a.world, c)) _
            (after_fork-Holds (c.reg a0) (u32 a.value) a.world c h)
            λ s hs. handle_error-Holds s.0 _ (keeps.set_a0 s.1 _ (omega arith) hs))

  pub handle_number-Holds :
      (num : ℕ) (w : W) (c : Context) → P c → Leaves Holds (handle_number host num (w, c))
  unfolding handle_number
  handle_number-Holds num w c h =
      let pick = λ (b : Bool) (x y : Outcome (W × Context)). Leaves-if Holds b x y in
      let call = λ (f : HostCall) (args : List ℕ). call_host-Holds f args w c h in
      pick (num == 56) _ _ (call _ _) (
        pick (num == 57) _ _ (call _ _) (
          pick (num == 63) _ _ (call _ _) (
            pick (num == 64) _ _ (call _ _) (
              pick (num == 66) _ _
                (unfold writev in write_entries-Holds (c.reg a2) 0 (c.reg a1) 0 w c (omega arith) h)
                (pick (num == 93 || num == 94) _ _ tt (
                  pick (num == 96) _ _ (keeps.set_a0 c _ (omega arith) h) (
                    pick (num == 214) _ _ (brk-Holds w c h) (
                      pick (num == 215) _ _ (munmap-Holds w c h) (
                        pick (num == 220) _ _ (clone-Holds w c h) (
                          pick (num == 221) _ _ (execve-Holds w c h) (
                            pick (num == 222) _ _ (mmap-Holds w c h) (
                              pick (num == 291) _ _ (call _ _) (
                                pick (num == 403) _ _ (clock_gettime64-Holds w c h)
                                  (keeps.set_a0 c _ (omega arith) h))))))))))))))
