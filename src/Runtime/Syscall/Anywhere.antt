-- ===== src/Runtime/Syscall/Anywhere.antt =====
-- pc plays no part in the system calls: a call from another pc does the same and leaves that pc.
use Prim.Native.Nat.{ℕ, zero, suc, ◌+◌, ◌*◌, ◌%◌, ◌^◌, bit_and, bit_or}
use mathlib.Core.Path.{◌≡◌, refl, ap, ◌∙◌}
use mathlib.Core.Logic.{inl, inr}
use mathlib.Core.Bool.{Bool, true, false, ◌||◌, ◌&&◌, not}
use mathlib.Core.List.{List, [], ◌∷◌}
use mathlib.Core.Option.{Option, none, some}
use riscv_sbt.Base.{ltb, leb, ◌==◌, Bool-cases, if◌then◌else◌}
use riscv_sbt.Base.Word.{u32, is_negative, ◌+w◌}
use riscv_sbt.Base.Outcome.{Outcome, ok, exited, fault, ◌>>=◌}
use riscv_sbt.Runtime.Memory.{Memory, write}
use riscv_sbt.Runtime.Context.{Context, set_reg, store, load}
use riscv_sbt.Runtime.Arena.{get_mmap_address, free_mmap_space}
use riscv_sbt.Runtime.Syscall.{
  HostCall, host_write, host_munmap, host_fork, host_getpid, host_execve, Host, sp, a0, a1, a2, a3,
  a4, a5, a7, set_bytes, handle_error, call_host, write_entries, writev, brk, take_mapping, mmap_at,
  mmap, munmap, clock_gettime64, entries, translate_pointer_array, execve, after_fork, clone,
  handle_number, handle,
}

abbrev pub at_pc : ℕ → Context → Context
at_pc p c = record c { pc = p }

module _ {ℓ} {W : Type ℓ} (host : Host W) (p : ℕ) where
  -- what a call comes to, with the pc `p`
  abbrev pub moved : Outcome (W × Context) → Outcome (W × Context)
  moved o = o >>= λ s. ok (s.0, at_pc p s.1)

  bind-moved {κ} :
      {A : Type κ} (o : Outcome A) (f g : A → Outcome (W × Context))
      → ((a : A) → g a ≡ moved (f a))
      → (o >>= g) ≡ moved (o >>= f)
  bind-moved (ok a) f g h = h a
  bind-moved (exited n) f g h = refl
  bind-moved fault f g h = refl

  if-moved :
      (b : Bool) (x y x1 y1 : Outcome (W × Context))
      → x1 ≡ moved x
      → y1 ≡ moved y
      → (if b then x1 else y1) ≡ moved (if b then x else y)
  if-moved true x y x1 y1 hx hy = hx
  if-moved false x y x1 y1 hx hy = hy

  handle_error-moved :
      (w : W) (c : Context)
      → handle_error host (w, at_pc p c)
        ≡ ((handle_error host (w, c)).0, at_pc p (handle_error host (w, c)).1)
  unfolding handle_error set_reg
  handle_error-moved w c = elim (Bool-cases (is_negative (c.reg a0))) [
    | inl negative ↦ rw negative refl
    | inr fine ↦ rw fine refl
  ]

  -- a store, and what follows it
  store-moved :
      (n a x : ℕ) (c : Context) (f g : Context → Outcome (W × Context))
      → ((d : Context) → g (at_pc p d) ≡ moved (f d))
      → (store n (at_pc p c) a x >>= g) ≡ moved (store n c a x >>= f)
  unfolding store
  store-moved n a x c f g h = written (write n c.memory a x)
    where
      written :
          (o : Outcome Memory)
          → (o >>= (λ m. ok (record (at_pc p c) { memory = m })) >>= g)
            ≡ moved (o >>= (λ m. ok (record c { memory = m })) >>= f)
      written (ok m) = h (record c { memory = m })
      written (exited k) = refl
      written fault = refl

  call_host-moved :
      (f : HostCall) (args : List ℕ) (w : W) (c : Context)
      → call_host host f args (w, at_pc p c) ≡ moved (call_host host f args (w, c))
  unfolding call_host set_reg
  call_host-moved f args w c = bind-moved (host.call f args w c.memory.bytes) _ _ λ a.
      ap (λ s. ok s) (handle_error-moved a.world (set_reg (set_bytes c a.bytes) a0 (u32 a.value)))

  write_entries-moved :
      (count i iov total : ℕ) (w : W) (c : Context)
      → write_entries host count i iov total (w, at_pc p c)
        ≡ moved (write_entries host count i iov total (w, c))
  unfolding write_entries set_reg load
  write_entries-moved zero i iov total w c = refl
  write_entries-moved (suc count) i iov total w c =
      bind-moved (load 4 c (u32 (iov + i * 8))) _ _ λ base.
        bind-moved (load 4 c (u32 (iov + i * 8 + 4))) _ _ λ len.
          bind-moved (host.call host_write (c.reg a0 ∷ base ∷ len ∷ []) w c.memory.bytes) _ _ λ a.
            if-moved (leb (2 ^ 63) a.value) _ _ _ _ refl (
              if-moved (ltb (u32 a.value) len) _ _ _ _ refl (
                write_entries-moved count (i + 1) iov (total +w a.value) a.world
                  (set_bytes c a.bytes)))

  brk-moved : (w : W) (c : Context) → ok (brk host (w, at_pc p c)) ≡ moved (ok (brk host (w, c)))
  unfolding brk set_reg
  brk-moved w c = elim (Bool-cases (c.reg a0 == 0 || ltb (c.reg a0) c.memory.heap_base)) [
    | inl asks ↦ rw asks refl
    | inr sets ↦ elim (Bool-cases (ltb (c.reg sp) (c.reg a0))) [
      | inl stack ↦ rw (sets, stack) refl
      | inr room ↦ rw (sets, room) refl
    ]
  ]

  munmap-moved : (w : W) (c : Context) → munmap host (w, at_pc p c) ≡ moved (munmap host (w, c))
  unfolding munmap
  munmap-moved w c =
      call_host-moved host_munmap (c.reg a0 ∷ c.reg a1 ∷ []) w
        (record c { memory = (free_mmap_space (c.reg a0) (c.reg a1) c.memory).1 })

  clock_gettime64-moved :
      (w : W) (c : Context)
      → clock_gettime64 host (w, at_pc p c) ≡ moved (clock_gettime64 host (w, c))
  unfolding clock_gettime64 set_reg
  clock_gettime64-moved w c =
      let answer = host.clock_gettime (c.reg a0) w in
      let told = set_reg c a0 (u32 answer.1) in
      store-moved 8 (told.reg a1) answer.2 told _ _ λ half.
        store-moved 8 (u32 (half.reg a1 + 8)) answer.3 half _ _
          λ full. ap (λ s. ok s) (handle_error-moved answer.0 full)

  take_mapping-moved :
      (address : Option ℕ) (freely : Bool) (c : Context)
      → take_mapping host address freely (at_pc p c) ≡ at_pc p (take_mapping host address freely c)
  unfolding take_mapping set_reg
  take_mapping-moved none freely c = refl
  take_mapping-moved (some guest) true c = refl
  take_mapping-moved (some guest) false c = refl

  mmap_at-moved :
      (freely : Bool) (w : W) (c : Context)
      → mmap_at host freely (w, at_pc p c) ≡ moved (mmap_at host freely (w, c))
  unfolding mmap_at
  mmap_at-moved freely w c =
      let args =
        c.reg a0 ∷ c.reg a1 ∷ c.reg a2 ∷ bit_or (c.reg a3) 0x10 ∷ c.reg a4 ∷ c.reg a5 ∷ [] in
      let answer = host.mmap_call args w c.memory.bytes in
      let filled = set_bytes c answer.2 in
      if-moved ((host.data_address + c.reg a0) % c.memory.page_size == 0) _ _ _ _
        (ap (λ d. ok (handle_error host (answer.0, d))) (take_mapping-moved answer.1 freely filled)
          ∙ ap (λ s. ok s) (handle_error-moved answer.0 (take_mapping host answer.1 freely filled)))
        refl

  mmap-moved : (w : W) (c : Context) → mmap host (w, at_pc p c) ≡ moved (mmap host (w, c))
  unfolding mmap set_reg
  mmap-moved w c =
      if-moved (c.reg a0 == 0) _ _ _ _
        (mmap_at-moved true w (set_reg c a0 (get_mmap_address (c.reg a1) c.memory)))
        (mmap_at-moved false w c)

  entries-same :
      (fuel address : ℕ) (c : Context)
      → entries host fuel address (at_pc p c) ≡ entries host fuel address c
  unfolding entries load
  entries-same zero address c = refl
  entries-same (suc fuel) address c = λ i. load 4 c address >>= λ entry.
      if entry == 0
      then ok []
      else (entries-same fuel (address +w 4) c i >>= λ more. ok (entry ∷ more))

  array_same :
      (address : ℕ) (c : Context)
      → translate_pointer_array host address (at_pc p c) ≡ translate_pointer_array host address c
  unfolding translate_pointer_array
  array_same address c = λ i.
      if address == 0 then ok none else (entries-same 0x4_0001 address c i >>= λ all. ok (some all))

  execve-moved : (w : W) (c : Context) → execve host (w, at_pc p c) ≡ moved (execve host (w, c))
  unfolding execve
  execve-moved w c =
      (λ i. array_same (c.reg a1) c i >>= λ argv. array_same (c.reg a2) c i >>= λ envp.
      call_host host (host_execve argv envp) (c.reg a0 ∷ []) (w, at_pc p c))
      ∙ bind-moved (translate_pointer_array host (c.reg a1) c) _ _ λ argv.
        bind-moved (translate_pointer_array host (c.reg a2) c) _ _
          λ envp. call_host-moved (host_execve argv envp) (c.reg a0 ∷ []) w c

  after_fork-moved :
      (flags pid : ℕ) (w : W) (c : Context)
      → after_fork host flags pid (w, at_pc p c) ≡ moved (after_fork host flags pid (w, c))
  unfolding after_fork
  after_fork-moved flags pid w c =
      if-moved (pid == 0) _ _ _ _
        (if-moved (bit_and flags 0x0100_0000 == 0) _ _ _ _ refl (
          bind-moved (host.call host_getpid [] w c.memory.bytes) _ _
            λ self. store-moved 4 (c.reg a4) self.value c _ _ (λ d. refl)))
        (if-moved (not (is_negative pid) && not (bit_and flags 0x0010_0000 == 0)) _ _ _ _
          (store-moved 4 (c.reg a2) pid c _ _ (λ d. refl)) refl)

  then-moved :
      (o o1 : Outcome (W × Context)) (f : W × Context → Outcome (W × Context))
      → o1 ≡ moved o
      → ((w : W) (c : Context) → f (w, at_pc p c) ≡ moved (f (w, c)))
      → (o1 >>= f) ≡ moved (o >>= f)
  then-moved (ok s) o1 f e h = ap (λ x. x >>= f) e ∙ h s.0 s.1
  then-moved (exited n) o1 f e h = ap (λ x. x >>= f) e
  then-moved fault o1 f e h = ap (λ x. x >>= f) e

  clone-moved : (w : W) (c : Context) → clone host (w, at_pc p c) ≡ moved (clone host (w, c))
  unfolding clone set_reg
  clone-moved w c =
      if-moved (not (c.reg a1 == 0) || not (bit_and (c.reg a0) 0x1_0900 == 0)) _ _ _ _ refl (
        bind-moved (host.call host_fork [] w c.memory.bytes) _ _ λ a.
          then-moved (after_fork host (c.reg a0) (u32 a.value) (a.world, c)) _ _
            (after_fork-moved (c.reg a0) (u32 a.value) a.world c)
            λ v d. ap (λ s. ok s) (handle_error-moved v (set_reg d a0 (u32 a.value))))

  handle_number-moved :
      (num : ℕ) (w : W) (c : Context)
      → handle_number host num (w, at_pc p c) ≡ moved (handle_number host num (w, c))
  unfolding handle_number set_reg
  handle_number-moved num w c =
      let pick = λ (b : Bool) (x y x1 y1 : Outcome (W × Context)). if-moved b x y x1 y1 in
      let call = λ (f : HostCall) (args : List ℕ). call_host-moved f args w c in
      pick (num == 56) _ _ _ _ (call _ _) (
        pick (num == 57) _ _ _ _ (call _ _) (
          pick (num == 63) _ _ _ _ (call _ _) (
            pick (num == 64) _ _ _ _ (call _ _) (
              pick (num == 66) _ _ _ _
                (unfold writev in write_entries-moved (c.reg a2) 0 (c.reg a1) 0 w c)
                (pick (num == 93 || num == 94) _ _ _ _ refl (
                  pick (num == 96) _ _ _ _ refl (
                    pick (num == 214) _ _ _ _ (brk-moved w c) (
                      pick (num == 215) _ _ _ _ (munmap-moved w c) (
                        pick (num == 220) _ _ _ _ (clone-moved w c) (
                          pick (num == 221) _ _ _ _ (execve-moved w c) (
                            pick (num == 222) _ _ _ _ (mmap-moved w c) (
                              pick (num == 291) _ _ _ _ (call _ _) (
                                pick (num == 403) _ _ _ _ (clock_gettime64-moved w c)
                                  refl)))))))))))))

  pub handle-moved : (w : W) (c : Context) → handle host (w, at_pc p c) ≡ moved (handle host (w, c))
  unfolding handle
  handle-moved w c = handle_number-moved (c.reg a7) w c
