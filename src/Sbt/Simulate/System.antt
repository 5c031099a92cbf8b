-- ===== src/Sbt/Simulate/System.antt =====
-- ECALL and the message on an invalid word, between a copy out and a copy in.
use Prim.Native.Nat.{ℕ}
use mathlib.Core.Path.{◌≡◌, refl, ap, ◌∙◌}
use mathlib.Core.Logic.{inl, inr}
use mathlib.Core.List.{List, ◌∷◌, ◌++◌}
use mathlib.Core.Option.{Option, none, some}
use native.Mathlib.Omega.{arith}
use riscv_sbt.Base.{Bool-cases, if◌then◌else◌}
use riscv_sbt.Base.Word.{◌+w◌}
use riscv_sbt.Base.Outcome.{Outcome, ok, exited, fault, ◌>>=◌, bind_assoc, Leaves}
use riscv_sbt.Runtime.Context.{Context, set_reg, set_pc, print_unsupported}
use riscv_sbt.Runtime.Syscall.Kept.{IsSameBut}
use riscv_sbt.Interpreter.Arms.{retire}
use riscv_sbt.Decoder.Instructions.{Instruction}
use riscv_sbt.Sbt.Emit.Syntax.{Stmt, call_handle, print_message}
use riscv_sbt.Sbt.Emit.Emitter.{
  TranslationOptions, Tracked, emit_register_store, emit_register_load, forget,
}
use riscv_sbt.Sbt.Emit.Instructions.{emit_ecall, a7_index}
use riscv_sbt.Sbt.Emit.Machine.{Machine, onward, exec_stmt, exec}
use riscv_sbt.Sbt.Simulate.Represents.{Represents}
use riscv_sbt.Sbt.Simulate.Assign.{IsAt, Follows}
use riscv_sbt.Sbt.Simulate.Accesses.{finish}
use riscv_sbt.Sbt.Simulate.Copies.{emit_register_store-IsStored, emit_register_load-IsLoaded}

-- What the translated program relies on of the system calls: the two entries are one, pc plays no
-- part, and only a0 changes.
pub record IsHandler (handle : Context → Outcome Context)
    (handle_number : ℕ → Context → Outcome Context) : Type 0 where
  pub same_number : (c : Context) → handle_number (c.reg a7_index) c ≡ handle c
  pub any_pc :
      (c : Context) (p : ℕ)
      → handle (record c { pc = p }) ≡ (handle c >>= λ d. ok (record d { pc = p }))
  pub keeps : (c : Context) → Leaves (IsSameBut c) (handle c)

module _ (handle : Context → Outcome Context) (handle_number : ℕ → Context → Outcome Context)
    (laws : IsHandler handle handle_number) (branch_targets : List (ℕ × List (ℕ × ℕ)))
    (leaders : List ℕ) (start : ℕ) (options : TranslationOptions) (t : Tracked) (c : Context)
    (m : Machine) (i : Instruction) (place : IsAt options t c m) (here : c.pc ≡ i.address) where
  -- the number that the emitter has for a7, if it has one
  abbrev number : Option ℕ
  number = if t.known a7_index then some (t.values a7_index) else none

  call : Option ℕ → Context → Outcome Context
  call none x = handle x
  call (some n) x = handle_number n x

  call-handle :
      (p : ℕ) → call number (record c { pc = p }) ≡ (handle c >>= λ d. ok (record d { pc = p }))
  unfolding call
  call-handle p = elim (Bool-cases (t.known a7_index)) [
    | inl known ↦
        let value : t.values a7_index ≡ c.reg a7_index =
          place.tracked a7_index (ground arith) known in
        rw (known, value) (laws.same_number (record c { pc = p }) ∙ laws.any_pc c p)
    | inr unknown ↦ rw unknown (laws.any_pc c p)
  ]

  exec-call :
      (o : Option ℕ) (rest : List Stmt) (k : Machine)
      → exec handle handle_number start (call_handle o ∷ rest) k
        ≡ (call o k.ctx >>= λ d. exec handle handle_number start rest (record k { ctx = d }))
  unfolding exec exec_stmt call
  exec-call none rest k = bind_assoc (handle k.ctx) _ _
  exec-call (some n) rest k = bind_assoc (handle_number n k.ctx) _ _

  -- the call and what follows it
  call-runs :
      (rest : List Stmt) (k : Machine)
      → k.ctx ≡ record c { pc = k.ctx.pc }
      → exec handle handle_number start (call_handle number ∷ rest) k ≡ (
          handle c >>= λ d.
          exec handle handle_number start rest (record k { ctx = record d { pc = k.ctx.pc } }))
  call-runs rest k same =
      exec-call number rest k
      ∙ ap (λ x. call number x >>= λ d. exec handle handle_number start rest (record k { ctx = d }))
          same
      ∙ ap (λ o. o >>= λ d. exec handle handle_number start rest (record k { ctx = d }))
          (call-handle k.ctx.pc)
      ∙ bind_assoc (handle c) _ _

  -- a context that differs from the guest's in pc only
  resume :
      (d : Context) (k : Machine) (p : ℕ)
      → Represents options (record d { pc = p }) k
      → Represents options d k
  resume d k p rep = record { regs = rep.regs; memory = rep.memory; unsupported = rep.unsupported }

  -- What the call leaves, the statements leave.
  returned :
      (o : Outcome Context)
      → Leaves (IsSameBut c) o
      → handle c ≡ o
      → Follows options start i.address o
          (exec handle handle_number start (emit_ecall options branch_targets leaders start t).0 m)
          (emit_ecall options branch_targets leaders start t).1
  unfolding emit_ecall exec exec_stmt
  returned (ok d) same is =
      let s = emit_register_store-IsStored handle handle_number start options c m place.rep in
      let p = s.machine.ctx.pc in
      let after : Machine = record s.machine { ctx = record d { pc = p } } in
      let l = emit_register_load-IsLoaded handle handle_number start options after in
      finish options start i.address d (forget 10 t) _ l.machine onward (resume d l.machine p l.rep)
        (unfold forget in λ r other known. ground (arith, same.reg r, place.tracked r other))
        (same.reg 0 (ground arith) ∙ place.zeroed)
        (s.runs _ ∙ call-runs (emit_register_load options) s.machine s.ctx ∙ rw is l.runs)
        (unfold retire set_reg set_pc in ap (λ x. x +w 4) (same.pc ∙ here))
  returned (exited n) same is =
      let s = emit_register_store-IsStored handle handle_number start options c m place.rep in
      s.runs _ ∙ call-runs (emit_register_load options) s.machine s.ctx ∙ rw is refl
  returned fault same is = tt

  pub emit_ecall-Follows :
      Follows options start i.address
        (handle c)
        (exec handle handle_number start (emit_ecall options branch_targets leaders start t).0 m)
        (emit_ecall options branch_targets leaders start t).1
  emit_ecall-Follows = returned (handle c) (laws.keeps c) refl

  message-runs :
      (k : Machine)
      → k.ctx ≡ record c { pc = k.ctx.pc }
      → exec handle handle_number start (print_message i.address ∷ emit_register_load options) k
        ≡ exec handle handle_number start
            (emit_register_load options)
            (record k { ctx = record (print_unsupported c) { pc = k.ctx.pc } })
  unfolding exec exec_stmt print_unsupported
  message-runs k same =
      ap
        (λ (x : Context).
          exec handle handle_number start (emit_register_load options)
            (record k { ctx = record x { unsupported = i.address ∷ x.unsupported } }))
        same
      ∙ rw here refl

  -- The message names the instruction's address.
  pub emit_invalid-Follows :
      Follows options start i.address
        (ok (print_unsupported c))
        (exec handle handle_number start
          (emit_register_store options ++ (print_message i.address ∷ emit_register_load options))
          m)
        t
  unfolding print_unsupported
  emit_invalid-Follows =
      let s = emit_register_store-IsStored handle handle_number start options c m place.rep in
      let p = s.machine.ctx.pc in
      let after : Machine = record s.machine { ctx = record (print_unsupported c) { pc = p } } in
      let l = emit_register_load-IsLoaded handle handle_number start options after in
      finish options start i.address (print_unsupported c) t _ l.machine onward
        (resume (print_unsupported c) l.machine p l.rep) place.tracked place.zeroed
        (s.runs _ ∙ message-runs s.machine s.ctx ∙ l.runs)
        (unfold retire set_reg set_pc in ap (λ x. x +w 4) here)
