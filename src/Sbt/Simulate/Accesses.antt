-- ===== src/Sbt/Simulate/Accesses.antt =====
-- Loads and stores.
use Prim.Native.Nat.{ℕ, ◌+◌}
use mathlib.Core.Path.{◌≡◌, refl, ap, ◌∙◌}
use mathlib.Core.Logic.{◌⊎◌, inl, inr}
use mathlib.Core.List.{List, ◌++◌}
use native.Mathlib.Omega.{arith}
use riscv_sbt.Base.{◌==◌, leb, Bool-cases}
use riscv_sbt.Base.Word.{◌+w◌, sext8, sext16}
use riscv_sbt.Base.Outcome.{Outcome, ok, fault, ◌>>=◌}
use riscv_sbt.Runtime.Memory.{Memory, data_size, mmap_size, read, write, load_bytes, store_bytes}
use riscv_sbt.Runtime.Context.{Context, set_reg, set_pc, load, store}
use riscv_sbt.Interpreter.Arms.{retire}
use riscv_sbt.Decoder.Instructions.{Instruction}
use riscv_sbt.Sbt.Emit.Syntax.{
  Access, signed_byte, signed_half, whole_word, unsigned_byte, unsigned_half, Stmt, Expr,
  address_variable, read_assign,
}
use riscv_sbt.Sbt.Emit.Emitter.{
  TranslationOptions, Tracked, target_operand, source_operand, emit_to, emit_load_save_address,
}
use riscv_sbt.Sbt.Emit.Instructions.{emit_load, emit_store, emit_sc_w}
use riscv_sbt.Sbt.Emit.Machine.{
  Machine, Next, onward, eval, binary_value, operand_value, read_access, exec_stmt, exec,
}
use riscv_sbt.Sbt.Simulate.Represents.{Represents, IsTracked, source_operand-value}
use riscv_sbt.Sbt.Simulate.Assign.{IsAt, Reaches, Arrives, Follows, Puts-Follows, emit_to-Puts}
use riscv_sbt.Sbt.Simulate.Alu.{add-zero}

-- an instruction that leaves x0 alone
pub finish :
    (options : TranslationOptions) (start a : ℕ) (d : Context) (u : Tracked)
    (o : Outcome (Machine × Next)) (m : Machine) (next : Next)
    → Represents options d m
    → IsTracked u d
    → d.reg 0 ≡ 0
    → o ≡ ok (m, next)
    → Arrives start a (retire d) m next
    → Reaches options start a (retire d) u o
unfolding retire set_reg set_pc
finish options start a d u o m next rep tracked zeroed runs arrives = record {
  machine = m;
  next = next;
  runs = runs;
  rep = record {
    regs = λ j. ground (arith, rep.regs j, zeroed);
    memory = rep.memory;
    unsupported = rep.unsupported;
  };
  tracked = λ r other known. ground (arith, tracked r other known);
  arrives = arrives;
}

load-cases : (n : ℕ) (c : Context) (a : ℕ) → ((v : ℕ) × (load n c a ≡ ok v)) ⊎ (load n c a ≡ fault)
unfolding load read
load-cases n c a = elim (Bool-cases (leb (a + n) (data_size + mmap_size))) [
  | inl inside ↦ inl (load_bytes c.memory.bytes a n, rw inside)
  | inr outside ↦ inr (rw outside)
]

-- A read ends in a value or out of bounds.
pub read_access-cases :
    (access : Access) (c : Context) (a : ℕ)
    → ((v : ℕ) × (read_access access c a ≡ ok v)) ⊎ (read_access access c a ≡ fault)
unfolding read_access
read_access-cases signed_byte c a = elim (load-cases 1 c a) [
  | inl (v, done) ↦ inl (sext8 v, rw done)
  | inr out ↦ inr (rw out)
]
read_access-cases signed_half c a = elim (load-cases 2 c a) [
  | inl (v, done) ↦ inl (sext16 v, rw done)
  | inr out ↦ inr (rw out)
]
read_access-cases whole_word c a = load-cases 4 c a
read_access-cases unsigned_byte c a = load-cases 1 c a
read_access-cases unsigned_half c a = load-cases 2 c a

-- The machine's memory is the guest's.
read_access-same :
    (access : Access) (c d : Context) (a : ℕ)
    → d.memory ≡ c.memory
    → read_access access d a ≡ read_access access c a
unfolding read_access load
read_access-same signed_byte c d a same = rw same
read_access-same signed_half c d a same = rw same
read_access-same whole_word c d a same = rw same
read_access-same unsigned_byte c d a same = rw same
read_access-same unsigned_half c d a same = rw same

module _ (handle : Context → Outcome Context) (handle_number : ℕ → Context → Outcome Context)
    (branch_targets : List (ℕ × List (ℕ × ℕ))) (leaders : List ℕ) (start : ℕ)
    (options : TranslationOptions) (t : Tracked) (c : Context) (m : Machine) (i : Instruction)
    (place : IsAt options t c m) (here : c.pc ≡ i.address) where
  -- the machine after `address = …`
  addressed : Machine
  addressed = record m { address = c.reg i.rs1 +w i.immediate }

  addressed-IsAt : IsAt options t c addressed
  unfolding addressed
  addressed-IsAt = record {
    rep = record {
      regs = place.rep.regs;
      memory = place.rep.memory;
      unsupported = place.rep.unsupported;
    };
    tracked = place.tracked;
    zeroed = place.zeroed;
    words = place.words;
  }

  first : operand_value (source_operand options t i.rs1) m ≡ c.reg i.rs1
  first = source_operand-value options c m place.rep t i.rs1 place.tracked place.zeroed

  address-runs :
      (rest : List Stmt)
      → exec handle handle_number start (emit_load_save_address options t i ++ rest) m
        ≡ exec handle handle_number start rest addressed
  unfolding emit_load_save_address exec exec_stmt eval binary_value addressed
  address-runs rest = elim (Bool-cases (i.immediate == 0)) [
    | inl plain ↦ rw (
      plain,
      first,
      ← add-zero (c.reg i.rs1) i.immediate (place.words.regs i.rs1) (ground (arith, plain)),
    )
    | inr offset ↦ rw (offset, first)
  ]

  -- A read into the target register, from the machine `k`.
  pub read-Follows :
      (k : Machine) (access : Access) (e : Expr) (a : ℕ)
      → IsAt options t c k
      → eval k e ≡ a
      → Follows options start i.address
          (read_access access c a >>= λ v. ok (set_reg c i.rd v))
          (exec handle handle_number start
            (emit_to options i.rd (read_assign (target_operand options i.rd) access e) t).0
            k)
          (emit_to options i.rd (read_assign (target_operand options i.rd) access e) t).1
  unfolding exec_stmt
  read-Follows k access e a at same = elim (read_access-cases access c a) [
    | inl (v, done) ↦
        let reads : read_access access k.ctx (eval k e) ≡ ok v =
          rw same (read_access-same access c k.ctx a at.rep.memory ∙ done) in
        rw done (
          Puts-Follows handle handle_number start options t c k i.rd v i.address _ _ here (
            emit_to-Puts handle handle_number start options t c k i.rd v _ at.rep at.tracked
              at.zeroed (λ other. rw reads)))
    | inr out ↦ rw out tt
  ]

  pub emit_load-Follows :
      (access : Access)
      → Follows options start i.address
          (read_access access c (c.reg i.rs1 +w i.immediate) >>= λ v. ok (set_reg c i.rd v))
          (exec handle handle_number start
            (emit_load options branch_targets leaders start access t i).0
            m)
          (emit_load options branch_targets leaders start access t i).1
  unfolding emit_load addressed
  emit_load-Follows access = rw (address-runs _) (
      read-Follows addressed access address_variable _ addressed-IsAt
        (unfold eval addressed in refl))

  -- the guest and the machine with another memory
  stored : Memory → Context
  stored mm = record c { memory = mm }

  abbrev machine_stored : Machine → Memory → Machine
  machine_stored k mm = record k { ctx = record k.ctx { memory = mm } }

  -- A write leaves the same memory in both, or is out of bounds.
  store-cases :
      (k : Machine) (n a v : ℕ)
      → Represents options c k
      → ((mm : Memory) × (store n c a v ≡ ok (stored mm))
          × (store n k.ctx a v ≡ ok (machine_stored k mm).ctx)
          × Represents options (stored mm) (machine_stored k mm))
        ⊎ (store n c a v ≡ fault)
  unfolding store write stored
  store-cases k n a v rep = elim (Bool-cases (leb (a + n) (data_size + mmap_size))) [
    | inl inside ↦ inl (
      record c.memory { bytes = store_bytes c.memory.bytes a n v },
      rw inside,
      rw (inside, rep.memory),
      record { regs = rep.regs; memory = refl; unsupported = rep.unsupported },
    )
    | inr outside ↦ inr (rw outside)
  ]

  pub emit_store-Follows :
      (n : ℕ)
      → Follows options start i.address
          (store n c (c.reg i.rs1 +w i.immediate) (c.reg i.rs2))
          (exec handle handle_number start
            (emit_store options branch_targets leaders start n t i).0
            m)
          (emit_store options branch_targets leaders start n t i).1
  unfolding emit_store exec exec_stmt eval addressed stored retire ◌+w◌ set_reg set_pc
  emit_store-Follows n =
      let a = c.reg i.rs1 +w i.immediate in
      let v : operand_value (source_operand options t i.rs2) addressed ≡ c.reg i.rs2 =
        source_operand-value options c addressed addressed-IsAt.rep t i.rs2 place.tracked
          place.zeroed in
      elim (store-cases addressed n a (c.reg i.rs2) addressed-IsAt.rep) [
        | inl (mm, done, runs, rep) ↦
            rw (address-runs _, done)
              (finish options start i.address (stored mm) t _ (machine_stored addressed mm) onward
                rep place.tracked place.zeroed (rw (v, runs)) (ap (λ x. x +w 4) here))
        | inr out ↦ rw out tt
      ]

  -- SC_W: the write, then the assignment.
  pub emit_sc_w-Follows :
      Follows options start i.address
        (store 4 c (c.reg i.rs1) (c.reg i.rs2) >>= λ s. ok (set_reg s i.rd 0))
        (exec handle handle_number start (emit_sc_w options branch_targets leaders start t i).0 m)
        (emit_sc_w options branch_targets leaders start t i).1
  unfolding emit_sc_w exec exec_stmt eval stored
  emit_sc_w-Follows =
      let v : operand_value (source_operand options t i.rs2) m ≡ c.reg i.rs2 =
        source_operand-value options c m place.rep t i.rs2 place.tracked place.zeroed in
      elim (store-cases m 4 (c.reg i.rs1) (c.reg i.rs2) place.rep) [
        | inl (mm, done, runs, rep) ↦
            rw (first, v, done, runs)
              (Puts-Follows handle handle_number start options t (stored mm) (machine_stored m mm)
                i.rd 0 i.address _ _ here
                (emit_to-Puts handle handle_number start options t (stored mm) (machine_stored m mm)
                  i.rd 0 _ rep place.tracked place.zeroed (λ other. refl)))
        | inr out ↦ rw out tt
      ]
