-- ===== src/Sbt/Simulate/Assign.antt =====
-- What is emitted for an assignment to the target register, and where control is left.
use Prim.Native.Nat.{ℕ, ◌/◌}
use mathlib.Core.Path.{◌≡◌, refl, ap}
use mathlib.Core.Logic.{◌≢◌, inl, inr}
use mathlib.Core.List.{List, [], ◌++◌, append-nil}
use native.Mathlib.Omega.{arith}
use riscv_sbt.Base.{ltb, Bool-cases}
use riscv_sbt.Base.Word.{◌+w◌, ◌-w◌}
use riscv_sbt.Base.Outcome.{Outcome, ok, exited, fault}
use riscv_sbt.Runtime.Context.{Context, set_reg, set_pc}
use riscv_sbt.Interpreter.Arms.{retire}
use riscv_sbt.Interpreter.Valid.{FitsWords}
use riscv_sbt.Decoder.Instructions.{Instruction}
use riscv_sbt.Sbt.Emit.Syntax.{Expr, Stmt, value}
use riscv_sbt.Sbt.Emit.Emitter.{
  TranslationOptions, Tracked, target_operand, source_operand, emit_to,
}
use riscv_sbt.Sbt.Emit.Instructions.{emit_assign}
use riscv_sbt.Sbt.Emit.Machine.{
  Machine, Next, onward, to_label, to_slot, eval, assign_to, exec_stmt, exec, operand_value,
}
use riscv_sbt.Sbt.Simulate.Represents.{
  Represents, IsTracked, settle, assign_to-pc, forget-IsTracked, source_operand-value,
  target_operand-value, assign_to-Represents,
}

-- The machine is where the interpreter is, and the emitter is right about the registers.
pub record IsAt (options : TranslationOptions) (t : Tracked) (c : Context) (m : Machine)
    : Type 0 where
  pub rep : Represents options c m
  pub tracked : IsTracked t c
  pub zeroed : c.reg 0 ≡ 0
  pub words : FitsWords c

-- Control goes where pc says: `a` is the address of the instruction, `start` that of the text.
abbrev pub Arrives : ℕ → ℕ → Context → Machine → Next → Type 0
Arrives start a d m onward = d.pc ≡ a +w 4
Arrives start a d m (to_label l) = d.pc ≡ l
Arrives start a d m (to_slot k) = (m.ctx.pc ≡ d.pc) × (k ≡ (d.pc -w start) / 4)

-- the machine that stands for `d`, and the way to it
pub record Reaches (options : TranslationOptions) (start a : ℕ) (d : Context) (t : Tracked)
    (o : Outcome (Machine × Next)) : Type 0 where
  pub machine : Machine
  pub next : Next
  pub runs : o ≡ ok (machine, next)
  pub rep : Represents options d machine
  pub tracked : IsTracked t d
  pub arrives : Arrives start a d machine next

-- What the interpreter's arm leaves, the statements leave, too; an access out of bounds promises
-- nothing.
abbrev pub Follows :
    TranslationOptions → ℕ → ℕ → Outcome Context → Outcome (Machine × Next) → Tracked → Type 0
Follows options start a (ok d) o t = Reaches options start a (retire d) t o
Follows options start a (exited n) o t = o ≡ exited n
Follows options start a fault o t = Unit

module _ (handle : Context → Outcome Context) (handle_number : ℕ → Context → Outcome Context)
    (start : ℕ) (options : TranslationOptions) (t : Tracked) (c : Context) (m : Machine) where
  -- The target register holds the value, whatever follows.
  pub record Puts (rd v : ℕ) (text : List Stmt) (after : Tracked) : Type 0 where
    pub machine : Machine
    pub runs :
        (rest : List Stmt)
        → exec handle handle_number start (text ++ rest) m
          ≡ exec handle handle_number start rest machine
    pub rep : Represents options (settle (set_reg c rd v)) machine
    pub tracked : IsTracked after (settle (set_reg c rd v))
    pub pc : machine.ctx.pc ≡ m.ctx.pc

  pub emit_to-Puts :
      (rd v : ℕ) (s : Stmt)
      → Represents options c m
      → IsTracked t c
      → c.reg 0 ≡ 0
      → (rd ≢ 0
          → exec_stmt handle handle_number start s m
            ≡ ok (assign_to (target_operand options rd) v m, onward))
      → Puts rd v (emit_to options rd s t).0 (emit_to options rd s t).1
  unfolding emit_to exec set_reg
  emit_to-Puts rd v s rep tracked zeroed runs = elim (Bool-cases (ltb 0 rd)) [
    | inl real ↦
        let other : rd ≢ 0 = ground (arith, real) in
        rw real record {
          machine = assign_to (target_operand options rd) v m;
          runs = λ rest. rw (runs other);
          rep = assign_to-Represents options c m rep rd v other zeroed;
          tracked = forget-IsTracked t c rd v tracked;
          pc = assign_to-pc (target_operand options rd) v m;
        }
    | inr skip ↦ rw skip record {
      machine = m;
      runs = λ rest. refl;
      rep = record {
        regs = λ j. ground (arith, skip, rep.regs j, zeroed);
        memory = rep.memory;
        unsupported = rep.unsupported;
      };
      tracked = forget-IsTracked t c rd v tracked;
      pc = refl;
    }
  ]

  -- The end of an instruction that only assigns.
  pub Puts-Follows :
      (rd v a : ℕ) (text : List Stmt) (after : Tracked)
      → c.pc ≡ a
      → Puts rd v text after
      → Follows options start a (ok (set_reg c rd v)) (exec handle handle_number start text m) after
  unfolding exec retire set_pc set_reg
  Puts-Follows rd v a text after here p = record {
    machine = p.machine;
    next = onward;
    runs =
        let ran : exec handle handle_number start text m ≡ ok (p.machine, onward) =
          rw append-nil at (p.runs []) in
        ran;
    rep = record { regs = p.rep.regs; memory = p.rep.memory; unsupported = p.rep.unsupported };
    tracked = p.tracked;
    arrives = ap (λ x. x +w 4) here;
  }

-- An instruction that assigns an expression in its sources.
module _ (handle : Context → Outcome Context) (handle_number : ℕ → Context → Outcome Context)
    (branch_targets : List (ℕ × List (ℕ × ℕ))) (leaders : List ℕ) (start : ℕ)
    (options : TranslationOptions) (t : Tracked) (c : Context) (m : Machine) (i : Instruction)
    (place : IsAt options t c m) (here : c.pc ≡ i.address) where
  pub source1 : operand_value (source_operand options t i.rs1) m ≡ c.reg i.rs1
  source1 = source_operand-value options c m place.rep t i.rs1 place.tracked place.zeroed

  pub source2 : operand_value (source_operand options t i.rs2) m ≡ c.reg i.rs2
  source2 = source_operand-value options c m place.rep t i.rs2 place.tracked place.zeroed

  pub target : operand_value (target_operand options i.rd) m ≡ c.reg i.rd
  target = target_operand-value options c m place.rep i.rd place.zeroed

  -- one statement that assigns `v`
  pub puts-Follows :
      (v : ℕ) (s : Stmt)
      → exec_stmt handle handle_number start s m
        ≡ ok (assign_to (target_operand options i.rd) v m, onward)
      → Follows options start i.address
          (ok (set_reg c i.rd v))
          (exec handle handle_number start (emit_to options i.rd s t).0 m)
          (emit_to options i.rd s t).1
  puts-Follows v s runs =
      Puts-Follows handle handle_number start options t c m i.rd v i.address _ _ here (
        emit_to-Puts handle handle_number start options t c m i.rd v s place.rep place.tracked
          place.zeroed (λ other. runs))

  pub emit_assign-Follows :
      (e : Expr → Expr → Expr) (v : ℕ)
      → eval m (e (value (source_operand options t i.rs1)) (value (source_operand options t i.rs2)))
        ≡ v
      → Follows options start i.address
          (ok (set_reg c i.rd v))
          (exec handle handle_number start
            (emit_assign options branch_targets leaders start e t i).0
            m)
          (emit_assign options branch_targets leaders start e t i).1
  unfolding emit_assign exec_stmt
  emit_assign-Follows e v same = puts-Follows v _ (rw same)
