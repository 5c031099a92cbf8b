-- ===== src/Sbt/Simulate/Control.antt =====
-- Branches and jumps.
use Prim.Native.Nat.{ℕ, ◌/◌}
use mathlib.Core.Path.{◌≡◌, refl, sym, ap, ◌∙◌}
use mathlib.Core.Logic.{◌≢◌, inl, inr}
use mathlib.Core.Bool.{Bool, true, false}
use mathlib.Core.List.{List, [], ◌∷◌}
use native.Mathlib.Omega.{arith}
use riscv_sbt.Base.{◌==◌, if◌then◌else◌}
use riscv_sbt.Base.Word.{◌+w◌, ◌-w◌, of_bool}
use riscv_sbt.Base.Outcome.{Outcome, ok}
use riscv_sbt.Runtime.Context.{Context, set_reg, set_pc}
use riscv_sbt.Interpreter.Arms.{branch, jump_relative, jump_register, retire}
use riscv_sbt.Decoder.Instructions.{Instruction}
use riscv_sbt.Sbt.Emit.Syntax.{
  Expr, Stmt, add_op, binary, constant, value, hex, goto, set_pc_to, assign,
}
use riscv_sbt.Sbt.Emit.Emitter.{
  TranslationOptions, Tracked, target_operand, source_operand, emit_to,
}
use riscv_sbt.Sbt.Emit.Instructions.{emit_branch, emit_jal, emit_jalr, get_indirect_branch_targets}
use riscv_sbt.Sbt.Emit.Machine.{
  Machine, Next, onward, to_label, eval, binary_value, operand_value, exec_stmt, exec,
}
use riscv_sbt.Sbt.Simulate.Represents.{Represents, settle}
use riscv_sbt.Sbt.Simulate.Assign.{
  IsAt, Arrives, Reaches, Follows, Puts, source1, source2, emit_to-Puts,
}
use riscv_sbt.Sbt.Simulate.Accesses.{finish}
use riscv_sbt.Sbt.Simulate.Leave.{dispatched, guess_then_leave-cases, timer-runs}

pub back : (a b : ℕ) → (a +w (b -w 4)) +w 4 ≡ a +w b
unfolding ◌+w◌ ◌-w◌
back a b = omega arith

-- the four that the interpreter takes off for the end of the instruction
forth : (a b : ℕ) → ((a +w b) -w 4) +w 4 ≡ a +w b
unfolding ◌+w◌ ◌-w◌
forth a b = omega arith

module _ (handle : Context → Outcome Context) (handle_number : ℕ → Context → Outcome Context)
    (branch_targets : List (ℕ × List (ℕ × ℕ))) (leaders : List ℕ) (start : ℕ)
    (options : TranslationOptions) (t : Tracked) (c : Context) (m : Machine) (i : Instruction)
    (place : IsAt options t c m) (here : c.pc ≡ i.address) where
  first : operand_value (source_operand options t i.rs1) m ≡ c.reg i.rs1
  first = source1 handle handle_number branch_targets leaders start options t c m i place here

  second : operand_value (source_operand options t i.rs2) m ≡ c.reg i.rs2
  second = source2 handle handle_number branch_targets leaders start options t c m i place here

  pub emit_branch-Follows :
      (test : Expr → Expr → Expr) (taken : Bool)
      → eval m
          (test (value (source_operand options t i.rs1)) (value (source_operand options t i.rs2)))
        ≡ of_bool taken
      → Follows options start i.address
          (ok (branch c taken i.immediate))
          (exec handle handle_number start
            (emit_branch options branch_targets leaders start test t i).0
            m)
          (emit_branch options branch_targets leaders start test t i).1
  unfolding emit_branch exec exec_stmt branch set_pc
  emit_branch-Follows test true same =
      finish options start i.address (set_pc c (c.pc +w (i.immediate -w 4))) t _ m
        (to_label (i.address +w i.immediate))
        record {
          regs = place.rep.regs;
          memory = place.rep.memory;
          unsupported = place.rep.unsupported;
        }
        place.tracked place.zeroed (rw same refl)
        (unfold retire set_reg in (back c.pc i.immediate ∙ ap (λ x. x +w i.immediate) here))
  emit_branch-Follows test false same =
      finish options start i.address c t _ m onward place.rep place.tracked place.zeroed
        (rw same refl) (unfold retire set_reg in ap (λ x. x +w 4) here)

  -- the link of a jump, from a machine that stands for the state
  link :
      (k : Machine)
      → Represents options c k
      → Puts handle handle_number start options t c k i.rd
          (c.pc +w 4)
          (emit_to options i.rd (assign (target_operand options i.rd) (hex (i.address +w 4))) t).0
          (emit_to options i.rd (assign (target_operand options i.rd) (hex (i.address +w 4))) t).1
  unfolding exec_stmt eval
  link k rep =
      emit_to-Puts handle handle_number start options t c k i.rd (c.pc +w 4) _ rep place.tracked
        place.zeroed (λ other. rw here)

  -- a jump that goes on from the link
  jump-Reaches :
      (k : Machine) (text : List Stmt) (after : Tracked) (x : ℕ) (o : Outcome (Machine × Next))
      (p : Puts handle handle_number start options t c k i.rd (c.pc +w 4) text after) (d : Machine)
      (next : Next)
      → (view_same : Represents options (settle (set_reg c i.rd (c.pc +w 4))) d) → o ≡ ok (d, next)
      → Arrives start i.address (retire (set_pc (set_reg c i.rd (c.pc +w 4)) x)) d next
      → Reaches options start i.address (retire (set_pc (set_reg c i.rd (c.pc +w 4)) x)) after o
  unfolding retire set_reg set_pc
  jump-Reaches k text after x o p d next rep runs arrives = record {
    machine = d;
    next = next;
    runs = runs;
    rep = record { regs = rep.regs; memory = rep.memory; unsupported = rep.unsupported };
    tracked = p.tracked;
    arrives = arrives;
  }

  pub emit_jal-Follows :
      Follows options start i.address
        (ok (jump_relative c i.rd i.immediate))
        (exec handle handle_number start (emit_jal options branch_targets leaders start t i).0 m)
        (emit_jal options branch_targets leaders start t i).1
  unfolding emit_jal jump_relative
  emit_jal-Follows =
      let p = link m place.rep in
      jump-Reaches m _ _ _ _ p p.machine (to_label (i.address +w i.immediate)) p.rep
        (p.runs (goto (i.address +w i.immediate) ∷ []) ∙ unfold exec exec_stmt in refl)
        (unfold retire set_reg set_pc in (back c.pc i.immediate ∙ ap (λ x. x +w i.immediate) here))

  -- the machine after `ctx.pc = …`
  jumped : Machine
  jumped = record m { ctx = set_pc m.ctx (i.immediate +w c.reg i.rs1) }

  jumped-pc :
      i.rs1 ≢ i.rd
      → (retire (jump_register c i.rd i.rs1 i.immediate)).pc ≡ i.immediate +w c.reg i.rs1
  unfolding retire jump_register set_reg set_pc
  jumped-pc apart =
      let kept : (if i.rs1 == i.rd then c.pc +w 4 else c.reg i.rs1) ≡ c.reg i.rs1 =
        ground (arith, apart) in
      rw (kept, forth i.immediate (c.reg i.rs1))

  enter :
      (rest : List Stmt)
      → exec handle handle_number start
          (set_pc_to (binary add_op (constant i.immediate) (value (source_operand options t i.rs1)))
            ∷ rest)
          m
        ≡ exec handle handle_number start rest jumped
  unfolding exec exec_stmt eval binary_value jumped
  enter rest = rw first

  pub emit_jalr-Follows :
      i.rs1 ≢ i.rd
      → Follows options start i.address
          (ok (jump_register c i.rd i.rs1 i.immediate))
          (exec handle handle_number start (emit_jalr options branch_targets leaders start t i).0 m)
          (emit_jalr options branch_targets leaders start t i).1
  unfolding emit_jalr jump_register jumped set_pc
  emit_jalr-Follows apart =
      let target = i.immediate +w c.reg i.rs1 in
      let rep : Represents options c jumped = record {
        regs = place.rep.regs;
        memory = place.rep.memory;
        unsupported = place.rep.unsupported;
      } in
      let p = link jumped rep in
      let there : (retire (jump_register c i.rd i.rs1 i.immediate)).pc ≡ p.machine.ctx.pc =
        jumped-pc apart ∙ sym p.pc in
      let guessing = options.software_branch_prediction in
      let destinations = get_indirect_branch_targets i.address branch_targets in
      elim (guess_then_leave-cases handle handle_number leaders start p.machine options
        branch_targets guessing destinations) [
          | inl leaves ↦
              jump-Reaches jumped _ _ _ _ p (dispatched start p.machine) _
                record { regs = p.rep.regs; memory = p.rep.memory; unsupported = p.rep.unsupported }
                (enter _
                  ∙ p.runs _
                  ∙ timer-runs handle handle_number leaders start p.machine _ _
                  ∙ leaves)
                (sym there, ap (λ x. (x -w start) / 4) (sym there))
          | inr hit ↦
              jump-Reaches jumped _ _ _ _ p p.machine _ p.rep
                (enter _
                  ∙ p.runs _
                  ∙ timer-runs handle handle_number leaders start p.machine _ _
                  ∙ hit)
                there
        ]
