-- ===== src/Sbt/Simulate/Alu.antt =====
-- `emitOp`, ADDI and the shifts by an immediate.
use Prim.Native.Nat.{ℕ, ◌^◌, ◌<◌}
use mathlib.Core.Path.{◌≡◌, sym, ap, subst}
use mathlib.Core.Logic.{inl, inr}
use mathlib.Core.List.{List}
use mathlib.Core.Bool.{Bool, true, false, ◌&&◌, not}
use native.Mathlib.Omega.{arith}
use riscv_sbt.Base.{◌==◌, ==→eq, Bool-cases}
use riscv_sbt.Base.Word.{IsU32, ◌+w◌, ◌-w◌, neg32, is_negative}
use riscv_sbt.Base.Outcome.{Outcome, ok}
use riscv_sbt.Runtime.Context.{Context, set_reg, set_pc}
use riscv_sbt.Interpreter.Arms.{retire}
use riscv_sbt.Decoder.Instructions.{Instruction}
use riscv_sbt.Sbt.Emit.Syntax.{BinOp, sub_op, constant, assign}
use riscv_sbt.Sbt.Emit.Emitter.{
  TranslationOptions, Tracked, track, forget, target_operand, source_operand, emit_to, emit_op,
}
use riscv_sbt.Sbt.Emit.Instructions.{emit_addi}
use riscv_sbt.Sbt.Emit.Machine.{
  Machine, Next, onward, assign_to, eval, binary_value, unary_value, operand_value, exec_stmt, exec,
}
use riscv_sbt.Sbt.Simulate.Represents.{IsTracked, settle, track-IsTracked}
use riscv_sbt.Sbt.Simulate.Assign.{IsAt, Reaches, Follows, source1, source2, target, puts-Follows}

neg32-sub : (b : ℕ) → b < 2 ^ 32 → neg32 b ≡ 0 -w b
unfolding neg32 ◌-w◌
neg32-sub b h = omega arith

sub-neg32 : (a b : ℕ) → b < 2 ^ 32 → a -w neg32 b ≡ a +w b
unfolding neg32 ◌-w◌ ◌+w◌
sub-neg32 a b h = omega arith

pub add-zero : (a b : ℕ) → a < 2 ^ 32 → b ≡ 0 → a ≡ a +w b
unfolding ◌+w◌
add-zero a b h e = omega arith

zero-add : (a b : ℕ) → b < 2 ^ 32 → a ≡ 0 → b ≡ a +w b
unfolding ◌+w◌
zero-add a b h e = omega arith

module _ (handle : Context → Outcome Context) (handle_number : ℕ → Context → Outcome Context)
    (branch_targets : List (ℕ × List (ℕ × ℕ))) (leaders : List ℕ) (start : ℕ)
    (options : TranslationOptions) (t : Tracked) (c : Context) (m : Machine) (i : Instruction)
    (place : IsAt options t c m) (here : c.pc ≡ i.address) where
  first : operand_value (source_operand options t i.rs1) m ≡ c.reg i.rs1
  first = source1 handle handle_number branch_targets leaders start options t c m i place here

  second : operand_value (source_operand options t i.rs2) m ≡ c.reg i.rs2
  second = source2 handle handle_number branch_targets leaders start options t c m i place here

  own : operand_value (target_operand options i.rd) m ≡ c.reg i.rd
  own = target handle handle_number branch_targets leaders start options t c m i place here

  track-Reaches :
      (v w : ℕ) (o : Outcome (Machine × Next)) (u : Tracked)
      → w ≡ v
      → Reaches options start i.address (retire (set_reg c i.rd v)) u o
      → Reaches options start i.address (retire (set_reg c i.rd v)) (track i.rd w (forget i.rd t)) o
  unfolding retire set_reg set_pc
  track-Reaches v w o u same r = record {
    machine = r.machine;
    next = r.next;
    runs = r.runs;
    rep = r.rep;
    tracked =
        subst (λ x. IsTracked (track i.rd x (forget i.rd t)) (settle (set_reg c i.rd v))) (sym same)
          (track-IsTracked t c i.rd v place.tracked);
    arrives = r.arrives;
  }

  pub emit_op-Follows :
      (op : BinOp) (ordered : Bool)
      → (ordered ≡ false → (a b : ℕ) → binary_value op a b ≡ binary_value op b a)
      → (ordered ≡ true → op ≡ sub_op)
      → Follows options start i.address
          (ok (set_reg c i.rd (binary_value op (c.reg i.rs1) (c.reg i.rs2))))
          (exec handle handle_number start (emit_op options op ordered t i).0 m)
          (emit_op options op ordered t i).1
  unfolding emit_op exec_stmt eval
  emit_op-Follows op ordered comm minus =
      let puts =
        puts-Follows handle handle_number branch_targets leaders start options t c m i place here
          (binary_value op (c.reg i.rs1) (c.reg i.rs2)) in
      elim (Bool-cases (i.rd == i.rs1)) [
        | inl same ↦ rw same (puts _ (rw (own, second, ==→eq i.rd i.rs1 same)))
        | inr apart ↦ elim (Bool-cases (i.rd == i.rs2 && not ordered)) [
          | inl swapped ↦
              rw (apart, swapped)
                (let e : i.rd ≡ i.rs2 = ground (arith, swapped) in
                  let free : ordered ≡ false = ground (arith, swapped) in
                  puts _ (rw (own, first, e, comm free (c.reg i.rs2) (c.reg i.rs1))))
          | inr kept ↦ elim (Bool-cases (i.rd == i.rs2 && i.rs1 == 0)) [
            | inl negated ↦
                let bound : ordered ≡ true = ground (arith, kept, negated) in
                let nothing : c.reg i.rs1 ≡ 0 =
                  subst (λ r. c.reg r ≡ 0) {x = 0} (ground (arith, negated)) place.zeroed in
                rw (apart, kept, negated)
                  (puts _ (
                    rw (second, minus bound, nothing)
                      (unfold unary_value binary_value in
                        rw (neg32-sub (c.reg i.rs2) (place.words.regs i.rs2)))))
            | inr general ↦ rw (apart, kept, general) (puts _ (rw (first, second)))
          ]
        ]
      ]

  pub emit_addi-Follows :
      IsU32 i.immediate
      → Follows options start i.address
          (ok (set_reg c i.rd (c.reg i.rs1 +w i.immediate)))
          (exec handle handle_number start (emit_addi options branch_targets leaders start t i).0 m)
          (emit_addi options branch_targets leaders start t i).1
  unfolding emit_addi exec_stmt eval binary_value emit_to forget
  emit_addi-Follows word =
      let sum = c.reg i.rs1 +w i.immediate in
      let puts =
        puts-Follows handle handle_number branch_targets leaders start options t c m i place here
          sum in
      elim (Bool-cases (i.immediate == 0)) [
        | inl copy ↦ rw copy (
            puts _ (
              rw (
                first,
                ← add-zero (c.reg i.rs1) i.immediate (place.words.regs i.rs1)
                    (ground (arith, copy)),
              )))
        | inr offset ↦ elim (Bool-cases (i.rs1 == 0)) [
          | inl number ↦
              let nothing : c.reg i.rs1 ≡ 0 =
                subst (λ r. c.reg r ≡ 0) {x = 0} (ground (arith, number)) place.zeroed in
              let same : i.immediate ≡ sum = zero-add (c.reg i.rs1) i.immediate word nothing in
              rw (offset, number)
                (track-Reaches sum i.immediate _ _ same (
                  puts (assign (target_operand options i.rd) (constant i.immediate))
                    (ap (λ x. ok (assign_to (target_operand options i.rd) x m, onward)) same)))
          | inr add ↦ elim (Bool-cases (is_negative i.immediate)) [
            | inl below ↦ elim (Bool-cases (i.rs1 == i.rd)) [
              | inl same ↦
                  rw (offset, add, below, same)
                    (puts _
                      (rw (own, sub-neg32 (c.reg i.rd) i.immediate word, ==→eq i.rs1 i.rd same)))
              | inr other ↦
                  rw (offset, add, below, other)
                    (puts _ (rw (first, sub-neg32 (c.reg i.rs1) i.immediate word)))
            ]
            | inr above ↦ elim (Bool-cases (i.rs1 == i.rd)) [
              | inl same ↦ rw (offset, add, above, same) (puts _ (rw (own, ==→eq i.rs1 i.rd same)))
              | inr other ↦ rw (offset, add, above, other) (puts _ (rw first))
            ]
          ]
        ]
      ]
