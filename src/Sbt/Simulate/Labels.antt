-- ===== src/Sbt/Simulate/Labels.antt =====
-- The statements for an instruction hold no label but its own, so that a label leads to the
-- statements of the instruction at its address.
use Prim.Native.Nat.{ℕ, zero, suc}
use mathlib.Core.Path.{◌≡◌, refl, ◌∙◌}
use mathlib.Core.Logic.{inl, inr}
use mathlib.Core.Bool.{Bool, true, false, ◌&&◌, not}
use mathlib.Core.List.{List, [], ◌∷◌, ◌++◌, map, append_assoc}
use riscv_sbt.Base.{ltb, ◌==◌, Bool-cases, Option-cases, if◌then◌else◌}
use riscv_sbt.Base.Word.{is_negative}
use riscv_sbt.Decoder.Instructions.{EInstruction, Instruction}
use riscv_sbt.Sbt.Emit.Syntax.{
  BinOp, Expr, Access, Stmt, add_op, sub_op, xor_op, or_op, and_op, signed_byte, signed_half,
  whole_word, unsigned_byte, unsigned_half, copy_out, copy_in,
}
use riscv_sbt.Sbt.Emit.Emitter.{
  TranslationOptions, Tracked, contains, emit_register_store, emit_register_load, register_map,
  emit_to, emit_load_save_address, emit_op,
}
use riscv_sbt.Sbt.Emit.Instructions.{
  take_most_frequent, predictions, leave_block, emit_addi, emit_load, emit_store, emit_branch,
  emit_assign, emit_jal, emit_jalr, emit_ecall, emit_sc_w, emit_body, get_indirect_branch_targets,
}
use riscv_sbt.Sbt.Emit.Program.{after_label}
use riscv_sbt.Sbt.Simulate.Leave.{predictions-empty, predictions-some}

-- The search for a label goes past the statements.
pub record HasNoLabel (text : List Stmt) : Type 0 where
  pub past : (a : ℕ) (more : List Stmt) → after_label a (text ++ more) ≡ after_label a more

append-HasNoLabel : (xs ys : List Stmt) → HasNoLabel xs → HasNoLabel ys → HasNoLabel (xs ++ ys)
append-HasNoLabel xs ys h k = record {
  past = λ a more. rw append_assoc (h.past a (ys ++ more) ∙ k.past a more);
}

if-HasNoLabel :
    (b : Bool) (xs ys : List Stmt)
    → HasNoLabel xs
    → HasNoLabel ys
    → HasNoLabel (if b then xs else ys)
if-HasNoLabel true xs ys h k = h
if-HasNoLabel false xs ys h k = k

copy_out-HasNoLabel : (rs : List ℕ) → HasNoLabel (map copy_out rs)
unfolding after_label
copy_out-HasNoLabel [] = record { past = λ a more. refl }
copy_out-HasNoLabel (r ∷ rs) = record { past = (copy_out-HasNoLabel rs).past }

copy_in-HasNoLabel : (rs : List ℕ) → HasNoLabel (map copy_in rs)
unfolding after_label
copy_in-HasNoLabel [] = record { past = λ a more. refl }
copy_in-HasNoLabel (r ∷ rs) = record { past = (copy_in-HasNoLabel rs).past }

predictions-HasNoLabel :
    (n : ℕ) (leaders : List ℕ) (destinations : List (ℕ × ℕ))
    → HasNoLabel (predictions n leaders destinations)
unfolding after_label
predictions-HasNoLabel zero leaders destinations =
    unfold predictions in record { past = λ a more. refl }
predictions-HasNoLabel (suc n) leaders destinations =
    elim (Option-cases (take_most_frequent destinations)) [
      | inl empty ↦
          rw (predictions-empty leaders n destinations empty) record { past = λ a more. refl }
      | inr ((most, others), found) ↦
          rw (predictions-some leaders n destinations most others found) (
            append-HasNoLabel _ (predictions n leaders others)
              (if-HasNoLabel (contains most.0 leaders) _ [] record { past = λ a more. refl }
                record { past = λ a more. refl })
              (predictions-HasNoLabel n leaders others))
    ]

module _ (options : TranslationOptions) (branch_targets : List (ℕ × List (ℕ × ℕ)))
    (leaders : List ℕ) (start : ℕ) (t : Tracked) (i : Instruction) where
  -- a statement that is no label, if it is emitted at all
  emit_to-HasNoLabel :
      (rd : ℕ) (s : Stmt) (u : Tracked)
      → HasNoLabel (s ∷ [])
      → HasNoLabel (emit_to options rd s u).0
  unfolding emit_to
  emit_to-HasNoLabel rd s u h =
      if-HasNoLabel (ltb 0 rd) (s ∷ []) [] h record { past = λ a more. refl }

  store-HasNoLabel : HasNoLabel (emit_register_store options)
  unfolding emit_register_store
  store-HasNoLabel =
      if-HasNoLabel options.pin_registers _ [] (copy_out-HasNoLabel register_map)
        record { past = λ a more. refl }

  load-HasNoLabel : HasNoLabel (emit_register_load options)
  unfolding emit_register_load
  load-HasNoLabel =
      if-HasNoLabel options.pin_registers _ [] (copy_in-HasNoLabel register_map)
        record { past = λ a more. refl }

  address-HasNoLabel : HasNoLabel (emit_load_save_address options t i)
  unfolding emit_load_save_address after_label
  address-HasNoLabel =
      if-HasNoLabel (i.immediate == 0) _ _ record { past = λ a more. refl }
        record { past = λ a more. refl }

  leave_block-HasNoLabel : HasNoLabel (leave_block options branch_targets leaders start)
  unfolding leave_block after_label
  leave_block-HasNoLabel =
      if-HasNoLabel options.translation_chaining _ _ record { past = λ a more. refl }
        record { past = λ a more. refl }

  emit_op-HasNoLabel : (op : BinOp) (ordered : Bool) → HasNoLabel (emit_op options op ordered t i).0
  unfolding emit_op after_label
  emit_op-HasNoLabel op ordered = elim (Bool-cases (i.rd == i.rs1)) [
    | inl same ↦ rw same (emit_to-HasNoLabel i.rd _ t record { past = λ a more. refl })
    | inr apart ↦ elim (Bool-cases (i.rd == i.rs2 && not ordered)) [
      | inl swapped ↦
          rw (apart, swapped) (emit_to-HasNoLabel i.rd _ t record { past = λ a more. refl })
      | inr kept ↦ elim (Bool-cases (i.rd == i.rs2 && i.rs1 == 0)) [
        | inl negated ↦
            rw (apart, kept, negated) (emit_to-HasNoLabel i.rd _ t record { past = λ a more. refl })
        | inr general ↦
            rw (apart, kept, general) (emit_to-HasNoLabel i.rd _ t record { past = λ a more. refl })
      ]
    ]
  ]

  emit_addi-HasNoLabel : HasNoLabel (emit_addi options branch_targets leaders start t i).0
  unfolding emit_addi after_label
  emit_addi-HasNoLabel = elim (Bool-cases (i.immediate == 0)) [
    | inl copy ↦ rw copy (emit_to-HasNoLabel i.rd _ t record { past = λ a more. refl })
    | inr offset ↦ elim (Bool-cases (i.rs1 == 0)) [
      | inl number ↦
          rw (offset, number) (emit_to-HasNoLabel i.rd _ t record { past = λ a more. refl })
      | inr add ↦ elim (Bool-cases (is_negative i.immediate)) [
        | inl below ↦ elim (Bool-cases (i.rs1 == i.rd)) [
          | inl same ↦
              rw (offset, add, below, same)
                (emit_to-HasNoLabel i.rd _ t record { past = λ a more. refl })
          | inr other ↦
              rw (offset, add, below, other)
                (emit_to-HasNoLabel i.rd _ t record { past = λ a more. refl })
        ]
        | inr above ↦ elim (Bool-cases (i.rs1 == i.rd)) [
          | inl same ↦
              rw (offset, add, above, same)
                (emit_to-HasNoLabel i.rd _ t record { past = λ a more. refl })
          | inr other ↦
              rw (offset, add, above, other)
                (emit_to-HasNoLabel i.rd _ t record { past = λ a more. refl })
        ]
      ]
    ]
  ]

  emit_jalr-HasNoLabel : HasNoLabel (emit_jalr options branch_targets leaders start t i).0
  unfolding emit_jalr after_label
  emit_jalr-HasNoLabel =
      append-HasNoLabel (_ ∷ []) _ record { past = λ a more. refl }
        (append-HasNoLabel _ _ (emit_to-HasNoLabel i.rd _ t record { past = λ a more. refl }) (
          append-HasNoLabel _ _
            (if-HasNoLabel (options.profile_indirect && not options.translation_chaining) _ []
              record { past = λ a more. refl } record { past = λ a more. refl })
            (append-HasNoLabel _ _
              (if-HasNoLabel options.software_branch_prediction _ []
                (predictions-HasNoLabel 3 leaders
                  (get_indirect_branch_targets i.address branch_targets))
                record { past = λ a more. refl })
              leave_block-HasNoLabel)))

  emit_ecall-HasNoLabel : HasNoLabel (emit_ecall options branch_targets leaders start t).0
  unfolding emit_ecall after_label
  emit_ecall-HasNoLabel = append-HasNoLabel _ (_ ∷ emit_register_load options) store-HasNoLabel (
      append-HasNoLabel (_ ∷ []) (emit_register_load options) record { past = λ a more. refl }
        load-HasNoLabel)

  one : (s : Stmt) → HasNoLabel (s ∷ []) → HasNoLabel (emit_to options i.rd s t).0
  one s h = emit_to-HasNoLabel i.rd s t h

  assign-HasNoLabel :
      (e : Expr → Expr → Expr)
      → HasNoLabel (emit_assign options branch_targets leaders start e t i).0
  unfolding emit_assign after_label
  assign-HasNoLabel e = one _ record { past = λ a more. refl }

  read-HasNoLabel :
      (access : Access) → HasNoLabel (emit_load options branch_targets leaders start access t i).0
  unfolding emit_load after_label
  read-HasNoLabel access =
      append-HasNoLabel _ _ address-HasNoLabel (one _ record { past = λ a more. refl })

  write-HasNoLabel : (n : ℕ) → HasNoLabel (emit_store options branch_targets leaders start n t i).0
  unfolding emit_store after_label
  write-HasNoLabel n = append-HasNoLabel _ _ address-HasNoLabel record { past = λ a more. refl }

  branch-HasNoLabel :
      (test : Expr → Expr → Expr)
      → HasNoLabel (emit_branch options branch_targets leaders start test t i).0
  unfolding emit_branch after_label
  branch-HasNoLabel test = record { past = λ a more. refl }

  pub emit_body-HasNoLabel :
      (e : EInstruction) → HasNoLabel (emit_body options branch_targets leaders start e t i).0
  unfolding emit_body after_label
  emit_body-HasNoLabel EInstruction.add = emit_op-HasNoLabel add_op false
  emit_body-HasNoLabel EInstruction.sub = emit_op-HasNoLabel sub_op true
  emit_body-HasNoLabel EInstruction.xor = emit_op-HasNoLabel xor_op false
  emit_body-HasNoLabel EInstruction.or = emit_op-HasNoLabel or_op false
  emit_body-HasNoLabel EInstruction.and = emit_op-HasNoLabel and_op false
  emit_body-HasNoLabel EInstruction.sll = assign-HasNoLabel _
  emit_body-HasNoLabel EInstruction.srl = assign-HasNoLabel _
  emit_body-HasNoLabel EInstruction.sra = assign-HasNoLabel _
  emit_body-HasNoLabel EInstruction.slt = assign-HasNoLabel _
  emit_body-HasNoLabel EInstruction.sltu = assign-HasNoLabel _
  emit_body-HasNoLabel EInstruction.addi = emit_addi-HasNoLabel
  emit_body-HasNoLabel EInstruction.xori = assign-HasNoLabel _
  emit_body-HasNoLabel EInstruction.ori = assign-HasNoLabel _
  emit_body-HasNoLabel EInstruction.andi = assign-HasNoLabel _
  emit_body-HasNoLabel EInstruction.slli = assign-HasNoLabel _
  emit_body-HasNoLabel EInstruction.srli = assign-HasNoLabel _
  emit_body-HasNoLabel EInstruction.srai = assign-HasNoLabel _
  emit_body-HasNoLabel EInstruction.slti = assign-HasNoLabel _
  emit_body-HasNoLabel EInstruction.sltiu = assign-HasNoLabel _
  emit_body-HasNoLabel EInstruction.lb = read-HasNoLabel signed_byte
  emit_body-HasNoLabel EInstruction.lh = read-HasNoLabel signed_half
  emit_body-HasNoLabel EInstruction.lw = read-HasNoLabel whole_word
  emit_body-HasNoLabel EInstruction.lbu = read-HasNoLabel unsigned_byte
  emit_body-HasNoLabel EInstruction.lhu = read-HasNoLabel unsigned_half
  emit_body-HasNoLabel EInstruction.sb = write-HasNoLabel 1
  emit_body-HasNoLabel EInstruction.sh = write-HasNoLabel 2
  emit_body-HasNoLabel EInstruction.sw = write-HasNoLabel 4
  emit_body-HasNoLabel EInstruction.beq = branch-HasNoLabel _
  emit_body-HasNoLabel EInstruction.bne = branch-HasNoLabel _
  emit_body-HasNoLabel EInstruction.blt = branch-HasNoLabel _
  emit_body-HasNoLabel EInstruction.bge = branch-HasNoLabel _
  emit_body-HasNoLabel EInstruction.bltu = branch-HasNoLabel _
  emit_body-HasNoLabel EInstruction.bgeu = branch-HasNoLabel _
  emit_body-HasNoLabel EInstruction.jal =
      unfold emit_jal in
      append-HasNoLabel _ _ (one _ record { past = λ a more. refl })
        record { past = λ a more. refl }
  emit_body-HasNoLabel EInstruction.jalr = emit_jalr-HasNoLabel
  emit_body-HasNoLabel EInstruction.lui = assign-HasNoLabel _
  emit_body-HasNoLabel EInstruction.auipc = assign-HasNoLabel _
  emit_body-HasNoLabel EInstruction.ecall = emit_ecall-HasNoLabel
  emit_body-HasNoLabel EInstruction.ebreak = record { past = λ a more. refl }
  emit_body-HasNoLabel EInstruction.fence = record { past = λ a more. refl }
  emit_body-HasNoLabel EInstruction.mul = assign-HasNoLabel _
  emit_body-HasNoLabel EInstruction.mulh = assign-HasNoLabel _
  emit_body-HasNoLabel EInstruction.mulhsu = assign-HasNoLabel _
  emit_body-HasNoLabel EInstruction.mulhu = assign-HasNoLabel _
  emit_body-HasNoLabel EInstruction.div = assign-HasNoLabel _
  emit_body-HasNoLabel EInstruction.divu = assign-HasNoLabel _
  emit_body-HasNoLabel EInstruction.rem = assign-HasNoLabel _
  emit_body-HasNoLabel EInstruction.remu = assign-HasNoLabel _
  emit_body-HasNoLabel EInstruction.lr_w = one _ record { past = λ a more. refl }
  emit_body-HasNoLabel EInstruction.sc_w =
      unfold emit_sc_w in
      append-HasNoLabel (_ ∷ []) _ record { past = λ a more. refl }
        (one _ record { past = λ a more. refl })
  emit_body-HasNoLabel EInstruction.invalid =
      append-HasNoLabel _ (_ ∷ emit_register_load options) store-HasNoLabel (
        append-HasNoLabel (_ ∷ []) (emit_register_load options) record { past = λ a more. refl }
          load-HasNoLabel)
