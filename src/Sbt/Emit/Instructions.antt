-- ===== src/Sbt/Emit/Instructions.antt =====
-- sbt/codegen/InstructionEmitter.cpp: the statements for one instruction.
use Prim.Native.Nat.{ℕ, zero, suc}
use mathlib.Core.Bool.{true, false, ◌&&◌, not}
use mathlib.Core.List.{List, [], ◌∷◌, ◌++◌}
use mathlib.Core.Option.{Option, none, some}
use riscv_sbt.Base.{leb, ◌==◌, if◌then◌else◌}
use riscv_sbt.Base.Word.{◌+w◌, shl32, neg32, is_negative}
use riscv_sbt.Decoder.Instructions.{EInstruction, Instruction}
use riscv_sbt.Sbt.Emit.Syntax.{
  Expr, Stmt, Access, add_op, sub_op, xor_op, or_op, and_op, value, constant, hex, signed_hex,
  address_variable, binary, masked, shift_left, shift_right, shift_right_signed, equal, differs,
  less, less_signed, at_least, at_least_signed, both, product, product_high, product_high_mixed,
  product_high_unsigned, quotient_signed, quotient, remainder_signed, remainder, if_else,
  signed_byte, signed_half, whole_word, unsigned_byte, unsigned_half, label_at, assign, op_assign,
  read_assign, write_memory, goto_if, goto, goto_if_pc, set_pc_to, start_timer, goto_dispatch,
  continue_loop, set_index, call_handle, print_message,
}
use riscv_sbt.Sbt.Emit.Emitter.{
  TranslationOptions, Tracked, contains, track, forget, reset_tracked, emit_register_store,
  emit_register_load, target_operand, source_operand, emit_to, emit_load_save_address, emit_op,
}

-- `std::max_element` by count, the first of the largest, and `erase` of it
unfoldable pub take_most_frequent : List (ℕ × ℕ) → Option ((ℕ × ℕ) × List (ℕ × ℕ))
take_most_frequent [] = none
take_most_frequent (d ∷ rest) = elim (take_most_frequent rest) [
  | none ↦ some (d, [])
  | some (most, others) ↦ if leb most.1 d.1 then some (d, rest) else some (most, d ∷ others)
]

-- the loop over the most frequent targets, with `count` rounds left
unfoldable pub predictions : ℕ → List ℕ → List (ℕ × ℕ) → List Stmt
unfolding take_most_frequent contains
predictions zero leaders destinations = []
predictions (suc count) leaders destinations = elim (take_most_frequent destinations) [
  | none ↦ []
  | some (most, others) ↦
      (if contains most.0 leaders then goto_if_pc most.0 ∷ [] else [])
      ++ predictions count leaders others
]

-- the branch targets that the profile has for an address
unfoldable pub get_indirect_branch_targets : ℕ → List (ℕ × List (ℕ × ℕ)) → List (ℕ × ℕ)
get_indirect_branch_targets address [] = []
get_indirect_branch_targets address ((branch_address, targets) ∷ rest) =
    let later = get_indirect_branch_targets address rest in
    if branch_address == address then targets else later

-- the number of the register a7
abbrev pub a7_index : ℕ
a7_index = 17

-- the expressions of the M extension's divisions
abbrev pub div_expr : Expr → Expr → Expr
div_expr a b = if_else (equal b (constant 0)) (constant 0xffff_ffff) (
    if_else (both (equal a (constant 0x8000_0000)) (equal b (constant 0xffff_ffff)))
      (constant 0x8000_0000) (quotient_signed a b))

abbrev pub rem_expr : Expr → Expr → Expr
rem_expr a b = if_else (equal b (constant 0)) a (
    if_else (both (equal a (constant 0x8000_0000)) (equal b (constant 0xffff_ffff)))
      (constant 0x8000_0000) (remainder_signed a b))

abbrev pub divu_expr : Expr → Expr → Expr
divu_expr a b = if_else (equal b (constant 0)) (constant 0xffff_ffff) (quotient a b)

abbrev pub remu_expr : Expr → Expr → Expr
remu_expr a b = if_else (equal b (constant 0)) a (remainder a b)

module _ (options : TranslationOptions) (branch_targets : List (ℕ × List (ℕ × ℕ)))
    (leaders : List ℕ) (text_start : ℕ) where
  -- `case ADDI`
  unfoldable pub emit_addi : Tracked → Instruction → List Stmt × Tracked
  unfolding track
  emit_addi t i =
      let rd = target_operand options i.rd in
      let a = value (source_operand options t i.rs1) in
      if i.immediate == 0
      then emit_to options i.rd (assign rd a) t
      else if i.rs1 == 0
      then (let (text, after) = emit_to options i.rd (assign rd (constant i.immediate)) t in
          (text, track i.rd i.immediate after))
      else if is_negative i.immediate
      then (if i.rs1 == i.rd
          then emit_to options i.rd (op_assign rd sub_op (constant (neg32 i.immediate))) t
          else emit_to options i.rd (assign rd (binary sub_op a (constant (neg32 i.immediate)))) t)
      else if i.rs1 == i.rd
      then emit_to options i.rd (op_assign rd add_op (constant i.immediate)) t
      else emit_to options i.rd (assign rd (binary add_op a (constant i.immediate))) t

  -- a load: the address, then the read
  unfoldable pub emit_load : Access → Tracked → Instruction → List Stmt × Tracked
  emit_load access t i =
      let (text, after) =
        emit_to options i.rd (read_assign (target_operand options i.rd) access address_variable)
          t in
      (emit_load_save_address options t i ++ text, after)

  -- a store of `n` bytes
  unfoldable pub emit_store : ℕ → Tracked → Instruction → List Stmt × Tracked
  emit_store n t i = (
    emit_load_save_address options t i
        ++ (write_memory n address_variable (value (source_operand options t i.rs2)) ∷ []),
    t,
  )

  -- a conditional branch
  unfoldable pub emit_branch : (Expr → Expr → Expr) → Tracked → Instruction → List Stmt × Tracked
  emit_branch test t i = (
    goto_if (test (value (source_operand options t i.rs1)) (value (source_operand options t i.rs2)))
          (i.address +w i.immediate)
        ∷ [],
    t,
  )

  -- an assignment of an expression in the two sources
  unfoldable pub emit_assign : (Expr → Expr → Expr) → Tracked → Instruction → List Stmt × Tracked
  emit_assign e t i =
      emit_to options i.rd
        (assign (target_operand options i.rd)
          (e (value (source_operand options t i.rs1)) (value (source_operand options t i.rs2))))
        t

  -- the end of `case JALR`
  unfoldable pub leave_block : List Stmt
  leave_block =
      if options.translation_chaining
      then set_index text_start ∷ goto_dispatch ∷ []
      else continue_loop ∷ []

  -- `case JALR`
  unfoldable pub emit_jalr : Tracked → Instruction → List Stmt × Tracked
  unfolding predictions get_indirect_branch_targets leave_block
  emit_jalr t i =
      let target = binary add_op (constant i.immediate) (value (source_operand options t i.rs1)) in
      let (link, after) =
        emit_to options i.rd (assign (target_operand options i.rd) (hex (i.address +w 4))) t in
      (
        set_pc_to target
            ∷ (link
                ++ ((if options.profile_indirect && not options.translation_chaining
                      then start_timer ∷ []
                      else [])
                    ++ ((if options.software_branch_prediction
                          then predictions 3 leaders
                              (get_indirect_branch_targets i.address branch_targets)
                          else [])
                        ++ leave_block))),
        after,
      )

  -- `case JAL`
  unfoldable pub emit_jal : Tracked → Instruction → List Stmt × Tracked
  emit_jal t i =
      let (link, after) =
        emit_to options i.rd (assign (target_operand options i.rd) (hex (i.address +w 4))) t in
      (link ++ (goto (i.address +w i.immediate) ∷ []), after)

  -- `case ECALL`
  unfoldable pub emit_ecall : Tracked → List Stmt × Tracked
  unfolding emit_register_store emit_register_load forget
  emit_ecall t =
      let number = if t.known a7_index then some (t.values a7_index) else none in
      (
        emit_register_store options ++ (call_handle number ∷ emit_register_load options),
        forget 10 t,
      )

  -- `case SC_W`
  unfoldable pub emit_sc_w : Tracked → Instruction → List Stmt × Tracked
  emit_sc_w t i =
      let (done, after) =
        emit_to options i.rd (assign (target_operand options i.rd) (constant 0)) t in
      (
        write_memory 4 (value (source_operand options t i.rs1))
              (value (source_operand options t i.rs2))
            ∷ done,
        after,
      )

  -- the `switch` on the type
  unfoldable pub emit_body : EInstruction → Tracked → Instruction → List Stmt × Tracked
  emit_body EInstruction.add t i = emit_op options add_op false t i
  emit_body EInstruction.sub t i = emit_op options sub_op true t i
  emit_body EInstruction.xor t i = emit_op options xor_op false t i
  emit_body EInstruction.or t i = emit_op options or_op false t i
  emit_body EInstruction.and t i = emit_op options and_op false t i
  emit_body EInstruction.sll t i = emit_assign (λ a b. shift_left a (masked b)) t i
  emit_body EInstruction.srl t i = emit_assign (λ a b. shift_right a (masked b)) t i
  emit_body EInstruction.sra t i = emit_assign (λ a b. shift_right_signed a (masked b)) t i
  emit_body EInstruction.slt t i = emit_assign less_signed t i
  emit_body EInstruction.sltu t i = emit_assign less t i
  emit_body EInstruction.addi t i = emit_addi t i
  emit_body EInstruction.xori t i = emit_assign (λ a b. binary xor_op a (constant i.immediate)) t i
  emit_body EInstruction.ori t i = emit_assign (λ a b. binary or_op a (constant i.immediate)) t i
  emit_body EInstruction.andi t i = emit_assign (λ a b. binary and_op a (constant i.immediate)) t i
  emit_body EInstruction.slli t i = emit_assign (λ a b. shift_left a (constant i.rs2)) t i
  emit_body EInstruction.srli t i = emit_assign (λ a b. shift_right a (constant i.rs2)) t i
  emit_body EInstruction.srai t i = emit_assign (λ a b. shift_right_signed a (constant i.rs2)) t i
  emit_body EInstruction.slti t i = emit_assign (λ a b. less_signed a (constant i.immediate)) t i
  emit_body EInstruction.sltiu t i = emit_assign (λ a b. less a (constant i.immediate)) t i
  emit_body EInstruction.lb t i = emit_load signed_byte t i
  emit_body EInstruction.lh t i = emit_load signed_half t i
  emit_body EInstruction.lw t i = emit_load whole_word t i
  emit_body EInstruction.lbu t i = emit_load unsigned_byte t i
  emit_body EInstruction.lhu t i = emit_load unsigned_half t i
  emit_body EInstruction.sb t i = emit_store 1 t i
  emit_body EInstruction.sh t i = emit_store 2 t i
  emit_body EInstruction.sw t i = emit_store 4 t i
  emit_body EInstruction.beq t i = emit_branch equal t i
  emit_body EInstruction.bne t i = emit_branch differs t i
  emit_body EInstruction.blt t i = emit_branch less_signed t i
  emit_body EInstruction.bge t i = emit_branch at_least_signed t i
  emit_body EInstruction.bltu t i = emit_branch less t i
  emit_body EInstruction.bgeu t i = emit_branch at_least t i
  emit_body EInstruction.jal t i = emit_jal t i
  emit_body EInstruction.jalr t i = emit_jalr t i
  emit_body EInstruction.lui t i = emit_assign (λ a b. constant (shl32 i.immediate 12)) t i
  emit_body EInstruction.auipc t i =
      emit_assign (λ a b. binary add_op (hex i.address) (signed_hex (shl32 i.immediate 12))) t i
  emit_body EInstruction.ecall t i = emit_ecall t
  emit_body EInstruction.ebreak t i = ([], t)
  emit_body EInstruction.fence t i = ([], t)
  emit_body EInstruction.mul t i = emit_assign product t i
  emit_body EInstruction.mulh t i = emit_assign product_high t i
  emit_body EInstruction.mulhsu t i = emit_assign product_high_mixed t i
  emit_body EInstruction.mulhu t i = emit_assign product_high_unsigned t i
  emit_body EInstruction.div t i = emit_assign div_expr t i
  emit_body EInstruction.divu t i = emit_assign divu_expr t i
  emit_body EInstruction.rem t i = emit_assign rem_expr t i
  emit_body EInstruction.remu t i = emit_assign remu_expr t i
  emit_body EInstruction.lr_w t i =
      emit_to options i.rd
        (read_assign (target_operand options i.rd) whole_word
          (value (source_operand options t i.rs1)))
        t
  emit_body EInstruction.sc_w t i = emit_sc_w t i
  emit_body EInstruction.invalid t i =
      (emit_register_store options ++ (print_message i.address ∷ emit_register_load options), t)

  unfoldable pub emit_instruction : Tracked → Instruction → List Stmt × Tracked
  unfolding contains reset_tracked emit_body
  emit_instruction t i =
      if contains i.address leaders
      then (let (body, after) = emit_body i.type (reset_tracked t) i in
          (label_at i.address ∷ body, after))
      else emit_body i.type t i
