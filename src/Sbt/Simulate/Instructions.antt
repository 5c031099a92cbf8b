-- ===== src/Sbt/Simulate/Instructions.antt =====
-- What is emitted for an instruction of any type.
use Prim.Native.Nat.{ℕ, bit_and}
use mathlib.Core.Path.{◌≡◌, refl, subst}
use mathlib.Core.Logic.{◌≢◌, inl, inr}
use mathlib.Core.Bool.{Bool, true, false, ◌&&◌, not}
use mathlib.Core.List.{List}
use native.Mathlib.Omega.{arith}
use riscv_sbt.Base.{ltb, leb, ◌==◌, Bool-cases, if◌then◌else◌}
use riscv_sbt.Base.Bits.{and_low}
use riscv_sbt.Base.Bits.Symmetry.{and_comm, or_comm, xor_comm}
use riscv_sbt.Base.Word.{IsU32, u8, ◌+w◌, shl32, slt32, of_bool, is_negative}
use riscv_sbt.Base.Outcome.{Outcome, ok, ◌>>=◌, bind_assoc}
use riscv_sbt.Runtime.Context.{Context, set_reg, load}
use riscv_sbt.Interpreter.Arms.{branch, div_word, divu_word, rem_word, remu_word, load_into}
use riscv_sbt.Interpreter.Predecoded.{execute}
use riscv_sbt.Decoder.Instructions.{EInstruction, Instruction}
use riscv_sbt.Sbt.Emit.Syntax.{
  BinOp, Expr, Stmt, Access, add_op, sub_op, xor_op, or_op, and_op, value, constant, hex,
  signed_hex, binary, masked, shift_left, shift_right, shift_right_signed, equal, differs, less,
  less_signed, at_least, at_least_signed, product, product_high, product_high_mixed,
  product_high_unsigned, signed_byte, signed_half, whole_word, unsigned_byte, unsigned_half,
}
use riscv_sbt.Sbt.Emit.Emitter.{
  TranslationOptions, Tracked, contains, reset_tracked, source_operand, emit_op,
}
use riscv_sbt.Sbt.Emit.Instructions.{
  div_expr, divu_expr, rem_expr, remu_expr, emit_assign, emit_branch, emit_load, emit_body,
  emit_instruction,
}
use riscv_sbt.Sbt.Emit.Machine.{
  Machine, eval, binary_value, operand_value, read_access, exec, exec_stmt,
}
use riscv_sbt.Sbt.Simulate.Represents.{reset_tracked-IsTracked}
use riscv_sbt.Sbt.Simulate.Assign.{IsAt, Follows, source1, source2, emit_assign-Follows}
use riscv_sbt.Sbt.Simulate.Alu.{emit_op-Follows, emit_addi-Follows}
use riscv_sbt.Sbt.Simulate.Accesses.{
  emit_load-Follows, read-Follows, emit_store-Follows, emit_sc_w-Follows,
}
use riscv_sbt.Sbt.Simulate.Control.{emit_branch-Follows, emit_jal-Follows, emit_jalr-Follows}
use riscv_sbt.Sbt.Simulate.System.{IsHandler, emit_ecall-Follows, emit_invalid-Follows}

-- Where the interpreter and the emitted code may differ, this is false: a JALR whose source is its
-- target, the remainder that overflows, an AUIPC whose literal has a sign, and the two instructions
-- for which nothing is emitted.
abbrev pub IsTranslated : EInstruction → Context → Instruction → Type 0
IsTranslated EInstruction.slli c i = i.rs2 ≡ u8 (bit_and i.immediate 0x1f)
IsTranslated EInstruction.srli c i = i.rs2 ≡ u8 (bit_and i.immediate 0x1f)
IsTranslated EInstruction.srai c i = i.rs2 ≡ u8 (bit_and i.immediate 0x1f)
IsTranslated EInstruction.jalr c i = i.rs1 ≢ i.rd
IsTranslated EInstruction.auipc c i = is_negative (shl32 i.immediate 12) ≡ false
IsTranslated EInstruction.rem c i =
    (c.reg i.rs1 == 0x8000_0000 && c.reg i.rs2 == 0xffff_ffff) ≡ false
IsTranslated EInstruction.ebreak c i = ⊥
IsTranslated EInstruction.fence c i = ⊥
IsTranslated _ c i = Unit

+w-comm : (a b : ℕ) → a +w b ≡ b +w a
unfolding ◌+w◌
+w-comm a b = omega arith

-- an `if` of the emitted code on a test, and on two
if-test : (p : Bool) (x y : ℕ) → (if of_bool p == 0 then y else x) ≡ (if p then x else y)
if-test true x y = refl
if-test false x y = refl

if-both :
    (p q : Bool) (x y : ℕ)
    → (if bit_and (of_bool p) (of_bool q) == 0 then y else x) ≡ (if p && q then x else y)
if-both true true x y = refl
if-both true false x y = refl
if-both false true x y = refl
if-both false false x y = refl

masked_amount : (b : ℕ) → u8 (bit_and b 0x1f) ≡ bit_and b 0x1f
masked_amount b = ground (arith, and_low 5 b)

module _ (handle : Context → Outcome Context) (handle_number : ℕ → Context → Outcome Context)
    (laws : IsHandler handle handle_number) (branch_targets : List (ℕ × List (ℕ × ℕ)))
    (leaders : List ℕ) (start : ℕ) (options : TranslationOptions) (t : Tracked) (c : Context)
    (m : Machine) (i : Instruction) (place : IsAt options t c m) (here : c.pc ≡ i.address)
    (word : IsU32 i.immediate) where
  first : operand_value (source_operand options t i.rs1) m ≡ c.reg i.rs1
  first = source1 handle handle_number branch_targets leaders start options t c m i place here

  second : operand_value (source_operand options t i.rs2) m ≡ c.reg i.rs2
  second = source2 handle handle_number branch_targets leaders start options t c m i place here

  -- what the instruction is to do, where its type is `e`
  abbrev BodyFollows : EInstruction → Type 0
  BodyFollows e =
      Follows options start i.address (execute e handle i c)
        (exec handle handle_number start (emit_body options branch_targets leaders start e t i).0 m)
        (emit_body options branch_targets leaders start e t i).1

  -- the statements `e` after the emitter's state `t`
  abbrev Runs : Outcome Context → List Stmt × Tracked → Type 0
  Runs o (text, after) =
      Follows options start i.address o (exec handle handle_number start text m) after

  assigned :
      (e : Expr → Expr → Expr) (v : ℕ)
      → eval m (e (value (source_operand options t i.rs1)) (value (source_operand options t i.rs2)))
        ≡ v
      → Runs (ok (set_reg c i.rd v)) (emit_assign options branch_targets leaders start e t i)
  assigned =
      emit_assign-Follows handle handle_number branch_targets leaders start options t c m i place
        here

  branched :
      (test : Expr → Expr → Expr) (taken : Bool)
      → eval m
          (test (value (source_operand options t i.rs1)) (value (source_operand options t i.rs2)))
        ≡ of_bool taken
      → Runs
          (ok (branch c taken i.immediate))
          (emit_branch options branch_targets leaders start test t i)
  branched =
      emit_branch-Follows handle handle_number branch_targets leaders start options t c m i place
        here

  operated :
      (op : BinOp)
      → ((a b : ℕ) → binary_value op a b ≡ binary_value op b a)
      → Runs
          (ok (set_reg c i.rd (binary_value op (c.reg i.rs1) (c.reg i.rs2))))
          (emit_op options op false t i)
  operated op comm =
      emit_op-Follows handle handle_number branch_targets leaders start options t c m i place here
        op false (λ free. comm) (λ absurd. ground arith)

  loaded :
      (access : Access) {o : Outcome Context}
      → (read_access access c (c.reg i.rs1 +w i.immediate) >>= λ v. ok (set_reg c i.rd v)) ≡ o
      → Runs o (emit_load options branch_targets leaders start access t i)
  loaded access same =
      subst (λ o. Runs o (emit_load options branch_targets leaders start access t i)) same
        (emit_load-Follows handle handle_number branch_targets leaders start options t c m i place
          here access)

  emit_body-Follows : (e : EInstruction) → IsTranslated e c i → BodyFollows e
  unfolding emit_body execute eval binary_value load_into read_access
  emit_body-Follows EInstruction.add _ = operated add_op +w-comm
  emit_body-Follows EInstruction.sub _ =
      emit_op-Follows handle handle_number branch_targets leaders start options t c m i place here
        sub_op true (λ free. ground arith) (λ bound. refl)
  emit_body-Follows EInstruction.xor _ = operated xor_op xor_comm
  emit_body-Follows EInstruction.or _ = operated or_op or_comm
  emit_body-Follows EInstruction.and _ = operated and_op and_comm
  emit_body-Follows EInstruction.sll _ =
      assigned (λ a b. shift_left a (masked b)) _ (rw (first, second))
  emit_body-Follows EInstruction.srl _ =
      assigned (λ a b. shift_right a (masked b)) _ (rw (first, second))
  emit_body-Follows EInstruction.sra _ =
      assigned (λ a b. shift_right_signed a (masked b)) _
        (rw (first, second, masked_amount (c.reg i.rs2)))
  emit_body-Follows EInstruction.slt _ = assigned less_signed _ (rw (first, second))
  emit_body-Follows EInstruction.sltu _ = assigned less _ (rw (first, second))
  emit_body-Follows EInstruction.addi _ =
      emit_addi-Follows handle handle_number branch_targets leaders start options t c m i place here
        word
  emit_body-Follows EInstruction.xori _ =
      assigned (λ a b. binary xor_op a (constant i.immediate)) _ (rw first)
  emit_body-Follows EInstruction.ori _ =
      assigned (λ a b. binary or_op a (constant i.immediate)) _ (rw first)
  emit_body-Follows EInstruction.andi _ =
      assigned (λ a b. binary and_op a (constant i.immediate)) _ (rw first)
  emit_body-Follows EInstruction.slli amount =
      assigned (λ a b. shift_left a (constant i.rs2)) _ (rw (first, amount))
  emit_body-Follows EInstruction.srli amount =
      assigned (λ a b. shift_right a (constant i.rs2)) _ (rw (first, amount))
  emit_body-Follows EInstruction.srai amount =
      assigned (λ a b. shift_right_signed a (constant i.rs2)) _ (rw (first, amount))
  emit_body-Follows EInstruction.slti _ =
      assigned (λ a b. less_signed a (constant i.immediate)) _ (rw first)
  emit_body-Follows EInstruction.sltiu _ =
      assigned (λ a b. less a (constant i.immediate)) _ (rw first)
  emit_body-Follows EInstruction.lb _ = loaded signed_byte (bind_assoc (load 1 c _) _ _)
  emit_body-Follows EInstruction.lh _ = loaded signed_half (bind_assoc (load 2 c _) _ _)
  emit_body-Follows EInstruction.lw _ = loaded whole_word refl
  emit_body-Follows EInstruction.lbu _ = loaded unsigned_byte refl
  emit_body-Follows EInstruction.lhu _ = loaded unsigned_half refl
  emit_body-Follows EInstruction.sb _ =
      emit_store-Follows handle handle_number branch_targets leaders start options t c m i place
        here 1
  emit_body-Follows EInstruction.sh _ =
      emit_store-Follows handle handle_number branch_targets leaders start options t c m i place
        here 2
  emit_body-Follows EInstruction.sw _ =
      emit_store-Follows handle handle_number branch_targets leaders start options t c m i place
        here 4
  emit_body-Follows EInstruction.beq _ =
      branched equal (c.reg i.rs1 == c.reg i.rs2) (rw (first, second))
  emit_body-Follows EInstruction.bne _ =
      branched differs (not (c.reg i.rs1 == c.reg i.rs2)) (rw (first, second))
  emit_body-Follows EInstruction.blt _ =
      branched less_signed (slt32 (c.reg i.rs1) (c.reg i.rs2)) (rw (first, second))
  emit_body-Follows EInstruction.bge _ =
      branched at_least_signed (not (slt32 (c.reg i.rs1) (c.reg i.rs2))) (rw (first, second))
  emit_body-Follows EInstruction.bltu _ =
      branched less (ltb (c.reg i.rs1) (c.reg i.rs2)) (rw (first, second))
  emit_body-Follows EInstruction.bgeu _ =
      branched at_least (leb (c.reg i.rs2) (c.reg i.rs1)) (rw (first, second))
  emit_body-Follows EInstruction.jal _ =
      emit_jal-Follows handle handle_number branch_targets leaders start options t c m i place here
  emit_body-Follows EInstruction.jalr apart =
      emit_jalr-Follows handle handle_number branch_targets leaders start options t c m i place here
        apart
  emit_body-Follows EInstruction.lui _ = assigned (λ a b. constant (shl32 i.immediate 12)) _ refl
  emit_body-Follows EInstruction.auipc _ =
      assigned (λ a b. binary add_op (hex i.address) (signed_hex (shl32 i.immediate 12))) _
        (rw here)
  emit_body-Follows EInstruction.ecall _ =
      emit_ecall-Follows handle handle_number laws branch_targets leaders start options t c m i
        place here
  emit_body-Follows EInstruction.ebreak absurd = elim absurd [ ]
  emit_body-Follows EInstruction.fence absurd = elim absurd [ ]
  emit_body-Follows EInstruction.mul _ = assigned product _ (rw (first, second))
  emit_body-Follows EInstruction.mulh _ = assigned product_high _ (rw (first, second))
  emit_body-Follows EInstruction.mulhsu _ = assigned product_high_mixed _ (rw (first, second))
  emit_body-Follows EInstruction.mulhu _ = assigned product_high_unsigned _ (rw (first, second))
  emit_body-Follows EInstruction.div _ =
      assigned div_expr _ (rw (first, second, if-test, if-both) (unfold div_word in refl))
  emit_body-Follows EInstruction.divu _ =
      assigned divu_expr _ (rw (first, second, if-test) (unfold divu_word in refl))
  emit_body-Follows EInstruction.rem small =
      assigned rem_expr _
        (rw (first, second, if-test, if-both) (rw small (unfold rem_word in rw small refl)))
  emit_body-Follows EInstruction.remu _ =
      assigned remu_expr _ (rw (first, second, if-test) (unfold remu_word in refl))
  emit_body-Follows EInstruction.lr_w _ =
      read-Follows handle handle_number branch_targets leaders start options t c m i place here m
        whole_word (value (source_operand options t i.rs1)) (c.reg i.rs1) place first
  emit_body-Follows EInstruction.sc_w _ =
      emit_sc_w-Follows handle handle_number branch_targets leaders start options t c m i place here
  emit_body-Follows EInstruction.invalid _ =
      emit_invalid-Follows handle handle_number laws branch_targets leaders start options t c m i
        place here

module _ (handle : Context → Outcome Context) (handle_number : ℕ → Context → Outcome Context)
    (laws : IsHandler handle handle_number) (branch_targets : List (ℕ × List (ℕ × ℕ)))
    (leaders : List ℕ) (start : ℕ) (options : TranslationOptions) (t : Tracked) (c : Context)
    (m : Machine) (i : Instruction) where
  -- Where the machine stands for the guest's state, pc is at the instruction, its immediate is a
  -- word, `IsTranslated` holds and the system calls change only a0 and do not look at pc, running
  -- what is emitted does what the interpreter does: the machine then stands for the state that the
  -- interpreter leaves, what the emitter tracks is right again, and control goes on to the next
  -- instruction, to the label of pc or to the slot of pc. Where the interpreter exits, it exits, too.
  -- Nothing is said where an access is out of bounds.
  pub emit_instruction-Follows :
      IsAt options t c m
      → c.pc ≡ i.address
      → IsU32 i.immediate
      → IsTranslated i.type c i
      → Follows options start i.address
          (execute i.type handle i c)
          (exec handle handle_number start
            (emit_instruction options branch_targets leaders start t i).0
            m)
          (emit_instruction options branch_targets leaders start t i).1
  unfolding emit_instruction exec exec_stmt
  emit_instruction-Follows place here word fine = elim (Bool-cases (contains i.address leaders)) [
    | inl leader ↦
        let forgotten : IsAt options (reset_tracked t) c m = record {
          rep = place.rep;
          tracked = reset_tracked-IsTracked t c;
          zeroed = place.zeroed;
          words = place.words;
        } in
        rw leader (
          emit_body-Follows handle handle_number laws branch_targets leaders start options
            (reset_tracked t) c m i forgotten here word i.type fine)
    | inr inside ↦ rw inside (
        emit_body-Follows handle handle_number laws branch_targets leaders start options t c m i
          place here word i.type fine)
  ]
