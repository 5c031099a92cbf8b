-- ===== src/Sbt/Emit/Emitter.antt =====
-- sbt/codegen/Emitter.cpp with the options of sbt/Options.h, and the register tracking of
-- sbt/codegen/InstructionEmitter.cpp.
use Prim.Native.Nat.{ℕ}
use mathlib.Core.Bool.{Bool, true, false, ◌&&◌, ◌||◌, not}
use mathlib.Core.List.{List, [], ◌∷◌, map}
use riscv_sbt.Base.{ltb, ◌==◌, if◌then◌else◌}
use riscv_sbt.Sbt.Emit.Syntax.{
  Operand, BinOp, Stmt, literal, pinned, in_context, value, constant, binary, assign, op_assign,
  unary_assign, set_address, copy_out, copy_in,
}
use riscv_sbt.Decoder.Instructions.{Instruction}

pub record TranslationOptions : Type 0 where
  pub profile_indirect : Bool
  pub translation_chaining : Bool
  pub use_profiling_data : Bool
  pub software_branch_prediction : Bool
  pub pin_registers : Bool

-- `x86RegisterMap`, by the guest's register: ra, sp, a5, a4, a0, s0, a3 and a2
abbrev pub register_map : List ℕ
register_map = 1 ∷ 2 ∷ 15 ∷ 14 ∷ 10 ∷ 8 ∷ 13 ∷ 12 ∷ []

unfoldable pub contains : ℕ → List ℕ → Bool
contains x [] = false
contains x (y ∷ rest) = x == y || contains x rest

-- `getHostRegister(index).has_value()`
unfoldable pub has_host_register : ℕ → Bool
unfolding contains
has_host_register index = contains index register_map

-- `regKnown` and `regValues`
pub record Tracked : Type 0 where
  pub known : ℕ → Bool
  pub values : ℕ → ℕ

unfoldable pub track : ℕ → ℕ → Tracked → Tracked
track reg v t = record {
  known = λ r. if r == reg then true else t.known r;
  values = λ r. if r == reg then v else t.values r;
}

-- `regKnown[rd] = false`
unfoldable pub forget : ℕ → Tracked → Tracked
forget rd t = record t { known = λ r. if r == rd then false else t.known r }

unfoldable pub reset_tracked : Tracked → Tracked
reset_tracked t = record t { known = λ r. false }

module _ (options : TranslationOptions) where
  unfoldable pub emit_register_store : List Stmt
  emit_register_store = if options.pin_registers then map copy_out register_map else []

  unfoldable pub emit_register_load : List Stmt
  emit_register_load = if options.pin_registers then map copy_in register_map else []

  -- the end of `REG`
  unfoldable pub host_operand : ℕ → Operand
  host_operand index =
      if options.pin_registers && has_host_register index then pinned index else in_context index

  -- `REG(RD)`
  unfoldable pub target_operand : ℕ → Operand
  unfolding host_operand
  target_operand index = if index == 0 then literal 0 else host_operand index

  -- `REG(RS1)` and `REG(RS2)`
  unfoldable pub source_operand : Tracked → ℕ → Operand
  unfolding host_operand
  source_operand t index =
      if index == 0
      then literal 0
      else if t.known index
      then literal (t.values index)
      else host_operand index

  -- `emit(text, rd)`
  unfoldable pub emit_to : ℕ → Stmt → Tracked → List Stmt × Tracked
  unfolding forget
  emit_to rd text t = ((if ltb 0 rd then text ∷ [] else []), forget rd t)

  unfoldable pub emit_load_save_address : Tracked → Instruction → List Stmt
  emit_load_save_address t i =
      if i.immediate == 0
      then set_address (value (source_operand t i.rs1)) ∷ []
      else set_address (binary BinOp.add_op (value (source_operand t i.rs1)) (constant i.immediate))
        ∷ []

  unfoldable pub emit_op : BinOp → Bool → Tracked → Instruction → List Stmt × Tracked
  emit_op op ordered t i =
      let rd = target_operand i.rd in
      let a = value (source_operand t i.rs1) in
      let b = value (source_operand t i.rs2) in
      if i.rd == i.rs1
      then emit_to i.rd (op_assign rd op b) t
      else if i.rd == i.rs2 && not ordered
      then emit_to i.rd (op_assign rd op a) t
      else if i.rd == i.rs2 && i.rs1 == 0
      then emit_to i.rd (unary_assign rd op b) t
      else emit_to i.rd (assign rd (binary op a b)) t
