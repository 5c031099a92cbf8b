-- ===== src/Sbt/Emit/Syntax.antt =====
-- The C++ that sbt/codegen/InstructionEmitter.cpp and Emitter.cpp write, one constructor for each
-- shape of text. A number is the 32-bit pattern of the value that is printed.
use Prim.Native.Nat.{ℕ}
use mathlib.Core.Option.{Option}

-- What `REG` names: a number, a pinned register `x5`, or `ctx.reg[5]`.
pub data Operand : Type 0 where
  literal pinned in_context : ℕ → Operand

-- the operators of `emitOp`
pub data BinOp : Type 0 where
  add_op sub_op xor_op or_op and_op : BinOp

-- `constant` is a number in decimal, `hex` one after `0x`, `signed_hex` an `int32_t` after `0x`. A
-- shift that the emitted code masks is a shift by `masked`. `if_else` is an `if` each of whose
-- branches assigns to the register that the whole is assigned to.
pub data Expr : Type 0 where
  value : Operand → Expr
  constant hex signed_hex : ℕ → Expr
  address_variable : Expr
  binary : BinOp → Expr → Expr → Expr
  masked : Expr → Expr
  shift_left shift_right shift_right_signed : Expr → Expr → Expr
  equal differs less less_signed at_least at_least_signed both : Expr → Expr → Expr
  product product_high product_high_mixed product_high_unsigned : Expr → Expr → Expr
  quotient_signed quotient remainder_signed remainder : Expr → Expr → Expr
  if_else : Expr → Expr → Expr → Expr

-- the types that `memory.read` is called at, with the cast around the call
pub data Access : Type 0 where
  signed_byte signed_half whole_word unsigned_byte unsigned_half : Access

pub data Stmt : Type 0 where
  label_at : ℕ → Stmt
  assign : Operand → Expr → Stmt
  op_assign unary_assign : Operand → BinOp → Expr → Stmt
  set_address : Expr → Stmt
  read_assign : Operand → Access → Expr → Stmt
  write_memory : ℕ → Expr → Expr → Stmt
  goto_if : Expr → ℕ → Stmt
  goto goto_if_pc : ℕ → Stmt
  set_pc_to : Expr → Stmt
  start_timer goto_dispatch continue_loop : Stmt
  set_index : ℕ → Stmt
  copy_out copy_in : ℕ → Stmt
  call_handle : Option ℕ → Stmt
  print_message : ℕ → Stmt
