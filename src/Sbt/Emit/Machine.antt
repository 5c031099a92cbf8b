-- ===== src/Sbt/Emit/Machine.antt =====
-- What the emitted statements do. The translated program keeps some of the guest's registers in
-- registers of the host, and its own variables `address` and `pcDispatchIndex`.
use Prim.Native.Nat.{ℕ, ◌/◌, ◌%◌, bit_and, bit_or, bit_xor}
use mathlib.Core.Bool.{not}
use mathlib.Core.List.{List, [], ◌∷◌}
use mathlib.Core.Option.{none, some}
use riscv_sbt.Base.{ltb, leb, ◌==◌, if◌then◌else◌}
use riscv_sbt.Base.Word.{
  ◌>>>◌, ◌+w◌, ◌-w◌, shl32, sar32, slt32, of_bool, sext8, sext16, neg32, sdiv32, srem32,
}
use riscv_sbt.Base.Outcome.{Outcome, ok, ◌>>=◌}
use riscv_sbt.Runtime.Context.{Context, set_pc, store, load}
use riscv_sbt.Runtime.Memory.{update}
use riscv_sbt.Interpreter.Arms.{mul_word, mulh_word, mulhsu_word, mulhu_word}
use riscv_sbt.Sbt.Emit.Syntax.{
  Operand, literal, pinned, in_context, BinOp, add_op, sub_op, xor_op, or_op, and_op, Expr, value,
  constant, hex, signed_hex, address_variable, binary, masked, shift_left, shift_right,
  shift_right_signed, equal, differs, less, less_signed, at_least, at_least_signed, both, product,
  product_high, product_high_mixed, product_high_unsigned, quotient_signed, quotient,
  remainder_signed, remainder, if_else, Access, signed_byte, signed_half, whole_word, unsigned_byte,
  unsigned_half, Stmt, label_at, assign, op_assign, unary_assign, set_address, read_assign,
  write_memory, goto_if, goto, goto_if_pc, set_pc_to, start_timer, goto_dispatch, continue_loop,
  set_index, copy_out, copy_in, call_handle, print_message,
}

-- `pins` are the pinned registers.
pub record Machine : Type 0 where
  pub ctx : Context
  pub pins : ℕ → ℕ
  pub address : ℕ
  pub dispatch_index : ℕ

-- where a statement leaves control: at the next one, at a label, or at an entry of the table
pub data Next : Type 0 where
  onward : Next
  to_label to_slot : ℕ → Next

unfoldable pub operand_value : Operand → Machine → ℕ
operand_value (literal v) m = v
operand_value (pinned r) m = m.pins r
operand_value (in_context r) m = m.ctx.reg r

unfoldable pub binary_value : BinOp → ℕ → ℕ → ℕ
binary_value add_op a b = a +w b
binary_value sub_op a b = a -w b
binary_value xor_op a b = bit_xor a b
binary_value or_op a b = bit_or a b
binary_value and_op a b = bit_and a b

-- `-x` is the only prefix operator that is emitted; the others stand for themselves.
unfoldable pub unary_value : BinOp → ℕ → ℕ
unary_value sub_op a = neg32 a
unary_value _ a = a

-- the value of an expression, cut to the 32 bits of what it is assigned to
unfoldable pub eval : Machine → Expr → ℕ
unfolding operand_value binary_value
eval m (value x) = operand_value x m
eval m (constant v) = v
eval m (hex v) = v
eval m (signed_hex v) = v
eval m address_variable = m.address
eval m (binary op a b) = binary_value op (eval m a) (eval m b)
eval m (masked a) = bit_and (eval m a) 0x1f
eval m (shift_left a b) = shl32 (eval m a) (eval m b)
eval m (shift_right a b) = eval m a >>> eval m b
eval m (shift_right_signed a b) = sar32 (eval m a) (eval m b)
eval m (equal a b) = of_bool (eval m a == eval m b)
eval m (differs a b) = of_bool (not (eval m a == eval m b))
eval m (less a b) = of_bool (ltb (eval m a) (eval m b))
eval m (less_signed a b) = of_bool (slt32 (eval m a) (eval m b))
eval m (at_least a b) = of_bool (leb (eval m b) (eval m a))
eval m (at_least_signed a b) = of_bool (not (slt32 (eval m a) (eval m b)))
eval m (both a b) = bit_and (eval m a) (eval m b)
eval m (product a b) = mul_word (eval m a) (eval m b)
eval m (product_high a b) = mulh_word (eval m a) (eval m b)
eval m (product_high_mixed a b) = mulhsu_word (eval m a) (eval m b)
eval m (product_high_unsigned a b) = mulhu_word (eval m a) (eval m b)
eval m (quotient_signed a b) = sdiv32 (eval m a) (eval m b)
eval m (quotient a b) = eval m a / eval m b
eval m (remainder_signed a b) = srem32 (eval m a) (eval m b)
eval m (remainder a b) = eval m a % eval m b
eval m (if_else c a b) = if eval m c == 0 then eval m b else eval m a

-- an assignment to what `REG(RD)` names
unfoldable pub assign_to : Operand → ℕ → Machine → Machine
assign_to (literal v) x m = m
assign_to (pinned r) x m = record m { pins = update m.pins r x }
assign_to (in_context r) x m = record m { ctx = record m.ctx { reg = update m.ctx.reg r x } }

unfoldable pub read_access : Access → Context → ℕ → Outcome ℕ
read_access signed_byte c a = do v ← load 1 c a; ok (sext8 v)
read_access signed_half c a = do v ← load 2 c a; ok (sext16 v)
read_access whole_word c a = load 4 c a
read_access unsigned_byte c a = load 1 c a
read_access unsigned_half c a = load 2 c a

-- `Syscall::handle(ctx)` and `Syscall::handle(ctx, num)` are `handle` and `handle_number`.
module _ (handle : Context → Outcome Context) (handle_number : ℕ → Context → Outcome Context)
    (text_start : ℕ) where
  unfoldable pub exec_stmt : Stmt → Machine → Outcome (Machine × Next)
  unfolding eval operand_value assign_to unary_value binary_value read_access
  exec_stmt (label_at a) m = ok (m, onward)
  exec_stmt (assign x e) m = ok (assign_to x (eval m e) m, onward)
  exec_stmt (op_assign x op e) m =
      ok (assign_to x (binary_value op (operand_value x m) (eval m e)) m, onward)
  exec_stmt (unary_assign x op e) m = ok (assign_to x (unary_value op (eval m e)) m, onward)
  exec_stmt (set_address e) m = ok (record m { address = eval m e }, onward)
  exec_stmt (read_assign x access e) m = do
    v ← read_access access m.ctx (eval m e)
    ok (assign_to x v m, onward)
  exec_stmt (write_memory n a v) m = do
    c ← store n m.ctx (eval m a) (eval m v)
    ok (record m { ctx = c }, onward)
  exec_stmt (goto_if e a) m = ok (m, if eval m e == 0 then onward else to_label a)
  exec_stmt (goto a) m = ok (m, to_label a)
  exec_stmt (goto_if_pc a) m = ok (m, if m.ctx.pc == a then to_label a else onward)
  exec_stmt (set_pc_to e) m = ok (record m { ctx = set_pc m.ctx (eval m e) }, onward)
  exec_stmt start_timer m = ok (m, onward)
  exec_stmt (set_index start) m = ok (record m { dispatch_index = (m.ctx.pc -w start) / 4 }, onward)
  exec_stmt goto_dispatch m = ok (m, to_slot m.dispatch_index)
  exec_stmt continue_loop m =
      let index = (m.ctx.pc -w text_start) / 4 in
      ok (record m { dispatch_index = index }, to_slot index)
  exec_stmt (copy_out r) m =
      ok (record m { ctx = record m.ctx { reg = update m.ctx.reg r (m.pins r) } }, onward)
  exec_stmt (copy_in r) m = ok (record m { pins = update m.pins r (m.ctx.reg r) }, onward)
  exec_stmt (call_handle number) m = do
    c ← elim number [ none ↦ handle m.ctx | some n ↦ handle_number n m.ctx ]
    ok (record m { ctx = c }, onward)
  exec_stmt (print_message a) m =
      ok (record m { ctx = record m.ctx { unsupported = a ∷ m.ctx.unsupported } }, onward)

  unfoldable pub exec : List Stmt → Machine → Outcome (Machine × Next)
  unfolding exec_stmt
  exec [] m = ok (m, onward)
  exec (s ∷ rest) m = do
    (after, next) ← exec_stmt s m
    elim next [
      | onward ↦ exec rest after
      | to_label a ↦ ok (after, to_label a)
      | to_slot k ↦ ok (after, to_slot k)
    ]
