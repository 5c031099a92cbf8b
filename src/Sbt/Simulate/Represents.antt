-- ===== src/Sbt/Simulate/Represents.antt =====
-- The guest's state in the variables of the translated program, and what the emitter knows of it.
use Prim.Native.Nat.{ℕ}
use mathlib.Core.Path.{◌≡◌, refl}
use mathlib.Core.Logic.{◌≢◌, inl, inr}
use mathlib.Core.Bool.{true, false, ◌&&◌}
use native.Mathlib.Omega.{arith}
use riscv_sbt.Base.{◌==◌, ==→eq, ne→==, Bool-cases, if◌then◌else◌}
use riscv_sbt.Runtime.Context.{Context, set_reg}
use riscv_sbt.Sbt.Emit.Syntax.{Operand, literal, pinned, in_context}
use riscv_sbt.Sbt.Emit.Emitter.{
  TranslationOptions, Tracked, has_host_register, track, forget, reset_tracked, host_operand,
  target_operand, source_operand,
}
use riscv_sbt.Sbt.Emit.Machine.{Machine, operand_value, assign_to}

-- the guest's register, wherever the program keeps it
abbrev pub view : TranslationOptions → Machine → ℕ → ℕ
view options m r = if options.pin_registers && has_host_register r then m.pins r else m.ctx.reg r

pub record Represents (options : TranslationOptions) (c : Context) (m : Machine) : Type 0 where
  pub regs : (r : ℕ) → view options m r ≡ c.reg r
  pub memory : m.ctx.memory ≡ c.memory
  pub unsupported : m.ctx.unsupported ≡ c.unsupported

-- What the emitter has for a known register is its value. It tracks x0 too, and never uses that.
abbrev pub IsTracked : Tracked → Context → Type 0
IsTracked t c = (r : ℕ) → r ≢ 0 → t.known r ≡ true → t.values r ≡ c.reg r

-- `ctx.reg[x0] = 0`
abbrev pub settle : Context → Context
settle c = record c { reg = λ j. if j == 0 then 0 else c.reg j }

pub reset_tracked-IsTracked : (t : Tracked) (c : Context) → IsTracked (reset_tracked t) c
unfolding reset_tracked
reset_tracked-IsTracked t c r other known = cc

pub forget-IsTracked :
    (t : Tracked) (c : Context) (rd v : ℕ)
    → IsTracked t c
    → IsTracked (forget rd t) (settle (set_reg c rd v))
unfolding forget set_reg
forget-IsTracked t c rd v h r other known = ground (arith, h r other)

pub track-IsTracked :
    (t : Tracked) (c : Context) (rd v : ℕ)
    → IsTracked t c
    → IsTracked (track rd v (forget rd t)) (settle (set_reg c rd v))
unfolding track forget set_reg
track-IsTracked t c rd v h r other known = ground (arith, h r other)

pub assign_to-pc : (x : Operand) (v : ℕ) (m : Machine) → (assign_to x v m).ctx.pc ≡ m.ctx.pc
unfolding assign_to
assign_to-pc (literal n) v m = refl
assign_to-pc (pinned r) v m = refl
assign_to-pc (in_context r) v m = refl

module _ (options : TranslationOptions) (c : Context) (m : Machine)
    (rep : Represents options c m) where
  pub host_operand-value : (r : ℕ) → operand_value (host_operand options r) m ≡ c.reg r
  unfolding operand_value host_operand
  host_operand-value r = elim (Bool-cases (options.pin_registers && has_host_register r)) [
    | inl pin ↦ rw pin (let h : m.pins r ≡ c.reg r = rw pin at (rep.regs r) in h)
    | inr free ↦ rw free (let h : m.ctx.reg r ≡ c.reg r = rw free at (rep.regs r) in h)
  ]

  pub target_operand-value :
      (r : ℕ) → c.reg 0 ≡ 0 → operand_value (target_operand options r) m ≡ c.reg r
  unfolding target_operand operand_value
  target_operand-value r zeroed = elim (Bool-cases (r == 0)) [
    | inl skip ↦ rw skip (ground (arith, skip, zeroed))
    | inr real ↦ rw real (host_operand-value r)
  ]

  pub source_operand-value :
      (t : Tracked) (r : ℕ)
      → IsTracked t c
      → c.reg 0 ≡ 0
      → operand_value (source_operand options t r) m ≡ c.reg r
  unfolding source_operand operand_value
  source_operand-value t r known zeroed = elim (Bool-cases (r == 0)) [
    | inl skip ↦ rw skip (ground (arith, skip, zeroed))
    | inr real ↦ elim (Bool-cases (t.known r)) [
      | inl tracked ↦ rw (real, tracked) (known r (ground (arith, real)) tracked)
      | inr lost ↦ rw (real, lost) (host_operand-value r)
    ]
  ]

  pub assign_to-Represents :
      (rd v : ℕ)
      → rd ≢ 0
      → c.reg 0 ≡ 0
      → Represents options (settle (set_reg c rd v)) (assign_to (target_operand options rd) v m)
  unfolding target_operand host_operand assign_to set_reg
  assign_to-Represents rd v real zeroed =
      let not_zero : (rd == 0) ≡ false = ne→== rd 0 real in
      elim (Bool-cases (options.pin_registers && has_host_register rd)) [
        | inl pin ↦
            rw (not_zero, pin)
              record {
                regs = λ j. elim (Bool-cases (j == rd)) [
                  | inl here ↦ rw (==→eq j rd here, pin, not_zero) (ground arith)
                  | inr other ↦ ground (arith, other, rep.regs j, zeroed)
                ];
                memory = rep.memory;
                unsupported = rep.unsupported;
              }
        | inr free ↦
            rw (not_zero, free)
              record {
                regs = λ j. elim (Bool-cases (j == rd)) [
                  | inl here ↦ rw (==→eq j rd here, free, not_zero) (ground arith)
                  | inr other ↦ ground (arith, other, rep.regs j, zeroed)
                ];
                memory = rep.memory;
                unsupported = rep.unsupported;
              }
      ]
