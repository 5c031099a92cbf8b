-- ===== src/Interpreter/Bounds.antt =====
-- Every value that an arm writes to a register fits 32 bits.
use Prim.Native.Nat.{ℕ, ◌*◌, ◌%◌, ◌^◌, ◌<◌}
use mathlib.Core.Bool.{Bool, true, false}
use native.Mathlib.Omega.{arith}
use native.Mathlib.Nat.{div-le_self, mod-le}
use riscv_sbt.Base.Bits.{and_low}
use riscv_sbt.Base.Word.{
  IsU32, ◌+w◌, ◌-w◌, ◌>>>◌, shl32, sar32, of_bool, sext8, sext16, neg32, magnitude, sdiv32, srem32,
}
use riscv_sbt.Interpreter.Arms.{
  mul_word, mulh_word, mulhsu_word, mulhu_word, div_word, divu_word, rem_word, remu_word,
}

pub +w-lt : (a b : ℕ) → IsU32 (a +w b)
unfolding ◌+w◌
+w-lt a b = omega arith

pub -w-lt : (a b : ℕ) → IsU32 (a -w b)
unfolding ◌-w◌
-w-lt a b = omega arith

pub shl32-lt : (a k : ℕ) → IsU32 (shl32 a k)
unfolding shl32
shl32-lt a k = omega arith

pub shr-lt : (a k : ℕ) → IsU32 a → IsU32 (a >>> k)
shr-lt a k h = grind (arith, div-le_self)

pub sar32-lt : (a k : ℕ) → IsU32 a → IsU32 (sar32 a k)
unfolding sar32
sar32-lt a k h = grind (arith, div-le_self)

pub of_bool-lt : (b : Bool) → IsU32 (of_bool b)
of_bool-lt true = omega arith
of_bool-lt false = omega arith

pub sext8-lt : (b : ℕ) → b < 256 → IsU32 (sext8 b)
unfolding sext8
sext8-lt b h = ground arith

pub sext16-lt : (b : ℕ) → b < 2 ^ 16 → IsU32 (sext16 b)
unfolding sext16
sext16-lt b h = ground arith

module _ (a b : ℕ) where
  pub mul_word-lt : IsU32 (mul_word a b)
  unfolding mul_word
  mul_word-lt = omega (arith, and_low 32 (a * b % 2 ^ 64))

  pub mulh_word-lt : IsU32 (mulh_word a b)
  unfolding mulh_word
  mulh_word-lt = omega arith

  pub mulhsu_word-lt : IsU32 (mulhsu_word a b)
  unfolding mulhsu_word
  mulhsu_word-lt = omega arith

  pub mulhu_word-lt : IsU32 (mulhu_word a b)
  unfolding mulhu_word
  mulhu_word-lt = omega arith

  module _ (h : IsU32 a) where
    magnitude-lt : IsU32 (magnitude a)
    unfolding magnitude
    magnitude-lt = ground arith

    pub sdiv32-lt : IsU32 (sdiv32 a b)
    unfolding sdiv32 magnitude neg32
    sdiv32-lt = ground (arith, magnitude-lt, div-le_self (magnitude a) (magnitude b))

    pub srem32-lt : IsU32 (srem32 a b)
    unfolding srem32 magnitude neg32
    srem32-lt = ground (arith, magnitude-lt, mod-le (magnitude a) (magnitude b))

    pub div_word-lt : IsU32 (div_word a b)
    unfolding div_word
    div_word-lt = ground (arith, sdiv32-lt)

    pub divu_word-lt : IsU32 (divu_word a b)
    unfolding divu_word
    divu_word-lt = ground (arith, div-le_self a b)

    pub rem_word-lt : IsU32 (rem_word a b)
    unfolding rem_word
    rem_word-lt = ground (arith, srem32-lt)

    pub remu_word-lt : IsU32 (remu_word a b)
    unfolding remu_word
    remu_word-lt = ground (arith, mod-le a b)
