-- ===== src/Tests/Arithmetic.antt =====
use Prim.Native.Nat.{◌+◌, ◌*◌, ◌^◌, ◌<◌}
use mathlib.Core.Path.{◌≡◌, refl}
use mathlib.Core.Logic.{◌⊎◌}
use native.Mathlib.Omega.{arith}
use riscv_sbt.Base.Int.{pos, ◌+ℤ◌, ◌*ℤ◌}
use riscv_sbt.Base.Word.{signed32, magnitude, sdiv32, srem32}
use riscv_sbt.Interpreter.Arms.{
  mul_word, mulh_word, mulhsu_word, mulhu_word, div_word, divu_word, rem_word, remu_word,
}
use riscv_sbt.Interpreter.MulDiv.{multiplications-halves}
use riscv_sbt.Interpreter.DivRem.{Overflows, divisions-dividend}

-- -7 / 2 is -3, and -7 % 2 is -1.
towards_zero : (div_word 0xffff_fff9 2 ≡ 0xffff_fffd) × (rem_word 0xffff_fff9 2 ≡ 0xffff_ffff)
unfolding div_word rem_word sdiv32 srem32
towards_zero = (refl, refl)

multiplications-halves_example :
    (mulhu_word 0xffff_ffff 3 * 2 ^ 32 + mul_word 0xffff_ffff 3 ≡ 0xffff_ffff * 3)
    × (signed32 (mulh_word 0xffff_ffff 3) *ℤ pos (2 ^ 32) +ℤ pos (mul_word 0xffff_ffff 3)
        ≡ signed32 0xffff_ffff *ℤ signed32 3)
    × (signed32 (mulhsu_word 0xffff_ffff 3) *ℤ pos (2 ^ 32) +ℤ pos (mul_word 0xffff_ffff 3)
        ≡ signed32 0xffff_ffff *ℤ pos 3)
multiplications-halves_example = multiplications-halves 0xffff_ffff 3 (omega arith) (omega arith)

divisions-dividend_example :
    (0xffff_fff9 ≡ divu_word 0xffff_fff9 2 * 2 + remu_word 0xffff_fff9 2)
    × (remu_word 0xffff_fff9 2 < 2)
    × ((Overflows 0xffff_fff9 2
          × (div_word 0xffff_fff9 2 ≡ 0xffff_fff9)
          × (rem_word 0xffff_fff9 2 ≡ 0))
        ⊎ ((signed32 (div_word 0xffff_fff9 2) *ℤ signed32 2 +ℤ signed32 (rem_word 0xffff_fff9 2)
              ≡ signed32 0xffff_fff9)
            × (magnitude (rem_word 0xffff_fff9 2) < magnitude 2)))
divisions-dividend_example =
    divisions-dividend 0xffff_fff9 2 (omega arith) (omega arith) (omega arith)
