-- ===== src/Base/Bits/Symmetry.antt =====
-- `&`, `|` and `^` do not depend on the order of their operands.
use Prim.Native.Nat.{ℕ, zero, suc, ◌+◌, ◌*◌, ◌/◌, ◌%◌, ◌^◌, ◌<◌, min, max, differ}
use Prim.Native.Nat.{bit_and, bit_or, bit_xor, bit_and-bitwise, bit_or-bitwise, bit_xor-bitwise}
use mathlib.Core.Path.{◌≡◌, refl, sym, ◌∙◌}
use native.Mathlib.Omega.{arith}
use native.Mathlib.Nat.{pow-suc}
use riscv_sbt.Base.Bits.{and_step, or_step, xor_step, and-zero, or-zero, lt-two-pow}

module _ (op : ℕ → ℕ → ℕ) (bit : ℕ → ℕ → ℕ) (nil : (b : ℕ) → op 0 b ≡ op b 0)
    (step : (a b : ℕ) → op a b ≡ 2 * op (a / 2) (b / 2) + bit (a % 2) (b % 2))
    (bit_comm : (x y : ℕ) → x < 2 → y < 2 → bit x y ≡ bit y x) where
  comm_below : (k a b : ℕ) → a < 2 ^ k → op a b ≡ op b a
  comm_below zero a b h = let e : a ≡ 0 = ground arith in rw e (nil b)
  comm_below (suc k) a b h = ground (
    arith,
    pow-suc 2 k,
    step a b,
    step b a,
    bit_comm (a % 2) (b % 2),
    comm_below k (a / 2) (b / 2),
  )

  comm : (a b : ℕ) → op a b ≡ op b a
  comm a b = comm_below a a b (lt-two-pow a)

differ_comm : (x y : ℕ) → x < 2 → y < 2 → differ x y ≡ differ y x
differ_comm zero zero hx hy = refl
differ_comm zero (suc zero) hx hy = refl
differ_comm (suc zero) zero hx hy = refl
differ_comm (suc zero) (suc zero) hx hy = refl
differ_comm zero (suc (suc y)) hx hy = absurd (omega arith)
differ_comm (suc zero) (suc (suc y)) hx hy = absurd (omega arith)
differ_comm (suc (suc x)) y hx hy = absurd (omega arith)

differ_zero : (x : ℕ) → x < 2 → differ x 0 ≡ x
differ_zero zero h = refl
differ_zero (suc zero) h = refl
differ_zero (suc (suc x)) h = absurd (omega arith)

xor-zero_below : (k a : ℕ) → a < 2 ^ k → bit_xor a 0 ≡ a
xor-zero_below zero a h = ground arith
xor-zero_below (suc k) a h =
    ground (arith, pow-suc 2 k, xor_step a 0, differ_zero (a % 2), xor-zero_below k (a / 2))

pub and_comm : (a b : ℕ) → bit_and a b ≡ bit_and b a
and_comm =
    comm bit_and min (λ b. bit_and-bitwise 0 b ∙ sym (and-zero b)) and_step
      (λ x y hx hy. omega arith)

pub or_comm : (a b : ℕ) → bit_or a b ≡ bit_or b a
or_comm =
    comm bit_or max (λ b. bit_or-bitwise 0 b ∙ sym (or-zero b)) or_step (λ x y hx hy. omega arith)

pub xor_comm : (a b : ℕ) → bit_xor a b ≡ bit_xor b a
xor_comm =
    comm bit_xor differ (λ b. bit_xor-bitwise 0 b ∙ sym (xor-zero_below b b (lt-two-pow b)))
      xor_step differ_comm
