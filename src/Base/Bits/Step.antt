-- ===== src/Base/Bits/Step.antt =====
-- One equation for the lowest digit of `&` and `|`, from the recursion that the native operations
-- stand for: its count of digits does not matter once it is large enough.
use Prim.Native.Nat.{ℕ, zero, suc, ◌+◌, ◌*◌, ◌/◌, ◌%◌, ◌≤◌, min, max, digits}
use Prim.Native.Nat.{differ, bit_and, bit_or, bit_xor, bit_and-bitwise, bit_or-bitwise}
use Prim.Native.Nat.{bit_xor-bitwise}
use mathlib.Core.Path.{◌≡◌, refl, ap}
use native.Mathlib.Omega.{arith}

module _ (rest : ℕ → ℕ) (bit : ℕ → ℕ → ℕ) where
  more_digits : (x y n m : ℕ) → x ≤ n → x ≤ m → digits rest bit n x y ≡ digits rest bit m x y
  more_digits zero y zero zero hn hm = refl
  more_digits zero y zero (suc m) hn hm = refl
  more_digits zero y (suc n) zero hn hm = refl
  more_digits zero y (suc n) (suc m) hn hm = refl
  more_digits (suc x) y zero m hn hm = elim hn [ ]
  more_digits (suc x) y (suc n) zero hn hm = elim hm [ ]
  more_digits (suc x) y (suc n) (suc m) hn hm =
      let half : suc x / 2 ≤ n = omega arith in
      ap (λ d. d * 2 + bit (suc x % 2) (y % 2))
        (more_digits (suc x / 2) (y / 2) n m half (omega arith))

  -- the recursion takes one digit off at a time
  one_digit :
      (x y : ℕ)
      → digits rest bit (suc x) (suc x) y
        ≡ digits rest bit (suc x / 2) (suc x / 2) (y / 2) * 2 + bit (suc x % 2) (y % 2)
  one_digit x y =
      ap (λ d. d * 2 + bit (suc x % 2) (y % 2))
        (more_digits (suc x / 2) (y / 2) x (suc x / 2) (omega arith) (omega arith))

pub xor_step : (x y : ℕ) → bit_xor x y ≡ 2 * bit_xor (x / 2) (y / 2) + differ (x % 2) (y % 2)
xor_step (suc x) y = omega (
  arith,
  one_digit (λ y. y) differ x y,
  bit_xor-bitwise (suc x) y,
  bit_xor-bitwise (suc x / 2) (y / 2),
)
xor_step zero y = omega (arith, bit_xor-bitwise 0 y, bit_xor-bitwise 0 (y / 2))

pub or_step : (x y : ℕ) → bit_or x y ≡ 2 * bit_or (x / 2) (y / 2) + max (x % 2) (y % 2)
or_step (suc x) y = omega (
  arith,
  one_digit (λ y. y) max x y,
  bit_or-bitwise (suc x) y,
  bit_or-bitwise (suc x / 2) (y / 2),
)
or_step zero y = omega (arith, bit_or-bitwise 0 y, bit_or-bitwise 0 (y / 2))

pub and_step : (x y : ℕ) → bit_and x y ≡ 2 * bit_and (x / 2) (y / 2) + min (x % 2) (y % 2)
and_step (suc x) y = omega (
  arith,
  one_digit (λ _. 0) min x y,
  bit_and-bitwise (suc x) y,
  bit_and-bitwise (suc x / 2) (y / 2),
)
and_step zero y = omega (arith, bit_and-bitwise 0 y, bit_and-bitwise 0 (y / 2))
