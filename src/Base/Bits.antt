-- ===== src/Base/Bits.antt =====
-- `&`, `|` and `^` on unsigned words as arithmetic: masks are remainders and quotients, and the
-- union of disjoint fields is a sum.
mod Step
pub mod Symmetry
pub use Step.{and_step, or_step, xor_step}
use Prim.Native.Nat.{ℕ, zero, suc, ◌+◌, ◌-◌, ◌*◌, ◌/◌, ◌%◌, ◌^◌, ◌≤◌, ◌<◌, min, max, differ}
use Prim.Native.Nat.{bit_and, bit_or, bit_xor, bit_and-bitwise, bit_or-bitwise}
use mathlib.Core.Path.{◌≡◌, refl, ap}
use native.Mathlib.Omega.{arith}
use native.Mathlib.Nat.{pow-suc, one-le-pow}

-- Both operators work on the low `k` digits and on the digits above them separately.
module _ (op : ℕ → ℕ → ℕ) (bit : ℕ → ℕ → ℕ) (nil : op 0 0 ≡ 0)
    (step : (a b : ℕ) → op a b ≡ 2 * op (a / 2) (b / 2) + bit (a % 2) (b % 2)) where
  split_low :
      (k q r p s : ℕ)
      → r < 2 ^ k
      → s < 2 ^ k
      → op (q * 2 ^ k + r) (p * 2 ^ k + s) ≡ op q p * 2 ^ k + op r s
  split_low zero q r p s hr hs = ground (arith, nil)
  split_low (suc k) q r p s hr hs = ground (
    arith,
    pow-suc 2 k,
    ap (λ (t : ℕ). q * t) (pow-suc 2 k),
    ap (λ (t : ℕ). p * t) (pow-suc 2 k),
    ap (λ (t : ℕ). op q p * t) (pow-suc 2 k),
    step (q * 2 ^ suc k + r) (p * 2 ^ suc k + s),
    step r s,
    split_low k q (r / 2) p (s / 2),
  )

-- the words of `k` digits that are all zero or all one
and-ones : (k a : ℕ) → a < 2 ^ k → bit_and a (2 ^ k - 1) ≡ a
and-ones zero a h = ground arith
and-ones (suc k) a h =
    ground (arith, pow-suc 2 k, one-le-pow k 2, and_step a (2 ^ suc k - 1), and-ones k (a / 2))

and-zero_below : (k a : ℕ) → a < 2 ^ k → bit_and a 0 ≡ 0
and-zero_below zero a h = ground arith
and-zero_below (suc k) a h = ground (arith, pow-suc 2 k, and_step a 0, and-zero_below k (a / 2))

or-zero_below : (k a : ℕ) → a < 2 ^ k → bit_or a 0 ≡ a
or-zero_below zero a h = ground arith
or-zero_below (suc k) a h = ground (arith, pow-suc 2 k, or_step a 0, or-zero_below k (a / 2))

zero-or : (a : ℕ) → bit_or 0 a ≡ a
zero-or a = simp bit_or-bitwise

pub lt-two-pow : (a : ℕ) → a < 2 ^ a
lt-two-pow zero = omega arith
lt-two-pow (suc a) = omega (arith, pow-suc 2 a, lt-two-pow a)

pub and-zero : (a : ℕ) → bit_and a 0 ≡ 0
and-zero a = and-zero_below a a (lt-two-pow a)

pub or-zero : (a : ℕ) → bit_or a 0 ≡ a
or-zero a = or-zero_below a a (lt-two-pow a)

module _ (k q r p s : ℕ) (hr : r < 2 ^ k) (hs : s < 2 ^ k) where
  and_split : bit_and (q * 2 ^ k + r) (p * 2 ^ k + s) ≡ bit_and q p * 2 ^ k + bit_and r s
  and_split = split_low bit_and min refl and_step k q r p s hr hs

  or_split : bit_or (q * 2 ^ k + r) (p * 2 ^ k + s) ≡ bit_or q p * 2 ^ k + bit_or r s
  or_split = split_low bit_or max refl or_step k q r p s hr hs

-- `a & (2 ^ k - 1)` keeps the low `k` digits.
pub and_low : (k a : ℕ) → bit_and a (2 ^ k - 1) ≡ a % 2 ^ k
and_low k a = ground (
  arith,
  one-le-pow k 2,
  and_split k (a / 2 ^ k) (a % 2 ^ k) 0 (2 ^ k - 1),
  and-zero (a / 2 ^ k),
  and-ones k (a % 2 ^ k),
)

-- `a & ((2 ^ j - 1) << k)` keeps the `j` digits from the `k`-th on.
pub and_field : (j k a : ℕ) → bit_and a ((2 ^ j - 1) * 2 ^ k) ≡ a / 2 ^ k % 2 ^ j * 2 ^ k
and_field j k a = ground (
  arith,
  one-le-pow k 2,
  and_split k (a / 2 ^ k) (a % 2 ^ k) (2 ^ j - 1) 0,
  and-zero (a % 2 ^ k),
  and_low j (a / 2 ^ k),
)

-- `(q << k) | r` of disjoint fields is their sum.
pub or_field : (k q r : ℕ) → r < 2 ^ k → bit_or (q * 2 ^ k) r ≡ q * 2 ^ k + r
or_field k q r h = ground (arith, one-le-pow k 2, or_split k q 0 0 r, or-zero q, zero-or r)

pub or_field_above : (k q r : ℕ) → r < 2 ^ k → bit_or r (q * 2 ^ k) ≡ q * 2 ^ k + r
or_field_above k q r h = ground (arith, one-le-pow k 2, or_split k 0 r q 0, zero-or q, or-zero r)

-- None of the three leaves the width of its operands.
pub and-lt : (k a b : ℕ) → a < 2 ^ k → bit_and a b < 2 ^ k
and-lt zero zero b h = simp bit_and-bitwise (omega arith)
and-lt zero (suc a) b h = absurd (omega arith)
and-lt (suc k) a b h = ground (arith, pow-suc 2 k, and_step a b, and-lt k (a / 2) (b / 2))

pub or-lt : (k a b : ℕ) → a < 2 ^ k → b < 2 ^ k → bit_or a b < 2 ^ k
or-lt zero a b ha hb = ground arith
or-lt (suc k) a b ha hb = ground (arith, pow-suc 2 k, or_step a b, or-lt k (a / 2) (b / 2))

differ-lt : (x y : ℕ) → x < 2 → y < 2 → differ x y < 2
differ-lt zero y hx hy = hy
differ-lt (suc zero) zero hx hy = omega arith
differ-lt (suc zero) (suc zero) hx hy = omega arith
differ-lt (suc zero) (suc (suc y)) hx hy = absurd (omega arith)
differ-lt (suc (suc x)) y hx hy = absurd (omega arith)

pub xor-lt : (k a b : ℕ) → a < 2 ^ k → b < 2 ^ k → bit_xor a b < 2 ^ k
xor-lt zero zero zero ha hb = omega arith
xor-lt zero zero (suc b) ha hb = absurd (omega arith)
xor-lt zero (suc a) b ha hb = absurd (omega arith)
xor-lt (suc k) a b ha hb =
    ground (arith, pow-suc 2 k, xor_step a b, differ-lt (a % 2) (b % 2), xor-lt k (a / 2) (b / 2))
