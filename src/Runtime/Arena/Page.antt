-- ===== src/Runtime/Arena/Page.antt =====
-- `pageAlignAddress`: the least multiple of the page size at or above the address.
use Prim.Native.Nat.{ℕ, zero, suc, ◌+◌, ◌-◌, ◌*◌, ◌/◌, ◌%◌, ◌^◌, ◌≤◌, ◌<◌}
use mathlib.Core.Logic.{inl, inr}
use mathlib.Core.Path.{◌≡◌, sym, subst}
use native.Mathlib.Omega.{arith}
use native.Mathlib.Nat.{
  pow-suc, one-le-pow, mul_comm, add-mul, mul-le-mul_right, mod-add-div, pow-le-pow_right,
  mod-eq_of_lt, div-lt_iff_lt-mul, mul-mod_left,
}
use riscv_sbt.Base.{leb, Bool-cases}
use riscv_sbt.Base.Bits.{and_field}
use riscv_sbt.Runtime.Arena.{page_align}

-- A page size is a power of two that divides the arena's start.
abbrev pub IsPage : ℕ → Type 0
IsPage p = (k : ℕ) × (k ≤ 19) × (p ≡ 2 ^ k)

pow_add : (a b : ℕ) → 2 ^ (a + b) ≡ 2 ^ a * 2 ^ b
pow_add zero b = grind arith
pow_add (suc a) b = grind (arith, pow-suc 2 a, pow-suc 2 (a + b), pow_add a b)

one_less : (a b n : ℕ) → 0 < a → n ≡ a * b → (a - 1) * b ≡ n - b
one_less zero b n h e = absurd (omega arith)
one_less (suc a) b n h e = grind arith

-- On a power of two the mask keeps the multiples.
page_align_floor :
    (j k x : ℕ)
    → j + k ≡ 64
    → x + 2 ^ k ≤ 2 ^ 64
    → page_align (2 ^ k) x ≡ (x + 2 ^ k - 1) / 2 ^ k * 2 ^ k
unfolding page_align
page_align_floor j k x e h =
    let split : 2 ^ 64 ≡ 2 ^ j * 2 ^ k = subst (λ n. 2 ^ n ≡ 2 ^ j * 2 ^ k) e (pow_add j k) in
    let mask = one_less (2 ^ j) (2 ^ k) (2 ^ 64) (one-le-pow j 2 (omega arith)) split in
    let low : (2 ^ k + 2 ^ 64 - 1) % 2 ^ 64 ≡ 2 ^ k - 1 =
      omega (arith, one-le-pow k 2 (omega arith)) in
    let sum : (x + (2 ^ k - 1)) % 2 ^ 64 ≡ x + 2 ^ k - 1 =
      omega (arith, one-le-pow k 2 (omega arith)) in
    let ones : 2 ^ 64 - 1 - (2 ^ k - 1) ≡ (2 ^ j - 1) * 2 ^ k =
      omega (arith, mask, one-le-pow k 2 (omega arith)) in
    let small : (x + 2 ^ k - 1) / 2 ^ k < 2 ^ j =
      (div-lt_iff_lt-mul (one-le-pow k 2 (omega arith))).1
        (omega (arith, split, one-le-pow k 2 (omega arith))) in
    rw (low, sum, ones, and_field j k (x + 2 ^ k - 1), mod-eq_of_lt small)

divides_arena : (k : ℕ) → k ≤ 19 → (q : ℕ) × (2 ^ 19 ≡ q * 2 ^ k)
divides_arena k h = (
  2 ^ (19 - k),
  subst (λ n. 2 ^ n ≡ 2 ^ (19 - k) * 2 ^ k) {y = 19} (omega arith) (pow_add (19 - k) k),
)

round_up :
    (p q x : ℕ)
    → 0 < p
    → x ≤ q * p
    → (x ≤ (x + p - 1) / p * p)
      × ((x + p - 1) / p * p ≤ q * p)
      × ((x + p - 1) / p * p < x + p)
      × (((x + p - 1) / p * p) % p ≡ 0)
round_up p q x hp hx = (grind arith, grind arith, grind arith, mul-mod_left ((x + p - 1) / p) p)

-- What rounding up to a page comes to.
abbrev pub RoundsUp : ℕ → ℕ → ℕ → Type 0
RoundsUp p x r = (x ≤ r) × (r ≤ 2 ^ 20) × (r < x + p) × (r % p ≡ 0)

page_align-power : (k x : ℕ) → k ≤ 19 → x ≤ 2 ^ 20 → RoundsUp (2 ^ k) x (page_align (2 ^ k) x)
page_align-power k x hk hx =
    let (q, e) = divides_arena k hk in
    let pos = one-le-pow k 2 (omega arith) in
    let twice : 2 ^ 20 ≡ 2 * q * 2 ^ k = grind arith in
    let small : 2 ^ k ≤ 2 ^ 19 = pow-le-pow_right (omega arith) hk in
    let (lo, hi, near, whole) = round_up (2 ^ k) (2 * q) x pos (omega (arith, twice)) in
    rw (page_align_floor (64 - k) k x (omega arith) (omega arith))
      (lo, omega (arith, hi, twice), near, whole)

-- For a page size that is a power of two and at most 2 ^ 19, an address up to the arena's end is
-- rounded up to a multiple of the page size, by less than a page, and not past the end.
pub page_align-RoundsUp : (p x : ℕ) → IsPage p → x ≤ 2 ^ 20 → RoundsUp p x (page_align p x)
page_align-RoundsUp p x h hx =
    let (k, hk, e) = h in
    subst (λ m. RoundsUp m x (page_align m x)) (sym e) (page_align-power k x hk hx)

multiple_below : (p q m : ℕ) → q * p < m * p + p → q * p ≤ m * p
multiple_below p q m h = elim (Bool-cases (leb (m + 1) q)) [
  | inl large ↦
      let more : m + 1 ≤ q = ground (arith, large) in
      absurd (omega (arith, h, mul-le-mul_right p more, add-mul m 1 p))
  | inr small ↦ let less : q ≤ m = ground (arith, small) in mul-le-mul_right p less
]

-- No multiple of the page size stands between.
pub RoundsUp-least : (p x r b : ℕ) → RoundsUp p x r → x ≤ b → b % p ≡ 0 → r ≤ b
RoundsUp-least p x r b (lo, hi, near, whole) h b_whole =
    let r_parts : r ≡ r / p * p = omega (arith, whole, mod-add-div r p, mul_comm p (r / p)) in
    let b_parts : b ≡ b / p * p = omega (arith, b_whole, mod-add-div b p, mul_comm p (b / p)) in
    omega (
      arith,
      r_parts,
      b_parts,
      multiple_below p (r / p) (b / p) (omega (arith, r_parts, b_parts, near, h)),
    )
