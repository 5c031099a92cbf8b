-- ===== src/Interpreter/DivRem.antt =====
-- The divisions of the M extension against division of the integers that the words stand for.
use Prim.Native.Nat.{ℕ, ◌+◌, ◌-◌, ◌*◌, ◌/◌, ◌%◌, ◌^◌, ◌≤◌, ◌<◌}
use mathlib.Core.Path.{◌≡◌, sym, ◌∙◌}
use mathlib.Core.Logic.{◌≢◌, ◌⊎◌}
use native.Mathlib.Omega.{arith}
use native.Mathlib.Nat.{div-add-mod, mod-lt, div-le_self, mod-le}
use riscv_sbt.Base.{Bool-cases, ◌==◌, inl, inr, true, false}
use riscv_sbt.Base.Int.{ℤ, pos, sub_ℕ, ◌+ℤ◌, ◌*ℤ◌}
use riscv_sbt.Base.Word.{IsU32, is_negative, signed32, sdiv32, srem32, magnitude, neg32}
use riscv_sbt.Interpreter.Arms.{div_word, divu_word, rem_word, remu_word}

-- DIVU and REMU give dividend = quotient * divisor + remainder with a remainder below the divisor,
-- where the divisor is not zero.
pub divu-remu : (a b : ℕ) → b ≢ 0 → (a ≡ divu_word a b * b + remu_word a b) × (remu_word a b < b)
unfolding divu_word remu_word
divu-remu a b ne = (ground (arith, div-add-mod a b), ground (arith, mod-lt a))

-- - n, as an integer
abbrev minus : ℕ → ℤ
minus n = sub_ℕ 0 n

signed32_pos : (q : ℕ) → q < 2 ^ 31 → signed32 q ≡ pos q
signed32_pos q h = ground arith

signed32-minus : (q : ℕ) → q ≤ 2 ^ 31 → signed32 (neg32 q) ≡ minus q
unfolding neg32
signed32-minus q h = ground arith

-- m = n q + r with either sign on the dividend and on the divisor
module _ (m n q r : ℕ) (e : m ≡ n * q + r) where
  pos_over_pos : pos q *ℤ pos n +ℤ pos r ≡ pos m
  unfolding ◌+ℤ◌ ◌*ℤ◌
  pos_over_pos = ground arith

  pos_over_minus : minus q *ℤ minus n +ℤ pos r ≡ pos m
  unfolding ◌+ℤ◌ ◌*ℤ◌
  pos_over_minus = ground arith

  minus_over_pos : minus q *ℤ pos n +ℤ minus r ≡ minus m
  unfolding ◌+ℤ◌ ◌*ℤ◌
  minus_over_pos = ground arith

  minus_over_minus : pos q *ℤ minus n +ℤ minus r ≡ minus m
  unfolding ◌+ℤ◌ ◌*ℤ◌
  minus_over_minus = ground arith

magnitude_pos :
    (a : ℕ) → is_negative a ≡ false → (magnitude a < 2 ^ 31) × (signed32 a ≡ pos (magnitude a))
unfolding magnitude
magnitude_pos a h = (ground arith, ground arith)

magnitude_neg :
    (a : ℕ)
    → IsU32 a
    → is_negative a ≡ true
    → (magnitude a ≤ 2 ^ 31) × (signed32 a ≡ minus (magnitude a))
unfolding magnitude
magnitude_neg a w h = (ground arith, ground arith)

magnitude-neg32 : (r : ℕ) → r ≤ 2 ^ 31 → magnitude (neg32 r) ≡ r
unfolding magnitude neg32
magnitude-neg32 r h = ground arith

magnitude_small : (r : ℕ) → r < 2 ^ 31 → magnitude r ≡ r
unfolding magnitude
magnitude_small r h = ground arith

quotient-lt : (m n : ℕ) → m ≤ 2 ^ 31 → 0 < n → (m < 2 ^ 31) ⊎ (1 < n) → m / n < 2 ^ 31
quotient-lt m n hm hn h = grind (arith, div-le_self m n, div-add-mod m n)

-- the signs that `/` and `%` give to the quotient and the remainder of the magnitudes
module _ (a b : ℕ) where
  div_same_sign : is_negative a ≡ is_negative b → sdiv32 a b ≡ magnitude a / magnitude b
  unfolding sdiv32
  div_same_sign e = ground arith

  div_other_sign : is_negative a ≢ is_negative b → sdiv32 a b ≡ neg32 (magnitude a / magnitude b)
  unfolding sdiv32
  div_other_sign e = ground arith

  rem_nonneg : is_negative a ≡ false → srem32 a b ≡ magnitude a % magnitude b
  unfolding srem32
  rem_nonneg e = rw e

  rem_neg : is_negative a ≡ true → srem32 a b ≡ neg32 (magnitude a % magnitude b)
  unfolding srem32
  rem_neg e = rw e

module _ (a b : ℕ) (ha : IsU32 a) (hb : IsU32 b) (ne : b ≢ 0) where
  divisor_pos : 0 < magnitude b
  unfolding magnitude
  divisor_pos = ground arith

  parts : magnitude a ≡ magnitude b * (magnitude a / magnitude b) + magnitude a % magnitude b
  parts = sym (div-add-mod (magnitude a) (magnitude b))

  quotient_small :
      (a ≢ 2 ^ 31) ⊎ (b ≢ 2 ^ 32 - 1)
      → is_negative a ≡ true
      → is_negative b ≡ true
      → magnitude a / magnitude b < 2 ^ 31
  quotient_small in_range na nb =
      quotient-lt (magnitude a) (magnitude b) (magnitude_neg a ha na).0 divisor_pos
        (unfold magnitude in ground arith)

  signed_parts :
      (a ≢ 2 ^ 31) ⊎ (b ≢ 2 ^ 32 - 1)
      → signed32 (sdiv32 a b) *ℤ signed32 b +ℤ signed32 (srem32 a b) ≡ signed32 a
  signed_parts in_range =
      let m = magnitude a in
      let n = magnitude b in
      elim (Bool-cases (is_negative a)) [
        | inl na ↦ elim (Bool-cases (is_negative b)) [
          | inl nb ↦
              rw
                (
                  div_same_sign a b (na ∙ sym nb),
                  rem_neg a b na,
                  signed32_pos (m / n) (quotient_small in_range na nb),
                  signed32-minus (m % n) (omega (arith, mod-le m n, (magnitude_neg a ha na).0)),
                  (magnitude_neg a ha na).1,
                  (magnitude_neg b hb nb).1,
                )
                (minus_over_minus m n (m / n) (m % n) parts)
          | inr nb ↦
              rw
                (
                  div_other_sign a b (rw (na, nb) (λ e. cc e)),
                  rem_neg a b na,
                  signed32-minus (m / n)
                      (omega (arith, div-le_self m n, (magnitude_neg a ha na).0)),
                  signed32-minus (m % n) (omega (arith, mod-le m n, (magnitude_neg a ha na).0)),
                  (magnitude_neg a ha na).1,
                  (magnitude_pos b nb).1,
                )
                (minus_over_pos m n (m / n) (m % n) parts)
        ]
        | inr na ↦ elim (Bool-cases (is_negative b)) [
          | inl nb ↦
              rw
                (
                  div_other_sign a b (rw (na, nb) (λ e. cc e)),
                  rem_nonneg a b na,
                  signed32-minus (m / n) (omega (arith, div-le_self m n, (magnitude_pos a na).0)),
                  signed32_pos (m % n) (omega (arith, mod-le m n, (magnitude_pos a na).0)),
                  (magnitude_pos a na).1,
                  (magnitude_neg b hb nb).1,
                )
                (pos_over_minus m n (m / n) (m % n) parts)
          | inr nb ↦
              rw
                (
                  div_same_sign a b (na ∙ sym nb),
                  rem_nonneg a b na,
                  signed32_pos (m / n) (omega (arith, div-le_self m n, (magnitude_pos a na).0)),
                  signed32_pos (m % n) (omega (arith, mod-le m n, (magnitude_pos a na).0)),
                  (magnitude_pos a na).1,
                  (magnitude_pos b nb).1,
                )
                (pos_over_pos m n (m / n) (m % n) parts)
        ]
      ]

  remainder_small : magnitude (srem32 a b) < magnitude b
  remainder_small = elim (Bool-cases (is_negative a)) [
    | inl na ↦ rw (rem_neg a b na) (
        rw
          (magnitude-neg32 (magnitude a % magnitude b)
            (omega (arith, mod-le (magnitude a) (magnitude b), (magnitude_neg a ha na).0)))
          (mod-lt (magnitude a) divisor_pos))
    | inr na ↦ rw (rem_nonneg a b na) (
        rw
          (magnitude_small (magnitude a % magnitude b)
            (omega (arith, mod-le (magnitude a) (magnitude b), (magnitude_pos a na).0)))
          (mod-lt (magnitude a) divisor_pos))
  ]

  no_special :
      (a ≢ 2 ^ 31) ⊎ (b ≢ 2 ^ 32 - 1) → (div_word a b ≡ sdiv32 a b) × (rem_word a b ≡ srem32 a b)
  unfolding div_word rem_word
  no_special in_range = (ground arith, ground arith)

  -- DIV and REM give dividend = quotient * divisor + remainder over the signed integers, with a
  -- remainder smaller in magnitude than the divisor, where the divisor is not zero and the operands
  -- are not -2 ^ 31 and -1.
  pub div-rem :
      (a ≢ 2 ^ 31) ⊎ (b ≢ 2 ^ 32 - 1)
      → (signed32 (div_word a b) *ℤ signed32 b +ℤ signed32 (rem_word a b) ≡ signed32 a)
        × (magnitude (rem_word a b) < magnitude b)
  div-rem in_range =
      let (same_div, same_rem) = no_special in_range in
      (rw (same_div, same_rem) (signed_parts in_range), rw same_rem remainder_small)

-- -2 ^ 31 by -1, the division that overflows
abbrev pub Overflows : ℕ → ℕ → Type 0
Overflows a b = (a ≡ 2 ^ 31) × (b ≡ 2 ^ 32 - 1)

overflow-cases : (a b : ℕ) → Overflows a b ⊎ ((a ≢ 2 ^ 31) ⊎ (b ≢ 2 ^ 32 - 1))
overflow-cases a b = elim (Bool-cases (a == 2 ^ 31)) [
  | inr other ↦ inr (inl (ground (arith, other)))
  | inl least ↦ elim (Bool-cases (b == 2 ^ 32 - 1)) [
    | inr other ↦ inr (inr (ground (arith, other)))
    | inl minus_one ↦ inl (ground (arith, least), ground (arith, minus_one))
  ]
]

overflow : (a b : ℕ) → Overflows a b → (div_word a b ≡ a) × (rem_word a b ≡ 0)
unfolding div_word rem_word
overflow a b (least, minus_one) =
    (ground (arith, least, minus_one), ground (arith, least, minus_one))

-- Where the divisor is not zero: DIVU and REMU give dividend = quotient * divisor + remainder, with a
-- remainder below the divisor. DIV and REM give it over the signed integers, with a remainder smaller
-- in magnitude than the divisor, unless the operands are -2 ^ 31 and -1, for which they give the
-- dividend and zero.
pub divisions-dividend :
    (a b : ℕ)
    → IsU32 a
    → IsU32 b
    → b ≢ 0
    → (a ≡ divu_word a b * b + remu_word a b)
      × (remu_word a b < b)
      × ((Overflows a b × (div_word a b ≡ a) × (rem_word a b ≡ 0))
          ⊎ ((signed32 (div_word a b) *ℤ signed32 b +ℤ signed32 (rem_word a b) ≡ signed32 a)
              × (magnitude (rem_word a b) < magnitude b)))
divisions-dividend a b ha hb ne =
    let (whole, below) = divu-remu a b ne in
    (
      whole,
      below,
      elim (overflow-cases a b) [
        | inl both ↦ inl (both, (overflow a b both).0, (overflow a b both).1)
        | inr in_range ↦ inr (div-rem a b ha hb ne in_range)
      ],
    )
