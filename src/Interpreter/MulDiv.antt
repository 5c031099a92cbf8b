-- ===== src/Interpreter/MulDiv.antt =====
-- The M extension's arms against arithmetic on the integers that the words stand for.
use Prim.Native.Nat.{ℕ, suc, ◌+◌, ◌-◌, ◌*◌, ◌/◌, ◌%◌, ◌^◌, ◌≤◌, ◌<◌}
use mathlib.Core.Path.{◌≡◌, ap}
use native.Mathlib.Omega.{arith}
use riscv_sbt.Base.{Bool-cases, inl, inr, ltb, if◌then◌else◌}
use riscv_sbt.Base.Bits.{and_low}
use riscv_sbt.Base.Int.{ℤ, pos, negsuc, ◌+ℤ◌, ◌*ℤ◌}
use riscv_sbt.Base.Word.{IsU32, sext64, sar64, is_negative, signed32}
use riscv_sbt.Interpreter.Arms.{mul_word, mulh_word, mulhsu_word, mulhu_word}

mul_word_lem : (a b : ℕ) → mul_word a b ≡ a * b % 2 ^ 32
unfolding mul_word
mul_word_lem a b = omega (arith, and_low 32 (a * b % 2 ^ 64))

product-lt : (a b m n : ℕ) → a < m → b < n → a * b < m * n
product-lt a b m n ha hb = grind arith

product-le : (a b m n : ℕ) → a ≤ m → b ≤ n → a * b ≤ m * n
product-le a b m n ha hb = grind arith

module _ (a b : ℕ) (ha : IsU32 a) (hb : IsU32 b) where
  -- MULHU and MUL are the two halves of the unsigned product.
  mulhu-mul : mulhu_word a b * 2 ^ 32 + mul_word a b ≡ a * b
  unfolding mulhu_word
  mulhu-mul = omega (arith, mul_word_lem a b, product-lt a b (2 ^ 32) (2 ^ 32) ha hb)

abbrev signed64 : ℕ → ℤ
signed64 x = if ltb x (2 ^ 63) then pos x else negsuc (2 ^ 64 - x - 1)

-- the two halves of a 64-bit pattern, the upper one signed
halves :
    (x : ℕ)
    → x < 2 ^ 64
    → signed32 (sar64 x 32 % 2 ^ 32) *ℤ pos (2 ^ 32) +ℤ pos (x % 2 ^ 32) ≡ signed64 x
unfolding sar64 ◌+ℤ◌ ◌*ℤ◌
halves x h = ground arith

halves_logical :
    (x : ℕ)
    → x < 2 ^ 64
    → signed32 (x / 2 ^ 32 % 2 ^ 32) *ℤ pos (2 ^ 32) +ℤ pos (x % 2 ^ 32) ≡ signed64 x
unfolding ◌+ℤ◌ ◌*ℤ◌
halves_logical x h = ground arith

-- what an `int64_t` product of two widened words stands for, by the signs of the factors; a
-- negative factor of magnitude m is the pattern 2 ^ 64 - m
distribute : (m n k : ℕ) → m ≤ k → (k - m) * n + m * n ≡ k * n
distribute m n k h =
    let whole : k - m + m ≡ k = omega arith in omega (arith, ap (λ (t : ℕ). t * n) whole)

pos_pos : (m n : ℕ) → m < 2 ^ 31 → n < 2 ^ 32 → signed64 (m * n % 2 ^ 64) ≡ pos m *ℤ pos n
unfolding ◌*ℤ◌
pos_pos m n hm hn = ground (arith, product-lt m n (2 ^ 31) (2 ^ 32) hm hn)

neg_pos :
    (m n : ℕ)
    → m < 2 ^ 31
    → n < 2 ^ 32
    → signed64 ((2 ^ 64 - suc m) * n % 2 ^ 64) ≡ negsuc m *ℤ pos n
unfolding ◌*ℤ◌
neg_pos m n hm hn = ground (
  arith,
  product-le (suc m) n (2 ^ 31) (2 ^ 32) (omega arith) (omega arith),
  distribute (suc m) n (2 ^ 64),
)

pos_neg :
    (m n : ℕ)
    → m < 2 ^ 31
    → n < 2 ^ 31
    → signed64 (m * (2 ^ 64 - suc n) % 2 ^ 64) ≡ pos m *ℤ negsuc n
unfolding ◌*ℤ◌
pos_neg m n hm hn =
    ground (arith, product-lt m n (2 ^ 31) (2 ^ 31) hm hn, distribute (suc n) m (2 ^ 64))

neg_neg :
    (m n : ℕ)
    → m < 2 ^ 31
    → n < 2 ^ 31
    → signed64 ((2 ^ 64 - suc m) * (2 ^ 64 - suc n) % 2 ^ 64) ≡ negsuc m *ℤ negsuc n
unfolding ◌*ℤ◌
neg_neg m n hm hn = ground (
  arith,
  product-lt m n (2 ^ 31) (2 ^ 31) hm hn,
  distribute (suc m) (2 ^ 64 - suc n) (2 ^ 64),
  distribute (suc n) (suc m) (2 ^ 64),
)

-- a word is either a small number or the pattern of a small negative one
data SignView (a : ℕ) : Type 0 where
  nonneg : (m : ℕ) → m < 2 ^ 31 → sext64 a ≡ m → signed32 a ≡ pos m → SignView a
  neg : (m : ℕ) → m < 2 ^ 31 → sext64 a ≡ 2 ^ 64 - suc m → signed32 a ≡ negsuc m → SignView a

sign_view : (a : ℕ) → IsU32 a → SignView a
unfolding sext64
sign_view a h = elim (Bool-cases (is_negative a)) [
  | inl e ↦ neg (2 ^ 32 - a - 1) (ground arith) (ground arith) (ground arith)
  | inr e ↦ nonneg a (ground arith) (ground arith) (ground arith)
]

signed_product :
    (a b : ℕ)
    → SignView a
    → SignView b
    → signed64 (sext64 a * sext64 b % 2 ^ 64) ≡ signed32 a *ℤ signed32 b
signed_product a b (nonneg m hm xa sa) (nonneg n hn xb sb) =
    rw (xa, xb, sa, sb) (pos_pos m n hm (omega arith))
signed_product a b (nonneg m hm xa sa) (neg n hn xb sb) = rw (xa, xb, sa, sb) (pos_neg m n hm hn)
signed_product a b (neg m hm xa sa) (nonneg n hn xb sb) =
    rw (xa, xb, sa, sb) (neg_pos m n hm (omega arith))
signed_product a b (neg m hm xa sa) (neg n hn xb sb) = rw (xa, xb, sa, sb) (neg_neg m n hm hn)

mixed_product :
    (a b : ℕ) → IsU32 b → SignView a → signed64 (sext64 a * b % 2 ^ 64) ≡ signed32 a *ℤ pos b
mixed_product a b hb (nonneg m hm xa sa) = rw (xa, sa) (pos_pos m b hm hb)
mixed_product a b hb (neg m hm xa sa) = rw (xa, sa) (neg_pos m b hm hb)

-- widening adds a multiple of 2 ^ 32
carry : ℕ → ℕ
carry a = if is_negative a then 2 ^ 32 - 1 else 0

sext64-carry : (a : ℕ) → sext64 a ≡ a + carry a * 2 ^ 32
unfolding sext64 carry
sext64-carry a = ground arith

module _ (a b : ℕ) where
  low_half : sext64 a * sext64 b % 2 ^ 64 % 2 ^ 32 ≡ mul_word a b
  low_half = rw (sext64-carry a, sext64-carry b, mul_word_lem) (omega arith)

  low_half_mixed : sext64 a * b % 2 ^ 64 % 2 ^ 32 ≡ mul_word a b
  low_half_mixed = rw (sext64-carry a, mul_word_lem) (omega arith)

module _ (a b : ℕ) (ha : IsU32 a) (hb : IsU32 b) where
  -- MULH and MUL are the two halves of the product of the operands as signed integers.
  mulh-mul :
      signed32 (mulh_word a b) *ℤ pos (2 ^ 32) +ℤ pos (mul_word a b) ≡ signed32 a *ℤ signed32 b
  unfolding mulh_word
  mulh-mul =
      rw (← low_half a b, halves (sext64 a * sext64 b % 2 ^ 64) (omega arith))
        (signed_product a b (sign_view a ha) (sign_view b hb))

  -- MULHSU and MUL are the two halves of the product of the first operand as a signed and the
  -- second as an unsigned integer.
  mulhsu-mul :
      signed32 (mulhsu_word a b) *ℤ pos (2 ^ 32) +ℤ pos (mul_word a b) ≡ signed32 a *ℤ pos b
  unfolding mulhsu_word
  mulhsu-mul =
      rw (← low_half_mixed a b, halves_logical (sext64 a * b % 2 ^ 64) (omega arith))
        (mixed_product a b hb (sign_view a ha))

  -- MULHU, MULH and MULHSU hold the upper half, and MUL the lower half, of the product of two words:
  -- as unsigned integers, as signed integers, and as a signed and an unsigned integer.
  pub multiplications-halves :
      (mulhu_word a b * 2 ^ 32 + mul_word a b ≡ a * b)
      × (signed32 (mulh_word a b) *ℤ pos (2 ^ 32) +ℤ pos (mul_word a b) ≡ signed32 a *ℤ signed32 b)
      × (signed32 (mulhsu_word a b) *ℤ pos (2 ^ 32) +ℤ pos (mul_word a b) ≡ signed32 a *ℤ pos b)
  multiplications-halves = (mulhu-mul a b ha hb, mulh-mul, mulhsu-mul)
