-- ===== src/Profiling/Addresses.antt =====
-- An address is read back from how it is written.
use Prim.Native.Nat.{ℕ, zero, suc, ◌+◌, ◌*◌, ◌/◌, ◌%◌, ◌^◌, ◌<◌}
use mathlib.Core.Path.{◌≡◌, sym, ap, ◌∙◌}
use mathlib.Core.Bool.{true}
use mathlib.Core.Option.{Option, none, some}
use native.Mathlib.Omega.{arith}
use native.Mathlib.Nat.{pow-suc, div-add-mod, div-div-eq-div-mul, one-le-pow}
use riscv_sbt.Base.{ltb, if◌then◌else◌}
use riscv_sbt.Base.Word.{IsU32, u32}
use riscv_sbt.Profiling.{
  hex_digit, format_digits, format_address, digit_value, read_digits, read_prefixed, stoul,
  parse_address,
}

digit_value-hex_digit : (d : ℕ) → d < 16 → digit_value (hex_digit d) ≡ d
unfolding digit_value
digit_value-hex_digit d small = ground arith

digits_split : (a m : ℕ) → 0 < m → a % m + m * (a / m % 16) ≡ a % (m * 16)
digits_split a m h = grind (
  arith,
  div-div-eq-div-mul a m 16,
  div-add-mod a m,
  div-add-mod a (m * 16),
  ap (λ (x : ℕ). m * x) (div-add-mod (a / m) 16),
)

digits_sum :
    (acc a m : ℕ) → 0 < m → (acc * 16 + a / m % 16) * m + a % m ≡ acc * (m * 16) + a % (m * 16)
digits_sum acc a m h = grind (arith, digits_split a m h)

read_digits-format_digits :
    (n a acc : ℕ) → read_digits 16 acc (format_digits n a) ≡ acc * 16 ^ n + a % 16 ^ n
unfolding read_digits format_digits
read_digits-format_digits zero a acc = omega arith
read_digits-format_digits (suc n) a acc =
    let value : digit_value (hex_digit (a / 16 ^ n % 16)) ≡ a / 16 ^ n % 16 =
      digit_value-hex_digit (a / 16 ^ n % 16) (omega arith) in
    let fits : ltb (digit_value (hex_digit (a / 16 ^ n % 16))) 16 ≡ true = ground (arith, value) in
    rw (fits, value)
      (read_digits-format_digits n a (acc * 16 + a / 16 ^ n % 16)
        ∙ digits_sum acc a (16 ^ n) (one-le-pow n 16 (omega arith))
        ∙ ap (λ (t : ℕ). acc * t + a % t) (sym (pow-suc 16 n)))

-- what is made of the digits' value
abbrev narrowed : ℕ → Option ℕ
narrowed v = elim (if ltb v (2 ^ 64) then some v else none) [ none ↦ none | some w ↦ some (u32 w) ]

pub parse_address-format_address : (a : ℕ) → IsU32 a → parse_address (format_address a) ≡ some a
unfolding parse_address format_address stoul read_prefixed digit_value
parse_address-format_address a small =
    let value : read_digits 16 0 (format_digits 8 a) ≡ a =
      read_digits-format_digits 8 a 0 ∙ omega (arith, small) in
    let fits : ltb a (2 ^ 64) ≡ true = ground (arith, small) in
    let cut : a % 2 ^ 32 ≡ a = omega (arith, small) in
    ap narrowed value
    ∙ ap (λ b. elim (if b then some a else none) [ none ↦ none | some w ↦ some (u32 w) ]) fits
    ∙ ap some cut
