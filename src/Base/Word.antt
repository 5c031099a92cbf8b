-- ===== src/Base/Word.antt =====
-- The fixed-width arithmetic of C++20 on bit patterns. A `uint32_t` and an `int32_t` are both the
-- pattern, a number below 2 ^ 32; a cast between them is no operation, and `signed32` reads a
-- pattern as the integer that an `int32_t` stands for. Shifts of a signed value are arithmetic
-- and conversions to a narrower type wrap, as C++20 defines them.
use Prim.Native.Nat.{ℕ, ◌+◌, ◌-◌, ◌*◌, ◌/◌, ◌%◌, ◌^◌, ◌<◌}
use mathlib.Core.Bool.{Bool, true, false}
use riscv_sbt.Base.Tests.{ltb, leb, if◌then◌else◌}
use riscv_sbt.Base.Int.{ℤ, pos, negsuc, ltb_ℤ}

abbrev pub u8 : ℕ → ℕ
u8 n = n % 2 ^ 8

abbrev pub u16 : ℕ → ℕ
u16 n = n % 2 ^ 16

abbrev pub u32 : ℕ → ℕ
u32 n = n % 2 ^ 32

abbrev pub u64 : ℕ → ℕ
u64 n = n % 2 ^ 64

abbrev pub IsU32 : ℕ → Type 0
IsU32 n = n < 2 ^ 32

infixl 72 ◌>>>◌ ◌<<<◌
-- `x >> k` of an unsigned value, and `x << k` before its result is cut to a width
abbrev pub ◌>>>◌ : ℕ → ℕ → ℕ
x >>> k = x / 2 ^ k

abbrev pub ◌<<<◌ : ℕ → ℕ → ℕ
x <<< k = x * 2 ^ k

infixl 65 ◌+w◌ ◌-w◌
unfoldable pub ◌+w◌ : ℕ → ℕ → ℕ
a +w b = (a + b) % 2 ^ 32

unfoldable pub ◌-w◌ : ℕ → ℕ → ℕ
a -w b = (a + 2 ^ 32 - b) % 2 ^ 32

unfoldable pub shl32 : ℕ → ℕ → ℕ
shl32 x k = u32 (x <<< k)

abbrev pub is_negative : ℕ → Bool
is_negative w = leb (2 ^ 31) w

-- `x >> k` of an `int32_t`
unfoldable pub sar32 : ℕ → ℕ → ℕ
sar32 w k = if is_negative w then 2 ^ 32 - 1 - ((2 ^ 32 - 1 - w) >>> k) else w >>> k

abbrev pub signed32 : ℕ → ℤ
signed32 w = if ltb w (2 ^ 31) then pos w else negsuc (2 ^ 32 - w - 1)

-- `static_cast<int32_t>(a) < static_cast<int32_t>(b)`
unfoldable pub slt32 : ℕ → ℕ → Bool
slt32 a b = ltb_ℤ (signed32 a) (signed32 b)

-- a test stored into a register
abbrev pub of_bool : Bool → ℕ
of_bool true = 1
of_bool false = 0

-- widening of an `int8_t` and of an `int16_t` to an `int32_t`, and of that to an `int64_t`
unfoldable pub sext8 : ℕ → ℕ
sext8 b = if ltb b (2 ^ 7) then b else b + (2 ^ 32 - 2 ^ 8)

unfoldable pub sext16 : ℕ → ℕ
sext16 h = if ltb h (2 ^ 15) then h else h + (2 ^ 32 - 2 ^ 16)

unfoldable pub sext64 : ℕ → ℕ
sext64 w = if is_negative w then w + (2 ^ 64 - 2 ^ 32) else w

-- `x >> k` of an `int64_t`
unfoldable pub sar64 : ℕ → ℕ → ℕ
sar64 x k = if leb (2 ^ 63) x then 2 ^ 64 - 1 - ((2 ^ 64 - 1 - x) >>> k) else x >>> k

unfoldable pub neg32 : ℕ → ℕ
neg32 w = (2 ^ 32 - w) % 2 ^ 32

unfoldable pub magnitude : ℕ → ℕ
magnitude w = if is_negative w then 2 ^ 32 - w else w

-- `/` and `%` of two `int32_t`: the quotient is cut towards zero, and the remainder has the sign of
-- the dividend. Undefined at a zero divisor and at -2 ^ 31 / -1, where the callers do not use them.
unfoldable pub sdiv32 : ℕ → ℕ → ℕ
unfolding magnitude neg32
sdiv32 a b =
    let q = magnitude a / magnitude b in
    if is_negative a
    then (if is_negative b then q else neg32 q)
    else (if is_negative b then neg32 q else q)

unfoldable pub srem32 : ℕ → ℕ → ℕ
unfolding magnitude neg32
srem32 a b = let r = magnitude a % magnitude b in if is_negative a then neg32 r else r
