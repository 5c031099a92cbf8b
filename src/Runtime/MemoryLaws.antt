-- ===== src/Runtime/MemoryLaws.antt =====
-- What a typed write leaves for a typed read: the value cut to the type at the same address, and
-- every other byte as it was.
use Prim.Native.Nat.{ℕ, zero, suc, ◌+◌, ◌*◌, ◌/◌, ◌%◌, ◌^◌, ◌≤◌, ◌<◌}
use mathlib.Core.Path.{◌≡◌, refl, ap}
use mathlib.Core.Logic.{◌⊎◌, inl}
use native.Mathlib.Omega.{arith}
use native.Mathlib.Nat.{pow-suc, one-le-pow}
use riscv_sbt.Base.Outcome.{ok}
use riscv_sbt.Runtime.Memory.{Memory, update, load_bytes, store_bytes, read, write}

abbrev pub IsBytes : (ℕ → ℕ) → Type 0
IsBytes f = (a : ℕ) → f a < 256

-- A store changes only the bytes of its range.
pub store_bytes-outside :
    (f : ℕ → ℕ) (p n v j : ℕ) → (j < p) ⊎ (p + n ≤ j) → store_bytes f p n v j ≡ f j
unfolding store_bytes
store_bytes-outside f p zero v j h = refl
store_bytes-outside f p (suc n) v j h =
    ground (arith, store_bytes-outside (update f p (v % 256)) (p + 1) n (v / 256) j)

pub load_bytes_congr :
    (f g : ℕ → ℕ) (p n : ℕ)
    → ((j : ℕ) → p ≤ j → j < p + n → f j ≡ g j)
    → load_bytes f p n ≡ load_bytes g p n
unfolding load_bytes
load_bytes_congr f g p zero h = refl
load_bytes_congr f g p (suc n) h = omega (
  arith,
  h p (omega arith) (omega arith),
  load_bytes_congr f g (p + 1) n (λ j lo hi. h j (omega arith) (omega arith)),
)

byte_split : (v m : ℕ) → 0 < m → v % 256 + 256 * (v / 256 % m) ≡ v % (m * 256)
byte_split v m h = grind arith

pub load-store_bytes : (f : ℕ → ℕ) (p n v : ℕ) → load_bytes (store_bytes f p n v) p n ≡ v % 256 ^ n
unfolding load_bytes store_bytes
load-store_bytes f p zero v = omega arith
load-store_bytes f p (suc n) v = ground (
  arith,
  ap (λ (t : ℕ). v % t) (pow-suc 256 n),
  store_bytes-outside (update f p (v % 256)) (p + 1) n (v / 256) p (inl (omega arith)),
  load-store_bytes (update f p (v % 256)) (p + 1) n (v / 256),
  byte_split v (256 ^ n) (one-le-pow n 256 (omega arith)),
)

pub store_bytes-IsBytes : (f : ℕ → ℕ) (p n v : ℕ) → IsBytes f → IsBytes (store_bytes f p n v)
unfolding store_bytes
store_bytes-IsBytes f p zero v h = h
store_bytes-IsBytes f p (suc n) v h =
    store_bytes-IsBytes (update f p (v % 256)) (p + 1) n (v / 256) (λ a. ground (arith, h a))

pub load_bytes-lt : (f : ℕ → ℕ) (p n : ℕ) → IsBytes f → load_bytes f p n < 256 ^ n
unfolding load_bytes
load_bytes-lt f p zero h = omega arith
load_bytes-lt f p (suc n) h = omega (arith, pow-suc 256 n, h p, load_bytes-lt f (p + 1) n h)

module _ (n : ℕ) (m : Memory) (p v : ℕ) {m' : Memory} (wrote : write n m p v ≡ ok m') where
  -- A typed read where a typed write has gone through returns what was written, cut to the type.
  pub read-write : read n m' p ≡ ok (v % 256 ^ n)
  unfolding read write
  read-write = ground (arith, load-store_bytes m.bytes p n v)

  -- A typed read of any width whose range the write does not touch returns what it did before.
  pub read-write_apart : (k q : ℕ) → (q + k ≤ p) ⊎ (p + n ≤ q) → read k m' q ≡ read k m q
  unfolding read write
  read-write_apart k q apart = ground (
    arith,
    load_bytes_congr (store_bytes m.bytes p n v) m.bytes q k
        (λ j lo hi. store_bytes-outside m.bytes p n v j (ground arith)),
  )

  -- Where a typed write has gone through, a typed read of the same width and address returns what was
  -- written, cut to the type, and one of any width whose range the write does not touch returns what
  -- it did before.
  pub reads-write :
      (read n m' p ≡ ok (v % 256 ^ n))
      × ((k q : ℕ) → (q + k ≤ p) ⊎ (p + n ≤ q) → read k m' q ≡ read k m q)
  reads-write = (read-write, read-write_apart)
