-- ===== src/Runtime/Auxiliary/Sizes.antt =====
-- The sizes that `loadAux` computes, the strings that it keeps, and where the stack begins.
use Prim.Native.Nat.{ℕ, ◌+◌, ◌*◌, ◌%◌, ◌≤◌}
use mathlib.Core.Path.{◌≡◌, refl}
use mathlib.Core.Logic.{inl, inr}
use mathlib.Core.Bool.{Bool, true, false}
use mathlib.Core.List.{List, [], ◌∷◌}
use native.Mathlib.Omega.{arith}
use riscv_sbt.Base.{length, ◌==◌, Bool-cases, if◌then◌else◌}
use riscv_sbt.Base.Word.{◌+w◌, ◌-w◌}
use riscv_sbt.Runtime.Memory.{data_size}
use riscv_sbt.Runtime.Auxiliary.{
  at_null, ptr_string_size, get_aux_value, kept_from, strings_size, initial_sp_of,
}
use riscv_sbt.Runtime.Auxiliary.Strings.{total}
use riscv_sbt.Runtime.Auxiliary.Stack.{second}

pub strings_size-total : (l : List (List ℕ)) → total l ≤ data_size → strings_size l ≡ total l
unfolding strings_size ptr_string_size ◌+w◌
strings_size-total [] small = refl
strings_size-total (s ∷ rest) small = omega (arith, strings_size-total rest (omega (arith, small)))

pub get_aux_value-null : (auxv : List (ℕ × ℕ)) → get_aux_value auxv at_null ≡ 0
unfolding get_aux_value
get_aux_value-null [] = refl
get_aux_value-null ((t, v) ∷ rest) = elim (Bool-cases (t == 0)) [
  | inl ends ↦ rw ends refl
  | inr more ↦ rw more (get_aux_value-null rest)
]

pub kept_all : (skip : Bool) (i : ℕ) (l : List (List ℕ)) → 2 ≤ i → kept_from skip i l ≡ l
unfolding kept_from
kept_all skip i [] past = refl
kept_all skip i (s ∷ rest) past =
    let later : (i == 1) ≡ false = ground (arith, past) in
    rw (later, kept_all skip (i + 1) rest (omega (arith, past))) refl

kept_every : (i : ℕ) (l : List (List ℕ)) → kept_from false i l ≡ l
unfolding kept_from
kept_every i [] = refl
kept_every i (s ∷ rest) = elim (Bool-cases (i == 1)) [
  | inl second ↦ rw (second, kept_every (i + 1) rest) refl
  | inr other ↦ rw (other, kept_every (i + 1) rest) refl
]

pub kept_from-length :
    (skip : Bool) (l : List (List ℕ))
    → (skip ≡ true → 2 ≤ length l)
    → length l ≡ length (kept_from skip 0 l) + (if skip then 1 else 0)
unfolding kept_from
kept_from-length false l two = rw (kept_every 0 l) (omega arith)
kept_from-length true [] two = absurd (omega (arith, two refl))
kept_from-length true (s ∷ []) two = absurd (omega (arith, two refl))
kept_from-length true (s ∷ t ∷ rest) two = rw (kept_all true 2 rest (omega arith)) (omega arith)

-- the bytes that the strings and the pointers need
abbrev pub needs : List (List ℕ) → List (List ℕ) → ℕ
needs args envp = 28 + 4 * length args + 4 * length envp + total args + total envp

pub initial_sp_of-facts :
    (a b : ℕ)
    → a + b + 1 ≤ data_size
    → (initial_sp_of a b % 2 ≡ 0)
      × (initial_sp_of a b + a + b ≤ data_size)
      × (data_size ≤ initial_sp_of a b + a + b + 1)
unfolding initial_sp_of ◌-w◌
initial_sp_of-facts a b h = (omega (arith, h), omega (arith, h), omega (arith, h))
