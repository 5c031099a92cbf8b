-- ===== src/Interpreter/Agree/Split.antt =====
-- Case splits on the fields of a word, which keep the equation.
use Prim.Native.Nat.{ℕ, zero, suc, ◌<◌}
use mathlib.Core.Path.{◌≡◌, refl}
use native.Mathlib.Omega.{arith}
use mathlib.Core.Bool.{Bool, true, false}
use mathlib.Core.Logic.{inl, inr}
use riscv_sbt.Base.{◌==◌, ==→eq, Bool-cases}
use riscv_sbt.Decoder.Fields.{get_funct3}
use riscv_sbt.Decoder.FieldLaws.{get_funct3_lem}

below_eight {ℓ} :
    (P : ℕ → Type ℓ) → P 0 → P 1 → P 2 → P 3 → P 4 → P 5 → P 6 → P 7 → (n : ℕ) → n < 8 → P n
below_eight P p0 p1 p2 p3 p4 p5 p6 p7 zero h = p0
below_eight P p0 p1 p2 p3 p4 p5 p6 p7 (suc zero) h = p1
below_eight P p0 p1 p2 p3 p4 p5 p6 p7 (suc (suc zero)) h = p2
below_eight P p0 p1 p2 p3 p4 p5 p6 p7 (suc (suc (suc zero))) h = p3
below_eight P p0 p1 p2 p3 p4 p5 p6 p7 (suc (suc (suc (suc zero)))) h = p4
below_eight P p0 p1 p2 p3 p4 p5 p6 p7 (suc (suc (suc (suc (suc zero))))) h = p5
below_eight P p0 p1 p2 p3 p4 p5 p6 p7 (suc (suc (suc (suc (suc (suc zero)))))) h = p6
below_eight P p0 p1 p2 p3 p4 p5 p6 p7 (suc (suc (suc (suc (suc (suc (suc zero))))))) h = p7
below_eight P p0 p1 p2 p3 p4 p5 p6 p7 (suc (suc (suc (suc (suc (suc (suc (suc n)))))))) h =
    absurd (omega arith)

pub split_funct3 {ℓ} :
    (w : ℕ) {G : Type ℓ}
    → (get_funct3 w ≡ 0 → G)
    → (get_funct3 w ≡ 1 → G)
    → (get_funct3 w ≡ 2 → G)
    → (get_funct3 w ≡ 3 → G)
    → (get_funct3 w ≡ 4 → G)
    → (get_funct3 w ≡ 5 → G)
    → (get_funct3 w ≡ 6 → G)
    → (get_funct3 w ≡ 7 → G)
    → G
split_funct3 w {G} g0 g1 g2 g3 g4 g5 g6 g7 =
    below_eight (λ n. get_funct3 w ≡ n → G) g0 g1 g2 g3 g4 g5 g6 g7 (get_funct3 w)
      (omega (arith, get_funct3_lem w)) refl

-- on whether a number is the one that the code tests it for
pub by_value {ℓ} : (n k : ℕ) {G : Type ℓ} → (n ≡ k → G) → ((n == k) ≡ false → G) → G
by_value n k same other = elim (Bool-cases (n == k)) [
  | inl e ↦ same (==→eq n k e)
  | inr e ↦ other e
]

pub by_test {ℓ} : (b : Bool) {G : Type ℓ} → (b ≡ true → G) → (b ≡ false → G) → G
by_test b yes_case no_case = elim (Bool-cases b) [ inl e ↦ yes_case e | inr e ↦ no_case e ]
