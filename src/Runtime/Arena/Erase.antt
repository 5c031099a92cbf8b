-- ===== src/Runtime/Arena/Erase.antt =====
-- What `freeMmapSpace` leaves of the areas.
use Prim.Native.Nat.{ℕ, ◌-◌, ◌<◌}
use mathlib.Core.Path.{◌≡◌, subst}
use mathlib.Core.Logic.{◌⊎◌, inl, inr}
use mathlib.Core.Bool.{true, false}
use mathlib.Core.List.{List, [], ◌∷◌}
use mathlib.Core.Option.{none, some, some-injective}
use native.Mathlib.Omega.{arith}
use riscv_sbt.Base.{◌==◌, leb, Bool-cases, Option-cases}
use riscv_sbt.Runtime.Memory.{MappedArea}
use riscv_sbt.Runtime.Arena.{end_of, find_address, erase_area}
use riscv_sbt.Runtime.Arena.Page.{IsPage}
use riscv_sbt.Runtime.Arena.Placed.{
  Placed, area, placed_at, end_of-RoundsUp, Placed-from, find_address_gap, find_address-FreeAfter,
}

module _ (p : ℕ) (page : IsPage p) where
  erase_area-first :
      (x size : ℕ) (r : List MappedArea) → erase_area x size (area x size ∷ r) ≡ some r
  unfolding erase_area
  erase_area-first x size r = ground arith

  erase_area-skip :
      (x size : ℕ) (a : MappedArea) (r rest : List MappedArea)
      → a.base < x
      → erase_area x size r ≡ some rest
      → erase_area x size (a ∷ r) ≡ some (a ∷ rest)
  unfolding erase_area
  erase_area-skip x size a r rest h e =
      let other : (a.base == x) ≡ false = ground (arith, h) in rw (other, e)

  -- Removing the new area gives the old ones back.
  pub erase_area-placed_at :
      (size lo : ℕ) (a : MappedArea) (r : List MappedArea)
      → Placed p lo (a ∷ r)
      → erase_area (find_address p size (a ∷ r)) size (placed_at p page size a r) ≡ some (a ∷ r)
  erase_area-placed_at size lo a [] (low, whole, pos, hi, rest) =
      let (past, e_hi, near, e_whole) = end_of-RoundsUp p page a hi in
      let x = end_of p a in
      unfold find_address in
      erase_area-skip x size a (area x size ∷ []) [] (omega (arith, past))
        (erase_area-first x size [])
  erase_area-placed_at size lo a (b ∷ r) (low, whole, pos, hi, next) =
      let (b_low, b_whole, b_pos, b_hi, rest) = next in
      let (past, e_hi, near, e_whole) = end_of-RoundsUp p page a hi in
      let (b_past, b_end, b_near, b_rest) = end_of-RoundsUp p page b b_hi in
      elim (find_address_gap p page size a b r b_low (omega (arith, b_hi))) [
        | inl (fits, here) ↦
            let x = end_of p a in
            let enough : leb size (b.base - end_of p a) ≡ true = ground (arith, fits) in
            rw (here, enough)
              (erase_area-skip x size a (area x size ∷ b ∷ r) (b ∷ r) (omega (arith, past))
                (erase_area-first x size (b ∷ r)))
        | inr (full, there) ↦
            let short : leb size (b.base - end_of p a) ≡ false = ground (arith, full) in
            let (later, x_whole, x_hi, apart) =
              find_address-FreeAfter p page size (end_of p a) b r next in
            rw (there, short)
              (erase_area-skip (find_address p size (b ∷ r)) size a (placed_at p page size b r)
                (b ∷ r) (omega (arith, past, b_low, b_past, later))
                (erase_area-placed_at size (end_of p a) b r next))
      ]

  erase_area-cases :
      (x size : ℕ) (a : MappedArea) (r rest : List MappedArea)
      → erase_area x size (a ∷ r) ≡ some rest
      → (r ≡ rest)
        ⊎ ((left : List MappedArea) × (erase_area x size r ≡ some left) × (a ∷ left ≡ rest))
  unfolding erase_area
  erase_area-cases x size a r rest e = elim (Bool-cases (a.base == x)) [
    | inl here ↦ elim (Bool-cases (a.size == size)) [
      | inl whole ↦
          let found : some r ≡ some rest = rw (here, whole) at (e) in inl (some-injective _ _ found)
      | inr part ↦ let found : none ≡ some rest = rw (here, part) at (e) in cc
    ]
    | inr other ↦ elim (Option-cases (erase_area x size r)) [
      | inl gone ↦ let found : none ≡ some rest = rw (other, gone) at (e) in cc
      | inr (left, later) ↦
          let found : some (a ∷ left) ≡ some rest = rw (other, later) at (e) in
          inr (left, later, some-injective _ _ found)
    ]
  ]

  -- Removing any area keeps the invariant.
  pub erase_area-Placed :
      (x size lo : ℕ) (r rest : List MappedArea)
      → Placed p lo r
      → erase_area x size r ≡ some rest
      → Placed p lo rest
  erase_area-Placed x size lo [] rest v e = unfold erase_area in cc
  erase_area-Placed x size lo (a ∷ r) rest (low, whole, pos, hi, next) e =
      let (past, e_hi, near, e_whole) = end_of-RoundsUp p page a hi in
      elim (erase_area-cases x size a r rest e) [
        | inl same ↦
            subst (Placed p lo) same
              (Placed-from p page (end_of p a) lo r (omega (arith, low, past)) next)
        | inr (left, later, same) ↦
            subst (Placed p lo) same
              (low, whole, pos, hi, erase_area-Placed x size (end_of p a) r left next later)
      ]
