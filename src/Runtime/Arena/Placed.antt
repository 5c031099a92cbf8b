-- ===== src/Runtime/Arena/Placed.antt =====
-- The invariant of the areas for `mmap`, and where `getMmapAddress` and the sort put a new one.
use Prim.Native.Nat.{ℕ, ◌+◌, ◌-◌, ◌%◌, ◌^◌, ◌≤◌, ◌<◌}
use mathlib.Core.Path.{◌≡◌, refl, sym, subst}
use mathlib.Core.Logic.{◌⊎◌, inl, inr}
use mathlib.Core.Bool.{true, false}
use mathlib.Core.List.{List, [], ◌∷◌, ◌++◌}
use native.Mathlib.Omega.{arith}
use riscv_sbt.Base.{ltb, leb, Bool-cases, if◌then◌else◌}
use riscv_sbt.Base.Word.{◌+w◌, ◌-w◌}
use riscv_sbt.Runtime.Memory.{MappedArea}
use riscv_sbt.Runtime.Arena.{end_of, find_address, insert, sort, page_align}
use riscv_sbt.Runtime.Arena.Page.{IsPage, RoundsUp, page_align-RoundsUp, RoundsUp-least}

-- From `lo` on, the areas stand in their order, on pages of their own, and end in the arena.
abbrev pub Placed : ℕ → ℕ → List MappedArea → Type 0
Placed p lo [] = Unit
Placed p lo (a ∷ rest) =
    (lo ≤ a.base)
    × (a.base % p ≡ 0)
    × (0 < a.size)
    × (a.base + a.size ≤ 2 ^ 20)
    × Placed p (end_of p a) rest

-- `size` bytes at `address` share no byte with any of the areas.
abbrev pub Apart : ℕ → ℕ → List MappedArea → Type 0
Apart address size [] = Unit
Apart address size (a ∷ rest) =
    ((address + size ≤ a.base) ⊎ (a.base + a.size ≤ address)) × Apart address size rest

abbrev pub area : ℕ → ℕ → MappedArea
area address size = record { base = address; size = size }

module _ (p : ℕ) (page : IsPage p) where
  pub end_of-RoundsUp :
      (a : MappedArea) → a.base + a.size ≤ 2 ^ 20 → RoundsUp p (a.base + a.size) (end_of p a)
  unfolding end_of ◌+w◌
  end_of-RoundsUp a h =
      let sum : (a.base + a.size) % 2 ^ 32 ≡ a.base + a.size = omega arith in
      let (lo, hi, near, whole) = page_align-RoundsUp p (a.base + a.size) page h in
      let same : page_align p (a.base + a.size) % 2 ^ 32 ≡ page_align p (a.base + a.size) =
        omega (arith, hi) in
      rw (sum, same) (lo, hi, near, whole)

  pub Placed-from : (lo lo' : ℕ) (r : List MappedArea) → lo' ≤ lo → Placed p lo r → Placed p lo' r
  Placed-from lo lo' [] h v = tt
  Placed-from lo lo' (a ∷ r) h (low, whole, pos, hi, rest) =
      (omega (arith, low), whole, pos, hi, rest)

  above-Apart :
      (x size lo : ℕ) (r : List MappedArea) → x + size ≤ lo → Placed p lo r → Apart x size r
  above-Apart x size lo [] h v = tt
  above-Apart x size lo (a ∷ r) h (low, whole, pos, hi, rest) =
      let (past, e_hi, near, e_whole) = end_of-RoundsUp a hi in
      (inl (omega (arith, low)), above-Apart x size (end_of p a) r (omega (arith, low, past)) rest)

  -- The loop stops at the first gap that is large enough.
  pub find_address_gap :
      (size : ℕ) (a b : MappedArea) (r : List MappedArea)
      → end_of p a ≤ b.base
      → b.base < 2 ^ 32
      → ((size ≤ b.base - end_of p a) × (find_address p size (a ∷ b ∷ r) ≡ end_of p a))
        ⊎ ((b.base - end_of p a < size)
            × (find_address p size (a ∷ b ∷ r) ≡ find_address p size (b ∷ r)))
  unfolding find_address ◌-w◌
  find_address_gap size a b r low hi =
      let gap : (b.base + 2 ^ 32 - end_of p a) % 2 ^ 32 ≡ b.base - end_of p a = omega arith in
      elim (Bool-cases (leb size (b.base - end_of p a))) [
        | inl fits ↦ inl (ground arith, rw (gap, fits))
        | inr full ↦ inr (ground arith, rw (gap, full))
      ]

  abbrev pub FreeAfter : ℕ → ℕ → MappedArea → List MappedArea → Type 0
  FreeAfter size x a r = (end_of p a ≤ x) × (x % p ≡ 0) × (x ≤ 2 ^ 20) × Apart x size (a ∷ r)

  -- The address found is at or above the first area's end, and free.
  pub find_address-FreeAfter :
      (size lo : ℕ) (a : MappedArea) (r : List MappedArea)
      → Placed p lo (a ∷ r)
      → FreeAfter size (find_address p size (a ∷ r)) a r
  find_address-FreeAfter size lo a [] (low, whole, pos, hi, rest) =
      let (past, e_hi, near, e_whole) = end_of-RoundsUp a hi in
      unfold find_address in (omega arith, e_whole, e_hi, (inr past, tt))
  find_address-FreeAfter size lo a (b ∷ r)
        (low, whole, pos, hi, (b_low, b_whole, b_pos, b_hi, rest)) =
      let (past, e_hi, near, e_whole) = end_of-RoundsUp a hi in
      let (b_past, b_end, b_near, b_rest) = end_of-RoundsUp b b_hi in
      let (later, x_whole, x_hi, apart) =
        find_address-FreeAfter size (end_of p a) b r (b_low, b_whole, b_pos, b_hi, rest) in
      elim (find_address_gap size a b r b_low (omega (arith, b_hi))) [
        | inl (fits, here) ↦
            subst (λ x. FreeAfter size x a (b ∷ r)) (sym here)
              (
                omega arith,
                e_whole,
                e_hi,
                (
                  inr past,
                  (
                    inl (omega (arith, fits, b_low)),
                    above-Apart (end_of p a) size (end_of p b) r
                        (omega (arith, fits, b_low, b_past)) rest,
                  ),
                ),
              )
        | inr (full, there) ↦
            subst (λ x. FreeAfter size x a (b ∷ r)) (sym there)
              (
                omega (arith, later, b_past, b_low),
                x_whole,
                x_hi,
                (inr (omega (arith, later, past, b_past, b_low)), apart),
              )
      ]

  -- where the new area stands after the sort
  abbrev pub placed_at : ℕ → MappedArea → List MappedArea → List MappedArea
  placed_at size a [] = a ∷ area (end_of p a) size ∷ []
  placed_at size a (b ∷ r) =
      let later = placed_at size b r in
      if leb size (b.base - end_of p a) then a ∷ area (end_of p a) size ∷ b ∷ r else a ∷ later

  insert-first :
      (a : MappedArea) (lo : ℕ) (r : List MappedArea)
      → a.base < lo
      → Placed p lo r
      → insert a r ≡ a ∷ r
  unfolding insert
  insert-first a lo [] h v = refl
  insert-first a lo (b ∷ r) h (low, whole, pos, hi, rest) = ground arith

  sort-below :
      (x : MappedArea) (lo : ℕ) (r : List MappedArea)
      → x.base < lo
      → Placed p lo r
      → sort (r ++ (x ∷ [])) ≡ x ∷ r
  unfolding sort insert
  sort-below x lo [] h v = refl
  sort-below x lo (b ∷ r) h (low, whole, pos, hi, rest) =
      let (past, b_end, b_near, b_rest) = end_of-RoundsUp b hi in
      let after : sort (r ++ (x ∷ [])) ≡ x ∷ r =
        sort-below x (end_of p b) r (omega (arith, low, past)) rest in
      let below : ltb x.base b.base ≡ true = ground (arith, low) in
      rw (after, below, insert-first b (end_of p b) r (omega (arith, past, pos)) rest)

  insert-le :
      (a b : MappedArea) (r : List MappedArea) → a.base ≤ b.base → insert a (b ∷ r) ≡ a ∷ b ∷ r
  unfolding insert
  insert-le a b r h = ground arith

  insert-placed_at :
      (size : ℕ) (a b : MappedArea) (r : List MappedArea)
      → a.base ≤ b.base
      → insert a (placed_at size b r) ≡ a ∷ placed_at size b r
  insert-placed_at size a b [] h = insert-le a b _ h
  insert-placed_at size a b (c ∷ r) h = elim (Bool-cases (leb size (c.base - end_of p b))) [
    | inl fits ↦ rw fits (insert-le a b _ h)
    | inr full ↦ rw full (insert-le a b _ h)
  ]

  sort-cons : (a : MappedArea) (r : List MappedArea) → sort (a ∷ r) ≡ insert a (sort r)
  unfolding sort
  sort-cons a r = refl

  pub sort-placed_at :
      (size lo : ℕ) (a : MappedArea) (r : List MappedArea)
      → 0 < size
      → Placed p lo (a ∷ r)
      → sort ((a ∷ r) ++ (area (find_address p size (a ∷ r)) size ∷ [])) ≡ placed_at size a r
  sort-placed_at size lo a [] positive (low, whole, pos, hi, rest) =
      let (past, e_hi, near, e_whole) = end_of-RoundsUp a hi in
      unfold find_address sort insert in ground arith
  sort-placed_at size lo a (b ∷ r) positive (low, whole, pos, hi, next) =
      let (b_low, b_whole, b_pos, b_hi, rest) = next in
      let (past, e_hi, near, e_whole) = end_of-RoundsUp a hi in
      elim (find_address_gap size a b r b_low (omega (arith, b_hi))) [
        | inl (fits, here) ↦
            let new = area (end_of p a) size in
            let after : sort ((b ∷ r) ++ (new ∷ [])) ≡ new ∷ b ∷ r =
              sort-below new b.base (b ∷ r) (omega (arith, fits))
                (omega arith, b_whole, b_pos, b_hi, rest) in
            let enough : leb size (b.base - end_of p a) ≡ true = ground (arith, fits) in
            rw (here, sort-cons a _, after, enough) (insert-le a new (b ∷ r) (omega (arith, past)))
        | inr (full, there) ↦
            let after = sort-placed_at size (end_of p a) b r positive next in
            let short : leb size (b.base - end_of p a) ≡ false = ground (arith, full) in
            rw (there, sort-cons a _, after, short)
              (insert-placed_at size a b r (omega (arith, past, b_low)))
      ]

  -- The invariant holds of the areas with the new one among them.
  pub placed_at-Placed :
      (size lo : ℕ) (a : MappedArea) (r : List MappedArea)
      → 0 < size
      → Placed p lo (a ∷ r)
      → find_address p size (a ∷ r) + size ≤ 2 ^ 20
      → Placed p lo (placed_at size a r)
  placed_at-Placed size lo a [] positive (low, whole, pos, hi, rest) room =
      let (past, e_hi, near, e_whole) = end_of-RoundsUp a hi in
      unfold find_address in (low, whole, pos, hi, (omega arith, e_whole, positive, room, tt))
  placed_at-Placed size lo a (b ∷ r) positive (low, whole, pos, hi, next) room =
      let (b_low, b_whole, b_pos, b_hi, rest) = next in
      let (past, e_hi, near, e_whole) = end_of-RoundsUp a hi in
      elim (find_address_gap size a b r b_low (omega (arith, b_hi))) [
        | inl (fits, here) ↦
            let new = area (end_of p a) size in
            let enough : leb size (b.base - end_of p a) ≡ true = ground (arith, fits) in
            let (n_past, n_hi, n_near, n_whole) = end_of-RoundsUp new (omega (arith, fits, b_hi)) in
            let below : end_of p new ≤ b.base =
              RoundsUp-least p (end_of p a + size) (end_of p new) b.base
                (n_past, n_hi, n_near, n_whole) (omega (arith, fits, b_low)) b_whole in
            rw enough (
              low,
              whole,
              pos,
              hi,
              (
                omega arith,
                e_whole,
                positive,
                omega (arith, fits, b_hi, b_low),
                (below, b_whole, b_pos, b_hi, rest),
              ),
            )
        | inr (full, there) ↦
            let short : leb size (b.base - end_of p a) ≡ false = ground (arith, full) in
            rw short (
              low,
              whole,
              pos,
              hi,
              placed_at-Placed size (end_of p a) b r positive next
                  (subst (λ x. x + size ≤ 2 ^ 20) there room),
            )
      ]
