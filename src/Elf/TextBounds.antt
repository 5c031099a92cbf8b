-- ===== src/Elf/TextBounds.antt =====
-- What `computeTextBounds` computes: the span of the text sections, and no more than that.
use Prim.Native.Nat.{ℕ, ◌≤◌, min, max}
use mathlib.Core.Path.{◌≡◌, refl, sym, subst, ◌∙◌}
use mathlib.Core.Logic.{◌⊎◌, inl, inr}
use mathlib.Core.Bool.{true, false}
use mathlib.Core.List.{List, [], ◌∷◌}
use mathlib.Core.Option.{Option, none, some}
use native.Mathlib.Omega.{arith}
use riscv_sbt.Base.{leb, Bool-cases}
use riscv_sbt.Elf.{
  ElfBinarySection, text_section, is_type, resolve_section_type, get_end_address, bounds_from,
  compute_text_bounds,
}

abbrev pub IsText : ElfBinarySection → Type 0
IsText s = is_type (resolve_section_type s) text_section ≡ true

abbrev pub IsSection : ElfBinarySection → List ElfBinarySection → Type 0
IsSection s [] = ⊥
IsSection s (r ∷ rest) = (s ≡ r) ⊎ IsSection s rest

-- one step of the loop at a text section
grown : Option (ℕ × ℕ) → ElfBinarySection → ℕ × ℕ
grown none s = (s.start_address, get_end_address s)
grown (some (first, last)) s = (min first s.start_address, max last (get_end_address s))

bounds-text :
    (found : Option (ℕ × ℕ)) (s : ElfBinarySection) (rest : List ElfBinarySection)
    → IsText s
    → bounds_from found (s ∷ rest) ≡ bounds_from (some (grown found s)) rest
unfolding bounds_from grown
bounds-text none s rest text = rw (bounds_from, text) refl
bounds-text (some (first, last)) s rest text = rw (bounds_from, text) refl

bounds-other :
    (found : Option (ℕ × ℕ)) (s : ElfBinarySection) (rest : List ElfBinarySection)
    → is_type (resolve_section_type s) text_section ≡ false
    → bounds_from found (s ∷ rest) ≡ bounds_from found rest
unfolding bounds_from
bounds-other found s rest other = rw (bounds_from, other) refl

-- the bounds only grow
abbrev Within : ℕ × ℕ → ℕ × ℕ → Type 0
Within (a, b) (first, last) = (first ≤ a) × (b ≤ last)

grown-Within : (p : ℕ × ℕ) (s : ElfBinarySection) → Within p (grown (some p) s)
unfolding grown
grown-Within (a, b) s = (omega arith, omega arith)

grown-section :
    (found : Option (ℕ × ℕ)) (s : ElfBinarySection)
    → Within (s.start_address, get_end_address s) (grown found s)
unfolding grown
grown-section none s = (omega arith, omega arith)
grown-section (some (a, b)) s = (omega arith, omega arith)

bounds-kept :
    (p : ℕ × ℕ) (sections : List ElfBinarySection)
    → (q : ℕ × ℕ) × (bounds_from (some p) sections ≡ some q) × Within p q
unfolding bounds_from
bounds-kept p [] = (p, refl, (omega arith, omega arith))
bounds-kept p (s ∷ rest) = elim (Bool-cases (is_type (resolve_section_type s) text_section)) [
  | inl text ↦
      let (q, is, (lo, hi)) = bounds-kept (grown (some p) s) rest in
      let (first, last) = grown-Within p s in
      (
        q,
        bounds-text (some p) s rest text ∙ is,
        (omega (arith, lo, first), omega (arith, hi, last)),
      )
  | inr other ↦
      let (q, is, within) = bounds-kept p rest in
      (q, bounds-other (some p) s rest other ∙ is, within)
]

covered :
    (found : Option (ℕ × ℕ)) (s : ElfBinarySection) (sections : List ElfBinarySection)
    → IsSection s sections
    → IsText s
    → (q : ℕ × ℕ) × (bounds_from found sections ≡ some q)
      × Within (s.start_address, get_end_address s) q
covered found s [] h text = elim h [ ]
covered found s (r ∷ rest) (inl e) text =
    let same : IsText r = subst IsText e text in
    let (q, is, (lo, hi)) = bounds-kept (grown found s) rest in
    let (first, last) = grown-section found s in
    (
      q,
      subst (λ x. bounds_from found (x ∷ rest) ≡ some q) e (bounds-text found s rest text ∙ is),
      (omega (arith, lo, first), omega (arith, hi, last)),
    )
covered found s (r ∷ rest) (inr h) text =
    elim (Bool-cases (is_type (resolve_section_type r) text_section)) [
      | inl own ↦
          let (q, is, within) = covered (some (grown found r)) s rest h text in
          (q, bounds-text found r rest own ∙ is, within)
      | inr other ↦
          let (q, is, within) = covered found s rest h text in
          (q, bounds-other found r rest other ∙ is, within)
    ]

-- Some text section starts where the text does, and some text section ends where it ends.
abbrev pub IsAttained : List ElfBinarySection → ℕ × ℕ → Type 0
IsAttained all (first, last) =
    ((s : ElfBinarySection) × IsSection s all × IsText s × (s.start_address ≡ first))
    × ((s : ElfBinarySection) × IsSection s all × IsText s × (get_end_address s ≡ last))

abbrev IsAttainedIf : List ElfBinarySection → Option (ℕ × ℕ) → Type 0
IsAttainedIf all none = Unit
IsAttainedIf all (some p) = IsAttained all p

min-cases : (a b : ℕ) → (a ≡ min a b) ⊎ (b ≡ min a b)
min-cases a b = elim (Bool-cases (leb a b)) [
  | inl le ↦ inl (ground (arith, le))
  | inr gt ↦ inr (ground (arith, gt))
]

max-cases : (a b : ℕ) → (a ≡ max a b) ⊎ (b ≡ max a b)
max-cases a b = elim (Bool-cases (leb a b)) [
  | inl le ↦ inr (ground (arith, le))
  | inr gt ↦ inl (ground (arith, gt))
]

grown-IsAttained :
    (all : List ElfBinarySection) (found : Option (ℕ × ℕ)) (s : ElfBinarySection)
    → IsSection s all
    → IsText s
    → IsAttainedIf all found
    → IsAttained all (grown found s)
unfolding grown
grown-IsAttained all none s inside text h = ((s, inside, text, refl), (s, inside, text, refl))
grown-IsAttained all (some (first, last)) s inside text
      ((p, pin, ptext, pis), (q, qin, qtext, qis)) =
    (
      elim (min-cases first s.start_address) [
        | inl old ↦ (p, pin, ptext, pis ∙ old)
        | inr new ↦ (s, inside, text, new)
      ],
      elim (max-cases last (get_end_address s)) [
        | inl old ↦ (q, qin, qtext, qis ∙ old)
        | inr new ↦ (s, inside, text, new)
      ],
    )

bounds-IsAttained :
    (all : List ElfBinarySection) (found : Option (ℕ × ℕ)) (sections : List ElfBinarySection)
    → ((s : ElfBinarySection) → IsSection s sections → IsSection s all)
    → IsAttainedIf all found
    → IsAttainedIf all (bounds_from found sections)
bounds-IsAttained all found [] within h = unfold bounds_from in h
bounds-IsAttained all found (s ∷ rest) within h =
    elim (Bool-cases (is_type (resolve_section_type s) text_section)) [
      | inl text ↦ subst (IsAttainedIf all) (sym (bounds-text found s rest text)) (
          bounds-IsAttained all (some (grown found s)) rest (λ r k. within r (inr k))
            (grown-IsAttained all found s (within s (inl refl)) text h))
      | inr other ↦
          subst (IsAttainedIf all) (sym (bounds-other found s rest other))
            (bounds-IsAttained all found rest (λ r k. within r (inr k)) h)
    ]

-- Every text section lies within the bounds of the text, and the bounds are the start of some text
-- section and the end of some text section.
pub compute_text_bounds-span :
    (sections : List ElfBinarySection) (s : ElfBinarySection)
    → IsSection s sections
    → IsText s
    → ((compute_text_bounds sections).0 ≤ s.start_address)
      × (get_end_address s ≤ (compute_text_bounds sections).1)
      × IsAttained sections (compute_text_bounds sections)
unfolding compute_text_bounds
compute_text_bounds-span sections s inside text =
    let (q, is, (lo, hi)) = covered none s sections inside text in
    let attained : IsAttainedIf sections (bounds_from none sections) =
      bounds-IsAttained sections none sections (λ r k. k) tt in
    rw (compute_text_bounds, is) (lo, hi, subst (IsAttainedIf sections) is attained)
