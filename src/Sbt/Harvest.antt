-- ===== src/Sbt/Harvest.antt =====
-- `harvestStaticData` adds the words of data that are addresses of the text, and nothing else.
use Prim.Native.Nat.{ℕ, ◌≤◌, ◌<◌}
use mathlib.Core.Path.{◌≡◌, refl, sym, subst}
use mathlib.Core.Logic.{◌≢◌, ◌⊎◌, ◌↔◌, inl, inr}
use mathlib.Core.Bool.{true, false, ◌&&◌}
use mathlib.Core.List.{List, [], ◌∷◌}
use native.Mathlib.Omega.{arith}
use riscv_sbt.Base.{ltb, leb, Bool-cases}
use riscv_sbt.Elf.{
  ElfBinarySection, SectionType, text_section, data_section, other_section, is_type,
  resolve_section_type, get_type_sections, compute_text_bounds,
}
use riscv_sbt.Sbt.Blocks.{IsLeader, harvest_section, harvest_sections, harvest_static_data}

-- some section holds the word
abbrev pub IsWord : ℕ → List ElfBinarySection → Type 0
IsWord x [] = ⊥
IsWord x (s ∷ rest) = IsLeader x s.words ⊎ IsWord x rest

module _ (text_start text_end : ℕ) where
  abbrev pub InText : ℕ → Type 0
  InText x = (text_start ≤ x) × (x < text_end)

  section_kept :
      (x : ℕ) (words leaders : List ℕ)
      → IsLeader x (harvest_section text_start text_end words leaders)
      → IsLeader x leaders ⊎ (InText x × IsLeader x words)
  unfolding harvest_section
  section_kept x [] leaders h = inl h
  section_kept x (a ∷ words) leaders h = elim (Bool-cases (leb text_start a && ltb a text_end)) [
    | inl inside ↦
        let more : IsLeader x (harvest_section text_start text_end words (a ∷ leaders)) =
          rw inside at (h) in
        elim (section_kept x words (a ∷ leaders) more) [
          | inl (inl e) ↦
              inr (subst InText (sym e) (ground (arith, inside), ground (arith, inside)), inl e)
          | inl (inr old) ↦ inl old
          | inr (t, new) ↦ inr (t, inr new)
        ]
    | inr outside ↦
        let more : IsLeader x (harvest_section text_start text_end words leaders) =
          rw outside at (h) in
        elim (section_kept x words leaders more) [
          | inl old ↦ inl old
          | inr (t, new) ↦ inr (t, inr new)
        ]
  ]

  section_old :
      (x : ℕ) (words leaders : List ℕ)
      → IsLeader x leaders
      → IsLeader x (harvest_section text_start text_end words leaders)
  unfolding harvest_section
  section_old x [] leaders h = h
  section_old x (a ∷ words) leaders h = elim (Bool-cases (leb text_start a && ltb a text_end)) [
    | inl inside ↦ rw inside (section_old x words (a ∷ leaders) (inr h))
    | inr outside ↦ rw outside (section_old x words leaders h)
  ]

  section_new :
      (x : ℕ) (words leaders : List ℕ)
      → InText x
      → IsLeader x words
      → IsLeader x (harvest_section text_start text_end words leaders)
  unfolding harvest_section
  section_new x [] leaders t h = elim h [ ]
  section_new x (a ∷ words) leaders (lo, hi) (inl e) =
      let here : (leb text_start a && ltb a text_end) ≡ true =
        subst (λ y. (leb text_start y && ltb y text_end) ≡ true) e (ground (arith, lo, hi)) in
      rw here (section_old x words (a ∷ leaders) (inl e))
  section_new x (a ∷ words) leaders t (inr h) =
      elim (Bool-cases (leb text_start a && ltb a text_end)) [
        | inl inside ↦ rw inside (section_new x words (a ∷ leaders) t h)
        | inr outside ↦ rw outside (section_new x words leaders t h)
      ]

  harvested :
      (x : ℕ) (sections : List ElfBinarySection) (leaders : List ℕ)
      → IsLeader x (harvest_sections text_start text_end sections leaders)
      → IsLeader x leaders ⊎ (InText x × IsWord x sections)
  unfolding harvest_sections
  harvested x [] leaders h = inl h
  harvested x (s ∷ rest) leaders h =
      elim (harvested x rest (harvest_section text_start text_end s.words leaders) h) [
        | inl before ↦ elim (section_kept x s.words leaders before) [
          | inl old ↦ inl old
          | inr (t, new) ↦ inr (t, inl new)
        ]
        | inr (t, later) ↦ inr (t, inr later)
      ]

  harvest_old :
      (x : ℕ) (sections : List ElfBinarySection) (leaders : List ℕ)
      → IsLeader x leaders
      → IsLeader x (harvest_sections text_start text_end sections leaders)
  unfolding harvest_sections
  harvest_old x [] leaders h = h
  harvest_old x (s ∷ rest) leaders h =
      harvest_old x rest (harvest_section text_start text_end s.words leaders)
        (section_old x s.words leaders h)

  harvest_new :
      (x : ℕ) (sections : List ElfBinarySection) (leaders : List ℕ)
      → InText x
      → IsWord x sections
      → IsLeader x (harvest_sections text_start text_end sections leaders)
  unfolding harvest_sections
  harvest_new x [] leaders t h = elim h [ ]
  harvest_new x (s ∷ rest) leaders t (inl new) =
      harvest_old x rest (harvest_section text_start text_end s.words leaders)
        (section_new x s.words leaders t new)
  harvest_new x (s ∷ rest) leaders t (inr later) =
      harvest_new x rest (harvest_section text_start text_end s.words leaders) t later

  sections_iff :
      (x : ℕ) (sections : List ElfBinarySection) (leaders : List ℕ)
      → IsLeader x (harvest_sections text_start text_end sections leaders)
        ↔ (IsLeader x leaders ⊎ (InText x × IsWord x sections))
  sections_iff x sections leaders = (
    harvested x sections leaders,
    λ h. elim h [
      | inl old ↦ harvest_old x sections leaders old
      | inr (t, new) ↦ harvest_new x sections leaders t new
    ],
  )

-- some section of data holds the word
abbrev pub IsDataWord : ℕ → List ElfBinarySection → Type 0
IsDataWord x [] = ⊥
IsDataWord x (s ∷ rest) =
    ((resolve_section_type s ≡ data_section) × IsLeader x s.words) ⊎ IsDataWord x rest

data-cases :
    (t : SectionType)
    → ((t ≡ data_section) × (is_type t data_section ≡ true))
      ⊎ ((t ≢ data_section) × (is_type t data_section ≡ false))
data-cases text_section = inr (λ e. cc, refl)
data-cases data_section = inl (refl, refl)
data-cases other_section = inr (λ e. cc, refl)

data_words :
    (x : ℕ) (sections : List ElfBinarySection)
    → IsWord x (get_type_sections data_section sections) ↔ IsDataWord x sections
unfolding get_type_sections
data_words x [] = (λ h. h, λ h. h)
data_words x (s ∷ rest) =
    let (here, back) = data_words x rest in
    elim (data-cases (resolve_section_type s)) [
      | inl (is, kept) ↦ rw kept (
        λ h. elim h [ inl own ↦ inl (is, own) | inr later ↦ inr (here later) ],
        λ h. elim h [ inl (same, own) ↦ inl own | inr later ↦ inr (back later) ],
      )
      | inr (other, left) ↦ rw left (
        λ h. inr (here h),
        λ h. elim h [ inl (same, own) ↦ absurd (other same) | inr later ↦ back later ],
      )
    ]

-- `harvestStaticData` leaves exactly the leaders that there were and the words of the data sections
-- that are addresses of the text.
pub harvest_static_data_iff :
    (x : ℕ) (sections : List ElfBinarySection) (leaders : List ℕ)
    → IsLeader x (harvest_static_data sections leaders) ↔ (
        IsLeader x leaders
        ⊎ (InText (compute_text_bounds sections).0 (compute_text_bounds sections).1 x
            × IsDataWord x sections))
unfolding harvest_static_data
harvest_static_data_iff x sections leaders =
    let (first, last) = compute_text_bounds sections in
    let (forth, back) =
      sections_iff first last x (get_type_sections data_section sections) leaders in
    let (known, known_back) = data_words x sections in
    (
      λ h. elim (forth h) [ inl old ↦ inl old | inr (t, new) ↦ inr (t, known new) ],
      λ h. back (elim h [ inl old ↦ inl old | inr (t, new) ↦ inr (t, known_back new) ]),
    )
