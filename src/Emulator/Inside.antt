-- ===== src/Emulator/Inside.antt =====
-- The decoded instructions are in the bounds of the text.
use Prim.Native.Nat.{ℕ, ◌+◌, ◌*◌, ◌≤◌, ◌<◌, ◌^◌, min, max}
use mathlib.Core.Path.{◌≡◌, refl, subst}
use mathlib.Core.Logic.{inl, inr}
use mathlib.Core.List.{List, [], ◌∷◌, ◌++◌}
use mathlib.Core.Option.{Option, none, some}
use native.Mathlib.Omega.{arith}
use riscv_sbt.Base.{length, Bool-cases, Option-cases}
use riscv_sbt.Base.Word.{◌+w◌}
use riscv_sbt.Decoder.Instructions.{Instruction}
use riscv_sbt.Decoder.Decode.{decode}
use riscv_sbt.Elf.{
  ElfBinarySection, text_section, is_type, resolve_section_type, get_type_sections, get_end_address,
  get_byte_size, bounds_from, compute_text_bounds, decode_words, decode_sections,
}
use riscv_sbt.Elf.TextBounds.{IsText, IsSection, compute_text_bounds-span}
use riscv_sbt.Sbt.Simulate.Text.{decode-address}

-- The addresses are in the bounds of the text.
abbrev pub AllWithin : ℕ → ℕ → List Instruction → Type 0
AllWithin first last [] = Unit
AllWithin first last (i ∷ rest) =
    (first ≤ i.address) × (i.address + 4 ≤ last) × AllWithin first last rest

AllWithin-append :
    (first last : ℕ) (l r : List Instruction)
    → AllWithin first last l
    → AllWithin first last r
    → AllWithin first last (l ++ r)
AllWithin-append first last [] r h k = k
AllWithin-append first last (i ∷ l) r (lo, hi, rest) k =
    (lo, hi, AllWithin-append first last l r rest k)

decode_words-AllWithin :
    (first last a : ℕ) (words : List ℕ)
    → first ≤ a
    → a + 4 * length words ≤ last
    → a + 4 * length words < 2 ^ 32
    → AllWithin first last (decode_words a words)
unfolding decode_words
decode_words-AllWithin first last a [] lo hi small = tt
decode_words-AllWithin first last a (w ∷ rest) lo hi small =
    let same : (decode w a).address ≡ a = decode-address w a in
    let next : a +w 4 ≡ a + 4 = unfold ◌+w◌ in omega (arith, hi, small) in
    (
      omega (arith, same, lo),
      omega (arith, same, hi),
      rw next (
          decode_words-AllWithin first last (a + 4) rest (omega (arith, lo)) (omega (arith, hi))
            (omega (arith, small))),
    )

module _ (sections : List ElfBinarySection)
    (whole : (s : ElfBinarySection)
      → IsSection s sections
      → IsText s
      → s.start_address + 4 * length s.words < 2 ^ 32) where
  abbrev text_first : ℕ
  text_first = (compute_text_bounds sections).0

  abbrev text_last : ℕ
  text_last = (compute_text_bounds sections).1

  section-AllWithin :
      (s : ElfBinarySection)
      → IsSection s sections
      → IsText s
      → AllWithin text_first text_last (decode_words s.start_address s.words)
  section-AllWithin s inside text =
      let (lo, hi, attained) = compute_text_bounds-span sections s inside text in
      let ends : get_end_address s ≡ s.start_address + 4 * length s.words =
        unfold get_end_address get_byte_size ◌+w◌ in omega (arith, whole s inside text) in
      decode_words-AllWithin text_first text_last s.start_address s.words lo
        (omega (arith, hi, ends)) (whole s inside text)

  pub sections-AllWithin :
      (some_sections : List ElfBinarySection)
      → ((s : ElfBinarySection) → IsSection s some_sections → IsSection s sections)
      → AllWithin text_first text_last
          (decode_sections (get_type_sections text_section some_sections))
  unfolding decode_sections get_type_sections
  sections-AllWithin [] inside = tt
  sections-AllWithin (s ∷ rest) inside =
      let later = sections-AllWithin rest (λ r k. inside r (inr k)) in
      elim (Bool-cases (is_type (resolve_section_type s) text_section)) [
        | inl text ↦ rw text (
            AllWithin-append text_first text_last (decode_words s.start_address s.words) _
              (section-AllWithin s (inside s (inl refl)) text) later)
        | inr other ↦ rw other later
      ]

-- the end of the text is a 32-bit address
abbrev LastFits : Option (ℕ × ℕ) → Type 0
LastFits none = Unit
LastFits (some (a, b)) = b < 2 ^ 32

bounds-LastFits :
    (found : Option (ℕ × ℕ)) (sections : List ElfBinarySection)
    → LastFits found
    → LastFits (bounds_from found sections)
unfolding bounds_from
bounds-LastFits found [] h = h
bounds-LastFits none (s ∷ rest) h =
    let fits : get_end_address s < 2 ^ 32 = unfold get_end_address ◌+w◌ in omega arith in
    elim (Bool-cases (is_type (resolve_section_type s) text_section)) [
      | inl text ↦ rw (bounds_from, text) (bounds-LastFits (some _) rest fits)
      | inr other ↦ rw (bounds_from, other) (bounds-LastFits none rest h)
    ]
bounds-LastFits (some (a, b)) (s ∷ rest) h =
    let fits : get_end_address s < 2 ^ 32 = unfold get_end_address ◌+w◌ in omega arith in
    elim (Bool-cases (is_type (resolve_section_type s) text_section)) [
      | inl text ↦
          rw (bounds_from, text)
            (bounds-LastFits (some (min a s.start_address, max b (get_end_address s))) rest
              (omega (arith, h, fits)))
      | inr other ↦ rw (bounds_from, other) (bounds-LastFits (some (a, b)) rest h)
    ]

pub text_last-lt : (sections : List ElfBinarySection) → (compute_text_bounds sections).1 < 2 ^ 32
unfolding compute_text_bounds
text_last-lt sections =
    let fits = bounds-LastFits none sections tt in
    elim (Option-cases (bounds_from none sections)) [
      | inl nothing ↦ rw (compute_text_bounds, nothing) (omega arith)
      | inr (p, found) ↦ rw (compute_text_bounds, found) (subst LastFits found fits)
    ]
