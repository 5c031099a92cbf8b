-- ===== src/Emulator/Predecode.antt =====
-- The slots that `main` fills.
use Prim.Native.Nat.{ℕ, zero, suc, ◌+◌, ◌*◌, ◌/◌, ◌<◌, ◌^◌}
use mathlib.Core.Path.{◌≡◌, refl, ap, subst, ◌∙◌}
use mathlib.Core.Logic.{◌≢◌, ◌⊎◌, inl, inr}
use mathlib.Core.Bool.{true}
use mathlib.Core.List.{List, [], ◌∷◌}
use mathlib.Core.Option.{some}
use native.Mathlib.Omega.{arith}
use riscv_sbt.Base.{
  get_elem?, length, set, length-set, get_elem?-set, get_elem?-set_apart, ltb, lt→ltb, ◌==◌, ==→eq,
  Bool-cases,
}
use riscv_sbt.Base.Word.{◌-w◌}
use riscv_sbt.Base.Outcome.{ok}
use riscv_sbt.Decoder.Instructions.{Instruction}
use riscv_sbt.Elf.{ElfBinarySection, compute_text_bounds, get_text_word_count, decode_to_container}
use riscv_sbt.Elf.TextBounds.{IsText, IsSection}
use riscv_sbt.Emulator.{gap, gaps, fill_slots, predecode}
use riscv_sbt.Emulator.Inside.{AllWithin, sections-AllWithin, text_last-lt}

-- the element that an instruction goes to
abbrev pub element : ℕ → Instruction → ℕ
element first i = (i.address -w first) / 4

-- Element `k` is what it was, and no instruction goes there; or it is one of those that do.
abbrev pub IsFilled : ℕ → List Instruction → List Instruction → List Instruction → ℕ → Type 0
IsFilled first l slots after k =
    ((get_elem? after k ≡ get_elem? slots k)
      × ((j : ℕ) (i : Instruction) → get_elem? l j ≡ some i → element first i ≢ k))
    ⊎ ((i : Instruction) × (j : ℕ) × (get_elem? l j ≡ some i)
        × (element first i ≡ k)
        × (get_elem? after k ≡ some i))

IsFilled-step :
    (first : ℕ) (i : Instruction) (l slots after : List Instruction) (k : ℕ)
    → element first i < length slots
    → IsFilled first l (set slots (element first i) i) after k
    → IsFilled first (i ∷ l) slots after k
IsFilled-step first i l slots after k room (inr (r, j, at, is, found)) =
    inr (r, suc j, at, is, found)
IsFilled-step first i l slots after k room (inl (kept, missing)) =
    elim (Bool-cases (element first i == k)) [
      | inl here ↦
          let is : element first i ≡ k = ==→eq _ _ here in
          inr (
            i,
            0,
            refl,
            is,
            kept
                ∙ subst (λ x. get_elem? (set slots (element first i) i) x ≡ some i) is
                    (get_elem?-set slots (element first i) i room),
          )
      | inr away ↦
          let differs : element first i ≢ k = λ e. ground (arith, away, e) in
          inl
            (kept ∙ get_elem?-set_apart slots (element first i) k i differs, λ j. misses differs j)
    ]
  where
    misses :
        element first i ≢ k
        → (j : ℕ) (r : Instruction) → get_elem? (i ∷ l) j ≡ some r
        → element first r ≢ k
    misses differs zero r at = let is : i ≡ r = cc in subst (λ x. element first x ≢ k) is differs
    misses differs (suc j) r at = missing j r at

fill_slots-IsFilled :
    (first last : ℕ) (l slots : List Instruction)
    → AllWithin first last l
    → last < 2 ^ 32
    → length slots ≡ (last -w first) / 4
    → (after : List Instruction) × (fill_slots first l slots ≡ ok after)
      × (length after ≡ length slots)
      × ((k : ℕ) → IsFilled first l slots after k)
unfolding fill_slots
fill_slots-IsFilled first last [] slots within small size =
    (slots, refl, refl, λ k. inl (refl, λ j i at. absurd cc))
fill_slots-IsFilled first last (i ∷ l) slots (lo, hi, rest) small size =
    let room : element first i < length slots = unfold ◌-w◌ in omega (arith, lo, hi, small, size) in
    let passes : ltb (element first i) (length slots) ≡ true = lt→ltb _ _ room in
    let same : length (set slots (element first i) i) ≡ length slots = length-set slots _ i in
    let (after, runs, long, filled) =
      fill_slots-IsFilled first last l (set slots (element first i) i) rest small (same ∙ size) in
    (after, rw passes runs, long ∙ same, λ k. IsFilled-step first i l slots after k room (filled k))

length-gaps : (n : ℕ) → length (gaps n) ≡ n
unfolding gaps
length-gaps zero = refl
length-gaps (suc n) = ap suc (length-gaps n)

gaps-gap : (n k : ℕ) → k < n → get_elem? (gaps n) k ≡ some gap
unfolding gaps
gaps-gap zero k h = absurd (omega (arith, h))
gaps-gap (suc n) zero h = refl
gaps-gap (suc n) (suc k) h = gaps-gap n k (omega (arith, h))

-- A slot to which no decoded instruction goes is a gap; another holds one of those that do.
abbrev pub IsSlot : ℕ → List Instruction → List Instruction → ℕ → Type 0
IsSlot first l slots k =
    ((get_elem? slots k ≡ some gap)
      × ((j : ℕ) (i : Instruction) → get_elem? l j ≡ some i → element first i ≢ k))
    ⊎ ((i : Instruction) × (j : ℕ) × (get_elem? l j ≡ some i)
        × (element first i ≡ k)
        × (get_elem? slots k ≡ some i))

-- Where no section of text wraps around the address space, no decoded instruction is stored outside
-- of the vector; the vector has an element for each word of the text's span; and each element is
-- an instruction decoded for its address, or INVALID if there is none.
pub predecode-slots :
    (sections : List ElfBinarySection)
    → ((s : ElfBinarySection)
        → IsSection s sections
        → IsText s
        → s.start_address + 4 * length s.words < 2 ^ 32)
    → (slots : List Instruction) × (predecode sections ≡ ok slots)
      × (length slots ≡ get_text_word_count sections)
      × ((k : ℕ)
          → k < get_text_word_count sections
          → IsSlot (compute_text_bounds sections).0 (decode_to_container sections) slots k)
unfolding predecode get_text_word_count decode_to_container
predecode-slots sections whole =
    let count = get_text_word_count sections in
    let (slots, runs, long, filled) =
      fill_slots-IsFilled (compute_text_bounds sections).0 (compute_text_bounds sections).1
        (decode_to_container sections) (gaps count)
        (sections-AllWithin sections whole sections (λ s inside. inside)) (text_last-lt sections)
        (length-gaps count) in
    (
      slots,
      runs,
      long ∙ length-gaps count,
      λ k room. elim (filled k) [
        | inl (kept, missing) ↦ inl (kept ∙ gaps-gap count k room, missing)
        | inr put ↦ inr put
      ],
    )
