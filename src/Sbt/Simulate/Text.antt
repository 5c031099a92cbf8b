-- ===== src/Sbt/Simulate/Text.antt =====
-- The text that lib/elf decodes has its instructions at their addresses and in their slots.
use Prim.Native.Nat.{ℕ, zero, suc, ◌+◌, ◌*◌, ◌/◌, ◌≤◌, ◌<◌, ◌^◌}
use mathlib.Core.Path.{◌≡◌, refl, sym, ap, subst, ◌∙◌}
use mathlib.Core.Logic.{inl, inr}
use mathlib.Core.List.{List, [], ◌∷◌, append-nil}
use mathlib.Core.Option.{some}
use native.Mathlib.Omega.{arith}
use riscv_sbt.Base.{get_elem?, length, Bool-cases}
use riscv_sbt.Base.Word.{IsU32, ◌+w◌, ◌-w◌}
use riscv_sbt.Base.Outcome.{ok}
use riscv_sbt.Decoder.Instructions.{InstructionSpec, Instruction}
use riscv_sbt.Decoder.Table.{spec_lists}
use riscv_sbt.Decoder.Decode.{fits, from_spec, no_instruction, decode_in, decode}
use riscv_sbt.Interpreter.Threaded.{slot}
use riscv_sbt.Elf.{
  ElfBinarySection, text_section, get_type_sections, decode_words, decode_sections,
  decode_to_container,
}
use riscv_sbt.Sbt.Simulate.Runs.{Located}
use riscv_sbt.Sbt.Simulate.Jumps.{next_entry}

decode_in-address : (specs : List InstructionSpec) (w a : ℕ) → (decode_in specs w a).address ≡ a
unfolding decode_in from_spec no_instruction
decode_in-address [] w a = refl
decode_in-address (s ∷ specs) w a = elim (Bool-cases (fits w s)) [
  | inl hit ↦ rw hit refl
  | inr miss ↦ rw miss (decode_in-address specs w a)
]

pub decode-address : (w a : ℕ) → (decode w a).address ≡ a
unfolding decode
decode-address w a = decode_in-address spec_lists w a

module _ (all : List Instruction) (start : ℕ) (small : IsU32 start) where
  slot-index :
      (k : ℕ) (i : Instruction)
      → k < 2 ^ 30
      → get_elem? all k ≡ some i
      → slot all start (start +w k * 4) ≡ ok i
  unfolding slot
  slot-index k i bound at =
      let index : ((start +w k * 4) -w start) / 4 ≡ k = unfold ◌+w◌ ◌-w◌ in omega arith in
      rw (slot, index, at) refl

  -- the words from index `k` on
  words-Located :
      (words : List ℕ) (k a : ℕ)
      → a ≡ start +w k * 4
      → k + length words ≤ 2 ^ 30
      → ((j : ℕ) → get_elem? all (k + j) ≡ get_elem? (decode_words a words) j)
      → Located all start (decode_words a words) a
  unfolding decode_words
  words-Located [] k a at bound same = tt
  words-Located (w ∷ rest) k a at bound same =
      let first : get_elem? all k ≡ some (decode w a) =
        subst (λ n. get_elem? all n ≡ some (decode w a)) {x = k + 0} (omega arith) (same 0) in
      let next : a +w 4 ≡ start +w (k + 1) * 4 =
        ap (λ x. x +w 4) at ∙ (unfold ◌+w◌ in omega arith) in
      (
        decode-address w a,
        subst (λ x. slot all start x ≡ ok (decode w a)) (sym at)
            (slot-index k (decode w a) (omega (arith, bound)) first),
        words-Located rest (k + 1) (a +w 4) next (omega (arith, bound)) (λ j.
            subst (λ n. get_elem? all n ≡ get_elem? (decode_words (a +w 4) rest) j) {x = k + suc j}
              (omega arith) (same (suc j))),
      )

length-decode_words : (a : ℕ) (words : List ℕ) → length (decode_words a words) ≡ length words
unfolding decode_words
length-decode_words a [] = refl
length-decode_words a (w ∷ rest) = ap suc (length-decode_words (a +w 4) rest)

-- the instruction of each word, at its address
decode_words-at :
    (start : ℕ) (words : List ℕ) (i0 k w : ℕ)
    → get_elem? words k ≡ some w
    → get_elem? (decode_words (start +w i0 * 4) words) k ≡ some (decode w (start +w (i0 + k) * 4))
unfolding decode_words
decode_words-at start [] i0 k w e = absurd cc
decode_words-at start (v ∷ rest) i0 zero w e =
    let is : v ≡ w = cc in
    rw is (ap (λ n. some (decode w (start +w n * 4))) {x = i0} {y = i0 + 0} (omega arith))
decode_words-at start (v ∷ rest) i0 (suc k) w e =
    ap (λ a. get_elem? (decode_words a rest) k) (next_entry start i0)
    ∙ decode_words-at start rest (i0 + 1) k w e
    ∙ ap (λ n. some (decode w (start +w n * 4))) {x = (i0 + 1) + k} {y = i0 + suc k} (omega arith)

decode_to_container-only :
    (sections : List ElfBinarySection) (s : ElfBinarySection)
    → get_type_sections text_section sections ≡ s ∷ []
    → decode_to_container sections ≡ decode_words s.start_address s.words
unfolding decode_to_container decode_sections
decode_to_container-only sections s only = rw only (append-nil _)

located :
    (sections : List ElfBinarySection) (s : ElfBinarySection)
    → get_type_sections text_section sections ≡ s ∷ []
    → IsU32 s.start_address
    → length s.words ≤ 2 ^ 30
    → Located
        (decode_to_container sections)
        s.start_address
        (decode_to_container sections)
        s.start_address
unfolding decode_to_container decode_sections
located sections s only small bound =
    let begins : s.start_address ≡ s.start_address +w 0 * 4 = unfold ◌+w◌ in omega arith in
    rw (only, append-nil)
      (words-Located (decode_words s.start_address s.words) s.start_address small s.words 0
        s.start_address begins (omega (arith, bound))
        (λ j.
          ap (get_elem? (decode_words s.start_address s.words)) {x = 0 + j} {y = j} (omega arith)))

-- In a file with one section of text, of at most 2 ^ 30 words, `decodeToContainer` yields an
-- instruction for each word, in order: the one that the word decodes to at its address. The slot that
-- the interpreter and the dispatch table compute from an instruction's address is that instruction's.
pub decode_to_container-Located :
    (sections : List ElfBinarySection) (s : ElfBinarySection)
    → get_type_sections text_section sections ≡ s ∷ []
    → IsU32 s.start_address
    → length s.words ≤ 2 ^ 30
    → (k w : ℕ) → get_elem? s.words k ≡ some w
    → (length (decode_to_container sections) ≡ length s.words)
      × (get_elem? (decode_to_container sections) k ≡ some (decode w (s.start_address +w k * 4)))
      × Located
          (decode_to_container sections)
          s.start_address
          (decode_to_container sections)
          s.start_address
decode_to_container-Located sections s only small bound k w e =
    let same = decode_to_container-only sections s only in
    let begins : s.start_address ≡ s.start_address +w 0 * 4 = unfold ◌+w◌ in omega arith in
    (
      ap length same ∙ length-decode_words s.start_address s.words,
      ap (λ l. get_elem? l k) same
          ∙ ap (λ a. get_elem? (decode_words a s.words) k) begins
          ∙ decode_words-at s.start_address s.words 0 k w e
          ∙ ap (λ n. some (decode w (s.start_address +w n * 4))) {x = 0 + k} {y = k} (omega arith),
      located sections s only small bound,
    )
