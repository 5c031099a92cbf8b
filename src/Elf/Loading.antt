-- ===== src/Elf/Loading.antt =====
-- What `loadToMemory` leaves in memory.
use Prim.Native.Nat.{ℕ, zero, suc, ◌+◌, ◌*◌, ◌≤◌, ◌<◌, ◌^◌, ◌%◌}
use mathlib.Core.Path.{◌≡◌, refl, sym, ap, subst, ◌∙◌}
use mathlib.Core.Logic.{◌⊎◌, inl, inr}
use mathlib.Core.Bool.{true, false}
use mathlib.Core.List.{List, [], ◌∷◌}
use mathlib.Core.Option.{some}
use native.Mathlib.Omega.{arith}
use riscv_sbt.Base.{get_elem?, get_elem?-lt, length, ltb, leb, Bool-cases, if◌then◌else◌}
use riscv_sbt.Base.Word.{◌+w◌}
use riscv_sbt.Base.Outcome.{ok}
use riscv_sbt.Runtime.Memory.{Memory, data_size, mmap_size, read, write, store_bytes}
use riscv_sbt.Runtime.MemoryLaws.{read-write, read-write_apart}
use riscv_sbt.Elf.{
  ElfBinarySection, get_load_address, get_byte_size, load_words, load_sections, load_to_memory,
}
use riscv_sbt.Elf.TextBounds.{IsSection}

write-some :
    (m : Memory) (p v : ℕ)
    → p + 4 ≤ data_size + mmap_size
    → (written : Memory) × (write 4 m p v ≡ ok written)
unfolding write
write-some m p v h =
    let inside : leb (p + 4) (data_size + mmap_size) ≡ true = ground (arith, h) in
    (record m { bytes = store_bytes m.bytes p 4 v }, rw inside refl)

-- The words stand from `p` on, and every word before or after them is as it was.
record Loaded (p : ℕ) (words : List ℕ) (m : Memory) : Type 0 where
  pub after : Memory
  pub runs : load_words p words m ≡ ok (after, p + length words * 4)
  pub found : (k w : ℕ) → get_elem? words k ≡ some w → read 4 after (p + k * 4) ≡ ok (w % 256 ^ 4)
  pub apart : (q : ℕ) → (q + 4 ≤ p) ⊎ (p + length words * 4 ≤ q) → read 4 after q ≡ read 4 m q

Loaded-step :
    (v : ℕ) (rest : List ℕ) (p : ℕ) (m written : Memory)
    → write 4 m p v ≡ ok written
    → p + suc (length rest) * 4 ≤ data_size + mmap_size
    → Loaded (p + 4) rest written
    → Loaded p (v ∷ rest) m
unfolding load_words
Loaded-step v rest p m written wrote h l =
    let next : p +w 4 ≡ p + 4 = unfold ◌+w◌ in omega (arith, h) in
    let end : (p + 4) + length rest * 4 ≡ p + suc (length rest) * 4 = omega arith in
    record {
      after = l.after;
      runs = rw (wrote, next) (l.runs ∙ ap (λ x. ok (l.after, x)) end);
      found = λ k. placed k;
      apart = λ q away.
          l.apart q (elim away [
            | inl before ↦ inl (omega (arith, before))
            | inr past ↦ inr (omega (arith, past))
          ])
          ∙ read-write_apart 4 m p v wrote 4 q
              (elim away [ inl before ↦ inl before | inr past ↦ inr (omega (arith, past)) ]);
    }
  where
    placed :
        (k w : ℕ) → get_elem? (v ∷ rest) k ≡ some w → read 4 l.after (p + k * 4) ≡ ok (w % 256 ^ 4)
    placed zero w e =
        let is : v ≡ w = cc in
        subst (λ q. read 4 l.after q ≡ ok (w % 256 ^ 4)) {x = p} (omega arith)
          (l.apart p (inl (omega arith)) ∙ read-write 4 m p v wrote ∙ ap (λ x. ok (x % 256 ^ 4)) is)
    placed (suc k) w e =
        subst (λ q. read 4 l.after q ≡ ok (w % 256 ^ 4)) {x = (p + 4) + k * 4} (omega arith)
          (l.found k w e)

load_words-Loaded :
    (words : List ℕ) (p : ℕ) (m : Memory)
    → p + length words * 4 ≤ data_size + mmap_size
    → Loaded p words m
unfolding load_words
load_words-Loaded [] p m h = record {
  after = m;
  runs = ap (λ x. ok (m, x)) {x = p} {y = p + 0 * 4} (omega arith);
  found = λ k w e. absurd cc;
  apart = λ q h. refl;
}
load_words-Loaded (v ∷ rest) p m h =
    let (written, wrote) = write-some m p v (omega (arith, h)) in
    Loaded-step v rest p m written wrote h
      (load_words-Loaded rest (p + 4) written (omega (arith, h)))

-- the end of the section in memory
abbrev pub end_of_load : ElfBinarySection → ℕ
end_of_load s = get_load_address s + length s.words * 4

abbrev pub EndsInRange : List ElfBinarySection → Type 0
EndsInRange [] = Unit
EndsInRange (s ∷ rest) = (end_of_load s < 2 ^ 32) × EndsInRange rest

-- No section reaches into the words from `first` to `last`.
abbrev pub AwayFrom : ℕ → ℕ → List ElfBinarySection → Type 0
AwayFrom first last [] = Unit
AwayFrom first last (r ∷ rest) =
    ((last ≤ get_load_address r) ⊎ (end_of_load r ≤ first)) × AwayFrom first last rest

abbrev pub IsDisjoint : List ElfBinarySection → Type 0
IsDisjoint [] = Unit
IsDisjoint (s ∷ rest) = AwayFrom (get_load_address s) (end_of_load s) rest × IsDisjoint rest

AwayFrom-word :
    (first last q : ℕ) (sections : List ElfBinarySection)
    → first ≤ q
    → q + 4 ≤ last
    → AwayFrom first last sections
    → AwayFrom q (q + 4) sections
AwayFrom-word first last q [] lo hi h = tt
AwayFrom-word first last q (r ∷ rest) lo hi (away, later) = (
  elim away [
    | inl below ↦ inl (omega (arith, hi, below))
    | inr above ↦ inr (omega (arith, lo, above))
  ],
  AwayFrom-word first last q rest lo hi later,
)

-- The last address is the end of a section that is loaded.
abbrev pub EndsAt : ℕ → List ElfBinarySection → Type 0
EndsAt last sections =
    (s : ElfBinarySection) × IsSection s sections
    × (end_of_load s ≤ data_size)
    × (last ≡ end_of_load s)

pub record SectionsLoaded (data_end : ℕ) (sections : List ElfBinarySection) (m : Memory)
    : Type 0 where
  pub after : Memory
  pub last : ℕ
  pub runs : load_sections data_end sections m ≡ ok (after, last)
  pub found :
      (s : ElfBinarySection)
      → IsSection s sections
      → end_of_load s ≤ data_size
      → (k w : ℕ) → get_elem? s.words k ≡ some w
      → read 4 after (get_load_address s + k * 4) ≡ ok (w % 256 ^ 4)
  pub apart : (q : ℕ) → AwayFrom q (q + 4) sections → read 4 after q ≡ read 4 m q
  pub grows : data_end ≤ last
  pub covers :
      (s : ElfBinarySection)
      → IsSection s sections
      → end_of_load s ≤ data_size
      → end_of_load s ≤ last
  pub attained : (last ≡ data_end) ⊎ EndsAt last sections

module _ (data_end : ℕ) (s : ElfBinarySection) (rest : List ElfBinarySection) (m : Memory)
    (range : end_of_load s < 2 ^ 32) where
  checked_end : get_load_address s +w get_byte_size s ≡ end_of_load s
  unfolding get_byte_size ◌+w◌
  checked_end = omega (arith, range)

  SectionsLoaded-skip :
      data_size < end_of_load s
      → SectionsLoaded data_end rest m
      → SectionsLoaded data_end (s ∷ rest) m
  unfolding load_sections
  SectionsLoaded-skip over l =
      let skips : ltb data_size (get_load_address s +w get_byte_size s) ≡ true =
        rw checked_end (ground (arith, over)) in
      record {
        after = l.after;
        last = l.last;
        runs = rw (load_sections, skips) l.runs;
        found = λ r inside fits k w e. elim inside [
          | inl is ↦ absurd (
              let same : end_of_load s ≤ data_size =
                subst (λ x. end_of_load x ≤ data_size) is fits in
              omega (arith, same, over))
          | inr later ↦ l.found r later fits k w e
        ];
        apart = λ q away. l.apart q away.1;
        grows = l.grows;
        covers = λ r inside fits. elim inside [
          | inl is ↦ absurd (
              let same : end_of_load s ≤ data_size =
                subst (λ x. end_of_load x ≤ data_size) is fits in
              omega (arith, same, over))
          | inr later ↦ l.covers r later fits
        ];
        attained = elim l.attained [
          | inl same ↦ inl same
          | inr (r, inside, fits, ends) ↦ inr (r, inr inside, fits, ends)
        ];
      }

  SectionsLoaded-load :
      (l : Loaded (get_load_address s) s.words m)
      → end_of_load s ≤ data_size
      → AwayFrom (get_load_address s) (end_of_load s) rest
      → SectionsLoaded
          (if ltb data_end (end_of_load s) then end_of_load s else data_end)
          rest
          l.after
      → SectionsLoaded data_end (s ∷ rest) m
  unfolding load_sections
  SectionsLoaded-load h fits away l =
      let loads : ltb data_size (get_load_address s +w get_byte_size s) ≡ false =
        rw checked_end (ground (arith, fits)) in
      record {
        after = l.after;
        last = l.last;
        runs = rw (load_sections, loads, h.runs) l.runs;
        found = λ r inside small k w e. elim inside [
          | inl is ↦
              let own : get_elem? s.words k ≡ some w =
                subst (λ x. get_elem? x.words k ≡ some w) is e in
              let bound = get_elem?-lt s.words k w own in
              let kept = l.apart (get_load_address s + k * 4) (
                AwayFrom-word (get_load_address s) (end_of_load s) (get_load_address s + k * 4) rest
                  (omega arith) (omega (arith, bound)) away) in
              subst (λ x. read 4 l.after (get_load_address x + k * 4) ≡ ok (w % 256 ^ 4)) (sym is)
                (kept ∙ h.found k w own)
          | inr later ↦ l.found r later small k w e
        ];
        apart = λ q others.
            l.apart q others.1
            ∙ h.apart q (elim (others.0) [ inl below ↦ inl below | inr above ↦ inr above ]);
        grows = ground (arith, l.grows);
        covers = λ r inside small. elim inside [
          | inl is ↦ subst (λ x. end_of_load x ≤ l.last) (sym is) (ground (arith, l.grows))
          | inr later ↦ l.covers r later small
        ];
        attained = elim l.attained [
          | inl same ↦ elim (Bool-cases (ltb data_end (end_of_load s))) [
            | inl further ↦ inr (s, inl refl, fits, rw further at (same))
            | inr before ↦ inl (rw before at (same))
          ]
          | inr (r, inside, small, ends) ↦ inr (r, inr inside, small, ends)
        ];
      }

pub sections-Loaded :
    (sections : List ElfBinarySection) (data_end : ℕ) (m : Memory)
    → EndsInRange sections
    → IsDisjoint sections
    → SectionsLoaded data_end sections m
sections-Loaded [] data_end m range disjoint = record {
  after = m;
  last = data_end;
  runs = unfold load_sections in refl;
  found = λ s inside fits k w e. elim inside [ ];
  apart = λ q away. refl;
  grows = omega arith;
  covers = λ s inside fits. elim inside [ ];
  attained = inl refl;
}
sections-Loaded (s ∷ rest) data_end m (range, ranges) (away, disjoint) =
    elim (Bool-cases (leb (end_of_load s) data_size)) [
      | inl fits ↦
          let small : end_of_load s ≤ data_size = ground (arith, fits) in
          let l = load_words-Loaded s.words (get_load_address s) m (omega (arith, small)) in
          SectionsLoaded-load data_end s rest m range l small away
            (sections-Loaded rest _ l.after ranges disjoint)
      | inr over ↦
          SectionsLoaded-skip data_end s rest m range (ground (arith, over))
            (sections-Loaded rest data_end m ranges disjoint)
    ]

-- Where no section wraps around the address space and no two of them overlap in memory,
-- `loadToMemory` goes through, and each word of each section that ends within the memory can be read
-- back from its load address, cut to 32 bits.
pub load_to_memory-words :
    (sections : List ElfBinarySection) (m : Memory)
    → EndsInRange sections
    → IsDisjoint sections
    → (s : ElfBinarySection) → IsSection s sections
    → end_of_load s ≤ data_size
    → (k w : ℕ) → get_elem? s.words k ≡ some w
    → (after : Memory) × (last : ℕ) × (load_to_memory sections m ≡ ok (after, last))
      × (read 4 after (get_load_address s + k * 4) ≡ ok (w % 256 ^ 4))
unfolding load_to_memory
load_to_memory-words sections m range disjoint s inside fits k w e =
    let l = sections-Loaded sections 0 m range disjoint in
    (l.after, l.last, l.runs, l.found s inside fits k w e)
