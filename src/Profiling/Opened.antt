-- ===== src/Profiling/Opened.antt =====
-- Any document that loads leaves counters of the right shape.
use Prim.Native.Nat.{ℕ, suc}
use Prim.Native.String.{String}
use mathlib.Core.Path.{◌≡◌, refl, sym, ap, subst}
use mathlib.Core.Logic.{◌⊎◌, inl, inr}
use mathlib.Core.List.{List, [], ◌∷◌}
use mathlib.Core.Option.{Option, none, some}
use native.Mathlib.Omega.{arith}
use riscv_sbt.Base.{length, set, length-set, ◌==◌, Bool-cases, Option-cases}
use riscv_sbt.Base.Word.{IsU32, u32}
use riscv_sbt.Profiling.{
  ProfilingInfo, zeros, change_at, parse_instruction_name, parse_address, stoul,
}
use riscv_sbt.Profiling.Document.{
  Document, Destinations, listed, counted, load_counts, load_registers, load_listed, load_counted,
  load_destinations, value_at, load_branches, member, load_empty, load_document,
}
use riscv_sbt.Profiling.Branches.{IsMap, AllMaps}
use riscv_sbt.Profiling.Recorded.{IsProfile, change_at-IsMap, load_empty-IsProfile}

-- what holds of a result, if there is one
abbrev Yields {ℓ} : {A : Type ℓ} → (A → Type 0) → Option A → Type 0
Yields P none = Unit
Yields P (some a) = P a

parse_address-IsU32 : (s : List ℕ) → Yields IsU32 (parse_address s)
unfolding parse_address
parse_address-IsU32 s = elim (Option-cases (stoul s)) [
  | inl nothing ↦ rw (parse_address, nothing) tt
  | inr (v, found) ↦ rw (parse_address, found) (omega arith)
]

length-load_counts :
    (l : List (String × ℕ)) (counts : List ℕ)
    → Yields (λ r. length r ≡ length counts) (load_counts l counts)
unfolding load_counts
length-load_counts [] counts = refl
length-load_counts ((name, c) ∷ rest) counts = elim (Option-cases (parse_instruction_name name)) [
  | inl nothing ↦ rw (load_counts, nothing) tt
  | inr (i, found) ↦
      rw (load_counts, found)
        (subst (λ n. Yields (λ r. length r ≡ n) (load_counts rest (set counts i c)))
          (length-set counts i c) (length-load_counts rest (set counts i c)))
]

length-load_registers : (l counts : List ℕ) → length (load_registers l counts) ≡ length counts
unfolding load_registers
length-load_registers [] counts = refl
length-load_registers (c ∷ rest) [] = refl
length-load_registers (c ∷ rest) (old ∷ counts) = ap suc (length-load_registers rest counts)

load_listed-IsMap :
    (l : List ℕ) (before : List (ℕ × ℕ)) → IsMap before → IsMap (load_listed l before)
unfolding load_listed
load_listed-IsMap [] before map = map
load_listed-IsMap (d ∷ rest) before map =
    load_listed-IsMap rest _ (change_at-IsMap 0 (u32 d) _ before (omega arith) map)

load_counted-IsMap :
    (l : List (List ℕ × ℕ)) (before : List (ℕ × ℕ))
    → IsMap before
    → Yields IsMap (load_counted l before)
unfolding load_counted
load_counted-IsMap [] before map = map
load_counted-IsMap ((address, c) ∷ rest) before map = elim (Option-cases (parse_address address)) [
  | inl nothing ↦ rw (load_counted, nothing) tt
  | inr (d, found) ↦
      let small : IsU32 d = subst (Yields IsU32) found (parse_address-IsU32 address) in
      rw (load_counted, found)
        (load_counted-IsMap rest _ (change_at-IsMap 0 d (λ n. c) before small map))
]

load_destinations-IsMap :
    (l : Destinations) (before : List (ℕ × ℕ))
    → IsMap before
    → Yields IsMap (load_destinations l before)
unfolding load_destinations
load_destinations-IsMap (listed l) before map = load_listed-IsMap l before map
load_destinations-IsMap (counted l) before map = load_counted-IsMap l before map

value_at-IsMap : (key : ℕ) (l : List (ℕ × List (ℕ × ℕ))) → AllMaps l → IsMap (value_at key l)
unfolding value_at
value_at-IsMap key [] maps = tt
value_at-IsMap key ((k, v) ∷ rest) (own, maps) = elim (Bool-cases (k == key)) [
  | inl same ↦ rw same own
  | inr away ↦ rw away (value_at-IsMap key rest maps)
]

replaced-AllMaps :
    (key : ℕ) (new : List (ℕ × ℕ)) (l : List (ℕ × List (ℕ × ℕ)))
    → IsMap new
    → AllMaps l
    → AllMaps (change_at [] key (λ old. new) l)
unfolding change_at
replaced-AllMaps key new [] map maps = (map, tt)
replaced-AllMaps key new ((k, v) ∷ rest) map (own, maps) = elim (Bool-cases (k == key)) [
  | inl same ↦ rw same (map, maps)
  | inr away ↦ rw away (own, replaced-AllMaps key new rest map maps)
]

load_branches-IsMap :
    (l : List (List ℕ × Destinations)) (before : List (ℕ × List (ℕ × ℕ)))
    → IsMap before
    → AllMaps before
    → Yields (λ t. IsMap t × AllMaps t) (load_branches l before)
unfolding load_branches
load_branches-IsMap [] before map maps = (map, maps)
load_branches-IsMap ((address, l) ∷ rest) before map maps =
    elim (Option-cases (parse_address address)) [
      | inl nothing ↦ rw (load_branches, nothing) tt
      | inr (b, found) ↦
          let small : IsU32 b = subst (Yields IsU32) found (parse_address-IsU32 address) in
          let kept = load_destinations-IsMap l (value_at b before) (value_at-IsMap b before maps) in
          elim (Option-cases (load_destinations l (value_at b before))) [
            | inl none_loaded ↦ rw (load_branches, found, none_loaded) tt
            | inr (new, loaded) ↦
                let own : IsMap new = subst (Yields IsMap) loaded kept in
                rw (load_branches, found, loaded)
                  (load_branches-IsMap rest _ (change_at-IsMap [] b (λ old. new) before small map)
                    (replaced-AllMaps b new before own maps))
          ]
    ]

-- What the members of a document are loaded as, if they are.
types_member :
    (o : Option (List (String × ℕ)))
    → Yields (λ r. length r ≡ 51) (member o (zeros 51) (λ l. load_counts l (zeros 51)))
unfolding zeros
types_member none = refl
types_member (some l) = length-load_counts l (zeros 51)

registers_member :
    (o : Option (List ℕ))
    → length (elim o [ none ↦ zeros 32 | some l ↦ load_registers l (zeros 32) ]) ≡ 32
unfolding zeros
registers_member none = refl
registers_member (some l) = length-load_registers l (zeros 32)

branches_member :
    (o : Option (List (List ℕ × Destinations)))
    → Yields (λ t. IsMap t × AllMaps t) (member o [] (λ l. load_branches l []))
branches_member none = (tt, tt)
branches_member (some l) = load_branches-IsMap l [] tt tt

pub load_document-IsProfile :
    (d : Document) (q : ProfilingInfo) → Yields IsProfile (load_document d q)
unfolding load_document
load_document-IsProfile d q =
    elim (Option-cases (member d.instruction_counts (zeros 51) (λ l. load_counts l (zeros 51)))) [
      | inl nothing ↦ rw (load_document, nothing) tt
      | inr (counts, counted_types) ↦
          elim (Option-cases (member d.indirect_branch_targets [] (λ l. load_branches l []))) [
            | inl nothing ↦ rw (load_document, counted_types, nothing) tt
            | inr (targets, loaded) ↦
                let maps : IsMap targets × AllMaps targets =
                  subst (Yields (λ t. IsMap t × AllMaps t)) loaded
                    (branches_member d.indirect_branch_targets) in
                rw (load_document, counted_types, loaded)
                  record {
                    types =
                        subst (Yields (λ r. length r ≡ 51)) counted_types
                          (types_member d.instruction_counts);
                    registers = registers_member d.register_accesses;
                    branches = maps.0;
                    destinations = maps.1;
                  }
          ]
    ]

-- The counters are those of an empty file, or of some document.
abbrev pub IsOpened : ProfilingInfo → Type 0
IsOpened p =
    ((q : ProfilingInfo) × (p ≡ load_empty q))
    ⊎ ((d : Document) × (q : ProfilingInfo) × (load_document d q ≡ some p))

pub IsOpened-IsProfile : (p : ProfilingInfo) → IsOpened p → IsProfile p
IsOpened-IsProfile p (inl (q, is)) = subst IsProfile (sym is) (load_empty-IsProfile q)
IsOpened-IsProfile p (inr (d, q, is)) = subst (Yields IsProfile) is (load_document-IsProfile d q)
