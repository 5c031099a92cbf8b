-- ===== src/Profiling/Document.antt =====
-- lib/ProfilingInfo.cpp: `save` and `load`.
use Prim.Native.Nat.{ℕ, ◌+◌, ◌/◌}
use Prim.Native.String.{String}
use mathlib.Core.Bool.{Bool, true, false, ◌&&◌, ◌||◌, not}
use mathlib.Core.List.{List, [], ◌∷◌, map}
use mathlib.Core.Option.{Option, none, some}
use riscv_sbt.Base.{set, ltb, ◌==◌, if◌then◌else◌}
use riscv_sbt.Base.Word.{u32, u64}
use riscv_sbt.Profiling.{
  instruction_names, parse_instruction_name, format_address, parse_address, ProfilingInfo, zeros,
  change_at,
}

-- The document. An object is the list of its members; a member of the document may be missing.
pub data Destinations : Type 0 where
  listed : List ℕ → Destinations
  counted : List (List ℕ × ℕ) → Destinations

pub record Document : Type 0 where
  pub instruction_counts : Option (List (String × ℕ))
  pub register_accesses : Option (List ℕ)
  pub indirect_branch_targets : Option (List (List ℕ × Destinations))

-- the counts that are written
unfoldable pub persisted : ProfilingInfo → List ℕ → List ℕ
persisted p counts =
    if p.append_mode && p.has_loaded_existing_data then map (λ c. c / 2) counts else counts

-- the names of the counts from index `i` on that are not zero
unfoldable pub named_counts : List String → List ℕ → List (String × ℕ)
named_counts [] counts = []
named_counts (name ∷ names) [] = []
named_counts (name ∷ names) (c ∷ rest) =
    let later = named_counts names rest in if c == 0 then later else (name, c) ∷ later

unfoldable pub write_destinations : List (ℕ × ℕ) → List (List ℕ × ℕ)
write_destinations [] = []
write_destinations ((destination, count) ∷ rest) =
    (format_address destination, count) ∷ write_destinations rest

unfoldable pub write_branches : List (ℕ × List (ℕ × ℕ)) → List (List ℕ × Destinations)
write_branches [] = []
write_branches ((branch, destinations) ∷ rest) =
    (format_address branch, counted (write_destinations destinations)) ∷ write_branches rest

unfoldable pub save : ProfilingInfo → Document
save p = record {
  instruction_counts = some (named_counts instruction_names (persisted p p.instruction_counts));
  register_accesses = some (persisted p p.register_access_counts);
  indirect_branch_targets = some (write_branches p.indirect_branch_targets);
}

unfoldable pub load_counts : List (String × ℕ) → List ℕ → Option (List ℕ)
load_counts [] counts = some counts
load_counts ((name, c) ∷ rest) counts = elim (parse_instruction_name name) [
  | none ↦ none
  | some i ↦ load_counts rest (set counts i c)
]

-- as many as both arrays have
unfoldable pub load_registers : List ℕ → List ℕ → List ℕ
load_registers [] counts = counts
load_registers (c ∷ rest) [] = []
load_registers (c ∷ rest) (old ∷ counts) = c ∷ load_registers rest counts

unfoldable pub load_listed : List ℕ → List (ℕ × ℕ) → List (ℕ × ℕ)
load_listed [] destinations = destinations
load_listed (d ∷ rest) destinations =
    load_listed rest (change_at 0 (u32 d) (λ n. u64 (n + 1)) destinations)

unfoldable pub load_counted : List (List ℕ × ℕ) → List (ℕ × ℕ) → Option (List (ℕ × ℕ))
load_counted [] destinations = some destinations
load_counted ((address, c) ∷ rest) destinations = elim (parse_address address) [
  | none ↦ none
  | some d ↦ load_counted rest (change_at 0 d (λ n. c) destinations)
]

unfoldable pub load_destinations : Destinations → List (ℕ × ℕ) → Option (List (ℕ × ℕ))
load_destinations (listed l) destinations = some (load_listed l destinations)
load_destinations (counted l) destinations = load_counted l destinations

-- what `indirectBranchTargets[key]` has
unfoldable pub value_at : ℕ → List (ℕ × List (ℕ × ℕ)) → List (ℕ × ℕ)
value_at key [] = []
value_at key ((k, v) ∷ rest) = let later = value_at key rest in if k == key then v else later

unfoldable pub load_branches :
    List (List ℕ × Destinations) → List (ℕ × List (ℕ × ℕ)) → Option (List (ℕ × List (ℕ × ℕ)))
load_branches [] targets = some targets
load_branches ((address, destinations) ∷ rest) targets = elim (parse_address address) [
  | none ↦ none
  | some branch ↦ elim (load_destinations destinations (value_at branch targets)) [
    | none ↦ none
    | some loaded ↦ load_branches rest (change_at [] branch (λ old. loaded) targets)
  ]
]

unfoldable pub has_non_zero_count : List ℕ → Bool
has_non_zero_count [] = false
has_non_zero_count (c ∷ rest) = ltb 0 c || has_non_zero_count rest

-- a member that is missing leaves what `old` is
abbrev pub member {ℓ κ} : {A : Type ℓ} {B : Type κ} → Option A → B → (A → Option B) → Option B
member none old load = some old
member (some a) old load = load a

abbrev pub is_empty : List (ℕ × List (ℕ × ℕ)) → Bool
is_empty [] = true
is_empty (t ∷ rest) = false

-- `load` of an empty file, and of a document; none is an exception
unfoldable pub load_empty : ProfilingInfo → ProfilingInfo
unfolding zeros
load_empty p = record p {
  has_loaded_existing_data = false;
  instruction_counts = zeros 51;
  register_access_counts = zeros 32;
  indirect_branch_targets = [];
}

unfoldable pub load_document : Document → ProfilingInfo → Option ProfilingInfo
load_document document p =
    elim (member document.instruction_counts (zeros 51) (λ l. load_counts l (zeros 51))) [
      | none ↦ none
      | some counts ↦
          let registers : List ℕ = elim document.register_accesses [
            | none ↦ zeros 32
            | some l ↦ load_registers l (zeros 32)
          ] in
          elim (member document.indirect_branch_targets [] (λ l. load_branches l [])) [
            | none ↦ none
            | some targets ↦ some (record p {
              has_loaded_existing_data =
                  not (is_empty targets)
                  || has_non_zero_count counts
                  || has_non_zero_count registers;
              instruction_counts = counts;
              register_access_counts = registers;
              indirect_branch_targets = targets;
            })
          ]
    ]
