-- ===== src/Profiling/Recorded.antt =====
-- Recording keeps the counters' shape.
use Prim.Native.Nat.{ℕ, zero, suc, bit_and}
use mathlib.Core.Path.{◌≡◌, refl, ap, ◌∙◌}
use mathlib.Core.Logic.{◌≢◌, inl, inr}
use mathlib.Core.Bool.{◌&&◌, not}
use mathlib.Core.List.{List, [], ◌∷◌}
use native.Mathlib.Omega.{arith}
use riscv_sbt.Base.{length, ltb, ◌==◌, Bool-cases}
use riscv_sbt.Base.Word.{IsU32}
use riscv_sbt.Profiling.{
  ProfilingInfo, zeros, count_at, count_access, change_at, increment_instruction_count,
  record_indirect_branch, record_register_access,
}
use riscv_sbt.Profiling.Document.{load_empty}
use riscv_sbt.Profiling.Branches.{IsFresh, IsMap, AllMaps}

pub record IsProfile (p : ProfilingInfo) : Type 0 where
  pub types : length p.instruction_counts ≡ 51
  pub registers : length p.register_access_counts ≡ 32
  pub branches : IsMap p.indirect_branch_targets
  pub destinations : AllMaps p.indirect_branch_targets

-- what the interpreters record
pub data Event : Type 0 where
  instruction_event : ℕ → Event
  branch_event : ℕ → ℕ → Event
  register_event : ℕ → ℕ → ℕ → ℕ → Event

abbrev pub IsEvent : Event → Type 0
IsEvent (instruction_event type) = Unit
IsEvent (branch_event branch destination) = IsU32 branch × IsU32 destination
IsEvent (register_event register_use rs1 rs2 rd) = Unit

abbrev pub record_event : Event → ProfilingInfo → ProfilingInfo
record_event (instruction_event type) p = increment_instruction_count type p
record_event (branch_event branch destination) p = record_indirect_branch branch destination p
record_event (register_event register_use rs1 rs2 rd) p =
    record_register_access register_use rs1 rs2 rd p

abbrev pub record_all : List Event → ProfilingInfo → ProfilingInfo
record_all [] p = p
record_all (e ∷ rest) p = record_all rest (record_event e p)

abbrev pub AllEvents : List Event → Type 0
AllEvents [] = Unit
AllEvents (e ∷ rest) = IsEvent e × AllEvents rest

length-count_at : (l : List ℕ) (i : ℕ) → length (count_at l i) ≡ length l
unfolding count_at
length-count_at [] i = refl
length-count_at (c ∷ rest) zero = refl
length-count_at (c ∷ rest) (suc i) = ap suc (length-count_at rest i)

change_at-IsFresh {ℓ} :
    {V : Type ℓ} (d : V) (key j : ℕ) (f : V → V) (l : List (ℕ × V))
    → key ≢ j
    → IsFresh j l
    → IsFresh j (change_at d key f l)
unfolding change_at
change_at-IsFresh d key j f [] other fresh = (other, tt)
change_at-IsFresh d key j f ((k, v) ∷ rest) other (apart, fresh) = elim (Bool-cases (k == key)) [
  | inl same ↦ rw same (apart, fresh)
  | inr away ↦ rw away (apart, change_at-IsFresh d key j f rest other fresh)
]

pub change_at-IsMap {ℓ} :
    {V : Type ℓ} (d : V) (key : ℕ) (f : V → V) (l : List (ℕ × V))
    → IsU32 key
    → IsMap l
    → IsMap (change_at d key f l)
unfolding change_at
change_at-IsMap d key f [] small map = (small, tt, tt)
change_at-IsMap d key f ((k, v) ∷ rest) small (own, fresh, map) = elim (Bool-cases (k == key)) [
  | inl same ↦ rw same (own, fresh, map)
  | inr away ↦
      let other : key ≢ k = λ e. ground (arith, away, e) in
      rw away
        (own, change_at-IsFresh d key k f rest other fresh, change_at-IsMap d key f rest small map)
]

change_at-AllMaps :
    (key destination : ℕ) (g : ℕ → ℕ) (l : List (ℕ × List (ℕ × ℕ)))
    → IsU32 destination
    → AllMaps l
    → AllMaps (change_at [] key (change_at 0 destination g) l)
unfolding change_at
change_at-AllMaps key destination g [] small maps = ((small, tt, tt), tt)
change_at-AllMaps key destination g ((k, v) ∷ rest) small (own, maps) =
    elim (Bool-cases (k == key)) [
      | inl same ↦ rw same (change_at-IsMap 0 destination g v small own, maps)
      | inr away ↦ rw away (own, change_at-AllMaps key destination g rest small maps)
    ]

length-count_access :
    (register_use mask r : ℕ) (l : List ℕ) → length (count_access register_use mask r l) ≡ length l
unfolding count_access
length-count_access register_use mask r l =
    elim (Bool-cases (not (bit_and register_use mask == 0) && ltb r 32)) [
      | inl counts ↦ rw counts (length-count_at l r)
      | inr leaves ↦ rw leaves refl
    ]

record_event-IsProfile :
    (e : Event) (p : ProfilingInfo) → IsEvent e → IsProfile p → IsProfile (record_event e p)
unfolding increment_instruction_count record_indirect_branch record_register_access
record_event-IsProfile (instruction_event type) p h v = record {
  types = length-count_at p.instruction_counts type ∙ v.types;
  registers = v.registers;
  branches = v.branches;
  destinations = v.destinations;
}
record_event-IsProfile (branch_event branch destination) p (small_branch, small) v = record {
  types = v.types;
  registers = v.registers;
  branches = change_at-IsMap [] branch _ p.indirect_branch_targets small_branch v.branches;
  destinations =
      change_at-AllMaps branch destination _ p.indirect_branch_targets small v.destinations;
}
record_event-IsProfile (register_event register_use rs1 rs2 rd) p h v = record {
  types = v.types;
  registers =
      length-count_access register_use 4 rd
        (count_access register_use 2 rs2 (count_access register_use 1 rs1 p.register_access_counts))
      ∙ length-count_access register_use 2 rs2
          (count_access register_use 1 rs1 p.register_access_counts)
      ∙ length-count_access register_use 1 rs1 p.register_access_counts
      ∙ v.registers;
  branches = v.branches;
  destinations = v.destinations;
}

pub load_empty-IsProfile : (p : ProfilingInfo) → IsProfile (load_empty p)
unfolding load_empty zeros
load_empty-IsProfile p = record { types = refl; registers = refl; branches = tt; destinations = tt }

pub record_all-IsProfile :
    (events : List Event) (p : ProfilingInfo)
    → AllEvents events
    → IsProfile p
    → IsProfile (record_all events p)
record_all-IsProfile [] p h v = v
record_all-IsProfile (e ∷ rest) p (own, all) v =
    record_all-IsProfile rest (record_event e p) all (record_event-IsProfile e p own v)

abbrev SameFlags : ProfilingInfo → ProfilingInfo → Type 0
SameFlags q p =
    (q.append_mode ≡ p.append_mode) × (q.has_loaded_existing_data ≡ p.has_loaded_existing_data)

record_event-flags : (e : Event) (p : ProfilingInfo) → SameFlags (record_event e p) p
unfolding increment_instruction_count record_indirect_branch record_register_access
record_event-flags (instruction_event type) p = (refl, refl)
record_event-flags (branch_event branch destination) p = (refl, refl)
record_event-flags (register_event register_use rs1 rs2 rd) p = (refl, refl)

pub record_all-flags : (events : List Event) (p : ProfilingInfo) → SameFlags (record_all events p) p
record_all-flags [] p = (refl, refl)
record_all-flags (e ∷ rest) p =
    let (mode, existing) = record_all-flags rest (record_event e p) in
    let (mode_before, existing_before) = record_event-flags e p in
    (mode ∙ mode_before, existing ∙ existing_before)
