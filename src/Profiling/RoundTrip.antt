-- ===== src/Profiling/RoundTrip.antt =====
-- A profile that is saved and loaded.
use Prim.Native.Nat.{ℕ, suc, ◌+◌, ◌/◌}
use mathlib.Core.Path.{◌≡◌, refl, sym, ap, ◌∙◌}
use mathlib.Core.Logic.{◌⊎◌, inl, inr}
use mathlib.Core.Bool.{true, false, ◌&&◌, ◌||◌, not}
use mathlib.Core.List.{List, [], ◌∷◌, map}
use mathlib.Core.Option.{some}
use native.Mathlib.Omega.{arith}
use riscv_sbt.Base.{length, ◌==◌, Bool-cases}
use riscv_sbt.Profiling.{ProfilingInfo, zeros}
use riscv_sbt.Profiling.Document.{
  persisted, save, is_empty, load_registers, has_non_zero_count, load_document,
}
use riscv_sbt.Profiling.Counts.{load_counts-all, load_registers-all}
use riscv_sbt.Profiling.Branches.{load_branches-all}
use riscv_sbt.Profiling.Recorded.{
  IsProfile, Event, AllEvents, record_all, record_all-IsProfile, record_all-flags,
}
use riscv_sbt.Profiling.Opened.{IsOpened, IsOpened-IsProfile}

length-map : (f : ℕ → ℕ) (l : List ℕ) → length (map f l) ≡ length l
length-map f [] = refl
length-map f (c ∷ rest) = ap suc (length-map f rest)

length-persisted : (p : ProfilingInfo) (l : List ℕ) → length (persisted p l) ≡ length l
unfolding persisted
length-persisted p l = elim (Bool-cases (p.append_mode && p.has_loaded_existing_data)) [
  | inl halved ↦ rw halved (length-map (λ c. c / 2) l)
  | inr kept ↦ rw kept refl
]

-- what `q` is after it has loaded what `p` saved
abbrev reloaded : ProfilingInfo → ProfilingInfo → ProfilingInfo
reloaded p q = record q {
  has_loaded_existing_data =
      not (is_empty p.indirect_branch_targets)
      || has_non_zero_count (persisted p p.instruction_counts)
      || has_non_zero_count (persisted p p.register_access_counts);
  instruction_counts = persisted p p.instruction_counts;
  register_access_counts = persisted p p.register_access_counts;
  indirect_branch_targets = p.indirect_branch_targets;
}

load_document-save :
    (p q : ProfilingInfo) → IsProfile p → load_document (save p) q ≡ some (reloaded p q)
unfolding load_document save
load_document-save p q v =
    let registers : load_registers (persisted p p.register_access_counts) (zeros 32)
        ≡ persisted p p.register_access_counts =
      ap (λ n. load_registers (persisted p p.register_access_counts) (zeros n))
        (sym (length-persisted p p.register_access_counts ∙ v.registers))
      ∙ load_registers-all (persisted p p.register_access_counts) in
    rw
      (
        load_document,
        load_counts-all (persisted p p.instruction_counts)
            (length-persisted p p.instruction_counts ∙ v.types),
        load_branches-all p.indirect_branch_targets v.branches v.destinations,
        save,
        registers,
      )
      refl

-- the first count halved, rounded down, is the second, one by one
abbrev pub Halves : List ℕ → List ℕ → Type 0
Halves [] [] = Unit
Halves (c ∷ rest) (h ∷ halves) = ((c ≡ h + h) ⊎ (c ≡ h + h + 1)) × Halves rest halves
Halves _ _ = ⊥

map-Halves : (l : List ℕ) → Halves l (map (λ c. c / 2) l)
map-Halves [] = tt
map-Halves (c ∷ rest) =
    let even_or_odd : (c ≡ c / 2 + c / 2) ⊎ (c ≡ c / 2 + c / 2 + 1) =
      elim (Bool-cases (c == c / 2 + c / 2)) [
        | inl even ↦ inl (ground (arith, even))
        | inr odd ↦ inr (ground (arith, odd))
      ] in
    (even_or_odd, map-Halves rest)

-- The counts are halved where `p` had loaded existing data in the mode that appends.
abbrev pub IsKept : ProfilingInfo → List ℕ → List ℕ → Type 0
IsKept p counts after =
    ((p.append_mode ≡ true) × (p.has_loaded_existing_data ≡ true) × Halves counts after)
    ⊎ (((p.append_mode ≡ false) ⊎ (p.has_loaded_existing_data ≡ false)) × (after ≡ counts))

-- what is loaded, into `q`, of what was recorded in `recorded` from `p` on
pub record IsReloaded (p recorded q after : ProfilingInfo) : Type 0 where
  pub types : IsKept p recorded.instruction_counts after.instruction_counts
  pub registers : IsKept p recorded.register_access_counts after.register_access_counts
  pub branches : after.indirect_branch_targets ≡ recorded.indirect_branch_targets
  pub append_mode : after.append_mode ≡ q.append_mode
  pub flag : after.has_loaded_existing_data ≡ (
      not (is_empty after.indirect_branch_targets)
      || has_non_zero_count after.instruction_counts
      || has_non_zero_count after.register_access_counts)

persisted-IsKept :
    (p recorded : ProfilingInfo) (counts : List ℕ)
    → recorded.append_mode ≡ p.append_mode
    → recorded.has_loaded_existing_data ≡ p.has_loaded_existing_data
    → IsKept p counts (persisted recorded counts)
unfolding persisted
persisted-IsKept p recorded counts mode existing = elim (Bool-cases p.append_mode) [
  | inr overwrites ↦ inr (inl overwrites, rw (persisted, mode, overwrites) refl)
  | inl appends ↦ elim (Bool-cases p.has_loaded_existing_data) [
    | inr fresh ↦ inr (inr fresh, rw (persisted, mode, appends, existing, fresh) refl)
    | inl loaded ↦
        inl (appends, loaded, rw (persisted, mode, appends, existing, loaded) (map-Halves counts))
  ]
]

-- Whatever is recorded, with 32-bit addresses and in any order, after an empty file or any document
-- has been loaded: what is saved loads without an exception, over any counters. It leaves the targets
-- of the branches with their counts as they were, and the counts of types and of registers as they
-- were, or each halved and rounded down where the counters append and had the flag for existing data
-- set before the recording. The flag is then set where a branch, or a count that is not zero, was
-- loaded.
pub load-save :
    (events : List Event) (p q : ProfilingInfo)
    → AllEvents events
    → IsOpened p
    → (after : ProfilingInfo) × (load_document (save (record_all events p)) q ≡ some after)
      × IsReloaded p (record_all events p) q after
load-save events p q all opened =
    let recorded = record_all events p in
    let (mode, existing) = record_all-flags events p in
    (
      reloaded recorded q,
      load_document-save recorded q
          (record_all-IsProfile events p all (IsOpened-IsProfile p opened)),
      record {
        types = persisted-IsKept p recorded recorded.instruction_counts mode existing;
        registers = persisted-IsKept p recorded recorded.register_access_counts mode existing;
        branches = refl;
        append_mode = refl;
        flag = refl;
      },
    )
