-- ===== src/Profiling/Branches.antt =====
-- The branch targets that are written are read back.
use Prim.Native.Nat.{ℕ}
use mathlib.Core.Path.{◌≡◌, refl, sym, ap, ◌∙◌}
use mathlib.Core.Logic.{◌≢◌}
use mathlib.Core.List.{List, [], ◌∷◌, ◌++◌, append_assoc, append-nil}
use mathlib.Core.Option.{some}
use riscv_sbt.Base.{ne→==}
use riscv_sbt.Base.Word.{IsU32}
use riscv_sbt.Profiling.{change_at}
use riscv_sbt.Profiling.Document.{
  write_destinations, write_branches, load_counted, load_destinations, value_at, load_branches,
}
use riscv_sbt.Profiling.Addresses.{parse_address-format_address}

-- No pair has this key.
abbrev pub IsFresh {ℓ} : {V : Type ℓ} → ℕ → List (ℕ × V) → Type 0
IsFresh key [] = Unit
IsFresh key ((k, v) ∷ rest) = (k ≢ key) × IsFresh key rest

-- The keys are 32-bit addresses, and no two are the same.
abbrev pub IsMap {ℓ} : {V : Type ℓ} → List (ℕ × V) → Type 0
IsMap [] = Unit
IsMap ((k, v) ∷ rest) = IsU32 k × IsFresh k rest × IsMap rest

change_at-fresh {ℓ} :
    {V : Type ℓ} (d : V) (key : ℕ) (f : V → V) (l : List (ℕ × V))
    → IsFresh key l
    → change_at d key f l ≡ l ++ (key, f d) ∷ []
unfolding change_at
change_at-fresh d key f [] fresh = refl
change_at-fresh d key f ((k, v) ∷ rest) (other, fresh) =
    rw (ne→== k key other) (ap (λ r. (k, v) ∷ r) (change_at-fresh d key f rest fresh))

IsFresh-append {ℓ} :
    {V : Type ℓ} (key k : ℕ) (v : V) (l : List (ℕ × V))
    → IsFresh key l
    → k ≢ key
    → IsFresh key (l ++ (k, v) ∷ [])
IsFresh-append key k v [] fresh other = (other, tt)
IsFresh-append key k v ((j, w) ∷ rest) (apart, fresh) other =
    (apart, IsFresh-append key k v rest fresh other)

-- Every key of the second is missing from the first.
abbrev AllFresh {ℓ} : {V : Type ℓ} → List (ℕ × V) → List (ℕ × V) → Type 0
AllFresh before [] = Unit
AllFresh before ((k, v) ∷ rest) = IsFresh k before × AllFresh before rest

AllFresh-append {ℓ} :
    {V : Type ℓ} (k : ℕ) (v : V) (before rest : List (ℕ × V))
    → IsFresh k rest
    → AllFresh before rest
    → AllFresh (before ++ (k, v) ∷ []) rest
AllFresh-append k v before [] fresh all = tt
AllFresh-append k v before ((j, w) ∷ rest) (other, fresh) (apart, all) = (
  IsFresh-append j k v before apart (λ e. other (sym e)),
  AllFresh-append k v before rest fresh all,
)

AllFresh-nil {ℓ} : {V : Type ℓ} (l : List (ℕ × V)) → AllFresh [] l
AllFresh-nil [] = tt
AllFresh-nil ((k, v) ∷ rest) = (tt, AllFresh-nil rest)

load_counted-written :
    (l before : List (ℕ × ℕ))
    → IsMap l
    → AllFresh before l
    → load_counted (write_destinations l) before ≡ some (before ++ l)
unfolding load_counted write_destinations
load_counted-written [] before map fresh = ap some (sym (append-nil before))
load_counted-written ((k, c) ∷ rest) before (small, apart, map) (own, fresh) =
    rw (load_counted, parse_address-format_address k small, change_at-fresh 0 k (λ n. c) before own)
      (load_counted-written rest (before ++ (k, c) ∷ []) map
          (AllFresh-append k c before rest apart fresh)
        ∙ ap some (append_assoc before ((k, c) ∷ []) rest))

value_at-fresh : (key : ℕ) (l : List (ℕ × List (ℕ × ℕ))) → IsFresh key l → value_at key l ≡ []
unfolding value_at
value_at-fresh key [] fresh = refl
value_at-fresh key ((k, v) ∷ rest) (other, fresh) =
    rw (ne→== k key other) (value_at-fresh key rest fresh)

-- Each destination map is one too.
abbrev pub AllMaps : List (ℕ × List (ℕ × ℕ)) → Type 0
AllMaps [] = Unit
AllMaps ((k, v) ∷ rest) = IsMap v × AllMaps rest

load_branches-written :
    (l before : List (ℕ × List (ℕ × ℕ)))
    → IsMap l
    → AllMaps l
    → AllFresh before l
    → load_branches (write_branches l) before ≡ some (before ++ l)
unfolding load_branches write_branches load_destinations
load_branches-written [] before map maps fresh = ap some (sym (append-nil before))
load_branches-written ((k, v) ∷ rest) before (small, apart, map) (own_map, maps) (own, fresh) =
    rw
      (
        load_branches,
        parse_address-format_address k small,
        value_at-fresh k before own,
        load_counted-written v [] own_map (AllFresh-nil v),
        change_at-fresh [] k (λ old. v) before own,
      )
      (load_branches-written rest (before ++ (k, v) ∷ []) map maps
          (AllFresh-append k v before rest apart fresh)
        ∙ ap some (append_assoc before ((k, v) ∷ []) rest))

pub load_branches-all :
    (l : List (ℕ × List (ℕ × ℕ)))
    → IsMap l
    → AllMaps l
    → load_branches (write_branches l) [] ≡ some l
load_branches-all l map maps = load_branches-written l [] map maps (AllFresh-nil l)
