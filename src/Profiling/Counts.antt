-- ===== src/Profiling/Counts.antt =====
-- The counters that are written are read back, whatever counts are left out because they are zero.
use Prim.Native.Nat.{ℕ, zero, suc, ◌+◌}
use Prim.Native.String.{String}
use mathlib.Core.Path.{◌≡◌, refl, sym, ap, subst, ◌∙◌}
use mathlib.Core.Logic.{inl, inr}
use mathlib.Core.Bool.{Bool, true, false, ◌&&◌, not}
use mathlib.Core.List.{List, [], ◌∷◌, ◌++◌, append_assoc}
use mathlib.Core.Option.{some}
use text.Mathlib.Text
use text.Mathlib.TextEquality.{eq_iff}
use native.Mathlib.Omega.{arith}
use riscv_sbt.Base.{get_elem?, length, length-append, set, ◌==◌, ==→eq, Bool-cases, if◌then◌else◌}
use riscv_sbt.Profiling.{instruction_names, index_from, parse_instruction_name, zeros}
use riscv_sbt.Profiling.Document.{named_counts, load_counts, load_registers}

-- whether a name is among them
abbrev among : String → List String → Bool
among name [] = false
among name (n ∷ rest) = if Text.◌==◌ n name then true else among name rest

abbrev all_apart : List String → Bool
all_apart [] = true
all_apart (n ∷ rest) = not (among n rest) && all_apart rest

names_apart : all_apart instruction_names ≡ true
unfolding instruction_names
names_apart = refl

and-right : (a b : Bool) → (a && b) ≡ true → b ≡ true
and-right true b h = h
and-right false b h = absurd cc

among-get_elem? :
    (names : List String) (k : ℕ) (name : String)
    → get_elem? names k ≡ some name
    → among name names ≡ true
among-get_elem? [] k name at = absurd cc
among-get_elem? (n ∷ rest) zero name at =
    let is : n ≡ name = cc in
    let same : Text.◌==◌ n name ≡ true = (eq_iff n name).1 is in rw same refl
among-get_elem? (n ∷ rest) (suc k) name at = elim (Bool-cases (Text.◌==◌ n name)) [
  | inl same ↦ rw same refl
  | inr other ↦ rw other (among-get_elem? rest k name at)
]

-- A name is found where it stands.
index_from-found :
    (names : List String) (i k : ℕ) (name : String)
    → all_apart names ≡ true
    → get_elem? names k ≡ some name
    → index_from names i name ≡ some (i + k)
unfolding index_from
index_from-found [] i k name apart at = absurd cc
index_from-found (n ∷ rest) i zero name apart at =
    let is : n ≡ name = cc in
    let same : Text.◌==◌ n name ≡ true = (eq_iff n name).1 is in
    rw same (ap some {x = i} {y = i + 0} (omega arith))
index_from-found (n ∷ rest) i (suc k) name apart at = elim (Bool-cases (Text.◌==◌ n name)) [
  | inl same ↦
      let is : n ≡ name = (eq_iff n name).0 same in
      let there : among n rest ≡ true =
        subst (λ x. among x rest ≡ true) (sym is) (among-get_elem? rest k name at) in
      let not_apart : false ≡ true = ap (λ b. not b && all_apart rest) (sym there) ∙ apart in
      absurd cc
  | inr other ↦
      let more : all_apart rest ≡ true = and-right (not (among n rest)) (all_apart rest) apart in
      rw other (
        index_from-found rest (i + 1) k name more at
        ∙ ap some {x = i + 1 + k} {y = i + suc k} (omega arith))
]

pub load_registers-all : (counts : List ℕ) → load_registers counts (zeros (length counts)) ≡ counts
unfolding load_registers zeros
load_registers-all [] = refl
load_registers-all (c ∷ rest) = ap (λ l. c ∷ l) (load_registers-all rest)

set-append :
    (before : List ℕ) (x : ℕ) (after : List ℕ) (c : ℕ)
    → set (before ++ x ∷ after) (length before) c ≡ before ++ c ∷ after
set-append [] x after c = refl
set-append (b ∷ before) x after c = ap (λ l. b ∷ l) (set-append before x after c)

load_counts-cons :
    (name : String) (c : ℕ) (rest : List (String × ℕ)) (counts : List ℕ) (i : ℕ)
    → parse_instruction_name name ≡ some i
    → load_counts ((name, c) ∷ rest) counts ≡ load_counts rest (set counts i c)
unfolding load_counts
load_counts-cons name c rest counts i is = rw (load_counts, is) refl

-- the names from index `length before` on, with their counts
load_counts-named :
    (names : List String) (counts before : List ℕ)
    → length counts ≡ length names
    → ((k : ℕ) (name : String)
        → get_elem? names k ≡ some name
        → parse_instruction_name name ≡ some (length before + k))
    → load_counts (named_counts names counts) (before ++ zeros (length counts))
      ≡ some (before ++ counts)
unfolding load_counts named_counts zeros
load_counts-named [] [] before same found = refl
load_counts-named [] (c ∷ counts) before same found = absurd (omega (arith, same))
load_counts-named (n ∷ names) [] before same found = absurd (omega (arith, same))
load_counts-named (n ∷ names) (c ∷ counts) before same found =
    let next : load_counts (named_counts names counts) (before ++ c ∷ zeros (length counts))
        ≡ some (before ++ c ∷ counts) =
      ap (load_counts (named_counts names counts))
        (sym (append_assoc before (c ∷ []) (zeros (length counts))))
      ∙ load_counts-named names counts (before ++ c ∷ []) (omega (arith, same)) (λ k name at.
        found (suc k) name at ∙ ap some (omega (arith, length-append before (c ∷ []))))
      ∙ ap some (append_assoc before (c ∷ []) counts) in
    elim (Bool-cases (c == 0)) [
      | inl none_counted ↦
          let is : c ≡ 0 = ==→eq _ _ none_counted in
          rw none_counted (
            ap (λ x. load_counts (named_counts names counts) (before ++ x ∷ zeros (length counts)))
              (sym is)
            ∙ next)
      | inr some_counted ↦
          let index : parse_instruction_name n ≡ some (length before) =
            found 0 n refl ∙ ap some {x = length before + 0} (omega arith) in
          rw some_counted (
            load_counts-cons n c (named_counts names counts) (before ++ 0 ∷ zeros (length counts))
              (length before) index
            ∙ ap (load_counts (named_counts names counts))
                (set-append before 0 (zeros (length counts)) c)
            ∙ next)
    ]

-- all of the names
pub load_counts-all :
    (counts : List ℕ)
    → length counts ≡ 51
    → load_counts (named_counts instruction_names counts) (zeros 51) ≡ some counts
unfolding instruction_names parse_instruction_name
load_counts-all counts same =
    ap (λ n. load_counts (named_counts instruction_names counts) (zeros n)) (sym same)
    ∙ load_counts-named instruction_names counts [] same
        (λ k name at. index_from-found instruction_names 0 k name names_apart at)
