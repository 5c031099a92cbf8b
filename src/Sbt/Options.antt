-- ===== src/Sbt/Options.antt =====
-- sbt/Options.cpp: the command line of the translator.
use Prim.Native.String.{String}
use mathlib.Core.Path.{◌≡◌, refl, sym, ap, subst, ◌∙◌}
use mathlib.Core.Logic.{inl, inr}
use mathlib.Core.Bool.{Bool, true, false, ◌||◌, or-true}
use mathlib.Core.List.{List, [], ◌∷◌, ◌++◌, append_assoc, append-nil}
use text.Mathlib.Text.{◌==◌}
use text.Mathlib.TextEquality.{eq_iff}
use riscv_sbt.Base.{Bool-cases, if◌then◌else◌}
use riscv_sbt.Sbt.Emit.Emitter.{TranslationOptions}

-- the body of the loop: the options so far, and the arguments that are no option
unfoldable pub parse_argument :
    String → TranslationOptions → List String → TranslationOptions × List String
parse_argument arg options positional =
    if arg == "--translation-chaining"
    then (record options { translation_chaining = true }, positional)
    else if arg == "--profile-indirect"
    then (record options { profile_indirect = true }, positional)
    else if arg == "--software-branch-prediction"
    then (record options { software_branch_prediction = true }, positional)
    else if arg == "--use-profiling-data"
    then (record options { use_profiling_data = true }, positional)
    else if arg == "--pin-registers"
    then (record options { pin_registers = true }, positional)
    else (options, positional ++ arg ∷ [])

unfoldable pub parse_from :
    List String → TranslationOptions → List String → TranslationOptions × List String
unfolding parse_argument
parse_from [] options positional = (options, positional)
parse_from (arg ∷ rest) options positional =
    let (set_options, left) = parse_argument arg options positional in
    parse_from rest set_options left

-- The first argument is the program's name.
unfoldable pub parse_arguments : List String → TranslationOptions → TranslationOptions × List String
unfolding parse_from
parse_arguments [] options = (options, [])
parse_arguments (name ∷ rest) options = parse_from rest options []

-- whether an argument is among them
abbrev pub given : String → List String → Bool
given name [] = false
given name (arg ∷ rest) = arg == name || given name rest

abbrev is_option : String → Bool
is_option arg =
    arg == "--translation-chaining"
    || arg == "--profile-indirect"
    || arg == "--software-branch-prediction"
    || arg == "--use-profiling-data"
    || arg == "--pin-registers"

abbrev pub plain : List String → List String
plain [] = []
plain (arg ∷ rest) = if is_option arg then plain rest else arg ∷ plain rest

-- the options with those that are given
abbrev pub with_given : List String → TranslationOptions → TranslationOptions
with_given args options = record {
  profile_indirect = given "--profile-indirect" args || options.profile_indirect;
  translation_chaining = given "--translation-chaining" args || options.translation_chaining;
  use_profiling_data = given "--use-profiling-data" args || options.use_profiling_data;
  software_branch_prediction =
      given "--software-branch-prediction" args || options.software_branch_prediction;
  pin_registers = given "--pin-registers" args || options.pin_registers;
}

-- what is claimed of one argument
abbrev Parses : TranslationOptions → List String → String → Type 0
Parses o positional arg =
    parse_argument arg o positional ≡ (with_given (arg ∷ []) o, positional ++ plain (arg ∷ []))

module _ (o : TranslationOptions) (positional : List String) where
  at_option :
      (arg name : String)
      → (arg == name) ≡ true
      → Parses o positional name
      → Parses o positional arg
  at_option arg name hit parses = subst (Parses o positional) (sym ((eq_iff arg name).0 hit)) parses

  parse_argument_lem : (arg : String) → Parses o positional arg
  unfolding parse_argument
  parse_argument_lem arg = elim (Bool-cases (arg == "--translation-chaining")) [
    | inl hit ↦ at_option arg "--translation-chaining" hit (rw (append-nil positional) refl)
    | inr no_translation_chaining ↦ elim (Bool-cases (arg == "--profile-indirect")) [
      | inl hit ↦ at_option arg "--profile-indirect" hit (rw (append-nil positional) refl)
      | inr no_profile_indirect ↦ elim (Bool-cases (arg == "--software-branch-prediction")) [
        | inl hit ↦
            at_option arg "--software-branch-prediction" hit (rw (append-nil positional) refl)
        | inr no_software_branch_prediction ↦ elim (Bool-cases (arg == "--use-profiling-data")) [
          | inl hit ↦ at_option arg "--use-profiling-data" hit (rw (append-nil positional) refl)
          | inr no_use_profiling_data ↦ elim (Bool-cases (arg == "--pin-registers")) [
            | inl hit ↦ at_option arg "--pin-registers" hit (rw (append-nil positional) refl)
            | inr no_pin_registers ↦
                rw
                  (
                    no_translation_chaining, no_profile_indirect, no_software_branch_prediction,
                    no_use_profiling_data, no_pin_registers,
                  )
                  refl
          ]
        ]
      ]
    ]
  ]

given-cons :
    (name arg : String) (rest : List String) (b : Bool)
    → given name rest || (given name (arg ∷ []) || b) ≡ given name (arg ∷ rest) || b
given-cons name arg rest b = elim (Bool-cases (arg == name)) [
  | inl same ↦ rw same (or-true (given name rest))
  | inr other ↦ rw other refl
]

with_given-cons :
    (arg : String) (rest : List String) (o : TranslationOptions)
    → with_given rest (with_given (arg ∷ []) o) ≡ with_given (arg ∷ rest) o
with_given-cons arg rest o = λ i. record {
  profile_indirect = given-cons "--profile-indirect" arg rest o.profile_indirect i;
  translation_chaining = given-cons "--translation-chaining" arg rest o.translation_chaining i;
  use_profiling_data = given-cons "--use-profiling-data" arg rest o.use_profiling_data i;
  software_branch_prediction =
      given-cons "--software-branch-prediction" arg rest o.software_branch_prediction i;
  pin_registers = given-cons "--pin-registers" arg rest o.pin_registers i;
}

plain-cons :
    (arg : String) (rest : List String) → plain (arg ∷ []) ++ plain rest ≡ plain (arg ∷ rest)
plain-cons arg rest = elim (Bool-cases (is_option arg)) [
  | inl option ↦ rw option refl
  | inr other ↦ rw other refl
]

parse_from_lem :
    (args : List String) (o : TranslationOptions) (positional : List String)
    → parse_from args o positional ≡ (with_given args o, positional ++ plain args)
unfolding parse_from
parse_from_lem [] o positional = rw (append-nil positional) refl
parse_from_lem (arg ∷ rest) o positional = rw (parse_argument_lem o positional arg) (
    parse_from_lem rest (with_given (arg ∷ []) o) (positional ++ plain (arg ∷ [])) ∙ λ i. (
      with_given-cons arg rest o i,
      (append_assoc positional (plain (arg ∷ [])) (plain rest)
            ∙ ap (λ l. positional ++ l) (plain-cons arg rest))
          i,
    ))

-- In any order and any number of times, each option that is among the arguments is set and no other
-- is changed, and the arguments that are no option are returned in their order; the first
-- argument, the program's name, is ignored.
pub parse_arguments_lem :
    (name : String) (args : List String) (o : TranslationOptions)
    → parse_arguments (name ∷ args) o ≡ (with_given args o, plain args)
unfolding parse_arguments
parse_arguments_lem name args o = parse_from_lem args o []
