-- ===== src/Tests/Parsing.antt =====
-- A command line of the translator.
use Prim.Native.String.{String}
use mathlib.Core.Path.{◌≡◌, refl}
use mathlib.Core.Bool.{true, false}
use mathlib.Core.List.{List, [], ◌∷◌}
use riscv_sbt.Sbt.Emit.Emitter.{TranslationOptions}
use riscv_sbt.Sbt.Options.{parse_arguments, with_given, plain, parse_arguments_lem}

abbrev defaults : TranslationOptions
defaults = record {
  profile_indirect = false;
  translation_chaining = false;
  use_profiling_data = false;
  software_branch_prediction = false;
  pin_registers = true;
}

abbrev command_line : List String
command_line = "a.elf" ∷ "--translation-chaining" ∷ "out" ∷ "--use-profiling-data" ∷ []

parse_arguments_lem_example :
    parse_arguments ("sbt" ∷ command_line) defaults
    ≡ (with_given command_line defaults, plain command_line)
parse_arguments_lem_example = parse_arguments_lem "sbt" command_line defaults

parsed : parse_arguments ("sbt" ∷ command_line) defaults ≡ (
  record defaults { translation_chaining = true; use_profiling_data = true },
  "a.elf" ∷ "out" ∷ [],
)
unfolding parse_arguments
parsed = refl
