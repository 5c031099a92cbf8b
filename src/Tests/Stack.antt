-- ===== src/Tests/Stack.antt =====
-- An initial stack.
use mathlib.Core.Path.{◌≡◌, refl}
use mathlib.Core.Bool.{true}
use mathlib.Core.List.{[], ◌∷◌}
use native.Mathlib.Omega.{arith}
use riscv_sbt.Base.Outcome.{ok}
use riscv_sbt.Runtime.Memory.{Memory}
use riscv_sbt.Runtime.Auxiliary.{Auxiliary, at_pagesz, get_aux_value, kept_from, load_aux}
use riscv_sbt.Runtime.Auxiliary.Loaded.{IsStack, load_aux-IsStack}
use riscv_sbt.Tests.Machine.{memory}

-- `emulator prog x`, with `A` in the environment
abbrev pub aux : Auxiliary
aux = record {
  argv = (0x65 ∷ []) ∷ (0x70 ∷ []) ∷ (0x78 ∷ []) ∷ [];
  envp = (0x41 ∷ []) ∷ [];
  auxv = (3, 64) ∷ (6, 4096) ∷ (0, 0) ∷ [];
}

page_of_host : get_aux_value aux.auxv at_pagesz ≡ 4096
unfolding get_aux_value
page_of_host = refl

load_aux-IsStack_example :
    (after : Memory) × (load_aux aux true memory ≡ ok after)
    × IsStack (kept_from true 0 aux.argv) aux.envp (get_aux_value aux.auxv at_pagesz) memory after
load_aux-IsStack_example =
    load_aux-IsStack aux true memory (λ e. omega arith) (unfold kept_from in omega arith)
