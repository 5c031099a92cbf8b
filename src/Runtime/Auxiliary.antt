-- ===== src/Runtime/Auxiliary.antt =====
-- Memory::loadAux of lib/runtime/Memory.cpp: the arguments, the environment and the auxiliary vector on
-- the guest's initial stack.
pub mod Strings
pub mod Sizes
pub mod Stack
pub mod Loaded
use Prim.Native.Nat.{ℕ, zero, suc, ◌+◌, ◌*◌, ◌%◌}
use mathlib.Core.Bool.{Bool, ◌&&◌}
use mathlib.Core.List.{List, [], ◌∷◌, ◌++◌}
use riscv_sbt.Base.{length, ◌==◌, if◌then◌else◌}
use riscv_sbt.Base.Word.{u32, ◌+w◌, ◌-w◌}
use riscv_sbt.Base.Outcome.{Outcome, ok, ◌>>=◌}
use riscv_sbt.Runtime.Memory.{Memory, data_size, write}

-- A string of the host is the list of its bytes without the null that ends it. `argv` is the list of
-- its `argc` strings, `envp` that of the strings before the null pointer, and `auxv` that of the
-- pairs after it.
pub record Auxiliary : Type 0 where
  pub argv : List (List ℕ)
  pub envp : List (List ℕ)
  pub auxv : List (ℕ × ℕ)

-- the types of elf.h
abbrev pub at_null : ℕ
at_null = 0

abbrev pub at_pagesz : ℕ
at_pagesz = 6

unfoldable pub ptr_string_size : List ℕ → ℕ
ptr_string_size s = u32 (length s + 1)

-- A type of 0 ends the vector.
unfoldable pub get_aux_value : List (ℕ × ℕ) → ℕ → ℕ
get_aux_value [] type = 0
get_aux_value ((t, v) ∷ rest) type =
    let later = get_aux_value rest type in if t == 0 then 0 else if t == type then v else later

unfoldable pub write_aux_value : ℕ → ℕ → ℕ → Memory → Outcome Memory
write_aux_value type value address m = do
  typed ← write 4 m address type
  write 4 typed (address +w 4) value

-- the strings that the loops over `argv` do not skip, from index `i` on
unfoldable pub kept_from : Bool → ℕ → List (List ℕ) → List (List ℕ)
kept_from skip_second_arg i [] = []
kept_from skip_second_arg i (s ∷ rest) =
    let later = kept_from skip_second_arg (i + 1) rest in
    if i == 1 && skip_second_arg then later else s ∷ later

unfoldable pub strings_size : List (List ℕ) → ℕ
unfolding ptr_string_size
strings_size [] = 0
strings_size (s ∷ rest) = ptr_string_size s +w strings_size rest

-- `memcpy` of a string
unfoldable pub copy_bytes : ℕ → List ℕ → Memory → Outcome Memory
copy_bytes p [] m = ok m
copy_bytes p (b ∷ rest) m = do written ← write 1 m p b; copy_bytes (p + 1) rest written

-- A loop that writes strings and the pointers to them, with what it leaves in `dataPtr` and `strPtr`.
unfoldable pub write_strings : List (List ℕ) → ℕ → ℕ → Memory → Outcome (Memory × ℕ × ℕ)
unfolding copy_bytes ptr_string_size
write_strings [] data_ptr str_ptr m = ok (m, data_ptr, str_ptr)
write_strings (s ∷ rest) data_ptr str_ptr m = do
  pointed ← write 4 m data_ptr str_ptr
  copied ← copy_bytes str_ptr (s ++ 0 ∷ []) pointed
  write_strings rest (data_ptr +w 4) (str_ptr +w ptr_string_size s) copied

-- `argsSize`, of which the last two summands are `AT_PAGESZ` and `AT_NULL`
unfoldable pub args_size : ℕ → ℕ → ℕ
args_size argc envc = u32 (2 * 4 + argc * 4 + envc * 4 + 4 + 8 + 8)

unfoldable pub initial_sp_of : ℕ → ℕ → ℕ
initial_sp_of args_bytes str_bytes = let sp = (data_size -w args_bytes) -w str_bytes in sp -w sp % 2

unfoldable pub load_aux : Auxiliary → Bool → Memory → Outcome Memory
load_aux aux skip_second_arg m =
    let argc = length aux.argv -w (if skip_second_arg then 1 else 0) in
    let args = kept_from skip_second_arg 0 aux.argv in
    let args_bytes = args_size argc (length aux.envp) in
    let sp = initial_sp_of args_bytes (strings_size args +w strings_size aux.envp) in
    do
      counted ← write 4 (record m { initial_sp = sp }) sp argc
      (with_args, args_end, env_strings) ← write_strings args (sp +w 4) (sp +w args_bytes) counted
      (with_env, env_end, strings_end) ←
          write_strings aux.envp (args_end +w 4) env_strings with_args
      let page_size = get_aux_value aux.auxv at_pagesz
      paged ←
          write_aux_value at_pagesz page_size (env_end +w 4)
            (record with_env { page_size = page_size })
      write_aux_value at_null (get_aux_value aux.auxv at_null) (env_end +w 4 +w 8) paged
