-- ===== src/Emulator/Guest.antt =====
-- The guest that `main` enters its loop with.
use Prim.Native.Nat.{ℕ, ◌+◌, ◌*◌, ◌%◌, ◌^◌, ◌≤◌, ◌<◌}
use mathlib.Core.Path.{◌≡◌, refl, sym, ap, subst, ◌∙◌}
use mathlib.Core.Logic.{◌⊎◌}
use mathlib.Core.Bool.{true}
use mathlib.Core.List.{List, [], ◌∷◌}
use mathlib.Core.Option.{Option, none, some}
use native.Mathlib.Omega.{arith}
use riscv_sbt.Base.{get_elem?, get_elem?-lt, length, leb}
use riscv_sbt.Base.Word.{u32}
use riscv_sbt.Base.Outcome.{ok}
use riscv_sbt.Runtime.Memory.{Memory, data_size, load_bytes, read}
use riscv_sbt.Runtime.MemoryLaws.{load_bytes_congr}
use riscv_sbt.Runtime.Context.{Context, set_reg}
use riscv_sbt.Runtime.Arena.{page_align, initialize_heap}
use riscv_sbt.Runtime.Auxiliary.{Auxiliary, at_pagesz, get_aux_value, kept_from, load_aux}
use riscv_sbt.Runtime.Auxiliary.Sizes.{needs, kept_all}
use riscv_sbt.Runtime.Auxiliary.Loaded.{IsStack, load_aux-IsStack}
use riscv_sbt.Elf.{ElfBinarySection, get_load_address, load_to_memory}
use riscv_sbt.Elf.TextBounds.{IsSection}
use riscv_sbt.Elf.Loading.{
  end_of_load, EndsAt, EndsInRange, IsDisjoint, SectionsLoaded, sections-Loaded,
}
use riscv_sbt.Emulator.{Binary, base_ra, initial_registers, take_name, load_guest}

-- ra and gp, with a `_start` and without
abbrev pub HasLink : Option ℕ → Option ℕ → Context → Type 0
HasLink (some address) gp c = (c.reg 1 ≡ 0) × (c.reg 3 ≡ 0)
HasLink none (some gp) c = (c.reg 1 ≡ base_ra) × (c.reg 3 ≡ gp)
HasLink none none c = (c.reg 1 ≡ base_ra) × (c.reg 3 ≡ 0)

-- The guest is at its entry point, with the stack of its arguments, and each section that ends below
-- the stack is in its memory.
pub record IsReady (binary : Binary) (before : Memory) (args envp : List (List ℕ)) (page : ℕ)
    (c : Context) : Type 0 where
  pub loaded : Memory
  pub data_end : ℕ
  pub loads : load_to_memory binary.sections before ≡ ok (loaded, data_end)
  pub data_end_covers :
      (s : ElfBinarySection)
      → IsSection s binary.sections
      → end_of_load s ≤ data_size
      → end_of_load s ≤ data_end
  pub data_end_attained : (data_end ≡ 0) ⊎ EndsAt data_end binary.sections
  pub heap : c.memory.heap_base ≡ u32 (page_align page data_end)
  pub pc : c.pc ≡ binary.entry_address
  pub stack_pointer : c.reg 2 ≡ c.memory.initial_sp
  pub zero_reg : c.reg 0 ≡ 0
  pub link : HasLink binary.start_symbol binary.global_pointer c
  pub stack : IsStack args envp page loaded c.memory
  pub sections :
      (s : ElfBinarySection)
      → IsSection s binary.sections
      → end_of_load s ≤ c.memory.initial_sp
      → (k w : ℕ) → get_elem? s.words k ≡ some w
      → read 4 c.memory (get_load_address s + k * 4) ≡ ok (w % 256 ^ 4)

initial_registers-link :
    (binary : Binary) (c : Context)
    → ((r : ℕ) → c.reg r ≡ 0)
    → ((initial_registers binary c).pc ≡ c.pc)
      × ((initial_registers binary c).reg 2 ≡ c.memory.initial_sp)
      × ((initial_registers binary c).reg 0 ≡ 0)
      × HasLink binary.start_symbol binary.global_pointer (initial_registers binary c)
      × ((initial_registers binary c).memory ≡ c.memory)
unfolding initial_registers set_reg
initial_registers-link binary c zeros =
    by_symbols binary.start_symbol binary.global_pointer refl refl
  where
    by_symbols :
        (start gp : Option ℕ)
        → binary.start_symbol ≡ start
        → binary.global_pointer ≡ gp
        → ((initial_registers binary c).pc ≡ c.pc)
          × ((initial_registers binary c).reg 2 ≡ c.memory.initial_sp)
          × ((initial_registers binary c).reg 0 ≡ 0)
          × HasLink binary.start_symbol binary.global_pointer (initial_registers binary c)
          × ((initial_registers binary c).memory ≡ c.memory)
    by_symbols (some address) gp is_start is_gp =
        rw (initial_registers, is_start) (refl, refl, zeros 0, (zeros 1, zeros 3), refl)
    by_symbols none (some gp) is_start is_gp =
        rw (initial_registers, is_start, is_gp) (refl, refl, zeros 0, (refl, refl), refl)
    by_symbols none none is_start is_gp =
        rw (initial_registers, is_start, is_gp) (refl, refl, zeros 0, (refl, refl), refl)

-- a word that is below the stack
word-same :
    (m g : Memory) (p first : ℕ)
    → ((j : ℕ) → j < first → g.bytes j ≡ m.bytes j)
    → p + 4 ≤ first
    → read 4 g p ≡ read 4 m p
unfolding read
word-same m g p first same room =
    let equal : load_bytes g.bytes p 4 ≡ load_bytes m.bytes p 4 =
      load_bytes_congr g.bytes m.bytes p 4 λ j lo hi. same j (omega (arith, hi, room)) in
    rw equal refl

module _ (binary : Binary) (aux : Auxiliary) (m : Memory) (l : SectionsLoaded 0 binary.sections m)
    (path : List ℕ) (rest : List (List ℕ))
    (room : needs (path ∷ rest) aux.envp + 1 ≤ data_size) where
  abbrev args : List (List ℕ)
  args = path ∷ rest

  abbrev page : ℕ
  page = get_aux_value aux.auxv at_pagesz

  -- the arguments after the `strcpy`
  abbrev named : Auxiliary
  named = record aux { argv = path ∷ path ∷ rest }

  kept : kept_from true 0 named.argv ≡ args
  unfolding kept_from
  kept = ap (λ r. path ∷ r) (kept_all true 2 rest (omega arith))

  stack :
      (after : Memory) × (load_aux named true l.after ≡ ok after)
      × IsStack args aux.envp page l.after after
  stack =
      subst
        (λ k.
          (after : Memory) × (load_aux named true l.after ≡ ok after)
          × IsStack k aux.envp page l.after after)
        kept
        (load_aux-IsStack named true l.after (λ e. omega arith)
          (subst (λ k. needs k aux.envp + 1 ≤ data_size) (sym kept) room))

  abbrev fresh : Context
  fresh = record {
    reg = λ r. 0;
    pc = binary.entry_address;
    memory = initialize_heap l.last stack.0;
    unsupported = [];
  }

  fresh-sections :
      (s : ElfBinarySection)
      → IsSection s binary.sections
      → end_of_load s ≤ stack.0.initial_sp
      → (k w : ℕ) → get_elem? s.words k ≡ some w
      → read 4 fresh.memory (get_load_address s + k * 4) ≡ ok (w % 256 ^ 4)
  unfolding initialize_heap
  fresh-sections s inside below k w e =
      let bound = get_elem?-lt s.words k w e in
      word-same l.after fresh.memory (get_load_address s + k * 4) stack.0.initial_sp stack.2.below
        (omega (arith, bound, below))
      ∙ l.found s inside (omega (arith, below, stack.2.in_memory)) k w e

  fresh-stack : IsStack args aux.envp page l.after fresh.memory
  unfolding initialize_heap
  fresh-stack = record {
    even = stack.2.even;
    in_memory = stack.2.in_memory;
    tight = stack.2.tight;
    argc = stack.2.argc;
    arguments = stack.2.arguments;
    arguments_null = stack.2.arguments_null;
    environment = stack.2.environment;
    environment_null = stack.2.environment_null;
    pairs = stack.2.pairs;
    page_size = stack.2.page_size;
    below = stack.2.below;
  }

  fresh-heap : fresh.memory.heap_base ≡ u32 (page_align page l.last)
  unfolding initialize_heap
  fresh-heap = ap (λ x. u32 (page_align x l.last)) stack.2.page_size

  same_sp : fresh.memory.initial_sp ≡ stack.0.initial_sp
  unfolding initialize_heap
  same_sp = refl

  entered :
      (c : Context)
      → (c.pc ≡ binary.entry_address)
        × (c.reg 2 ≡ fresh.memory.initial_sp)
        × (c.reg 0 ≡ 0)
        × HasLink binary.start_symbol binary.global_pointer c
        × (c.memory ≡ fresh.memory)
      → IsReady binary m args aux.envp page c
  unfolding load_to_memory
  entered c (pc, sp, zero_reg, link, same) = record {
    loaded = l.after;
    data_end = l.last;
    loads = l.runs;
    data_end_covers = l.covers;
    data_end_attained = l.attained;
    heap = ap (λ x. x.heap_base) same ∙ fresh-heap;
    pc = pc;
    stack_pointer = sp ∙ ap (λ x. x.initial_sp) (sym same);
    zero_reg = zero_reg;
    link = link;
    stack = subst (IsStack args aux.envp page l.after) (sym same) fresh-stack;
    sections = λ s inside below k w e.
        ap (λ x. read 4 x (get_load_address s + k * 4)) same
        ∙ fresh-sections s inside
            (subst (λ x. end_of_load s ≤ x) (ap (λ x. x.initial_sp) same ∙ same_sp) below) k w e;
  }

  takes :
      (name : List ℕ)
      → aux.argv ≡ name ∷ path ∷ rest
      → length path ≤ length name
      → take_name aux ≡ ok named
  unfolding take_name
  takes name given shorter =
      let fits : leb (length path) (length name) ≡ true = ground (arith, shorter) in
      rw (take_name, given, fits) refl

  ready :
      take_name aux ≡ ok named
      → (c : Context) × (load_guest binary aux m ≡ ok c) × IsReady binary m args aux.envp page c
  unfolding load_guest load_to_memory
  ready taken = (
    initial_registers binary fresh,
    rw (taken, l.runs, stack.1) refl,
    entered (initial_registers binary fresh) (initial_registers-link binary fresh (λ r. refl)),
  )

-- Where the load addresses of the sections do not wrap around or overlap, the path of the file is no
-- longer than the emulator's name, and the stack of the arguments fits: `main` comes to its loop with
-- pc at the entry point, x0 zero, sp at the stack, whose arguments are the path and those after
-- it, and, in a file without a `_start`, ra at BASE_RA and gp at `__global_pointer$` or zero; with the
-- heap at the page boundary (`page_align`) from the highest end of a section that fits in the memory,
-- or from zero where none does; and with each word of each section that ends below the stack at its
-- load address.
pub load_guest-IsReady :
    (binary : Binary) (aux : Auxiliary) (m : Memory) (name path : List ℕ) (rest : List (List ℕ))
    → EndsInRange binary.sections
    → IsDisjoint binary.sections
    → aux.argv ≡ name ∷ path ∷ rest
    → length path ≤ length name
    → needs (path ∷ rest) aux.envp + 1 ≤ data_size
    → (c : Context) × (load_guest binary aux m ≡ ok c)
      × IsReady binary m (path ∷ rest) aux.envp (get_aux_value aux.auxv at_pagesz) c
load_guest-IsReady binary aux m name path rest ends apart given shorter room =
    let l = sections-Loaded binary.sections 0 m ends apart in
    ready binary aux m l path rest room (takes binary aux m l path rest room name given shorter)
