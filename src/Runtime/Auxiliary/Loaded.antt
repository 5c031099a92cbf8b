-- ===== src/Runtime/Auxiliary/Loaded.antt =====
-- The initial stack that `loadAux` leaves.
use Prim.Native.Nat.{ℕ, ◌+◌, ◌*◌, ◌%◌, ◌≤◌, ◌<◌}
use mathlib.Core.Path.{◌≡◌, refl, ap, ◌∙◌}
use mathlib.Core.Bool.{Bool, true}
use mathlib.Core.List.{List}
use mathlib.Core.Option.{some}
use native.Mathlib.Omega.{arith}
use riscv_sbt.Base.{get_elem?, get_elem?-lt, length, if◌then◌else◌}
use riscv_sbt.Base.Word.{◌+w◌, ◌-w◌}
use riscv_sbt.Base.Outcome.{ok, ◌>>=◌}
use riscv_sbt.Runtime.Memory.{Memory, data_size, load_bytes, store_bytes, write}
use riscv_sbt.Runtime.Auxiliary.{
  Auxiliary, at_pagesz, at_null, get_aux_value, write_aux_value, kept_from, strings_size,
  write_strings, args_size, initial_sp_of, load_aux,
}
use riscv_sbt.Runtime.Auxiliary.Strings.{total, write-ok}
use riscv_sbt.Runtime.Auxiliary.Sizes.{
  needs, strings_size-total, get_aux_value-null, kept_from-length, initial_sp_of-facts,
}
use riscv_sbt.Runtime.Auxiliary.Stack.{
  PointsTo, after, first, second, HasPairs, pairs-words, count-word, args-PointsTo, envp-PointsTo,
  args-null, envp-null, below-same,
}

-- The stack from `sp` on: the count, a pointer to each string, and the pairs. The words of the null
-- pointers and what is below are as before.
pub record IsStack (args envp : List (List ℕ)) (page : ℕ) (before m : Memory) : Type 0 where
  pub even : m.initial_sp % 2 ≡ 0
  pub in_memory : m.initial_sp + needs args envp ≤ data_size
  pub tight : data_size ≤ m.initial_sp + needs args envp + 1
  pub argc : load_bytes m.bytes m.initial_sp 4 ≡ length args
  pub arguments :
      (k : ℕ) (s : List ℕ)
      → get_elem? args k ≡ some s
      → PointsTo m.bytes (m.initial_sp + 4 + 4 * k) s m.initial_sp data_size
  pub arguments_null :
      load_bytes m.bytes (m.initial_sp + 4 + 4 * length args) 4
      ≡ load_bytes before.bytes (m.initial_sp + 4 + 4 * length args) 4
  pub environment :
      (k : ℕ) (s : List ℕ)
      → get_elem? envp k ≡ some s
      → PointsTo m.bytes (m.initial_sp + 8 + 4 * length args + 4 * k) s m.initial_sp data_size
  pub environment_null :
      load_bytes m.bytes (m.initial_sp + 8 + 4 * length args + 4 * length envp) 4
      ≡ load_bytes before.bytes (m.initial_sp + 8 + 4 * length args + 4 * length envp) 4
  pub pairs : HasPairs m.bytes (m.initial_sp + 12 + 4 * length args + 4 * length envp) page 0
  pub page_size : m.page_size ≡ page
  pub below : (j : ℕ) → j < m.initial_sp → m.bytes j ≡ before.bytes j

write_aux_value-ok :
    (type value p : ℕ) (m : Memory)
    → p + 8 ≤ data_size
    → write_aux_value type value p m
      ≡ ok (record m { bytes = store_bytes (store_bytes m.bytes p 4 type) (p + 4) 4 value })
unfolding write_aux_value
write_aux_value-ok type value p m room =
    let next : p +w 4 ≡ p + 4 = unfold ◌+w◌ in omega (arith, room) in
    rw (write-ok 4 m p type (omega (arith, room)), next)
      (write-ok 4 (record m { bytes = store_bytes m.bytes p 4 type }) (p + 4) value
        (omega (arith, room)))

module _ (args envp : List (List ℕ)) (initial argc page : ℕ) (m : Memory)
    (room : initial + 28 + 4 * length args + 4 * length envp + total args + total envp
      ≤ data_size) where
  abbrev p : ℕ
  p = initial + 12 + 4 * length args + 4 * length envp

  -- `loadAux` from the first write on
  writes :
      (do
        counted ← write 4 (record m { initial_sp = initial }) initial argc
        (with_args, args_end, env_strings) ←
            write_strings args
              (initial +w 4)
              (initial +w args_size (length args) (length envp))
              counted
        (with_env, env_end, strings_end) ← write_strings envp (args_end +w 4) env_strings with_args
        paged ← write_aux_value at_pagesz page (env_end +w 4) (record with_env { page_size = page })
        write_aux_value at_null 0 (env_end +w 4 +w 8) paged)
      ≡ ok (record m {
        initial_sp = initial;
        page_size = page;
        bytes = after args envp initial argc page 0 m room;
      })
  writes =
      let f = first args envp initial argc page 0 m room in
      let g = second args envp initial argc page 0 m room in
      let start : initial +w 4 ≡ initial + 4 = unfold ◌+w◌ in omega (arith, room) in
      let strings : initial +w args_size (length args) (length envp)
          ≡ initial + 28 + 4 * length args + 4 * length envp =
        unfold ◌+w◌ args_size in omega (arith, room) in
      let env : initial + 4 + 4 * length args +w 4 ≡ initial + 8 + 4 * length args =
        unfold ◌+w◌ in omega (arith, room) in
      let pairs : initial + 8 + 4 * length args + 4 * length envp +w 4
          ≡ initial + 12 + 4 * length args + 4 * length envp =
        unfold ◌+w◌ in omega (arith, room) in
      let eight : p +w 8 ≡ p + 8 = unfold ◌+w◌ in omega (arith, room) in
      let typed : Memory = record m { initial_sp = initial; page_size = page; bytes = g.after } in
      let twice : p + 8 + 4 ≡ p + 12 = omega arith in
      rw
        (
          write-ok 4 (record m { initial_sp = initial }) initial argc (omega (arith, room)),
          start,
          strings,
          f.runs,
          env,
          g.runs,
          pairs,
          write_aux_value-ok at_pagesz page p typed (omega (arith, room)),
          eight,
        )
        (write_aux_value-ok at_null 0 (p + 8)
            (record typed {
              bytes = store_bytes (store_bytes g.after p 4 at_pagesz) (p + 4) 4 page;
            })
            (omega (arith, room))
          ∙ ap
              (λ x. ok (record typed {
                bytes =
                    store_bytes
                      (store_bytes (store_bytes (store_bytes g.after p 4 at_pagesz) (p + 4) 4 page)
                        (p + 8) 4 at_null)
                      x 4 0;
              }))
              twice)

module _ (aux : Auxiliary) (skip : Bool) (m : Memory)
    (two : skip ≡ true → 2 ≤ length aux.argv) where
  abbrev args : List (List ℕ)
  args = kept_from skip 0 aux.argv

  abbrev page : ℕ
  page = get_aux_value aux.auxv at_pagesz

  abbrev initial : ℕ
  initial =
      initial_sp_of (args_size (length args) (length aux.envp))
        (strings_size args +w strings_size aux.envp)

  -- where the stack begins
  initial-facts :
      needs args aux.envp + 1 ≤ data_size
      → (initial % 2 ≡ 0)
        × (initial + needs args aux.envp ≤ data_size)
        × (data_size ≤ initial + needs args aux.envp + 1)
  initial-facts room =
      let pointers : args_size (length args) (length aux.envp)
          ≡ 28 + 4 * length args + 4 * length aux.envp =
        unfold args_size in omega (arith, room) in
      let strings : strings_size args +w strings_size aux.envp ≡ total args + total aux.envp =
        unfold ◌+w◌ in
        omega (
          arith,
          room,
          strings_size-total args (omega (arith, room)),
          strings_size-total aux.envp (omega (arith, room)),
        ) in
      let (even, fits, tight) =
        initial_sp_of-facts (args_size (length args) (length aux.envp))
          (strings_size args +w strings_size aux.envp) (omega (arith, room, pointers, strings)) in
      (even, omega (arith, fits, pointers, strings), omega (arith, tight, pointers, strings))

  -- that the stack is in the memory below the area for mmap
  abbrev Room : Type 0
  Room =
      initial + 28 + 4 * length args + 4 * length aux.envp + total args + total aux.envp ≤ data_size

  abbrev stack : Room → Memory
  stack low = record m {
    initial_sp = initial;
    page_size = page;
    bytes = after args aux.envp initial (length args) page 0 m low;
  }

  load_aux-stack :
      (low : Room)
      → length aux.argv -w (if skip then 1 else 0) ≡ length args
      → load_aux aux skip m ≡ ok (stack low)
  unfolding load_aux
  load_aux-stack low count =
      rw (count, get_aux_value-null aux.auxv)
        (writes args aux.envp initial (length args) page m low)

  -- Where the arguments that are kept, the environment and their pointers fit into the memory, with a
  -- byte to spare, and there is an argument to skip if one is skipped: `loadAux` goes through, and
  -- leaves the stack at an even address as high as they allow, with the count of the arguments, then
  -- for each argument, and each string of the environment, a pointer to the string's bytes and their
  -- null, all of it on the stack, then AT_PAGESZ with the host's page size, cut to 32 bits, and a
  -- null pair. It is the page size of the memory from then on. The words of the two null pointers and
  -- the bytes below the stack are what they were before.
  pub load_aux-IsStack :
      needs args aux.envp + 1 ≤ data_size
      → (after : Memory) × (load_aux aux skip m ≡ ok after)
        × IsStack args aux.envp (get_aux_value aux.auxv at_pagesz) m after
  load_aux-IsStack room =
      let (even, fits, tight) = initial-facts room in
      let low : Room = omega (arith, fits) in
      let count : length aux.argv -w (if skip then 1 else 0) ≡ length args =
        unfold ◌-w◌ in ground (arith, room, kept_from-length skip aux.argv two) in
      (
        stack low,
        load_aux-stack low count,
        record {
          even = even;
          in_memory = fits;
          tight = tight;
          argc = count-word args aux.envp initial (length args) page 0 m low (omega (arith, low));
          arguments = λ k s e.
              args-PointsTo args aux.envp initial (length args) page 0 m low k s e
                (get_elem?-lt args k s e);
          arguments_null = args-null args aux.envp initial (length args) page 0 m low;
          environment = λ k s e.
              envp-PointsTo args aux.envp initial (length args) page 0 m low k s e
                (get_elem?-lt aux.envp k s e);
          environment_null = envp-null args aux.envp initial (length args) page 0 m low;
          pairs = pairs-words args aux.envp initial (length args) page 0 m low;
          page_size = refl;
          below = below-same args aux.envp initial (length args) page 0 m low;
        },
      )
