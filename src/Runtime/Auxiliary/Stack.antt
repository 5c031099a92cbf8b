-- ===== src/Runtime/Auxiliary/Stack.antt =====
-- The bytes of the initial stack: the count and pointers, the strings, and the auxiliary pairs.
use Prim.Native.Nat.{ℕ, ◌+◌, ◌*◌, ◌%◌, ◌^◌, ◌≤◌, ◌<◌}
use mathlib.Core.Path.{◌≡◌, ◌∙◌}
use mathlib.Core.Logic.{◌⊎◌, inl, inr}
use mathlib.Core.List.{List, [], ◌∷◌, ◌++◌}
use mathlib.Core.Option.{some}
use native.Mathlib.Omega.{arith}
use riscv_sbt.Base.{get_elem?, get_elem?-lt, length, length-append}
use riscv_sbt.Base.Word.{IsU32}
use riscv_sbt.Runtime.Memory.{Memory, data_size, load_bytes, store_bytes}
use riscv_sbt.Runtime.MemoryLaws.{store_bytes-outside, load_bytes_congr, load-store_bytes}
use riscv_sbt.Runtime.Auxiliary.{at_pagesz, at_null}
use riscv_sbt.Runtime.Auxiliary.Strings.{total, Holds, Outside, Laid, write_strings-Laid}

-- The word at `p` points to a string with its null, between `low` and `high`.
abbrev pub PointsTo : (ℕ → ℕ) → ℕ → List ℕ → ℕ → ℕ → Type 0
PointsTo f p s low high =
    (r : ℕ) × (load_bytes f p 4 ≡ r) × (low ≤ r) × (r + length s < high) × Holds f r (s ++ 0 ∷ [])

PointsTo-same :
    (f g : ℕ → ℕ) (p : ℕ) (s : List ℕ) (low high low2 high2 : ℕ)
    → ((j : ℕ) → p ≤ j → j < p + 4 → g j ≡ f j)
    → ((j : ℕ) → low ≤ j → j < high → g j ≡ f j)
    → low2 ≤ low
    → high ≤ high2
    → PointsTo f p s low high
    → PointsTo g p s low2 high2
PointsTo-same f g p s low high low2 high2 words strings wider_low wider_high
      (r, points, above, below, holds) =
    (
      r,
      load_bytes_congr g f p 4 words ∙ points,
      omega (arith, wider_low, above),
      omega (arith, wider_high, below),
      λ k b e.
          let inside : k < length (s ++ 0 ∷ []) = get_elem?-lt (s ++ 0 ∷ []) k b e in
          let size : length (s ++ 0 ∷ []) ≡ length s + 1 = length-append s (0 ∷ []) in
          strings (r + k) (omega (arith, above)) (omega (arith, below, inside, size)) ∙ holds k b e,
    )

-- the pairs of `AT_PAGESZ` and `AT_NULL` at `p`
abbrev pub HasPairs : (ℕ → ℕ) → ℕ → ℕ → ℕ → Type 0
HasPairs f p page null =
    (load_bytes f p 4 ≡ at_pagesz)
    × (load_bytes f (p + 4) 4 ≡ page % 2 ^ 32)
    × (load_bytes f (p + 8) 4 ≡ at_null)
    × (load_bytes f (p + 12) 4 ≡ null % 2 ^ 32)

store-apart :
    (f : ℕ → ℕ) (p v q : ℕ)
    → (q + 4 ≤ p) ⊎ (p + 4 ≤ q)
    → load_bytes (store_bytes f p 4 v) q 4 ≡ load_bytes f q 4
store-apart f p v q away =
    load_bytes_congr (store_bytes f p 4 v) f q 4
      λ j lo hi. store_bytes-outside f p 4 v j (ground (arith, away))

module _ (args envp : List (List ℕ)) (sp argc page null : ℕ) (m : Memory)
    (room : sp + 28 + 4 * length args + 4 * length envp + total args + total envp ≤ data_size) where
  abbrev pub strings_at : ℕ
  strings_at = sp + 28 + 4 * length args + 4 * length envp

  abbrev pub pairs_at : ℕ
  pairs_at = sp + 12 + 4 * length args + 4 * length envp

  abbrev pub counted : Memory
  counted = record m { initial_sp = sp; bytes = store_bytes m.bytes sp 4 argc }

  pub first : Laid args (sp + 4) strings_at counted
  first = write_strings-Laid args (sp + 4) strings_at counted (omega arith) (omega (arith, room))

  abbrev pub with_args : Memory
  with_args = record m { initial_sp = sp; bytes = first.after }

  pub second : Laid envp (sp + 8 + 4 * length args) (strings_at + total args) with_args
  second =
      write_strings-Laid envp (sp + 8 + 4 * length args) (strings_at + total args) with_args
        (omega arith) (omega (arith, room))

  -- the two pairs
  abbrev pub after : ℕ → ℕ
  after =
      store_bytes
        (store_bytes
          (store_bytes (store_bytes second.after pairs_at 4 at_pagesz) (pairs_at + 4) 4 page)
          (pairs_at + 8) 4 at_null)
        (pairs_at + 12) 4 null

  unpaired : (j : ℕ) → Outside pairs_at 16 j → after j ≡ second.after j
  unpaired j out =
      store_bytes-outside _ (pairs_at + 12) 4 null j (ground (arith, out))
      ∙ store_bytes-outside _ (pairs_at + 8) 4 at_null j (ground (arith, out))
      ∙ store_bytes-outside _ (pairs_at + 4) 4 page j (ground (arith, out))
      ∙ store_bytes-outside second.after pairs_at 4 at_pagesz j (ground (arith, out))

  -- below the strings, but for the pairs and the pointers to the environment
  before_env :
      (j : ℕ)
      → (j < sp + 8 + 4 * length args) ⊎ (pairs_at + 16 ≤ j)
      → j < strings_at + total args
      → after j ≡ first.after j
  before_env j out low =
      unpaired j (ground (arith, out)) ∙ second.apart j (ground (arith, out)) (inl low)

  untouched :
      (j : ℕ)
      → Outside sp 4 j
      → Outside (sp + 4) (4 * length args) j
      → Outside (sp + 8 + 4 * length args) (4 * length envp) j
      → Outside pairs_at 16 j
      → j < strings_at
      → after j ≡ m.bytes j
  untouched j out_count out_args out_env out_pairs low =
      unpaired j out_pairs
      ∙ second.apart j out_env (inl (omega (arith, low)))
      ∙ first.apart j out_args (inl low)
      ∙ store_bytes-outside m.bytes sp 4 argc j out_count

  pub count-word : IsU32 argc → load_bytes after sp 4 ≡ argc
  count-word small =
      load_bytes_congr after (store_bytes m.bytes sp 4 argc) sp 4 (λ j lo hi.
        before_env j (inl (omega (arith, hi))) (omega (arith, hi))
        ∙ first.apart j (inl (omega (arith, hi))) (inl (omega (arith, hi))))
      ∙ load-store_bytes m.bytes sp 4 argc
      ∙ omega (arith, small)

  pub args-PointsTo :
      (k : ℕ) (s : List ℕ)
      → get_elem? args k ≡ some s
      → k < length args
      → PointsTo after (sp + 4 + 4 * k) s sp data_size
  args-PointsTo k s e inside =
      PointsTo-same first.after after (sp + 4 + 4 * k) s strings_at (strings_at + total args) sp
        data_size
        (λ j lo hi. before_env j (inl (omega (arith, hi, inside))) (omega (arith, hi, inside)))
        (λ j lo hi. before_env j (inr (omega (arith, lo))) hi) (omega arith) (omega (arith, room))
        (first.pointers k s e)

  pub envp-PointsTo :
      (k : ℕ) (s : List ℕ)
      → get_elem? envp k ≡ some s
      → k < length envp
      → PointsTo after (sp + 8 + 4 * length args + 4 * k) s sp data_size
  envp-PointsTo k s e inside =
      PointsTo-same second.after after (sp + 8 + 4 * length args + 4 * k) s
        (strings_at + total args) (strings_at + total args + total envp) sp data_size
        (λ j lo hi. unpaired j (inl (omega (arith, hi, inside))))
        (λ j lo hi. unpaired j (inr (omega (arith, lo)))) (omega arith) (omega (arith, room))
        (second.pointers k s e)

  -- the words that the code leaves for the null pointers
  pub args-null :
      load_bytes after (sp + 4 + 4 * length args) 4
      ≡ load_bytes m.bytes (sp + 4 + 4 * length args) 4
  args-null = load_bytes_congr after m.bytes _ 4 λ j lo hi.
      untouched j (inr (omega (arith, lo))) (inr (omega (arith, lo))) (inl (omega (arith, hi)))
        (inl (omega (arith, hi))) (omega (arith, hi))

  pub envp-null :
      load_bytes after (sp + 8 + 4 * length args + 4 * length envp) 4
      ≡ load_bytes m.bytes (sp + 8 + 4 * length args + 4 * length envp) 4
  envp-null = load_bytes_congr after m.bytes _ 4 λ j lo hi.
      untouched j (inr (omega (arith, lo))) (inr (omega (arith, lo))) (inr (omega (arith, lo)))
        (inl (omega (arith, hi))) (omega (arith, hi))

  pub below-same : (j : ℕ) → j < sp → after j ≡ m.bytes j
  below-same j low =
      untouched j (inl low) (inl (omega (arith, low))) (inl (omega (arith, low)))
        (inl (omega (arith, low))) (omega (arith, low))

  pub pairs-words : HasPairs after pairs_at page null
  pairs-words = (
    store-apart _ (pairs_at + 12) null pairs_at (inl (omega arith))
        ∙ store-apart _ (pairs_at + 8) at_null pairs_at (inl (omega arith))
        ∙ store-apart _ (pairs_at + 4) page pairs_at (inl (omega arith))
        ∙ load-store_bytes second.after pairs_at 4 at_pagesz,
    store-apart _ (pairs_at + 12) null (pairs_at + 4) (inl (omega arith))
        ∙ store-apart _ (pairs_at + 8) at_null (pairs_at + 4) (inl (omega arith))
        ∙ load-store_bytes _ (pairs_at + 4) 4 page,
    store-apart _ (pairs_at + 12) null (pairs_at + 8) (inl (omega arith))
        ∙ load-store_bytes _ (pairs_at + 8) 4 at_null,
    load-store_bytes _ (pairs_at + 12) 4 null,
  )
