-- ===== src/Runtime/Auxiliary/Strings.antt =====
-- What the loops of `loadAux` over the strings leave in memory.
use Prim.Native.Nat.{ℕ, zero, suc, ◌+◌, ◌*◌, ◌%◌, ◌≤◌, ◌<◌}
use mathlib.Core.Path.{◌≡◌, refl, ap, subst, ◌∙◌}
use mathlib.Core.Logic.{◌⊎◌, inl, inr}
use mathlib.Core.Bool.{true}
use mathlib.Core.List.{List, [], ◌∷◌, ◌++◌}
use mathlib.Core.Option.{some}
use native.Mathlib.Omega.{arith}
use riscv_sbt.Base.{get_elem?, get_elem?-lt, length, length-append, leb}
use riscv_sbt.Base.Word.{u32, ◌+w◌}
use riscv_sbt.Base.Outcome.{ok}
use riscv_sbt.Runtime.Memory.{Memory, data_size, mmap_size, load_bytes, store_bytes, write}
use riscv_sbt.Runtime.MemoryLaws.{store_bytes-outside, load_bytes_congr, load-store_bytes}
use riscv_sbt.Runtime.Auxiliary.{ptr_string_size, copy_bytes, write_strings}

abbrev pub arena : ℕ
arena = data_size + mmap_size

-- a write that is in the array
pub write-ok :
    (n : ℕ) (m : Memory) (p v : ℕ)
    → p + n ≤ arena
    → write n m p v ≡ ok (record m { bytes = store_bytes m.bytes p n v })
unfolding write
write-ok n m p v h = let inside : leb (p + n) arena ≡ true = ground (arith, h) in rw inside refl

-- the sum of the sizes, without the wrap
abbrev pub total : List (List ℕ) → ℕ
total [] = 0
total (s ∷ rest) = (length s + 1) + total rest

-- The bytes of a string, cut to their width.
abbrev pub Holds : (ℕ → ℕ) → ℕ → List ℕ → Type 0
Holds f p s = (k b : ℕ) → get_elem? s k ≡ some b → f (p + k) ≡ b % 256

abbrev pub Outside : ℕ → ℕ → ℕ → Type 0
Outside p n j = (j < p) ⊎ (p + n ≤ j)

record Copied (p : ℕ) (s : List ℕ) (m : Memory) : Type 0 where
  pub after : ℕ → ℕ
  pub runs : copy_bytes p s m ≡ ok (record m { bytes = after })
  pub holds : Holds after p s
  pub apart : (j : ℕ) → Outside p (length s) j → after j ≡ m.bytes j

copy_bytes-Copied : (p : ℕ) (s : List ℕ) (m : Memory) → p + length s ≤ arena → Copied p s m
unfolding copy_bytes store_bytes
copy_bytes-Copied p [] m h = record {
  after = m.bytes;
  runs = refl;
  holds = λ k b e. absurd cc;
  apart = λ j out. refl;
}
copy_bytes-Copied p (c ∷ rest) m h =
    let next : Memory = record m { bytes = store_bytes m.bytes p 1 c } in
    let later = copy_bytes-Copied (p + 1) rest next (omega (arith, h)) in
    record {
      after = later.after;
      runs = rw (write-ok 1 m p c (omega (arith, h))) later.runs;
      holds = λ k. held later k;
      apart = λ j out.
          later.apart j (ground (arith, out))
          ∙ store_bytes-outside m.bytes p 1 c j (ground (arith, out));
    }
  where
    held :
        (later : Copied (p + 1) rest (record m { bytes = store_bytes m.bytes p 1 c }))
        → (k b : ℕ) → get_elem? (c ∷ rest) k ≡ some b
        → later.after (p + k) ≡ b % 256
    held later zero b e =
        let is : c ≡ b = cc in ground (arith, later.apart (p + 0) (inl (omega arith)), is)
    held later (suc k) b e =
        ap later.after {x = p + suc k} {y = (p + 1) + k} (omega arith) ∙ later.holds k b e

-- The pointers stand from `d` on, and the strings that they point to from `q` on.
pub record Laid (l : List (List ℕ)) (d q : ℕ) (m : Memory) : Type 0 where
  pub after : ℕ → ℕ
  pub runs : write_strings l d q m ≡ ok (record m { bytes = after }, d + 4 * length l, q + total l)
  pub pointers :
      (k : ℕ) (s : List ℕ)
      → get_elem? l k ≡ some s
      → (r : ℕ) × (load_bytes after (d + 4 * k) 4 ≡ r)
        × (q ≤ r)
        × (r + length s < q + total l)
        × Holds after r (s ++ 0 ∷ [])
  pub apart : (j : ℕ) → Outside d (4 * length l) j → Outside q (total l) j → after j ≡ m.bytes j

module _ (s : List ℕ) (l : List (List ℕ)) (d q : ℕ) (m : Memory) (room : d + 4 * suc (length l) ≤ q)
    (fits : q + total (s ∷ l) ≤ data_size)
    (c : Copied q (s ++ 0 ∷ []) (record m { bytes = store_bytes m.bytes d 4 q }))
    (later : Laid l (d + 4) (q + (length s + 1)) (record m { bytes = c.after })) where
  size : length (s ++ 0 ∷ []) ≡ length s + 1
  size = length-append s (0 ∷ [])

  first_pointer : load_bytes later.after (d + 4 * 0) 4 ≡ q
  first_pointer =
      load_bytes_congr later.after (store_bytes m.bytes d 4 q) (d + 4 * 0) 4 (λ j lo hi.
        later.apart j (inl (omega (arith, hi))) (inl (omega (arith, hi, room)))
        ∙ c.apart j (inl (omega (arith, hi, room))))
      ∙ ap (λ x. load_bytes (store_bytes m.bytes d 4 q) x 4) {x = d + 4 * 0} {y = d} (omega arith)
      ∙ load-store_bytes m.bytes d 4 q
      ∙ omega (arith, fits)

  first_string : Holds later.after q (s ++ 0 ∷ [])
  first_string k b e =
      let inside : k < length (s ++ 0 ∷ []) = get_elem?-lt (s ++ 0 ∷ []) k b e in
      later.apart (q + k) (inr (omega (arith, room))) (inl (omega (arith, inside, size)))
      ∙ c.holds k b e

  laid_pointers :
      (k : ℕ) (t : List ℕ)
      → get_elem? (s ∷ l) k ≡ some t
      → (r : ℕ) × (load_bytes later.after (d + 4 * k) 4 ≡ r)
        × (q ≤ r)
        × (r + length t < q + total (s ∷ l))
        × Holds later.after r (t ++ 0 ∷ [])
  laid_pointers zero t e =
      let is : s ≡ t = cc in
      subst
        (λ x.
          (r : ℕ) × (load_bytes later.after (d + 4 * 0) 4 ≡ r)
          × (q ≤ r)
          × (r + length x < q + total (s ∷ l))
          × Holds later.after r (x ++ 0 ∷ []))
        is (q, first_pointer, omega arith, omega arith, first_string)
  laid_pointers (suc k) t e =
      let (r, points, above, below, holds) = later.pointers k t e in
      (
        r,
        ap (λ x. load_bytes later.after x 4) {x = d + 4 * suc k} {y = (d + 4) + 4 * k} (omega arith)
            ∙ points,
        omega (arith, above),
        omega (arith, below),
        holds,
      )

  Laid-step : Laid (s ∷ l) d q m
  unfolding write_strings ptr_string_size
  Laid-step =
      let pointer : d +w 4 ≡ d + 4 = unfold ◌+w◌ in omega (arith, room, fits) in
      let string : q +w u32 (length s + 1) ≡ q + (length s + 1) =
        unfold ◌+w◌ in omega (arith, fits) in
      let ends_d : (d + 4) + 4 * length l ≡ d + 4 * suc (length l) = omega arith in
      let ends_q : (q + (length s + 1)) + total l ≡ q + total (s ∷ l) = omega arith in
      record {
        after = later.after;
        runs =
            rw (write-ok 4 m d q (omega (arith, room, fits)), c.runs, pointer, string)
              (later.runs ∙ λ i. ok (record m { bytes = later.after }, ends_d i, ends_q i));
        pointers = laid_pointers;
        apart = λ j out_d out_q.
            later.apart j (ground (arith, out_d)) (ground (arith, out_q))
            ∙ c.apart j (ground (arith, out_q, size))
            ∙ store_bytes-outside m.bytes d 4 q j (ground (arith, out_d));
      }

pub write_strings-Laid :
    (l : List (List ℕ)) (d q : ℕ) (m : Memory)
    → d + 4 * length l ≤ q
    → q + total l ≤ data_size
    → Laid l d q m
unfolding write_strings
write_strings-Laid [] d q m room fits = record {
  after = m.bytes;
  runs =
      let ends_d : d ≡ d + 4 * 0 = omega arith in
      let ends_q : q ≡ q + 0 = omega arith in λ i. ok (m, ends_d i, ends_q i);
  pointers = λ k s e. absurd cc;
  apart = λ j out_d out_q. refl;
}
write_strings-Laid (s ∷ l) d q m room fits =
    let size : length (s ++ 0 ∷ []) ≡ length s + 1 = length-append s (0 ∷ []) in
    let c =
      copy_bytes-Copied q (s ++ 0 ∷ []) (record m { bytes = store_bytes m.bytes d 4 q })
        (omega (arith, size, fits)) in
    Laid-step s l d q m room fits c (
      write_strings-Laid l (d + 4) (q + (length s + 1)) (record m { bytes = c.after })
        (omega (arith, room)) (omega (arith, fits)))
