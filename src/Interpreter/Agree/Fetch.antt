-- ===== src/Interpreter/Agree/Fetch.antt =====
-- The interpreters with the fetch: decoding at each step against slots decoded beforehand.
use Prim.Native.Nat.{ℕ, zero, suc, ◌^◌, ◌<◌}
use mathlib.Core.Path.{◌≡◌, refl, subst}
use mathlib.Core.List.{List}
use riscv_sbt.Base.Outcome.{Outcome, ok, ◌>>=◌, Leaves, Leaves-bind, Leaves-map2, bind_congr_on}
use riscv_sbt.Decoder.Instructions.{Instruction}
use riscv_sbt.Decoder.Decode.{decode}
use riscv_sbt.Decoder.Immediate.{decode-imm}
use riscv_sbt.Runtime.Context.{Context, load}
use riscv_sbt.Interpreter.Chain.{run_instruction}
use riscv_sbt.Interpreter.Predecoded.{run_instruction_predecoded}
use riscv_sbt.Interpreter.Threaded.{slot, predecoded_rounds}
use riscv_sbt.Interpreter.Valid.{FitsWords, IsValid, load-lt, run_instruction_predecoded-IsValid}
use riscv_sbt.Interpreter.Agree.Word.{run_instruction_word-predecoded}

-- `count` rounds of `runInstruction`
unfoldable pub fetched_rounds : (Context → Outcome Context) → ℕ → Context → Outcome Context
fetched_rounds handle zero c = ok c
fetched_rounds handle (suc count) c = do
  next ← run_instruction handle c
  fetched_rounds handle count next

-- The word at pc is in the arena, and the slot that pc selects holds its decoding.
abbrev pub SlotMatches : List Instruction → ℕ → Context → Type 0
SlotMatches is start c =
    (w : ℕ) × (load 4 c c.pc ≡ ok w) × (slot is start c.pc ≡ ok (decode w c.pc))

-- The slots match at each state that `count` rounds go through.
abbrev pub MatchesFor : (Context → Outcome Context) → List Instruction → ℕ → ℕ → Context → Type 0
MatchesFor handle is start zero c = Unit
MatchesFor handle is start (suc count) c =
    SlotMatches is start c × Leaves (MatchesFor handle is start count) (run_instruction handle c)

module _ (handle : Context → Outcome Context)
    (handle-FitsWords : (c : Context) → FitsWords c → Leaves FitsWords (handle c)) where
  -- From a state of 32-bit words and bytes, `runInstruction` leaves such a state with x0 zero,
  -- whatever word it fetches, if the system calls keep the widths.
  pub run_instruction-IsValid :
      (c : Context) → FitsWords c → Leaves IsValid (run_instruction handle c)
  unfolding run_instruction
  run_instruction-IsValid c v =
      Leaves-bind (λ w. w < 256 ^ 4) IsValid (load 4 c c.pc) _ (load-lt v 4 c.pc)
        λ w h. rw (run_instruction_word-predecoded handle c w c.pc h) (
          run_instruction_predecoded-IsValid handle handle-FitsWords c (decode w c.pc)
            (decode-imm w c.pc h) v)

  step :
      (c : Context)
      → FitsWords c
      → (w : ℕ) → load 4 c c.pc ≡ ok w
      → run_instruction_predecoded handle c (decode w c.pc) ≡ run_instruction handle c
  unfolding run_instruction
  step c v w loaded =
      let small : w < 2 ^ 32 = subst (Leaves (λ x. x < 256 ^ 4)) loaded (load-lt v 4 c.pc) in
      rw (loaded, run_instruction_word-predecoded handle c w c.pc small)

  -- As long as the text in memory is what the slots were decoded from, any number of rounds of the
  -- predecoded interpreter does what as many rounds of fetching, decoding and executing do.
  pub predecoded_rounds-fetched :
      (is : List Instruction) (start count : ℕ) (c : Context)
      → FitsWords c
      → MatchesFor handle is start count c
      → predecoded_rounds handle is start count c ≡ fetched_rounds handle count c
  unfolding predecoded_rounds fetched_rounds
  predecoded_rounds-fetched is start zero c v m = refl
  predecoded_rounds-fetched is start (suc count) c v m =
      let ((w, loaded, here), later) = m in
      rw (here, step c v w loaded)
        (bind_congr_on (run_instruction handle c) _ _ (
          Leaves-map2 IsValid (MatchesFor handle is start count) _ (run_instruction handle c)
            (run_instruction-IsValid c v) later
            λ next valid matches.
              predecoded_rounds-fetched is start count next valid.words matches))
