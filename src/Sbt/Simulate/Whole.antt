-- ===== src/Sbt/Simulate/Whole.antt =====
-- `runTranslated` as a whole: the dispatch loop, the translated instructions, the interpreter fallback
-- and the exit, against the predecoded interpreter.
use Prim.Native.Nat.{ℕ, zero, suc}
use mathlib.Core.Path.{◌≡◌, refl, ◌∙◌}
use mathlib.Core.List.{List}
use riscv_sbt.Base.{length}
use riscv_sbt.Base.Word.{IsU32}
use riscv_sbt.Base.Outcome.{Outcome, ok, exited, fault, Leaves}
use riscv_sbt.Decoder.Instructions.{Instruction}
use riscv_sbt.Runtime.Context.{Context}
use riscv_sbt.Interpreter.Threaded.{predecoded_rounds}
use riscv_sbt.Interpreter.Valid.{FitsWords, IsValid}
use riscv_sbt.Sbt.Emit.Emitter.{TranslationOptions}
use riscv_sbt.Sbt.Emit.Machine.{Machine}
use riscv_sbt.Sbt.Emit.Program.{initial_tracked, emit_instructions, emit_dispatch_table}
use riscv_sbt.Sbt.Emit.Runtime.{Place, step_program, run_program, run_from_entry}
use riscv_sbt.Sbt.Simulate.System.{IsHandler}
use riscv_sbt.Sbt.Simulate.Runs.{Located, TranslatedFrom}
use riscv_sbt.Sbt.Simulate.Jumps.{then_rounds, predecoded_rounds-then}
use riscv_sbt.Sbt.Simulate.Fallback.{FetchedFrom, StandsAt, MatchesAt, leave_fallback-MeetsAt}
use riscv_sbt.Sbt.Simulate.Steps

module _ (handle : Context → Outcome Context) (handle_number : ℕ → Context → Outcome Context)
    (laws : IsHandler handle handle_number)
    (handle-FitsWords : (c : Context) → FitsWords c → Leaves FitsWords (handle c))
    (options : TranslationOptions) (branch_targets : List (ℕ × List (ℕ × ℕ))) (leaders : List ℕ)
    (start : ℕ) (all : List Instruction) (located : Located all start all start)
    (word : IsU32 start) where
  abbrev rounds : ℕ → Context → Outcome Context
  rounds = predecoded_rounds handle all start

  abbrev step : Place → Machine → Outcome (Machine × Place)
  step =
      step_program options handle handle_number start
        (emit_instructions options branch_targets leaders start initial_tracked all)
        (emit_dispatch_table leaders start (length all))

  abbrev run : ℕ → Place → Machine → Outcome (Machine × Place)
  run =
      run_program options handle handle_number start
        (emit_instructions options branch_targets leaders start initial_tracked all)
        (emit_dispatch_table leaders start (length all))

  abbrev IsGood : Context → Type 0
  IsGood =
      Steps.IsGood handle handle_number laws handle-FitsWords options branch_targets leaders start
        all located word

  -- what is claimed of `count` steps
  abbrev Claim : ℕ → Type 0
  Claim count =
      (c : Context) (m : Machine) (place : Place)
      → StandsAt options start c m place
      → IsGood c
      → (k : ℕ) × MatchesAt options start (rounds k c) (run count place m)

  -- the steps after the first
  goes_on :
      (count : ℕ) (c : Context) (m : Machine) (place : Place)
      → Claim count
      → IsGood c
      → (j : ℕ) (o : Outcome Context) → rounds j c ≡ o
      → MatchesAt options start o (step place m)
      → (k : ℕ) × MatchesAt options start (rounds k c) (run (suc count) place m)
  unfolding run_program
  goes_on count c m place ih good j (ok d) ran match =
      let onwards : (k : ℕ) → rounds (then_rounds j k) c ≡ rounds k d =
        λ k. predecoded_rounds-then handle start all j k c ∙ rw ran refl in
      let later : IsGood d = record {
        valid = match.valid;
        translated = λ k e reached. good.translated (then_rounds j k) e (onwards k ∙ reached);
        fetched = λ k e reached. good.fetched (then_rounds j k) e (onwards k ∙ reached);
      } in
      let (k, rest) = ih d match.machine match.place match.stands later in
      (then_rounds j k, rw (onwards k, match.runs) rest)
  goes_on count c m place ih good j (exited n) ran match = (j, rw (ran, match) refl)
  goes_on count c m place ih good j fault ran match = (j, rw (ran, match) refl)

  pub run_program-MatchesAt : (count : ℕ) → Claim count
  unfolding run_program predecoded_rounds
  run_program-MatchesAt zero c m place here good =
      (0, record { machine = m; place = place; runs = refl; valid = good.valid; stands = here })
  run_program-MatchesAt (suc count) c m place here good =
      let (j, match) =
        Steps.step_program-Steps handle handle_number laws handle-FitsWords options branch_targets
          leaders start all located word c m place here good in
      goes_on count c m place (run_program-MatchesAt count) good j (rounds j c) refl match

  -- Where the slots of the text hold the instructions of the text at their addresses and the system
  -- calls keep the widths and obey `IsHandler`: from a valid state of the guest in the context, any
  -- number of steps of `runTranslated` (to a label, into the fallback, an instruction of the fallback,
  -- out of it, or to the exit) leaves a machine that stands for the state after some number of rounds
  -- of the interpreter, again valid, if at every state that the interpreter reaches the slot's
  -- instruction has pc as its address and a 32-bit immediate, is translated (`IsTranslated`), accesses
  -- no memory out of bounds, and is what the word in memory at pc decodes to, one on which
  -- `runInstructionSwitch` agrees (`IsFetched`). Where those rounds exit, `runTranslated` exits with
  -- the same status; where they look for a slot out of bounds, `runTranslated` has looked for an entry
  -- of the dispatch table out of bounds.
  pub run_from_entry-MatchesAt :
      (count : ℕ) (m : Machine)
      → IsValid m.ctx
      → TranslatedFrom handle start all m.ctx
      → FetchedFrom handle start all m.ctx
      → (k : ℕ) × MatchesAt options start (predecoded_rounds handle all start k m.ctx) (
          run_from_entry options handle handle_number start
            (emit_instructions options branch_targets leaders start initial_tracked all)
            (emit_dispatch_table leaders start (length all))
            count
            m)
  unfolding run_from_entry
  run_from_entry-MatchesAt count m valid translated fetched =
      let l =
        leave_fallback-MeetsAt handle handle_number options start
          (emit_instructions options branch_targets leaders start initial_tracked all)
          (emit_dispatch_table leaders start (length all)) m.ctx m refl valid in
      let good : IsGood m.ctx = record {
        valid = valid;
        translated = translated;
        fetched = fetched;
      } in
      let (k, match) = run_program-MatchesAt count m.ctx l.machine l.place l.stands good in
      (k, rw l.runs match)
