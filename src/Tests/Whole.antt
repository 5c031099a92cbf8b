-- ===== src/Tests/Whole.antt =====
-- The translated program of `Running` under `runTranslated`.
use Prim.Native.Nat.{ℕ}
use mathlib.Core.Path.{◌≡◌, refl}
use mathlib.Core.Logic.{◌≢◌}
use mathlib.Core.Bool.{true}
use mathlib.Core.List.{List, []}
use mathlib.Core.Option.{some}
use native.Mathlib.Omega.{arith}
use riscv_sbt.Base.{length}
use riscv_sbt.Base.Word.{◌-w◌}
use riscv_sbt.Base.Outcome.{Leaves}
use riscv_sbt.Runtime.Context.{Context, set_reg}
use riscv_sbt.Interpreter.Threaded.{predecoded_rounds}
use riscv_sbt.Interpreter.Valid.{FitsWords, IsValid, set_reg-FitsWords}
use riscv_sbt.Sbt.Emit.Syntax.{Stmt}
use riscv_sbt.Sbt.Emit.Emitter.{contains}
use riscv_sbt.Sbt.Emit.Machine.{onward, to_slot}
use riscv_sbt.Sbt.Emit.Program.{initial_tracked, emit_instructions, emit_dispatch_table, resume_at}
use riscv_sbt.Sbt.Emit.Runtime.{run_from_entry}
use riscv_sbt.Sbt.Simulate.Runs.{Stands}
use riscv_sbt.Sbt.Simulate.Progress.{leader-resumes}
use riscv_sbt.Sbt.Simulate.Fallback.{MatchesAt}
use riscv_sbt.Sbt.Simulate.Whole.{run_from_entry-MatchesAt}
use riscv_sbt.Tests.Emitting.{options, answer, answer_number, answer-IsHandler}
use riscv_sbt.Tests.Running.{addi_at_0, text, leaders, start, start-FitsWords, machine, slot_0}
use riscv_sbt.Tests.Reached.{start-TranslatedFrom, start-FetchedFrom, text-Located}

start-Stands : Stands 0 start machine (to_slot 0)
unfolding ◌-w◌
start-Stands = (refl, refl)

answer-FitsWords : (c : Context) → FitsWords c → Leaves FitsWords (answer c)
unfolding set_reg
answer-FitsWords c v = set_reg-FitsWords v 10 (c.reg 17) (v.regs 17)

start-IsValid : IsValid start
start-IsValid = record { words = start-FitsWords; zero_reg = refl }

run_from_entry-MatchesAt_example :
    (k : ℕ) × MatchesAt options 0 (predecoded_rounds answer text 0 k start) (
      run_from_entry options answer answer_number 0
        (emit_instructions options [] leaders 0 initial_tracked text)
        (emit_dispatch_table leaders 0 (length text))
        6
        machine)
run_from_entry-MatchesAt_example =
    run_from_entry-MatchesAt answer answer_number answer-IsHandler answer-FitsWords options []
      leaders 0 text text-Located (omega arith) 6 machine start-IsValid start-TranslatedFrom
      start-FetchedFrom

leader_0 : contains 0 leaders ≡ true
unfolding contains
leader_0 = refl

to_slot_jumps : to_slot 0 ≢ onward
to_slot_jumps e = cc

leader-resumes_example :
    (body : List Stmt) × (resume_at answer answer_number 0
        (emit_instructions options [] leaders 0 initial_tracked text)
        (emit_dispatch_table leaders 0 (length text))
        (to_slot 0)
      ≡ some body)
leader-resumes_example =
    leader-resumes answer answer_number options [] leaders 0 text text-Located (omega arith) start
      machine (to_slot 0) addi_at_0 start-Stands to_slot_jumps slot_0 refl leader_0
