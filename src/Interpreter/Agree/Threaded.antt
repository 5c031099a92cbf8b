-- ===== src/Interpreter/Agree/Threaded.antt =====
-- `runInstructionsThreaded` against rounds of `runInstructionPredecoded`.
use Prim.Native.Nat.{ℕ, zero, suc}
use mathlib.Core.Path.{◌≡◌, refl}
use mathlib.Core.List.{List}
use riscv_sbt.Base.Outcome.{Outcome, ok, ◌>>=◌, bind_assoc, bind_congr}
use riscv_sbt.Decoder.Instructions.{EInstruction, Instruction}
use riscv_sbt.Runtime.Context.{Context}
use riscv_sbt.Interpreter.Arms.{retire}
use riscv_sbt.Interpreter.Predecoded.{execute, run_instruction_predecoded}
use riscv_sbt.Interpreter.Threaded.{
  dispatch, label_arm, slot, threaded_from, run_instructions_threaded, predecoded_rounds,
}

label_arm-dispatch :
    (t : EInstruction) (handle : Context → Outcome Context) (i : Instruction) (c : Context)
    → label_arm (dispatch t) handle i c ≡ execute t handle i c
unfolding label_arm dispatch execute
label_arm-dispatch EInstruction.add handle i c = refl
label_arm-dispatch _ handle i c = refl

module _ (handle : Context → Outcome Context) (is : List Instruction) (start : ℕ) where
  -- a state is let through if `pc` selects a slot
  unfoldable pub checked : Context → Outcome Context
  checked c = do _ ← slot is start c.pc; ok c

  -- The threaded code after `count` instructions is in the state in which `count` rounds of the
  -- predecoded interpreter leave the machine, or has exited or gone astray as they have; only
  -- the slot of the instruction to come, which it has already fetched, must be there too.
  pub run_instructions_threaded-predecoded :
      (count : ℕ) (c : Context)
      → run_instructions_threaded handle is start count c
        ≡ (predecoded_rounds handle is start count c >>= checked)
  unfolding run_instructions_threaded threaded_from predecoded_rounds run_instruction_predecoded
      checked
  run_instructions_threaded-predecoded zero c = refl
  run_instructions_threaded-predecoded (suc count) c = simp bind_assoc (
      bind_congr (slot is start c.pc) λ i. rw (label_arm-dispatch i.type handle i c) (
        bind_congr (execute i.type handle i c)
          λ d. run_instructions_threaded-predecoded count (retire d)))
