-- ===== src/Emulator/Loop.antt =====
-- The loop of `main` with `runInstructionPredecoded`: it stops at the first state whose pc is BASE_RA
-- or outside of the memory.
use Prim.Native.Nat.{ℕ, zero, suc, ◌≤◌, ◌<◌}
use mathlib.Core.Path.{◌≡◌, refl, sym, ap}
use mathlib.Core.Logic.{◌≢◌, inl, inr}
use mathlib.Core.List.{List}
use native.Mathlib.Omega.{arith}
use riscv_sbt.Base.{leb, ◌==◌, ==→eq, Bool-cases}
use riscv_sbt.Base.Outcome.{Outcome, ok, exited, fault, ◌>>=◌, bind_assoc, Leaves}
use riscv_sbt.Decoder.Instructions.{Instruction}
use riscv_sbt.Runtime.Memory.{data_size}
use riscv_sbt.Runtime.Context.{Context}
use riscv_sbt.Interpreter.Predecoded.{run_instruction_predecoded}
use riscv_sbt.Interpreter.Threaded.{slot, predecoded_rounds}
use riscv_sbt.Emulator.{Stop, running, returned, out_of_bounds, base_ra, emulate}

-- The loop does not stop at this state.
abbrev pub GoesOn : Context → Type 0
GoesOn d = (d.pc ≢ base_ra) × (d.pc < data_size)

-- why it stops, after `k` rounds of `count`
abbrev pub StopsFor : Stop → Context → ℕ → ℕ → Type 0
StopsFor running d k count = k ≡ count
StopsFor returned d k count = d.pc ≡ base_ra
StopsFor out_of_bounds d k count = (d.pc ≢ base_ra) × (data_size ≤ d.pc)

module _ (handle : Context → Outcome Context) (slots : List Instruction) (start : ℕ) where
  -- the call in the loop
  abbrev pub one_instruction : Context → Outcome Context
  one_instruction c = slot slots start c.pc >>= λ i. run_instruction_predecoded handle c i

  abbrev rounds : ℕ → Context → Outcome Context
  rounds = predecoded_rounds handle slots start

  -- The loop does not stop before round `k`.
  abbrev pub RunsTo : ℕ → Context → Type 0
  RunsTo k c = (j : ℕ) → 0 < j → j < k → Leaves GoesOn (predecoded_rounds handle slots start j c)

  -- what the loop comes to, and the rounds
  abbrev pub Follows : ℕ → Context → Outcome (Context × Stop) → Type 0
  Follows count c (ok (d, stop)) =
      (k : ℕ) × (k ≤ count)
      × (predecoded_rounds handle slots start k c ≡ ok d)
      × RunsTo k c
      × StopsFor stop d k count
  Follows count c (exited n) =
      (k : ℕ) × (k ≤ count) × (predecoded_rounds handle slots start k c ≡ exited n) × RunsTo k c
  Follows count c fault =
      (k : ℕ) × (k ≤ count) × (predecoded_rounds handle slots start k c ≡ fault) × RunsTo k c

  -- a round of the loop, from what it leaves
  step : (c : Context) → (j : ℕ) → rounds (suc j) c ≡ (one_instruction c >>= rounds j)
  unfolding predecoded_rounds
  step c j = sym (bind_assoc (slot slots start c.pc) _ _)

  RunsTo-step :
      (c d : Context) (k : ℕ) → one_instruction c ≡ ok d → GoesOn d → RunsTo k d → RunsTo (suc k) c
  unfolding predecoded_rounds
  RunsTo-step c d k done on runs zero low high = absurd (omega (arith, low))
  RunsTo-step c d k done on runs (suc zero) low high = rw (step c 0, done) on
  RunsTo-step c d k done on runs (suc (suc j)) low high =
      rw (step c (suc j), done) (runs (suc j) (omega arith) (omega (arith, high)))

  Follows-step :
      (count : ℕ) (c d : Context)
      → one_instruction c ≡ ok d
      → GoesOn d
      → (o : Outcome (Context × Stop)) → Follows count d o
      → Follows (suc count) c o
  Follows-step count c d done on (ok (e, stop)) (k, room, ran, runs, stops) = (
    suc k,
    omega (arith, room),
    rw (step c k, done) ran,
    RunsTo-step c d k done on runs,
    later stop stops,
  )
    where
      later : (s : Stop) → StopsFor s e k count → StopsFor s e (suc k) (suc count)
      later running same = ap suc same
      later returned at = at
      later out_of_bounds at = at
  Follows-step count c d done on (exited n) (k, room, ran, runs) =
      (suc k, omega (arith, room), rw (step c k, done) ran, RunsTo-step c d k done on runs)
  Follows-step count c d done on fault (k, room, ran, runs) =
      (suc k, omega (arith, room), rw (step c k, done) ran, RunsTo-step c d k done on runs)

  -- the first round is the last
  RunsTo-one : (c : Context) → RunsTo 1 c
  RunsTo-one c j low high = absurd (omega (arith, low, high))

  comes_to :
      (count : ℕ) (c : Context)
      → ((d : Context) → Follows count d (emulate one_instruction count d))
      → (o : Outcome Context) → one_instruction c ≡ o
      → Follows (suc count) c (emulate one_instruction (suc count) c)
  unfolding emulate predecoded_rounds
  comes_to count c ih (exited n) done =
      rw done (1, omega arith, rw (step c 0, done) refl, RunsTo-one c)
  comes_to count c ih fault done = rw done (1, omega arith, rw (step c 0, done) refl, RunsTo-one c)
  comes_to count c ih (ok d) done = elim (Bool-cases (d.pc == base_ra)) [
    | inl base ↦
        rw (done, base) (1, omega arith, rw (step c 0, done) refl, RunsTo-one c, ==→eq _ _ base)
    | inr other ↦ elim (Bool-cases (leb data_size d.pc)) [
      | inl past ↦
          rw (done, other, past)
            (
              1,
              omega arith,
              rw (step c 0, done) refl,
              RunsTo-one c,
              (λ e. ground (arith, other, e), ground (arith, past)),
            )
      | inr inside ↦
          rw (done, other, inside)
            (Follows-step count c d done (λ e. ground (arith, other, e), ground (arith, inside))
              (emulate one_instruction count d) (ih d))
    ]
  ]

  -- For any slots and system calls and any number of rounds, the loop comes to what some number of
  -- rounds of `runInstructionPredecoded` comes to, no more than it was given, none of which
  -- before the last left pc at BASE_RA or outside of the memory: all of them if it still runs, and
  -- otherwise it stops with pc at BASE_RA or outside of the memory, as it says, or exits, or faults.
  pub emulate-Follows :
      (count : ℕ) (c : Context) → Follows count c (emulate one_instruction count c)
  unfolding emulate predecoded_rounds
  emulate-Follows zero c = (0, omega arith, refl, λ j low high. absurd (omega (arith, high)), refl)
  emulate-Follows (suc count) c =
      comes_to count c (λ d. emulate-Follows count d) (one_instruction c) refl
