-- ===== src/Sbt/Simulate/Runs.antt =====
-- From a label on, the translated program does what the interpreter does, instruction by
-- instruction, up to the next jump.
use Prim.Native.Nat.{ℕ, suc, ◌/◌}
use mathlib.Core.Path.{◌≡◌, refl, sym, ap, ◌∙◌}
use mathlib.Core.Logic.{◌≢◌}
use mathlib.Core.List.{List, [], ◌∷◌, ◌++◌}
use riscv_sbt.Base.Word.{IsU32, ◌+w◌, ◌-w◌}
use riscv_sbt.Base.Outcome.{Outcome, ok, exited, fault, ◌>>=◌, bind_assoc, Leaves, Leaves-map2}
use riscv_sbt.Decoder.Instructions.{Instruction}
use riscv_sbt.Runtime.Context.{Context}
use riscv_sbt.Interpreter.Arms.{retire}
use riscv_sbt.Interpreter.Predecoded.{execute, run_instruction_predecoded}
use riscv_sbt.Interpreter.Threaded.{slot, predecoded_rounds}
use riscv_sbt.Interpreter.Valid.{FitsWords, IsValid, execute-FitsWords, retire-IsValid}
use riscv_sbt.Sbt.Emit.Syntax.{Stmt}
use riscv_sbt.Sbt.Emit.Emitter.{TranslationOptions, Tracked}
use riscv_sbt.Sbt.Emit.Instructions.{emit_instruction}
use riscv_sbt.Sbt.Emit.Machine.{Machine, Next, onward, to_label, to_slot, exec_stmt, exec}
use riscv_sbt.Sbt.Emit.Program.{emit_instructions}
use riscv_sbt.Sbt.Simulate.Represents.{Represents, IsTracked}
use riscv_sbt.Sbt.Simulate.Assign.{IsAt, Arrives, Follows}
use riscv_sbt.Sbt.Simulate.System.{IsHandler}
use riscv_sbt.Sbt.Simulate.Instructions.{IsTranslated, emit_instruction-Follows}

-- The slots from the address `a` on hold the instructions, at their addresses.
abbrev pub Located : List Instruction → ℕ → List Instruction → ℕ → Type 0
Located all start [] a = Unit
Located all start (i ∷ rest) a =
    (i.address ≡ a) × (slot all start a ≡ ok i) × Located all start rest (a +w 4)

-- At every state that the interpreter reaches, pc is the address of the instruction in its slot, what
-- is emitted for that instruction does the same, and the instruction accesses no memory out of bounds.
abbrev pub TranslatedFrom : (Context → Outcome Context) → ℕ → List Instruction → Context → Type 0
TranslatedFrom handle start all c =
    (j : ℕ) (d : Context)
    → predecoded_rounds handle all start j c ≡ ok d
    → (i : Instruction) → slot all start d.pc ≡ ok i
    → (i.address ≡ d.pc)
      × IsU32 i.immediate
      × IsTranslated i.type d i
      × (execute i.type handle i d ≢ fault)

-- Control is where pc says, in the machine and in the guest.
abbrev pub Stands : ℕ → Context → Machine → Next → Type 0
Stands start d m onward = Unit
Stands start d m (to_label l) = d.pc ≡ l
Stands start d m (to_slot k) = (m.ctx.pc ≡ d.pc) × (k ≡ (d.pc -w start) / 4)

module _ (options : TranslationOptions) (start : ℕ) where
  -- The machine that the translated program leaves stands for the state that the interpreter leaves.
  pub record Meets (d : Context) (o : Outcome (Machine × Next)) : Type 0 where
    pub machine : Machine
    pub next : Next
    pub runs : o ≡ ok (machine, next)
    pub rep : Represents options d machine
    pub valid : IsValid d
    pub stands : Stands start d machine next

  -- what the interpreter comes to, and what the translated program comes to
  abbrev pub Matches : Outcome Context → Outcome (Machine × Next) → Type 0
  Matches (ok d) o = Meets d o
  Matches (exited n) o = o ≡ exited n
  Matches fault o = o ≡ fault

-- Running what is emitted first, then the rest, if control goes on.
abbrev continue_with :
    (Context → Outcome Context)
    → (ℕ → Context → Outcome Context)
    → ℕ
    → List Stmt
    → Outcome (Machine × Next)
    → Outcome (Machine × Next)
continue_with handle handle_number start rest o = do
  (after, next) ← o
  elim next [
    | onward ↦ exec handle handle_number start rest after
    | to_label a ↦ ok (after, to_label a)
    | to_slot k ↦ ok (after, to_slot k)
  ]

module _ (handle : Context → Outcome Context) (handle_number : ℕ → Context → Outcome Context)
    (start : ℕ) where
  after-append :
      (text rest : List Stmt) (o : Outcome (Machine × Next))
      → ((k : Machine)
          → exec handle handle_number start (text ++ rest) k
            ≡ continue_with handle handle_number start rest
                (exec handle handle_number start text k))
      → continue_with handle handle_number start (text ++ rest) o
        ≡ continue_with handle handle_number start rest
            (continue_with handle handle_number start text o)
  after-append text rest (ok (k, onward)) h = h k
  after-append text rest (ok (k, to_label a)) h = refl
  after-append text rest (ok (k, to_slot n)) h = refl
  after-append text rest (exited n) h = refl
  after-append text rest fault h = refl

  exec-append :
      (text rest : List Stmt) (m : Machine)
      → exec handle handle_number start (text ++ rest) m
        ≡ continue_with handle handle_number start rest (exec handle handle_number start text m)
  unfolding exec
  exec-append [] rest m = refl
  exec-append (s ∷ text) rest m =
      after-append text rest (exec_stmt handle handle_number start s m)
        (λ k. exec-append text rest k)

module _ (handle : Context → Outcome Context) (handle_number : ℕ → Context → Outcome Context)
    (laws : IsHandler handle handle_number)
    (handle-FitsWords : (c : Context) → FitsWords c → Leaves FitsWords (handle c))
    (options : TranslationOptions) (branch_targets : List (ℕ × List (ℕ × ℕ))) (leaders : List ℕ)
    (start : ℕ) (all : List Instruction) where
  abbrev rounds : ℕ → Context → Outcome Context
  rounds = predecoded_rounds handle all start

  one_round :
      (c : Context) (i : Instruction) (k : ℕ)
      → slot all start c.pc ≡ ok i
      → rounds (suc k) c ≡ (execute i.type handle i c >>= λ d. rounds k (retire d))
  unfolding predecoded_rounds run_instruction_predecoded
  one_round c i k found = rw found (bind_assoc (execute i.type handle i c) _ _)

  -- what holds from a state on holds from the next one on
  onwards :
      (c d : Context) (i : Instruction)
      → slot all start c.pc ≡ ok i
      → execute i.type handle i c ≡ ok d
      → TranslatedFrom handle start all c
      → TranslatedFrom handle start all (retire d)
  onwards c d i found done h j e reached = h (suc j) e (one_round c i j found ∙ rw done reached)

  -- what is claimed of the statements for the instructions from the address `a` on
  abbrev Block : List Instruction → ℕ → Type 0
  Block l a =
      (t : Tracked) (c : Context) (m : Machine)
      → IsAt options t c m
      → c.pc ≡ a
      → TranslatedFrom handle start all c
      → (k : ℕ) × Matches options start (rounds k c) (
          exec handle handle_number start
            (emit_instructions options branch_targets leaders start t l) m)

  module _ (i : Instruction) (rest : List Instruction) (a : ℕ) (address : i.address ≡ a)
      (ih : Block rest (a +w 4)) (t : Tracked) (c : Context) (m : Machine) (here : c.pc ≡ a)
      (found : slot all start c.pc ≡ ok i) (good : TranslatedFrom handle start all c) where
    -- the statements for the instruction, and what the emitter tracks after it
    text : List Stmt
    text = (emit_instruction options branch_targets leaders start t i).0

    after : Tracked
    after = (emit_instruction options branch_targets leaders start t i).1

    more : List Stmt
    more = emit_instructions options branch_targets leaders start after rest

    abbrev Claim : Type 0
    Claim =
        (k : ℕ) × Matches options start (rounds k c) (
          exec handle handle_number start
            (emit_instructions options branch_targets leaders start t (i ∷ rest)) m)

    split :
        exec handle handle_number start
          (emit_instructions options branch_targets leaders start t (i ∷ rest))
          m
        ≡ continue_with handle handle_number start more (exec handle handle_number start text m)
    unfolding emit_instructions text more after
    split = exec-append handle handle_number start text more m

    one :
        (o : Outcome Context)
        → execute i.type handle i c ≡ o
        → rounds 1 c ≡ (o >>= λ d. ok (retire d))
    unfolding predecoded_rounds
    one o done = one_round c i 0 found ∙ rw done refl

    -- where the statements leave control
    leaves :
        (d : Context) (k : Machine) (next : Next)
        → execute i.type handle i c ≡ ok d
        → exec handle handle_number start text m ≡ ok (k, next)
        → Represents options (retire d) k
        → IsTracked after (retire d)
        → IsValid (retire d)
        → Arrives start i.address (retire d) k next
        → Claim
    unfolding more emit_instructions
    leaves d k onward done runs rep tracked valid arrives =
        let place : IsAt options after (retire d) k = record {
          rep = rep;
          tracked = tracked;
          zeroed = valid.zero_reg;
          words = valid.words;
        } in
        let (j, match) =
          ih after (retire d) k place (arrives ∙ ap (λ x. x +w 4) address)
            (onwards c d i found done good) in
        (suc j, rw (one_round c i j found, done, split, runs) match)
    leaves d k (to_label l) done runs rep tracked valid arrives = (
      1,
      rw (one (ok d) done) record {
        machine = k;
        next = to_label l;
        runs = split ∙ rw runs refl;
        rep = rep;
        valid = valid;
        stands = arrives;
      },
    )
    leaves d k (to_slot n) done runs rep tracked valid arrives = (
      1,
      rw (one (ok d) done) record {
        machine = k;
        next = to_slot n;
        runs = split ∙ rw runs refl;
        rep = rep;
        valid = valid;
        stands = arrives;
      },
    )

    comes_to :
        (o : Outcome Context)
        → execute i.type handle i c ≡ o
        → Follows options start i.address o (exec handle handle_number start text m) after
        → Leaves (λ d. IsValid (retire d)) o
        → o ≢ fault
        → Claim
    comes_to (ok d) done r valid plain =
        leaves d r.machine r.next done r.runs r.rep r.tracked valid r.arrives
    comes_to (exited n) done r valid plain = (1, rw (one (exited n) done) (split ∙ rw r refl))
    comes_to fault done r valid plain = absurd (plain refl)

  Block-step :
      (i : Instruction) (rest : List Instruction) (a : ℕ)
      → i.address ≡ a
      → slot all start a ≡ ok i
      → Block rest (a +w 4)
      → Block (i ∷ rest) a
  unfolding predecoded_rounds run_instruction_predecoded text after
  Block-step i rest a address at ih t c m place here good =
      let found : slot all start c.pc ≡ ok i = rw here at in
      let (_, word, fine, plain) = good 0 c refl i found in
      let kept : Leaves FitsWords (execute i.type handle i c) =
        execute-FitsWords handle handle-FitsWords i.type i c word place.words in
      comes_to i rest a address ih t c m here found good (execute i.type handle i c) refl
        (emit_instruction-Follows handle handle_number laws branch_targets leaders start options t c
          m i place (here ∙ sym address) word fine)
        (Leaves-map2 FitsWords FitsWords _ (execute i.type handle i c) kept kept
          (λ d v _. retire-IsValid v))
        plain

  pub block : (l : List Instruction) (a : ℕ) → Located all start l a → Block l a
  unfolding predecoded_rounds emit_instructions exec
  block [] a h = λ t c m place here good. (
    0,
    record {
      machine = m;
      next = onward;
      runs = refl;
      rep = place.rep;
      valid = record { words = place.words; zero_reg = place.zeroed };
      stands = tt;
    },
  )
  block (i ∷ rest) a (address, at, later) =
      Block-step i rest a address at (block rest (a +w 4) later)
