-- ===== src/Sbt/Simulate/Fallback.antt =====
-- The ends of `runTranslated`: the interpreter fallback, the way back from it, and the exit.
use Prim.Native.Nat.{ℕ, zero, suc, ◌+◌, ◌/◌, ◌^◌, ◌<◌}
use mathlib.Core.Path.{◌≡◌, refl, sym, ap, subst, ◌∙◌}
use mathlib.Core.Bool.{true}
use mathlib.Core.List.{List, [], ◌∷◌, append-nil}
use mathlib.Core.Logic.{◌≢◌}
use mathlib.Core.Option.{none, some}
use riscv_sbt.Base.{get_elem?, length}
use riscv_sbt.Base.Word.{IsU32, ◌-w◌}
use riscv_sbt.Base.Outcome.{Outcome, ok, exited, fault, Leaves}
use riscv_sbt.Decoder.Instructions.{Instruction}
use riscv_sbt.Decoder.Fields.{get_opcode, get_funct3}
use riscv_sbt.Decoder.Decode.{decode}
use riscv_sbt.Runtime.Context.{Context, load}
use riscv_sbt.Interpreter.Predecoded.{run_instruction_predecoded}
use riscv_sbt.Interpreter.Switch.{run_instruction_switch}
use riscv_sbt.Interpreter.Threaded.{slot, predecoded_rounds}
use riscv_sbt.Interpreter.Valid.{FitsWords, IsValid, load-lt}
use riscv_sbt.Interpreter.Agree.SwitchOps.{is_executable}
use riscv_sbt.Interpreter.Agree.Switch.{run_instruction_switch_word-chain}
use riscv_sbt.Interpreter.Agree.Word.{run_instruction_word-predecoded}
use riscv_sbt.Sbt.Emit.Syntax.{Stmt}
use riscv_sbt.Sbt.Emit.Emitter.{TranslationOptions, emit_register_store}
use riscv_sbt.Sbt.Emit.Machine.{Machine, onward, to_slot, exec}
use riscv_sbt.Sbt.Emit.Program.{Entry, exit_entry, entries_from}
use riscv_sbt.Sbt.Emit.Runtime.{
  Place, jumping, interpreting, finished, pc_index, copying, exit_program, leave_fallback,
}
use riscv_sbt.Sbt.Simulate.Represents.{Represents}
use riscv_sbt.Sbt.Simulate.Copies.{emit_register_store-IsStored, emit_register_load-IsLoaded}
use riscv_sbt.Sbt.Simulate.Runs.{Stands}

-- The instruction in the slot of pc is what the word in memory at pc decodes to, and one on which
-- `runInstructionSwitch` agrees.
abbrev pub IsFetched : Context → Instruction → Type 0
IsFetched d i =
    (w : ℕ) × (load 4 d d.pc ≡ ok w)
    × (decode w d.pc ≡ i)
    × (is_executable i.type ≡ true)
    × (get_opcode w ≡ 0b1110011 → get_funct3 w ≡ 0)

-- It is so at every state that the interpreter reaches.
abbrev pub FetchedFrom : (Context → Outcome Context) → ℕ → List Instruction → Context → Type 0
FetchedFrom handle start all c =
    (j : ℕ) (d : Context)
    → predecoded_rounds handle all start j c ≡ ok d
    → (i : Instruction) → slot all start d.pc ≡ ok i
    → IsFetched d i

module _ (options : TranslationOptions) (start : ℕ) where
  -- The machine stands for the guest's state, wherever the program is. After EXIT nothing is said of
  -- pc, which a program that ran off the end of its text has not written.
  abbrev pub StandsAt : Context → Machine → Place → Type 0
  StandsAt d m (jumping next) = Represents options d m × Stands start d m next
  StandsAt d m (interpreting k) = (m.ctx ≡ d) × (k ≡ (d.pc -w start) / 4)
  StandsAt d m finished = m.ctx ≡ record d { pc = m.ctx.pc }

  pub record MeetsAt (d : Context) (o : Outcome (Machine × Place)) : Type 0 where
    pub machine : Machine
    pub place : Place
    pub runs : o ≡ ok (machine, place)
    pub valid : IsValid d
    pub stands : StandsAt d machine place

  -- what the interpreter comes to, and what `runTranslated` comes to
  abbrev pub MatchesAt : Outcome Context → Outcome (Machine × Place) → Type 0
  MatchesAt (ok d) o = MeetsAt d o
  MatchesAt (exited n) o = o ≡ exited n
  MatchesAt fault o = o ≡ fault

-- no entry, no instruction
pub entries-none :
    (leaders : List ℕ) (start : ℕ) (all : List Instruction) (i0 k : ℕ)
    → get_elem? (entries_from leaders start i0 (length all)) k ≡ none
    → get_elem? all k ≡ none
unfolding entries_from
entries-none leaders start [] i0 k e = refl
entries-none leaders start (i ∷ rest) i0 zero e = absurd cc
entries-none leaders start (i ∷ rest) i0 (suc k) e = entries-none leaders start rest (i0 + 1) k e

-- an entry for the fallback, an instruction
pub entries-some :
    (leaders : List ℕ) (start : ℕ) (all : List Instruction) (i0 k : ℕ) (e : Entry)
    → get_elem? (entries_from leaders start i0 (length all)) k ≡ some e
    → e ≢ exit_entry
    → get_elem? all k ≢ none
unfolding entries_from
entries-some leaders start [] i0 zero e is other nothing =
    let same : e ≡ exit_entry = cc in absurd (other same)
entries-some leaders start [] i0 (suc k) e is other nothing = absurd cc
entries-some leaders start (i ∷ rest) i0 zero e is other nothing = absurd cc
entries-some leaders start (i ∷ rest) i0 (suc k) e is other nothing =
    entries-some leaders start rest (i0 + 1) k e is other nothing

pub slot-none :
    (all : List Instruction) (start pc : ℕ)
    → get_elem? all ((pc -w start) / 4) ≡ none
    → slot all start pc ≡ fault
unfolding slot
slot-none all start pc missing = rw (slot, missing) refl

-- On the word that the instruction was decoded from, the fallback's interpreter does what the
-- predecoded one does.
pub fetched-predecoded :
    (handle : Context → Outcome Context) (c : Context) (i : Instruction)
    → FitsWords c
    → IsFetched c i
    → run_instruction_switch handle c ≡ run_instruction_predecoded handle c i
unfolding run_instruction_switch
fetched-predecoded handle c i fits (w, loaded, is, known, plain) =
    let small : IsU32 w = subst (Leaves (λ x. x < 256 ^ 4)) loaded (load-lt fits 4 c.pc) in
    let own : is_executable (decode w c.pc).type ≡ true = rw is known in
    rw (loaded, run_instruction_switch_word-chain handle c w c.pc small own plain)
      (run_instruction_word-predecoded handle c w c.pc small
        ∙ ap (run_instruction_predecoded handle c) is)

module _ (handle : Context → Outcome Context) (handle_number : ℕ → Context → Outcome Context)
    (options : TranslationOptions) (start : ℕ) (program : List Stmt) (table : List Entry) where
  -- the copies to the context, with control left at `place`
  store_to :
      (c : Context) (m : Machine) (place : Place)
      → (rep : Represents options c m)
      → copying options handle handle_number start program table
          (emit_register_store options)
          place
          m
        ≡ ok (
          (emit_register_store-IsStored handle handle_number start options c m rep).machine,
          place,
        )
  unfolding copying exec
  store_to c m place rep =
      let s = emit_register_store-IsStored handle handle_number start options c m rep in
      let ran : exec handle handle_number start (emit_register_store options) m
          ≡ ok (s.machine, onward) =
        sym (
          ap (λ text. exec handle handle_number start text m)
            (append-nil (emit_register_store options)))
        ∙ s.runs [] in
      rw (copying, ran) refl

  pub exit_program-MeetsAt :
      (c : Context) (m : Machine)
      → Represents options c m
      → IsValid c
      → MeetsAt options start c (exit_program options handle handle_number start program table m)
  unfolding exit_program
  exit_program-MeetsAt c m rep valid = record {
    machine = (emit_register_store-IsStored handle handle_number start options c m rep).machine;
    place = finished;
    runs = store_to c m finished rep;
    valid = valid;
    stands = (emit_register_store-IsStored handle handle_number start options c m rep).ctx;
  }

  -- into the fallback, at an instruction that is no leader
  pub enter_fallback-MeetsAt :
      (c : Context) (m : Machine) (k : ℕ)
      → Represents options c m
      → IsValid c
      → Stands start c m (to_slot k)
      → MeetsAt options start c (
          copying options handle handle_number start program table
            (emit_register_store options)
            (interpreting k)
            m)
  enter_fallback-MeetsAt c m k rep valid (same, index) =
      let s = emit_register_store-IsStored handle handle_number start options c m rep in
      record {
        machine = s.machine;
        place = interpreting k;
        runs = store_to c m (interpreting k) rep;
        valid = valid;
        stands = (s.ctx ∙ ap (λ x. record c { pc = x }) (s.pc ∙ same), index);
      }

  pub leave_fallback-MeetsAt :
      (c : Context) (m : Machine)
      → m.ctx ≡ c
      → IsValid c
      → MeetsAt options start c (leave_fallback options handle handle_number start program table m)
  unfolding leave_fallback copying pc_index
  leave_fallback-MeetsAt c m is valid =
      let l = emit_register_load-IsLoaded handle handle_number start options m in
      record {
        machine = l.machine;
        place = jumping (to_slot (pc_index options handle handle_number start program table m.ctx));
        runs = rw l.runs refl;
        valid = valid;
        stands = (
          subst (λ d. Represents options d l.machine) is l.rep,
          (ap (λ d. d.pc) (l.ctx ∙ is), ap (λ d. (d.pc -w start) / 4) is),
        );
      }
