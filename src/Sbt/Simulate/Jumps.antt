-- ===== src/Sbt/Simulate/Jumps.antt =====
-- The translated program from jump to jump; the dispatch table leads from pc to its label.
use Prim.Native.Nat.{ℕ, zero, suc, ◌+◌, ◌*◌, ◌/◌}
use mathlib.Core.Path.{◌≡◌, refl, sym, subst, ◌∙◌}
use mathlib.Core.Logic.{inl, inr}
use mathlib.Core.List.{List, [], ◌∷◌}
use mathlib.Core.Option.{Option, none, some}
use native.Mathlib.Omega.{arith}
use riscv_sbt.Base.{get_elem?, length, Bool-cases, Option-cases}
use riscv_sbt.Base.Word.{IsU32, ◌+w◌, ◌-w◌}
use riscv_sbt.Base.Outcome.{Outcome, ok, exited, fault, ◌>>=◌, bind_assoc, bind_congr, Leaves}
use riscv_sbt.Decoder.Instructions.{Instruction}
use riscv_sbt.Runtime.Context.{Context}
use riscv_sbt.Interpreter.Predecoded.{run_instruction_predecoded}
use riscv_sbt.Interpreter.Threaded.{slot, predecoded_rounds}
use riscv_sbt.Interpreter.Valid.{FitsWords, IsValid}
use riscv_sbt.Sbt.Emit.Syntax.{Stmt}
use riscv_sbt.Sbt.Emit.Emitter.{TranslationOptions, contains, reset_tracked}
use riscv_sbt.Sbt.Emit.Machine.{Machine, Next, onward, to_label, to_slot, exec}
use riscv_sbt.Sbt.Emit.Program.{
  Entry, label_entry, invalid_entry, exit_entry, entries_from, emit_dispatch_table, after_label,
  emit_instructions, resume_at, run_translated, initial_tracked,
}
use riscv_sbt.Sbt.Simulate.Represents.{Represents, reset_tracked-IsTracked}
use riscv_sbt.Sbt.Simulate.Assign.{IsAt}
use riscv_sbt.Sbt.Simulate.System.{IsHandler}
use riscv_sbt.Sbt.Simulate.Runs.{Located, Stands, Matches, TranslatedFrom, block}
use riscv_sbt.Sbt.Simulate.Find.{Finds, found}

pub slot-ok :
    (all : List Instruction) (start pc : ℕ) (i : Instruction)
    → get_elem? all ((pc -w start) / 4) ≡ some i
    → slot all start pc ≡ ok i
unfolding slot
slot-ok all start pc i at = rw (slot, at) refl

pub next_entry : (start i0 : ℕ) → (start +w i0 * 4) +w 4 ≡ start +w (i0 + 1) * 4
unfolding ◌+w◌
next_entry start i0 = omega arith

-- An entry for a label is at the slot of the instruction at its address.
entry-slot :
    (leaders : List ℕ) (start : ℕ) (all l : List Instruction) (i0 k b : ℕ)
    → Located all start l (start +w i0 * 4)
    → get_elem? (entries_from leaders start i0 (length l)) k ≡ some (label_entry b)
    → (i : Instruction) × (get_elem? l k ≡ some i) × (i.address ≡ b)
unfolding entries_from
entry-slot leaders start all [] i0 zero b h e = absurd cc
entry-slot leaders start all [] i0 (suc k) b h e = absurd cc
entry-slot leaders start all (i ∷ rest) i0 zero b (address, at, later) e =
    elim (Bool-cases (contains (start +w i0 * 4) leaders)) [
      | inl leader ↦
          let named : some (label_entry (start +w i0 * 4)) ≡ some (label_entry b) =
            rw leader at (e) in
          let is : start +w i0 * 4 ≡ b = cc in (i, refl, address ∙ is)
      | inr other ↦
          let named : some invalid_entry ≡ some (label_entry b) = rw other at (e) in absurd cc
    ]
entry-slot leaders start all (i ∷ rest) i0 (suc k) b (address, at, later) e =
    entry-slot leaders start all rest (i0 + 1) k b
      (subst (Located all start rest) {x = (start +w i0 * 4) +w 4} (next_entry start i0) later) e

-- `j` rounds and then `k`
abbrev pub then_rounds : ℕ → ℕ → ℕ
then_rounds zero k = k
then_rounds (suc j) k = suc (then_rounds j k)

pub predecoded_rounds-then :
    (handle : Context → Outcome Context) (start : ℕ) (all : List Instruction) (j k : ℕ)
    (c : Context)
    → predecoded_rounds handle all start (then_rounds j k) c
      ≡ (predecoded_rounds handle all start j c >>= predecoded_rounds handle all start k)
unfolding predecoded_rounds
predecoded_rounds-then handle start all zero k c = refl
predecoded_rounds-then handle start all (suc j) k c =
    bind_congr (slot all start c.pc) (λ i.
      bind_congr (run_instruction_predecoded handle c i)
        (λ d. predecoded_rounds-then handle start all j k d)
      ∙ sym (bind_assoc (run_instruction_predecoded handle c i) _ _))
    ∙ sym (bind_assoc (slot all start c.pc) _ _)

module _ (handle : Context → Outcome Context) (handle_number : ℕ → Context → Outcome Context)
    (laws : IsHandler handle handle_number)
    (handle-FitsWords : (c : Context) → FitsWords c → Leaves FitsWords (handle c))
    (options : TranslationOptions) (branch_targets : List (ℕ × List (ℕ × ℕ))) (leaders : List ℕ)
    (start : ℕ) (all : List Instruction) (located : Located all start all start)
    (word : IsU32 start) where
  abbrev pub program : List Stmt
  program = emit_instructions options branch_targets leaders start initial_tracked all

  abbrev pub table : List Entry
  table = emit_dispatch_table leaders start (length all)

  entry-label :
      (k : ℕ) (text : List Stmt) (o : Option Entry)
      → get_elem? table k ≡ o
      → resume_at handle handle_number start program table (to_slot k) ≡ some text
      → (b : ℕ) × (get_elem? table k ≡ some (label_entry b)) × (after_label b program ≡ some text)
  unfolding resume_at
  entry-label k text none is e = let h : none ≡ some text = rw (resume_at, is) at (e) in absurd cc
  entry-label k text (some (label_entry b)) is e = (b, is, rw (resume_at, is) at (e))
  entry-label k text (some invalid_entry) is e =
      let h : none ≡ some text = rw (resume_at, is) at (e) in absurd cc
  entry-label k text (some exit_entry) is e =
      let h : none ≡ some text = rw (resume_at, is) at (e) in absurd cc

  -- the label in the slot of pc is that of pc
  pub slot-pc :
      (c : Context) (b : ℕ)
      → TranslatedFrom handle start all c
      → get_elem? table ((c.pc -w start) / 4) ≡ some (label_entry b)
      → b ≡ c.pc
  unfolding slot emit_dispatch_table predecoded_rounds
  slot-pc c b good is =
      let begins : start ≡ start +w 0 * 4 = unfold ◌+w◌ in omega arith in
      let (i, at, address) =
        entry-slot leaders start all all 0 ((c.pc -w start) / 4) b
          (subst (Located all start all) begins located) is in
      let (here, _, _, _) = good 0 c refl i (slot-ok all start c.pc i at) in sym address ∙ here

  -- Wherever control is left, it goes on at pc.
  resume-Finds :
      (c : Context) (m : Machine) (next : Next) (text : List Stmt)
      → Stands start c m next
      → TranslatedFrom handle start all c
      → resume_at handle handle_number start program table next ≡ some text
      → Finds handle handle_number options branch_targets leaders start all c.pc text
  unfolding resume_at
  resume-Finds c m onward text here good e = absurd cc
  resume-Finds c m (to_label a) text here good e =
      subst (λ x. Finds handle handle_number options branch_targets leaders start all x text)
        (sym here)
        (found handle handle_number options branch_targets leaders start all all initial_tracked a
          start text located e)
  resume-Finds c m (to_slot k) text (same, at) good e =
      let (b, is, finds) = entry-label k text (get_elem? table k) refl e in
      let there : b ≡ c.pc =
        slot-pc c b good (subst (λ x. get_elem? table x ≡ some (label_entry b)) at is) in
      subst (λ x. Finds handle handle_number options branch_targets leaders start all x text) there
        (found handle handle_number options branch_targets leaders start all all initial_tracked b
          start text located finds)

  jump-runs :
      (count : ℕ) (next : Next) (m : Machine) (text : List Stmt)
      → resume_at handle handle_number start program table next ≡ some text
      → run_translated handle handle_number start program table (suc count) next m ≡ (
          exec handle handle_number start text m >>= λ s.
          run_translated handle handle_number start program table count s.1 s.0)
  unfolding run_translated
  jump-runs count next m text found = rw (run_translated, found) refl

  -- what is claimed of `count` jumps
  abbrev Claim : ℕ → Type 0
  Claim count =
      (c : Context) (m : Machine) (next : Next)
      → Represents options c m
      → IsValid c
      → Stands start c m next
      → TranslatedFrom handle start all c
      → (k : ℕ) × Matches options start (predecoded_rounds handle all start k c)
          (run_translated handle handle_number start program table count next m)

  -- the jumps after the first
  goes_on :
      (count : ℕ) (c : Context) (m : Machine) (next : Next) (text : List Stmt)
      → Claim count
      → TranslatedFrom handle start all c
      → resume_at handle handle_number start program table next ≡ some text
      → (j : ℕ) (o : Outcome Context) → predecoded_rounds handle all start j c ≡ o
      → Matches options start o (exec handle handle_number start text m)
      → (k : ℕ) × Matches options start
          (predecoded_rounds handle all start k c)
          (run_translated handle handle_number start program table (suc count) next m)
  goes_on count c m next text ih good found j (ok d) ran match =
      let later : TranslatedFrom handle start all d = λ k e reached.
        good (then_rounds j k) e (predecoded_rounds-then handle start all j k c ∙ rw ran reached) in
      let (k, rest) = ih d match.machine match.next match.rep match.valid match.stands later in
      (
        then_rounds j k,
        rw
            (
              predecoded_rounds-then handle start all j k c,
              ran,
              jump-runs count next m text found,
              match.runs,
            )
            rest,
      )
  goes_on count c m next text ih good found j (exited n) ran match =
      (j, rw ran (jump-runs count next m text found ∙ rw match refl))
  goes_on count c m next text ih good found j fault ran match =
      (j, rw ran (jump-runs count next m text found ∙ rw match refl))

  stays :
      (count : ℕ) (c : Context) (m : Machine) (next : Next)
      → Represents options c m
      → IsValid c
      → Stands start c m next
      → run_translated handle handle_number start program table count next m ≡ ok (m, next)
      → (k : ℕ) × Matches options start
          (predecoded_rounds handle all start k c)
          (run_translated handle handle_number start program table count next m)
  unfolding predecoded_rounds
  stays count c m next rep valid here runs =
      (0, record { machine = m; next = next; runs = runs; rep = rep; valid = valid; stands = here })

  jump-stays :
      (count : ℕ) (next : Next) (m : Machine)
      → resume_at handle handle_number start program table next ≡ none
      → run_translated handle handle_number start program table (suc count) next m ≡ ok (m, next)
  unfolding run_translated
  jump-stays count next m nothing = rw (run_translated, nothing) refl

  -- from one jump to the next
  pub jump-Matches :
      (c : Context) (m : Machine) (next : Next) (text : List Stmt)
      → Represents options c m
      → IsValid c
      → Stands start c m next
      → TranslatedFrom handle start all c
      → resume_at handle handle_number start program table next ≡ some text
      → (k : ℕ) × Matches options start
          (predecoded_rounds handle all start k c)
          (exec handle handle_number start text m)
  jump-Matches c m next text rep valid here good found =
      let f = resume-Finds c m next text here good found in
      let place : IsAt options (reset_tracked f.tracked) c m = record {
        rep = rep;
        tracked = reset_tracked-IsTracked f.tracked c;
        zeroed = valid.zero_reg;
        words = valid.words;
      } in
      let (j, match) =
        block handle handle_number laws handle-FitsWords options branch_targets leaders start all
          f.suffix c.pc f.located (reset_tracked f.tracked) c m place refl good in
      (j, rw (f.same m) match)

  -- Where the slots of the text hold the instructions of the text at their addresses and the system
  -- calls keep the widths and obey `IsHandler`: from a machine that stands for a valid state of the
  -- guest, with control where pc says, any number of jumps of the translated program leaves a machine
  -- that stands for the state after some number of rounds of the interpreter, again valid and with
  -- control where pc says, if at every state that the interpreter reaches pc is the address of the
  -- instruction in its slot, which has a 32-bit immediate, is translated (`IsTranslated`) and accesses
  -- no memory out of bounds. Where those rounds exit, the translated program exits with the same
  -- status.
  pub run_translated-Matches :
      (count : ℕ) (c : Context) (m : Machine) (next : Next)
      → Represents options c m
      → IsValid c
      → Stands start c m next
      → TranslatedFrom handle start all c
      → (k : ℕ) × Matches options start
          (predecoded_rounds handle all start k c)
          (run_translated handle handle_number start program table count next m)
  unfolding run_translated
  run_translated-Matches zero c m next rep valid here good = stays zero c m next rep valid here refl
  run_translated-Matches (suc count) c m next rep valid here good =
      elim (Option-cases (resume_at handle handle_number start program table next)) [
        | inl nothing ↦ stays (suc count) c m next rep valid here (jump-stays count next m nothing)
        | inr (text, found) ↦
            let (j, match) = jump-Matches c m next text rep valid here good found in
            goes_on count c m next text
              (λ d k target r v s g. run_translated-Matches count d k target r v s g) good found j
              (predecoded_rounds handle all start j c) refl match
      ]
