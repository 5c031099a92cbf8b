-- ===== src/Sbt/Simulate/Steps.antt =====
-- A step of `runTranslated`, from the dispatch loop, a label or the test of the interpreter fallback,
-- against some rounds of the predecoded interpreter.
use Prim.Native.Nat.{ℕ, ◌/◌}
use mathlib.Core.Path.{◌≡◌, refl, sym, ap, subst, ◌∙◌}
use mathlib.Core.Logic.{◌≢◌, inl, inr}
use mathlib.Core.List.{List}
use mathlib.Core.Option.{Option, none, some}
use riscv_sbt.Base.{get_elem?, Option-cases}
use riscv_sbt.Base.Word.{IsU32, ◌-w◌}
use riscv_sbt.Base.Outcome.{Outcome, ok, exited, fault, ◌>>=◌, Leaves}
use riscv_sbt.Decoder.Instructions.{Instruction}
use riscv_sbt.Runtime.Context.{Context}
use riscv_sbt.Interpreter.Predecoded.{run_instruction_predecoded}
use riscv_sbt.Interpreter.Switch.{run_instruction_switch}
use riscv_sbt.Interpreter.Threaded.{slot, predecoded_rounds}
use riscv_sbt.Interpreter.Valid.{FitsWords, IsValid, run_instruction_predecoded-IsValid}
use riscv_sbt.Sbt.Emit.Syntax.{Stmt}
use riscv_sbt.Sbt.Emit.Emitter.{TranslationOptions}
use riscv_sbt.Sbt.Emit.Machine.{Machine, Next, onward, to_label, to_slot, exec}
use riscv_sbt.Sbt.Emit.Program.{
  Entry, label_entry, invalid_entry, exit_entry, emit_dispatch_table, after_label, resume_at,
}
use riscv_sbt.Sbt.Emit.Runtime.{
  Place, jumping, interpreting, finished, pc_index, run_from, step_program,
}
use riscv_sbt.Sbt.Simulate.Represents.{Represents}
use riscv_sbt.Sbt.Simulate.System.{IsHandler}
use riscv_sbt.Sbt.Simulate.Runs.{Located, Stands, Matches, TranslatedFrom}
use riscv_sbt.Sbt.Simulate.Jumps.{program, table, slot-ok, jump-Matches}
use riscv_sbt.Sbt.Simulate.Fallback.{
  FetchedFrom, StandsAt, MeetsAt, MatchesAt, entries-none, entries-some, slot-none,
  fetched-predecoded, exit_program-MeetsAt, enter_fallback-MeetsAt, leave_fallback-MeetsAt,
}

module _ (handle : Context → Outcome Context) (handle_number : ℕ → Context → Outcome Context)
    (laws : IsHandler handle handle_number)
    (handle-FitsWords : (c : Context) → FitsWords c → Leaves FitsWords (handle c))
    (options : TranslationOptions) (branch_targets : List (ℕ × List (ℕ × ℕ))) (leaders : List ℕ)
    (start : ℕ) (all : List Instruction) (located : Located all start all start)
    (word : IsU32 start) where
  abbrev pub text : List Stmt
  text =
      program handle handle_number laws handle-FitsWords options branch_targets leaders start all
        located word

  abbrev pub slots : List Entry
  slots =
      table handle handle_number laws handle-FitsWords options branch_targets leaders start all
        located word

  abbrev pub rounds : ℕ → Context → Outcome Context
  rounds = predecoded_rounds handle all start

  abbrev step : Place → Machine → Outcome (Machine × Place)
  step = step_program options handle handle_number start text slots

  abbrev pub Steps : Context → Outcome (Machine × Place) → Type 0
  Steps c o = (k : ℕ) × MatchesAt options start (rounds k c) o

  -- a step of the program without a round of the interpreter
  unmoved : (c : Context) (o : Outcome (Machine × Place)) → MeetsAt options start c o → Steps c o
  unfolding predecoded_rounds
  unmoved c o h = (0, h)

  -- A round with no instruction in the slot: neither the table nor the slots have the index.
  missed :
      (c : Context) (o : Outcome (Machine × Place))
      → get_elem? slots ((c.pc -w start) / 4) ≡ none
      → o ≡ fault
      → Steps c o
  unfolding predecoded_rounds emit_dispatch_table
  missed c o nothing out =
      let empty : slot all start c.pc ≡ fault =
        slot-none all start c.pc (entries-none leaders start all 0 ((c.pc -w start) / 4) nothing) in
      (1, rw empty out)

  lifted :
      (d : Outcome Context) (o : Outcome (Machine × Next))
      → Matches options start d o
      → MatchesAt options start d (o >>= λ s. ok (s.0, jumping s.1))
  lifted (ok d) o h = record {
    machine = h.machine;
    place = jumping h.next;
    runs = rw h.runs refl;
    valid = h.valid;
    stands = (h.rep, h.stands);
  }
  lifted (exited n) o h = rw h refl
  lifted fault o h = rw h refl

  -- what the theorem is about
  pub record IsGood (c : Context) : Type 0 where
    pub valid : IsValid c
    pub translated : TranslatedFrom handle start all c
    pub fetched : FetchedFrom handle start all c

  run_from-Steps :
      (c : Context) (m : Machine) (next : Next) (a : ℕ)
      → Represents options c m
      → Stands start c m next
      → IsGood c
      → resume_at handle handle_number start text slots next ≡ after_label a text
      → Steps c (run_from options handle handle_number start text slots a next m)
  unfolding run_from
  run_from-Steps c m next a rep here good same = elim (Option-cases (after_label a text)) [
    | inl nothing ↦ unmoved c _ record {
      machine = m;
      place = jumping next;
      runs = rw (run_from, nothing) refl;
      valid = good.valid;
      stands = (rep, here);
    }
    | inr (body, found) ↦
        let (k, match) =
          jump-Matches handle handle_number laws handle-FitsWords options branch_targets leaders
            start all located word c m next body rep good.valid here good.translated
            (same ∙ found) in
        (
          k,
          rw (run_from, found) (lifted (rounds k c) (exec handle handle_number start body m) match),
        )
  ]

  -- the dispatch through the table
  slot-Steps :
      (c : Context) (m : Machine) (k : ℕ)
      → Represents options c m
      → Stands start c m (to_slot k)
      → IsGood c
      → (o : Option Entry) → get_elem? slots k ≡ o
      → Steps c (step (jumping (to_slot k)) m)
  unfolding step_program resume_at
  slot-Steps c m k rep here good none is =
      missed c _ (subst (λ x. get_elem? slots x ≡ none) here.1 is) (rw (step_program, is) refl)
  slot-Steps c m k rep here good (some (label_entry b)) is =
      rw (step_program, is)
        (run_from-Steps c m (to_slot k) b rep here good (rw (resume_at, is) refl))
  slot-Steps c m k rep here good (some invalid_entry) is =
      rw (step_program, is)
        (unmoved c _ (
          enter_fallback-MeetsAt handle handle_number options start text slots c m k rep good.valid
            here))
  slot-Steps c m k rep here good (some exit_entry) is =
      rw (step_program, is)
        (unmoved c _
          (exit_program-MeetsAt handle handle_number options start text slots c m rep good.valid))

  -- an instruction of the fallback
  interpreted :
      (m : Machine) (o : Outcome Context)
      → Leaves IsValid o
      → MatchesAt options start (o >>= rounds 0) (
          o >>= λ e. ok (
            record m { ctx = e },
            interpreting (pc_index options handle handle_number start text slots e),
          ))
  unfolding predecoded_rounds pc_index
  interpreted m (ok e) valid = record {
    machine = record m { ctx = e };
    place = interpreting ((e.pc -w start) / 4);
    runs = refl;
    valid = valid;
    stands = (refl, refl);
  }
  interpreted m (exited n) valid = refl
  interpreted m fault valid = refl

  interpreted-Steps :
      (m : Machine)
      → IsGood m.ctx
      → get_elem? all ((m.ctx.pc -w start) / 4) ≢ none
      → Steps m.ctx (
          run_instruction_switch handle m.ctx >>= λ e. ok (
            record m { ctx = e },
            interpreting (pc_index options handle handle_number start text slots e),
          ))
  unfolding predecoded_rounds
  interpreted-Steps m good there = elim (Option-cases (get_elem? all ((m.ctx.pc -w start) / 4))) [
    | inl nothing ↦ absurd (there nothing)
    | inr (i, found) ↦
        let at : slot all start m.ctx.pc ≡ ok i = slot-ok all start m.ctx.pc i found in
        let (same, immediate, _, _) = good.translated 0 m.ctx refl i at in
        (
          1,
          rw
              (
                at,
                fetched-predecoded handle m.ctx i good.valid.words (good.fetched 0 m.ctx refl i at),
              )
              (interpreted m (run_instruction_predecoded handle m.ctx i) (
                run_instruction_predecoded-IsValid handle handle-FitsWords m.ctx i immediate
                  good.valid.words)),
        )
  ]

  -- the test of the fallback's loop
  fallback-Steps :
      (c : Context) (m : Machine) (k : ℕ)
      → m.ctx ≡ c
      → k ≡ (c.pc -w start) / 4
      → IsGood c
      → (o : Option Entry) → get_elem? slots k ≡ o
      → Steps c (step (interpreting k) m)
  unfolding step_program
  fallback-Steps c m k is index good none at =
      missed c _ (subst (λ x. get_elem? slots x ≡ none) index at) (rw (step_program, at) refl)
  fallback-Steps c m k is index good (some invalid_entry) at =
      rw (step_program, at)
        (subst
          (λ x. Steps x (
            run_instruction_switch handle m.ctx >>= λ e. ok (
              record m { ctx = e },
              interpreting (pc_index options handle handle_number start text slots e),
            )))
          is
          (interpreted-Steps m (subst IsGood (sym is) good) (
            subst (λ x. get_elem? all x ≢ none) (index ∙ ap (λ d. (d.pc -w start) / 4) (sym is))
              (unfold emit_dispatch_table in
                entries-some leaders start all 0 k invalid_entry at (λ e. cc)))))
  fallback-Steps c m k is index good (some (label_entry b)) at =
      rw (step_program, at)
        (unmoved c _
          (leave_fallback-MeetsAt handle handle_number options start text slots c m is good.valid))
  fallback-Steps c m k is index good (some exit_entry) at =
      rw (step_program, at)
        (unmoved c _
          (leave_fallback-MeetsAt handle handle_number options start text slots c m is good.valid))

  pub step_program-Steps :
      (c : Context) (m : Machine) (place : Place)
      → StandsAt options start c m place
      → IsGood c
      → Steps c (step place m)
  unfolding step_program resume_at
  step_program-Steps c m (jumping onward) (rep, here) good =
      unmoved c _
        (exit_program-MeetsAt handle handle_number options start text slots c m rep good.valid)
  step_program-Steps c m (jumping (to_label a)) (rep, here) good =
      run_from-Steps c m (to_label a) a rep here good refl
  step_program-Steps c m (jumping (to_slot k)) (rep, here) good =
      slot-Steps c m k rep here good (get_elem? slots k) refl
  step_program-Steps c m (interpreting k) (is, index) good =
      fallback-Steps c m k is index good (get_elem? slots k) refl
  step_program-Steps c m finished here good =
      unmoved c _
        record { machine = m; place = finished; runs = refl; valid = good.valid; stands = here }
