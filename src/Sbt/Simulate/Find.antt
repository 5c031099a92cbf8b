-- ===== src/Sbt/Simulate/Find.antt =====
-- The search for a label: it leads to the statements of the instruction at its address.
use Prim.Native.Nat.{ℕ}
use mathlib.Core.Path.{◌≡◌, refl, sym, ap, subst, ◌∙◌}
use mathlib.Core.Logic.{inl, inr}
use mathlib.Core.Bool.{true, false}
use mathlib.Core.List.{List, [], ◌∷◌, ◌++◌}
use mathlib.Core.Option.{some}
use riscv_sbt.Base.{◌==◌, ==→eq, Bool-cases}
use riscv_sbt.Base.Word.{◌+w◌}
use riscv_sbt.Base.Outcome.{Outcome}
use riscv_sbt.Decoder.Instructions.{Instruction}
use riscv_sbt.Runtime.Context.{Context}
use riscv_sbt.Sbt.Emit.Syntax.{Stmt, label_at}
use riscv_sbt.Sbt.Emit.Emitter.{TranslationOptions, Tracked, contains, reset_tracked}
use riscv_sbt.Sbt.Emit.Instructions.{emit_body, emit_instruction}
use riscv_sbt.Sbt.Emit.Machine.{Machine, exec_stmt, exec}
use riscv_sbt.Sbt.Emit.Program.{after_label, emit_instructions}
use riscv_sbt.Sbt.Simulate.Labels.{emit_body-HasNoLabel}
use riscv_sbt.Sbt.Simulate.Runs.{Located}

module _ (handle : Context → Outcome Context) (handle_number : ℕ → Context → Outcome Context)
    (options : TranslationOptions) (branch_targets : List (ℕ × List (ℕ × ℕ))) (leaders : List ℕ)
    (start : ℕ) (all : List Instruction) where
  -- the statements after a label are those for the instructions from its address on
  pub record Finds (a : ℕ) (text : List Stmt) : Type 0 where
    pub tracked : Tracked
    pub suffix : List Instruction
    pub located : Located all start suffix a
    pub same :
        (m : Machine)
        → exec handle handle_number start text m
          ≡ exec handle handle_number start
              (emit_instructions options branch_targets leaders start
                (reset_tracked tracked)
                suffix)
              m

  module _ (t : Tracked) (i : Instruction) (rest : List Instruction) (a : ℕ) where
    -- an instruction inside a block is searched past
    pub inside-skip :
        contains i.address leaders ≡ false
        → after_label a (emit_instructions options branch_targets leaders start t (i ∷ rest))
          ≡ after_label a (
              emit_instructions options branch_targets leaders start
                (emit_instruction options branch_targets leaders start t i).1
                rest)
    unfolding emit_instructions emit_instruction
    inside-skip inside =
        rw inside ((emit_body-HasNoLabel options branch_targets leaders start t i i.type).past a _)

    -- the statements from a leader on, without its label
    abbrev pub unlabelled : List Stmt
    unlabelled =
        (emit_body options branch_targets leaders start i.type (reset_tracked t) i).0
        ++ emit_instructions options branch_targets leaders start
            (emit_instruction options branch_targets leaders start t i).1 rest

    leader-text :
        contains i.address leaders ≡ true
        → emit_instructions options branch_targets leaders start t (i ∷ rest)
          ≡ label_at i.address ∷ unlabelled
    unfolding emit_instructions emit_instruction
    leader-text leader = rw leader refl

    leader-reset :
        contains i.address leaders ≡ true
        → emit_instructions options branch_targets leaders start (reset_tracked t) (i ∷ rest)
          ≡ emit_instructions options branch_targets leaders start t (i ∷ rest)
    unfolding emit_instructions emit_instruction reset_tracked
    leader-reset leader = rw leader refl

    pub leader-skip :
        contains i.address leaders ≡ true
        → (a == i.address) ≡ false
        → after_label a (emit_instructions options branch_targets leaders start t (i ∷ rest))
          ≡ after_label a (
              emit_instructions options branch_targets leaders start
                (emit_instruction options branch_targets leaders start t i).1
                rest)
    unfolding after_label
    leader-skip leader miss =
        ap (after_label a) (leader-text leader)
        ∙ rw miss (
            (emit_body-HasNoLabel options branch_targets leaders start (reset_tracked t) i
                i.type).past
              a _)

    pub leader-hit :
        contains i.address leaders ≡ true
        → (a == i.address) ≡ true
        → after_label a (emit_instructions options branch_targets leaders start t (i ∷ rest))
          ≡ some unlabelled
    unfolding after_label
    leader-hit leader hit = ap (after_label a) (leader-text leader) ∙ rw hit refl

    leader-runs :
        (m : Machine)
        → contains i.address leaders ≡ true
        → exec handle handle_number start unlabelled m
          ≡ exec handle handle_number start
              (emit_instructions options branch_targets leaders start (reset_tracked t) (i ∷ rest))
              m
    unfolding exec exec_stmt
    leader-runs m leader =
        sym
          (ap (λ x. exec handle handle_number start x m) (leader-reset leader ∙ leader-text leader))

  pub found :
      (l : List Instruction) (t : Tracked) (a b : ℕ) (text : List Stmt)
      → Located all start l b
      → after_label a (emit_instructions options branch_targets leaders start t l) ≡ some text
      → Finds a text
  unfolding emit_instructions after_label
  found [] t a b text h e = absurd cc
  found (i ∷ rest) t a b text (address, at, later) e =
      let after = (emit_instruction options branch_targets leaders start t i).1 in
      elim (Bool-cases (contains i.address leaders)) [
        | inr inside ↦
            found rest after a (b +w 4) text later (sym (inside-skip t i rest a inside) ∙ e)
        | inl leader ↦ elim (Bool-cases (a == i.address)) [
          | inr miss ↦
              found rest after a (b +w 4) text later (sym (leader-skip t i rest a leader miss) ∙ e)
          | inl hit ↦
              let there : b ≡ a = sym (==→eq a i.address hit ∙ address) in
              let named : some (unlabelled t i rest a) ≡ some text =
                sym (leader-hit t i rest a leader hit) ∙ e in
              let is : unlabelled t i rest a ≡ text = cc in
              record {
                tracked = t;
                suffix = i ∷ rest;
                located = subst (Located all start (i ∷ rest)) there (address, at, later);
                same = λ m.
                    ap (λ x. exec handle handle_number start x m) (sym is)
                    ∙ leader-runs t i rest a m leader;
              }
        ]
      ]
