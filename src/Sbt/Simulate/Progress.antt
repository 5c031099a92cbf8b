-- ===== src/Sbt/Simulate/Progress.antt =====
-- A jump to a leader of the text stays in the translated instructions.
use Prim.Native.Nat.{ℕ, zero, suc, ◌+◌, ◌*◌, ◌/◌}
use mathlib.Core.Path.{◌≡◌, refl, sym, ap, subst, ◌∙◌}
use mathlib.Core.Logic.{◌≢◌, inl, inr}
use mathlib.Core.Bool.{true}
use mathlib.Core.List.{List, [], ◌∷◌}
use mathlib.Core.Option.{some}
use native.Mathlib.Omega.{arith}
use riscv_sbt.Base.{get_elem?, length, ◌==◌, ==_refl, Bool-cases, Option-cases}
use riscv_sbt.Base.Word.{IsU32, ◌+w◌, ◌-w◌}
use riscv_sbt.Base.Outcome.{Outcome, ok, fault}
use riscv_sbt.Decoder.Instructions.{Instruction}
use riscv_sbt.Runtime.Context.{Context}
use riscv_sbt.Interpreter.Threaded.{slot}
use riscv_sbt.Sbt.Emit.Syntax.{Stmt}
use riscv_sbt.Sbt.Emit.Emitter.{TranslationOptions, Tracked, contains}
use riscv_sbt.Sbt.Emit.Instructions.{emit_instruction}
use riscv_sbt.Sbt.Emit.Machine.{Machine, Next, onward, to_label, to_slot}
use riscv_sbt.Sbt.Emit.Program.{
  Entry, label_entry, entries_from, emit_dispatch_table, after_label, emit_instructions, resume_at,
  initial_tracked,
}
use riscv_sbt.Sbt.Simulate.Runs.{Located, Stands}
use riscv_sbt.Sbt.Simulate.Find.{inside-skip, leader-skip, leader-hit, unlabelled}
use riscv_sbt.Sbt.Simulate.Jumps.{next_entry}

slot-index :
    (all : List Instruction) (start pc : ℕ) (i : Instruction)
    → slot all start pc ≡ ok i
    → get_elem? all ((pc -w start) / 4) ≡ some i
unfolding slot
slot-index all start pc i at = elim (Option-cases (get_elem? all ((pc -w start) / 4))) [
  | inl missing ↦ let h : fault ≡ ok i = rw (slot, missing) at (at) in absurd cc
  | inr (j, found) ↦
      let h : ok j ≡ ok i = rw (slot, found) at (at) in let is : j ≡ i = cc in found ∙ ap some is
]

module _ (handle : Context → Outcome Context) (handle_number : ℕ → Context → Outcome Context)
    (options : TranslationOptions) (branch_targets : List (ℕ × List (ℕ × ℕ))) (leaders : List ℕ)
    (start : ℕ) (all : List Instruction) where
  -- the label of a leader is emitted
  label-some :
      (l : List Instruction) (k : ℕ) (i : Instruction) (t : Tracked)
      → get_elem? l k ≡ some i
      → contains i.address leaders ≡ true
      → (text : List Stmt) × (after_label i.address
            (emit_instructions options branch_targets leaders start t l)
          ≡ some text)
  label-some [] k i t at leader = absurd cc
  label-some (j ∷ rest) zero i t at leader =
      let is : j ≡ i = cc in
      let own : contains j.address leaders ≡ true =
        subst (λ x. contains x.address leaders ≡ true) (sym is) leader in
      let hit : (i.address == j.address) ≡ true =
        subst (λ x. (i.address == x.address) ≡ true) (sym is) (==_refl i.address) in
      (
        unlabelled handle handle_number options branch_targets leaders start all t j rest i.address,
        leader-hit handle handle_number options branch_targets leaders start all t j rest i.address
            own hit,
      )
  label-some (j ∷ rest) (suc k) i t at leader =
      let after = (emit_instruction options branch_targets leaders start t j).1 in
      let (text, found) = label-some rest k i after at leader in
      elim (Bool-cases (contains j.address leaders)) [
        | inr inside ↦ (
          text,
          inside-skip handle handle_number options branch_targets leaders start all t j rest
                i.address inside
              ∙ found,
        )
        | inl other ↦ elim (Bool-cases (i.address == j.address)) [
          | inl hit ↦ (
            unlabelled handle handle_number options branch_targets leaders start all t j rest
                i.address,
            leader-hit handle handle_number options branch_targets leaders start all t j rest
                i.address other hit,
          )
          | inr miss ↦ (
            text,
            leader-skip handle handle_number options branch_targets leaders start all t j rest
                  i.address other miss
                ∙ found,
          )
        ]
      ]

  -- the slot of a leader holds its label
  entry-leader :
      (l : List Instruction) (i0 k : ℕ) (i : Instruction)
      → Located all start l (start +w i0 * 4)
      → get_elem? l k ≡ some i
      → contains i.address leaders ≡ true
      → get_elem? (entries_from leaders start i0 (length l)) k ≡ some (label_entry i.address)
  unfolding entries_from
  entry-leader [] i0 k i located at leader = absurd cc
  entry-leader (j ∷ rest) i0 zero i (address, slot_of, later) at leader =
      let is : j ≡ i = cc in
      let here : start +w i0 * 4 ≡ i.address = sym address ∙ ap (λ x. x.address) is in
      rw (here, leader) refl
  entry-leader (j ∷ rest) i0 (suc k) i (address, slot_of, later) at leader =
      entry-leader rest (i0 + 1) k i
        (subst (Located all start rest) {x = (start +w i0 * 4) +w 4} (next_entry start i0) later) at
        leader

  module _ (located : Located all start all start) (word : IsU32 start) where
    abbrev program : List Stmt
    program = emit_instructions options branch_targets leaders start initial_tracked all

    abbrev table : List Entry
    table = emit_dispatch_table leaders start (length all)

    -- Where control is left at a jump and pc is at an instruction of the text that is a leader, the
    -- translated program goes on: the label that is jumped to is emitted, and the slot of pc in the
    -- dispatch table holds it.
    pub leader-resumes :
        (c : Context) (m : Machine) (next : Next) (i : Instruction)
        → Stands start c m next
        → next ≢ onward
        → slot all start c.pc ≡ ok i
        → i.address ≡ c.pc
        → contains c.pc leaders ≡ true
        → (text : List Stmt) × (resume_at handle handle_number start program table next ≡ some text)
    unfolding resume_at emit_dispatch_table
    leader-resumes c m onward i stands jumps at address leader = absurd (jumps refl)
    leader-resumes c m (to_label a) i stands jumps at address leader =
        let own : contains i.address leaders ≡ true = rw address leader in
        let (text, found) =
          label-some all ((c.pc -w start) / 4) i initial_tracked (slot-index all start c.pc i at)
            own in
        (text, subst (λ x. after_label x program ≡ some text) (address ∙ stands) found)
    leader-resumes c m (to_slot k) i (same, index) jumps at address leader =
        let own : contains i.address leaders ≡ true = rw address leader in
        let element = slot-index all start c.pc i at in
        let (text, found) = label-some all ((c.pc -w start) / 4) i initial_tracked element own in
        let begins : start ≡ start +w 0 * 4 = unfold ◌+w◌ in omega arith in
        let entry : get_elem? table k ≡ some (label_entry i.address) =
          subst (λ n. get_elem? table n ≡ some (label_entry i.address)) (sym index)
            (entry-leader all 0 ((c.pc -w start) / 4) i
              (subst (Located all start all) begins located) element own) in
        (text, rw (resume_at, entry) found)
