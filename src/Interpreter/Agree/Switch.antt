-- ===== src/Interpreter/Agree/Switch.antt =====
-- `runInstructionSwitch` and `runInstruction` do the same on every executable word but `ecall`s
-- with a nonzero funct3; the words on which they part.
use Prim.Native.Nat.{ℕ, suc, bit_and}
use mathlib.Core.Path.{◌≡◌, refl, sym, ap, ◌∙◌}
use mathlib.Core.Logic.{◌≢◌, ◌↔◌, inl, inr}
use native.Mathlib.Omega.{arith}
use riscv_sbt.Base.{true, false, ◌==◌, ne→==, length, Bool-cases}
use riscv_sbt.Base.Word.{IsU32, shl32}
use riscv_sbt.Base.Outcome.{Outcome, ok, exited, fault}
use riscv_sbt.Decoder.Fields.{get_opcode, get_funct3, get_funct5, get_rd, i_fmt_imm, u_fmt_imm}
use riscv_sbt.Decoder.Decode.{decode}
use riscv_sbt.Runtime.Context.{Context, set_reg, set_pc, print_unsupported}
use riscv_sbt.Interpreter.Arms.{retire}
use riscv_sbt.Interpreter.Chain.{locals, chain, run_instruction_word}
use riscv_sbt.Interpreter.Switch.{cases, run_instruction_switch_word}
use riscv_sbt.Interpreter.Agree.Shift.{system-agree, atomic-agree}
use riscv_sbt.Interpreter.Agree.Split.{by_value, by_test}
use riscv_sbt.Interpreter.Agree.SwitchOps.{
  is_executable, SwitchAgrees, op_imm-switch, op-switch, load-switch, store-switch, branch-switch,
  jal-switch, lui-switch, auipc-switch, jalr-switch,
}

module _ (handle : Context → Outcome Context) (c : Context) (w a : ℕ) (h : IsU32 w) where
  atomic-switch : get_opcode w ≡ 0b0101111 → SwitchAgrees handle c w a
  unfolding cases chain locals decode is_executable
  atomic-switch op =
      by_value (get_funct3 w) 2
        (λ e.
          by_value (get_funct5 w) 2 (λ x. rw (op, e, x) (λ _. refl))
            (λ x.
              by_value (get_funct5 w) 3 (λ y. rw (op, e, y) (λ _. refl))
                (λ y.
                  rw
                    (
                      op,
                      e,
                      ← atomic-agree w h 2 (omega arith),
                      ← atomic-agree w h 3 (omega arith),
                      x,
                      y,
                    )
                    (λ b. cc b))))
        (λ e. rw (op, e) (λ b. cc b))

  system-switch : get_funct3 w ≡ 0 → get_opcode w ≡ 0b1110011 → SwitchAgrees handle c w a
  unfolding cases chain locals decode is_executable
  system-switch e op =
      by_test (i_fmt_imm w == 0) (λ x. rw (op, e, x) (λ _. refl))
        (λ x.
          by_test (bit_and w 0xfff0_0000 == 0x0010_0000)
            (λ y. rw (op, e, ← system-agree w h, x, y) (λ b. cc b))
            (λ y. rw (op, e, ← system-agree w h, x, y) (λ b. cc b)))

  other-switch :
      (get_opcode w == 0b0010011) ≡ false
      → (get_opcode w == 0b0110011) ≡ false
      → (get_opcode w == 0b0000011) ≡ false
      → (get_opcode w == 0b0100011) ≡ false
      → (get_opcode w == 0b1100011) ≡ false
      → (get_opcode w == 0b1101111) ≡ false
      → (get_opcode w == 0b1100111) ≡ false
      → (get_opcode w == 0b0110111) ≡ false
      → (get_opcode w == 0b0010111) ≡ false
      → (get_opcode w == 0b1110011) ≡ false
      → (get_opcode w == 0b0101111) ≡ false
      → SwitchAgrees handle c w a
  unfolding chain locals cases
  other-switch e1 e2 e3 e4 e5 e6 e7 e8 e9 e10 e11 =
      rw (e1, e2, e3, e4, e5, e6, e7, e8, e9, e10, e11) (λ _. refl)

  cases-chain : (get_opcode w ≡ 0b1110011 → get_funct3 w ≡ 0) → SwitchAgrees handle c w a
  cases-chain plain = by_value (get_opcode w) 0b0010011 (op_imm-switch handle c w a) λ e1.
      by_value (get_opcode w) 0b0110011 (op-switch handle c w a) λ e2.
        by_value (get_opcode w) 0b0000011 (load-switch handle c w a) λ e3.
          by_value (get_opcode w) 0b0100011 (store-switch handle c w a) λ e4.
            by_value (get_opcode w) 0b1100011 (branch-switch handle c w a) λ e5.
              by_value (get_opcode w) 0b1101111 (jal-switch handle c w a) λ e6.
                by_value (get_opcode w) 0b1100111 (jalr-switch handle c w a) λ e7.
                  by_value (get_opcode w) 0b0110111 (lui-switch handle c w a) λ e8.
                    by_value (get_opcode w) 0b0010111 (auipc-switch handle c w a) λ e9.
                      by_value (get_opcode w) 0b1110011 (λ e. system-switch (plain e) e)
                        λ e10.
                          by_value (get_opcode w) 0b0101111 atomic-switch
                            λ e11. other-switch e1 e2 e3 e4 e5 e6 e7 e8 e9 e10 e11

  -- On a word that decodes to an executable instruction (any type but EBREAK, FENCE and INVALID),
  -- and whose funct3 is 0 if its opcode is that of `ecall`, `runInstructionSwitch` and
  -- `runInstruction` have the same outcome.
  pub run_instruction_switch_word-chain :
      is_executable (decode w a).type ≡ true
      → (get_opcode w ≡ 0b1110011 → get_funct3 w ≡ 0)
      → run_instruction_switch_word handle c w ≡ run_instruction_word handle c w
  unfolding run_instruction_switch_word run_instruction_word
  run_instruction_switch_word-chain known plain = rw (cases-chain plain known)

-- how many lines are printed by then
abbrev lines : Outcome Context → ℕ
lines (ok d) = length d.unsupported
lines (exited n) = 0
lines fault = 0

module _ (handle : Context → Outcome Context) (c : Context) (w : ℕ)
    (op : get_opcode w ≡ 0b1100111) where
  -- The case of `jalr` falls through into that of `lui`.
  jalr_falls_through :
      get_funct3 w ≢ 0
      → (run_instruction_word handle c w ≡ ok (retire (print_unsupported c)))
        × (run_instruction_switch_word handle c w
            ≡ ok (retire (set_reg c (get_rd w) (shl32 (u_fmt_imm w) 12))))
  unfolding run_instruction_word run_instruction_switch_word chain cases locals
  jalr_falls_through ne = (rw (op, ne→== _ _ ne), rw (op, ne→== _ _ ne))

  only_chain_prints :
      get_funct3 w ≢ 0 → run_instruction_switch_word handle c w ≢ run_instruction_word handle c w
  unfolding retire print_unsupported set_reg set_pc
  only_chain_prints ne same =
      let (prints, writes) = jalr_falls_through ne in
      let counts : length c.unsupported ≡ suc (length c.unsupported) =
        ap lines (sym writes ∙ same ∙ prints) in
      omega (arith, counts)

  -- On a word with the opcode of `jalr`, `runInstructionSwitch` does what `runInstruction` does
  -- exactly when funct3 is 0.
  pub jalr_agrees_iff :
      (run_instruction_switch_word handle c w ≡ run_instruction_word handle c w)
      ↔ (get_funct3 w ≡ 0)
  unfolding run_instruction_word run_instruction_switch_word chain cases locals
  jalr_agrees_iff = (
    λ same. elim (Bool-cases (get_funct3 w == 0)) [
      | inl zeroed ↦ ground (arith, zeroed)
      | inr other ↦ absurd (only_chain_prints (ground (arith, other)) same)
    ],
    λ zeroed. rw (op, zeroed) refl,
  )
