-- ===== src/Interpreter/Agree/SwitchOps.antt =====
-- The nested `switch`es against the chain of `if`s, one opcode at a time.
use Prim.Native.Nat.{ℕ}
use mathlib.Core.Path.{◌≡◌, refl}
use riscv_sbt.Base.{Bool, true, false}
use riscv_sbt.Base.Outcome.{Outcome}
use riscv_sbt.Decoder.Instructions.{EInstruction}
use riscv_sbt.Decoder.Fields.{get_opcode, get_funct3, get_funct7, get_sh_type}
use riscv_sbt.Decoder.Decode.{decode}
use riscv_sbt.Runtime.Context.{Context}
use riscv_sbt.Interpreter.Chain.{locals, chain}
use riscv_sbt.Interpreter.Switch.{cases}
use riscv_sbt.Interpreter.Agree.Split.{split_funct3, by_value}

-- Whether an instruction of the type is carried out; the others only print a line.
unfoldable pub is_executable : EInstruction → Bool
is_executable EInstruction.ebreak = false
is_executable EInstruction.fence = false
is_executable EInstruction.invalid = false
is_executable _ = true

abbrev pub SwitchAgrees : (Context → Outcome Context) → Context → ℕ → ℕ → Type 0
SwitchAgrees handle c w a =
    is_executable (decode w a).type ≡ true → cases handle (locals w) c ≡ chain handle (locals w) c

module _ (handle : Context → Outcome Context) (c : Context) (w a : ℕ) where
  pub op_imm-switch : get_opcode w ≡ 0b0010011 → SwitchAgrees handle c w a
  unfolding cases chain locals decode is_executable get_sh_type
  op_imm-switch op =
      split_funct3 w (λ e. rw (op, e) (λ _. refl))
        (λ e.
          by_value (get_funct7 w) 0 (λ x. rw (op, e, x) (λ _. refl))
            (λ x1. rw (op, e, x1) (λ b. cc b)))
        (λ e. rw (op, e) (λ _. refl)) (λ e. rw (op, e) (λ _. refl)) (λ e. rw (op, e) (λ _. refl))
        (λ e.
          by_value (get_funct7 w) 0 (λ x. rw (op, e, x) (λ _. refl))
            (λ x1.
              by_value (get_funct7 w) 32 (λ x. rw (op, e, x) (λ _. refl))
                (λ x2. rw (op, e, x1, x2) (λ b. cc b))))
        (λ e. rw (op, e) (λ _. refl)) (λ e. rw (op, e) (λ _. refl))

  pub op-switch : get_opcode w ≡ 0b0110011 → SwitchAgrees handle c w a
  unfolding cases chain locals decode is_executable
  op-switch op =
      split_funct3 w
        (λ e.
          by_value (get_funct7 w) 0 (λ x. rw (op, e, x) (λ _. refl))
            (λ x1.
              by_value (get_funct7 w) 32 (λ x. rw (op, e, x) (λ _. refl))
                (λ x2.
                  by_value (get_funct7 w) 1 (λ x. rw (op, e, x) (λ _. refl))
                    (λ x3. rw (op, e, x1, x2, x3) (λ b. cc b)))))
        (λ e.
          by_value (get_funct7 w) 0 (λ x. rw (op, e, x) (λ _. refl))
            (λ x1.
              by_value (get_funct7 w) 1 (λ x. rw (op, e, x) (λ _. refl))
                (λ x2. rw (op, e, x1, x2) (λ b. cc b))))
        (λ e.
          by_value (get_funct7 w) 0 (λ x. rw (op, e, x) (λ _. refl))
            (λ x1.
              by_value (get_funct7 w) 1 (λ x. rw (op, e, x) (λ _. refl))
                (λ x2. rw (op, e, x1, x2) (λ b. cc b))))
        (λ e.
          by_value (get_funct7 w) 0 (λ x. rw (op, e, x) (λ _. refl))
            (λ x1.
              by_value (get_funct7 w) 1 (λ x. rw (op, e, x) (λ _. refl))
                (λ x2. rw (op, e, x1, x2) (λ b. cc b))))
        (λ e.
          by_value (get_funct7 w) 0 (λ x. rw (op, e, x) (λ _. refl))
            (λ x1.
              by_value (get_funct7 w) 1 (λ x. rw (op, e, x) (λ _. refl))
                (λ x2. rw (op, e, x1, x2) (λ b. cc b))))
        (λ e.
          by_value (get_funct7 w) 0 (λ x. rw (op, e, x) (λ _. refl))
            (λ x1.
              by_value (get_funct7 w) 32 (λ x. rw (op, e, x) (λ _. refl))
                (λ x2.
                  by_value (get_funct7 w) 1 (λ x. rw (op, e, x) (λ _. refl))
                    (λ x3. rw (op, e, x1, x2, x3) (λ b. cc b)))))
        (λ e.
          by_value (get_funct7 w) 0 (λ x. rw (op, e, x) (λ _. refl))
            (λ x1.
              by_value (get_funct7 w) 1 (λ x. rw (op, e, x) (λ _. refl))
                (λ x2. rw (op, e, x1, x2) (λ b. cc b))))
        (λ e.
          by_value (get_funct7 w) 0 (λ x. rw (op, e, x) (λ _. refl))
            (λ x1.
              by_value (get_funct7 w) 1 (λ x. rw (op, e, x) (λ _. refl))
                (λ x2. rw (op, e, x1, x2) (λ b. cc b))))

  pub load-switch : get_opcode w ≡ 0b0000011 → SwitchAgrees handle c w a
  unfolding cases chain locals decode is_executable
  load-switch op =
      split_funct3 w (λ e. rw (op, e) (λ _. refl)) (λ e. rw (op, e) (λ _. refl))
        (λ e. rw (op, e) (λ _. refl)) (λ e. rw (op, e) (λ b. cc b)) (λ e. rw (op, e) (λ _. refl))
        (λ e. rw (op, e) (λ _. refl)) (λ e. rw (op, e) (λ b. cc b)) (λ e. rw (op, e) (λ b. cc b))

  pub store-switch : get_opcode w ≡ 0b0100011 → SwitchAgrees handle c w a
  unfolding cases chain locals decode is_executable
  store-switch op =
      split_funct3 w (λ e. rw (op, e) (λ _. refl)) (λ e. rw (op, e) (λ _. refl))
        (λ e. rw (op, e) (λ _. refl)) (λ e. rw (op, e) (λ b. cc b)) (λ e. rw (op, e) (λ b. cc b))
        (λ e. rw (op, e) (λ b. cc b)) (λ e. rw (op, e) (λ b. cc b)) (λ e. rw (op, e) (λ b. cc b))

  pub branch-switch : get_opcode w ≡ 0b1100011 → SwitchAgrees handle c w a
  unfolding cases chain locals decode is_executable
  branch-switch op =
      split_funct3 w (λ e. rw (op, e) (λ _. refl)) (λ e. rw (op, e) (λ _. refl))
        (λ e. rw (op, e) (λ b. cc b)) (λ e. rw (op, e) (λ b. cc b)) (λ e. rw (op, e) (λ _. refl))
        (λ e. rw (op, e) (λ _. refl)) (λ e. rw (op, e) (λ _. refl)) (λ e. rw (op, e) (λ _. refl))

  pub jal-switch : get_opcode w ≡ 0b1101111 → SwitchAgrees handle c w a
  unfolding cases chain locals decode is_executable
  jal-switch op = rw op (λ _. refl)

  pub lui-switch : get_opcode w ≡ 0b0110111 → SwitchAgrees handle c w a
  unfolding cases chain locals decode is_executable
  lui-switch op = rw op (λ _. refl)

  pub auipc-switch : get_opcode w ≡ 0b0010111 → SwitchAgrees handle c w a
  unfolding cases chain locals decode is_executable
  auipc-switch op = rw op (λ _. refl)

  pub jalr-switch : get_opcode w ≡ 0b1100111 → SwitchAgrees handle c w a
  unfolding cases chain locals decode is_executable
  jalr-switch op =
      by_value (get_funct3 w) 0 (λ e. rw (op, e) (λ _. refl)) (λ e. rw (op, e) (λ b. cc b))
