-- ===== src/Decoder/Registers.antt =====
-- The register-use tables of lib/decoding/Instructions.h, which `LOG_REG` looks up by type or by
-- opcode.
use Prim.Native.Nat.{ℕ, bit_and, bit_or}
use mathlib.Core.List.{List, [], ◌∷◌}
use mathlib.Core.Path.{◌≡◌, refl, subst}
use mathlib.Core.Bool.{Bool, true, ◌&&◌, and-eq-true_iff}
use mathlib.Core.Option.{some, some-injective}
use riscv_sbt.Base.{zero, suc, ◌==◌, ==→eq, if◌then◌else◌, get_elem?}
use riscv_sbt.Decoder.Instructions.{EInstruction, EInstructionFmt, InstructionSpec}
use riscv_sbt.Decoder.Table.{spec_lists}

abbrev use_none : ℕ
use_none = 0

abbrev use_rs1 : ℕ
use_rs1 = 1

abbrev use_rs2 : ℕ
use_rs2 = 2

abbrev use_rd : ℕ
use_rd = 4

unfoldable pub format_register_use : EInstructionFmt → ℕ
format_register_use EInstructionFmt.r = bit_or (bit_or use_rs1 use_rs2) use_rd
format_register_use EInstructionFmt.i = bit_or use_rs1 use_rd
format_register_use EInstructionFmt.s = bit_or use_rs1 use_rs2
format_register_use EInstructionFmt.b = bit_or use_rs1 use_rs2
format_register_use EInstructionFmt.j = use_rd
format_register_use EInstructionFmt.u = use_rd

-- the position of a type in the enumeration
index : EInstruction → ℕ
index EInstruction.add = 0
index EInstruction.sub = 1
index EInstruction.xor = 2
index EInstruction.or = 3
index EInstruction.and = 4
index EInstruction.sll = 5
index EInstruction.srl = 6
index EInstruction.sra = 7
index EInstruction.slt = 8
index EInstruction.sltu = 9
index EInstruction.addi = 10
index EInstruction.xori = 11
index EInstruction.ori = 12
index EInstruction.andi = 13
index EInstruction.slli = 14
index EInstruction.srli = 15
index EInstruction.srai = 16
index EInstruction.slti = 17
index EInstruction.sltiu = 18
index EInstruction.lb = 19
index EInstruction.lh = 20
index EInstruction.lw = 21
index EInstruction.lbu = 22
index EInstruction.lhu = 23
index EInstruction.sb = 24
index EInstruction.sh = 25
index EInstruction.sw = 26
index EInstruction.beq = 27
index EInstruction.bne = 28
index EInstruction.blt = 29
index EInstruction.bge = 30
index EInstruction.bltu = 31
index EInstruction.bgeu = 32
index EInstruction.jal = 33
index EInstruction.jalr = 34
index EInstruction.lui = 35
index EInstruction.auipc = 36
index EInstruction.ecall = 37
index EInstruction.ebreak = 38
index EInstruction.fence = 39
index EInstruction.mul = 40
index EInstruction.mulh = 41
index EInstruction.mulhsu = 42
index EInstruction.mulhu = 43
index EInstruction.div = 44
index EInstruction.divu = 45
index EInstruction.rem = 46
index EInstruction.remu = 47
index EInstruction.lr_w = 48
index EInstruction.sc_w = 49
index EInstruction.invalid = 50

-- what the last row of the list that `key` sends to `slot` stores there, and 0 if none does
last_use : (InstructionSpec → ℕ) → List InstructionSpec → ℕ → ℕ → ℕ
last_use key [] slot stored = stored
last_use key (s ∷ specs) slot stored =
    last_use key specs slot (if key s == slot then format_register_use s.format else stored)

unfoldable pub register_use : EInstruction → ℕ
unfolding last_use index format_register_use spec_lists
register_use t =
    let slot = index t in
    if slot == index EInstruction.ecall
    then use_none
    else if slot == index EInstruction.ebreak
    then use_none
    else last_use (λ s. index s.type) spec_lists slot use_none

unfoldable pub opcode_register_use : ℕ → ℕ
unfolding last_use format_register_use spec_lists
opcode_register_use opcode =
    let slot = bit_and opcode 0x7f in
    if slot == 0b1110011 then use_none else last_use (λ s. s.opcode) spec_lists slot use_none

same_use : List InstructionSpec → Bool
same_use [] = true
same_use (s ∷ specs) = register_use s.type == opcode_register_use s.opcode && same_use specs

tables_agree : same_use spec_lists ≡ true
unfolding same_use register_use opcode_register_use
tables_agree = refl

same_use-elem :
    (specs : List InstructionSpec) (n : ℕ) (s : InstructionSpec)
    → same_use specs ≡ true
    → get_elem? specs n ≡ some s
    → register_use s.type ≡ opcode_register_use s.opcode
unfolding same_use
same_use-elem [] n s h e = cc
same_use-elem (t ∷ specs) zero s h e =
    subst (λ x. register_use x.type ≡ opcode_register_use x.opcode) (some-injective _ _ e)
      (==→eq _ _ ((and-eq-true_iff _ _).0 h).0)
same_use-elem (t ∷ specs) (suc n) s h e = same_use-elem specs n s ((and-eq-true_iff _ _).0 h).1 e

-- Profiling by type and profiling by opcode count the same registers for every row of the tables.
pub register_use-opcode :
    (n : ℕ) (s : InstructionSpec)
    → get_elem? spec_lists n ≡ some s
    → register_use s.type ≡ opcode_register_use s.opcode
register_use-opcode n s e = same_use-elem spec_lists n s tables_agree e
