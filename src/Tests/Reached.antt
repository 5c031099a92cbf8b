-- ===== src/Tests/Reached.antt =====
-- What holds at the states that the program of `Running` goes through.
use mathlib.Core.Path.{◌≡◌, refl, sym, subst, ◌∙◌}
use mathlib.Core.Logic.{◌≢◌}
use native.Mathlib.Omega.{arith}
use riscv_sbt.Runtime.Context.{load}
use riscv_sbt.Runtime.Memory.{read, load_bytes}
use riscv_sbt.Decoder.Decode.{decode}
use riscv_sbt.Decoder.Fields.{get_opcode, get_funct3, get_rs1, get_rs2, get_rd, i_fmt_imm}
use riscv_sbt.Interpreter.Agree.SwitchOps.{is_executable}
use riscv_sbt.Sbt.Simulate.Fallback.{IsFetched, FetchedFrom}
use riscv_sbt.Base.Word.{IsU32, ◌+w◌, ◌-w◌, sar32}
use riscv_sbt.Base.Outcome.{ok, fault}
use riscv_sbt.Decoder.Instructions.{Instruction}
use riscv_sbt.Runtime.Context.{Context, set_reg, set_pc}
use riscv_sbt.Interpreter.Arms.{jump_register, retire}
use riscv_sbt.Interpreter.Predecoded.{execute}
use riscv_sbt.Interpreter.Threaded.{slot}
use riscv_sbt.Sbt.Simulate.Instructions.{IsTranslated}
use riscv_sbt.Sbt.Simulate.Runs.{Located, TranslatedFrom}
use riscv_sbt.Tests.Emitting.{answer}
use riscv_sbt.Tests.Running.{
  addi_at_0, addi_at_8, addi_word, fourth, jalr_at_4, jalr_word, last_word, reached, second, slot_0,
  slot_12, slot_4, slot_8, start, text, third,
}

abbrev Fits : Context → Type 0
Fits d =
    (i : Instruction)
    → slot text 0 d.pc ≡ ok i
    → (i.address ≡ d.pc)
      × IsU32 i.immediate
      × IsTranslated i.type d i
      × (execute i.type answer i d ≢ fault)

abbrev Fetched : Context → Type 0
Fetched d = (i : Instruction) → slot text 0 d.pc ≡ ok i → IsFetched d i

start-Fits : Fits start
unfolding execute
start-Fits i at =
    let e : ok addi_at_0 ≡ ok i = sym slot_0 ∙ at in
    let is : addi_at_0 ≡ i = cc in
    subst
      (λ k.
        (k.address ≡ 0)
        × IsU32 k.immediate
        × IsTranslated k.type start k
        × (execute k.type answer k start ≢ fault))
      is (refl, omega arith, tt, λ e. cc)

base_apart : jalr_at_4.rs1 ≢ jalr_at_4.rd
base_apart e = omega arith

second-Fits : Fits second
unfolding execute jump_register retire set_reg set_pc ◌+w◌
second-Fits i at =
    let e : ok jalr_at_4 ≡ ok i = sym slot_4 ∙ at in
    let is : jalr_at_4 ≡ i = cc in
    subst
      (λ k.
        (k.address ≡ 4)
        × IsU32 k.immediate
        × IsTranslated k.type second k
        × (execute k.type answer k second ≢ fault))
      is (refl, omega arith, base_apart, λ e. cc)

third-Fits : Fits third
unfolding execute jump_register retire set_reg set_pc ◌+w◌ ◌-w◌
third-Fits i at =
    let e : ok addi_at_8 ≡ ok i = sym slot_8 ∙ at in
    let is : addi_at_8 ≡ i = cc in
    subst
      (λ k.
        (k.address ≡ 8)
        × IsU32 k.immediate
        × IsTranslated k.type third k
        × (execute k.type answer k third ≢ fault))
      is (refl, omega arith, tt, λ e. cc)

fourth-Fits : Fits fourth
unfolding jump_register retire set_reg set_pc ◌+w◌ ◌-w◌
fourth-Fits i at = let e : fault ≡ ok i = sym slot_12 ∙ at in absurd cc

pub start-TranslatedFrom : TranslatedFrom answer 0 text start
start-TranslatedFrom = reached Fits start-Fits second-Fits third-Fits fourth-Fits

decode_0 : decode addi_word 0 ≡ addi_at_0
unfolding decode get_opcode get_funct3 i_fmt_imm get_rs1 get_rs2 get_rd sar32
decode_0 = refl

decode_4 : decode jalr_word 4 ≡ jalr_at_4
unfolding decode get_opcode get_funct3 i_fmt_imm get_rs1 get_rs2 get_rd sar32
decode_4 = refl

decode_8 : decode last_word 8 ≡ addi_at_8
unfolding decode get_opcode get_funct3 i_fmt_imm get_rs1 get_rs2 get_rd sar32
decode_8 = refl

start-Fetched : Fetched start
unfolding load is_executable read load_bytes get_funct3
start-Fetched i at =
    let e : ok addi_at_0 ≡ ok i = sym slot_0 ∙ at in
    let is : addi_at_0 ≡ i = cc in
    subst (IsFetched start) is (addi_word, refl, decode_0, refl, λ op. refl)

second-Fetched : Fetched second
unfolding retire set_reg set_pc ◌+w◌ load is_executable read load_bytes get_funct3
second-Fetched i at =
    let e : ok jalr_at_4 ≡ ok i = sym slot_4 ∙ at in
    let is : jalr_at_4 ≡ i = cc in
    subst (IsFetched second) is (jalr_word, refl, decode_4, refl, λ op. refl)

third-Fetched : Fetched third
unfolding jump_register retire set_reg set_pc ◌+w◌ ◌-w◌ load is_executable read load_bytes
    get_funct3
third-Fetched i at =
    let e : ok addi_at_8 ≡ ok i = sym slot_8 ∙ at in
    let is : addi_at_8 ≡ i = cc in
    subst (IsFetched third) is (last_word, refl, decode_8, refl, λ op. refl)

fourth-Fetched : Fetched fourth
unfolding jump_register retire set_reg set_pc ◌+w◌ ◌-w◌
fourth-Fetched i at = let e : fault ≡ ok i = sym slot_12 ∙ at in absurd cc

pub start-FetchedFrom : FetchedFrom answer 0 text start
start-FetchedFrom = reached Fetched start-Fetched second-Fetched third-Fetched fourth-Fetched

pub text-Located : Located text 0 text 0
unfolding ◌+w◌
text-Located = (refl, slot_0, (refl, slot_4, (refl, slot_8, tt)))
