-- ===== src/Interpreter/Valid.antt =====
-- The invariant of the guest's state, kept by every instruction.
use Prim.Native.Nat.{ℕ, ◌+◌, ◌^◌, ◌<◌}
use mathlib.Core.Path.{◌≡◌, refl}
use native.Mathlib.Omega.{arith}
use riscv_sbt.Base.{Bool, true, false, Bool-cases, inl, inr, leb, if◌then◌else◌}
use riscv_sbt.Base.Bits.{and-lt, or-lt, xor-lt}
use riscv_sbt.Base.Word.{IsU32, sext8, sext16}
use riscv_sbt.Base.Outcome.{Outcome, ok, fault, Leaves, Leaves-bind}
use riscv_sbt.Decoder.Instructions.{EInstruction, Instruction}
use riscv_sbt.Runtime.Memory.{read, write, data_size, mmap_size, load_bytes}
use riscv_sbt.Runtime.Context.{Context, set_reg, set_pc, load, store, print_unsupported}
use riscv_sbt.Runtime.MemoryLaws.{IsBytes, load_bytes-lt, store_bytes-IsBytes}
use riscv_sbt.Interpreter.Arms.{branch, load_into, jump_relative, jump_register, retire}
use riscv_sbt.Interpreter.Predecoded.{execute, run_instruction_predecoded}
use riscv_sbt.Interpreter.Bounds.{
  +w-lt, -w-lt, shl32-lt, shr-lt, sar32-lt, of_bool-lt, sext8-lt, sext16-lt, mul_word-lt,
  mulh_word-lt, mulhsu_word-lt, mulhu_word-lt, div_word-lt, divu_word-lt, rem_word-lt, remu_word-lt,
}

-- Registers, pc and the heap's end hold 32-bit words and the memory holds bytes.
pub record FitsWords (c : Context) : Type 0 where
  pub regs : (r : ℕ) → IsU32 (c.reg r)
  pub pc : IsU32 c.pc
  pub bytes : IsBytes c.memory.bytes
  pub heap_end : IsU32 c.memory.heap_end

-- Between instructions x0 reads as zero, too.
pub record IsValid (c : Context) : Type 0 where
  pub words : FitsWords c
  pub zero_reg : c.reg 0 ≡ 0

module _ {c : Context} (v : FitsWords c) where
  pub set_reg-FitsWords : (rd x : ℕ) → IsU32 x → FitsWords (set_reg c rd x)
  unfolding set_reg
  set_reg-FitsWords rd x h = record {
    regs = λ r. ground (arith, v.regs r);
    pc = v.pc;
    bytes = v.bytes;
    heap_end = v.heap_end;
  }

  pub set_pc-FitsWords : (x : ℕ) → IsU32 x → FitsWords (set_pc c x)
  unfolding set_pc
  set_pc-FitsWords x h = record { regs = v.regs; pc = h; bytes = v.bytes; heap_end = v.heap_end }

  pub load-lt : (n p : ℕ) → Leaves (λ x. x < 256 ^ n) (load n c p)
  unfolding load read
  load-lt n p =
      elim (leb (p + n) (data_size + mmap_size))
        as (λ b.
          Leaves (λ x. x < 256 ^ n) (if b then ok (load_bytes c.memory.bytes p n) else fault)) [
            | true ↦ load_bytes-lt c.memory.bytes p n v.bytes
            | false ↦ tt
          ]

  pub store-FitsWords : (n p x : ℕ) → Leaves FitsWords (store n c p x)
  unfolding store write
  store-FitsWords n p x = elim (Bool-cases (leb (p + n) (data_size + mmap_size))) [
    | inl e ↦ rw e (record {
      regs = v.regs;
      pc = v.pc;
      bytes = store_bytes-IsBytes c.memory.bytes p n x v.bytes;
      heap_end = v.heap_end;
    })
    | inr e ↦ rw e tt
  ]

  pub print-FitsWords : FitsWords (print_unsupported c)
  unfolding print_unsupported
  print-FitsWords = record { regs = v.regs; pc = v.pc; bytes = v.bytes; heap_end = v.heap_end }

  pub branch-FitsWords : (taken : Bool) (imm : ℕ) → FitsWords (branch c taken imm)
  unfolding branch
  branch-FitsWords true imm = set_pc-FitsWords _ (+w-lt _ _)
  branch-FitsWords false imm = v

  pub load_into-FitsWords :
      (n : ℕ) (convert : ℕ → ℕ) (rd p : ℕ)
      → ((x : ℕ) → x < 256 ^ n → IsU32 (convert x))
      → Leaves FitsWords (load_into n convert c rd p)
  unfolding load_into
  load_into-FitsWords n convert rd p fit =
      Leaves-bind (λ x. x < 256 ^ n) FitsWords (load n c p) _ (load-lt n p)
        λ x h. set_reg-FitsWords rd (convert x) (fit x h)

module _ {c : Context} (v : FitsWords c) where
  pub jump_relative-FitsWords : (rd imm : ℕ) → FitsWords (jump_relative c rd imm)
  unfolding jump_relative
  jump_relative-FitsWords rd imm =
      set_pc-FitsWords (set_reg-FitsWords v rd _ (+w-lt _ _)) _ (+w-lt _ _)

  pub jump_register-FitsWords : (rd rs1 imm : ℕ) → FitsWords (jump_register c rd rs1 imm)
  unfolding jump_register
  jump_register-FitsWords rd rs1 imm =
      set_pc-FitsWords (set_reg-FitsWords v rd _ (+w-lt _ _)) _ (-w-lt _ _)

  pub retire-IsValid : IsValid (retire c)
  unfolding retire
  retire-IsValid = record {
    words = set_reg-FitsWords (set_pc-FitsWords v _ (+w-lt _ _)) 0 0 (omega arith);
    zero_reg = unfold set_reg in refl;
  }

module _ (handle : Context → Outcome Context)
    (handle-FitsWords : (c : Context) → FitsWords c → Leaves FitsWords (handle c)) where
  -- Each arm keeps the widths.
  pub execute-FitsWords :
      (t : EInstruction) (i : Instruction) (c : Context)
      → IsU32 i.immediate
      → FitsWords c
      → Leaves FitsWords (execute t handle i c)
  unfolding execute
  execute-FitsWords EInstruction.add i c imm v = set_reg-FitsWords v i.rd _ (+w-lt _ _)
  execute-FitsWords EInstruction.sub i c imm v = set_reg-FitsWords v i.rd _ (-w-lt _ _)
  execute-FitsWords EInstruction.xor i c imm v =
      set_reg-FitsWords v i.rd _ (xor-lt 32 _ _ (v.regs i.rs1) (v.regs i.rs2))
  execute-FitsWords EInstruction.or i c imm v =
      set_reg-FitsWords v i.rd _ (or-lt 32 _ _ (v.regs i.rs1) (v.regs i.rs2))
  execute-FitsWords EInstruction.and i c imm v =
      set_reg-FitsWords v i.rd _ (and-lt 32 _ _ (v.regs i.rs1))
  execute-FitsWords EInstruction.sll i c imm v = set_reg-FitsWords v i.rd _ (shl32-lt _ _)
  execute-FitsWords EInstruction.srl i c imm v =
      set_reg-FitsWords v i.rd _ (shr-lt _ _ (v.regs i.rs1))
  execute-FitsWords EInstruction.sra i c imm v =
      set_reg-FitsWords v i.rd _ (sar32-lt _ _ (v.regs i.rs1))
  execute-FitsWords EInstruction.slt i c imm v = set_reg-FitsWords v i.rd _ (of_bool-lt _)
  execute-FitsWords EInstruction.sltu i c imm v = set_reg-FitsWords v i.rd _ (of_bool-lt _)
  execute-FitsWords EInstruction.addi i c imm v = set_reg-FitsWords v i.rd _ (+w-lt _ _)
  execute-FitsWords EInstruction.xori i c imm v =
      set_reg-FitsWords v i.rd _ (xor-lt 32 _ _ (v.regs i.rs1) imm)
  execute-FitsWords EInstruction.ori i c imm v =
      set_reg-FitsWords v i.rd _ (or-lt 32 _ _ (v.regs i.rs1) imm)
  execute-FitsWords EInstruction.andi i c imm v =
      set_reg-FitsWords v i.rd _ (and-lt 32 _ _ (v.regs i.rs1))
  execute-FitsWords EInstruction.slli i c imm v = set_reg-FitsWords v i.rd _ (shl32-lt _ _)
  execute-FitsWords EInstruction.srli i c imm v =
      set_reg-FitsWords v i.rd _ (shr-lt _ _ (v.regs i.rs1))
  execute-FitsWords EInstruction.srai i c imm v =
      set_reg-FitsWords v i.rd _ (sar32-lt _ _ (v.regs i.rs1))
  execute-FitsWords EInstruction.slti i c imm v = set_reg-FitsWords v i.rd _ (of_bool-lt _)
  execute-FitsWords EInstruction.sltiu i c imm v = set_reg-FitsWords v i.rd _ (of_bool-lt _)
  execute-FitsWords EInstruction.lb i c imm v =
      load_into-FitsWords v 1 sext8 i.rd _ (λ x h. sext8-lt x h)
  execute-FitsWords EInstruction.lh i c imm v =
      load_into-FitsWords v 2 sext16 i.rd _ (λ x h. sext16-lt x h)
  execute-FitsWords EInstruction.lw i c imm v =
      load_into-FitsWords v 4 (λ x. x) i.rd _ (λ x h. omega arith)
  execute-FitsWords EInstruction.lbu i c imm v =
      load_into-FitsWords v 1 (λ x. x) i.rd _ (λ x h. omega arith)
  execute-FitsWords EInstruction.lhu i c imm v =
      load_into-FitsWords v 2 (λ x. x) i.rd _ (λ x h. omega arith)
  execute-FitsWords EInstruction.sb i c imm v = store-FitsWords v 1 _ _
  execute-FitsWords EInstruction.sh i c imm v = store-FitsWords v 2 _ _
  execute-FitsWords EInstruction.sw i c imm v = store-FitsWords v 4 _ _
  execute-FitsWords EInstruction.beq i c imm v = branch-FitsWords v _ _
  execute-FitsWords EInstruction.bne i c imm v = branch-FitsWords v _ _
  execute-FitsWords EInstruction.blt i c imm v = branch-FitsWords v _ _
  execute-FitsWords EInstruction.bge i c imm v = branch-FitsWords v _ _
  execute-FitsWords EInstruction.bltu i c imm v = branch-FitsWords v _ _
  execute-FitsWords EInstruction.bgeu i c imm v = branch-FitsWords v _ _
  execute-FitsWords EInstruction.jal i c imm v = jump_relative-FitsWords v i.rd _
  execute-FitsWords EInstruction.jalr i c imm v = jump_register-FitsWords v i.rd i.rs1 _
  execute-FitsWords EInstruction.lui i c imm v = set_reg-FitsWords v i.rd _ (shl32-lt _ _)
  execute-FitsWords EInstruction.auipc i c imm v = set_reg-FitsWords v i.rd _ (+w-lt _ _)
  execute-FitsWords EInstruction.ecall i c imm v = handle-FitsWords c v
  execute-FitsWords EInstruction.ebreak i c imm v = print-FitsWords v
  execute-FitsWords EInstruction.fence i c imm v = print-FitsWords v
  execute-FitsWords EInstruction.mul i c imm v = set_reg-FitsWords v i.rd _ (mul_word-lt _ _)
  execute-FitsWords EInstruction.mulh i c imm v = set_reg-FitsWords v i.rd _ (mulh_word-lt _ _)
  execute-FitsWords EInstruction.mulhsu i c imm v = set_reg-FitsWords v i.rd _ (mulhsu_word-lt _ _)
  execute-FitsWords EInstruction.mulhu i c imm v = set_reg-FitsWords v i.rd _ (mulhu_word-lt _ _)
  execute-FitsWords EInstruction.div i c imm v =
      set_reg-FitsWords v i.rd _ (div_word-lt _ _ (v.regs i.rs1))
  execute-FitsWords EInstruction.divu i c imm v =
      set_reg-FitsWords v i.rd _ (divu_word-lt _ _ (v.regs i.rs1))
  execute-FitsWords EInstruction.rem i c imm v =
      set_reg-FitsWords v i.rd _ (rem_word-lt _ _ (v.regs i.rs1))
  execute-FitsWords EInstruction.remu i c imm v =
      set_reg-FitsWords v i.rd _ (remu_word-lt _ _ (v.regs i.rs1))
  execute-FitsWords EInstruction.lr_w i c imm v =
      load_into-FitsWords v 4 (λ x. x) i.rd _ (λ x h. omega arith)
  execute-FitsWords EInstruction.sc_w i c imm v =
      Leaves-bind FitsWords FitsWords (store 4 c (c.reg i.rs1) (c.reg i.rs2)) _
        (store-FitsWords v 4 _ _) λ s f. set_reg-FitsWords f i.rd 0 (omega arith)
  execute-FitsWords EInstruction.invalid i c imm v = print-FitsWords v

  -- From a state in which registers and pc are 32-bit words and the memory holds bytes, every
  -- instruction whose immediate is a 32-bit word, of any type, leaves such a state with x0 zero
  -- again, if the system calls keep the widths.
  pub run_instruction_predecoded-IsValid :
      (c : Context) (i : Instruction)
      → IsU32 i.immediate
      → FitsWords c
      → Leaves IsValid (run_instruction_predecoded handle c i)
  unfolding run_instruction_predecoded
  run_instruction_predecoded-IsValid c i imm v =
      Leaves-bind FitsWords IsValid (execute i.type handle i c) _
        (execute-FitsWords i.type i c imm v) λ d f. retire-IsValid f
