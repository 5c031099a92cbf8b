-- ===== src/Sbt/Leaders.antt =====
-- The leaders cover every address that the interpreter goes to, but for JALR and system calls.
use Prim.Native.Nat.{ℕ}
use mathlib.Core.Path.{◌≡◌, refl, ap, subst}
use mathlib.Core.Logic.{◌≢◌, ◌⊎◌, inl, inr}
use mathlib.Core.Bool.{Bool, true, false}
use mathlib.Core.List.{List, [], ◌∷◌, ◌++◌}
use native.Mathlib.Omega.{arith}
use riscv_sbt.Base.Word.{◌+w◌, ◌-w◌}
use riscv_sbt.Base.Outcome.{Outcome, ok, ◌>>=◌, Leaves, Leaves-bind, Leaves-of_all}
use riscv_sbt.Decoder.Instructions.{EInstruction, Instruction}
use riscv_sbt.Runtime.Memory.{Memory, write}
use riscv_sbt.Runtime.Context.{Context, set_reg, set_pc, load, store, print_unsupported}
use riscv_sbt.Interpreter.Arms.{branch, load_into, jump_relative, retire}
use riscv_sbt.Interpreter.Predecoded.{execute, run_instruction_predecoded}
use riscv_sbt.Sbt.Blocks.{IsLeader, leaders_at, instruction_leaders, get_leaders}

module _ (handle : Context → Outcome Context) (i : Instruction) (c : Context) where
  -- pc falls through, or goes to an address that the instruction contributes.
  abbrev Goes : EInstruction → Context → Type 0
  Goes t d = ((retire d).pc ≡ c.pc +w 4) ⊎ IsLeader (retire d).pc (leaders_at t c.pc i.immediate)

  back : (a b : ℕ) → (a +w (b -w 4)) +w 4 ≡ a +w b
  unfolding ◌+w◌ ◌-w◌
  back a b = omega arith

  branch-Goes :
      (taken : Bool)
      → ((retire (branch c taken i.immediate)).pc ≡ c.pc +w 4)
        ⊎ IsLeader
            (retire (branch c taken i.immediate)).pc
            ((c.pc +w i.immediate) ∷ (c.pc +w 4) ∷ [])
  unfolding branch retire set_reg set_pc
  branch-Goes true = inr (inl (back c.pc i.immediate))
  branch-Goes false = inl refl

  jal-Goes : Goes EInstruction.jal (jump_relative c i.rd i.immediate)
  unfolding jump_relative retire set_reg set_pc leaders_at
  jal-Goes = inr (inl (back c.pc i.immediate))

  load-Goes :
      (t : EInstruction) (n : ℕ) (convert : ℕ → ℕ) (p : ℕ)
      → Leaves (Goes t) (load_into n convert c i.rd p)
  unfolding load_into retire set_reg set_pc
  load-Goes t n convert p =
      Leaves-bind (λ (v : ℕ). Unit {0}) (Goes t) (load n c p) _ (Leaves-of_all _ _ (λ v. tt))
        (λ v _. inl refl)

  store-Goes : (t : EInstruction) (n p x : ℕ) → Leaves (Goes t) (store n c p x)
  unfolding store retire set_reg set_pc
  store-Goes t n p x =
      Leaves-bind (λ (m : Memory). Unit {0}) (Goes t) (write n c.memory p x) _
        (Leaves-of_all _ _ (λ m. tt)) (λ m _. inl refl)

  store-pc : (p x : ℕ) → Leaves (λ (s : Context). s.pc ≡ c.pc) (store 4 c p x)
  unfolding store
  store-pc p x =
      Leaves-bind (λ (m : Memory). Unit {0}) _ (write 4 c.memory p x) _
        (Leaves-of_all _ _ (λ m. tt)) (λ m _. refl)

  store_put-Goes :
      (t : EInstruction) (p x : ℕ) → Leaves (Goes t) (store 4 c p x >>= λ s. ok (set_reg s i.rd 0))
  unfolding retire set_reg set_pc
  store_put-Goes t p x =
      Leaves-bind (λ (s : Context). s.pc ≡ c.pc) (Goes t) (store 4 c p x) _ (store-pc p x)
        (λ s same. inl (ap (λ a. a +w 4) same))

  execute-Goes :
      (t : EInstruction)
      → t ≢ EInstruction.jalr
      → t ≢ EInstruction.ecall
      → Leaves (Goes t) (execute t handle i c)
  unfolding execute leaders_at retire set_reg set_pc print_unsupported
  execute-Goes EInstruction.add no_jalr no_ecall = inl refl
  execute-Goes EInstruction.sub no_jalr no_ecall = inl refl
  execute-Goes EInstruction.xor no_jalr no_ecall = inl refl
  execute-Goes EInstruction.or no_jalr no_ecall = inl refl
  execute-Goes EInstruction.and no_jalr no_ecall = inl refl
  execute-Goes EInstruction.sll no_jalr no_ecall = inl refl
  execute-Goes EInstruction.srl no_jalr no_ecall = inl refl
  execute-Goes EInstruction.sra no_jalr no_ecall = inl refl
  execute-Goes EInstruction.slt no_jalr no_ecall = inl refl
  execute-Goes EInstruction.sltu no_jalr no_ecall = inl refl
  execute-Goes EInstruction.addi no_jalr no_ecall = inl refl
  execute-Goes EInstruction.xori no_jalr no_ecall = inl refl
  execute-Goes EInstruction.ori no_jalr no_ecall = inl refl
  execute-Goes EInstruction.andi no_jalr no_ecall = inl refl
  execute-Goes EInstruction.slli no_jalr no_ecall = inl refl
  execute-Goes EInstruction.srli no_jalr no_ecall = inl refl
  execute-Goes EInstruction.srai no_jalr no_ecall = inl refl
  execute-Goes EInstruction.slti no_jalr no_ecall = inl refl
  execute-Goes EInstruction.sltiu no_jalr no_ecall = inl refl
  execute-Goes EInstruction.lb no_jalr no_ecall = load-Goes EInstruction.lb _ _ _
  execute-Goes EInstruction.lh no_jalr no_ecall = load-Goes EInstruction.lh _ _ _
  execute-Goes EInstruction.lw no_jalr no_ecall = load-Goes EInstruction.lw _ _ _
  execute-Goes EInstruction.lbu no_jalr no_ecall = load-Goes EInstruction.lbu _ _ _
  execute-Goes EInstruction.lhu no_jalr no_ecall = load-Goes EInstruction.lhu _ _ _
  execute-Goes EInstruction.sb no_jalr no_ecall = store-Goes EInstruction.sb _ _ _
  execute-Goes EInstruction.sh no_jalr no_ecall = store-Goes EInstruction.sh _ _ _
  execute-Goes EInstruction.sw no_jalr no_ecall = store-Goes EInstruction.sw _ _ _
  execute-Goes EInstruction.beq no_jalr no_ecall = branch-Goes _
  execute-Goes EInstruction.bne no_jalr no_ecall = branch-Goes _
  execute-Goes EInstruction.blt no_jalr no_ecall = branch-Goes _
  execute-Goes EInstruction.bge no_jalr no_ecall = branch-Goes _
  execute-Goes EInstruction.bltu no_jalr no_ecall = branch-Goes _
  execute-Goes EInstruction.bgeu no_jalr no_ecall = branch-Goes _
  execute-Goes EInstruction.jal no_jalr no_ecall = jal-Goes
  execute-Goes EInstruction.jalr no_jalr no_ecall = absurd (no_jalr refl)
  execute-Goes EInstruction.lui no_jalr no_ecall = inl refl
  execute-Goes EInstruction.auipc no_jalr no_ecall = inl refl
  execute-Goes EInstruction.ecall no_jalr no_ecall = absurd (no_ecall refl)
  execute-Goes EInstruction.ebreak no_jalr no_ecall = inl refl
  execute-Goes EInstruction.fence no_jalr no_ecall = inl refl
  execute-Goes EInstruction.mul no_jalr no_ecall = inl refl
  execute-Goes EInstruction.mulh no_jalr no_ecall = inl refl
  execute-Goes EInstruction.mulhsu no_jalr no_ecall = inl refl
  execute-Goes EInstruction.mulhu no_jalr no_ecall = inl refl
  execute-Goes EInstruction.div no_jalr no_ecall = inl refl
  execute-Goes EInstruction.divu no_jalr no_ecall = inl refl
  execute-Goes EInstruction.rem no_jalr no_ecall = inl refl
  execute-Goes EInstruction.remu no_jalr no_ecall = inl refl
  execute-Goes EInstruction.lr_w no_jalr no_ecall = load-Goes EInstruction.lr_w _ _ _
  execute-Goes EInstruction.sc_w no_jalr no_ecall = store_put-Goes EInstruction.sc_w _ _
  execute-Goes EInstruction.invalid no_jalr no_ecall = inl refl

abbrev pub IsElement : Instruction → List Instruction → Type 0
IsElement i [] = ⊥
IsElement i (j ∷ rest) = (i ≡ j) ⊎ IsElement i rest

in_left : (x : ℕ) (xs ys : List ℕ) → IsLeader x xs → IsLeader x (xs ++ ys)
in_left x [] ys h = elim h [ ]
in_left x (y ∷ xs) ys (inl e) = inl e
in_left x (y ∷ xs) ys (inr h) = inr (in_left x xs ys h)

in_right : (x : ℕ) (xs ys : List ℕ) → IsLeader x ys → IsLeader x (xs ++ ys)
in_right x [] ys h = h
in_right x (y ∷ xs) ys h = inr (in_right x xs ys h)

at_instruction :
    (x : ℕ) (i : Instruction) (is : List Instruction)
    → IsElement i is
    → IsLeader x (leaders_at i.type i.address i.immediate)
    → IsLeader x (instruction_leaders is)
unfolding instruction_leaders
at_instruction x i [] h l = elim h [ ]
at_instruction x i (j ∷ is) (inl e) l =
    in_left x (leaders_at j.type j.address j.immediate) (instruction_leaders is)
      (subst (λ k. IsLeader x (leaders_at k.type k.address k.immediate)) e l)
at_instruction x i (j ∷ is) (inr h) l =
    in_right x (leaders_at j.type j.address j.immediate) (instruction_leaders is)
      (at_instruction x i is h l)

IsLeader-of :
    (x : ℕ) (i : Instruction) (is : List Instruction) (profiled : Bool)
    (targets : List (ℕ × List (ℕ × ℕ)))
    → IsElement i is
    → IsLeader x (leaders_at i.type i.address i.immediate)
    → IsLeader x (get_leaders is profiled targets)
unfolding get_leaders
IsLeader-of x i [] profiled targets h l = elim h [ ]
IsLeader-of x i (j ∷ is) profiled targets h l =
    inr (in_left x (instruction_leaders (j ∷ is)) _ (at_instruction x i (j ∷ is) h l))

-- Where the interpreter stands at an instruction of the text that is neither JALR nor ECALL, the
-- next pc falls through to the following address or is a leader, with or without a profile.
pub next_pc-IsLeader :
    (handle : Context → Outcome Context) (c : Context) (i : Instruction) (is : List Instruction)
    (profiled : Bool) (targets : List (ℕ × List (ℕ × ℕ)))
    → IsElement i is
    → c.pc ≡ i.address
    → i.type ≢ EInstruction.jalr
    → i.type ≢ EInstruction.ecall
    → Leaves
        (λ d. (d.pc ≡ i.address +w 4) ⊎ IsLeader d.pc (get_leaders is profiled targets))
        (run_instruction_predecoded handle c i)
unfolding run_instruction_predecoded
next_pc-IsLeader handle c i is profiled targets h here no_jalr no_ecall =
    Leaves-bind (Goes handle i c i.type) _ (execute i.type handle i c) _
      (execute-Goes handle i c i.type no_jalr no_ecall)
      λ d goes. elim goes [
        | inl falls ↦ inl (subst (λ a. (retire d).pc ≡ a +w 4) here falls)
        | inr jumps ↦ inr (
            IsLeader-of (retire d).pc i is profiled targets h
              (subst (λ a. IsLeader (retire d).pc (leaders_at i.type a i.immediate)) here jumps))
      ]

-- The address after each JAL or JALR of the text, where a call returns to, is a leader.
pub return_point-IsLeader :
    (i : Instruction) (is : List Instruction) (profiled : Bool) (targets : List (ℕ × List (ℕ × ℕ)))
    → IsElement i is
    → (i.type ≡ EInstruction.jal) ⊎ (i.type ≡ EInstruction.jalr)
    → IsLeader (i.address +w 4) (get_leaders is profiled targets)
return_point-IsLeader i is profiled targets h link =
    IsLeader-of (i.address +w 4) i is profiled targets h (
      unfold leaders_at in
      elim link [ inl jal ↦ rw jal (inr (inl refl)) | inr jalr ↦ rw jalr (inl refl) ])
