-- ===== src/Sbt/Simulate/Copies.antt =====
-- `emitRegisterStore` and `emitRegisterLoad`: the pinned registers are copied to the context and back.
use Prim.Native.Nat.{ℕ}
use mathlib.Core.Path.{◌≡◌, refl, ap, ◌∙◌}
use mathlib.Core.Logic.{inl, inr}
use mathlib.Core.List.{List, [], ◌∷◌, ◌++◌, map}
use native.Mathlib.Omega.{arith}
use riscv_sbt.Base.{◌==◌, Bool-cases, if◌then◌else◌}
use riscv_sbt.Base.Outcome.{Outcome, ok}
use riscv_sbt.Runtime.Context.{Context}
use riscv_sbt.Sbt.Emit.Syntax.{Stmt, copy_out, copy_in}
use riscv_sbt.Sbt.Emit.Emitter.{
  TranslationOptions, contains, has_host_register, register_map, emit_register_store,
  emit_register_load,
}
use riscv_sbt.Sbt.Emit.Machine.{Machine, onward, exec_stmt, exec}
use riscv_sbt.Sbt.Simulate.Represents.{Represents}

module _ (handle : Context → Outcome Context) (handle_number : ℕ → Context → Outcome Context)
    (start : ℕ) where
  -- the machine after `ctx.reg[r] = xr` for each of the registers
  record Stores (rs : List ℕ) (m : Machine) : Type 0 where
    pub machine : Machine
    pub runs :
        (rest : List Stmt)
        → exec handle handle_number start (map copy_out rs ++ rest) m
          ≡ exec handle handle_number start rest machine
    pub reg : (j : ℕ) → machine.ctx.reg j ≡ (if contains j rs then m.pins j else m.ctx.reg j)
    pub pins : machine.pins ≡ m.pins
    pub memory : machine.ctx.memory ≡ m.ctx.memory
    pub unsupported : machine.ctx.unsupported ≡ m.ctx.unsupported
    pub pc : machine.ctx.pc ≡ m.ctx.pc

  copy_out-Stores : (rs : List ℕ) (m : Machine) → Stores rs m
  unfolding exec exec_stmt contains
  copy_out-Stores [] m = record {
    machine = m;
    runs = λ rest. refl;
    reg = λ j. refl;
    pins = refl;
    memory = refl;
    unsupported = refl;
    pc = refl;
  }
  copy_out-Stores (r ∷ rs) m =
      let later =
        copy_out-Stores rs (record m {
          ctx = record m.ctx { reg = λ j. if j == r then m.pins r else m.ctx.reg j };
        }) in
      record {
        machine = later.machine;
        runs = later.runs;
        reg = λ j. ground (arith, later.reg j);
        pins = later.pins;
        memory = later.memory;
        unsupported = later.unsupported;
        pc = later.pc;
      }

  -- the machine after `xr = ctx.reg[r]`
  record Loads (rs : List ℕ) (m : Machine) : Type 0 where
    pub machine : Machine
    pub runs : exec handle handle_number start (map copy_in rs) m ≡ ok (machine, onward)
    pub pins : (j : ℕ) → machine.pins j ≡ (if contains j rs then m.ctx.reg j else m.pins j)
    pub ctx : machine.ctx ≡ m.ctx

  copy_in-Loads : (rs : List ℕ) (m : Machine) → Loads rs m
  unfolding exec exec_stmt contains
  copy_in-Loads [] m = record { machine = m; runs = refl; pins = λ j. refl; ctx = refl }
  copy_in-Loads (r ∷ rs) m =
      let later =
        copy_in-Loads rs (record m { pins = λ j. if j == r then m.ctx.reg r else m.pins j }) in
      record {
        machine = later.machine;
        runs = later.runs;
        pins = λ j. ground (arith, later.pins j);
        ctx = later.ctx;
      }

  module _ (options : TranslationOptions) where
    -- After `emitRegisterStore` the context is the guest's, but for pc.
    pub record IsStored (c : Context) (m : Machine) : Type 0 where
      pub machine : Machine
      pub runs :
          (rest : List Stmt)
          → exec handle handle_number start (emit_register_store options ++ rest) m
            ≡ exec handle handle_number start rest machine
      pub ctx : machine.ctx ≡ record c { pc = machine.ctx.pc }
      pub pc : machine.ctx.pc ≡ m.ctx.pc

    pub emit_register_store-IsStored :
        (c : Context) (m : Machine) → Represents options c m → IsStored c m
    unfolding emit_register_store has_host_register
    emit_register_store-IsStored c m rep =
        let s = copy_out-Stores register_map m in
        elim (Bool-cases options.pin_registers) [
          | inl pin ↦ rw pin record {
            machine = s.machine;
            runs = s.runs;
            ctx =
                let same : (j : ℕ) → s.machine.ctx.reg j ≡ c.reg j = λ j.
                  s.reg j
                  ∙ (let h : (if contains j register_map then m.pins j else m.ctx.reg j) ≡ c.reg j =
                        rw pin at (rep.regs j) in
                      h) in
                λ x. record {
                  reg = λ j. same j x;
                  pc = s.machine.ctx.pc;
                  memory = (s.memory ∙ rep.memory) x;
                  unsupported = (s.unsupported ∙ rep.unsupported) x;
                };
            pc = s.pc;
          }
          | inr free ↦ rw free record {
            machine = m;
            runs = λ rest. refl;
            ctx =
                let same : (j : ℕ) → m.ctx.reg j ≡ c.reg j = λ j. rw free at (rep.regs j) in
                λ x. record {
                  reg = λ j. same j x;
                  pc = m.ctx.pc;
                  memory = rep.memory x;
                  unsupported = rep.unsupported x;
                };
            pc = refl;
          }
        ]

    -- After `emitRegisterLoad` the machine stands for its context.
    pub record IsLoaded (k : Machine) : Type 0 where
      pub machine : Machine
      pub runs :
          exec handle handle_number start (emit_register_load options) k ≡ ok (machine, onward)
      pub rep : Represents options k.ctx machine
      pub ctx : machine.ctx ≡ k.ctx

    pub emit_register_load-IsLoaded : (k : Machine) → IsLoaded k
    unfolding emit_register_load has_host_register exec
    emit_register_load-IsLoaded k =
        let l = copy_in-Loads register_map k in
        elim (Bool-cases options.pin_registers) [
          | inl pin ↦ rw pin record {
            machine = l.machine;
            runs = l.runs;
            rep = record {
              regs = λ j. ground (arith, l.pins j, ap (λ d. d.reg j) l.ctx);
              memory = ap (λ d. d.memory) l.ctx;
              unsupported = ap (λ d. d.unsupported) l.ctx;
            };
            ctx = l.ctx;
          }
          | inr free ↦ rw free record {
            machine = k;
            runs = refl;
            rep = record { regs = λ j. refl; memory = refl; unsupported = refl };
            ctx = refl;
          }
        ]
