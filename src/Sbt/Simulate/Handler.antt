-- ===== src/Sbt/Simulate/Handler.antt =====
-- The modelled system calls are what the translated program asks of its handler.
use Prim.Native.Nat.{ℕ}
use mathlib.Core.Path.{◌≡◌, refl, ap, ◌∙◌}
use riscv_sbt.Base.Outcome.{Outcome, ok, exited, fault, ◌>>=◌, Leaves-bind}
use riscv_sbt.Runtime.Context.{Context}
use riscv_sbt.Runtime.Syscall.{Host, handle, handle_number}
use riscv_sbt.Runtime.Syscall.Kept.{IsSameBut, handle-IsSameBut}
use riscv_sbt.Runtime.Syscall.Anywhere.{at_pc, moved, handle-moved}
use riscv_sbt.Sbt.Simulate.System.{IsHandler}

-- the guest's part of what is left
abbrev pub guest_part {ℓ} : {W : Type ℓ} → Outcome (W × Context) → Outcome Context
guest_part o = o >>= λ s. ok s.1

module _ {ℓ} {W : Type ℓ} (host : Host W) (w : W) where
  guest_part-moved :
      (p : ℕ) (o : Outcome (W × Context))
      → guest_part (moved host p o) ≡ (guest_part o >>= λ d. ok (at_pc p d))
  guest_part-moved p (ok s) = refl
  guest_part-moved p (exited n) = refl
  guest_part-moved p fault = refl

  -- On a host in any state, `Syscall::handle` and the entries that take the number obey what the
  -- translated program relies on: the entry for the number in a7 does what `handle` does, a call from
  -- another pc does the same and leaves that pc, and on every path that leaves a state, only a0 among
  -- pc, the output and the registers is changed.
  pub handle-IsHandler :
      IsHandler
        (λ c. guest_part (handle host (w, c)))
        (λ n c. guest_part (handle_number host n (w, c)))
  unfolding handle
  handle-IsHandler = record {
    same_number = λ c. refl;
    any_pc = λ c p.
        ap (λ o. guest_part o) (handle-moved host p w c) ∙ guest_part-moved p (handle host (w, c));
    keeps = λ c.
        Leaves-bind (λ (s : W × Context). IsSameBut c s.1) (IsSameBut c) (handle host (w, c)) _
          (handle-IsSameBut host w c) (λ s same. same);
  }
