-- ===== src/Tests/Machine.antt =====
-- A machine with a short program in its memory.
use Prim.Native.Nat.{ℕ, ◌-◌, ◌/◌, ◌%◌, ◌^◌}
use mathlib.Core.List.{[]}
use riscv_sbt.Base.{if◌then◌else◌, ltb}
use riscv_sbt.Base.Outcome.{Outcome, exited}
use riscv_sbt.Runtime.Memory.{Memory}
use riscv_sbt.Runtime.Context.{Context}
use riscv_sbt.Interpreter.Valid.{FitsWords}
use native.Mathlib.Omega.{arith}

-- addi x5, x0, 7; sub x6, x0, x5; jal x1, -8; mul x7, x5, x6
abbrev pub addi_word : ℕ
addi_word = 0x0070_0293

abbrev pub sub_word : ℕ
sub_word = 0x4050_0333

abbrev pub jal_word : ℕ
jal_word = 0xff9f_f0ef

abbrev pub text_byte : ℕ → ℕ → ℕ
text_byte w k = w / 256 ^ k % 256

abbrev pub program : ℕ → ℕ
program a =
    if ltb a 4
    then text_byte addi_word a
    else if ltb a 8
    then text_byte sub_word (a - 4)
    else if ltb a 12
    then text_byte jal_word (a - 8)
    else 0

abbrev pub memory : Memory
memory = record {
  bytes = program;
  initial_sp = 0x7ffff;
  heap_end = 0x40000;
  heap_base = 0x40000;
  page_size = 4096;
  mapped_areas = [];
}

abbrev pub start : Context
start = record { reg = λ r. 0; pc = 0; memory = memory; unsupported = [] }

-- every system call ends the program
abbrev pub stop : Context → Outcome Context
stop c = exited 0

pub start-FitsWords : FitsWords start
start-FitsWords = record {
  regs = λ r. omega arith;
  pc = omega arith;
  bytes = λ a. ground arith;
  heap_end = omega arith;
}
