-- ===== src/Lib.antt =====
-- riscv_sbt: an emulator and a static binary translator for RV32IMA programs.
--
-- The program has two executables over one library. `emulator` loads an ELF file and interprets
-- it; `sbt` decodes the same file and emits a C++ program with a label for each leader. Both
-- use lib/decoding (tables and decoder), lib/runtime (guest memory, registers, system calls) and
-- lib/elf.
--
-- What stands where:
--   Base              shared names, tests, lists, bit laws, words, integers, and `Outcome`, what
--                     running guest code can come to
--   Decoder           lib/decoding: Instructions and Table are Instructions.h row by row; Fields
--                     and Decode are Decoder.cpp; FieldLaws, Encode, Amount, Immediate and Unique
--                     prove; Registers is the register-use tables
--   Runtime           lib/runtime: Memory (the array and typed accesses), Context (registers),
--                     Auxiliary (loadAux, the initial stack; Strings, Sizes, Stack and Loaded prove),
--                     Arena (the heap's bounds and the space for mmap, Memory.cpp; Page, Placed,
--                     Erase and Reserve prove), Syscall (syscall.h and syscall.cpp; Frame, Kept
--                     and Anywhere prove)
--   Elf               lib/elf: the sections, the bounds of the text, decodeToContainer
--                     and loadToMemory; TextBounds and Loading prove
--   Interpreter       emulator/Interpreter.cpp: Chain is runInstruction, Switch is
--                     runInstructionSwitch, Predecoded is runInstructionPredecoded, Threaded is
--                     runInstructionsThreaded; Arms holds what their arms share; Agree compares
--                     them; Bounds, Valid, MulDiv, DivRem and Jumps prove what the arms do;
--                     Systems ties the system calls to what the interpreters ask of them
--   Emulator          emulator/main.cpp: the loading of the guest, the decoding of its text and the
--                     loop; Inside, Predecode, Loop and Guest prove
--   Profiling         lib/ProfilingInfo.cpp: the counters; Document is save and load;
--                     Addresses, Counts, Branches, Recorded, Opened and RoundTrip prove
--   Sbt               Options is sbt/Options.cpp. sbt/analysis/BasicBlocks.cpp: Blocks is getLeaders
--                     and harvestStaticData;
--                     Leaders and Harvest prove. Emit is sbt/codegen: Syntax is the statements that
--                     are written, Emitter and Instructions are Emitter.cpp and
--                     InstructionEmitter.cpp, Machine is what the statements do. Simulate proves
--                     that they do what the interpreter does, one module for each group of
--                     instructions. Emit/Program is the loop of sbt/main.cpp over the instructions,
--                     the dispatch table of RuntimeEmitter.cpp and a run of the translated program;
--                     Emit/Runtime is the dispatch loop, the interpreter fallback and the exit
--                     around it. Runs, Find, Jumps, Progress, Text, Fallback, Steps and Whole carry
--                     the proof over to whole programs
--   Tests             runs at concrete inputs
--
-- How the code is rendered. A uint32_t or int32_t is its bit pattern, a native number, and every
-- operation on it writes out its wrap-around (Base/Word). A register file is a function of the
-- index; the decoder yields indices below 32 only. Memory is a function of the address with the
-- array's size as the bound of every typed access. An access out of bounds, which C++ leaves
-- undefined, is the outcome `fault`, and so is a failed `assert`, which a build without assertions
-- leaves out; a call of `exit` is `exited`. The order of bytes is that of
-- x86-64. What the interpreter prints for an unsupported instruction is kept in the context, as the
-- address without the wording, of which there are two; other output is not. `Syscall::handle` is an argument of the interpreters. The system calls are modelled
-- over a host whose functions and state are arguments (`Host`), with host pointers into the guest's
-- memory as guest addresses; a host call may end the process.
--
-- The emitted program. The emitter writes text; the model has one constructor for each shape of text
-- that it writes, and the meaning of C++ on the program's variables: the guest's context, the
-- registers of the host that eight guest registers are pinned to, `address` and `pcDispatchIndex`.
-- A number in the text stands for its 32-bit pattern, and a result is cut to the 32 bits of what it
-- is assigned to. Where the interpreter and the emitted code may differ, the predicate IsTranslated
-- says so. What the translated program asks of the system calls is the record IsHandler of
-- Simulate/System: the entry with a number and the one without are the same call, pc plays no part in
-- it, and it changes no register but a0. Simulate/Handler fills that record with the modelled system
-- calls.
--
-- Labels and jumps. A run of the translated program goes from jump to jump. A jump to a label goes on
-- with the statements after it; a jump through the dispatch table goes on at the label in the slot.
-- Emit/Runtime is the whole of runTranslated: where the slot holds INVALID, the registers are copied
-- to the context and the interpreter's switch runs until pc is at a label or at the exit; where it
-- holds EXIT, or control runs off the end of the text, the registers are copied and it returns.
--
-- Loops. The threaded interpreter and the emulator's loop run until the guest exits, so they take
-- the number of instructions to run as an argument, and the theorems hold for every number. Reading
-- an array of pointers for `execve` has fuel for every word of the guest's memory: the source's loop,
-- which has no bound, leaves the array by then.
--
-- The profile. A JSON document is the record of the members that the code reads and writes; an
-- exception is no result. A map of the code is the list of its pairs, no key twice.
--
-- Not modelled: the templates of the emitted program other than runTranslated, reading the ELF file,
-- which is libelf's, and the text of a JSON document, which is nlohmann/json's; the profiling hooks
-- of the interpreters, which are compiled out by default, and the callbacks that write the profile at
-- exit. These are the parts that work on files or on the text of the emitted program.
pub mod Base
pub mod Decoder
pub mod Elf
pub mod Emulator
pub mod Interpreter
pub mod Profiling
pub mod Runtime
pub mod Sbt
pub mod Tests
