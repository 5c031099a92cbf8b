-- ===== src/Runtime.antt =====
-- lib/runtime: the guest's memory and registers, the arena for `mmap`, and the system calls.
pub mod Memory
pub mod Context
pub mod MemoryLaws
pub mod Auxiliary
pub mod Arena
pub mod Syscall
