-- ===== src/Cpu.antt =====
-- src/cpu/riscv/simple_riscv64.c: a processor that executes one instruction at a time.
pub mod Insn
pub mod State
pub mod Alu
pub mod Access
pub mod Cycle
pub mod Memory
pub mod Reach
pub mod Words
