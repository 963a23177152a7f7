-- ===== src/Cpu/Words.antt =====
-- src/cpu/riscv/simple_riscv64.c: well-formed states of the processor.
pub mod Access
pub mod Bytes
pub mod Cycle
pub mod Steps
pub mod Values
