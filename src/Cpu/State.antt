-- ===== src/Cpu/State.antt =====
-- src/cpu/riscv/simple_riscv64.c: the state of the processor and its registers.
pub mod File
use gran.Prelude.{
  ℕ, Option, none, some, List, ltb, ◌==◌, if◌then◌else◌, ◌>>=◌, ◌>>◌, assert, get_elem?, set,
  replicate, Bool, true, false, length,
}
use gran.Packet.{Packet, empty_packet}
use gran.Component.{Ptr}

pub data LdstState : Type 0 where
  ldst_idle ldst_blocked ldst_sent ldst_done : LdstState

pub record Ldst : Type 0 where
  pub pkt : Packet
  pub state : LdstState
  pub reg : ℕ
  pub u : Bool

abbrev pub empty_ldst : Ldst
empty_ldst = record { pkt = empty_packet; state = ldst_idle; reg = 0; u = false }

pub record Cpu : Type 0 where
  pub imem : Ptr
  pub dmem : Ptr
  pub ctrl : Ptr
  pub dls : Ldst
  pub ils : Ldst
  pub cls : Ldst
  pub rcv : ℕ
  pub regs : List ℕ
  pub pc : ℕ
  pub sleep : Bool

unfoldable pub get_reg : Cpu → ℕ → Option ℕ
get_reg cpu i = do assert (ltb i 32); if i == 0 then some 0 else get_elem? cpu.regs i

unfoldable pub set_reg : Cpu → ℕ → ℕ → Option Cpu
set_reg cpu i v = do
  assert (ltb i 32)
  if i == 0
      then some cpu
      else (do assert (ltb i (length cpu.regs)); some (record cpu { regs = set cpu.regs i v }))
