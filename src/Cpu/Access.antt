-- ===== src/Cpu/Access.antt =====
-- src/cpu/riscv/simple_riscv64.c: loads and stores, and what is done when their answer has come.
use gran.Prelude.{
  ℕ, ◌+◌, Bool, true, false, Option, none, some, [], ◌==◌, if◌then◌else◌, ◌>>=◌, u64,
}
use gran.Packet.{
  Packet, packet_read, packet_write, is_set, create_packet, store_le, packet_convsize,
  packet_convu8, packet_convi8, packet_convu16, packet_convi16, packet_convu32, packet_convi32,
  packet_convu64,
}
use gran.Component.{Stat, ok, enosuch, is_ebusy, Env, send}
use gran.Cpu.Insn.{insn_rd, insn_rs1, insn_rs2, insn_funct3, itype_imm, stype_imm}
use gran.Cpu.State.{LdstState, ldst_idle, ldst_blocked, ldst_sent, Cpu, get_reg, set_reg}

-- The size of a load, and whether it is unsigned.
unfoldable pub load_width : ℕ → Option (ℕ × Bool)
load_width funct3 =
    if funct3 == 0b100
    then some (1, true)
    else if funct3 == 0b000
    then some (1, false)
    else if funct3 == 0b101
    then some (2, true)
    else if funct3 == 0b001
    then some (2, false)
    else if funct3 == 0b110
    then some (4, true)
    else if funct3 == 0b010
    then some (4, false)
    else if funct3 == 0b011
    then some (8, false)
    else none

unfoldable pub store_width : ℕ → Option ℕ
store_width funct3 =
    if funct3 == 0b000
    then some 1
    else if funct3 == 0b001
    then some 2
    else if funct3 == 0b010
    then some 4
    else if funct3 == 0b011
    then some 8
    else none

-- The value that `finalize_ld` puts into the register.
unfoldable pub load_value : Packet → Bool → Option ℕ
load_value pkt u = do
  size ← packet_convsize pkt
  if size == 1
      then (if u then packet_convu8 pkt else packet_convi8 pkt)
      else if size == 2
      then (if u then packet_convu16 pkt else packet_convi16 pkt)
      else if size == 4
      then (if u then packet_convi32 pkt else packet_convu32 pkt)
      else if size == 8
      then packet_convu64 pkt
      else some 0

unfoldable pub finalize_ld : Cpu → Option Cpu
finalize_ld cpu = do val ← load_value cpu.dls.pkt cpu.dls.u; set_reg cpu cpu.dls.reg val

abbrev pub set_dls_state : Cpu → LdstState → Cpu
set_dls_state cpu s = record cpu { dls = record cpu.dls { state = s } }

unfoldable pub finalize_dls : Cpu → Option Cpu
finalize_dls cpu =
    if is_set cpu.dls.pkt packet_read
    then finalize_ld (set_dls_state cpu ldst_idle)
    else some (set_dls_state cpu ldst_idle)

module _ (e : Env) where
  open e use {Rest}

  -- The end of `load` and of `store`: the packet is sent, and the program counter moves on.
  unfoldable pub start_access : ℕ → Cpu → Packet → ℕ → Bool → Rest → Option (Stat × Cpu × Rest)
  start_access self cpu pkt reg u rest = do
    (ret, rest') ← send e self cpu.dmem pkt rest
    let pc = u64 (cpu.pc + 4)
    some (
        if is_ebusy ret
        then (
          ok,
          record cpu {
            dls = record { pkt = pkt; state = ldst_blocked; reg = reg; u = u };
            pc = pc;
          },
          rest',
        )
        else (
          ret,
          record cpu { dls = record { pkt = pkt; state = ldst_sent; reg = reg; u = u }; pc = pc },
          rest',
        ))

  -- `load` after its `switch`.
  unfoldable pub load_from : ℕ → Cpu → ℕ → ℕ → Option (ℕ × Bool) → Rest → Option (Stat × Cpu × Rest)
  load_from self cpu rd addr none rest = some (enosuch, cpu, rest)
  load_from self cpu rd addr (some (size, u)) rest = do
    pkt ← create_packet cpu.rcv addr size [] packet_read
    start_access self cpu pkt rd u rest

  unfoldable pub load : ℕ → Cpu → ℕ → Rest → Option (Stat × Cpu × Rest)
  load self cpu insn rest = do
    base ← get_reg cpu (insn_rs1 insn)
    load_from self cpu (insn_rd insn) (u64 (base + itype_imm insn)) (load_width (insn_funct3 insn))
        rest

  -- `store` after its `switch`.
  unfoldable pub store_to : ℕ → Cpu → ℕ → ℕ → Option ℕ → Rest → Option (Stat × Cpu × Rest)
  store_to self cpu addr src none rest = some (enosuch, cpu, rest)
  store_to self cpu addr src (some size) rest = do
    pkt ← create_packet cpu.rcv addr size (store_le 8 src) packet_write
    start_access self cpu pkt 0 false rest

  unfoldable pub store : ℕ → Cpu → ℕ → Rest → Option (Stat × Cpu × Rest)
  store self cpu insn rest = do
    base ← get_reg cpu (insn_rs1 insn)
    src ← get_reg cpu (insn_rs2 insn)
    store_to self cpu (u64 (base + stype_imm insn)) src (store_width (insn_funct3 insn)) rest
