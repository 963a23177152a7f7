-- ===== src/Cpu/Memory/Steps.antt =====
-- src/cpu/riscv/simple_riscv64.c and src/mem/simple_mem.c: one store or load instruction with its answer.
use gran.Prelude.{
  ℕ, ◌≡◌, ◌+◌, ◌%◌, ◌^◌, ◌<◌, Bool, true, false, some, [], arith, refl, ap, ◌∙◌, ◌==◌, ◌>>=◌, u64,
}
use gran.Packet.{
  Packet, packet_read, packet_write, is_set, create_packet, store_le, load_le, packet_conv,
  packet_convsize, packet_convu8, packet_convi8, packet_convu16, packet_convi16, packet_convu32,
  packet_convi32, packet_convu64,
}
use gran.Packet.Create.{IsWidth, byte, half, word, double}
use gran.Component.{ok, send}
use gran.Mem.{SimpleMem, simple_mem_receive}
use gran.Cpu.Insn.{insn_rd, insn_rs1, insn_rs2, insn_funct3, itype_imm, stype_imm}
use gran.Cpu.State.{ldst_idle, ldst_done, Cpu, get_reg}
use gran.Cpu.State.File.{HasRegs, reg_at, get_reg-reg_at, with_reg, set_reg-with_reg}
use gran.Cpu.Access.{
  load_width, store_width, load_value, finalize_ld, finalize_dls, start_access, load_from, load,
  store_to, store,
}
use gran.Cpu.Cycle.{simple_riscv64_receive}
use gran.Cpu.Memory.{loaded, mem_env, answered}

pub low_bytes :
    (size v : ℕ) → IsWidth size → v < 2 ^ 64 → load_le size (store_le 8 v) 0 ≡ some (v % 256 ^ size)
unfolding load_le store_le
low_bytes _ v byte h = ap some (omega arith)
low_bytes _ v half h = ap some (omega arith)
low_bytes _ v word h = ap some (omega arith)
low_bytes _ v double h = ap some (omega arith)

pub load_value-loaded :
    (pkt : Packet) (size : ℕ) (u : Bool) (v : ℕ)
    → IsWidth size
    → packet_convsize pkt ≡ some size
    → packet_conv size pkt ≡ some (v % 256 ^ size)
    → load_value pkt u ≡ some (loaded size u v)
unfolding load_value packet_convu8 packet_convi8 packet_convu16 packet_convi16 packet_convu32
    packet_convi32 packet_convu64
load_value-loaded pkt _ true v byte known read = rw (known, read) refl
load_value-loaded pkt _ false v byte known read = rw (known, read) refl
load_value-loaded pkt _ true v half known read = rw (known, read) refl
load_value-loaded pkt _ false v half known read = rw (known, read) refl
load_value-loaded pkt _ true v word known read = rw (known, read) refl
load_value-loaded pkt _ false v word known read = rw (known, read) refl
load_value-loaded pkt _ true v double known read = rw (known, read) refl
load_value-loaded pkt _ false v double known read = rw (known, read) refl

-- The processor that has got the answer to an access.
abbrev got : Cpu → Packet → ℕ → Bool → Cpu
got cpu pkt reg u = record cpu {
  dls = record { pkt = pkt; state = ldst_done; reg = reg; u = u };
  pc = u64 (cpu.pc + 4);
}

answered-got :
    (self at : ℕ) (cpu : Cpu) (pkt : Packet) (reg : ℕ) (u : Bool) (mem mem' : SimpleMem)
    → cpu.dmem ≡ some at
    → simple_mem_receive mem self pkt ≡ some (ok, mem')
    → (mem'.pkt.to == cpu.rcv) ≡ true
    → answered self at (start_access mem_env self cpu pkt reg u mem)
      ≡ (finalize_dls (got cpu mem'.pkt reg u) >>= λ c. some (c, record mem' { busy = false }))
unfolding start_access send simple_riscv64_receive
answered-got self at cpu pkt reg u mem mem' there takes back = rw (there, takes, back) refl

store-packet :
    (self : ℕ) (cpu : Cpu) (insn a v addr size : ℕ) (w : Packet) (mem : SimpleMem)
    → get_reg cpu (insn_rs1 insn) ≡ some a
    → get_reg cpu (insn_rs2 insn) ≡ some v
    → u64 (a + stype_imm insn) ≡ addr
    → store_width (insn_funct3 insn) ≡ some size
    → create_packet cpu.rcv addr size (store_le 8 v) packet_write ≡ some w
    → store mem_env self cpu insn mem ≡ start_access mem_env self cpu w 0 false mem
unfolding store store_to
store-packet self cpu insn a v addr size w mem b c d f g = rw (b, c, d, f, g) refl

load-packet :
    (self : ℕ) (cpu : Cpu) (insn a addr size : ℕ) (u : Bool) (r : Packet) (mem : SimpleMem)
    → get_reg cpu (insn_rs1 insn) ≡ some a
    → u64 (a + itype_imm insn) ≡ addr
    → load_width (insn_funct3 insn) ≡ some (size, u)
    → create_packet cpu.rcv addr size [] packet_read ≡ some r
    → load mem_env self cpu insn mem ≡ start_access mem_env self cpu r (insn_rd insn) u mem
unfolding load load_from
load-packet self cpu insn a addr size u r mem b d f g = rw (b, d, f, g) refl

-- The processor after its access is done.
abbrev pub finished : Cpu → Packet → ℕ → Bool → Cpu
finished cpu pkt reg u = record cpu {
  dls = record { pkt = pkt; state = ldst_idle; reg = reg; u = u };
  pc = u64 (cpu.pc + 4);
}

finish_store :
    (cpu : Cpu) (pkt : Packet)
    → is_set pkt packet_read ≡ false
    → finalize_dls (got cpu pkt 0 false) ≡ some (finished cpu pkt 0 false)
unfolding finalize_dls
finish_store cpu pkt h = rw h refl

finish_load :
    (cpu : Cpu) (pkt : Packet) (reg : ℕ) (u : Bool) (v : ℕ)
    → HasRegs cpu
    → reg < 32
    → is_set pkt packet_read ≡ true
    → load_value pkt u ≡ some v
    → finalize_dls (got cpu pkt reg u) ≡ some (with_reg (finished cpu pkt reg u) reg v)
unfolding finalize_dls finalize_ld
finish_load cpu pkt reg u v h k reads val =
    rw (reads, val) (set_reg-with_reg (finished cpu pkt reg u) reg v h k)

pub store_done :
    (self at : ℕ) (cpu : Cpu) (mem mem' : SimpleMem) (s addr size : ℕ) (w : Packet)
    → HasRegs cpu
    → cpu.dmem ≡ some at
    → u64 (reg_at cpu (insn_rs1 s) + stype_imm s) ≡ addr
    → store_width (insn_funct3 s) ≡ some size
    → create_packet cpu.rcv addr size (store_le 8 (reg_at cpu (insn_rs2 s))) packet_write ≡ some w
    → simple_mem_receive mem self w ≡ some (ok, mem')
    → (mem'.pkt.to == cpu.rcv) ≡ true
    → is_set mem'.pkt packet_read ≡ false
    → answered self at (store mem_env self cpu s mem)
      ≡ some (finished cpu mem'.pkt 0 false, record mem' { busy = false })
store_done self at cpu mem mem' s addr size w regs there a b makes takes back writes =
    ap (answered self at) (
      store-packet self cpu s (reg_at cpu (insn_rs1 s)) (reg_at cpu (insn_rs2 s)) addr size w mem
        (get_reg-reg_at cpu (insn_rs1 s) regs (omega arith))
        (get_reg-reg_at cpu (insn_rs2 s) regs (omega arith)) a b makes)
    ∙ answered-got self at cpu w 0 false mem mem' there takes back
    ∙ ap (λ o. o >>= λ c. some (c, record mem' { busy = false })) (finish_store cpu mem'.pkt writes)

pub load_done :
    (self at : ℕ) (cpu : Cpu) (mem mem' : SimpleMem) (l addr size : ℕ) (u : Bool) (r : Packet)
    (v : ℕ)
    → HasRegs cpu
    → cpu.dmem ≡ some at
    → u64 (reg_at cpu (insn_rs1 l) + itype_imm l) ≡ addr
    → load_width (insn_funct3 l) ≡ some (size, u)
    → create_packet cpu.rcv addr size [] packet_read ≡ some r
    → simple_mem_receive mem self r ≡ some (ok, mem')
    → (mem'.pkt.to == cpu.rcv) ≡ true
    → is_set mem'.pkt packet_read ≡ true
    → load_value mem'.pkt u ≡ some v
    → answered self at (load mem_env self cpu l mem)
      ≡ some (
        with_reg (finished cpu mem'.pkt (insn_rd l) u) (insn_rd l) v,
        record mem' { busy = false },
      )
load_done self at cpu mem mem' l addr size u r v regs there a b makes takes back reads val =
    ap (answered self at) (
      load-packet self cpu l (reg_at cpu (insn_rs1 l)) addr size u r mem
        (get_reg-reg_at cpu (insn_rs1 l) regs (omega arith)) a b makes)
    ∙ answered-got self at cpu r (insn_rd l) u mem mem' there takes back
    ∙ ap (λ o. o >>= λ c. some (c, record mem' { busy = false }))
        (finish_load cpu mem'.pkt (insn_rd l) u v regs (omega arith) reads val)
