-- ===== src/Tests/Processors.antt =====
-- The RV64 processor at concrete inputs.
use gran.Prelude.{
  ℕ, ◌≡◌, ◌+◌, ◌-◌, ◌*◌, ◌^◌, ◌<◌, ◌≤◌, ◌⊎◌, ◌↔◌, false, none, some, [], ◌∷◌, arith, refl,
  replicate, set, replicate-AllBelow, set-AllBelow,
}
use gran.Packet.{Packet, create_packet, packet_mask, packet_read, is_set, sign_extend}
use gran.Component.{ok, send}
use gran.Packet.Create.{word}
use gran.Cpu.Insn.{btype_imm, stype_imm}
use gran.Cpu.Insn.Branch.{b_type, btype_imm_iff}
use gran.Cpu.State.{Cpu, empty_ldst, ldst_blocked, ldst_sent}
use gran.Cpu.State.File.{HasWords, reg_at, written}
use gran.Cpu.Alu.{op, op_imm}
use gran.Cpu.Alu.Immediate.{addi, i_type, op_imm-Advanced}
use gran.Cpu.Alu.Isa.{add, srl, sra, funct3_of, funct7_of, r_type, meaning}
use gran.Cpu.Alu.Refine.{Advanced, op-Advanced}
use gran.Cpu.Access.{load_width, store_width}
use gran.Cpu.Memory.{loaded, store_then_load}
use gran.Cpu.Memory.RoundTrip.{store_then_load_lem}
use gran.Cpu.Cycle.{
  create_simple_riscv64, fetch_packet, simple_riscv64_clock, control_phase, awake_phase, data_phase,
  insn_phase, send_fetch, set_ils_state,
}
use gran.Cpu.Words.Steps.{IsCpu}
use gran.Cpu.Reach.{created, clocked, Reachable-IsCpu}
use gran.Tests.Setup.{mailbox, small_mem, small_mem-IsMem}

-- A processor with 300 in `x5` and 12 in `x6`.
abbrev a_cpu : Cpu
a_cpu = record {
  imem = some 1;
  dmem = some 2;
  ctrl = none;
  dls = empty_ldst;
  ils = empty_ldst;
  cls = empty_ldst;
  rcv = 4096;
  regs = set (set (replicate 32 0) 5 300) 6 12;
  pc = 0;
  sleep = false;
}

a_cpu-HasWords : HasWords a_cpu
a_cpu-HasWords =
    set-AllBelow (2 ^ 64) (set (replicate 32 0) 5 300) 6 12
      (set-AllBelow (2 ^ 64) (replicate 32 0) 5 300 (replicate-AllBelow (2 ^ 64) 32 0 (omega arith))
        (omega arith))
      (omega arith)

x6_small : reg_at a_cpu 6 < 64
unfolding reg_at
x6_small = omega arith

op-Advanced_example :
    (cpu' : Cpu) × (op a_cpu (r_type (funct7_of srl) 6 5 (funct3_of srl) 7 0x33) ≡ some (ok, cpu'))
    × Advanced a_cpu cpu' 7 (meaning sra (reg_at a_cpu 5) (reg_at a_cpu 6))
op-Advanced_example =
    op-Advanced a_cpu srl 7 5 6 refl a_cpu-HasWords (omega arith) (omega arith) (omega arith)
      x6_small

op_imm-Advanced_example :
    (cpu' : Cpu) × (op_imm a_cpu (i_type 4095 5 (funct3_of add) 7) ≡ some (ok, cpu'))
    × Advanced a_cpu cpu' 7 (meaning add (reg_at a_cpu 5) (sign_extend 12 4095))
op_imm-Advanced_example =
    op_imm-Advanced a_cpu add 4095 7 5 addi refl a_cpu-HasWords (omega arith) (omega arith)
      (omega arith)

btype_imm_iff_example :
    (btype_imm (b_type 4096 6 5 0) ≡ sign_extend 13 4096)
    ↔ ((4096 < 2 ^ 11) ⊎ (2 ^ 13 - 2 ^ 11 ≤ 4096))
btype_imm_iff_example =
    btype_imm_iff 4096 6 5 0 (omega arith) refl (omega arith) (omega arith) (omega arith)

-- `sw x6, 0(x5)` and `lw x7, 0(x5)`
abbrev a_sw : ℕ
a_sw = 6 * 2 ^ 20 + 5 * 2 ^ 15 + 2 * 2 ^ 12 + 0x23

abbrev a_lw : ℕ
a_lw = 5 * 2 ^ 15 + 2 * 2 ^ 12 + 7 * 2 ^ 7 + 0x03

store_then_load_example :
    (cpu' : Cpu) × (store_then_load 9 2 a_cpu small_mem a_sw a_lw ≡ some cpu')
    × ((j : ℕ) → reg_at cpu' j ≡ written (reg_at a_cpu) 7 (loaded 4 false (reg_at a_cpu 6)) j)
unfolding reg_at stype_imm load_width store_width
store_then_load_example =
    store_then_load_lem 9 2 a_cpu small_mem a_sw a_lw 300 4 false refl a_cpu-HasWords
      small_mem-IsMem refl refl refl word refl refl refl refl (omega arith)

-- A new processor, and its first clock cycle, which fetches an instruction.
abbrev new_packet : Packet
new_packet = record {
  from = 4160;
  to = 0;
  mask = 15;
  timestamp = 0;
  payload = replicate 64 0;
  flags = packet_read;
}

abbrev new_cpu : Cpu
new_cpu = record {
  imem = some 1;
  dmem = some 2;
  ctrl = none;
  dls = empty_ldst;
  ils = record empty_ldst { pkt = new_packet; state = ldst_blocked };
  cls = empty_ldst;
  rcv = 4096;
  regs = replicate 32 0;
  pc = 0;
  sleep = false;
}

new_cpu-created : create_simple_riscv64 4096 0 (some 1) (some 2) ≡ some new_cpu
unfolding create_simple_riscv64 fetch_packet create_packet packet_mask is_set
new_cpu-created = refl

first_clock :
    simple_riscv64_clock mailbox 9 new_cpu []
    ≡ some (ok, set_ils_state new_cpu ldst_sent, new_packet ∷ [])
unfolding simple_riscv64_clock control_phase awake_phase data_phase insn_phase send_fetch send
first_clock = refl

Reachable-IsCpu_example : IsCpu (set_ils_state new_cpu ldst_sent)
Reachable-IsCpu_example = Reachable-IsCpu mailbox 9 (set_ils_state new_cpu ldst_sent) (
    clocked new_cpu (set_ils_state new_cpu ldst_sent) ok [] (new_packet ∷ [])
      (created 4096 0 (some 1) (some 2) new_cpu (omega arith) new_cpu-created) first_clock)
