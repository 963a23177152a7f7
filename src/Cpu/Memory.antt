-- ===== src/Cpu/Memory.antt =====
-- src/cpu/riscv/simple_riscv64.c and src/mem/simple_mem.c: a processor whose data memory is a `simple_mem`.
pub mod RoundTrip
pub mod Steps
use gran.Prelude.{
  ℕ, ◌≡◌, ◌+◌, ◌*◌, ◌%◌, ◌^◌, ◌≤◌, ◌<◌, Bool, true, false, not, ◌&&◌, ◌||◌, Option, some, [], arith,
  refl, ap, ◌∙◌, ◌==◌, if◌then◌else◌, ◌>>=◌, u64, replicate,
}
use gran.Packet.{
  Packet, packet_read, packet_write, is_set, create_packet, store_le, load_le, packet_conv,
  packet_convsize, packet_convu8, packet_convi8, packet_convu16, packet_convi16, packet_convu32,
  packet_convi32, packet_convu64, sign_extend,
}
use gran.Packet.Mask.{offset_in}
use gran.Packet.Create.{
  IsWidth, byte, half, word, double, made, create_packet-read, create_packet-write,
  packet_conv-mask, packet_convsize-mask, length-store_le,
}
use gran.Component.{Stat, ok, Env, send}
use gran.Mem.{SimpleMem, simple_mem_receive}
use gran.Mem.Access.{IsMem, served, offset_of, simple_mem_receive-read, simple_mem_receive-write}
use gran.Mem.RoundTrip.{bytes_back}
use gran.Cpu.Insn.{insn_rd, insn_rs1, insn_rs2, insn_funct3, itype_imm, stype_imm}
use gran.Cpu.State.{ldst_idle, ldst_done, Cpu, get_reg}
use gran.Cpu.State.File.{
  HasRegs, HasWords, reg_at-lt, reg_at, written, get_reg-reg_at, with_reg, set_reg-with_reg,
  reg_at-with_reg,
}
use gran.Cpu.Access.{
  load_width, store_width, load_value, finalize_ld, finalize_dls, start_access, load_from, load,
  store_to, store,
}
use gran.Cpu.Cycle.{simple_riscv64_receive}

-- What a load of `size` bytes puts into the register when the low bytes in memory are those of `v`: the
-- loads that extend the sign are `LH` and, where the instruction set has `LW`, `LWU`.
abbrev pub loaded : ℕ → Bool → ℕ → ℕ
loaded size u v =
    if size == 2 && not u || size == 4 && u
    then sign_extend (8 * size) (v % 256 ^ size)
    else v % 256 ^ size

-- The data memory as the processor sees it.
abbrev pub mem_env : Env
mem_env = record {
  Rest = SimpleMem;
  has_receive = λ to. true;
  receive = λ to from pkt mem. simple_mem_receive mem from pkt;
}

-- After an access was sent: the memory answers, the processor receives the answer and finishes.
abbrev pub answered : ℕ → ℕ → Option (Stat × Cpu × SimpleMem) → Option (Cpu × SimpleMem)
answered self at sent = do
  (_, cpu, mem) ← sent
  (_, cpu', mem') ← simple_riscv64_receive mem_env self at cpu mem.pkt (record mem { busy = false })
  cpu'' ← finalize_dls cpu'
  some (cpu'', mem')

-- A store instruction and then a load instruction, with the answers of the memory in between.
abbrev pub store_then_load : ℕ → ℕ → Cpu → SimpleMem → ℕ → ℕ → Option Cpu
store_then_load self at cpu mem s l = do
  (cpu', mem') ← answered self at (store mem_env self cpu s mem)
  (cpu'', _) ← answered self at (load mem_env self cpu' l mem')
  some cpu''
