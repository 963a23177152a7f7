-- ===== src/Cpu/Memory/RoundTrip.antt =====
-- src/cpu/riscv/simple_riscv64.c and src/mem/simple_mem.c: a store and then a load.
use gran.Prelude.{ℕ, ◌≡◌, ◌+◌, ◌%◌, ◌≤◌, Bool, false, some, [], arith, refl, ◌∙◌, u64, replicate}
use gran.Packet.{packet_read, packet_write, is_set, store_le}
use gran.Packet.Mask.{offset_in}
use gran.Packet.Create.{
  IsWidth, byte, half, word, double, made, create_packet-read, create_packet-write,
  packet_conv-mask, packet_convsize-mask, length-store_le,
}
use gran.Mem.{SimpleMem}
use gran.Mem.Access.{IsMem, served, offset_of, simple_mem_receive-read, simple_mem_receive-write}
use gran.Mem.RoundTrip.{bytes_back}
use gran.Cpu.Insn.{insn_rd, insn_rs1, insn_rs2, insn_funct3, itype_imm, stype_imm}
use gran.Cpu.State.{Cpu}
use gran.Cpu.State.File.{HasRegs, HasWords, reg_at-lt, reg_at, written, with_reg, reg_at-with_reg}
use gran.Cpu.Access.{load_width, store_width, load, store}
use gran.Cpu.Memory.{loaded, mem_env, answered, store_then_load}
use gran.Cpu.Memory.Steps.{low_bytes, load_value-loaded, finished, store_done, load_done}

chain :
    (self at : ℕ) (cpu cpu' cpu'' : Cpu) (mem mem' mem'' : SimpleMem) (s l : ℕ)
    → answered self at (store mem_env self cpu s mem) ≡ some (cpu', mem')
    → answered self at (load mem_env self cpu' l mem') ≡ some (cpu'', mem'')
    → store_then_load self at cpu mem s l ≡ some cpu''
chain self at cpu cpu' cpu'' mem mem' mem'' s l a b = rw (a, b) refl

-- A store instruction and then a load instruction of the same width from the same address, on a processor
-- whose data memory is a free memory of whole blocks: the load puts the stored value, cut to the width
-- and extended as `loaded` says, into its register unless that is `x0`, and every other register keeps
-- its value. The processor's own address is aligned to a block and the bytes stay inside one.
pub store_then_load_lem :
    (self at : ℕ) (cpu : Cpu) (mem : SimpleMem) (s l addr size : ℕ) (u : Bool)
    → HasRegs cpu
    → HasWords cpu
    → IsMem mem
    → mem.busy ≡ false
    → cpu.dmem ≡ some at
    → cpu.rcv % 64 ≡ 0
    → IsWidth size
    → store_width (insn_funct3 s) ≡ some size
    → load_width (insn_funct3 l) ≡ some (size, u)
    → u64 (reg_at cpu (insn_rs1 s) + stype_imm s) ≡ addr
    → u64 (reg_at cpu (insn_rs1 l) + itype_imm l) ≡ addr
    → offset_in addr + size ≤ 64
    → (cpu' : Cpu) × (store_then_load self at cpu mem s l ≡ some cpu')
      × ((j : ℕ)
          → reg_at cpu' j
            ≡ written (reg_at cpu) (insn_rd l) (loaded size u (reg_at cpu (insn_rs2 s))) j)
store_then_load_lem self at cpu mem s l addr size u regs words m free there from width sw lw sa la
      fits =
    let v = reg_at cpu (insn_rs2 s) in
    let (filled, makes_w, full, stored) =
      create_packet-write cpu.rcv addr size (store_le 8 v) from fits
        (omega (arith, length-store_le 8 v, widest width)) in
    let w = made cpu.rcv addr size packet_write filled in
    let (buf, writes, copied) =
      simple_mem_receive-write mem self w m (record { aligned = omega arith; full = full }) free
        (unfold is_set in refl) (unfold is_set in refl) in
    let stored_mem = record (served mem self w buf) { busy = false } in
    let r = made cpu.rcv addr size packet_read (replicate 64 0) in
    let (back, reads, copied') =
      simple_mem_receive-read stored_mem self r
        (record {
          storage = copied.same_length ∙ m.storage;
          blocks = m.blocks;
          some_room = m.some_room;
        })
        (record { aligned = omega arith; full = refl }) refl (unfold is_set in refl) in
    let loaded_mem = served stored_mem self (record r { payload = back }) buf in
    let reply = (served mem self w buf).pkt in
    let cpu' = finished cpu reply 0 false in
    let value_back =
      packet_conv-mask cpu.rcv addr size packet_read back width fits size loaded_mem.pkt refl
      ∙ bytes_back addr size (offset_of mem w) (store_le 8 v) buf mem.buf filled fits copied stored
          (replicate 64 0) back copied'
      ∙ low_bytes size v width (reg_at-lt cpu (insn_rs2 s) words) in
    let known =
      packet_convsize-mask cpu.rcv addr size packet_read back width fits loaded_mem.pkt refl in
    let runs_s =
      store_done self at cpu mem (served mem self w buf) s addr size w regs there sa sw makes_w
        writes (ground arith) (unfold is_set in refl) in
    let runs_l =
      load_done self at cpu' stored_mem loaded_mem l addr size u r (loaded size u v) regs there
        (unfold reg_at in la) lw (create_packet-read cpu.rcv addr size [] from fits) reads
        (ground arith) (unfold is_set in refl)
        (load_value-loaded loaded_mem.pkt size u v width known value_back) in
    let done = finished cpu' loaded_mem.pkt (insn_rd l) u in
    (
      with_reg done (insn_rd l) (loaded size u v),
      chain self at cpu cpu' (with_reg done (insn_rd l) (loaded size u v)) mem stored_mem
          (record loaded_mem { busy = false }) s l runs_s runs_l,
      λ j.
          reg_at-with_reg done (insn_rd l) (loaded size u v) j regs (omega arith)
          ∙ (unfold reg_at in refl),
    )
  where
    widest : {n : ℕ} → IsWidth n → n ≤ 8
    widest byte = omega arith
    widest half = omega arith
    widest word = omega arith
    widest double = omega arith
