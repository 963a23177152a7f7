-- ===== src/Cpu/Words/Access.antt =====
-- src/cpu/riscv/simple_riscv64.c: loads and stores in a well-formed state.
use gran.Prelude.{ℕ, ◌+◌, ◌^◌, ◌<◌, Bool, false, Option, none, some, [], arith, ◌==◌, u64}
use gran.Prelude.Outcome.{Holds, bind-Holds, bind_with-Holds, if-Holds, if_lem}
use gran.Packet.{
  Packet, packet_read, packet_write, is_set, create_packet, store_le, packet_conv, packet_convsize,
  packet_convu8, packet_convi8, packet_convu16, packet_convi16, packet_convu32, packet_convi32,
  packet_convu64,
}
use gran.Component.{Stat, is_ebusy, Env, send}
use gran.Cpu.Insn.{insn_rd, insn_rs1, insn_rs2, insn_funct3, itype_imm, stype_imm}
use gran.Cpu.State.{LdstState, ldst_idle, ldst_blocked, ldst_sent, Ldst, Cpu, get_reg}
use gran.Cpu.Access.{
  load_width, store_width, load_value, finalize_ld, set_dls_state, finalize_dls, start_access,
  load_from, load, store_to, store,
}
use gran.Cpu.Words.Bytes.{HasBytes, packet_conv-lt, create_packet-HasBytes, store_le-AreBytes}
use gran.Cpu.Words.Values.{sign_extend-lt}
use gran.Cpu.Words.Steps.{IsCpu, set_reg-IsCpu}

abbrev IsSmall : ℕ → Type 0
IsSmall v = v < 2 ^ 64

conv-IsSmall :
    (n : ℕ) (pkt : Packet) → HasBytes pkt → 256 ^ n < 2 ^ 64 + 1 → Holds IsSmall (packet_conv n pkt)
conv-IsSmall n pkt h k = weaker (packet_conv n pkt) (packet_conv-lt n pkt h)
  where
    weaker : (o : Option ℕ) → Holds (λ (v : ℕ). v < 256 ^ n) o → Holds IsSmall o
    weaker none p = tt
    weaker (some v) p = omega (arith, p, k)

pub load_value-IsSmall : (pkt : Packet) (u : Bool) → HasBytes pkt → Holds IsSmall (load_value pkt u)
unfolding load_value packet_convu8 packet_convi8 packet_convu16 packet_convi16 packet_convu32
    packet_convi32 packet_convu64
load_value-IsSmall pkt u h = bind-Holds IsSmall (packet_convsize pkt) _ (λ size known.
    if-Holds IsSmall (size == 1) _ _
      (λ z.
        if-Holds IsSmall u (packet_conv 1 pkt) (packet_conv 1 pkt)
          (λ z. conv-IsSmall 1 pkt h (omega arith)) (λ z. conv-IsSmall 1 pkt h (omega arith)))
      (λ z.
        if-Holds IsSmall (size == 2) _ _
          (λ z.
            if-Holds IsSmall u _ _ (λ z. conv-IsSmall 2 pkt h (omega arith))
              (λ z.
                bind_with-Holds (λ (v : ℕ). v < 256 ^ 2) IsSmall (packet_conv 2 pkt) _
                  (packet_conv-lt 2 pkt h)
                  (λ v k. sign_extend-lt 16 v (omega (arith, k)) (omega arith))))
          (λ z.
            if-Holds IsSmall (size == 4) _ _
              (λ z.
                if-Holds IsSmall u _ _
                  (λ z.
                    bind_with-Holds (λ (v : ℕ). v < 256 ^ 4) IsSmall (packet_conv 4 pkt) _
                      (packet_conv-lt 4 pkt h)
                      (λ v k. sign_extend-lt 32 v (omega (arith, k)) (omega arith)))
                  (λ z. conv-IsSmall 4 pkt h (omega arith)))
              (λ z.
                if-Holds IsSmall (size == 8) (packet_conv 8 pkt) (some 0)
                  (λ z. conv-IsSmall 8 pkt h (omega arith)) (λ z. omega arith)))))

pub set_dls_state-IsCpu : (cpu : Cpu) (s : LdstState) → IsCpu cpu → IsCpu (set_dls_state cpu s)
set_dls_state-IsCpu cpu s h = record {
  regs = h.regs;
  words = h.words;
  pc = h.pc;
  bytes = h.bytes;
  reg = h.reg;
  control = h.control;
}

pub with_ils-IsCpu : (cpu : Cpu) (ils : Ldst) → IsCpu cpu → IsCpu (record cpu { ils = ils })
with_ils-IsCpu cpu ils h = record {
  regs = h.regs;
  words = h.words;
  pc = h.pc;
  bytes = h.bytes;
  reg = h.reg;
  control = h.control;
}

pub with_dls-IsCpu :
    (cpu : Cpu) (dls : Ldst) (pc : ℕ)
    → IsCpu cpu
    → HasBytes dls.pkt
    → dls.reg < 32
    → pc < 2 ^ 64
    → IsCpu (record cpu { dls = dls; pc = pc })
with_dls-IsCpu cpu dls pc h bytes reg k = record {
  regs = h.regs;
  words = h.words;
  pc = k;
  bytes = bytes;
  reg = reg;
  control = h.control;
}

finalize_ld-IsCpu : (cpu : Cpu) → IsCpu cpu → Holds IsCpu (finalize_ld cpu)
unfolding finalize_ld
finalize_ld-IsCpu cpu h =
    bind_with-Holds IsSmall IsCpu (load_value cpu.dls.pkt cpu.dls.u) _
      (load_value-IsSmall cpu.dls.pkt cpu.dls.u h.bytes)
      (λ v small. set_reg-IsCpu cpu cpu.dls.reg v h small)

pub finalize_dls-IsCpu : (cpu : Cpu) → IsCpu cpu → Holds IsCpu (finalize_dls cpu)
unfolding finalize_dls
finalize_dls-IsCpu cpu h =
    if-Holds IsCpu (is_set cpu.dls.pkt packet_read) _ _
      (λ z. finalize_ld-IsCpu (set_dls_state cpu ldst_idle) (set_dls_state-IsCpu cpu ldst_idle h))
      (λ z. set_dls_state-IsCpu cpu ldst_idle h)

module _ (e : Env) where
  open e use {Rest}

  abbrev pub Left : Stat × Cpu × Rest → Type 0
  Left out = IsCpu out.1

  start_access-IsCpu :
      (self : ℕ) (cpu : Cpu) (pkt : Packet) (reg : ℕ) (u : Bool) (rest : Rest)
      → IsCpu cpu
      → HasBytes pkt
      → reg < 32
      → Holds Left (start_access e self cpu pkt reg u rest)
  unfolding start_access
  start_access-IsCpu self cpu pkt reg u rest h bytes small =
      bind-Holds Left (send e self cpu.dmem pkt rest) _ (λ a sent.
        if_lem Left (is_ebusy a.0) _ _
          (with_dls-IsCpu cpu (record { pkt = pkt; state = ldst_blocked; reg = reg; u = u })
            (u64 (cpu.pc + 4)) h bytes small (omega arith))
          (with_dls-IsCpu cpu (record { pkt = pkt; state = ldst_sent; reg = reg; u = u })
            (u64 (cpu.pc + 4)) h bytes small (omega arith)))

  load_from-IsCpu :
      (self : ℕ) (cpu : Cpu) (rd addr : ℕ) (width : Option (ℕ × Bool)) (rest : Rest)
      → IsCpu cpu
      → rd < 32
      → Holds Left (load_from e self cpu rd addr width rest)
  unfolding load_from
  load_from-IsCpu self cpu rd addr none rest h k = h
  load_from-IsCpu self cpu rd addr (some (size, u)) rest h k =
      bind_with-Holds HasBytes Left (create_packet cpu.rcv addr size [] packet_read) _
        (create_packet-HasBytes cpu.rcv addr size [] packet_read tt)
        (λ pkt bytes. start_access-IsCpu self cpu pkt rd u rest h bytes k)

  pub load-IsCpu :
      (self : ℕ) (cpu : Cpu) (insn : ℕ) (rest : Rest)
      → IsCpu cpu
      → Holds Left (load e self cpu insn rest)
  unfolding load
  load-IsCpu self cpu insn rest h = bind-Holds Left (get_reg cpu (insn_rs1 insn)) _ (λ base read.
      load_from-IsCpu self cpu (insn_rd insn) (u64 (base + itype_imm insn))
        (load_width (insn_funct3 insn)) rest h (omega arith))

  store_to-IsCpu :
      (self : ℕ) (cpu : Cpu) (addr src : ℕ) (width : Option ℕ) (rest : Rest)
      → IsCpu cpu
      → Holds Left (store_to e self cpu addr src width rest)
  unfolding store_to
  store_to-IsCpu self cpu addr src none rest h = h
  store_to-IsCpu self cpu addr src (some size) rest h =
      bind_with-Holds HasBytes Left (create_packet cpu.rcv addr size (store_le 8 src) packet_write)
        _
        (create_packet-HasBytes cpu.rcv addr size (store_le 8 src) packet_write
          (store_le-AreBytes 8 src))
        (λ pkt bytes. start_access-IsCpu self cpu pkt 0 false rest h bytes (omega arith))

  pub store-IsCpu :
      (self : ℕ) (cpu : Cpu) (insn : ℕ) (rest : Rest)
      → IsCpu cpu
      → Holds Left (store e self cpu insn rest)
  unfolding store
  store-IsCpu self cpu insn rest h = bind-Holds Left (get_reg cpu (insn_rs1 insn)) _ (λ base read.
      bind-Holds Left (get_reg cpu (insn_rs2 insn)) _ (λ src read'.
        store_to-IsCpu self cpu (u64 (base + stype_imm insn)) src (store_width (insn_funct3 insn))
          rest h))
