-- ===== src/Cpu/Words/Steps.antt =====
-- src/cpu/riscv/simple_riscv64.c: a processor in a well-formed state, and its arithmetic instructions.
use gran.Prelude.{
  ℕ, ◌≡◌, ◌+◌, ◌*◌, ◌%◌, ◌^◌, ◌<◌, Bool, Option, none, some, arith, refl, ltb, ◌==◌, if◌then◌else◌,
  ◌>>◌, assert, u64, ◌∙◌, length, length-set, get_elem?, set, set-AllBelow, AllBelow-get_elem?,
}
use gran.Prelude.Outcome.{Holds, bind-Holds, bind_with-Holds, assert-Holds, if-Holds}
use gran.Component.{Stat}
use gran.Cpu.Insn.{
  insn_rd, insn_rs1, insn_rs2, insn_funct3, insn_funct7, itype_imm, utype_imm, btype_imm, jtype_imm,
  field,
}
use gran.Cpu.State.{LdstState, ldst_idle, ldst_blocked, ldst_sent, ldst_done, Cpu, get_reg, set_reg}
use gran.Cpu.State.File.{HasRegs, HasWords}
use gran.Cpu.Alu.{
  AluResult, value, unknown, undefined, imm_result, op_result, write_back, op_imm, op_imm_32, lui,
  auipc, op, jal, jalr, branch, branch_taken, jump_if,
}
use gran.Cpu.Words.Bytes.{HasBytes}
use gran.Cpu.Words.Values.{IsWord, sign_extend-lt, imm_result-IsWord, op_result-IsWord}

-- The answer to a control packet is never on its way in two clock cycles.
abbrev pub IsControl : LdstState → Type 0
IsControl ldst_idle = Unit {0}
IsControl ldst_blocked = Unit {0}
IsControl ldst_sent = ⊥
IsControl ldst_done = ⊥

-- The state of a processor: 32 registers that hold 64-bit words, a 64-bit program counter, a data packet of
-- bytes, a register to load into that exists, and a control answer that is either sent or blocked.
pub record IsCpu (cpu : Cpu) : Type 0 where
  pub regs : HasRegs cpu
  pub words : HasWords cpu
  pub pc : cpu.pc < 2 ^ 64
  pub bytes : HasBytes cpu.dls.pkt
  pub reg : cpu.dls.reg < 32
  pub control : IsControl cpu.cls.state

abbrev pub Leaves : Stat × Cpu → Type 0
Leaves out = IsCpu out.1

pub with_pc-IsCpu : (cpu : Cpu) (pc : ℕ) → IsCpu cpu → pc < 2 ^ 64 → IsCpu (record cpu { pc = pc })
with_pc-IsCpu cpu pc h k = record {
  regs = h.regs;
  words = h.words;
  pc = k;
  bytes = h.bytes;
  reg = h.reg;
  control = h.control;
}

pub get_reg-lt : (cpu : Cpu) (i : ℕ) → IsCpu cpu → Holds (λ (v : ℕ). v < 2 ^ 64) (get_reg cpu i)
unfolding get_reg
get_reg-lt cpu i h =
    assert-Holds (λ (v : ℕ). v < 2 ^ 64) (ltb i 32) _
      (λ inside.
        if-Holds (λ (v : ℕ). v < 2 ^ 64) (i == 0) (some 0) (get_elem? cpu.regs i) (λ z. omega arith)
          (λ z.
            held (get_elem? cpu.regs i)
              (λ v read. AllBelow-get_elem? (2 ^ 64) cpu.regs i v h.words read)))
  where
    held : (o : Option ℕ) → ((v : ℕ) → o ≡ some v → v < 2 ^ 64) → Holds (λ (v : ℕ). v < 2 ^ 64) o
    held none k = tt
    held (some v) k = k v refl

pub set_reg-IsCpu : (cpu : Cpu) (i v : ℕ) → IsCpu cpu → v < 2 ^ 64 → Holds IsCpu (set_reg cpu i v)
unfolding set_reg
set_reg-IsCpu cpu i v h k = assert-Holds IsCpu (ltb i 32) _ (λ inside.
    if-Holds IsCpu (i == 0) (some cpu)
      (assert (ltb i (length cpu.regs)) >> some (record cpu { regs = set cpu.regs i v })) (λ z. h)
      (λ z. assert-Holds IsCpu (ltb i (length cpu.regs)) _ (λ room. record {
        regs = length-set cpu.regs i v ∙ h.regs;
        words = set-AllBelow (2 ^ 64) cpu.regs i v h.words k;
        pc = h.pc;
        bytes = h.bytes;
        reg = h.reg;
        control = h.control;
      })))

pub write_back-IsCpu :
    (cpu : Cpu) (rd : ℕ) (r : AluResult) → IsCpu cpu → IsWord r → Holds Leaves (write_back cpu rd r)
unfolding write_back
write_back-IsCpu cpu rd unknown h k = h
write_back-IsCpu cpu rd undefined h k = tt
write_back-IsCpu cpu rd (value v) h k =
    bind_with-Holds IsCpu Leaves (set_reg cpu rd v) _ (set_reg-IsCpu cpu rd v h k)
      (λ cpu' next. with_pc-IsCpu cpu' (u64 (cpu'.pc + 4)) next (omega arith))

itype_imm-lt : (insn : ℕ) → itype_imm insn < 2 ^ 64
itype_imm-lt insn = sign_extend-lt 12 (field 20 12 insn % 2 ^ 12) (omega arith) (omega arith)

utype_imm-lt : (insn : ℕ) → utype_imm insn < 2 ^ 64
utype_imm-lt insn = sign_extend-lt 32 (field 12 20 insn * 2 ^ 12) (omega arith) (omega arith)

pub op_imm-IsCpu : (cpu : Cpu) (insn : ℕ) → IsCpu cpu → Holds Leaves (op_imm cpu insn)
unfolding op_imm
op_imm-IsCpu cpu insn h =
    bind_with-Holds (λ (v : ℕ). v < 2 ^ 64) Leaves (get_reg cpu (insn_rs1 insn)) _
      (get_reg-lt cpu (insn_rs1 insn) h)
      (λ src small.
        write_back-IsCpu cpu (insn_rd insn) (imm_result (insn_funct3 insn) src (itype_imm insn)) h
          (imm_result-IsWord (insn_funct3 insn) src (itype_imm insn) small (itype_imm-lt insn)))

pub op_imm_32-IsCpu : (cpu : Cpu) (insn : ℕ) → IsCpu cpu → Holds Leaves (op_imm_32 cpu insn)
unfolding op_imm_32
op_imm_32-IsCpu cpu insn h = unfold op_imm in op_imm-IsCpu cpu insn h

pub lui-IsCpu : (cpu : Cpu) (insn : ℕ) → IsCpu cpu → Holds Leaves (lui cpu insn)
unfolding lui
lui-IsCpu cpu insn h =
    write_back-IsCpu cpu (insn_rd insn) (value (utype_imm insn)) h (utype_imm-lt insn)

pub auipc-IsCpu : (cpu : Cpu) (insn : ℕ) → IsCpu cpu → Holds Leaves (auipc cpu insn)
unfolding auipc
auipc-IsCpu cpu insn h =
    write_back-IsCpu cpu (insn_rd insn) (value (u64 (cpu.pc + utype_imm insn))) h (omega arith)

pub op-IsCpu : (cpu : Cpu) (insn : ℕ) → IsCpu cpu → Holds Leaves (op cpu insn)
unfolding op
op-IsCpu cpu insn h =
    bind_with-Holds (λ (v : ℕ). v < 2 ^ 64) Leaves (get_reg cpu (insn_rs1 insn)) _
      (get_reg-lt cpu (insn_rs1 insn) h)
      (λ a small.
        bind_with-Holds (λ (v : ℕ). v < 2 ^ 64) Leaves (get_reg cpu (insn_rs2 insn)) _
          (get_reg-lt cpu (insn_rs2 insn) h)
          (λ b small'.
            write_back-IsCpu cpu (insn_rd insn)
              (op_result (insn_funct3 insn) (insn_funct7 insn) a b) h
              (op_result-IsWord (insn_funct3 insn) (insn_funct7 insn) a b small small')))

pub jal-IsCpu : (cpu : Cpu) (insn : ℕ) → IsCpu cpu → Holds Leaves (jal cpu insn)
unfolding jal
jal-IsCpu cpu insn h =
    bind_with-Holds IsCpu Leaves (set_reg cpu (insn_rd insn) (u64 (cpu.pc + 4))) _
      (set_reg-IsCpu cpu (insn_rd insn) (u64 (cpu.pc + 4)) h (omega arith))
      (λ cpu' next. with_pc-IsCpu cpu' (u64 (cpu'.pc + jtype_imm insn)) next (omega arith))

pub jalr-IsCpu : (cpu : Cpu) (insn : ℕ) → IsCpu cpu → Holds Leaves (jalr cpu insn)
unfolding jalr
jalr-IsCpu cpu insn h = bind-Holds Leaves (get_reg cpu (insn_rs1 insn)) _ (λ src read.
    bind_with-Holds IsCpu Leaves (set_reg cpu (insn_rd insn) (u64 (cpu.pc + 4))) _
      (set_reg-IsCpu cpu (insn_rd insn) (u64 (cpu.pc + 4)) h (omega arith))
      (λ cpu' next. with_pc-IsCpu cpu' (u64 (cpu'.pc + (src + itype_imm insn))) next (omega arith)))

jump_if-IsCpu :
    (cpu : Cpu) (offset : ℕ) (taken : Option Bool) → IsCpu cpu → Leaves (jump_if cpu offset taken)
unfolding jump_if
jump_if-IsCpu cpu offset none h = h
jump_if-IsCpu cpu offset (some taken) h =
    with_pc-IsCpu cpu (u64 (cpu.pc + (if taken then offset else 4))) h (omega arith)

pub branch-IsCpu : (cpu : Cpu) (insn : ℕ) → IsCpu cpu → Holds Leaves (branch cpu insn)
unfolding branch
branch-IsCpu cpu insn h = bind-Holds Leaves (get_reg cpu (insn_rs1 insn)) _ (λ a read.
    bind-Holds Leaves (get_reg cpu (insn_rs2 insn)) _
      (λ b read'. jump_if-IsCpu cpu (btype_imm insn) (branch_taken (insn_funct3 insn) a b) h))
