-- ===== src/Cpu/Insn.antt =====
-- src/cpu/riscv/simple_riscv64.c: the bit fields of an instruction, its immediates and its opcodes. A signed
-- left shift that reaches the sign bit wraps, as the compiler defines it.
pub mod Branch
use gran.Prelude.{ℕ, ◌*◌, ◌/◌, ◌%◌, ◌^◌, bit_or}
use gran.Packet.{sign_extend}

-- A bit field of `w` bits from bit `lo` on.
abbrev pub field : ℕ → ℕ → ℕ → ℕ
field lo w insn = insn / 2 ^ lo % 2 ^ w

abbrev pub insn_op : ℕ → ℕ
insn_op insn = field 0 7 insn

abbrev pub insn_rd : ℕ → ℕ
insn_rd insn = field 7 5 insn

abbrev pub insn_funct3 : ℕ → ℕ
insn_funct3 insn = field 12 3 insn

abbrev pub insn_rs1 : ℕ → ℕ
insn_rs1 insn = field 15 5 insn

abbrev pub insn_rs2 : ℕ → ℕ
insn_rs2 insn = field 20 5 insn

abbrev pub insn_funct7 : ℕ → ℕ
insn_funct7 insn = field 25 7 insn

-- `EXTEND_IMM12` and `EXTEND_IMM20`, widened to 64 bits: what lies above 12 or 20 bits is shifted out.
abbrev pub extend_imm12 : ℕ → ℕ
extend_imm12 x = sign_extend 12 (x % 2 ^ 12)

abbrev pub extend_imm20 : ℕ → ℕ
extend_imm20 x = sign_extend 20 (x % 2 ^ 20)

abbrev pub shamt : ℕ → ℕ
shamt x = x % 2 ^ 6

abbrev pub itype_imm : ℕ → ℕ
itype_imm insn = extend_imm12 (field 20 12 insn)

-- `insn.utype.imm << 12`, an `int` that is widened to 64 bits.
abbrev pub utype_imm : ℕ → ℕ
utype_imm insn = sign_extend 32 (field 12 20 insn * 2 ^ 12)

unfoldable pub stype_imm : ℕ → ℕ
stype_imm insn = extend_imm12 (bit_or (field 25 7 insn * 2 ^ 5) (field 7 5 insn))

unfoldable pub btype_imm : ℕ → ℕ
btype_imm insn = extend_imm12 (
    bit_or
      (bit_or (bit_or (field 31 1 insn * 2 ^ 12) (field 25 6 insn * 2 ^ 5))
        (field 8 4 insn * 2 ^ 1))
      (field 7 1 insn * 2 ^ 11))

unfoldable pub jtype_imm : ℕ → ℕ
jtype_imm insn = extend_imm20 (
    bit_or
      (bit_or (bit_or (field 31 1 insn * 2 ^ 20) (field 21 10 insn * 2 ^ 1))
        (field 20 1 insn * 2 ^ 11))
      (field 12 8 insn * 2 ^ 12))

abbrev pub opcode_load : ℕ
opcode_load = 0x03

abbrev pub opcode_misc_mem : ℕ
opcode_misc_mem = 0x0f

abbrev pub opcode_op_imm : ℕ
opcode_op_imm = 0x13

abbrev pub opcode_auipc : ℕ
opcode_auipc = 0x17

abbrev pub opcode_op_imm_32 : ℕ
opcode_op_imm_32 = 0x1b

abbrev pub opcode_store : ℕ
opcode_store = 0x23

abbrev pub opcode_op : ℕ
opcode_op = 0x33

abbrev pub opcode_lui : ℕ
opcode_lui = 0x37

abbrev pub opcode_branch : ℕ
opcode_branch = 0x63

abbrev pub opcode_jalr : ℕ
opcode_jalr = 0x67

abbrev pub opcode_jal : ℕ
opcode_jal = 0x6f

abbrev pub opcode_system : ℕ
opcode_system = 0x73
