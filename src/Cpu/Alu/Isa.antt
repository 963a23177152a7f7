-- ===== src/Cpu/Alu/Isa.antt =====
-- The instruction set: how an instruction between registers is encoded, and what it does to them.
use gran.Prelude.{
  ℕ, ◌≡◌, ◌+◌, ◌-◌, ◌*◌, ◌/◌, ◌%◌, ◌^◌, ◌<◌, bit_and, bit_or, bit_xor, Bool, true, false, ltb, leb,
  if◌then◌else◌, arith, u64,
}
use gran.Cpu.Insn.{insn_op, insn_rd, insn_rs1, insn_rs2, insn_funct3, insn_funct7}

-- The instructions of two registers.
pub data RInsn : Type 0 where
  add sub sll slt sltu xor srl sra or and : RInsn

abbrev pub funct3_of : RInsn → ℕ
funct3_of add = 0
funct3_of sub = 0
funct3_of sll = 1
funct3_of slt = 2
funct3_of sltu = 3
funct3_of xor = 4
funct3_of srl = 5
funct3_of sra = 5
funct3_of or = 6
funct3_of and = 7

abbrev pub funct7_of : RInsn → ℕ
funct7_of sub = 0x20
funct7_of sra = 0x20
funct7_of _ = 0

abbrev pub r_type : ℕ → ℕ → ℕ → ℕ → ℕ → ℕ → ℕ
r_type funct7 rs2 rs1 funct3 rd opcode =
    funct7 * 2 ^ 25 + (rs2 * 2 ^ 20 + (rs1 * 2 ^ 15 + (funct3 * 2 ^ 12 + (rd * 2 ^ 7 + opcode))))

pub r_type-fields :
    (funct7 rs2 rs1 funct3 rd opcode : ℕ)
    → funct7 < 2 ^ 7
    → rs2 < 2 ^ 5
    → rs1 < 2 ^ 5
    → funct3 < 2 ^ 3
    → rd < 2 ^ 5
    → opcode < 2 ^ 7
    → let insn = r_type funct7 rs2 rs1 funct3 rd opcode in
      (insn_op insn ≡ opcode)
      × (insn_rd insn ≡ rd)
      × (insn_funct3 insn ≡ funct3)
      × (insn_rs1 insn ≡ rs1)
      × (insn_rs2 insn ≡ rs2)
      × (insn_funct7 insn ≡ funct7)
r_type-fields funct7 rs2 rs1 funct3 rd opcode a b c d e f =
    (omega arith, omega arith, omega arith, omega arith, omega arith, omega arith)

abbrev pub is_negative : ℕ → Bool
is_negative a = leb (2 ^ 63) a

-- The comparison of the two's complement values.
abbrev pub less_than : ℕ → ℕ → Bool
less_than a b =
    if is_negative a
    then (if is_negative b then ltb a b else true)
    else (if is_negative b then false else ltb a b)

-- The quotient by `2 ^ n`, rounded down, of the two's complement value.
abbrev pub arithmetic_shift : ℕ → ℕ → ℕ
arithmetic_shift a n =
    if is_negative a then 2 ^ 64 - ((2 ^ 64 - a + (2 ^ n - 1)) / 2 ^ n) else a / 2 ^ n

-- What an instruction computes; shifts look at the low 6 bits of their second register.
abbrev pub meaning : RInsn → ℕ → ℕ → ℕ
meaning add a b = u64 (a + b)
meaning sub a b = u64 (a + (2 ^ 64 - b))
meaning sll a b = u64 (a * 2 ^ (b % 64))
meaning slt a b = if less_than a b then 1 else 0
meaning sltu a b = if ltb a b then 1 else 0
meaning xor a b = bit_xor a b
meaning srl a b = a / 2 ^ (b % 64)
meaning sra a b = arithmetic_shift a (b % 64)
meaning or a b = bit_or a b
meaning and a b = bit_and a b
