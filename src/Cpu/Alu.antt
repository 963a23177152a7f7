-- ===== src/Cpu/Alu.antt =====
-- src/cpu/riscv/simple_riscv64.c: the instructions that touch no memory. Signed sums wrap. A shift by 64 or
-- more is undefined in C.
pub mod Immediate
pub mod Isa
pub mod Refine
pub mod Shift
use gran.Prelude.{
  ℕ, ◌+◌, ◌-◌, ◌*◌, ◌/◌, ◌%◌, ◌^◌, bit_and, bit_or, bit_xor, Bool, true, false, not, Option, none,
  some, ltb, leb, ◌==◌, if◌then◌else◌, ◌>>=◌, u64,
}
use gran.Component.{Stat, ok, enosuch}
use gran.Cpu.Insn.{
  insn_rd, insn_rs1, insn_rs2, insn_funct3, insn_funct7, itype_imm, utype_imm, btype_imm, jtype_imm,
  shamt, extend_imm12,
}
use gran.Cpu.State.{Cpu, get_reg, set_reg}

-- `(int64_t)a < (int64_t)b`
unfoldable pub lt_signed : ℕ → ℕ → Bool
lt_signed a b = ltb (u64 (a + 2 ^ 63)) (u64 (b + 2 ^ 63))

abbrev pub of_bool : Bool → ℕ
of_bool b = if b then 1 else 0

-- `a << n`, `a >> n` and `(int64_t)a >> n`, for `n < 64`.
unfoldable pub shift_left : ℕ → ℕ → ℕ
shift_left a n = u64 (a * 2 ^ n)

unfoldable pub shift_right : ℕ → ℕ → ℕ
shift_right a n = a / 2 ^ n

unfoldable pub shift_right_signed : ℕ → ℕ → ℕ
shift_right_signed a n = if ltb a (2 ^ 63) then a / 2 ^ n else a / 2 ^ n + (2 ^ 64 - 2 ^ (64 - n))

-- What the `switch` of an instruction computes: a value, an unknown function code, or an operation that C
-- leaves undefined.
pub data AluResult : Type 0 where
  value : ℕ → AluResult
  unknown : AluResult
  undefined : AluResult

-- The `switch` of `op_imm`, and of `op_imm_32`.
unfoldable pub imm_result : ℕ → ℕ → ℕ → AluResult
imm_result funct3 src imm =
    if funct3 == 0b000
    then value (u64 (src + imm))
    else if funct3 == 0b010
    then value (of_bool (lt_signed src imm))
    else if funct3 == 0b011
    then value (of_bool (ltb src imm))
    else if funct3 == 0b111
    then value (bit_and src imm)
    else if funct3 == 0b110
    then value (bit_or src imm)
    else if funct3 == 0b100
    then value (bit_xor src imm)
    else if funct3 == 0b001
    then value (shift_left src (shamt imm))
    else if funct3 == 0b101
    then value (
        if not (imm / 2 ^ 5 == 0)
        then shift_right src (shamt imm)
        else shift_right_signed src (shamt imm))
    else unknown

-- A shift by a register.
unfoldable pub shift_by : (ℕ → ℕ → ℕ) → ℕ → ℕ → AluResult
shift_by f a n = if ltb n 64 then value (f a n) else undefined

-- The `switch` of `op`.
unfoldable pub op_result : ℕ → ℕ → ℕ → ℕ → AluResult
op_result funct3 funct7 src1 src2 =
    if funct3 == 0b000
    then value (if not (funct7 == 0) then u64 (src1 + 2 ^ 64 - src2) else u64 (src1 + src2))
    else if funct3 == 0b010
    then value (of_bool (lt_signed src1 src2))
    else if funct3 == 0b011
    then value (of_bool (ltb src1 src2))
    else if funct3 == 0b111
    then value (bit_and src1 src2)
    else if funct3 == 0b110
    then value (bit_or src1 src2)
    else if funct3 == 0b100
    then value (bit_xor src1 src2)
    else if funct3 == 0b001
    then shift_by shift_left src1 src2
    else if funct3 == 0b101
    then (if not (funct7 == 0)
        then shift_by shift_right src1 src2
        else shift_by shift_right_signed src1 src2)
    else unknown

-- `set_reg(cpu, rd, dst)` and `cpu->pc += 4`, or the error.
unfoldable pub write_back : Cpu → ℕ → AluResult → Option (Stat × Cpu)
write_back cpu rd unknown = some (enosuch, cpu)
write_back cpu rd undefined = none
write_back cpu rd (value dst) = do
  cpu' ← set_reg cpu rd dst
  some (ok, record cpu' { pc = u64 (cpu'.pc + 4) })

unfoldable pub op_imm : Cpu → ℕ → Option (Stat × Cpu)
op_imm cpu insn = do
  src ← get_reg cpu (insn_rs1 insn)
  write_back cpu (insn_rd insn) (imm_result (insn_funct3 insn) src (itype_imm insn))

unfoldable pub op_imm_32 : Cpu → ℕ → Option (Stat × Cpu)
op_imm_32 cpu insn = do
  src ← get_reg cpu (insn_rs1 insn)
  write_back cpu (insn_rd insn) (imm_result (insn_funct3 insn) src (itype_imm insn))

unfoldable pub lui : Cpu → ℕ → Option (Stat × Cpu)
lui cpu insn = write_back cpu (insn_rd insn) (value (utype_imm insn))

unfoldable pub auipc : Cpu → ℕ → Option (Stat × Cpu)
auipc cpu insn = write_back cpu (insn_rd insn) (value (u64 (cpu.pc + utype_imm insn)))

unfoldable pub op : Cpu → ℕ → Option (Stat × Cpu)
op cpu insn = do
  src1 ← get_reg cpu (insn_rs1 insn)
  src2 ← get_reg cpu (insn_rs2 insn)
  write_back cpu (insn_rd insn) (op_result (insn_funct3 insn) (insn_funct7 insn) src1 src2)

unfoldable pub jal : Cpu → ℕ → Option (Stat × Cpu)
jal cpu insn = do
  cpu' ← set_reg cpu (insn_rd insn) (u64 (cpu.pc + 4))
  some (ok, record cpu' { pc = u64 (cpu'.pc + jtype_imm insn) })

unfoldable pub jalr : Cpu → ℕ → Option (Stat × Cpu)
jalr cpu insn = do
  src ← get_reg cpu (insn_rs1 insn)
  cpu' ← set_reg cpu (insn_rd insn) (u64 (cpu.pc + 4))
  some (ok, record cpu' { pc = u64 (cpu'.pc + (src + itype_imm insn)) })

-- Whether a branch is taken; `none` is an unknown function code.
unfoldable pub branch_taken : ℕ → ℕ → ℕ → Option Bool
branch_taken funct3 src1 src2 =
    if funct3 == 0b000
    then some (src1 == src2)
    else if funct3 == 0b001
    then some (not (src1 == src2))
    else if funct3 == 0b100
    then some (lt_signed src1 src2)
    else if funct3 == 0b110
    then some (ltb src1 src2)
    else if funct3 == 0b101
    then some (not (lt_signed src1 src2))
    else if funct3 == 0b111
    then some (leb src2 src1)
    else none

unfoldable pub jump_if : Cpu → ℕ → Option Bool → Stat × Cpu
jump_if cpu offset none = (enosuch, cpu)
jump_if cpu offset (some taken) =
    (ok, record cpu { pc = u64 (cpu.pc + (if taken then offset else 4)) })

unfoldable pub branch : Cpu → ℕ → Option (Stat × Cpu)
branch cpu insn = do
  src1 ← get_reg cpu (insn_rs1 insn)
  src2 ← get_reg cpu (insn_rs2 insn)
  some (jump_if cpu (btype_imm insn) (branch_taken (insn_funct3 insn) src1 src2))
