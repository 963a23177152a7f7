-- ===== src/Cpu/Alu/Refine.antt =====
-- src/cpu/riscv/simple_riscv64.c: `op` against the instruction set.
use gran.Prelude.{ℕ, ◌≡◌, ◌+◌, ◌%◌, ◌^◌, ◌<◌, some, arith, refl, ap, ◌∙◌, u64, lt→ltb}
use gran.Component.{ok}
use gran.Cpu.Insn.{insn_rd, insn_rs1, insn_rs2, insn_funct3, insn_funct7}
use gran.Cpu.State.{Cpu, get_reg}
use gran.Cpu.State.File.{
  HasRegs, HasWords, reg_at, written, get_reg-reg_at, with_reg, set_reg-with_reg, reg_at-with_reg,
  reg_at-lt,
}
use gran.Cpu.Alu.{
  value, op_result, shift_by, shift_left, shift_right, shift_right_signed, write_back, op,
}
use gran.Cpu.Alu.Isa.{
  RInsn, add, sub, sll, slt, sltu, xor, srl, sra, or, and, funct3_of, funct7_of, r_type,
  r_type-fields, meaning,
}
use gran.Cpu.Alu.Shift.{lt_signed-less_than, shift_right_signed-arithmetic_shift}

-- The instruction that is executed in place of one: the two right shifts are exchanged.
abbrev pub executed : RInsn → RInsn
executed srl = sra
executed sra = srl
executed i = i

-- A shift has an amount for which C defines it.
abbrev pub IsDefined : RInsn → ℕ → Type 0
IsDefined sll b = b < 64
IsDefined srl b = b < 64
IsDefined sra b = b < 64
IsDefined _ b = Unit {0}

shift_by-value : (f : ℕ → ℕ → ℕ) (a b : ℕ) → b < 64 → shift_by f a b ≡ value (f a b)
unfolding shift_by
shift_by-value f a b h = rw (lt→ltb b 64 h) refl

pub op_result-meaning :
    (i : RInsn) (a b : ℕ)
    → a < 2 ^ 64
    → b < 2 ^ 64
    → IsDefined i b
    → op_result (funct3_of i) (funct7_of i) a b ≡ value (meaning (executed i) a b)
unfolding op_result
op_result-meaning add a b h k d = refl
op_result-meaning sub a b h k d = ap value (omega arith)
op_result-meaning sll a b h k d =
    let low : b % 64 ≡ b = omega (arith, d) in
    rw low (shift_by-value shift_left a b d ∙ (unfold shift_left in refl))
op_result-meaning slt a b h k d = rw (lt_signed-less_than a b h k) refl
op_result-meaning sltu a b h k d = refl
op_result-meaning xor a b h k d = refl
op_result-meaning srl a b h k d =
    let low : b % 64 ≡ b = omega (arith, d) in
    rw low (
      shift_by-value shift_right_signed a b d
      ∙ ap value (shift_right_signed-arithmetic_shift a b h d))
op_result-meaning sra a b h k d =
    let low : b % 64 ≡ b = omega (arith, d) in
    rw low (shift_by-value shift_right a b d ∙ (unfold shift_right in refl))
op_result-meaning or a b h k d = refl
op_result-meaning and a b h k d = refl

-- What an instruction between registers does to the program: the register `rd` gets `v`, unless it is `x0`,
-- and the program counter moves on by one instruction.
pub record Advanced (cpu cpu' : Cpu) (rd v : ℕ) : Type 0 where
  pub file : (j : ℕ) → reg_at cpu' j ≡ written (reg_at cpu) rd v j
  pub next : cpu'.pc ≡ u64 (cpu.pc + 4)

pub write_back-Advanced :
    (cpu : Cpu) (rd v : ℕ)
    → HasRegs cpu
    → rd < 32
    → (cpu' : Cpu) × (write_back cpu rd (value v) ≡ some (ok, cpu')) × Advanced cpu cpu' rd v
unfolding write_back
write_back-Advanced cpu rd v h k = (
  record (with_reg cpu rd v) { pc = u64 (cpu.pc + 4) },
  rw (set_reg-with_reg cpu rd v h k) refl,
  record { file = λ j. unfold reg_at in reg_at-with_reg cpu rd v j h k; next = refl },
)

op-fields :
    (cpu : Cpu) (insn funct7 rs2 rs1 funct3 rd a b : ℕ)
    → insn_rd insn ≡ rd
    → insn_funct3 insn ≡ funct3
    → insn_rs1 insn ≡ rs1
    → insn_rs2 insn ≡ rs2
    → insn_funct7 insn ≡ funct7
    → get_reg cpu rs1 ≡ some a
    → get_reg cpu rs2 ≡ some b
    → op cpu insn ≡ write_back cpu rd (op_result funct3 funct7 a b)
unfolding op
op-fields cpu insn funct7 rs2 rs1 funct3 rd a b d f g h k x y = rw (d, f, g, h, k, x, y) refl

small_codes : (i : RInsn) → (funct3_of i < 2 ^ 3) × (funct7_of i < 2 ^ 7)
small_codes add = (omega arith, omega arith)
small_codes sub = (omega arith, omega arith)
small_codes sll = (omega arith, omega arith)
small_codes slt = (omega arith, omega arith)
small_codes sltu = (omega arith, omega arith)
small_codes xor = (omega arith, omega arith)
small_codes srl = (omega arith, omega arith)
small_codes sra = (omega arith, omega arith)
small_codes or = (omega arith, omega arith)
small_codes and = (omega arith, omega arith)

-- `op` executes an encoded instruction between registers as the instruction set says, but with the two right
-- shifts exchanged: it returns `OK`, the register `rd` gets the value unless it is `x0`, every other
-- register keeps its own, and the program counter moves on by 4. The amount of a shift must be
-- below 64, as C wants it.
pub op-Advanced :
    (cpu : Cpu) (i : RInsn) (rd rs1 rs2 : ℕ)
    → HasRegs cpu
    → HasWords cpu
    → rd < 32
    → rs1 < 32
    → rs2 < 32
    → IsDefined i (reg_at cpu rs2)
    → (cpu' : Cpu) × (op cpu (r_type (funct7_of i) rs2 rs1 (funct3_of i) rd 0x33) ≡ some (ok, cpu'))
      × Advanced cpu cpu' rd (meaning (executed i) (reg_at cpu rs1) (reg_at cpu rs2))
op-Advanced cpu i rd rs1 rs2 regs words d s t defined =
    let (small3, small7) = small_codes i in
    let (_, at_rd, at_f3, at_rs1, at_rs2, at_f7) =
      r_type-fields (funct7_of i) rs2 rs1 (funct3_of i) rd 0x33 small7 t s small3 d (omega arith) in
    let runs =
      op-fields cpu (r_type (funct7_of i) rs2 rs1 (funct3_of i) rd 0x33) (funct7_of i) rs2 rs1
        (funct3_of i) rd (reg_at cpu rs1) (reg_at cpu rs2) at_rd at_f3 at_rs1 at_rs2 at_f7
        (get_reg-reg_at cpu rs1 regs s) (get_reg-reg_at cpu rs2 regs t) in
    let computes =
      op_result-meaning i (reg_at cpu rs1) (reg_at cpu rs2) (reg_at-lt cpu rs1 words)
        (reg_at-lt cpu rs2 words) defined in
    let (cpu', back, after) =
      write_back-Advanced cpu rd (meaning (executed i) (reg_at cpu rs1) (reg_at cpu rs2)) regs d in
    (cpu', runs ∙ ap (write_back cpu rd) computes ∙ back, after)
