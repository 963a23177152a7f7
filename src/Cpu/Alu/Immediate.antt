-- ===== src/Cpu/Alu/Immediate.antt =====
-- src/cpu/riscv/simple_riscv64.c: `op_imm` against the instruction set.
use gran.Prelude.{ℕ, ◌≡◌, ◌+◌, ◌*◌, ◌%◌, ◌^◌, ◌<◌, some, arith, refl, ap, ◌∙◌}
use gran.Component.{ok}
use gran.Packet.{sign_extend}
use gran.Cpu.Insn.{field, insn_rd, insn_rs1, insn_funct3, itype_imm}
use gran.Cpu.State.{Cpu, get_reg}
use gran.Cpu.State.File.{HasRegs, HasWords, reg_at, get_reg-reg_at, reg_at-lt}
use gran.Cpu.Alu.{value, imm_result, shift_left, write_back, op_imm}
use gran.Cpu.Alu.Isa.{RInsn, add, sll, slt, sltu, xor, or, and, funct3_of, meaning}
use gran.Cpu.Alu.Shift.{lt_signed-less_than}
use gran.Cpu.Alu.Refine.{Advanced, write_back-Advanced}
use gran.Cpu.Words.Values.{sign_extend-lt}

-- The instructions with an immediate form, but for the right shifts.
pub data HasImmediate : RInsn → Type 0 where
  addi : HasImmediate add
  slli : HasImmediate sll
  slti : HasImmediate slt
  sltiu : HasImmediate sltu
  xori : HasImmediate xor
  ori : HasImmediate or
  andi : HasImmediate and

-- An instruction with the 12-bit immediate `w`.
abbrev pub i_type : ℕ → ℕ → ℕ → ℕ → ℕ
i_type w rs1 funct3 rd = w * 2 ^ 20 + (rs1 * 2 ^ 15 + (funct3 * 2 ^ 12 + (rd * 2 ^ 7 + 0x13)))

i_type-fields :
    (w rs1 funct3 rd : ℕ)
    → w < 2 ^ 12
    → rs1 < 2 ^ 5
    → funct3 < 2 ^ 3
    → rd < 2 ^ 5
    → (insn_rd (i_type w rs1 funct3 rd) ≡ rd)
      × (insn_funct3 (i_type w rs1 funct3 rd) ≡ funct3)
      × (insn_rs1 (i_type w rs1 funct3 rd) ≡ rs1)
      × (field 20 12 (i_type w rs1 funct3 rd) ≡ w)
i_type-fields w rs1 funct3 rd h k l m = (omega arith, omega arith, omega arith, omega arith)

imm_result-meaning :
    (i : RInsn) (a b : ℕ)
    → HasImmediate i
    → a < 2 ^ 64
    → b < 2 ^ 64
    → imm_result (funct3_of i) a b ≡ value (meaning i a b)
unfolding imm_result shift_left
imm_result-meaning _ a b addi h k = refl
imm_result-meaning _ a b slli h k = refl
imm_result-meaning _ a b slti h k = rw (lt_signed-less_than a b h k) refl
imm_result-meaning _ a b sltiu h k = refl
imm_result-meaning _ a b xori h k = refl
imm_result-meaning _ a b ori h k = refl
imm_result-meaning _ a b andi h k = refl

op_imm-fields :
    (cpu : Cpu) (insn w rs1 funct3 rd a : ℕ)
    → insn_rd insn ≡ rd
    → insn_funct3 insn ≡ funct3
    → insn_rs1 insn ≡ rs1
    → itype_imm insn ≡ w
    → get_reg cpu rs1 ≡ some a
    → op_imm cpu insn ≡ write_back cpu rd (imm_result funct3 a w)
unfolding op_imm
op_imm-fields cpu insn w rs1 funct3 rd a d f g h x = rw (d, f, g, h, x) refl

small_code : (i : RInsn) → HasImmediate i → funct3_of i < 2 ^ 3
small_code _ addi = omega arith
small_code _ slli = omega arith
small_code _ slti = omega arith
small_code _ sltiu = omega arith
small_code _ xori = omega arith
small_code _ ori = omega arith
small_code _ andi = omega arith

-- `op_imm` executes an encoded instruction with an immediate, other than a right shift, as the instruction set
-- says: it returns `OK`, the register `rd` gets the value for the sign-extended immediate unless it is
-- `x0`, every other register keeps its own, and the program counter moves on by 4.
pub op_imm-Advanced :
    (cpu : Cpu) (i : RInsn) (w rd rs1 : ℕ)
    → HasImmediate i
    → HasRegs cpu
    → HasWords cpu
    → w < 2 ^ 12
    → rd < 32
    → rs1 < 32
    → (cpu' : Cpu) × (op_imm cpu (i_type w rs1 (funct3_of i) rd) ≡ some (ok, cpu'))
      × Advanced cpu cpu' rd (meaning i (reg_at cpu rs1) (sign_extend 12 w))
op_imm-Advanced cpu i w rd rs1 imm regs words h d s =
    let (at_rd, at_f3, at_rs1, at_w) =
      i_type-fields w rs1 (funct3_of i) rd h s (small_code i imm) d in
    let low : w % 2 ^ 12 ≡ w = omega arith in
    let at_imm : itype_imm (i_type w rs1 (funct3_of i) rd) ≡ sign_extend 12 w =
      ap (λ (v : ℕ). sign_extend 12 (v % 2 ^ 12)) at_w ∙ ap (sign_extend 12) low in
    let runs =
      op_imm-fields cpu (i_type w rs1 (funct3_of i) rd) (sign_extend 12 w) rs1 (funct3_of i) rd
        (reg_at cpu rs1) at_rd at_f3 at_rs1 at_imm (get_reg-reg_at cpu rs1 regs s) in
    let computes =
      imm_result-meaning i (reg_at cpu rs1) (sign_extend 12 w) imm (reg_at-lt cpu rs1 words)
        (sign_extend-lt 12 w h (omega arith)) in
    let (cpu', back, after) =
      write_back-Advanced cpu rd (meaning i (reg_at cpu rs1) (sign_extend 12 w)) regs d in
    (cpu', runs ∙ ap (write_back cpu rd) computes ∙ back, after)
