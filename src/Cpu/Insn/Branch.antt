-- ===== src/Cpu/Insn/Branch.antt =====
-- src/cpu/riscv/simple_riscv64.c: `BTYPE_IMM` and `EXTEND_IMM12`, and the offset that a branch encodes.
use gran.Prelude.{ℕ, ◌≡◌, ◌+◌, ◌-◌, ◌*◌, ◌/◌, ◌%◌, ◌^◌, ◌<◌, ◌≤◌, ◌⊎◌, ◌↔◌, arith, refl, bit_or}
use gran.Prelude.Bits.{bit_or_field, bit_or_comm, bit_or_assoc}
use gran.Packet.{sign_extend}
use gran.Cpu.Insn.{field, btype_imm}

-- A branch with the 13-bit offset `w`, of which the instruction set encodes all but the lowest bit.
abbrev pub b_type : ℕ → ℕ → ℕ → ℕ → ℕ
b_type w rs2 rs1 funct3 =
    w / 2 ^ 12 % 2 * 2 ^ 31
    + (w / 2 ^ 5 % 2 ^ 6 * 2 ^ 25
        + (rs2 * 2 ^ 20
            + (rs1 * 2 ^ 15
                + (funct3 * 2 ^ 12 + (w / 2 % 2 ^ 4 * 2 ^ 8 + (w / 2 ^ 11 % 2 * 2 ^ 7 + 0x63))))))

-- The four pieces of the immediate, put together.
joined :
    (a b c d : ℕ)
    → b < 2 ^ 6
    → c < 2 ^ 4
    → d < 2
    → bit_or (bit_or (bit_or (a * 2 ^ 12) (b * 2 ^ 5)) (c * 2 ^ 1)) (d * 2 ^ 11)
      ≡ a * 2 ^ 12 + (d * 2 ^ 11 + (b * 2 ^ 5 + c * 2 ^ 1))
joined a b c d hb hc hd =
    let low : bit_or (b * 2 ^ 5) (c * 2 ^ 1) ≡ b * 2 ^ 5 + c * 2 ^ 1 =
      bit_or_field 5 b (c * 2 ^ 1) (omega arith) in
    let with_d : bit_or (d * 2 ^ 11) (b * 2 ^ 5 + c * 2 ^ 1)
        ≡ d * 2 ^ 11 + (b * 2 ^ 5 + c * 2 ^ 1) =
      bit_or_field 11 d (b * 2 ^ 5 + c * 2 ^ 1) (omega arith) in
    rw
      (
        bit_or_assoc (a * 2 ^ 12) (b * 2 ^ 5) (c * 2 ^ 1),
        low,
        bit_or_assoc (a * 2 ^ 12) (b * 2 ^ 5 + c * 2 ^ 1) (d * 2 ^ 11),
        bit_or_comm (b * 2 ^ 5 + c * 2 ^ 1) (d * 2 ^ 11),
        with_d,
      )
      (bit_or_field 12 a (d * 2 ^ 11 + (b * 2 ^ 5 + c * 2 ^ 1)) (omega arith))

pieces :
    (w rs2 rs1 funct3 : ℕ)
    → w < 2 ^ 13
    → rs2 < 2 ^ 5
    → rs1 < 2 ^ 5
    → funct3 < 2 ^ 3
    → (field 31 1 (b_type w rs2 rs1 funct3) ≡ w / 2 ^ 12 % 2)
      × (field 25 6 (b_type w rs2 rs1 funct3) ≡ w / 2 ^ 5 % 2 ^ 6)
      × (field 8 4 (b_type w rs2 rs1 funct3) ≡ w / 2 % 2 ^ 4)
      × (field 7 1 (b_type w rs2 rs1 funct3) ≡ w / 2 ^ 11 % 2)
pieces w rs2 rs1 funct3 h k l m = (omega arith, omega arith, omega arith, omega arith)

btype_imm-low :
    (w rs2 rs1 funct3 : ℕ)
    → w < 2 ^ 13
    → w % 2 ≡ 0
    → rs2 < 2 ^ 5
    → rs1 < 2 ^ 5
    → funct3 < 2 ^ 3
    → btype_imm (b_type w rs2 rs1 funct3) ≡ sign_extend 12 (w % 2 ^ 12)
unfolding btype_imm
btype_imm-low w rs2 rs1 funct3 h even k l m =
    let (a, b, c, d) = pieces w rs2 rs1 funct3 h k l m in
    let whole : w / 2 ^ 12 % 2 * 2 ^ 12
          + (w / 2 ^ 11 % 2 * 2 ^ 11 + (w / 2 ^ 5 % 2 ^ 6 * 2 ^ 5 + w / 2 % 2 ^ 4 * 2 ^ 1))
        ≡ w =
      omega arith in
    rw
      (
        a,
        b,
        c,
        d,
        joined (w / 2 ^ 12 % 2) (w / 2 ^ 5 % 2 ^ 6) (w / 2 % 2 ^ 4) (w / 2 ^ 11 % 2) (omega arith)
            (omega arith) (omega arith),
        whole,
      )
      refl

-- A branch of the processor goes to where the instruction set sends it exactly when its offset is in the
-- range from -2048 to 2046: of the 13 bits of an even offset, the sign bit is lost.
pub btype_imm_iff :
    (w rs2 rs1 funct3 : ℕ)
    → w < 2 ^ 13
    → w % 2 ≡ 0
    → rs2 < 2 ^ 5
    → rs1 < 2 ^ 5
    → funct3 < 2 ^ 3
    → (btype_imm (b_type w rs2 rs1 funct3) ≡ sign_extend 13 w)
      ↔ ((w < 2 ^ 11) ⊎ (2 ^ 13 - 2 ^ 11 ≤ w))
btype_imm_iff w rs2 rs1 funct3 h even k l m =
    let low = btype_imm-low w rs2 rs1 funct3 h even k l m in rw low (ground arith)
