-- ===== src/Cpu/Words/Values.antt =====
-- src/cpu/riscv/simple_riscv64.c: the range of what the arithmetic instructions compute.
use native.Mathlib.Nat.{div-le_self, pow-le-pow_right}
use gran.Prelude.{
  ℕ, ◌+◌, ◌-◌, ◌/◌, ◌^◌, ◌<◌, ◌≤◌, Bool, true, false, not, arith, ltb, ◌==◌, if◌then◌else◌,
  Bool-cases, inl, inr, ltb→lt,
}
use gran.Prelude.Bits.{bit_and-lt, bit_or-lt, bit_xor-lt}
use gran.Prelude.Outcome.{if_lem}
use gran.Packet.{sign_extend}
use gran.Cpu.Insn.{shamt}
use gran.Cpu.Alu.{
  AluResult, value, unknown, undefined, imm_result, op_result, shift_by, shift_left, shift_right,
  shift_right_signed, of_bool, lt_signed,
}
use gran.Cpu.Alu.Shift.{shift_right_signed-lt}

abbrev pub IsWord : AluResult → Type 0
IsWord (value v) = v < 2 ^ 64
IsWord unknown = Unit {0}
IsWord undefined = Unit {0}

if-lt : (b : Bool) (x y n : ℕ) → x < n → y < n → (if b then x else y) < n
if-lt true x y n h k = h
if-lt false x y n h k = k

of_bool-lt : (b : Bool) → of_bool b < 2 ^ 64
of_bool-lt b = if-lt b 1 0 (2 ^ 64) (omega arith) (omega arith)

shift_right-lt : (a n : ℕ) → a < 2 ^ 64 → shift_right a n < 2 ^ 64
unfolding shift_right
shift_right-lt a n h = omega (arith, div-le_self a (2 ^ n))

shift_left-lt : (a n : ℕ) → shift_left a n < 2 ^ 64
unfolding shift_left
shift_left-lt a n = omega arith

pub sign_extend-lt : (w v : ℕ) → v < 2 ^ w → w ≤ 64 → sign_extend w v < 2 ^ 64
sign_extend-lt w v h k =
    let top : 2 ^ w ≤ 2 ^ 64 = pow-le-pow_right {n = 2} (omega arith) {i = w} {j = 64} k in
    if-lt (ltb v (2 ^ (w - 1))) v (v + (2 ^ 64 - 2 ^ w)) (2 ^ 64) (omega (arith, h, top))
      (omega (arith, h, top))

pub imm_result-IsWord :
    (funct3 src imm : ℕ) → src < 2 ^ 64 → imm < 2 ^ 64 → IsWord (imm_result funct3 src imm)
unfolding imm_result
imm_result-IsWord funct3 src imm h k = if_lem IsWord (funct3 == 0b000) _ _ (omega arith) (
    if_lem IsWord (funct3 == 0b010) _ _ (of_bool-lt (lt_signed src imm)) (
      if_lem IsWord (funct3 == 0b011) _ _ (of_bool-lt (ltb src imm)) (
        if_lem IsWord (funct3 == 0b111) _ _ (bit_and-lt 64 src imm h) (
          if_lem IsWord (funct3 == 0b110) _ _ (bit_or-lt 64 src imm h k) (
            if_lem IsWord (funct3 == 0b100) _ _ (bit_xor-lt 64 src imm h k) (
              if_lem IsWord (funct3 == 0b001) _ _ (shift_left-lt src (shamt imm)) (
                if_lem IsWord (funct3 == 0b101) _ _
                  (if-lt (not (imm / 2 ^ 5 == 0)) _ _ (2 ^ 64) (shift_right-lt src (shamt imm) h)
                    (shift_right_signed-lt src (shamt imm) h (omega arith)))
                  tt)))))))

shift_by-IsWord : (f : ℕ → ℕ → ℕ) (a n : ℕ) → (n < 64 → f a n < 2 ^ 64) → IsWord (shift_by f a n)
unfolding shift_by
shift_by-IsWord f a n h = elim (Bool-cases (ltb n 64)) [
  | inl b ↦ rw b (h (ltb→lt n 64 b))
  | inr b ↦ rw b tt
]

pub op_result-IsWord :
    (funct3 funct7 a b : ℕ) → a < 2 ^ 64 → b < 2 ^ 64 → IsWord (op_result funct3 funct7 a b)
unfolding op_result
op_result-IsWord funct3 funct7 a b h k =
    if_lem IsWord (funct3 == 0b000) _ _
      (if-lt (not (funct7 == 0)) _ _ (2 ^ 64) (omega arith) (omega arith))
      (if_lem IsWord (funct3 == 0b010) _ _ (of_bool-lt (lt_signed a b)) (
        if_lem IsWord (funct3 == 0b011) _ _ (of_bool-lt (ltb a b)) (
          if_lem IsWord (funct3 == 0b111) _ _ (bit_and-lt 64 a b h) (
            if_lem IsWord (funct3 == 0b110) _ _ (bit_or-lt 64 a b h k) (
              if_lem IsWord (funct3 == 0b100) _ _ (bit_xor-lt 64 a b h k) (
                if_lem IsWord (funct3 == 0b001) _ _
                  (shift_by-IsWord shift_left a b (λ n. shift_left-lt a b))
                  (if_lem IsWord (funct3 == 0b101) _ _
                    (if_lem IsWord (not (funct7 == 0)) _ _
                      (shift_by-IsWord shift_right a b (λ n. shift_right-lt a b h))
                      (shift_by-IsWord shift_right_signed a b (λ n. shift_right_signed-lt a b h n)))
                    tt)))))))
