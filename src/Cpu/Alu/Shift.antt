-- ===== src/Cpu/Alu/Shift.antt =====
-- src/cpu/riscv/simple_riscv64.c: comparisons and shifts of signed values.
use native.Mathlib.Nat.{
  add-mul, div-eq_of_lt-le, div-lt_iff_lt-mul, div-le_self, div-mul-le_self, lt-div-mul-add,
  one-le-pow, pow-le-pow_right,
}
use gran.Prelude.{
  ℕ, ◌≡◌, ◌+◌, ◌-◌, ◌*◌, ◌/◌, ◌^◌, ◌<◌, ◌≤◌, true, false, ltb, leb, arith, refl, ap, sym, ◌∙◌,
  Bool-cases, inl, inr,
}
use gran.Prelude.Bits.{two-pow-add}
use gran.Cpu.Alu.{lt_signed, shift_right_signed}
use gran.Cpu.Alu.Isa.{less_than, arithmetic_shift}

pub lt_signed-less_than : (a b : ℕ) → a < 2 ^ 64 → b < 2 ^ 64 → lt_signed a b ≡ less_than a b
unfolding lt_signed
lt_signed-less_than a b h k = ground arith

quotient : (a p q w : ℕ) → 0 < p → q * p ≡ w → a < w → (w - a + (p - 1)) / p ≡ q - a / p
quotient a p q w pos whole h =
    let low : a / p * p ≤ a = div-mul-le_self a p in
    let high : a < a / p * p + p = lt-div-mul-add pos in
    let below : a / p < q = (div-lt_iff_lt-mul pos).1 (omega arith) in
    let split : q ≡ a / p + (q - a / p) = omega arith in
    let parts : (a / p + (q - a / p)) * p ≡ a / p * p + (q - a / p) * p =
      add-mul (a / p) (q - a / p) p in
    let total : q * p ≡ a / p * p + (q - a / p) * p = ap (λ (t : ℕ). t * p) split ∙ parts in
    let next : (q - a / p + 1) * p ≡ (q - a / p) * p + p = omega (arith, add-mul (q - a / p) 1 p) in
    div-eq_of_lt-le p (omega arith) (omega arith)

pub shift_right_signed-arithmetic_shift :
    (a n : ℕ) → a < 2 ^ 64 → n < 64 → shift_right_signed a n ≡ arithmetic_shift a n
unfolding shift_right_signed
shift_right_signed-arithmetic_shift a n h k = elim (Bool-cases (leb (2 ^ 63) a)) [
  | inl neg ↦
      let small : ltb a (2 ^ 63) ≡ false = ground arith in
      let all_bits : 64 - n + n ≡ 64 = omega arith in
      let whole : 2 ^ (64 - n) * 2 ^ n ≡ 2 ^ 64 =
        sym (two-pow-add (64 - n) n) ∙ ap (λ (t : ℕ). 2 ^ t) all_bits in
      let pos : 0 < 2 ^ n = one-le-pow n 2 (omega arith) in
      let below : a / 2 ^ n < 2 ^ (64 - n) = (div-lt_iff_lt-mul pos).1 (rw whole h) in
      let q = quotient a (2 ^ n) (2 ^ (64 - n)) (2 ^ 64) pos whole h in
      let room : 2 ^ (64 - n) ≤ 2 ^ 64 = pow-le-pow_right (omega arith) {j = 64} (omega arith) in
      rw (neg, small) (omega (arith, q, below, room))
  | inr pos ↦ let small : ltb a (2 ^ 63) ≡ true = ground arith in rw (pos, small) refl
]

pub shift_right_signed-lt : (a n : ℕ) → a < 2 ^ 64 → n < 64 → shift_right_signed a n < 2 ^ 64
unfolding shift_right_signed
shift_right_signed-lt a n h k =
    let all_bits : 64 - n + n ≡ 64 = omega arith in
    let whole : 2 ^ (64 - n) * 2 ^ n ≡ 2 ^ 64 =
      sym (two-pow-add (64 - n) n) ∙ ap (λ (t : ℕ). 2 ^ t) all_bits in
    let pos : 0 < 2 ^ n = one-le-pow n 2 (omega arith) in
    let below : a / 2 ^ n < 2 ^ (64 - n) = (div-lt_iff_lt-mul pos).1 (rw whole h) in
    let room : 2 ^ (64 - n) ≤ 2 ^ 64 = pow-le-pow_right (omega arith) {j = 64} (omega arith) in
    elim (Bool-cases (ltb a (2 ^ 63))) [
      | inl b ↦ rw b (omega (arith, div-le_self a (2 ^ n)))
      | inr b ↦ rw b (omega (arith, below, room))
    ]
