-- ===== src/Prelude/Bits.antt =====
-- Single binary digits of a number, and what `|`, `&` and a shifted field do to them.
use Prim.Native.Nat.{ℕ, zero, suc, ◌+◌, ◌-◌, ◌*◌, ◌/◌, ◌%◌, ◌^◌, ◌≤◌, ◌<◌, min, max}
use Prim.Native.Nat.{
  differ, bit_xor, bit_xor-bitwise, bit_and, bit_or, digits, bitwise, bit_and-bitwise,
  bit_or-bitwise,
}
use mathlib.Core.Path.{◌≡◌, refl, ap, ◌∙◌}
use mathlib.Core.Logic.{◌≢◌}
use native.Mathlib.Nat.{
  pow-suc, one-le-pow, div-div-eq-div-mul, div-add-mod, mod-lt, mod-eq_of_lt, add-mul-mod_self_left,
}
use native.Mathlib.Omega.{arith}

-- The digit of `n` that has the weight `2 ^ k`.
abbrev pub bit : ℕ → ℕ → ℕ
bit n zero = n % 2
bit n (suc k) = bit (n / 2) k

module _ (z : ℕ → ℕ) (f : ℕ → ℕ → ℕ) where
  enough_digits : (n m a b : ℕ) → a ≤ n → a ≤ m → digits z f n a b ≡ digits z f m a b
  enough_digits zero zero a b p q = refl
  enough_digits zero (suc m) zero b p q = refl
  enough_digits zero (suc m) (suc a) b p q = absurd (omega arith)
  enough_digits (suc n) zero zero b p q = refl
  enough_digits (suc n) zero (suc a) b p q = absurd (omega arith)
  enough_digits (suc n) (suc m) zero b p q = refl
  enough_digits (suc n) (suc m) (suc a) b p q =
      rw (enough_digits n m (suc a / 2) (b / 2) (omega arith) (omega arith))

  lowest_digit :
      (a b : ℕ)
      → bitwise z f (suc a) b ≡ bitwise z f (suc a / 2) (b / 2) * 2 + f (suc a % 2) (b % 2)
  lowest_digit a b =
      omega (arith, enough_digits a (suc a / 2) (suc a / 2) (b / 2) (omega arith) (omega arith))

pub bit_or-halves : (a b : ℕ) → bit_or a b ≡ bit_or (a / 2) (b / 2) * 2 + max (a % 2) (b % 2)
bit_or-halves zero b = simp bit_or-bitwise (omega arith)
bit_or-halves (suc a) b = simp bit_or-bitwise (lowest_digit (λ y. y) max a b)

pub bit_and-halves : (a b : ℕ) → bit_and a b ≡ bit_and (a / 2) (b / 2) * 2 + min (a % 2) (b % 2)
bit_and-halves zero b = simp bit_and-bitwise (omega arith)
bit_and-halves (suc a) b = simp bit_and-bitwise (lowest_digit (λ y. 0) min a b)

pub bit-or : (k a b : ℕ) → bit (bit_or a b) k ≡ max (bit a k) (bit b k)
bit-or zero a b = omega (arith, bit_or-halves a b)
bit-or (suc k) a b =
    let halved : bit_or a b / 2 ≡ bit_or (a / 2) (b / 2) = omega (arith, bit_or-halves a b) in
    rw halved (bit-or k (a / 2) (b / 2))

zero-bit_and : (b : ℕ) → bit_and 0 b ≡ 0
zero-bit_and b = bit_and-bitwise 0 b

and_zero_fuel : (n a : ℕ) → a ≤ n → bit_and a 0 ≡ 0
and_zero_fuel n zero h = refl
and_zero_fuel zero (suc a) h = absurd (omega arith)
and_zero_fuel (suc n) (suc a) h =
    omega (arith, bit_and-halves (suc a) 0, and_zero_fuel n (suc a / 2) (omega arith))

or_zero_fuel : (n a : ℕ) → a ≤ n → bit_or a 0 ≡ a
or_zero_fuel n zero h = refl
or_zero_fuel zero (suc a) h = absurd (omega arith)
or_zero_fuel (suc n) (suc a) h =
    omega (arith, bit_or-halves (suc a) 0, or_zero_fuel n (suc a / 2) (omega arith))

pub double_pow : (k : ℕ) → 2 ^ suc k ≡ 2 * 2 ^ k
double_pow k = omega (arith, pow-suc 2 k)

-- `n & (1 << k)` keeps the one digit.
pub bit_and-two-pow : (k n : ℕ) → bit_and n (2 ^ k) ≡ bit n k * 2 ^ k
bit_and-two-pow zero n =
    omega (arith, bit_and-halves n 1, and_zero_fuel (n / 2) (n / 2) (omega arith))
bit_and-two-pow (suc k) n =
    let halved : 2 ^ suc k / 2 ≡ 2 ^ k = omega (arith, double_pow k) in
    omega (
      arith,
      bit_and-halves n (2 ^ suc k),
      double_pow k,
      ap (λ (t : ℕ). bit_and (n / 2) t) halved,
      bit_and-two-pow k (n / 2),
      ap (λ (t : ℕ). bit (n / 2) k * t) (double_pow k),
    )

-- `(q << k) | r` is a sum when `r` fits `k` digits.
pub bit_or_field : (k q r : ℕ) → r < 2 ^ k → bit_or (q * 2 ^ k) r ≡ q * 2 ^ k + r
bit_or_field zero q r fits =
    let none_left : ◌≡◌ {A = ℕ} r 0 = omega arith in
    rw none_left (omega (arith, or_zero_fuel (q * 1) (q * 1) (omega arith)))
bit_or_field (suc k) q r fits =
    let split : q * 2 ^ suc k ≡ 2 * (q * 2 ^ k) =
      omega (arith, ap (λ (t : ℕ). q * t) (double_pow k)) in
    let fits' : r / 2 < 2 ^ k = omega (arith, double_pow k) in
    let halved : q * 2 ^ suc k / 2 ≡ q * 2 ^ k = omega (arith, split) in
    omega (
      arith,
      split,
      bit_or-halves (q * 2 ^ suc k) r,
      ap (λ (t : ℕ). bit_or t (r / 2)) halved,
      bit_or_field k q (r / 2) fits',
    )

pub bit-lt : (n k : ℕ) → bit n k < 2
bit-lt n zero = omega arith
bit-lt n (suc k) = bit-lt (n / 2) k

-- The digit by division: `(n >> k) & 1`.
pub bit-div : (k n : ℕ) → bit n k ≡ n / 2 ^ k % 2
bit-div zero n = omega arith
bit-div (suc k) n = omega (
  arith,
  bit-div k (n / 2),
  div-div-eq-div-mul n 2 (2 ^ k),
  double_pow k,
  ap (λ (t : ℕ). n / t) (double_pow k),
)

pub bit-zero : (k : ℕ) → bit 0 k ≡ 0
bit-zero zero = refl
bit-zero (suc k) = bit-zero k

-- A number below `2 ^ n` has no digit from `n` on.
pub bit_above : (n k m : ℕ) → m < 2 ^ n → n ≤ k → bit m k ≡ 0
bit_above zero k m h p = let e : ◌≡◌ {A = ℕ} m 0 = omega arith in rw e (bit-zero k)
bit_above (suc n) zero m h p = absurd (omega arith)
bit_above (suc n) (suc k) m h p = bit_above n k (m / 2) (omega (arith, double_pow n)) (omega arith)

-- Shifting up by `d` moves every digit.
pub bit-shift_below : (d k m : ℕ) → k < d → bit (m * 2 ^ d) k ≡ 0
bit-shift_below zero k m h = absurd (omega arith)
bit-shift_below (suc d) zero m h = omega (arith, ap (λ (t : ℕ). m * t) (double_pow d))
bit-shift_below (suc d) (suc k) m h =
    let halved : m * 2 ^ suc d / 2 ≡ m * 2 ^ d =
      omega (arith, ap (λ (t : ℕ). m * t) (double_pow d)) in
    rw halved (bit-shift_below d k m (omega arith))

pub bit-shift_above : (d k m : ℕ) → bit (m * 2 ^ d) (d + k) ≡ bit m k
bit-shift_above zero k m =
    let i : zero + k ≡ k = omega arith in let same : m * 2 ^ zero ≡ m = omega arith in rw (i, same)
bit-shift_above (suc d) k m =
    let i : suc d + k ≡ suc (d + k) = omega arith in
    let halved : m * 2 ^ suc d / 2 ≡ m * 2 ^ d =
      omega (arith, ap (λ (t : ℕ). m * t) (double_pow d)) in
    ap (bit (m * 2 ^ suc d)) i ∙ ap (λ (t : ℕ). bit t (d + k)) halved ∙ bit-shift_above d k m

-- `(1 << n) - 1` has the digits below `n`.
pub bit-ones : (n k : ℕ) → k < n → bit (2 ^ n - 1) k ≡ 1
bit-ones zero k h = absurd (omega arith)
bit-ones (suc n) zero h = omega (arith, double_pow n, one-le-pow n 2)
bit-ones (suc n) (suc k) h =
    let halved : (2 ^ suc n - 1) / 2 ≡ 2 ^ n - 1 = omega (arith, double_pow n, one-le-pow n 2) in
    rw halved (bit-ones n k (omega arith))

pub bit-two-pow_self : (k : ℕ) → bit (2 ^ k) k ≡ 1
bit-two-pow_self zero = refl
bit-two-pow_self (suc k) =
    let halved : 2 ^ suc k / 2 ≡ 2 ^ k = omega (arith, double_pow k) in
    rw halved (bit-two-pow_self k)

pub bit-two-pow_ne : (j k : ℕ) → j ≢ k → bit (2 ^ j) k ≡ 0
bit-two-pow_ne zero zero ne = absurd (ne refl)
bit-two-pow_ne zero (suc k) ne = bit-zero k
bit-two-pow_ne (suc j) zero ne = omega (arith, double_pow j)
bit-two-pow_ne (suc j) (suc k) ne =
    let halved : 2 ^ suc j / 2 ≡ 2 ^ j = omega (arith, double_pow j) in
    rw halved (bit-two-pow_ne j k (λ e. ne (ap suc e)))

pub two-pow-add : (a b : ℕ) → 2 ^ (a + b) ≡ 2 ^ a * 2 ^ b
two-pow-add a zero = let e : a + zero ≡ a = omega arith in rw e (omega arith)
two-pow-add a (suc b) =
    let e : a + suc b ≡ suc (a + b) = omega arith in
    rw e
      (omega (arith, double_pow (a + b), two-pow-add a b, ap (λ (t : ℕ). 2 ^ a * t) (double_pow b)))

or_comm_fuel : (n a b : ℕ) → a ≤ n → bit_or a b ≡ bit_or b a
or_comm_fuel n zero b h = omega (arith, bit_or-bitwise 0 b, or_zero_fuel b b (omega arith))
or_comm_fuel zero (suc a) b h = absurd (omega arith)
or_comm_fuel (suc n) (suc a) b h = omega (
  arith,
  bit_or-halves (suc a) b,
  bit_or-halves b (suc a),
  or_comm_fuel n (suc a / 2) (b / 2) (omega arith),
)

pub bit_or_comm : (a b : ℕ) → bit_or a b ≡ bit_or b a
bit_or_comm a b = or_comm_fuel a a b (omega arith)

-- `r | (q << k)` is a sum when `r` fits `k` digits.
pub field_bit_or : (k q r : ℕ) → r < 2 ^ k → bit_or r (q * 2 ^ k) ≡ q * 2 ^ k + r
field_bit_or k q r fits = bit_or_comm r (q * 2 ^ k) ∙ bit_or_field k q r fits

or_assoc_fuel : (n a b c : ℕ) → a + (b + c) ≤ n → bit_or (bit_or a b) c ≡ bit_or a (bit_or b c)
or_assoc_fuel zero zero b c h =
    omega (arith, bit_or-bitwise 0 (bit_or b c), ap (λ (t : ℕ). bit_or t c) (bit_or-bitwise 0 b))
or_assoc_fuel zero (suc a) b c h = absurd (omega arith)
or_assoc_fuel (suc n) a b c h =
    let left : bit_or a b / 2 ≡ bit_or (a / 2) (b / 2) = omega (arith, bit_or-halves a b) in
    let right : bit_or b c / 2 ≡ bit_or (b / 2) (c / 2) = omega (arith, bit_or-halves b c) in
    omega (
      arith,
      bit_or-halves (bit_or a b) c,
      bit_or-halves a (bit_or b c),
      bit_or-halves a b,
      bit_or-halves b c,
      ap (λ (t : ℕ). bit_or t (c / 2)) left,
      ap (λ (t : ℕ). bit_or (a / 2) t) right,
      or_assoc_fuel n (a / 2) (b / 2) (c / 2) (omega arith),
    )

pub bit_or_assoc : (a b c : ℕ) → bit_or (bit_or a b) c ≡ bit_or a (bit_or b c)
bit_or_assoc a b c = or_assoc_fuel (a + (b + c)) a b c (omega arith)

pub bit_or-lt : (k a b : ℕ) → a < 2 ^ k → b < 2 ^ k → bit_or a b < 2 ^ k
bit_or-lt zero a b h k =
    let none_left : ◌≡◌ {A = ℕ} a 0 = omega arith in
    rw none_left (omega (arith, bit_or-bitwise 0 b))
bit_or-lt (suc k) a b h l = omega (
  arith,
  bit_or-halves a b,
  double_pow k,
  bit_or-lt k (a / 2) (b / 2) (omega (arith, double_pow k)) (omega (arith, double_pow k)),
)

pub bit_and-lt : (k a b : ℕ) → a < 2 ^ k → bit_and a b < 2 ^ k
bit_and-lt zero a b h =
    let none_left : ◌≡◌ {A = ℕ} a 0 = omega arith in rw none_left (omega (arith, zero-bit_and b))
bit_and-lt (suc k) a b h = omega (
  arith,
  bit_and-halves a b,
  double_pow k,
  bit_and-lt k (a / 2) (b / 2) (omega (arith, double_pow k)),
)

differ-lt : (a b : ℕ) → a < 2 → b < 2 → differ a b < 2
differ-lt zero b h k = k
differ-lt (suc a) zero h k = h
differ-lt (suc a) (suc b) h k = differ-lt a b (omega arith) (omega arith)

bit_xor-halves : (a b : ℕ) → bit_xor a b ≡ bit_xor (a / 2) (b / 2) * 2 + differ (a % 2) (b % 2)
bit_xor-halves zero b = simp bit_xor-bitwise (omega arith)
bit_xor-halves (suc a) b = simp bit_xor-bitwise (lowest_digit (λ y. y) differ a b)

pub bit_xor-lt : (k a b : ℕ) → a < 2 ^ k → b < 2 ^ k → bit_xor a b < 2 ^ k
bit_xor-lt zero a b h k =
    let none_left : ◌≡◌ {A = ℕ} a 0 = omega arith in
    rw none_left (omega (arith, bit_xor-bitwise 0 b))
bit_xor-lt (suc k) a b h l = omega (
  arith,
  bit_xor-halves a b,
  double_pow k,
  differ-lt (a % 2) (b % 2) (omega arith) (omega arith),
  bit_xor-lt k (a / 2) (b / 2) (omega (arith, double_pow k)) (omega (arith, double_pow k)),
)

-- What is left of a number modulo `2 * p`, by its parts modulo `p`, and by those of its half.
pub mod_double : (x p : ℕ) → 0 < p → x % (2 * p) ≡ p * (x / p % 2) + x % p
mod_double x p pos =
    let halves : x / p ≡ 2 * (x / p / 2) + x / p % 2 = omega arith in
    let whole : x ≡ p * (x / p % 2) + x % p + 2 * p * (x / p / 2) =
      omega (arith, div-add-mod x p, ap (λ (t : ℕ). p * t) halves) in
    let bound : p * (x / p % 2) ≤ p = at_most_one p (x / p % 2) (omega arith) in
    ap (λ (t : ℕ). t % (2 * p)) whole
    ∙ add-mul-mod_self_left (p * (x / p % 2) + x % p) (2 * p) (x / p / 2)
    ∙ mod-eq_of_lt {n = p * (x / p % 2) + x % p} {m = 2 * p} (omega (arith, bound, mod-lt x pos))
  where
    at_most_one : (p b : ℕ) → b < 2 → p * b ≤ p
    at_most_one p zero h = omega arith
    at_most_one p (suc zero) h = omega arith
    at_most_one p (suc (suc b)) h = absurd (omega arith)

pub mod_double_low : (x p : ℕ) → 0 < p → x % (2 * p) ≡ x / 2 % p * 2 + x % 2
mod_double_low x p pos =
    let whole : x ≡ x / 2 % p * 2 + x % 2 + 2 * p * (x / 2 / p) =
      omega (arith, div-add-mod (x / 2) p) in
    ap (λ (t : ℕ). t % (2 * p)) whole
    ∙ add-mul-mod_self_left (x / 2 % p * 2 + x % 2) (2 * p) (x / 2 / p)
    ∙ mod-eq_of_lt {n = x / 2 % p * 2 + x % 2} {m = 2 * p} (omega (arith, mod-lt (x / 2) pos))

-- `n & (2^k - 1)` is the remainder.
pub bit_and-ones : (k n : ℕ) → bit_and n (2 ^ k - 1) ≡ n % 2 ^ k
bit_and-ones zero n = omega (arith, and_zero_fuel n n (omega arith))
bit_and-ones (suc k) n =
    let pos : 0 < 2 ^ k = one-le-pow k 2 (omega arith) in
    let halved : (2 ^ suc k - 1) / 2 ≡ 2 ^ k - 1 = omega (arith, double_pow k, pos) in
    omega (
      arith,
      bit_and-halves n (2 ^ suc k - 1),
      double_pow k,
      pos,
      ap (λ (t : ℕ). bit_and (n / 2) t) halved,
      bit_and-ones k (n / 2),
      mod_double_low n (2 ^ k) pos,
      ap (λ (t : ℕ). n % t) (double_pow k),
    )
