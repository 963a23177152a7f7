-- ===== src/Packet/Mask.antt =====
-- `packet_mask` and the searches for its lowest bit.
use native.Mathlib.Nat.{
  one-le-pow, pow-le-pow_right, div-eq_of_lt, mod-eq_of_lt, lt_of_lt_of_le, mul-div_cancel,
}
use native.Mathlib.Decide.{ℕ_discrete}
use gran.Prelude.{
  ℕ, zero, suc, ◌≡◌, ◌+◌, ◌-◌, ◌*◌, ◌/◌, ◌%◌, ◌^◌, ◌≤◌, ◌<◌, inl, inr, Bool, true, false, none,
  some, arith, ◌==◌, refl, ap, ◌∙◌, subst, leb, if◌then◌else◌, ◌||◌, ==_iff, Bool-cases,
}
use gran.Prelude.Bits.{
  bit, bit-ones, bit_above, bit-shift_below, bit-shift_above, two-pow-add, double_pow,
}
use gran.Packet.{packet_align, packet_mask, ffs, ffsll}

-- The place of an address in its 64-byte block.
abbrev pub offset_in : ℕ → ℕ
offset_in addr = addr % 64

-- The bits of `mask` are those of the `size` bytes at `addr`.
pub record Covers (addr size mask : ℕ) : Type 0 where
  pub fits : mask < 2 ^ 64
  pub inside : (j : ℕ) → offset_in addr ≤ j → j < offset_in addr + size → bit mask j ≡ 1
  pub below : (j : ℕ) → j < offset_in addr → bit mask j ≡ 0
  pub above : (j : ℕ) → offset_in addr + size ≤ j → bit mask j ≡ 0

abbrev pub field_mask : ℕ → ℕ → ℕ
field_mask size d = (2 ^ size - 1) * 2 ^ d

field_mask-add : (size d : ℕ) → field_mask size d + 2 ^ d ≡ 2 ^ (size + d)
field_mask-add size d =
    let t : 2 ^ size ≡ 2 ^ size - 1 + 1 = omega (arith, one-le-pow size 2) in
    omega (arith, ap (λ (n : ℕ). n * 2 ^ d) t, two-pow-add size d)

field_mask-lt : (size d : ℕ) → field_mask size d < 2 ^ (size + d)
field_mask-lt size d = omega (arith, field_mask-add size d, one-le-pow d 2)

pub field_mask-Covers :
    (addr size : ℕ)
    → offset_in addr + size ≤ 64
    → Covers addr size (field_mask size (offset_in addr))
field_mask-Covers addr size h = record {
  fits =
      let room : 2 ^ (size + offset_in addr) ≤ 2 ^ 64 =
        pow-le-pow_right {n = 2} (omega arith) {i = size + offset_in addr} {j = 64} (omega arith) in
      lt_of_lt_of_le (field_mask-lt size (offset_in addr)) room;
  inside = λ j p q.
      let at : offset_in addr + (j - offset_in addr) ≡ j = omega arith in
      subst (λ (t : ℕ). bit (field_mask size (offset_in addr)) t ≡ 1) at
        (bit-shift_above (offset_in addr) (j - offset_in addr) (2 ^ size - 1)
          ∙ bit-ones size (j - offset_in addr) (omega arith));
  below = λ j p. bit-shift_below (offset_in addr) j (2 ^ size - 1) p;
  above = λ j p.
      bit_above (size + offset_in addr) j (field_mask size (offset_in addr))
        (field_mask-lt size (offset_in addr)) (omega arith);
}

div-pos : {a b : ℕ} → b ≤ a → 0 < b → 0 < a / b
div-pos {a} {b} h p = grind arith

no_overflow : (size d : ℕ) → d + size ≤ 64 → (2 ^ size - 1) / 2 ^ (64 - d) ≡ 0
no_overflow size d h =
    let room : 2 ^ size ≤ 2 ^ (64 - d) =
      pow-le-pow_right {n = 2} (omega arith) {i = size} {j = 64 - d} (omega arith) in
    div-eq_of_lt {n = 2 ^ size - 1} {m = 2 ^ (64 - d)} (omega (arith, one-le-pow size 2))

overflow :
    (size d : ℕ)
    → 64 < d + size
    → size ≤ 64
    → d < 64
    → (d == 0 || (2 ^ size - 1) / 2 ^ (64 - d) == 0) ≡ false
overflow size d h le in_block =
    let room : 2 ^ suc (64 - d) ≤ 2 ^ size =
      pow-le-pow_right {n = 2} (omega arith) {i = suc (64 - d)} {j = size} (omega arith) in
    let big : 2 ^ (64 - d) ≤ 2 ^ size - 1 =
      omega (arith, double_pow (64 - d), one-le-pow (64 - d) 2) in
    let pos : 0 < (2 ^ size - 1) / 2 ^ (64 - d) =
      div-pos {a = 2 ^ size - 1} {b = 2 ^ (64 - d)} big (one-le-pow (64 - d) 2 (omega arith)) in
    ground arith

size_mask : (size : ℕ) → (if size == 64 then 2 ^ 64 - 1 else 2 ^ size - 1) ≡ 2 ^ size - 1
size_mask size = elim (ℕ_discrete size 64) [ yes e ↦ rw e refl | no ne ↦ ground arith ]

or_true : (a b : Bool) → b ≡ true → (a || b) ≡ true
or_true a b h = ground arith

-- Where the bytes stay inside the block of their address, the mask names exactly them.
pub packet_mask-fits :
    (addr size : ℕ)
    → offset_in addr + size ≤ 64
    → packet_mask addr size ≡ some (field_mask size (offset_in addr))
unfolding packet_mask
packet_mask-fits addr size h =
    let small : leb size 64 ≡ true = ground arith in
    let at : addr - packet_align addr ≡ offset_in addr = omega arith in
    let shifted : (offset_in addr == 0 || (2 ^ size - 1) / 2 ^ (64 - offset_in addr) == 0) ≡ true =
      or_true _ _ ((==_iff _ 0).1 (no_overflow size (offset_in addr) h)) in
    rw (small, size_mask size, at, shifted)
      (ap some (mod-eq_of_lt ((field_mask-Covers addr size h).fits)))

pub packet_mask-crosses :
    (addr size : ℕ) → 64 < offset_in addr + size → packet_mask addr size ≡ none
unfolding packet_mask
packet_mask-crosses addr size h = elim (Bool-cases (leb size 64)) [
  | inr large ↦ rw large refl
  | inl small ↦
      let at : addr - packet_align addr ≡ offset_in addr = omega arith in
      let shifted : (offset_in addr == 0 || (2 ^ size - 1) / 2 ^ (64 - offset_in addr) == 0)
          ≡ false =
        overflow size (offset_in addr) h (ground arith) (omega arith) in
      rw (small, size_mask size, at, shifted) refl
]

ffs-shift : (d w x : ℕ) → x % 2 ≡ 1 → d < w → ffs w (x * 2 ^ d) ≡ suc d
unfolding ffs
ffs-shift d zero x odd h = absurd (omega arith)
ffs-shift zero (suc w) x odd h = let e : x * 2 ^ zero ≡ x = omega arith in rw (e, odd)
ffs-shift (suc d) (suc w) x odd h =
    let split : x * 2 ^ suc d ≡ 2 * (x * 2 ^ d) =
      omega (arith, ap (λ (t : ℕ). x * t) (double_pow d)) in
    let halved : x * 2 ^ suc d / 2 ≡ x * 2 ^ d = omega (arith, split) in
    let even : x * 2 ^ suc d % 2 ≡ 0 = omega (arith, split) in
    let rest : ffs w (x * 2 ^ d) ≡ suc d = ffs-shift d w x odd (omega arith) in
    rw (halved, even, rest) (ground arith)

odd_ones : (size : ℕ) → 0 < size → (2 ^ size - 1) % 2 ≡ 1
odd_ones zero h = absurd (omega arith)
odd_ones (suc n) h = omega (arith, double_pow n, one-le-pow n 2)

-- The lowest bit of the mask stands at the place of the address in its block.
pub ffsll-field_mask : (size d : ℕ) → 0 < size → d < 64 → ffsll (field_mask size d) ≡ suc d
unfolding ffsll
ffsll-field_mask size d pos h = ffs-shift d 64 (2 ^ size - 1) (odd_ones size pos) h

pub field_mask-div : (size d : ℕ) → field_mask size d / 2 ^ d ≡ 2 ^ size - 1
field_mask-div size d = mul-div_cancel (2 ^ size - 1) (one-le-pow d 2 (omega arith))
