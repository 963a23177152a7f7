-- ===== src/Packet/Flags.antt =====
-- Setting and testing the flags of a packet.
use native.Mathlib.Nat.{one-le-pow}
use gran.Prelude.{ℕ, zero, suc, ◌≡◌, ◌≢◌, ◌*◌, ◌<◌, ◌^◌, true, not, arith, ◌==◌, ap, ◌∙◌, max}
use gran.Prelude.Bits.{bit, bit-lt, bit-or, bit_and-two-pow, bit-two-pow_self, bit-two-pow_ne}
use gran.Packet.{Packet, set_flags, is_set}

nonzero_product : (a p : ℕ) → 0 < p → not (a * p == 0) ≡ not (a == 0)
nonzero_product zero p h = ground arith
nonzero_product (suc a) p h = let pos : 0 < suc a * p = grind arith in ground arith

-- Testing for one flag reads its bit.
pub is_set-bit : (p : Packet) (k : ℕ) → is_set p (2 ^ k) ≡ not (bit p.flags k == 0)
unfolding is_set
is_set-bit p k =
    ap (λ (t : ℕ). not (t == 0)) (bit_and-two-pow k p.flags)
    ∙ nonzero_product (bit p.flags k) (2 ^ k) (one-le-pow k 2 (omega arith))

-- Setting flag `j` makes the test for `j` true and leaves the tests for the others as they were.
pub is_set-set_flags_self : (p : Packet) (k : ℕ) → is_set (set_flags p (2 ^ k)) (2 ^ k) ≡ true
is_set-set_flags_self p k =
    is_set-bit (set_flags p (2 ^ k)) k
    ∙ ap (λ (t : ℕ). not (t == 0))
        (bit-or k p.flags (2 ^ k) ∙ ap (max (bit p.flags k)) (bit-two-pow_self k))
    ∙ ground (arith, bit-lt p.flags k)

pub is_set-set_flags_ne :
    (p : Packet) (j k : ℕ) → j ≢ k → is_set (set_flags p (2 ^ j)) (2 ^ k) ≡ is_set p (2 ^ k)
is_set-set_flags_ne p j k ne =
    is_set-bit (set_flags p (2 ^ j)) k
    ∙ ap (λ (t : ℕ). not (t == 0))
        (bit-or k p.flags (2 ^ j) ∙ ap (max (bit p.flags k)) (bit-two-pow_ne j k ne))
    ∙ ground (arith, is_set-bit p k)
