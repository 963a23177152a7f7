-- ===== src/Bfly/Create.antt =====
-- src/bfly/fat_bfly.c and include/gran/utils.h: the network that `create_fat_bfly` builds.
use native.Mathlib.Nat.{one-le-pow, mul-div_cancel, mod-eq_of_lt, pow-le-pow_right}
use gran.Prelude.{
  ℕ, zero, suc, ◌≡◌, ◌+◌, ◌-◌, ◌*◌, ◌/◌, ◌%◌, ◌^◌, ◌<◌, ◌≤◌, u32, true, false, none, some, arith,
  refl, ap, sym, ◌∙◌, ◌==◌, get_elem?, length-replicate, replicate,
}
use gran.Prelude.Bits.{double_pow, two-pow-add}
use gran.Packet.{ffsll}
use gran.Packet.Mask.{field_mask, ffsll-field_mask}
use gran.Reg.{Reg, empty_reg}
use gran.Bfly.{
  FatNode, FatBfly, get_node, popcount, is_powerof2, log2ull, up_of, create_nodes, create_layers,
  create_fat_bfly,
}
use gran.Bfly.Bank.{Routed, IsNode}
use gran.Bfly.Clock.{IsBfly}

popcount-zero : (w : ℕ) → popcount w 0 ≡ 0
unfolding popcount
popcount-zero zero = refl
popcount-zero (suc w) = omega (arith, popcount-zero w)

popcount-two-pow : (d w : ℕ) → d < w → popcount w (2 ^ d) ≡ 1
unfolding popcount
popcount-two-pow d zero h = absurd (omega arith)
popcount-two-pow zero (suc w) h = omega (arith, popcount-zero w)
popcount-two-pow (suc d) (suc w) h =
    let halved : 2 ^ suc d / 2 ≡ 2 ^ d = omega (arith, double_pow d) in
    let even : 2 ^ suc d % 2 ≡ 0 = omega (arith, double_pow d) in
    rw (halved, even) (omega (arith, popcount-two-pow d w (omega arith)))

log2ull-two-pow : (d : ℕ) → d < 64 → log2ull (2 ^ d) ≡ d
unfolding log2ull
log2ull-two-pow d h =
    let one_field : field_mask 1 d ≡ 2 ^ d = omega arith in
    let found : ffsll (2 ^ d) ≡ suc d =
      ap ffsll (sym one_field) ∙ ffsll-field_mask 1 d (omega arith) h in
    omega (arith, found)

pub empty-Routed : (elems m n : ℕ) → Routed elems m (replicate n empty_reg)
empty-Routed elems m zero k r read busy = cc
empty-Routed elems m (suc n) zero r read busy = cc
empty-Routed elems m (suc n) (suc k) r read busy = absurd (idle n k r read busy)
  where
    idle : (n k : ℕ) (r : Reg) → get_elem? (replicate n empty_reg) k ≡ some r → r.busy ≡ true → ⊥
    idle zero k r read busy = cc
    idle (suc n) zero r read busy = cc
    idle (suc n) (suc k) r read busy = idle n k r read busy

-- The node that `create_fat_bfly` makes in place `j` of layer `i`.
abbrev new_node : ℕ → ℕ → ℕ → ℕ → FatNode
new_node i j elems count = record {
  up = up_of i j;
  left = replicate (elems / count) empty_reg;
  right = replicate (elems / count) empty_reg;
  out = replicate (u32 (2 * elems) / count) empty_reg;
}

create_nodes-get_elem? :
    (left i j k elems count : ℕ)
    → k < left
    → get_elem? (create_nodes left i j elems count) k ≡ some (new_node i (j + k) elems count)
unfolding create_nodes
create_nodes-get_elem? zero i j k elems count h = absurd (omega arith)
create_nodes-get_elem? (suc left) i j zero elems count h =
    let at : j + zero ≡ j = omega arith in rw at refl
create_nodes-get_elem? (suc left) i j (suc k) elems count h =
    let at : j + suc k ≡ j + 1 + k = omega arith in
    rw at (create_nodes-get_elem? left i (j + 1) k elems count (omega arith))

create_layers-get_elem? :
    (left i k elems : ℕ)
    → k < left
    → get_elem? (create_layers left i elems) k
      ≡ some (create_nodes (2 ^ (i + k)) (i + k) 0 elems (2 ^ (i + k)))
unfolding create_layers
create_layers-get_elem? zero i k elems h = absurd (omega arith)
create_layers-get_elem? (suc left) i zero elems h =
    let at : i + zero ≡ i = omega arith in rw at refl
create_layers-get_elem? (suc left) i (suc k) elems h =
    let at : i + suc k ≡ i + 1 + k = omega arith in
    rw at (create_layers-get_elem? left (i + 1) k elems (omega arith))

-- The share of each node of layer `i`.
share : (l i : ℕ) → i < l → 2 ^ l / 2 ^ i ≡ 2 * 2 ^ (l - i - 1)
share l i h =
    let sum : suc (l - i - 1) + i ≡ l = omega arith in
    let whole : 2 ^ l ≡ 2 * 2 ^ (l - i - 1) * 2 ^ i =
      ap (λ (n : ℕ). 2 ^ n) (sym sum)
      ∙ two-pow-add (suc (l - i - 1)) i
      ∙ ap (λ (t : ℕ). t * 2 ^ i) (double_pow (l - i - 1)) in
    ap (λ (t : ℕ). t / 2 ^ i) whole
    ∙ mul-div_cancel (2 * 2 ^ (l - i - 1)) (one-le-pow i 2 (omega arith))

-- Twice the elements are still a 32-bit number.
double-u32 : (l : ℕ) → l < 31 → u32 (2 * 2 ^ l) ≡ 2 * 2 ^ l
double-u32 l h =
    let bound : 2 ^ l ≤ 2 ^ 30 =
      pow-le-pow_right {n = 2} (omega arith) {i = l} {j = 30} (omega arith) in
    mod-eq_of_lt {n = 2 * 2 ^ l} {m = 2 ^ 32} (omega arith)

new_node-IsNode :
    (l i j : ℕ)
    → i < l
    → l < 31
    → IsNode (2 ^ l) (l - i - 1) (up_of i j) (new_node i j (2 ^ l) (2 ^ i))
new_node-IsNode l i j h small = record {
  left_size = length-replicate (2 ^ l / 2 ^ i) empty_reg ∙ share l i h;
  right_size = length-replicate (2 ^ l / 2 ^ i) empty_reg ∙ share l i h;
  out_size = length-replicate (u32 (2 * 2 ^ l) / 2 ^ i) empty_reg ∙ double_share;
  left = empty-Routed (2 ^ l) (l - i - 1) (2 ^ l / 2 ^ i);
  right = empty-Routed (2 ^ l) (l - i - 1) (2 ^ l / 2 ^ i);
  out = empty-Routed (2 ^ l) (suc (l - i - 1)) (u32 (2 * 2 ^ l) / 2 ^ i);
  parent = refl;
}
  where
    double_share : u32 (2 * 2 ^ l) / 2 ^ i ≡ 2 * (2 * 2 ^ (l - i - 1))
    double_share =
        let more : suc l - i - 1 ≡ suc (l - i - 1) = omega arith in
        ap (λ (t : ℕ). t / 2 ^ i) (double-u32 l small ∙ sym (double_pow l))
        ∙ share (suc l) i (omega arith)
        ∙ ap (λ (n : ℕ). 2 * 2 ^ n) more
        ∙ ap (λ (t : ℕ). 2 * t) (double_pow (l - i - 1))

create_layers-get_node :
    (l i j : ℕ)
    → i < l
    → j < 2 ^ i
    → get_node (create_layers l 0 (2 ^ l)) i j ≡ some (new_node i j (2 ^ l) (2 ^ i))
create_layers-get_node l i j p q =
    let z : 0 + i ≡ i = omega arith in
    let z' : 0 + j ≡ j = omega arith in
    let row : get_elem? (create_layers l 0 (2 ^ l)) i
        ≡ some (create_nodes (2 ^ i) i 0 (2 ^ l) (2 ^ i)) =
      rw z at (create_layers-get_elem? l 0 i (2 ^ l) p) in
    let cell : get_elem? (create_nodes (2 ^ i) i 0 (2 ^ l) (2 ^ i)) j
        ≡ some (new_node i j (2 ^ l) (2 ^ i)) =
      rw z' at (create_nodes-get_elem? (2 ^ i) i 0 j (2 ^ l) (2 ^ i) q) in
    rw row cell

-- For a number of elements that is a power of two, from 2 to 2^30, `create_fat_bfly` fails no assertion and
-- makes a well-formed network with the logarithm as the number of its layers.
pub create_fat_bfly-IsBfly :
    (l : ℕ)
    → 0 < l
    → l < 31
    → (b : FatBfly) × (create_fat_bfly (2 ^ l) ≡ some b)
      × IsBfly b
      × (b.elems ≡ 2 ^ l)
      × (b.layers ≡ l)
      × (b.send_to ≡ replicate (2 ^ l) none)
unfolding create_fat_bfly is_powerof2
create_fat_bfly-IsBfly l pos small =
    let power : popcount 64 (2 ^ l) ≡ 1 = popcount-two-pow l 64 (omega arith) in
    let depth : log2ull (2 ^ l) ≡ l = log2ull-two-pow l (omega arith) in
    let deep : (l == 0) ≡ false = ground arith in
    (
      record {
        elems = 2 ^ l;
        in_regs = replicate (2 ^ l) empty_reg;
        send_to = replicate (2 ^ l) none;
        layers = l;
        layer = create_layers l 0 (2 ^ l);
      },
      rw (power, depth, deep) refl,
      record {
        power = refl;
        some_layers = pos;
        inputs = length-replicate (2 ^ l) empty_reg;
        bound = λ k r read busy. (empty-Routed (2 ^ l) 0 (2 ^ l) k r read busy).exists;
        sends = length-replicate (2 ^ l) none;
        tree = λ i j p q. (
          new_node i j (2 ^ l) (2 ^ i),
          create_layers-get_node l i j p q,
          new_node-IsNode l i j p small,
        );
      },
      refl,
      refl,
      refl,
    )
