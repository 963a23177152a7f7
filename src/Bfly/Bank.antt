-- ===== src/Bfly/Bank.antt =====
-- src/bfly/fat_bfly.c: where the packets in the register banks of one node are bound for.
use native.Mathlib.Nat.{one-le-pow, mod-eq_of_lt, mod-eq-sub-mod}
use gran.Prelude.{
  ℕ, suc, ◌≡◌, ◌+◌, ◌-◌, ◌*◌, ◌/◌, ◌%◌, ◌^◌, ◌<◌, ◌≤◌, inl, inr, Bool, true, false, not, ◌&&◌,
  Option, some, List, arith, refl, ap, subst, ◌∙◌, ltb, ◌==◌, if◌then◌else◌, length, get_elem?, set,
  length-set, get_elem?-some, get_elem?-set_cases, Bool-cases,
}
use gran.Prelude.Bits.{double_pow, mod_double}
use gran.Prelude.Outcome.{Yields, if_lem}
use gran.Packet.{Packet}
use gran.Component.{Stat, ok, ebusy}
use gran.Reg.{Reg}
use gran.Bfly.{fat_elem, FatNode, bank_of, with_bank, node_receive, accepts}

-- A packet in place `k` of a bank is bound for an element that exists, and whose low `m` bits are `k`.
pub record Goes (elems m k : ℕ) (pkt : Packet) : Type 0 where
  pub low : fat_elem pkt.to % 2 ^ m ≡ k
  pub exists : fat_elem pkt.to < elems

abbrev pub Routed : ℕ → ℕ → List Reg → Type 0
Routed elems m regs =
    (k : ℕ) (r : Reg) → get_elem? regs k ≡ some r → r.busy ≡ true → Goes elems m k r.pkt

-- A node of the height `m`, with the parent at the place `up`.
pub record IsNode (elems m : ℕ) (up : Option (ℕ × ℕ)) (node : FatNode) : Type 0 where
  pub left_size : length node.left ≡ 2 * 2 ^ m
  pub right_size : length node.right ≡ 2 * 2 ^ m
  pub out_size : length node.out ≡ 2 * (2 * 2 ^ m)
  pub left : Routed elems m node.left
  pub right : Routed elems m node.right
  pub out : Routed elems (suc m) node.out
  pub parent : node.up ≡ up

pub set-Routed :
    (elems m : ℕ) (regs : List Reg) (k : ℕ) (r : Reg)
    → Routed elems m regs
    → (r.busy ≡ true → Goes elems m k r.pkt)
    → Routed elems m (set regs k r)
set-Routed elems m regs k r h goes j s read busy = elim (get_elem?-set_cases regs k j r s read) [
  | inl (here, same) ↦
      subst (λ (i : ℕ). Goes elems m i s.pkt) here
        (subst (λ (t : Reg). Goes elems m k t.pkt) same
          (goes (ap (λ (t : Reg). t.busy) same ∙ busy)))
  | inr there ↦ h j s there busy
]

-- A read inside an array gives an entry.
pub get_elem?-Yields :
    (regs : List Reg) (i : ℕ)
    → i < length regs
    → Yields (λ (r : Reg). get_elem? regs i ≡ some r) (get_elem? regs i)
get_elem?-Yields regs i h = let (r, read) = get_elem?-some regs i h in (r, read, read)

both : (a b : Bool) → (a && b) ≡ true → (a ≡ true) × (b ≡ true)
both true b h = (refl, h)
both false b h = cc

-- The side of output `i` is the bit that is added to its place in a bank.
half_place :
    (p i x : ℕ)
    → 0 < p
    → i < 2 * p
    → (if ltb i (2 * p / 2) then not (x / p % 2 == 1) else x / p % 2 == 1) ≡ true
    → x % p ≡ i % p
    → p * (x / p % 2) + x % p ≡ i
half_place p i x pos h side same =
    let middle : 2 * p / 2 ≡ p = omega arith in
    elim (Bool-cases (ltb i (2 * p / 2))) [
      | inl low ↦
          let goes_left : not (x / p % 2 == 1) ≡ true = rw low at side in
          let b : ◌≡◌ {A = ℕ} (x / p % 2) 0 = ground arith in
          let r : i % p ≡ i = mod-eq_of_lt {n = i} {m = p} (ground arith) in
          rw b (omega (arith, same, r))
      | inr high ↦
          let goes_right : (x / p % 2 == 1) ≡ true = rw high at side in
          let b : ◌≡◌ {A = ℕ} (x / p % 2) 1 = ground arith in
          let reaches : p ≤ i = ground arith in
          let r : i % p ≡ i - p =
            mod-eq-sub-mod {n = i} {m = p} reaches
            ∙ mod-eq_of_lt {n = i - p} {m = p} (omega arith) in
          rw b (omega (arith, same, r, reaches))
    ]

module _ (elems m : ℕ) (up : Option (ℕ × ℕ)) where
  pub with_out-IsNode :
      (node : FatNode) (i : ℕ) (r : Reg)
      → IsNode elems m up node
      → (r.busy ≡ true → Goes elems (suc m) i r.pkt)
      → IsNode elems m up (record node { out = set node.out i r })
  with_out-IsNode node i r h goes = record {
    left_size = h.left_size;
    right_size = h.right_size;
    out_size = length-set node.out i r ∙ h.out_size;
    left = h.left;
    right = h.right;
    out = set-Routed elems (suc m) node.out i r h.out goes;
    parent = h.parent;
  }

  pub with_bank-IsNode :
      (node : FatNode) (left : Bool) (i : ℕ) (r : Reg)
      → IsNode elems m up node
      → (r.busy ≡ true → Goes elems m i r.pkt)
      → IsNode elems m up (with_bank node left (set (bank_of node left) i r))
  with_bank-IsNode node true i r h goes = record {
    left_size = length-set node.left i r ∙ h.left_size;
    right_size = h.right_size;
    out_size = h.out_size;
    left = set-Routed elems m node.left i r h.left goes;
    right = h.right;
    out = h.out;
    parent = h.parent;
  }
  with_bank-IsNode node false i r h goes = record {
    left_size = h.left_size;
    right_size = length-set node.right i r ∙ h.right_size;
    out_size = h.out_size;
    left = h.left;
    right = set-Routed elems m node.right i r h.right goes;
    out = h.out;
    parent = h.parent;
  }

  bank_size :
      (node : FatNode) (left : Bool)
      → IsNode elems m up node
      → length (bank_of node left) ≡ 2 * 2 ^ m
  bank_size node true h = h.left_size
  bank_size node false h = h.right_size

  pub node_receive-IsNode :
      (node : FatNode) (pkt : Packet) (idx : ℕ) (left : Bool)
      → IsNode elems m up node
      → idx < 2 * 2 ^ m
      → Goes elems m idx pkt
      → Yields (λ (o : Stat × FatNode). IsNode elems m up o.1) (node_receive node pkt idx left)
  unfolding node_receive
  node_receive-IsNode node pkt idx left h inside goes =
      let (r, read) =
        get_elem?-some (bank_of node left) idx (omega (arith, bank_size node left h)) in
      (
        if r.busy then (ebusy, node) else (
          ok,
          with_bank node left (set (bank_of node left) idx (record { pkt = pkt; busy = true })),
        ),
        rw read refl,
        if_lem (λ (o : Stat × FatNode). IsNode elems m up o.1) r.busy _ _ h
            (with_bank-IsNode node left idx (record { pkt = pkt; busy = true }) h (λ b. goes)),
      )

  -- Where an accepted packet goes.
  pub accepted-Goes :
      (i : ℕ) (r : Reg)
      → i < 2 * 2 ^ m
      → accepts (2 * 2 ^ m) m i r ≡ true
      → (r.busy ≡ true → Goes elems m (i % 2 ^ m) r.pkt)
      → Goes elems (suc m) i r.pkt
  accepted-Goes i r inside accepted goes =
      let pos : 0 < 2 ^ m = one-le-pow m 2 (omega arith) in
      let (busy, side) = both r.busy _ accepted in
      record {
        low =
            ap (λ (t : ℕ). fat_elem r.pkt.to % t) (double_pow m)
            ∙ mod_double (fat_elem r.pkt.to) (2 ^ m) pos
            ∙ half_place (2 ^ m) i (fat_elem r.pkt.to) pos inside side ((goes busy).low);
        exists = (goes busy).exists;
      }
