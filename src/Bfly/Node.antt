-- ===== src/Bfly/Node.antt =====
-- src/bfly/fat_bfly.c: the clock of one node.
use native.Mathlib.Nat.{one-le-pow, mod-lt}
use gran.Prelude.{
  ℕ, zero, suc, ◌≡◌, ◌+◌, ◌-◌, ◌*◌, ◌/◌, ◌%◌, ◌^◌, ◌<◌, ◌≤◌, inl, inr, bit_and, Bool, true, false,
  not, Option, none, some, arith, refl, ap, ◌∙◌, ltb, if◌then◌else◌, get_elem?, set, get_elem?-some,
  Bool-cases,
}
use gran.Prelude.Bits.{double_pow, bit_and-ones}
use gran.Prelude.Outcome.{Yields, bind-Yields, if-Yields, if_lem}
use gran.Component.{Stat, is_ebusy}
use gran.Reg.{Reg}
use gran.Bfly.{
  FatNode, node_receive, wants_right, push_one, push_all, take_from, accepts, pick_one,
  populate_one, populate_all, node_clock,
}
use gran.Bfly.Bank.{
  Goes, IsNode, get_elem?-Yields, with_out-IsNode, with_bank-IsNode, node_receive-IsNode,
  accepted-Goes,
}

if-some : (b : Bool) (x y : FatNode) → (if b then some x else some y) ≡ some (if b then x else y)
if-some true x y = refl
if-some false x y = refl

module _ (elems m : ℕ) (up : Option (ℕ × ℕ)) where
  take_from-IsNode :
      (node : FatNode) (i : ℕ) (left : Bool) (k : ℕ) (s : Reg)
      → IsNode elems m up node
      → Goes elems (suc m) i s.pkt
      → IsNode elems m up (take_from node i left k s)
  take_from-IsNode node i true k s h goes =
      with_bank-IsNode elems m up
        (record node { out = set node.out i (record { pkt = s.pkt; busy = true }) }) true k
        (record s { busy = false })
        (with_out-IsNode elems m up node i (record { pkt = s.pkt; busy = true }) h (λ b. goes))
        (λ b. cc)
  take_from-IsNode node i false k s h goes =
      with_bank-IsNode elems m up
        (record node { out = set node.out i (record { pkt = s.pkt; busy = true }) }) false k
        (record s { busy = false })
        (with_out-IsNode elems m up node i (record { pkt = s.pkt; busy = true }) h (λ b. goes))
        (λ b. cc)

  pick_one-IsNode :
      (node : FatNode) (i k : ℕ) (l r : Reg)
      → IsNode elems m up node
      → (accepts (2 * 2 ^ m) m i l ≡ true → Goes elems (suc m) i l.pkt)
      → (accepts (2 * 2 ^ m) m i r ≡ true → Goes elems (suc m) i r.pkt)
      → IsNode elems m up (pick_one (2 * 2 ^ m) m node i k l r)
  pick_one-IsNode node i k l r h gl gr = elim (Bool-cases (accepts (2 * 2 ^ m) m i l)) [
    | inl al ↦ elim (Bool-cases (accepts (2 * 2 ^ m) m i r)) [
      | inl ar ↦
          rw (al, ar)
            (if_lem (IsNode elems m up) (ltb l.pkt.timestamp r.pkt.timestamp) _ _
              (take_from-IsNode node i true k l h (gl al))
              (take_from-IsNode node i false k r h (gr ar)))
      | inr ar ↦ rw (al, ar) (take_from-IsNode node i true k l h (gl al))
    ]
    | inr al ↦ elim (Bool-cases (accepts (2 * 2 ^ m) m i r)) [
      | inl ar ↦ rw (al, ar) (take_from-IsNode node i false k r h (gr ar))
      | inr ar ↦ rw (al, ar) h
    ]
  ]

  pub populate_one-IsNode :
      (node : FatNode) (i : ℕ)
      → IsNode elems m up node
      → i < 2 * 2 ^ m
      → Yields (IsNode elems m up) (populate_one (2 * 2 ^ m) m i node)
  unfolding populate_one
  populate_one-IsNode node i h inside =
      let pos : 0 < 2 ^ m = one-le-pow m 2 (omega arith) in
      let small = mod-lt i {m = 2 ^ m} pos in
      let (o, there) = get_elem?-some node.out i (omega (arith, h.out_size)) in
      let (l, at_l) = get_elem?-some node.left (i % 2 ^ m) (omega (arith, h.left_size, small)) in
      let (r, at_r) = get_elem?-some node.right (i % 2 ^ m) (omega (arith, h.right_size, small)) in
      let half : 2 * 2 ^ m / 2 - 1 ≡ 2 ^ m - 1 = omega arith in
      let place : bit_and i (2 * 2 ^ m / 2 - 1) ≡ i % 2 ^ m =
        ap (bit_and i) half ∙ bit_and-ones m i in
      (
        if o.busy then node else pick_one (2 * 2 ^ m) m node i (i % 2 ^ m) l r,
        rw (there, place, at_l, at_r)
            (if-some o.busy node (pick_one (2 * 2 ^ m) m node i (i % 2 ^ m) l r)),
        if_lem (IsNode elems m up) o.busy _ _ h (
            pick_one-IsNode node i (i % 2 ^ m) l r h
              (λ a. accepted-Goes elems m up i l inside a (h.left (i % 2 ^ m) l at_l))
              (λ a. accepted-Goes elems m up i r inside a (h.right (i % 2 ^ m) r at_r))),
      )

  pub populate_all-IsNode :
      (left i : ℕ) (node : FatNode)
      → IsNode elems m up node
      → left + i ≤ 2 * 2 ^ m
      → Yields (IsNode elems m up) (populate_all left i (2 * 2 ^ m) m node)
  unfolding populate_all
  populate_all-IsNode zero i node h k = (node, refl, h)
  populate_all-IsNode (suc left) i node h k =
      bind-Yields (IsNode elems m up) (IsNode elems m up) (populate_one (2 * 2 ^ m) m i node) _
        (populate_one-IsNode node i h (omega arith))
        (λ node' h'. populate_all-IsNode left (i + 1) node' h' (omega arith))

module _ (elems m : ℕ) (place up : Option (ℕ × ℕ)) where
  -- A node and its parent.
  abbrev pub IsPair : FatNode × FatNode → Type 0
  IsPair p = IsNode elems m place p.0 × IsNode elems (suc m) up p.1

  push_one-IsPair :
      (i : ℕ) (node parent : FatNode)
      → IsPair (node, parent)
      → i < 2 * 2 ^ m
      → Yields IsPair (push_one m i node parent)
  unfolding push_one
  push_one-IsPair i node parent (h, k) inside =
      bind-Yields (λ (r : Reg). get_elem? node.out i ≡ some r) IsPair (get_elem? node.out i) _
        (get_elem?-Yields node.out i (omega (arith, h.out_size)))
        (λ r read.
          if-Yields IsPair (not r.busy) (some (node, parent)) _
            (λ idle. ((node, parent), refl, (h, k)))
            (λ busy.
              bind-Yields (λ (o : Stat × FatNode). IsNode elems (suc m) up o.1) IsPair
                (node_receive parent r.pkt i (wants_right m r.pkt)) _
                (node_receive-IsNode elems (suc m) up parent r.pkt i (wants_right m r.pkt) k
                  (omega (arith, double_pow m)) (h.out i r read (ground arith)))
                (λ o k'. (
                  if is_ebusy o.0
                      then (node, parent)
                      else (record node { out = set node.out i (record r { busy = false }) }, o.1),
                  refl,
                  if_lem IsPair (is_ebusy o.0) _ _ (h, k)
                      (
                        with_out-IsNode elems m place node i (record r { busy = false }) h
                            (λ b. cc),
                        k',
                      ),
                ))))

  push_all-IsPair :
      (left i : ℕ) (node parent : FatNode)
      → IsPair (node, parent)
      → left + i ≤ 2 * 2 ^ m
      → Yields IsPair (push_all left i m node parent)
  unfolding push_all
  push_all-IsPair zero i node parent h k = ((node, parent), refl, h)
  push_all-IsPair (suc left) i node parent h k =
      bind-Yields IsPair IsPair (push_one m i node parent) _
        (push_one-IsPair i node parent h (omega arith))
        (λ p h'. push_all-IsPair left (i + 1) p.0 p.1 h' (omega arith))

  -- The clock of a node with a parent.
  pub node_clock-IsPair :
      (node parent : FatNode)
      → IsPair (node, parent)
      → (node' : FatNode) × (parent' : FatNode) × (node_clock node (some parent) (2 * 2 ^ m) m
          ≡ some (node', some parent'))
        × IsPair (node', parent')
  unfolding node_clock
  node_clock-IsPair node parent h =
      let (p, pushed, (a, b)) = push_all-IsPair (2 * 2 ^ m) 0 node parent h (omega arith) in
      let (node', populated, c) =
        populate_all-IsNode elems m place (2 * 2 ^ m) 0 p.0 a (omega arith) in
      (node', p.1, rw (pushed, populated) refl, (c, b))

-- The clock of the topmost node.
pub node_clock-IsNode :
    (elems m : ℕ) (place : Option (ℕ × ℕ)) (node : FatNode)
    → IsNode elems m place node
    → (node' : FatNode) × (node_clock node none (2 * 2 ^ m) m ≡ some (node', none))
      × IsNode elems m place node'
unfolding node_clock
node_clock-IsNode elems m place node h =
    let (node', populated, c) =
      populate_all-IsNode elems m place (2 * 2 ^ m) 0 node h (omega arith) in
    (node', rw populated refl, c)
