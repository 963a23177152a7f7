-- ===== src/Bfly/Feed.antt =====
-- src/bfly/fat_bfly.c: the loop of the clock that moves the inputs into the tree.
use gran.Prelude.{
  ℕ, zero, suc, ◌≡◌, ◌+◌, ◌-◌, ◌/◌, ◌%◌, ◌^◌, ◌<◌, ◌≤◌, inl, inr, true, false, not, some, List,
  arith, refl, ap, sym, subst, ◌∙◌, ◌==◌, if◌then◌else◌, length, get_elem?, set, length-set,
  get_elem?-set_cases,
}
use gran.Prelude.Bits.{double_pow}
use gran.Prelude.Outcome.{Yields, bind-Yields, if-Yields, if_lem}
use gran.Component.{is_ebusy}
use gran.Reg.{Reg}
use gran.Bfly.{fat_elem, FatNode, set_node, up_of, feed_one, feed_all}
use gran.Bfly.Bank.{Goes, IsNode, get_elem?-Yields, node_receive-IsNode}
use gran.Bfly.Tree.{IsTree, set_node-IsTree}

-- Every packet in the array is bound for an element that exists.
abbrev pub Exist : ℕ → List Reg → Type 0
Exist elems regs =
    (k : ℕ) (r : Reg) → get_elem? regs k ≡ some r → r.busy ≡ true → fat_elem r.pkt.to < elems

pub set-Exist :
    (elems : ℕ) (regs : List Reg) (i : ℕ) (r : Reg)
    → Exist elems regs
    → (r.busy ≡ true → fat_elem r.pkt.to < elems)
    → Exist elems (set regs i r)
set-Exist elems regs i r h goes k s read busy = elim (get_elem?-set_cases regs i k r s read) [
  | inl (here, same) ↦
      subst (λ (t : Reg). fat_elem t.pkt.to < elems) same
        (goes (ap (λ (t : Reg). t.busy) same ∙ busy))
  | inr there ↦ h k s there busy
]

module _ (elems layers : ℕ) (some_layers : 0 < layers) where
  -- The inputs and the tree.
  abbrev pub IsInner : List Reg × List (List FatNode) → Type 0
  IsInner p = (length p.0 ≡ elems) × Exist elems p.0 × IsTree elems layers p.1

  feed_one-IsInner :
      (i : ℕ) (in_regs : List Reg) (layer : List (List FatNode))
      → IsInner (in_regs, layer)
      → i < elems
      → elems ≡ 2 ^ layers
      → Yields IsInner (feed_one layers i in_regs layer)
  unfolding feed_one
  feed_one-IsInner i in_regs layer (size, bound, tree) p power =
      let half : i / 2 < 2 ^ (layers - 1) =
        omega (arith, double_pow (layers - 1), ap (λ (n : ℕ). 2 ^ n) (whole layers some_layers)) in
      let bottom : layers - (layers - 1) - 1 ≡ 0 = omega arith in
      let (node, there, n) = tree (layers - 1) (i / 2) (omega arith) half in
      let n' = subst (λ (m : ℕ). IsNode elems m (up_of (layers - 1) (i / 2)) node) bottom n in
      bind-Yields (λ (r : Reg). get_elem? in_regs i ≡ some r) IsInner (get_elem? in_regs i) _
        (get_elem?-Yields in_regs i (omega (arith, size)))
        (λ r read.
          if-Yields IsInner (not r.busy) (some (in_regs, layer)) _
            (λ idle. ((in_regs, layer), refl, (size, bound, tree)))
            (λ busy.
              let goes : Goes elems 0 0 r.pkt = record {
                low = omega arith;
                exists = bound i r read (ground arith);
              } in
              let (o, runs, k) =
                node_receive-IsNode elems 0 (up_of (layers - 1) (i / 2)) node r.pkt 0 (i % 2 == 1)
                  n' (omega arith) goes in
              (
                if is_ebusy o.0 then (in_regs, layer) else (
                  set in_regs i (record r { busy = false }),
                  set_node layer (layers - 1) (i / 2) o.1,
                ),
                rw (there, runs) refl,
                if_lem IsInner (is_ebusy o.0) _ _ (size, bound, tree)
                    (
                      length-set in_regs i (record r { busy = false }) ∙ size,
                      set-Exist elems in_regs i (record r { busy = false }) bound (λ b. cc),
                      set_node-IsTree elems layers layer (layers - 1) (i / 2) o.1 tree (omega arith)
                          half
                          (subst (λ (m : ℕ). IsNode elems m (up_of (layers - 1) (i / 2)) o.1)
                            (sym bottom) k),
                    ),
              )))
    where
      whole : (n : ℕ) → 0 < n → suc (n - 1) ≡ n
      whole n h = omega arith

  pub feed_all-IsInner :
      (left i : ℕ) (in_regs : List Reg) (layer : List (List FatNode))
      → IsInner (in_regs, layer)
      → left + i ≤ elems
      → elems ≡ 2 ^ layers
      → Yields IsInner (feed_all left i layers in_regs layer)
  unfolding feed_all
  feed_all-IsInner zero i in_regs layer h p power = ((in_regs, layer), refl, h)
  feed_all-IsInner (suc left) i in_regs layer h p power =
      bind-Yields IsInner IsInner (feed_one layers i in_regs layer) _
        (feed_one-IsInner i in_regs layer h (omega arith) power)
        (λ a h'. feed_all-IsInner left (i + 1) a.0 a.1 h' (omega arith) power)
