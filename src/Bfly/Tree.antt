-- ===== src/Bfly/Tree.antt =====
-- src/bfly/fat_bfly.c: the nodes of the tree, and the clock of its layers.
use native.Mathlib.Decide.{ℕ_discrete}
use gran.Prelude.{
  ℕ, zero, suc, ◌≡◌, ◌≢◌, ◌+◌, ◌-◌, ◌*◌, ◌/◌, ◌^◌, ◌<◌, ◌≤◌, ◌⊎◌, inl, inr, none, some, List, arith,
  refl, ap, sym, subst, ◌∙◌, get_elem?, set, get_elem?-set_self, get_elem?-set_ne, lt_of_get_elem?,
  Option-cases, none≢some,
}
use gran.Prelude.Bits.{double_pow}
use gran.Prelude.Outcome.{Yields, bind-Yields}
use gran.Bfly.{
  FatNode, node_of, get_node, set_node, up_of, node_clock, clock_at, layer_clock, clock_layers,
}
use gran.Bfly.Bank.{IsNode}
use gran.Bfly.Node.{node_clock-IsPair, node_clock-IsNode}

get_node-set_self :
    (layer : List (List FatNode)) (i j : ℕ) (old new : FatNode)
    → get_node layer i j ≡ some old
    → get_node (set_node layer i j new) i j ≡ some new
get_node-set_self layer i j old new h = elim (Option-cases (get_elem? layer i)) [
  | inl gone ↦ absurd (none≢some (rw gone at h))
  | inr (row, there) ↦
      let in_row : get_elem? row j ≡ some old = rw there at h in
      let back = get_elem?-set_self layer i (set row j new) (lt_of_get_elem? layer i row there) in
      rw (there, back) (get_elem?-set_self row j new (lt_of_get_elem? row j old in_row))
]

get_node-set_ne :
    (layer : List (List FatNode)) (i j a b : ℕ) (new : FatNode)
    → (i ≢ a) ⊎ (j ≢ b)
    → get_node (set_node layer i j new) a b ≡ get_node layer a b
get_node-set_ne layer i j a b new h = elim (Option-cases (get_elem? layer i)) [
  | inl gone ↦ rw gone refl
  | inr (row, there) ↦ elim (ℕ_discrete i a) [
    | no ne ↦ rw there (ap (λ o. node_of o b) (get_elem?-set_ne layer i a (set row j new) ne))
    | yes same ↦
        let back = get_elem?-set_self layer i (set row j new) (lt_of_get_elem? layer i row there) in
        let col : j ≢ b = elim h [ inl ne ↦ absurd (ne same) | inr ne ↦ ne ] in
        subst (λ (c : ℕ). get_node (set_node layer i j new) c b ≡ get_node layer c b) same
          (rw (there, back) (get_elem?-set_ne row j b new col))
  ]
]

-- A tree of `layers` layers over `elems` elements: every node is there and well formed.
abbrev pub IsTree : ℕ → ℕ → List (List FatNode) → Type 0
IsTree elems layers layer =
    (i j : ℕ)
    → i < layers
    → j < 2 ^ i
    → Yields (IsNode elems (layers - i - 1) (up_of i j)) (get_node layer i j)

module _ (elems layers : ℕ) where
  pub set_node-IsTree :
      (layer : List (List FatNode)) (i j : ℕ) (node : FatNode)
      → IsTree elems layers layer
      → i < layers
      → j < 2 ^ i
      → IsNode elems (layers - i - 1) (up_of i j) node
      → IsTree elems layers (set_node layer i j node)
  set_node-IsTree layer i j node h p q n a b k l = elim (ℕ_discrete i a) [
    | no ne ↦
        let (old, read, ok) = h a b k l in
        (old, get_node-set_ne layer i j a b node (inl ne) ∙ read, ok)
    | yes same ↦ elim (ℕ_discrete j b) [
      | no ne ↦
          let (old, read, ok) = h a b k l in
          (old, get_node-set_ne layer i j a b node (inr ne) ∙ read, ok)
      | yes same' ↦
          let (old, read, ok) = h i j p q in
          subst
            (λ (c : ℕ).
              Yields (IsNode elems (layers - c - 1) (up_of c b))
                (get_node (set_node layer i j node) c b))
            same
            (subst
              (λ (d : ℕ).
                Yields (IsNode elems (layers - i - 1) (up_of i d))
                  (get_node (set_node layer i j node) i d))
              same' (node, get_node-set_self layer i j old node read, n))
    ]
  ]

  clock_at-run_top :
      (layer : List (List FatNode)) (j height : ℕ) (node node' : FatNode)
      → get_node layer 0 j ≡ some node
      → node.up ≡ none
      → node_clock node none (2 * 2 ^ height) height ≡ some (node', none)
      → clock_at layer 0 j height ≡ some (set_node layer 0 j node')
  unfolding clock_at
  clock_at-run_top layer j height node node' a b c = simp (a, b, c) refl

  clock_at-run :
      (layer : List (List FatNode)) (i j p q height : ℕ) (node node' up up' : FatNode)
      → get_node layer i j ≡ some node
      → node.up ≡ some (p, q)
      → get_node layer p q ≡ some up
      → node_clock node (some up) (2 * 2 ^ height) height ≡ some (node', some up')
      → clock_at layer i j height ≡ some (set_node (set_node layer i j node') p q up')
  unfolding clock_at
  clock_at-run layer i j p q height node node' up up' a b c d = simp (a, b, c, d) refl

  clock_at-IsTree :
      (layer : List (List FatNode)) (i j : ℕ)
      → IsTree elems layers layer
      → i < layers
      → j < 2 ^ i
      → Yields (IsTree elems layers) (clock_at layer i j (layers - i - 1))
  clock_at-IsTree layer zero j h p q =
      let (node, read, n) = h 0 j p q in
      let (node', runs, n') = node_clock-IsNode elems (layers - 0 - 1) none node n in
      (
        set_node layer 0 j node',
        clock_at-run_top layer j (layers - 0 - 1) node node' read n.parent runs,
        set_node-IsTree layer 0 j node' h p q n',
      )
  clock_at-IsTree layer (suc i) j h p q =
      let (node, read, n) = h (suc i) j p q in
      let half : j / 2 < 2 ^ i = omega (arith, double_pow i) in
      let (up, read', u) = h i (j / 2) (omega arith) half in
      let higher : layers - i - 1 ≡ suc (layers - suc i - 1) = omega arith in
      let u' = subst (λ (m : ℕ). IsNode elems m (up_of i (j / 2)) up) higher u in
      let (node', up', runs, (n', v)) =
        node_clock-IsPair elems (layers - suc i - 1) (up_of (suc i) j) (up_of i (j / 2)) node up
          (n, u') in
      let v' = subst (λ (m : ℕ). IsNode elems m (up_of i (j / 2)) up') (sym higher) v in
      (
        set_node (set_node layer (suc i) j node') i (j / 2) up',
        clock_at-run layer (suc i) j i (j / 2) (layers - suc i - 1) node node' up up' read n.parent
            read' runs,
        set_node-IsTree (set_node layer (suc i) j node') i (j / 2) up'
            (set_node-IsTree layer (suc i) j node' h p q n') (omega arith) half v',
      )

  layer_clock-IsTree :
      (left i j : ℕ) (layer : List (List FatNode))
      → IsTree elems layers layer
      → i < layers
      → left + j ≤ 2 ^ i
      → Yields (IsTree elems layers) (layer_clock left i j (layers - i - 1) layer)
  unfolding layer_clock
  layer_clock-IsTree zero i j layer h p q = (layer, refl, h)
  layer_clock-IsTree (suc left) i j layer h p q =
      bind-Yields (IsTree elems layers) (IsTree elems layers) (clock_at layer i j (layers - i - 1))
        _ (clock_at-IsTree layer i j h p (omega arith))
        (λ layer' h'. layer_clock-IsTree left i (j + 1) layer' h' p (omega arith))

  pub clock_layers-IsTree :
      (left i : ℕ) (layer : List (List FatNode))
      → IsTree elems layers layer
      → left + i ≤ layers
      → Yields (IsTree elems layers) (clock_layers left i layers layer)
  unfolding clock_layers
  clock_layers-IsTree zero i layer h p = (layer, refl, h)
  clock_layers-IsTree (suc left) i layer h p =
      bind-Yields (IsTree elems layers) (IsTree elems layers)
        (layer_clock (2 ^ i) i 0 (layers - i - 1) layer) _
        (layer_clock-IsTree (2 ^ i) i 0 layer h (omega arith) (omega arith))
        (λ layer' h'. clock_layers-IsTree left (i + 1) layer' h' (omega arith))
