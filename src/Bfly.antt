-- ===== src/Bfly.antt =====
-- src/bfly/fat_bfly.c, include/gran/bfly/fat_bfly.h and include/gran/utils.h: a network in the shape of a
-- binary tree of register banks. The pointer `up` of a node is the place of its parent: a layer, and a node in it.
pub mod Bank
pub mod Clock
pub mod Create
pub mod Feed
pub mod Node
pub mod Tree
use gran.Prelude.{
  ℕ, zero, suc, ◌+◌, ◌-◌, ◌*◌, ◌/◌, ◌%◌, ◌^◌, bit_and, Bool, true, false, not, ◌&&◌, Option, none,
  some, List, [], ◌∷◌, ltb, ◌==◌, if◌then◌else◌, ◌>>=◌, ◌>>◌, assert, length, get_elem?, set,
  replicate, u32,
}
use gran.Packet.{Packet, ffsll}
use gran.Component.{Stat, ok, ebusy, is_ebusy, Ptr, Env, send}
use gran.Reg.{Reg, empty_reg}

-- The element of `addr_fat_bfly`.
abbrev pub fat_elem : ℕ → ℕ
fat_elem addr = addr / 2 ^ 32 % 2 ^ 32

-- `__builtin_popcountll`
unfoldable pub popcount : ℕ → ℕ → ℕ
popcount zero x = 0
popcount (suc w) x = x % 2 + popcount w (x / 2)

unfoldable pub is_powerof2 : ℕ → Bool
is_powerof2 x = popcount 64 x == 1

unfoldable pub log2ull : ℕ → ℕ
log2ull x = ffsll x - 1

pub record FatNode : Type 0 where
  pub up : Option (ℕ × ℕ)
  pub left : List Reg
  pub right : List Reg
  pub out : List Reg

pub record FatBfly : Type 0 where
  pub elems : ℕ
  pub in_regs : List Reg
  pub send_to : List Ptr
  pub layers : ℕ
  pub layer : List (List FatNode)

-- `bfly->layer[i][j]`
abbrev pub node_of : Option (List FatNode) → ℕ → Option FatNode
node_of none j = none
node_of (some row) j = get_elem? row j

abbrev pub get_node : List (List FatNode) → ℕ → ℕ → Option FatNode
get_node layer i j = node_of (get_elem? layer i) j

abbrev row_with :
    List (List FatNode) → ℕ → ℕ → FatNode → Option (List FatNode) → List (List FatNode)
row_with layer i j node none = layer
row_with layer i j node (some row) = set layer i (set row j node)

abbrev pub set_node : List (List FatNode) → ℕ → ℕ → FatNode → List (List FatNode)
set_node layer i j node = row_with layer i j node (get_elem? layer i)

abbrev pub bank_of : FatNode → Bool → List Reg
bank_of node left = if left then node.left else node.right

abbrev pub with_bank : FatNode → Bool → List Reg → FatNode
with_bank node left rs = if left then record node { left = rs } else record node { right = rs }

unfoldable pub node_receive : FatNode → Packet → ℕ → Bool → Option (Stat × FatNode)
node_receive node pkt idx left = do
  r ← get_elem? (bank_of node left) idx
  some (
      if r.busy then (ebusy, node) else (
        ok,
        with_bank node left (set (bank_of node left) idx (record { pkt = pkt; busy = true })),
      ))

-- `(elem >> height) & 1`
abbrev pub wants_right : ℕ → Packet → Bool
wants_right height pkt = fat_elem pkt.to / 2 ^ height % 2 == 1

-- A round of the first loop of `node_clock`: the node and its parent after it.
unfoldable pub push_one : ℕ → ℕ → FatNode → FatNode → Option (FatNode × FatNode)
push_one height i node up = do
  r ← get_elem? node.out i
  if not r.busy then some (node, up) else (do
    (ret, up') ← node_receive up r.pkt i (wants_right height r.pkt)
    some (
        if is_ebusy ret
        then (node, up)
        else (record node { out = set node.out i (record r { busy = false }) }, up')))

unfoldable pub push_all : ℕ → ℕ → ℕ → FatNode → FatNode → Option (FatNode × FatNode)
push_all zero i height node up = some (node, up)
push_all (suc left) i height node up = do
  (node', up') ← push_one height i node up
  push_all left (i + 1) height node' up'

-- Output `i` takes the packet of an input register `s` in place `k` of a bank.
abbrev pub take_from : FatNode → ℕ → Bool → ℕ → Reg → FatNode
take_from node i left k s =
    with_bank (record node { out = set node.out i (record { pkt = s.pkt; busy = true }) }) left
      (set (bank_of node left) k (record s { busy = false }))

abbrev pub accepts : ℕ → ℕ → ℕ → Reg → Bool
accepts count height i r =
    r.busy
    && (if ltb i (count / 2) then not (wants_right height r.pkt) else wants_right height r.pkt)

-- The registers that a round of the second loop picks from.
abbrev pub pick_one : ℕ → ℕ → FatNode → ℕ → ℕ → Reg → Reg → FatNode
pick_one count height node i k l r =
    let al = accepts count height i l in
    let ar = accepts count height i r in
    if not al && not ar
    then node
    else if (if al && ar then ltb l.pkt.timestamp r.pkt.timestamp else al)
    then take_from node i true k l
    else take_from node i false k r

-- A round of the second loop of `node_clock`.
unfoldable pub populate_one : ℕ → ℕ → ℕ → FatNode → Option FatNode
populate_one count height i node = do
  o ← get_elem? node.out i
  if o.busy then some node else (do
    let k = bit_and i (count / 2 - 1)
    l ← get_elem? node.left k
    r ← get_elem? node.right k
    some (pick_one count height node i k l r))

unfoldable pub populate_all : ℕ → ℕ → ℕ → ℕ → FatNode → Option FatNode
populate_all zero i count height node = some node
populate_all (suc left) i count height node = do
  node' ← populate_one count height i node
  populate_all left (i + 1) count height node'

-- The node and its parent after the clock; the topmost node has none.
unfoldable pub node_clock : FatNode → Option FatNode → ℕ → ℕ → Option (FatNode × Option FatNode)
node_clock node none count height = do
  node' ← populate_all count 0 count height node
  some (node', none)
node_clock node (some up) count height = do
  (node', up') ← push_all count 0 height node up
  node'' ← populate_all count 0 count height node'
  some (node'', some up')

-- The parent behind the pointer `up`, and the tree after a write to it.
abbrev pub parent_of : List (List FatNode) → Option (ℕ × ℕ) → Option (Option FatNode)
parent_of layer none = some none
parent_of layer (some (i, j)) = do node ← get_node layer i j; some (some node)

abbrev pub set_parent : List (List FatNode) → Option (ℕ × ℕ) → Option FatNode → List (List FatNode)
set_parent layer none up = layer
set_parent layer (some (i, j)) none = layer
set_parent layer (some (i, j)) (some up) = set_node layer i j up

unfoldable pub clock_at : List (List FatNode) → ℕ → ℕ → ℕ → Option (List (List FatNode))
clock_at layer i j height = do
  node ← get_node layer i j
  up ← parent_of layer node.up
  (node', up') ← node_clock node up (2 * 2 ^ height) height
  some (set_parent (set_node layer i j node') node.up up')

-- The loop of `layer_clock` over the nodes of layer `i`.
unfoldable pub layer_clock : ℕ → ℕ → ℕ → ℕ → List (List FatNode) → Option (List (List FatNode))
layer_clock zero i j height layer = some layer
layer_clock (suc left) i j height layer = do
  layer' ← clock_at layer i j height
  layer_clock left i (j + 1) height layer'

-- The second loop of `fat_bfly_clock`.
unfoldable pub clock_layers : ℕ → ℕ → ℕ → List (List FatNode) → Option (List (List FatNode))
clock_layers zero i layers layer = some layer
clock_layers (suc left) i layers layer = do
  layer' ← layer_clock (2 ^ i) i 0 (layers - i - 1) layer
  clock_layers left (i + 1) layers layer'

-- A round of the last loop of `fat_bfly_clock`: the inputs and the tree after it.
unfoldable pub feed_one :
    ℕ → ℕ → List Reg → List (List FatNode) → Option (List Reg × List (List FatNode))
feed_one layers i in_regs layer = do
  r ← get_elem? in_regs i
  if not r.busy then some (in_regs, layer) else (do
    node ← get_node layer (layers - 1) (i / 2)
    (ret, node') ← node_receive node r.pkt 0 (i % 2 == 1)
    some (
        if is_ebusy ret then (in_regs, layer) else (
          set in_regs i (record r { busy = false }),
          set_node layer (layers - 1) (i / 2) node',
        )))

unfoldable pub feed_all :
    ℕ → ℕ → ℕ → List Reg → List (List FatNode) → Option (List Reg × List (List FatNode))
feed_all zero i layers in_regs layer = some (in_regs, layer)
feed_all (suc left) i layers in_regs layer = do
  (in_regs', layer') ← feed_one layers i in_regs layer
  feed_all left (i + 1) layers in_regs' layer'

abbrev is_ptr : Ptr → ℕ → Bool
is_ptr none c = false
is_ptr (some p) c = p == c

unfoldable pub fat_bfly_receive : FatBfly → ℕ → Packet → Option (Stat × FatBfly)
fat_bfly_receive bfly from pkt = do
  let elem = fat_elem pkt.from
  assert (ltb elem bfly.elems)
  to ← get_elem? bfly.send_to elem
  assert (is_ptr to from)
  r ← get_elem? bfly.in_regs elem
  some (
      if r.busy then (ebusy, bfly) else (
        ok,
        record bfly { in_regs = set bfly.in_regs elem (record { pkt = pkt; busy = true }) },
      ))

-- The place of the parent of node `j` in layer `i`.
abbrev pub up_of : ℕ → ℕ → Option (ℕ × ℕ)
up_of zero j = none
up_of (suc i) j = some (i, j / 2)

-- The nodes of a layer of `count`, from node `j` on.
unfoldable pub create_nodes : ℕ → ℕ → ℕ → ℕ → ℕ → List FatNode
create_nodes zero i j elems count = []
create_nodes (suc left) i j elems count =
    let rest = create_nodes left i (j + 1) elems count in
    record {
      up = up_of i j;
      left = replicate (elems / count) empty_reg;
      right = replicate (elems / count) empty_reg;
      out = replicate (u32 (2 * elems) / count) empty_reg;
    }
    ∷ rest

unfoldable pub create_layers : ℕ → ℕ → ℕ → List (List FatNode)
create_layers zero i elems = []
create_layers (suc left) i elems =
    create_nodes (2 ^ i) i 0 elems (2 ^ i) ∷ create_layers left (i + 1) elems

unfoldable pub create_fat_bfly : ℕ → Option FatBfly
create_fat_bfly elems = do
  assert (is_powerof2 elems)
  let layers = log2ull elems
  assert (not (layers == 0))
  some (record {
    elems = elems;
    in_regs = replicate elems empty_reg;
    send_to = replicate elems none;
    layers = layers;
    layer = create_layers layers 0 elems;
  })

abbrev is_null : Ptr → Bool
is_null none = true
is_null (some p) = false

unfoldable pub fat_bfly_connect : FatBfly → Ptr → ℕ → Option (Stat × FatBfly)
fat_bfly_connect bfly component elem = do
  assert (ltb elem bfly.elems)
  to ← get_elem? bfly.send_to elem
  assert (is_null to)
  some (ok, record bfly { send_to = set bfly.send_to elem component })

module _ (e : Env) where
  open e use {Rest}

  -- A round of the first loop of `fat_bfly_clock`.
  unfoldable pub deliver_one : ℕ → ℕ → List Ptr → List Reg → Rest → Option (List Reg × Rest)
  deliver_one self i send_to out rest = do
    r ← get_elem? out i
    if not r.busy then some (out, rest) else (do
      assert (fat_elem r.pkt.to == i)
      to ← get_elem? send_to i
      (ret, rest') ← send e self to r.pkt rest
      some (if is_ebusy ret then (out, rest') else (set out i (record r { busy = false }), rest')))

  unfoldable pub deliver_all : ℕ → ℕ → ℕ → List Ptr → List Reg → Rest → Option (List Reg × Rest)
  deliver_all zero i self send_to out rest = some (out, rest)
  deliver_all (suc left) i self send_to out rest = do
    (out', rest') ← deliver_one self i send_to out rest
    deliver_all left (i + 1) self send_to out' rest'

  unfoldable pub fat_bfly_clock : ℕ → FatBfly → Rest → Option (Stat × FatBfly × Rest)
  fat_bfly_clock self bfly rest = do
    top ← get_node bfly.layer 0 0
    (out, rest') ← deliver_all bfly.elems 0 self bfly.send_to top.out rest
    layer' ←
        clock_layers bfly.layers 0 bfly.layers (set_node bfly.layer 0 0 (record top { out = out }))
    (in_regs, layer'') ← feed_all bfly.elems 0 bfly.layers bfly.in_regs layer'
    some (ok, record bfly { in_regs = in_regs; layer = layer'' }, rest')
