-- ===== src/Mesh/Line.antt =====
-- src/mesh/node1d.c and include/gran/mesh/node1d.h: a router of a line of routers, with a neighbour to the
-- north (the larger numbers) and one to the south.
pub mod Addr
pub mod Path
use gran.Prelude.{
  ℕ, zero, suc, ◌+◌, ◌*◌, ◌/◌, ◌%◌, ◌^◌, bit_or, Bool, true, false, ◌&&◌, Option, none, some, List,
  [], ◌∷◌, ◌++◌, ltb, leb, ◌==◌, if◌then◌else◌, ◌>>=◌, get_elem?, replicate, u16, u64,
}
use gran.Packet.{Packet}
use gran.Component.{Stat, ok, eexists, enosuch, Ptr, Env}
use gran.Reg.{Reg, empty_reg}
use gran.Mesh.{Call, elem_calls, connect_port, place_in, is_port, clock_registers}

-- `addr_mesh1d`: the cluster, the element and the offset of an address.
abbrev pub line_cluster : ℕ → ℕ
line_cluster addr = addr / 2 ^ 48 % 2 ^ 16

abbrev pub line_elem : ℕ → ℕ
line_elem addr = addr / 2 ^ 32 % 2 ^ 16

abbrev pub line_off : ℕ → ℕ
line_off addr = addr % 2 ^ 32

unfoldable pub mesh1d_addr : ℕ → ℕ → ℕ → ℕ
mesh1d_addr cluster elem off = bit_or (bit_or (u64 (cluster * 2 ^ 48)) (u64 (elem * 2 ^ 32))) off

pub record Node1d : Type 0 where
  pub cluster : ℕ
  pub elems : ℕ
  pub timestamp : ℕ
  pub ins : List Reg
  pub outs : List Reg
  pub ports : List Ptr

unfoldable pub create_mesh_node1d : ℕ → ℕ → Node1d
create_mesh_node1d cluster elems = record {
  cluster = cluster;
  elems = elems;
  timestamp = 0;
  ins = replicate (elems + 2) empty_reg;
  outs = replicate (elems + 2) empty_reg;
  ports = replicate (elems + 2) none;
}

-- `north_sel`, `south_sel` and `elem_sel`, with the fields of the helper as arguments.
unfoldable pub north_sel : ℕ → Reg → Bool
north_sel cluster r = ltb cluster (line_cluster r.pkt.to)

unfoldable pub south_sel : ℕ → Reg → Bool
south_sel cluster r = ltb (line_cluster r.pkt.to) cluster

unfoldable pub elem_sel : ℕ → ℕ → Reg → Bool
elem_sel cluster elem r = line_cluster r.pkt.to == cluster && line_elem r.pkt.to == elem

-- The calls of `propagate` in `node1d_clock`, where `r` points to the oldest packet of the elements.
unfoldable pub node1d_calls : ℕ → ℕ → Option ℕ → List Call
node1d_calls cluster elems r =
    let north = some elems in
    let south = some (elems + 1) in
    record { place = elems; froms = r ∷ south ∷ []; wants = north_sel cluster }
    ∷ record { place = elems + 1; froms = r ∷ north ∷ []; wants = south_sel cluster }
    ∷ elem_calls (r ∷ north ∷ south ∷ []) (elem_sel cluster) elems 0

-- The loop of `node1d_receive`: the stamp is put on the packet before the port is compared, so it stays on
-- it in the rounds after.
unfoldable pub node1d_receive_at :
    (timestamp elems from : ℕ)
    → List Ptr
    → (left i : ℕ) → List Reg
    → Packet
    → Option (Stat × List Reg)
node1d_receive_at timestamp elems from ports zero i ins pkt = none
node1d_receive_at timestamp elems from ports (suc left) i ins pkt = do
  port ← get_elem? ports i
  let pkt' = if ltb i elems then record pkt { timestamp = timestamp } else pkt
  let rest = node1d_receive_at timestamp elems from ports left (i + 1) ins pkt'
  if is_port from port then place_in ins i pkt' else rest

unfoldable pub node1d_receive : ℕ → Node1d → Packet → Option (Stat × Node1d)
node1d_receive from n pkt = do
  (ret, ins) ← node1d_receive_at n.timestamp n.elems from n.ports (n.elems + 2) 0 n.ins pkt
  some (ret, record n { ins = ins })

unfoldable pub mesh_node1d_connect : Node1d → ℕ → ℕ → Option (Stat × Node1d)
mesh_node1d_connect n component elem = if leb n.elems elem then some (enosuch, n) else (do
  (ret, ports) ← connect_port n.ports elem component
  some (ret, record n { ports = ports }))

unfoldable pub mesh_node1d_connect_north : Node1d → ℕ → Option (Stat × Node1d)
mesh_node1d_connect_north n component = do
  (ret, ports) ← connect_port n.ports (n.elems + 0) component
  some (ret, record n { ports = ports })

unfoldable pub mesh_node1d_connect_south : Node1d → ℕ → Option (Stat × Node1d)
mesh_node1d_connect_south n component = do
  (ret, ports) ← connect_port n.ports (n.elems + 1) component
  some (ret, record n { ports = ports })

module _ (e : Env) where
  open e use {Rest}

  unfoldable pub node1d_clock : ℕ → Node1d → Rest → Option (Stat × Node1d × Rest)
  node1d_clock self n rest = do
    ((ins, outs), rest') ←
        clock_registers e self n.elems (n.elems + 2) (node1d_calls n.cluster n.elems) n.ports
          (n.ins, n.outs) rest
    some (ok, record n { timestamp = u64 (n.timestamp + 1); ins = ins; outs = outs }, rest')
