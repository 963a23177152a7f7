-- ===== src/Mesh/Plane.antt =====
-- src/mesh/node2d.c and include/gran/mesh/node2d.h: a router of a grid, with four neighbours. North is the
-- larger y, east the larger x.
pub mod Addr
pub mod Path
use gran.Prelude.{
  ℕ, zero, suc, ◌+◌, ◌*◌, ◌/◌, ◌%◌, ◌^◌, bit_or, Bool, true, false, ◌&&◌, Option, none, some, List,
  [], ◌∷◌, ltb, leb, ◌==◌, if◌then◌else◌, ◌>>=◌, replicate, u64,
}
use gran.Packet.{Packet}
use gran.Component.{Stat, ok, enosuch, Ptr, Env}
use gran.Reg.{Reg, empty_reg}
use gran.Mesh.{Call, elem_calls, connect_port, receive_at, clock_registers}

-- `addr_mesh2d`: the coordinates, the element and the offset of an address.
abbrev pub plane_y : ℕ → ℕ
plane_y addr = addr / 2 ^ 56 % 2 ^ 8

abbrev pub plane_x : ℕ → ℕ
plane_x addr = addr / 2 ^ 48 % 2 ^ 8

abbrev pub plane_elem : ℕ → ℕ
plane_elem addr = addr / 2 ^ 32 % 2 ^ 16

abbrev pub plane_off : ℕ → ℕ
plane_off addr = addr % 2 ^ 32

unfoldable pub mesh2d_addr : ℕ → ℕ → ℕ → ℕ → ℕ
mesh2d_addr x y elem off =
    bit_or (bit_or (bit_or off (u64 (elem * 2 ^ 32))) (u64 (x * 2 ^ 48))) (u64 (y * 2 ^ 56))

pub record Node2d : Type 0 where
  pub x : ℕ
  pub y : ℕ
  pub elems : ℕ
  pub timestamp : ℕ
  pub ins : List Reg
  pub outs : List Reg
  pub ports : List Ptr

unfoldable pub create_mesh_node2d : ℕ → ℕ → ℕ → Node2d
create_mesh_node2d x y elems = record {
  x = x;
  y = y;
  elems = elems;
  timestamp = 0;
  ins = replicate (elems + 4) empty_reg;
  outs = replicate (elems + 4) empty_reg;
  ports = replicate (elems + 4) none;
}

-- The selectors, with the fields of the helper as arguments.
unfoldable pub north_sel : ℕ → Reg → Bool
north_sel y r = ltb y (plane_y r.pkt.to)

unfoldable pub south_sel : ℕ → Reg → Bool
south_sel y r = ltb (plane_y r.pkt.to) y

unfoldable pub east_sel : ℕ → ℕ → Reg → Bool
east_sel x y r = plane_y r.pkt.to == y && ltb x (plane_x r.pkt.to)

unfoldable pub west_sel : ℕ → ℕ → Reg → Bool
west_sel x y r = plane_y r.pkt.to == y && ltb (plane_x r.pkt.to) x

unfoldable pub elem_sel : ℕ → ℕ → ℕ → Reg → Bool
elem_sel x y elem r =
    plane_x r.pkt.to == x && (plane_y r.pkt.to == y && plane_elem r.pkt.to == elem)

-- The calls of `propagate` in `node2d_clock`, where `r` points to the oldest packet of the elements.
unfoldable pub node2d_calls : ℕ → ℕ → ℕ → Option ℕ → List Call
node2d_calls x y elems r =
    let north = some elems in
    let east = some (elems + 1) in
    let south = some (elems + 2) in
    let west = some (elems + 3) in
    record { place = elems; froms = r ∷ east ∷ south ∷ west ∷ []; wants = north_sel y }
    ∷ record { place = elems + 1; froms = r ∷ north ∷ south ∷ west ∷ []; wants = east_sel x y }
    ∷ record { place = elems + 2; froms = r ∷ north ∷ east ∷ west ∷ []; wants = south_sel y }
    ∷ record { place = elems + 3; froms = r ∷ north ∷ east ∷ south ∷ []; wants = west_sel x y }
    ∷ elem_calls (r ∷ north ∷ east ∷ south ∷ west ∷ []) (elem_sel x y) elems 0

unfoldable pub node2d_receive : ℕ → Node2d → Packet → Option (Stat × Node2d)
node2d_receive from n pkt = do
  (ret, ins) ← receive_at n.timestamp n.elems from n.ports (n.elems + 4) 0 n.ins pkt
  some (ret, record n { ins = ins })

unfoldable pub mesh_node2d_connect : Node2d → ℕ → ℕ → Option (Stat × Node2d)
mesh_node2d_connect n component elem = if leb n.elems elem then some (enosuch, n) else (do
  (ret, ports) ← connect_port n.ports elem component
  some (ret, record n { ports = ports }))

unfoldable pub mesh_node2d_connect_north : Node2d → ℕ → Option (Stat × Node2d)
mesh_node2d_connect_north n component = do
  (ret, ports) ← connect_port n.ports (n.elems + 0) component
  some (ret, record n { ports = ports })

unfoldable pub mesh_node2d_connect_east : Node2d → ℕ → Option (Stat × Node2d)
mesh_node2d_connect_east n component = do
  (ret, ports) ← connect_port n.ports (n.elems + 1) component
  some (ret, record n { ports = ports })

unfoldable pub mesh_node2d_connect_south : Node2d → ℕ → Option (Stat × Node2d)
mesh_node2d_connect_south n component = do
  (ret, ports) ← connect_port n.ports (n.elems + 2) component
  some (ret, record n { ports = ports })

unfoldable pub mesh_node2d_connect_west : Node2d → ℕ → Option (Stat × Node2d)
mesh_node2d_connect_west n component = do
  (ret, ports) ← connect_port n.ports (n.elems + 3) component
  some (ret, record n { ports = ports })

module _ (e : Env) where
  open e use {Rest}

  unfoldable pub node2d_clock : ℕ → Node2d → Rest → Option (Stat × Node2d × Rest)
  node2d_clock self n rest = do
    ((ins, outs), rest') ←
        clock_registers e self n.elems (n.elems + 4) (node2d_calls n.x n.y n.elems) n.ports
          (n.ins, n.outs) rest
    some (ok, record n { timestamp = u64 (n.timestamp + 1); ins = ins; outs = outs }, rest')
