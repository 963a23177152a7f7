-- ===== src/Mesh/Space.antt =====
-- src/mesh/node3d.c and include/gran/mesh/node3d.h: a router of a space of routers, with six neighbours.
-- North is the larger y, east the larger x, up the larger z.
pub mod Addr
pub mod Path
use gran.Prelude.{
  ℕ, zero, suc, ◌+◌, ◌*◌, ◌/◌, ◌%◌, ◌^◌, bit_or, Bool, true, false, ◌&&◌, Option, none, some, List,
  [], ◌∷◌, ltb, leb, ◌==◌, if◌then◌else◌, ◌>>=◌, replicate, u64,
}
use gran.Packet.{Packet}
use gran.Component.{Stat, ok, enosuch, Ptr, Env}
use gran.Reg.{Reg, empty_reg}
use gran.Mesh.{Call, elem_calls, connect_port, receive_at, clock_registers}

-- `addr_mesh3d`: the coordinates, the element and the offset of an address.
abbrev pub space_z : ℕ → ℕ
space_z addr = addr / 2 ^ 56 % 2 ^ 8

abbrev pub space_y : ℕ → ℕ
space_y addr = addr / 2 ^ 48 % 2 ^ 8

abbrev pub space_x : ℕ → ℕ
space_x addr = addr / 2 ^ 40 % 2 ^ 8

abbrev pub space_elem : ℕ → ℕ
space_elem addr = addr / 2 ^ 32 % 2 ^ 8

abbrev pub space_off : ℕ → ℕ
space_off addr = addr % 2 ^ 32

unfoldable pub mesh3d_addr : ℕ → ℕ → ℕ → ℕ → ℕ → ℕ
mesh3d_addr x y z elem off =
    bit_or
      (bit_or (bit_or (bit_or off (u64 (elem * 2 ^ 32))) (u64 (x * 2 ^ 40))) (u64 (y * 2 ^ 48)))
      (u64 (z * 2 ^ 56))

pub record Node3d : Type 0 where
  pub x : ℕ
  pub y : ℕ
  pub z : ℕ
  pub elems : ℕ
  pub timestamp : ℕ
  pub ins : List Reg
  pub outs : List Reg
  pub ports : List Ptr

unfoldable pub create_mesh_node3d : ℕ → ℕ → ℕ → ℕ → Node3d
create_mesh_node3d x y z elems = record {
  x = x;
  y = y;
  z = z;
  elems = elems;
  timestamp = 0;
  ins = replicate (elems + 6) empty_reg;
  outs = replicate (elems + 6) empty_reg;
  ports = replicate (elems + 6) none;
}

-- The selectors, with the fields of the helper as arguments.
unfoldable pub north_sel : ℕ → Reg → Bool
north_sel y r = ltb y (space_y r.pkt.to)

unfoldable pub south_sel : ℕ → Reg → Bool
south_sel y r = ltb (space_y r.pkt.to) y

unfoldable pub east_sel : ℕ → ℕ → Reg → Bool
east_sel x y r = space_y r.pkt.to == y && ltb x (space_x r.pkt.to)

unfoldable pub west_sel : ℕ → ℕ → Reg → Bool
west_sel x y r = space_y r.pkt.to == y && ltb (space_x r.pkt.to) x

unfoldable pub up_sel : ℕ → ℕ → ℕ → Reg → Bool
up_sel x y z r = space_y r.pkt.to == y && (space_x r.pkt.to == x && ltb z (space_z r.pkt.to))

unfoldable pub down_sel : ℕ → ℕ → ℕ → Reg → Bool
down_sel x y z r = space_y r.pkt.to == y && (space_x r.pkt.to == x && ltb (space_z r.pkt.to) z)

unfoldable pub elem_sel : ℕ → ℕ → ℕ → ℕ → Reg → Bool
elem_sel x y z elem r =
    space_x r.pkt.to == x
    && (space_y r.pkt.to == y && (space_z r.pkt.to == z && space_elem r.pkt.to == elem))

-- The calls of `propagate` in `node3d_clock`, where `r` points to the oldest packet of the elements.
unfoldable pub node3d_calls : ℕ → ℕ → ℕ → ℕ → Option ℕ → List Call
node3d_calls x y z elems r =
    let north = some elems in
    let east = some (elems + 1) in
    let south = some (elems + 2) in
    let west = some (elems + 3) in
    let up = some (elems + 4) in
    let down = some (elems + 5) in
    record { place = elems; froms = r ∷ east ∷ south ∷ west ∷ up ∷ down ∷ []; wants = north_sel y }
    ∷ record {
      place = elems + 1;
      froms = r ∷ north ∷ south ∷ west ∷ up ∷ down ∷ [];
      wants = east_sel x y;
    }
    ∷ record {
      place = elems + 2;
      froms = r ∷ north ∷ east ∷ west ∷ up ∷ down ∷ [];
      wants = south_sel y;
    }
    ∷ record {
      place = elems + 3;
      froms = r ∷ north ∷ east ∷ south ∷ up ∷ down ∷ [];
      wants = west_sel x y;
    }
    ∷ record {
      place = elems + 4;
      froms = r ∷ north ∷ east ∷ west ∷ south ∷ down ∷ [];
      wants = up_sel x y z;
    }
    ∷ record {
      place = elems + 5;
      froms = r ∷ north ∷ east ∷ west ∷ south ∷ up ∷ [];
      wants = down_sel x y z;
    }
    ∷ elem_calls (r ∷ north ∷ east ∷ south ∷ west ∷ up ∷ down ∷ []) (elem_sel x y z) elems 0

unfoldable pub node3d_receive : ℕ → Node3d → Packet → Option (Stat × Node3d)
node3d_receive from n pkt = do
  (ret, ins) ← receive_at n.timestamp n.elems from n.ports (n.elems + 6) 0 n.ins pkt
  some (ret, record n { ins = ins })

unfoldable pub mesh_node3d_connect : Node3d → ℕ → ℕ → Option (Stat × Node3d)
mesh_node3d_connect n component elem = if leb n.elems elem then some (enosuch, n) else (do
  (ret, ports) ← connect_port n.ports elem component
  some (ret, record n { ports = ports }))

unfoldable pub mesh_node3d_connect_north : Node3d → ℕ → Option (Stat × Node3d)
mesh_node3d_connect_north n component = do
  (ret, ports) ← connect_port n.ports (n.elems + 0) component
  some (ret, record n { ports = ports })

unfoldable pub mesh_node3d_connect_east : Node3d → ℕ → Option (Stat × Node3d)
mesh_node3d_connect_east n component = do
  (ret, ports) ← connect_port n.ports (n.elems + 1) component
  some (ret, record n { ports = ports })

unfoldable pub mesh_node3d_connect_south : Node3d → ℕ → Option (Stat × Node3d)
mesh_node3d_connect_south n component = do
  (ret, ports) ← connect_port n.ports (n.elems + 2) component
  some (ret, record n { ports = ports })

unfoldable pub mesh_node3d_connect_west : Node3d → ℕ → Option (Stat × Node3d)
mesh_node3d_connect_west n component = do
  (ret, ports) ← connect_port n.ports (n.elems + 3) component
  some (ret, record n { ports = ports })

unfoldable pub mesh_node3d_connect_up : Node3d → ℕ → Option (Stat × Node3d)
mesh_node3d_connect_up n component = do
  (ret, ports) ← connect_port n.ports (n.elems + 4) component
  some (ret, record n { ports = ports })

unfoldable pub mesh_node3d_connect_down : Node3d → ℕ → Option (Stat × Node3d)
mesh_node3d_connect_down n component = do
  (ret, ports) ← connect_port n.ports (n.elems + 5) component
  some (ret, record n { ports = ports })

module _ (e : Env) where
  open e use {Rest}

  unfoldable pub node3d_clock : ℕ → Node3d → Rest → Option (Stat × Node3d × Rest)
  node3d_clock self n rest = do
    ((ins, outs), rest') ←
        clock_registers e self n.elems (n.elems + 6) (node3d_calls n.x n.y n.z n.elems) n.ports
          (n.ins, n.outs) rest
    some (ok, record n { timestamp = u64 (n.timestamp + 1); ins = ins; outs = outs }, rest')
