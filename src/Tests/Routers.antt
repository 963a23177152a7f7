-- ===== src/Tests/Routers.antt =====
-- The routers at concrete inputs.
use gran.Prelude.{
  ℕ, zero, suc, ◌≡◌, ◌+◌, ◌<◌, ◌^◌, ◌*◌, true, false, none, some, List, [], ◌∷◌, arith, refl,
  replicate, get_elem?, set, u64,
}
use gran.Packet.{Packet}
use gran.Component.{ok, ebusy, Ptr}
use gran.Reg.{Reg, empty_reg, propagate}
use gran.Reg.Propagate.{full_reg, Arbitrated, propagate-Arbitrated}
use gran.Mesh.{clock_outputs}
use gran.Mesh.Send.{Delivered, clock_outputs-Delivered}
use gran.Mesh.Receive.{IsFirstPort, stamped, node1d_receive-first, node2d_receive-first}
use gran.Mesh.Clock.{Conserved, node2d_clock-Conserved, node3d_clock-Conserved}
use gran.Mesh.{is_port}
use gran.Mesh.Hops.{claims}
use gran.Mesh.Line.{Node1d, node1d_receive}
use gran.Mesh.Plane.{Node2d, node2d_receive, node2d_clock}
use gran.Mesh.Space.{
  Node3d, node3d_clock, node3d_calls, space_x, space_y, space_z, space_elem, space_off, mesh3d_addr,
}
use gran.Mesh.Space.Addr.{mesh3d_addr-parts}
use gran.Mesh.Space.Path.{node3d_calls-exclusive, space_walk-arrives}
use gran.Mesh.Space.Path as SpacePath
use gran.Tests.Setup.{mailbox, mailbox-Answers, letter, all_there-Connected}

-- To the element 0 of the router 2 of a line, and of the routers (2, 1) and (2, 1, 3).
abbrev line_reg : Reg
line_reg = full_reg (letter (2 * 2 ^ 48))

abbrev plane_reg : Reg
plane_reg = full_reg (letter (2 * 2 ^ 48 + 2 ^ 56))

abbrev space_reg : Reg
space_reg = full_reg (letter (2 * 2 ^ 40 + 2 ^ 48 + 3 * 2 ^ 56))

abbrev node1 : Node1d
node1 = record {
  cluster = 1;
  elems = 1;
  timestamp = 5;
  ins = line_reg ∷ empty_reg ∷ empty_reg ∷ [];
  outs = empty_reg ∷ line_reg ∷ empty_reg ∷ [];
  ports = some 10 ∷ some 11 ∷ some 12 ∷ [];
}

abbrev node2 : Node2d
node2 = record {
  x = 1;
  y = 1;
  elems = 1;
  timestamp = 5;
  ins = plane_reg ∷ replicate 4 empty_reg;
  outs = plane_reg ∷ replicate 4 empty_reg;
  ports = some 10 ∷ some 11 ∷ some 12 ∷ some 13 ∷ some 14 ∷ [];
}

abbrev node3 : Node3d
node3 = record {
  x = 1;
  y = 1;
  z = 1;
  elems = 1;
  timestamp = 5;
  ins = space_reg ∷ replicate 6 empty_reg;
  outs = space_reg ∷ replicate 6 empty_reg;
  ports = some 10 ∷ some 11 ∷ some 12 ∷ some 13 ∷ some 14 ∷ some 15 ∷ some 16 ∷ [];
}

propagate-Arbitrated_example :
    (out' : Reg) × (regs' : List Reg) × (propagate empty_reg
        (line_reg ∷ [])
        (none ∷ some 0 ∷ [])
        (λ r. true)
      ≡ some (out', regs'))
    × Arbitrated (λ r. true) (none ∷ some 0 ∷ []) empty_reg (line_reg ∷ []) out' regs'
propagate-Arbitrated_example =
    propagate-Arbitrated (λ r. true) (none ∷ some 0 ∷ []) empty_reg (line_reg ∷ [])
      (omega arith, tt)

node2d_clock-Conserved_example :
    (n' : Node2d) × (rest' : List Packet) × (mid : List Reg) × (sent : List Packet) × (node2d_clock
        mailbox 9 node2 []
      ≡ some (ok, n', rest'))
    × Delivered mailbox 9 node2.ports (node2.elems + 4) 0 node2.outs [] sent mid rest'
    × (n'.timestamp ≡ u64 (node2.timestamp + 1))
    × Conserved (node2.ins, node2.outs) (n'.ins, n'.outs) sent
node2d_clock-Conserved_example =
    node2d_clock-Conserved mailbox mailbox-Answers 9 node2 [] refl refl refl
      (all_there-Connected node2.ports node2.outs refl)

node3d_clock-Conserved_example :
    (n' : Node3d) × (rest' : List Packet) × (mid : List Reg) × (sent : List Packet) × (node3d_clock
        mailbox 9 node3 []
      ≡ some (ok, n', rest'))
    × Delivered mailbox 9 node3.ports (node3.elems + 6) 0 node3.outs [] sent mid rest'
    × (n'.timestamp ≡ u64 (node3.timestamp + 1))
    × Conserved (node3.ins, node3.outs) (n'.ins, n'.outs) sent
node3d_clock-Conserved_example =
    node3d_clock-Conserved mailbox mailbox-Answers 9 node3 [] refl refl refl
      (all_there-Connected node3.ports node3.outs refl)

node3d_calls-exclusive_example : claims space_reg (node3d_calls 2 1 0 1 none) ≡ 1
node3d_calls-exclusive_example = node3d_calls-exclusive 2 1 0 1 none space_reg (omega arith)

space_walk-arrives_example :
    SpacePath.walk (SpacePath.distance space_reg (5, 4, 7)) space_reg (5, 4, 7)
    ≡ (space_x space_reg.pkt.to, space_y space_reg.pkt.to, space_z space_reg.pkt.to)
space_walk-arrives_example = space_walk-arrives space_reg (5, 4, 7)

mesh3d_addr-parts_example :
    (space_x (mesh3d_addr 1 2 3 4 5) ≡ 1)
    × (space_y (mesh3d_addr 1 2 3 4 5) ≡ 2)
    × (space_z (mesh3d_addr 1 2 3 4 5) ≡ 3)
    × (space_elem (mesh3d_addr 1 2 3 4 5) ≡ 4)
    × (space_off (mesh3d_addr 1 2 3 4 5) ≡ 5)
mesh3d_addr-parts_example =
    mesh3d_addr-parts 1 2 3 4 5 (omega arith) (omega arith) (omega arith) (omega arith)
      (omega arith)

north_of_line : IsFirstPort 11 node1.ports 1
north_of_line = record { connected = refl; first = λ j port h read. only_first j port h read }
  where
    only_first :
        (j : ℕ) (port : Ptr) → j < 1 → get_elem? node1.ports j ≡ some port → is_port 11 port ≡ false
    only_first zero none h read = refl
    only_first zero (some p) h read = ground arith
    only_first (suc j) port h read = absurd (omega arith)

element_of_plane : IsFirstPort 10 node2.ports 0
element_of_plane = record { connected = refl; first = λ j port h read. absurd (omega arith) }

node1d_receive-first_example :
    node1d_receive 11 node1 (letter 0)
    ≡ some (ok, record node1 { ins = set node1.ins 1 (full_reg (stamped 5 true (letter 0))) })
node1d_receive-first_example =
    node1d_receive-first 11 node1 (letter 0) 1 empty_reg north_of_line (omega arith) refl

node2d_receive-first_example : node2d_receive 10 node2 (letter 0) ≡ some (ebusy, node2)
node2d_receive-first_example =
    node2d_receive-first 10 node2 (letter 0) 0 plane_reg element_of_plane (omega arith) refl

clock_outputs-Delivered_example :
    (outs' : List Reg) × (rest' : List Packet) × (ps : List Packet) × (clock_outputs mailbox 9
        node2.ports 5 0 node2.outs []
      ≡ some (outs', rest'))
    × Delivered mailbox 9 node2.ports 5 0 node2.outs [] ps outs' rest'
clock_outputs-Delivered_example =
    clock_outputs-Delivered mailbox 9 node2.ports mailbox-Answers 5 0 node2.outs []
      (all_there-Connected node2.ports node2.outs refl) (omega arith) (omega arith)
