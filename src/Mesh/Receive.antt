-- ===== src/Mesh/Receive.antt =====
-- The `receive` callbacks of the routers.
use gran.Prelude.{
  set-get_elem?, ℕ, zero, suc, ◌≡◌, ◌+◌, ◌≤◌, ◌<◌, Bool, true, false, some, List, arith, refl, ap,
  ◌∙◌, ltb, if◌then◌else◌, get_elem?, set, get_elem?-some, lt_of_get_elem?, Bool-cases, inl, inr,
}
use native.Mathlib.Decide.{ℕ_discrete}
use gran.Packet.{Packet}
use gran.Component.{ok, ebusy, Ptr}
use gran.Reg.{Reg, place_reg}
use gran.Reg.Propagate.{full_reg}
use gran.Mesh.{is_port, place_in, receive_at}
use gran.Mesh.Line.{Node1d, node1d_receive_at, node1d_receive}
use gran.Mesh.Plane.{Node2d, node2d_receive}
use gran.Mesh.Space.{Node3d, node3d_receive}

-- `i` is the first port to which the component is connected.
pub record IsFirstPort (from : ℕ) (ports : List Ptr) (i : ℕ) : Type 0 where
  pub connected : get_elem? ports i ≡ some (some from)
  pub first :
      (j : ℕ) (port : Ptr) → j < i → get_elem? ports j ≡ some port → is_port from port ≡ false

abbrev pub stamped : ℕ → Bool → Packet → Packet
stamped timestamp b pkt = if b then record pkt { timestamp = timestamp } else pkt

place_reg-full : (r : Reg) (pkt : Packet) → r.busy ≡ true → place_reg r pkt ≡ (ebusy, r)
unfolding place_reg
place_reg-full r pkt full = rw full refl

place_in-full :
    (ins : List Reg) (i : ℕ) (pkt : Packet) (r : Reg)
    → get_elem? ins i ≡ some r
    → r.busy ≡ true
    → place_in ins i pkt ≡ some (ebusy, ins)
unfolding place_in
place_in-full ins i pkt r read full =
    rw (read, place_reg-full r pkt full, set-get_elem? ins i r read) refl

place_in-free :
    (ins : List Reg) (i : ℕ) (pkt : Packet) (r : Reg)
    → get_elem? ins i ≡ some r
    → r.busy ≡ false
    → place_in ins i pkt ≡ some (ok, set ins i (full_reg pkt))
unfolding place_in place_reg
place_in-free ins i pkt r read free = rw (read, free) refl

is_port_self : (from : ℕ) → is_port from (some from) ≡ true
is_port_self from = ground arith

receive_at-first :
    (timestamp elems from : ℕ) (ports : List Ptr) (left i : ℕ) (ins : List Reg) (pkt : Packet)
    (place : ℕ)
    → IsFirstPort from ports place
    → i ≤ place
    → place < i + left
    → receive_at timestamp elems from ports left i ins pkt
      ≡ place_in ins place (stamped timestamp (ltb place elems) pkt)
unfolding receive_at
receive_at-first timestamp elems from ports zero i ins pkt place f h k = absurd (omega arith)
receive_at-first timestamp elems from ports (suc left) i ins pkt place f h k =
    elim (ℕ_discrete i place) [
      | yes same ↦ rw (same, f.connected, is_port_self from) refl
      | no other ↦
          let inside = lt_of_get_elem? ports place (some from) f.connected in
          let (port, read) = get_elem?-some ports i (omega arith) in
          rw (read, f.first i port (omega arith) read)
            (receive_at-first timestamp elems from ports left (i + 1) ins pkt place f (omega arith)
              (omega arith))
    ]

stamped_again :
    (timestamp elems i : ℕ) (pkt : Packet)
    → stamped timestamp (ltb (i + 1) elems) (stamped timestamp (ltb i elems) pkt)
      ≡ stamped timestamp (ltb i elems) pkt
stamped_again timestamp elems i pkt = elim (Bool-cases (ltb (i + 1) elems)) [
  | inl b ↦ let before : ltb i elems ≡ true = ground arith in rw (b, before) refl
  | inr b ↦ rw b refl
]

node1d_receive_at-first :
    (timestamp elems from : ℕ) (ports : List Ptr) (left i : ℕ) (ins : List Reg) (pkt : Packet)
    (place : ℕ)
    → IsFirstPort from ports place
    → i ≤ place
    → place < i + left
    → node1d_receive_at timestamp elems from ports left i ins pkt
      ≡ place_in ins place (stamped timestamp (ltb i elems) pkt)
unfolding node1d_receive_at
node1d_receive_at-first timestamp elems from ports zero i ins pkt place f h k = absurd (omega arith)
node1d_receive_at-first timestamp elems from ports (suc left) i ins pkt place f h k =
    elim (ℕ_discrete i place) [
      | yes same ↦ rw (same, f.connected, is_port_self from) refl
      | no other ↦
          let inside = lt_of_get_elem? ports place (some from) f.connected in
          let (port, read) = get_elem?-some ports i (omega arith) in
          rw (read, f.first i port (omega arith) read)
            (node1d_receive_at-first timestamp elems from ports left (i + 1) ins
                (stamped timestamp (ltb i elems) pkt) place f (omega arith) (omega arith)
              ∙ ap (place_in ins place) (stamped_again timestamp elems i pkt))
    ]

-- What comes from a component goes, where that is at a port of a line router, into the register
-- of the first such port, or is refused if that is full. It is stamped, also what a neighbour sends, if the router has
-- an element.
pub node1d_receive-first :
    (from : ℕ) (n : Node1d) (pkt : Packet) (i : ℕ) (r : Reg)
    → IsFirstPort from n.ports i
    → i < n.elems + 2
    → get_elem? n.ins i ≡ some r
    → node1d_receive from n pkt
      ≡ some (
          if r.busy then (ebusy, n) else (
            ok,
            record n { ins = set n.ins i (full_reg (stamped n.timestamp (ltb 0 n.elems) pkt)) },
          ))
unfolding node1d_receive
node1d_receive-first from n pkt i r first inside read =
    let at_port =
      node1d_receive_at-first n.timestamp n.elems from n.ports (n.elems + 2) 0 n.ins pkt i first
        (omega arith) (omega arith) in
    elim (Bool-cases r.busy) [
      | inl full ↦ rw (at_port, full, place_in-full n.ins i _ r read full) refl
      | inr free ↦ rw (at_port, free, place_in-free n.ins i _ r read free) refl
    ]

-- What comes from a component goes, where that is at a port of a plane router, into the register
-- of the first such port, or is refused if that is full. What an element sends is stamped; what a neighbour sends keeps its stamp.
pub node2d_receive-first :
    (from : ℕ) (n : Node2d) (pkt : Packet) (i : ℕ) (r : Reg)
    → IsFirstPort from n.ports i
    → i < n.elems + 4
    → get_elem? n.ins i ≡ some r
    → node2d_receive from n pkt
      ≡ some (
          if r.busy then (ebusy, n) else (
            ok,
            record n { ins = set n.ins i (full_reg (stamped n.timestamp (ltb i n.elems) pkt)) },
          ))
unfolding node2d_receive
node2d_receive-first from n pkt i r first inside read =
    let at_port =
      receive_at-first n.timestamp n.elems from n.ports (n.elems + 4) 0 n.ins pkt i first
        (omega arith) (omega arith) in
    elim (Bool-cases r.busy) [
      | inl full ↦ rw (at_port, full, place_in-full n.ins i _ r read full) refl
      | inr free ↦ rw (at_port, free, place_in-free n.ins i _ r read free) refl
    ]

-- What comes from a component goes, where that is at a port of a space router, into the register
-- of the first such port, or is refused if that is full. What an element sends is stamped; what a neighbour sends keeps its stamp.
pub node3d_receive-first :
    (from : ℕ) (n : Node3d) (pkt : Packet) (i : ℕ) (r : Reg)
    → IsFirstPort from n.ports i
    → i < n.elems + 6
    → get_elem? n.ins i ≡ some r
    → node3d_receive from n pkt
      ≡ some (
          if r.busy then (ebusy, n) else (
            ok,
            record n { ins = set n.ins i (full_reg (stamped n.timestamp (ltb i n.elems) pkt)) },
          ))
unfolding node3d_receive
node3d_receive-first from n pkt i r first inside read =
    let at_port =
      receive_at-first n.timestamp n.elems from n.ports (n.elems + 6) 0 n.ins pkt i first
        (omega arith) (omega arith) in
    elim (Bool-cases r.busy) [
      | inl full ↦ rw (at_port, full, place_in-full n.ins i _ r read full) refl
      | inr free ↦ rw (at_port, free, place_in-free n.ins i _ r read free) refl
    ]
