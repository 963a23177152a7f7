-- ===== src/Mesh/Clock.antt =====
-- src/mesh: the clock of a router, on its two arrays of registers.
use mathlib.Core.List.{Perm, append_assoc, perm_append_comm}
use mathlib.Core.List.Perm
use gran.Prelude.{
  ℕ, ◌≡◌, ◌+◌, ◌≤◌, Option, none, some, List, [], ◌∷◌, ◌++◌, arith, refl, sym, ◌∙◌, length, u64,
  lt_of_get_elem?,
}
use gran.Packet.{Packet}
use gran.Component.{ok, Ptr, Env}
use gran.Reg.{Reg, Pick}
use gran.Reg.Select.{InArray, Chosen, nothing, taken}
use gran.Reg.Propagate.{in_flight}
use gran.Mesh.{pointer, Call, Banks, clock_registers}
use gran.Mesh.Send.{
  Answers, Connected, Delivered, Delivered-Perm, Delivered-length, clock_outputs-Delivered,
}
use gran.Mesh.Route.{any, places, oldest_in-Chosen, AllFit, run_calls-Kept, elem_calls-AllFit}
use gran.Mesh.Line.{Node1d, node1d_calls, node1d_clock}
use gran.Mesh.Plane.{Node2d, node2d_calls, node2d_clock}
use gran.Mesh.Space.{Node3d, node3d_calls, node3d_clock}

pointer-InArray :
    (ins : List Reg) (ps : List (Option ℕ)) (best : Pick)
    → Chosen any ins ps best
    → InArray (pointer best ∷ []) (length ins)
unfolding pointer
pointer-InArray ins ps none (nothing h) = tt
pointer-InArray ins ps (some (i, r)) (taken o) = (lt_of_get_elem? ins i r o.wanted.0, tt)

also :
    (r : Option ℕ) (n : ℕ) (ps : List (Option ℕ))
    → InArray (r ∷ []) n
    → InArray ps n
    → InArray (r ∷ ps) n
also none n ps h k = k
also (some p) n ps h k = (h.0, k)

node1d_calls-AllFit :
    (cluster elems : ℕ) (r : Option ℕ)
    → InArray (r ∷ []) (elems + 2)
    → AllFit (elems + 2) (node1d_calls cluster elems r)
unfolding node1d_calls
node1d_calls-AllFit cluster elems r h = (
  (omega arith, also r (elems + 2) _ h (omega arith, tt)),
  (
    (omega arith, also r (elems + 2) _ h (omega arith, tt)),
    elem_calls-AllFit (elems + 2) _ _ elems 0
        (also r (elems + 2) _ h (omega arith, (omega arith, tt))) (omega arith),
  ),
)

node2d_calls-AllFit :
    (x y elems : ℕ) (r : Option ℕ)
    → InArray (r ∷ []) (elems + 4)
    → AllFit (elems + 4) (node2d_calls x y elems r)
unfolding node2d_calls
node2d_calls-AllFit x y elems r h = (
  (omega arith, also r (elems + 4) _ h (omega arith, (omega arith, (omega arith, tt)))),
  (
    (omega arith, also r (elems + 4) _ h (omega arith, (omega arith, (omega arith, tt)))),
    (
      (omega arith, also r (elems + 4) _ h (omega arith, (omega arith, (omega arith, tt)))),
      (
        (omega arith, also r (elems + 4) _ h (omega arith, (omega arith, (omega arith, tt)))),
        elem_calls-AllFit (elems + 4) _ _ elems 0
            (also r (elems + 4) _ h (omega arith, (omega arith, (omega arith, (omega arith, tt)))))
            (omega arith),
      ),
    ),
  ),
)

node3d_calls-AllFit :
    (x y z elems : ℕ) (r : Option ℕ)
    → InArray (r ∷ []) (elems + 6)
    → AllFit (elems + 6) (node3d_calls x y z elems r)
unfolding node3d_calls
node3d_calls-AllFit x y z elems r h = (
  (
    omega arith,
    also r (elems + 6) _ h
        (omega arith, (omega arith, (omega arith, (omega arith, (omega arith, tt))))),
  ),
  (
    (
      omega arith,
      also r (elems + 6) _ h
          (omega arith, (omega arith, (omega arith, (omega arith, (omega arith, tt))))),
    ),
    (
      (
        omega arith,
        also r (elems + 6) _ h
            (omega arith, (omega arith, (omega arith, (omega arith, (omega arith, tt))))),
      ),
      (
        (
          omega arith,
          also r (elems + 6) _ h
              (omega arith, (omega arith, (omega arith, (omega arith, (omega arith, tt))))),
        ),
        (
          (
            omega arith,
            also r (elems + 6) _ h
                (omega arith, (omega arith, (omega arith, (omega arith, (omega arith, tt))))),
          ),
          (
            (
              omega arith,
              also r (elems + 6) _ h
                  (omega arith, (omega arith, (omega arith, (omega arith, (omega arith, tt))))),
            ),
            elem_calls-AllFit (elems + 6) _ _ elems 0
                (also r (elems + 6) _ h (
                  omega arith,
                  (omega arith, (omega arith, (omega arith, (omega arith, (omega arith, tt))))),
                ))
                (omega arith),
          ),
        ),
      ),
    ),
  ),
)

-- What a clock of a router keeps: the packets in its registers and those that have left are the ones
-- that were in its registers before.
abbrev pub Conserved : Banks → Banks → List Packet → Type 0
Conserved old new sent =
    (length new.0 ≡ length old.0)
    × (length new.1 ≡ length old.1)
    × Perm (sent ++ (in_flight new.0 ++ in_flight new.1)) (in_flight old.0 ++ in_flight old.1)

-- The packets that leave come out of the second of two arrays.
sent-Perm :
    (sent xs ys zs : List Packet) → Perm (sent ++ ys) zs → Perm (sent ++ (xs ++ ys)) (xs ++ zs)
sent-Perm sent xs ys zs p =
    let left : (sent ++ xs) ++ ys ≡ sent ++ (xs ++ ys) = append_assoc sent xs ys in
    let right : (xs ++ sent) ++ ys ≡ xs ++ (sent ++ ys) = append_assoc xs sent ys in
    rw (sym left) (
      Perm.trans (Perm.append_right ys (perm_append_comm sent xs))
        (rw right (Perm.append_left xs p)))

module _ (e : Env) (answers : Answers e) where
  open e use {Rest}

  pub clock_registers-Conserved :
      (self elems size : ℕ) (calls : Option ℕ → List Call) (ports : List Ptr) (ins outs : List Reg)
      (rest : Rest)
      → ((r : Option ℕ) → InArray (r ∷ []) size → AllFit size (calls r))
      → elems ≤ size
      → length ins ≡ size
      → length outs ≡ size
      → length ports ≡ size
      → Connected ports outs
      → (banks : Banks) × (rest' : Rest) × (mid : List Reg) × (sent : List Packet)
        × (clock_registers e self elems size calls ports (ins, outs) rest ≡ some (banks, rest'))
        × Delivered e self ports size 0 outs rest sent mid rest'
        × Conserved (ins, outs) banks sent
  unfolding clock_registers
  clock_registers-Conserved self elems size calls ports ins outs rest fit small in_size out_size
        port_size connected =
      let (mid, rest', sent, first, d) =
        clock_outputs-Delivered e self ports answers size 0 outs rest connected (omega arith)
          (omega arith) in
      let (best, picked, chosen) = oldest_in-Chosen ins elems (omega arith) in
      let inside : InArray (pointer best ∷ []) size =
        rw (sym in_size) (pointer-InArray ins (places elems 0) best chosen) in
      let (banks, runs, (same_in, same_out, same)) =
        run_calls-Kept size (calls (pointer best)) ins mid (fit (pointer best) inside) in_size
          (Delivered-length e self ports d ∙ out_size) in
      (
        banks,
        rest',
        mid,
        sent,
        rw (first, picked, runs) refl,
        d,
        (
          same_in,
          same_out ∙ Delivered-length e self ports d,
          Perm.trans (Perm.append_left sent same) (
              sent-Perm sent (in_flight ins) (in_flight mid) (in_flight outs)
                (Delivered-Perm e self ports d)),
        ),
      )

  -- A clock of a line router whose arrays have a place for every port, and whose full outputs have a
  -- component at their port, among components that answer: it returns `OK`, counts one more
  -- cycle and keeps the sizes of the arrays. It offers the packet of each full output once, in order, to
  -- the component at its port; the packets whose offer is answered by anything but `EBUSY` and the ones
  -- in its registers after the clock are together the ones that it held before.
  pub node1d_clock-Conserved :
      (self : ℕ) (n : Node1d) (rest : Rest)
      → length n.ins ≡ n.elems + 2
      → length n.outs ≡ n.elems + 2
      → length n.ports ≡ n.elems + 2
      → Connected n.ports n.outs
      → (n' : Node1d) × (rest' : Rest) × (mid : List Reg) × (sent : List Packet) × (node1d_clock e
            self n rest
          ≡ some (ok, n', rest'))
        × Delivered e self n.ports (n.elems + 2) 0 n.outs rest sent mid rest'
        × (n'.timestamp ≡ u64 (n.timestamp + 1))
        × Conserved (n.ins, n.outs) (n'.ins, n'.outs) sent
  unfolding node1d_clock
  node1d_clock-Conserved self n rest in_size out_size port_size connected =
      let ((ins, outs), rest', mid, sent, runs, d, kept) =
        clock_registers-Conserved self n.elems (n.elems + 2) (node1d_calls n.cluster n.elems)
          n.ports n.ins n.outs rest (node1d_calls-AllFit n.cluster n.elems) (omega arith) in_size
          out_size port_size connected in
      (
        record n { timestamp = u64 (n.timestamp + 1); ins = ins; outs = outs },
        rest',
        mid,
        sent,
        rw runs refl,
        d,
        refl,
        kept,
      )

  -- A clock of a plane router whose arrays have a place for every port, and whose full outputs have a
  -- component at their port, among components that answer: it returns `OK`, counts one more
  -- cycle and keeps the sizes of the arrays. It offers the packet of each full output once, in order, to
  -- the component at its port; the packets whose offer is answered by anything but `EBUSY` and the ones
  -- in its registers after the clock are together the ones that it held before.
  pub node2d_clock-Conserved :
      (self : ℕ) (n : Node2d) (rest : Rest)
      → length n.ins ≡ n.elems + 4
      → length n.outs ≡ n.elems + 4
      → length n.ports ≡ n.elems + 4
      → Connected n.ports n.outs
      → (n' : Node2d) × (rest' : Rest) × (mid : List Reg) × (sent : List Packet) × (node2d_clock e
            self n rest
          ≡ some (ok, n', rest'))
        × Delivered e self n.ports (n.elems + 4) 0 n.outs rest sent mid rest'
        × (n'.timestamp ≡ u64 (n.timestamp + 1))
        × Conserved (n.ins, n.outs) (n'.ins, n'.outs) sent
  unfolding node2d_clock
  node2d_clock-Conserved self n rest in_size out_size port_size connected =
      let ((ins, outs), rest', mid, sent, runs, d, kept) =
        clock_registers-Conserved self n.elems (n.elems + 4) (node2d_calls n.x n.y n.elems) n.ports
          n.ins n.outs rest (node2d_calls-AllFit n.x n.y n.elems) (omega arith) in_size out_size
          port_size connected in
      (
        record n { timestamp = u64 (n.timestamp + 1); ins = ins; outs = outs },
        rest',
        mid,
        sent,
        rw runs refl,
        d,
        refl,
        kept,
      )

  -- A clock of a space router whose arrays have a place for every port, and whose full outputs have a
  -- component at their port, among components that answer: it returns `OK`, counts one more
  -- cycle and keeps the sizes of the arrays. It offers the packet of each full output once, in order, to
  -- the component at its port; the packets whose offer is answered by anything but `EBUSY` and the ones
  -- in its registers after the clock are together the ones that it held before.
  pub node3d_clock-Conserved :
      (self : ℕ) (n : Node3d) (rest : Rest)
      → length n.ins ≡ n.elems + 6
      → length n.outs ≡ n.elems + 6
      → length n.ports ≡ n.elems + 6
      → Connected n.ports n.outs
      → (n' : Node3d) × (rest' : Rest) × (mid : List Reg) × (sent : List Packet) × (node3d_clock e
            self n rest
          ≡ some (ok, n', rest'))
        × Delivered e self n.ports (n.elems + 6) 0 n.outs rest sent mid rest'
        × (n'.timestamp ≡ u64 (n.timestamp + 1))
        × Conserved (n.ins, n.outs) (n'.ins, n'.outs) sent
  unfolding node3d_clock
  node3d_clock-Conserved self n rest in_size out_size port_size connected =
      let ((ins, outs), rest', mid, sent, runs, d, kept) =
        clock_registers-Conserved self n.elems (n.elems + 6) (node3d_calls n.x n.y n.z n.elems)
          n.ports n.ins n.outs rest (node3d_calls-AllFit n.x n.y n.z n.elems) (omega arith) in_size
          out_size port_size connected in
      (
        record n { timestamp = u64 (n.timestamp + 1); ins = ins; outs = outs },
        rest',
        mid,
        sent,
        rw runs refl,
        d,
        refl,
        kept,
      )
