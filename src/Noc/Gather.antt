-- ===== src/Noc/Gather.antt =====
-- src/ideal_noc.c: the first loop of the clock, from input to output registers.
use mathlib.Core.List.{Perm, perm_middle}
use mathlib.Core.List.Perm
use gran.Prelude.{
  ℕ, ◌≡◌, ◌<◌, arith, Bool, true, false, ◌&&◌, some, List, ◌∷◌, ◌++◌, refl, ltb, get_elem?, set,
  get_elem?-set_self, set-set, length, lt_of_get_elem?, lt→ltb,
}
use gran.Reg.{Reg}
use gran.Reg.Propagate.{full_reg, in_flight}
use gran.Reg.Propagate.{moved-Perm, in_flight-free}
use gran.Noc.{noc_elem, Banks, transfer, gather_one}

-- The packet of a full input goes to the output register of its element, unless an older one waits there.
gather_one-transfer :
    (elems i : ℕ) (ins outs : List Reg) (r o : Reg)
    → get_elem? ins i ≡ some r
    → r.busy ≡ true
    → noc_elem r.pkt.to < elems
    → get_elem? outs (noc_elem r.pkt.to) ≡ some o
    → (o.busy && ltb o.pkt.timestamp r.pkt.timestamp) ≡ false
    → gather_one elems i (ins, outs)
      ≡ some (set ins i (record r { busy = false }), set outs (noc_elem r.pkt.to) (full_reg r.pkt))
unfolding gather_one transfer
gather_one-transfer elems i ins outs r o read full fits target young =
    rw (read, full, lt→ltb (noc_elem r.pkt.to) elems fits, target, young)

-- Where the output register of its element is free, the packet of a full input moves there, and no packet
-- is lost or copied.
pub gather_one-Perm :
    (elems i : ℕ) (ins outs : List Reg) (r o : Reg)
    → get_elem? ins i ≡ some r
    → r.busy ≡ true
    → noc_elem r.pkt.to < elems
    → get_elem? outs (noc_elem r.pkt.to) ≡ some o
    → o.busy ≡ false
    → (banks : Banks) × (gather_one elems i (ins, outs) ≡ some banks)
      × (get_elem? banks.1 (noc_elem r.pkt.to) ≡ some (full_reg r.pkt))
      × Perm (in_flight banks.0 ++ in_flight banks.1) (in_flight ins ++ in_flight outs)
gather_one-Perm elems i ins outs r o read full fits target free =
    let young : ◌≡◌ {A = Bool} (o.busy && ltb o.pkt.timestamp r.pkt.timestamp) false =
      rw free refl in
    let done = gather_one-transfer elems i ins outs r o read full fits target young in
    (
      (set ins i (record r { busy = false }), set outs (noc_elem r.pkt.to) (full_reg r.pkt)),
      done,
      get_elem?-set_self outs (noc_elem r.pkt.to) (full_reg r.pkt)
          (lt_of_get_elem? outs (noc_elem r.pkt.to) o target),
      moved-Perm ins outs i (noc_elem r.pkt.to) r o read full target free,
    )

-- If a packet with the same timestamp still waits in the output register of its element, the packet of a full
-- input takes its place there, and the packet that waited is lost: with it, the packets in the
-- registers after the round are those from before. (The network stamps every packet with its count of
-- cycles, which is always 0, so all timestamps are the same.)
pub gather_one-loses :
    (elems i : ℕ) (ins outs : List Reg) (r o : Reg)
    → get_elem? ins i ≡ some r
    → r.busy ≡ true
    → noc_elem r.pkt.to < elems
    → get_elem? outs (noc_elem r.pkt.to) ≡ some o
    → o.busy ≡ true
    → o.pkt.timestamp ≡ r.pkt.timestamp
    → (banks : Banks) × (gather_one elems i (ins, outs) ≡ some banks)
      × (get_elem? banks.1 (noc_elem r.pkt.to) ≡ some (full_reg r.pkt))
      × Perm (o.pkt ∷ (in_flight banks.0 ++ in_flight banks.1)) (in_flight ins ++ in_flight outs)
gather_one-loses elems i ins outs r o read full fits target waits same =
    let place = noc_elem r.pkt.to in
    let emptied : List Reg = set outs place (record o { busy = false }) in
    let inside : place < length outs = lt_of_get_elem? outs place o target in
    let young : ◌≡◌ {A = Bool} (o.busy && ltb o.pkt.timestamp r.pkt.timestamp) false =
      ground (arith, same) in
    let again : set emptied place (full_reg r.pkt) ≡ set outs place (full_reg r.pkt) =
      set-set outs place (record o { busy = false }) (full_reg r.pkt) in
    let moved = rw again at (
      moved-Perm ins emptied i place r (record o { busy = false }) read full
        (get_elem?-set_self outs place (record o { busy = false }) inside) refl) in
    (
      (set ins i (record r { busy = false }), set outs place (full_reg r.pkt)),
      gather_one-transfer elems i ins outs r o read full fits target young,
      get_elem?-set_self outs place (full_reg r.pkt) inside,
      Perm.trans (Perm.cons o.pkt moved) (
          Perm.trans (Perm.symm (perm_middle (in_flight ins) (in_flight emptied))) (
            Perm.append_left (in_flight ins)
              (Perm.symm (in_flight-free outs place o target waits)))),
    )
