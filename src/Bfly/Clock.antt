-- ===== src/Bfly/Clock.antt =====
-- src/bfly/fat_bfly.c: the clock and the receive callback of the whole network.
use gran.Prelude.{
  ℕ, zero, suc, ◌≡◌, ◌+◌, ◌-◌, ◌*◌, ◌%◌, ◌^◌, ◌<◌, ◌≤◌, Bool, true, false, not, Option, some, List,
  arith, refl, ap, sym, ◌∙◌, ltb, ◌==◌, if◌then◌else◌, ◌>>◌, assert, length, get_elem?, set,
  length-set, get_elem?-some, get_elem?-set_self, get_elem?-set_ne, Bool-cases, inl, inr, ◌≢◌,
}
use native.Mathlib.Nat.{mod-eq_of_lt}
use gran.Prelude.Bits.{double_pow}
use gran.Prelude.Outcome.{Yields, bind-Yields, if-Yields, if_lem}
use gran.Packet.{Packet}
use gran.Component.{Stat, ok, ebusy, is_ebusy, Env, send}
use gran.Reg.{Reg}
use gran.Bfly.{
  fat_elem, FatBfly, set_node, fat_bfly_receive, deliver_one, deliver_all, fat_bfly_clock,
}
use gran.Bfly.Bank.{Routed, set-Routed, get_elem?-Yields}
use gran.Bfly.Tree.{IsTree, set_node-IsTree, clock_layers-IsTree}
use gran.Bfly.Feed.{Exist, set-Exist, feed_all-IsInner}

-- A network over a power of two of elements, with a well-formed tree over as many layers as the logarithm.
pub record IsBfly (bfly : FatBfly) : Type 0 where
  pub power : bfly.elems ≡ 2 ^ bfly.layers
  pub some_layers : 0 < bfly.layers
  pub inputs : length bfly.in_regs ≡ bfly.elems
  pub bound : Exist bfly.elems bfly.in_regs
  pub sends : length bfly.send_to ≡ bfly.elems
  pub tree : IsTree bfly.elems bfly.layers bfly.layer

abbrev pub IsConnected : FatBfly → Type 0
IsConnected bfly = (i : ℕ) → i < bfly.elems → (to : ℕ) × (get_elem? bfly.send_to i ≡ some (some to))

assert-Yields :
    {A : Type 0} (P : A → Type 0) (b : Bool) (m : Option A)
    → b ≡ true
    → Yields P m
    → Yields P (assert b >> m)
assert-Yields P true m h k = k
assert-Yields P false m h k = cc

module _ (e : Env) (self : ℕ) where
  open e use {Rest}

  -- The components that the network is connected to take what is sent to them, or refuse it.
  abbrev pub IsOpen : Type 0
  IsOpen =
      (to : ℕ) (pkt : Packet) (rest : Rest)
      → (o : Stat × Rest) × (send e self (some to) pkt rest ≡ some o)

  module _ (bfly : FatBfly) (h : IsBfly bfly) (connected : IsConnected bfly)
      (answers : IsOpen) where
    abbrev IsOut : List Reg × Rest → Type 0
    IsOut p =
        (length p.0 ≡ 2 * (2 * 2 ^ (bfly.layers - 0 - 1)))
        × Routed bfly.elems (suc (bfly.layers - 0 - 1)) p.0

    room : bfly.elems ≡ 2 * 2 ^ (bfly.layers - 0 - 1)
    room =
        let whole : suc (bfly.layers - 0 - 1) ≡ bfly.layers = omega (arith, h.some_layers) in
        h.power ∙ ap (λ (n : ℕ). 2 ^ n) (sym whole) ∙ double_pow (bfly.layers - 0 - 1)

    deliver_one-IsOut :
        (i : ℕ) (out : List Reg) (rest : Rest)
        → IsOut (out, rest)
        → i < bfly.elems
        → Yields IsOut (deliver_one e self i bfly.send_to out rest)
    unfolding deliver_one
    deliver_one-IsOut i out rest (size, routed) p =
        let (to, there) = connected i p in
        bind-Yields (λ (r : Reg). get_elem? out i ≡ some r) IsOut (get_elem? out i) _
          (get_elem?-Yields out i (omega (arith, size, room)))
          (λ r read.
            if-Yields IsOut (not r.busy) (some (out, rest)) _
              (λ idle. ((out, rest), refl, (size, routed)))
              (λ busy.
                let goes = routed i r read (ground arith) in
                let exact : fat_elem r.pkt.to % 2 ^ suc (bfly.layers - 0 - 1) ≡ fat_elem r.pkt.to =
                  mod-eq_of_lt {n = fat_elem r.pkt.to} {m = 2 ^ suc (bfly.layers - 0 - 1)}
                    (omega (arith, goes.exists, room, double_pow (bfly.layers - 0 - 1))) in
                let arrived : fat_elem r.pkt.to ≡ i = sym exact ∙ goes.low in
                let (o, sent) = answers to r.pkt rest in
                assert-Yields IsOut (fat_elem r.pkt.to == i) _ (ground arith) (
                  if is_ebusy o.0 then (out, o.1) else (set out i (record r { busy = false }), o.1),
                  rw (there, sent) refl,
                  if_lem IsOut (is_ebusy o.0) _ _ (size, routed)
                      (
                        length-set out i (record r { busy = false }) ∙ size,
                        set-Routed bfly.elems (suc (bfly.layers - 0 - 1)) out i
                            (record r { busy = false }) routed (λ b. cc),
                      ),
                )))

    deliver_all-IsOut :
        (left i : ℕ) (out : List Reg) (rest : Rest)
        → IsOut (out, rest)
        → left + i ≤ bfly.elems
        → Yields IsOut (deliver_all e left i self bfly.send_to out rest)
    unfolding deliver_all
    deliver_all-IsOut zero i out rest k p = ((out, rest), refl, k)
    deliver_all-IsOut (suc left) i out rest k p =
        bind-Yields IsOut IsOut (deliver_one e self i bfly.send_to out rest) _
          (deliver_one-IsOut i out rest k (omega arith))
          (λ a k'. deliver_all-IsOut left (i + 1) a.0 a.1 k' (omega arith))

    -- A clock cycle of a connected network, whose connected components take or refuse what is sent to them,
    -- completes: no assertion fails, so that every packet that reaches an output of the topmost node is
    -- at the output of the element that it is bound for, and no access is out of range. The network is
    -- well formed afterwards, and the elements and connections are the same.
    pub fat_bfly_clock-IsBfly :
        (rest : Rest)
        → (bfly' : FatBfly) × (rest' : Rest) × (fat_bfly_clock e self bfly rest
            ≡ some (ok, bfly', rest'))
          × IsBfly bfly'
          × (bfly'.elems ≡ bfly.elems)
          × (bfly'.send_to ≡ bfly.send_to)
    unfolding fat_bfly_clock
    fat_bfly_clock-IsBfly rest =
        let (top, there, t) = h.tree 0 0 h.some_layers (omega arith) in
        let ((out, rest'), delivered, (size, routed)) =
          deliver_all-IsOut bfly.elems 0 top.out rest (t.out_size, t.out) (omega arith) in
        let emptied = set_node bfly.layer 0 0 (record top { out = out }) in
        let tree : IsTree bfly.elems bfly.layers emptied =
          set_node-IsTree bfly.elems bfly.layers bfly.layer 0 0 (record top { out = out }) h.tree
            h.some_layers (omega arith)
            (record {
              left_size = t.left_size;
              right_size = t.right_size;
              out_size = size;
              left = t.left;
              right = t.right;
              out = routed;
              parent = t.parent;
            }) in
        let (layer', clocked, tree') =
          clock_layers-IsTree bfly.elems bfly.layers bfly.layers 0 emptied tree (omega arith) in
        let ((in_regs, layer''), fed, (inputs, bound, tree'')) =
          feed_all-IsInner bfly.elems bfly.layers h.some_layers bfly.elems 0 bfly.in_regs layer'
            (h.inputs, h.bound, tree') (omega arith) h.power in
        (
          record bfly { in_regs = in_regs; layer = layer'' },
          rest',
          rw (there, delivered, clocked, fed) refl,
          record {
            power = h.power;
            some_layers = h.some_layers;
            inputs = inputs;
            bound = bound;
            sends = h.sends;
            tree = tree'';
          },
          refl,
          refl,
        )

-- What becomes of a packet at an input of the network: it is refused, and nothing changes, while a packet
-- waits there; otherwise it waits there, and nothing else changes.
pub data Received (bfly : FatBfly) (elem : ℕ) (pkt : Packet) (r : Reg)
    : Stat → FatBfly → Type 0 where
  refused : r.busy ≡ true → Received bfly elem pkt r ebusy bfly
  stored :
      {bfly' : FatBfly}
      → r.busy ≡ false
      → get_elem? bfly'.in_regs elem ≡ some (record { pkt = pkt; busy = true })
      → ((j : ℕ) → j ≢ elem → get_elem? bfly'.in_regs j ≡ get_elem? bfly.in_regs j)
      → bfly'.layer ≡ bfly.layer
      → bfly'.send_to ≡ bfly.send_to
      → (bfly'.elems ≡ bfly.elems) × (bfly'.layers ≡ bfly.layers)
      → Received bfly elem pkt r ok bfly'

stored-IsBfly :
    (bfly : FatBfly) (i : ℕ) (pkt : Packet)
    → IsBfly bfly
    → fat_elem pkt.to < bfly.elems
    → IsBfly (record bfly { in_regs = set bfly.in_regs i (record { pkt = pkt; busy = true }) })
stored-IsBfly bfly i pkt h bound = record {
  power = h.power;
  some_layers = h.some_layers;
  inputs = length-set bfly.in_regs i (record { pkt = pkt; busy = true }) ∙ h.inputs;
  bound =
      set-Exist bfly.elems bfly.in_regs i (record { pkt = pkt; busy = true }) h.bound (λ b. bound);
  sends = h.sends;
  tree = h.tree;
}

-- A packet of a connected component that is bound for an element that exists, at a well-formed network:
-- the receive callback fails no assertion. While a packet waits at the input of the sender it
-- answers `EBUSY` and nothing changes; otherwise it answers `OK`, the packet waits at that input,
-- every other input and all else are as they were. The network stays well formed.
pub fat_bfly_receive-Received :
    (bfly : FatBfly) (from : ℕ) (pkt : Packet)
    → IsBfly bfly
    → fat_elem pkt.from < bfly.elems
    → get_elem? bfly.send_to (fat_elem pkt.from) ≡ some (some from)
    → fat_elem pkt.to < bfly.elems
    → (r : Reg) × (answer : Stat) × (bfly' : FatBfly) × (get_elem? bfly.in_regs (fat_elem pkt.from)
        ≡ some r)
      × (fat_bfly_receive bfly from pkt ≡ some (answer, bfly'))
      × Received bfly (fat_elem pkt.from) pkt r answer bfly'
      × IsBfly bfly'
unfolding fat_bfly_receive
fat_bfly_receive-Received bfly from pkt h inside there bound =
    let (r, read) = get_elem?-some bfly.in_regs (fat_elem pkt.from) (omega (arith, h.inputs)) in
    let checked : ltb (fat_elem pkt.from) bfly.elems ≡ true = ground arith in
    let same : (from == from) ≡ true = ground arith in
    let full : Reg = record { pkt = pkt; busy = true } in
    elim (Bool-cases r.busy) [
      | inl waits ↦
          (r, ebusy, bfly, read, simp (checked, there, same, read, waits) refl, refused waits, h)
      | inr free ↦ (
        r,
        ok,
        record bfly { in_regs = set bfly.in_regs (fat_elem pkt.from) full },
        read,
        simp (checked, there, same, read, free) refl,
        stored free
            (get_elem?-set_self bfly.in_regs (fat_elem pkt.from) full
              (omega (arith, inside, h.inputs)))
            (λ j other.
              get_elem?-set_ne bfly.in_regs (fat_elem pkt.from) j full (λ e. other (sym e)))
            refl refl (refl, refl),
        stored-IsBfly bfly (fat_elem pkt.from) pkt h bound,
      )
    ]
