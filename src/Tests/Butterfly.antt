-- ===== src/Tests/Butterfly.antt =====
-- The butterfly network at concrete inputs.
use gran.Prelude.{
  zero, suc, ◌≡◌, ◌^◌, ◌<◌, true, none, some, none≢some, some_inj, subst, List, [], ◌∷◌, arith,
  get_elem?, refl, replicate,
}
use gran.Packet.{Packet}
use gran.Component.{Stat, ok, send}
use gran.Reg.{Reg, empty_reg}
use gran.Bfly.{fat_elem, FatNode, FatBfly, fat_bfly_receive, fat_bfly_clock, create_fat_bfly}
use gran.Bfly.Bank.{IsNode}
use gran.Bfly.Tree.{IsTree}
use gran.Bfly.Clock.{
  IsBfly, IsConnected, fat_bfly_clock-IsBfly, Received, fat_bfly_receive-Received,
}
use gran.Bfly.Feed.{Exist}
use gran.Bfly.Create.{empty-Routed, create_fat_bfly-IsBfly}
use gran.Tests.Setup.{mailbox, letter}

create_fat_bfly-IsBfly_example :
    (b : FatBfly) × (create_fat_bfly (2 ^ 2) ≡ some b)
    × IsBfly b
    × (b.elems ≡ 2 ^ 2)
    × (b.layers ≡ 2)
    × (b.send_to ≡ replicate (2 ^ 2) none)
create_fat_bfly-IsBfly_example = create_fat_bfly-IsBfly 2 (omega arith) (omega arith)

-- Two elements, the first of which has sent a packet to the second.
abbrev a_node : FatNode
a_node = record {
  up = none;
  left = replicate 2 empty_reg;
  right = replicate 2 empty_reg;
  out = replicate 4 empty_reg;
}

abbrev a_bfly : FatBfly
a_bfly = record {
  elems = 2;
  in_regs = record { pkt = letter (2 ^ 32); busy = true } ∷ empty_reg ∷ [];
  send_to = some 5 ∷ some 6 ∷ [];
  layers = 1;
  layer = (a_node ∷ []) ∷ [];
}

a_node-IsNode : IsNode 2 0 none a_node
a_node-IsNode = record {
  left_size = refl;
  right_size = refl;
  out_size = refl;
  left = empty-Routed 2 0 2;
  right = empty-Routed 2 0 2;
  out = empty-Routed 2 1 4;
  parent = refl;
}

a_bfly-IsTree : IsTree 2 1 a_bfly.layer
a_bfly-IsTree zero zero p q = (a_node, refl, a_node-IsNode)
a_bfly-IsTree zero (suc j) p q = absurd (omega arith)
a_bfly-IsTree (suc i) j p q = absurd (omega arith)

a_bfly-Exist : Exist 2 a_bfly.in_regs
a_bfly-Exist zero r read busy =
    subst (λ (t : Reg). fat_elem t.pkt.to < 2) (some_inj read) (omega arith)
a_bfly-Exist (suc zero) r read busy = absurd (cc)
a_bfly-Exist (suc (suc k)) r read busy = absurd (none≢some read)

a_bfly-IsBfly : IsBfly a_bfly
a_bfly-IsBfly = record {
  power = refl;
  some_layers = omega arith;
  inputs = refl;
  bound = a_bfly-Exist;
  sends = refl;
  tree = a_bfly-IsTree;
}

a_bfly-IsConnected : IsConnected a_bfly
a_bfly-IsConnected zero p = (5, refl)
a_bfly-IsConnected (suc zero) p = (6, refl)
a_bfly-IsConnected (suc (suc i)) p = absurd (omega arith)

fat_bfly_clock-IsBfly_example :
    (bfly' : FatBfly) × (rest' : List Packet) × (fat_bfly_clock mailbox 9 a_bfly []
      ≡ some (ok, bfly', rest'))
    × IsBfly bfly'
    × (bfly'.elems ≡ 2)
    × (bfly'.send_to ≡ some 5 ∷ some 6 ∷ [])
unfolding send
fat_bfly_clock-IsBfly_example =
    fat_bfly_clock-IsBfly mailbox 9 a_bfly a_bfly-IsBfly a_bfly-IsConnected
      (λ to pkt rest. ((ok, pkt ∷ rest), refl)) []

-- A packet from the second element to the first.
abbrev a_reply : Packet
a_reply = record (letter 0) { from = 2 ^ 32 }

fat_bfly_receive-Received_example :
    (r : Reg) × (answer : Stat) × (bfly' : FatBfly) × (get_elem? a_bfly.in_regs
        (fat_elem a_reply.from)
      ≡ some r)
    × (fat_bfly_receive a_bfly 6 a_reply ≡ some (answer, bfly'))
    × Received a_bfly (fat_elem a_reply.from) a_reply r answer bfly'
    × IsBfly bfly'
fat_bfly_receive-Received_example =
    fat_bfly_receive-Received a_bfly 6 a_reply a_bfly-IsBfly (omega arith) refl (omega arith)
