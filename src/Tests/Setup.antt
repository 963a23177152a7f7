-- ===== src/Tests/Setup.antt =====
-- What the tests share: components that take every packet and keep it in a list.
use gran.Prelude.{
  arith, ℕ, zero, suc, ◌≡◌, Bool, true, false, none, some, List, [], ◌∷◌, replicate, refl,
}
use gran.Packet.{Packet, empty_packet, packet_write}
use gran.Component.{ok, Ptr, Env}
use gran.Reg.{Reg}
use gran.Mem.{SimpleMem}
use gran.Mem.Access.{IsMem}
use gran.Mesh.Send.{Answers, Connected}

abbrev pub mailbox : Env
mailbox = record {
  Rest = List Packet;
  has_receive = λ c. true;
  receive = λ to from pkt rest. some (ok, pkt ∷ rest);
}

pub mailbox-Answers : Answers mailbox
mailbox-Answers to from pkt rest = (ok, pkt ∷ rest, refl)

-- A memory of two blocks.
abbrev pub small_mem : SimpleMem
small_mem = record {
  reply_to = none;
  pkt = empty_packet;
  busy = false;
  size = 128;
  buf = replicate 128 0;
}

pub small_mem-IsMem : IsMem small_mem
small_mem-IsMem = record { storage = refl; blocks = refl; some_room = omega arith }

-- A packet to an address.
abbrev pub letter : ℕ → Packet
letter to = record empty_packet {
  to = to;
  flags = packet_write;
  payload = replicate 64 7;
  mask = 15;
}

abbrev all_there : List Ptr → Bool
all_there [] = true
all_there (none ∷ ps) = false
all_there (some p ∷ ps) = all_there ps

-- Where every port has a component, each full output has.
pub all_there-Connected :
    (ports : List Ptr) (outs : List Reg) → all_there ports ≡ true → Connected ports outs
all_there-Connected [] outs h i o port read full at = absurd (cc)
all_there-Connected (none ∷ ps) outs h i o port read full at = absurd (cc)
all_there-Connected (some p ∷ ps) outs h zero o none read full at = absurd (cc)
all_there-Connected (some p ∷ ps) outs h zero o (some q) read full at = refl
all_there-Connected (some p ∷ ps) [] h (suc i) o port read full at = absurd (cc)
all_there-Connected (some p ∷ ps) (x ∷ outs) h (suc i) o port read full at =
    all_there-Connected ps outs h i o port read full at
