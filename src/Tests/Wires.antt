-- ===== src/Tests/Wires.antt =====
-- The bus and the network at concrete inputs.
use mathlib.Core.List.{Perm}
use gran.Prelude.{◌≡◌, ◌+◌, ◌^◌, false, none, some, List, [], ◌∷◌, ◌++◌, arith, refl, get_elem?}
use gran.Packet.{Packet, empty_packet}
use gran.Component.{ok, send}
use gran.Reg.{empty_reg}
use gran.Reg.Propagate.{full_reg, in_flight}
use gran.Vec.{list_vec}
use gran.Bus.{BusRegion, find_bus_region, SimpleBus, simple_bus_add, simple_bus_receive}
use gran.Bus.Decode.{Decoded, find_bus_region-Decoded, simple_bus_add-overlap}
use gran.Bus.Decode as BusDecode
use gran.Bus.Protocol.{through, through-next_hop}
use gran.Noc.{
  Banks, Noc, create_ideal_noc, ideal_noc_connect, ideal_noc_receive, ideal_noc_clock, gather_one,
}
use gran.Noc.Latency.{Event, connects, receives, clocks, handle, handle_all, handle_all-create}
use gran.Noc.Gather.{gather_one-loses, gather_one-Perm}
use gran.Tests.Setup.{mailbox, letter}

abbrev ram : BusRegion
ram = record { addr = 256; size = 128; component = 4 }

abbrev port : BusRegion
port = record { addr = 1024; size = 64; component = 5 }

abbrev bus : SimpleBus (list_vec BusRegion)
bus = record { regions = ram ∷ port ∷ []; target = none; pkt = empty_packet; busy = false }

simple_bus_add-overlap_example :
    (simple_bus_add (list_vec BusRegion) bus 6 128 2048 ≡ (
      ok,
      record bus { regions = ram ∷ port ∷ record { addr = 128; size = 2048; component = 6 } ∷ [] },
    ))
    × BusDecode.Holds (record { addr = 128; size = 2048; component = 6 }) 300
simple_bus_add-overlap_example =
    simple_bus_add-overlap (list_vec BusRegion) bus 6 128 2048 0 300 ram
      (omega arith, omega arith, (omega arith, omega arith, tt)) (omega arith) refl
      (omega arith, omega arith)

through-next_hop_example :
    ((simple_bus_receive (list_vec BusRegion) bus 2 (letter 1024)).0 ≡ ok)
    × (through (list_vec BusRegion) mailbox bus 9 2 (letter 1024) []
        ≡ some
            (ok, record bus { busy = false; target = some 5; pkt = letter 1024 }, letter 1024 ∷ []))
unfolding find_bus_region send
through-next_hop_example =
    through-next_hop (list_vec BusRegion) mailbox bus 9 2 (letter 1024) [] (letter 1024 ∷ []) ok
      refl refl

-- Two components, and a packet to the second.
abbrev events : List Event
events = connects 5 0 ∷ connects 6 1 ∷ receives (letter (2 ^ 32)) ∷ clocks ∷ clocks ∷ clocks ∷ []

abbrev stuck : Noc
stuck = record {
  elems = 2;
  latency = 3;
  counter = 0;
  ins = empty_reg ∷ full_reg (letter (2 ^ 32)) ∷ [];
  outs = empty_reg ∷ empty_reg ∷ [];
  lower = some 5 ∷ some 6 ∷ [];
}

all_handled : handle_all mailbox 9 events (create_ideal_noc 2 3) [] ≡ some (stuck, [])
unfolding handle_all handle create_ideal_noc ideal_noc_connect ideal_noc_receive ideal_noc_clock
all_handled = refl

handle_all-create_example : ◌≡◌ {A = List Packet} [] []
handle_all-create_example =
    handle_all-create mailbox 9 2 3 events [] (stuck, []) (omega arith) all_handled

-- A packet to the element 1 waits at its output, and another comes in.
gather_one-loses_example :
    (banks : Banks) × (gather_one 2 0
        (full_reg (letter (2 ^ 32)) ∷ [], empty_reg ∷ full_reg (letter (2 ^ 32 + 64)) ∷ [])
      ≡ some banks)
    × (get_elem? banks.1 1 ≡ some (full_reg (letter (2 ^ 32))))
    × Perm (letter (2 ^ 32 + 64) ∷ (in_flight banks.0 ++ in_flight banks.1)) (
        in_flight (full_reg (letter (2 ^ 32)) ∷ [])
        ++ in_flight (empty_reg ∷ full_reg (letter (2 ^ 32 + 64)) ∷ []))
gather_one-loses_example =
    gather_one-loses 2 0 (full_reg (letter (2 ^ 32)) ∷ [])
      (empty_reg ∷ full_reg (letter (2 ^ 32 + 64)) ∷ []) (full_reg (letter (2 ^ 32)))
      (full_reg (letter (2 ^ 32 + 64))) refl refl (omega arith) refl refl refl

gather_one-Perm_example :
    (banks : Banks) × (gather_one 2 0 (full_reg (letter (2 ^ 32)) ∷ [], empty_reg ∷ empty_reg ∷ [])
      ≡ some banks)
    × (get_elem? banks.1 1 ≡ some (full_reg (letter (2 ^ 32))))
    × Perm
        (in_flight banks.0 ++ in_flight banks.1)
        (in_flight (full_reg (letter (2 ^ 32)) ∷ []) ++ in_flight (empty_reg ∷ empty_reg ∷ []))
gather_one-Perm_example =
    gather_one-Perm 2 0 (full_reg (letter (2 ^ 32)) ∷ []) (empty_reg ∷ empty_reg ∷ [])
      (full_reg (letter (2 ^ 32))) empty_reg refl refl (omega arith) refl refl
