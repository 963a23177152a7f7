-- ===== src/Bus.antt =====
-- src/bus/simple_bus.c: a bus that hands one packet at a time to the component whose region of
-- addresses it falls in.
pub mod Decode
pub mod Protocol
use gran.Prelude.{
  ℕ, ◌+◌, Bool, true, false, not, ◌&&◌, Option, none, some, List, [], ◌∷◌, ltb, leb, if◌then◌else◌,
  u64, ◌>>=◌,
}
use gran.Packet.{Packet, empty_packet, response, set_flags, packet_error}
use gran.Component.{Stat, ok, ebusy, eexists, is_ebusy, Ptr, Env, send}
use gran.Vec.{VecOps}

pub record BusRegion : Type 0 where
  pub addr : ℕ
  pub size : ℕ
  pub component : ℕ

-- The test of `find_bus_region`; the end of the region wraps at 64 bits.
abbrev pub covers : BusRegion → ℕ → Bool
covers r addr = leb r.addr addr && ltb addr (u64 (r.addr + r.size))

unfoldable pub find_bus_region : List BusRegion → ℕ → Option BusRegion
find_bus_region [] addr = none
find_bus_region (r ∷ rs) addr = if covers r addr then some r else find_bus_region rs addr

abbrev pub or_else : Option BusRegion → Option BusRegion → Option BusRegion
or_else none other = other
or_else (some r) other = some r

module _ (V : VecOps BusRegion) where
  pub record SimpleBus : Type 0 where
    pub regions : V.Vec
    pub target : Ptr
    pub pkt : Packet
    pub busy : Bool

  unfoldable pub create_simple_bus : SimpleBus
  create_simple_bus = record {
    regions = V.create 0;
    target = none;
    pkt = empty_packet;
    busy = false;
  }

  -- The rest of `simple_bus_add`, once the lookup of the two ends has found `found`.
  unfoldable pub admit : SimpleBus → BusRegion → Option BusRegion → Stat × SimpleBus
  admit bus new (some found) = (eexists, bus)
  admit bus new none = (ok, record bus { regions = V.append bus.regions new })

  unfoldable pub simple_bus_add : SimpleBus → ℕ → ℕ → ℕ → Stat × SimpleBus
  simple_bus_add bus component addr size =
      admit bus (record { addr = addr; size = size; component = component })
        (or_else (find_bus_region (V.items bus.regions) addr)
          (find_bus_region (V.items bus.regions) (u64 (addr + size))))

  -- The rest of `simple_bus_receive`, for the region that the address selects.
  unfoldable pub take_in : SimpleBus → ℕ → Packet → Option BusRegion → Stat × SimpleBus
  take_in bus from pkt none = (
    ok,
    record bus { busy = true; target = some from; pkt = set_flags (response pkt) packet_error },
  )
  take_in bus from pkt (some region) =
      (ok, record bus { busy = true; target = some region.component; pkt = pkt })

  unfoldable pub simple_bus_receive : SimpleBus → ℕ → Packet → Stat × SimpleBus
  simple_bus_receive bus from pkt =
      if bus.busy
      then (ebusy, bus)
      else take_in bus from pkt (find_bus_region (V.items bus.regions) pkt.to)

  module _ (e : Env) where
    open e use {Rest}

    unfoldable pub simple_bus_clock : ℕ → SimpleBus → Rest → Option (Stat × SimpleBus × Rest)
    simple_bus_clock self bus rest =
        if bus.busy
        then (do
          (r, rest') ← send e self bus.target bus.pkt rest
          some (if is_ebusy r then (ok, bus, rest') else (r, record bus { busy = false }, rest')))
        else some (ok, bus, rest)
