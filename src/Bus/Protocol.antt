-- ===== src/Bus/Protocol.antt =====
-- A packet's way through the bus.
use gran.Prelude.{ℕ, ◌≡◌, true, false, Option, none, some, arith, if◌then◌else◌}
use gran.Packet.{Packet, response, set_flags, packet_error}
use gran.Component.{Stat, ok, is_ebusy, Ptr, Env, send}
use gran.Vec.{VecOps}
use gran.Bus.{BusRegion, find_bus_region, SimpleBus, take_in, simple_bus_receive, simple_bus_clock}

-- Where the bus sends a packet on to, and what it sends: the packet itself to the owner of its region,
-- or back to the sender with the error flag.
abbrev pub next_hop : Option BusRegion → ℕ → Packet → Ptr × Packet
next_hop (some r) from pkt = (some r.component, pkt)
next_hop none from pkt = (some from, set_flags (response pkt) packet_error)

module _ (V : VecOps BusRegion) (e : Env) where
  open e use {Rest}

  -- One call of `receive`, then one of `clock`.
  pub through : SimpleBus V → ℕ → ℕ → Packet → Rest → Option (Stat × SimpleBus V × Rest)
  through bus self from pkt rest =
      simple_bus_clock V e self (simple_bus_receive V bus from pkt).1 rest

  -- The bus after a clock in which its packet was answered with `r`.
  abbrev pub answered : SimpleBus V → Stat → Stat × SimpleBus V
  answered bus r = if is_ebusy r then (ok, bus) else (r, record bus { busy = false })

  -- What a free bus accepts it sends on, at its next clock, to the component whose region the address
  -- selects, unchanged; a packet to no region goes back to its sender as an error. While the
  -- target answers `EBUSY` the bus keeps the packet; any other answer is passed on and frees it.
  pub through-next_hop :
      (bus : SimpleBus V) (self from : ℕ) (pkt : Packet) (rest rest' : Rest) (r : Stat)
      → bus.busy ≡ false
      → let (hop, out) = next_hop (find_bus_region (V.items bus.regions) pkt.to) from pkt in
        send e self hop out rest ≡ some (r, rest')
        → let (hop, out) = next_hop (find_bus_region (V.items bus.regions) pkt.to) from pkt in
          ((simple_bus_receive V bus from pkt).0 ≡ ok)
          × (through bus self from pkt rest ≡ (
              let (s, after) = answered (record bus { busy = true; target = hop; pkt = out }) r in
              some (s, after, rest')))
  unfolding through simple_bus_receive simple_bus_clock take_in
  through-next_hop bus self from pkt rest rest' r free sent = ground arith
