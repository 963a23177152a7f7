-- ===== src/Packet/Forward.antt =====
-- src/cache/simt_cache.c and src/cpu/riscv/simt_riscv64.c: the packet that goes to the memory for a lane.
use gran.Prelude.{ℕ, ◌≡◌, ◌-◌, ◌^◌, true, false}
use gran.Packet.{Packet, packet_read, is_set}

-- A read is for all 64 bytes and a write for its own; the packet is to be answered at `address`, and is
-- otherwise the packet of the lane.
pub record IsForwarded (address : ℕ) (pkt sent : Packet) : Type 0 where
  pub from : sent.from ≡ address
  pub to : sent.to ≡ pkt.to
  pub all_bytes : is_set pkt packet_read ≡ true → sent.mask ≡ 2 ^ 64 - 1
  pub own_bytes : is_set pkt packet_read ≡ false → sent.mask ≡ pkt.mask
  pub timestamp : sent.timestamp ≡ pkt.timestamp
  pub payload : sent.payload ≡ pkt.payload
  pub flags : sent.flags ≡ pkt.flags
