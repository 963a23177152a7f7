-- ===== src/Mem.antt =====
-- src/mem/simple_mem.c: a memory that answers one request at a time.
pub mod Access
pub mod RoundTrip
pub mod Protocol
use gran.Prelude.{
  ℕ, ◌+◌, ◌%◌, Bool, true, false, not, Option, none, some, List, [], ◌∷◌, ltb, leb, ◌==◌,
  if◌then◌else◌, ◌>>=◌, ◌>>◌, assert, length, replicate,
}
use gran.Packet.{
  Packet, empty_packet, response, set_flags, is_set, packet_read, packet_write, packet_error,
  packet_done, checked_copyto, checked_copyfrom, copy_bytes,
}
use gran.Component.{Stat, ok, ebusy, is_ebusy, Ptr, Env, send}

pub record SimpleMem : Type 0 where
  pub reply_to : Ptr
  pub pkt : Packet
  pub busy : Bool
  pub size : ℕ
  pub buf : List ℕ

unfoldable pub create_simple_mem : ℕ → SimpleMem
create_simple_mem size = record {
  reply_to = none;
  pkt = empty_packet;
  busy = false;
  size = size;
  buf = replicate size 0;
}

-- The access of `simple_mem_receive`, for an offset inside the memory: the packet and the memory
-- after it.
unfoldable pub access : Packet → List ℕ → ℕ → Option (Packet × List ℕ)
access pkt buf offset =
    if is_set pkt packet_read
    then (do pkt' ← checked_copyto pkt buf offset; some (pkt', buf))
    else (if is_set pkt packet_write
        then (do buf' ← checked_copyfrom pkt buf offset; some (pkt, buf'))
        else none)

-- A memory of size 0 divides by zero.
unfoldable pub simple_mem_receive : SimpleMem → ℕ → Packet → Option (Stat × SimpleMem)
simple_mem_receive mem from pkt = if mem.busy then some (ebusy, mem) else (do
  assert (not (mem.size == 0))
  let taken : SimpleMem = record mem { busy = true; reply_to = some from }
  let offset = pkt.to % mem.size
  if leb mem.size offset
      then some (ok, record taken { pkt = set_flags (response pkt) packet_error })
      else (do
        (pkt', buf') ← access pkt mem.buf offset
        some (ok, record taken { pkt = set_flags (response pkt') packet_done; buf = buf' })))

-- `init_simple_mem`: `memcpy(mem->buf + addr, data, size)`
unfoldable pub init_simple_mem : SimpleMem → ℕ → ℕ → List ℕ → Option SimpleMem
init_simple_mem mem addr size bytes = do
  buf' ← copy_bytes size addr bytes mem.buf
  some (record mem { buf = buf' })

module _ (e : Env) where
  open e use {Rest}

  unfoldable pub simple_mem_clock : ℕ → SimpleMem → Rest → Option (Stat × SimpleMem × Rest)
  simple_mem_clock self mem rest = if not mem.busy then some (ok, mem, rest) else (do
    (r, rest') ← send e self mem.reply_to mem.pkt rest
    some (ok, record mem { busy = is_ebusy r }, rest'))
