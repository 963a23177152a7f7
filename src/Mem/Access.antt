-- ===== src/Mem/Access.antt =====
-- What `simple_mem_receive` does to a request that comes in while the memory is free.
use native.Mathlib.Nat.{div-add-mod, mod-lt}
use gran.Prelude.{
  ℕ, ◌≡◌, ◌+◌, ◌*◌, ◌/◌, ◌%◌, ◌≤◌, ◌<◌, true, false, some, List, arith, ap, length, leb, ◌==◌,
}
use gran.Packet.{Packet, response, set_flags, is_set, packet_read, packet_write, packet_done}
use gran.Packet.Copy.{InRange, IsCopied, checked_copyto-IsCopied, checked_copyfrom-IsCopied}
use gran.Component.{ok}
use gran.Mem.{SimpleMem, access, simple_mem_receive}

-- The storage has its size, which is a positive number of 64-byte blocks.
pub record IsMem (mem : SimpleMem) : Type 0 where
  pub storage : length mem.buf ≡ mem.size
  pub blocks : mem.size % 64 ≡ 0
  pub some_room : 0 < mem.size

-- A request to a block, as `create_packet` makes it.
pub record IsRequest (pkt : Packet) : Type 0 where
  pub aligned : pkt.to % 64 ≡ 0
  pub full : length pkt.payload ≡ 64

abbrev pub offset_of : SimpleMem → Packet → ℕ
offset_of mem pkt = pkt.to % mem.size

-- Blocks wrap onto blocks: an aligned address modulo the size leaves a whole block inside.
block_inside : (to size : ℕ) → to % 64 ≡ 0 → size % 64 ≡ 0 → 0 < size → to % size + 64 ≤ size
block_inside to size a b p =
    let whole : size ≡ 64 * (size / 64) = omega arith in
    omega (arith, div-add-mod to size, mod-lt to p, ap (λ (t : ℕ). t * (to / size)) whole)

in_block :
    (mem : SimpleMem) (pkt : Packet)
    → IsMem mem
    → IsRequest pkt
    → InRange pkt.mask 0 64 (offset_of mem pkt) (length mem.buf)
in_block mem pkt m r j p q b =
    omega (arith, block_inside pkt.to mem.size r.aligned m.blocks m.some_room, m.storage)

-- The answer to a request that was served.
abbrev pub served : SimpleMem → ℕ → Packet → List ℕ → SimpleMem
served mem from pkt buf = record mem {
  busy = true;
  reply_to = some from;
  pkt = set_flags (response pkt) packet_done;
  buf = buf;
}

simple_mem_receive-access :
    (mem : SimpleMem) (from : ℕ) (pkt pkt' : Packet) (buf : List ℕ)
    → IsMem mem
    → mem.busy ≡ false
    → access pkt mem.buf (offset_of mem pkt) ≡ some (pkt', buf)
    → simple_mem_receive mem from pkt ≡ some (ok, served mem from pkt' buf)
unfolding simple_mem_receive
simple_mem_receive-access mem from pkt pkt' buf m free done =
    let sized : (mem.size == 0) ≡ false = ground (arith, m.some_room) in
    let inside : leb mem.size (offset_of mem pkt) ≡ false =
      ground (arith, mod-lt pkt.to m.some_room) in
    rw (free, sized, inside, done)

-- A free memory, whose size is a positive multiple of 64 and whose storage has that size, serves a read
-- that is addressed to a 64-byte-aligned block with a payload of 64 bytes: the masked bytes of the
-- packet become those of the block that its address falls on modulo the size of the memory, and
-- the memory itself does not change.
pub simple_mem_receive-read :
    (mem : SimpleMem) (from : ℕ) (pkt : Packet)
    → IsMem mem
    → IsRequest pkt
    → mem.busy ≡ false
    → is_set pkt packet_read ≡ true
    → (out : List ℕ) × (simple_mem_receive mem from pkt
        ≡ some (ok, served mem from (record pkt { payload = out }) mem.buf))
      × IsCopied pkt.mask 0 64 (offset_of mem pkt) 0 mem.buf pkt.payload out
simple_mem_receive-read mem from pkt m r free reads =
    let (out, runs, copied) =
      checked_copyto-IsCopied pkt mem.buf (offset_of mem pkt) r.full (in_block mem pkt m r) in
    (
      out,
      simple_mem_receive-access mem from pkt (record pkt { payload = out }) mem.buf m free
          (unfold access in rw (reads, runs)),
      copied,
    )

-- A free memory, whose size is a positive multiple of 64 and whose storage has that size, serves a write
-- that is addressed to a 64-byte-aligned block with a payload of 64 bytes: the masked bytes of the
-- packet replace those of the block that its address falls on modulo the size of the memory, and
-- no other byte of the memory changes.
pub simple_mem_receive-write :
    (mem : SimpleMem) (from : ℕ) (pkt : Packet)
    → IsMem mem
    → IsRequest pkt
    → mem.busy ≡ false
    → is_set pkt packet_read ≡ false
    → is_set pkt packet_write ≡ true
    → (buf : List ℕ) × (simple_mem_receive mem from pkt ≡ some (ok, served mem from pkt buf))
      × IsCopied pkt.mask 0 64 0 (offset_of mem pkt) pkt.payload mem.buf buf
simple_mem_receive-write mem from pkt m r free not_read writes =
    let (buf, runs, copied) =
      checked_copyfrom-IsCopied pkt mem.buf (offset_of mem pkt) r.full (in_block mem pkt m r) in
    (
      buf,
      simple_mem_receive-access mem from pkt pkt buf m free
          (unfold access in rw (not_read, writes, runs)),
      copied,
    )
