-- ===== src/Mem/RoundTrip.antt =====
-- A store to the memory and a load from the same place.
use gran.Prelude.{
  ℕ, ◌≡◌, ◌+◌, ◌%◌, ◌^◌, ◌≤◌, ◌<◌, false, Option, some, List, [], arith, refl, ◌∙◌, get_elem?,
  ◌>>=◌, ◌>>◌, assert, replicate,
}
use gran.Prelude.Bits.{bit}
use gran.Packet.{
  Packet, is_set, packet_read, packet_write, create_packet, packet_conv, store_le, load_le,
}
use gran.Packet.Copy.{IsCopied}
use gran.Packet.Mask.{offset_in, field_mask, field_mask-Covers}
use gran.Packet.Create.{
  IsWidth, made, create_packet-read, create_packet-write, packet_conv-mask, load_le-same,
  load_le-store_le, length-store_le,
}
use gran.Component.{ok, is_ok, Env, send}
use gran.Mem.{SimpleMem, simple_mem_receive, simple_mem_clock}
use gran.Mem.Access.{IsMem, served, offset_of, simple_mem_receive-read, simple_mem_receive-write}

-- The bytes that went out come back.
pub bytes_back :
    (to size o : ℕ) (bytes out buf filled : List ℕ)
    → offset_in to + size ≤ 64
    → IsCopied (field_mask size (offset_in to)) 0 64 0 o filled buf out
    → ((j : ℕ) → j < size → get_elem? filled (offset_in to + j) ≡ get_elem? bytes j)
    → (old back : List ℕ) → IsCopied (field_mask size (offset_in to)) 0 64 o 0 out old back
    → load_le size back (offset_in to) ≡ load_le size bytes 0
bytes_back to size o bytes out buf filled fits w stored old back r =
    load_le-same size (offset_in to) 0 back bytes same
  where
    same : (j : ℕ) → j < size → get_elem? back (offset_in to + j) ≡ get_elem? bytes (0 + j)
    same j p =
        let on : bit (field_mask size (offset_in to)) (offset_in to + j) ≡ 1 =
          (field_mask-Covers to size fits).inside (offset_in to + j) (omega arith) (omega arith) in
        let z : 0 + (offset_in to + j) ≡ offset_in to + j = omega arith in
        let z' : 0 + j ≡ j = omega arith in
        rw z' (
          (rw z at (r.inside (offset_in to + j) (omega arith) (omega arith) on))
          ∙ (rw z at (w.inside (offset_in to + j) (omega arith) (omega arith) on))
          ∙ stored j p)

module _ (e : Env) (self : ℕ) where
  open e use {Rest}

  -- Store the `size` low bytes of `v` at `to`, clock the memory, load `size` bytes from `to`, and convert
  -- the packet that answers the load; nothing if the memory refuses either request.
  pub store_load : SimpleMem → Rest → ℕ → ℕ → ℕ → ℕ → Option ℕ
  store_load mem rest from to size v = do
    w ← create_packet from to size (store_le size v) packet_write
    (stored_as, stored) ← simple_mem_receive mem from w
    assert (is_ok stored_as)
    (_, freed, _) ← simple_mem_clock e self stored rest
    r ← create_packet from to size [] packet_read
    (loaded_as, loaded) ← simple_mem_receive freed from r
    assert (is_ok loaded_as)
    packet_conv size loaded.pkt

  chain :
      (mem stored freed loaded : SimpleMem) (rest rest' : Rest) (from to size v : ℕ) (w r : Packet)
      → create_packet from to size (store_le size v) packet_write ≡ some w
      → simple_mem_receive mem from w ≡ some (ok, stored)
      → simple_mem_clock e self stored rest ≡ some (ok, freed, rest')
      → create_packet from to size [] packet_read ≡ some r
      → simple_mem_receive freed from r ≡ some (ok, loaded)
      → store_load mem rest from to size v ≡ packet_conv size loaded.pkt
  unfolding store_load
  chain mem stored freed loaded rest rest' from to size v w r a b c d f = rw (a, b, c, d, f)

  -- The component that sent a request takes the reply.
  abbrev pub TakesReply : ℕ → Rest → Type 0
  TakesReply from rest =
      (pkt : Packet) → (rest' : Rest) × (send e self (some from) pkt rest ≡ some (ok, rest'))

  freed_mem :
      (mem : SimpleMem) (from : ℕ) (pkt : Packet) (buf : List ℕ) (rest : Rest)
      → TakesReply from rest
      → (rest' : Rest) × (simple_mem_clock e self (served mem from pkt buf) rest
          ≡ some (ok, record (served mem from pkt buf) { busy = false }, rest'))
  unfolding simple_mem_clock
  freed_mem mem from pkt buf rest takes =
      let (rest', sent) = takes (served mem from pkt buf).pkt in (rest', rw sent refl)

  -- A load returns what the last store to the same place stored: for a memory of whole 64-byte blocks
  -- that is free, an aligned source address, a width of 1, 2, 4 or 8 bytes that stay inside one
  -- block, a value of that width, and a component that takes the reply to the store, neither
  -- request is refused, the clock between them frees the memory, and the value comes back.
  pub store_load_lem :
      (mem : SimpleMem) (rest : Rest) (from to size v : ℕ)
      → IsMem mem
      → mem.busy ≡ false
      → IsWidth size
      → from % 64 ≡ 0
      → offset_in to + size ≤ 64
      → v < 256 ^ size
      → TakesReply from rest
      → store_load mem rest from to size v ≡ some v
  store_load_lem mem rest from to size v m free width h fits small takes =
      let (filled, makes_w, full, stored) =
        create_packet-write from to size (store_le size v) h fits
          (omega (arith, length-store_le size v)) in
      let w = made from to size packet_write filled in
      let (buf, writes, copied) =
        simple_mem_receive-write mem from w m (record { aligned = omega arith; full = full }) free
          (unfold is_set in refl) (unfold is_set in refl) in
      let (rest', clocked) = freed_mem mem from w buf rest takes in
      let stored_mem = record (served mem from w buf) { busy = false } in
      let r = made from to size packet_read (replicate 64 0) in
      let (back, reads, copied') =
        simple_mem_receive-read stored_mem from r
          (record {
            storage = copied.same_length ∙ m.storage;
            blocks = m.blocks;
            some_room = m.some_room;
          })
          (record { aligned = omega arith; full = refl }) refl (unfold is_set in refl) in
      chain mem (served mem from w buf) stored_mem
        (served stored_mem from (record r { payload = back }) buf) rest rest' from to size v w r
        makes_w writes clocked (create_packet-read from to size [] h fits) reads
      ∙ packet_conv-mask from to size packet_read back width fits size
          (served stored_mem from (record r { payload = back }) buf).pkt refl
      ∙ bytes_back to size (offset_of mem w) (store_le size v) buf mem.buf filled fits copied stored
          (replicate 64 0) back copied'
      ∙ load_le-store_le size v small
