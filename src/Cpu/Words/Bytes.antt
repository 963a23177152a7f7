-- ===== src/Cpu/Words/Bytes.antt =====
-- include/gran/packet.h: the bytes of a packet, and the range of what a conversion reads.
use native.Mathlib.Nat.{pow-suc}
use gran.Prelude.{
  ℕ, zero, suc, ◌+◌, ◌-◌, ◌/◌, ◌^◌, ◌<◌, not, some, List, [], ◌∷◌, arith, ltb, leb, ◌==◌,
  if◌then◌else◌, assert, length, set, get_elem?, AllBelow, AllBelow-get_elem?, set-AllBelow,
  replicate, replicate-AllBelow,
}
use gran.Prelude.Outcome.{Holds, bind-Holds, bind_with-Holds, if-Holds}
use gran.Packet.{
  Packet, empty_packet, packet_write, packet_align, packet_mask, is_set, ffsll, load_le, store_le,
  packet_conv, copy_bytes, create_packet,
}

abbrev pub AreBytes : List ℕ → Type 0
AreBytes bytes = AllBelow 256 bytes

pub load_le-lt :
    (n : ℕ) (bytes : List ℕ) (i : ℕ)
    → AreBytes bytes
    → Holds (λ (v : ℕ). v < 256 ^ n) (load_le n bytes i)
unfolding load_le
load_le-lt zero bytes i h = omega arith
load_le-lt (suc n) bytes i h =
    bind-Holds (λ (v : ℕ). v < 256 ^ suc n) (get_elem? bytes i) _
      (λ low read.
        bind_with-Holds (λ (v : ℕ). v < 256 ^ n) (λ (v : ℕ). v < 256 ^ suc n)
          (load_le n bytes (i + 1)) _ (load_le-lt n bytes (i + 1) h)
          (λ high small. omega (arith, AllBelow-get_elem? 256 bytes i low h read, pow-suc 256 n)))

pub packet_conv-lt :
    (n : ℕ) (pkt : Packet)
    → AreBytes pkt.payload
    → Holds (λ (v : ℕ). v < 256 ^ n) (packet_conv n pkt)
unfolding packet_conv
packet_conv-lt n pkt h =
    bind-Holds (λ (v : ℕ). v < 256 ^ n) (assert (not (ffsll pkt.mask == 0))) _
      (λ u there. load_le-lt n pkt.payload (ffsll pkt.mask - 1) h)

pub store_le-AreBytes : (n v : ℕ) → AreBytes (store_le n v)
unfolding store_le
store_le-AreBytes zero v = tt
store_le-AreBytes (suc n) v = (omega arith, store_le-AreBytes n (v / 256))

copy_bytes-AreBytes :
    (n i : ℕ) (src dst : List ℕ)
    → AreBytes src
    → AreBytes dst
    → Holds AreBytes (copy_bytes n i src dst)
unfolding copy_bytes
copy_bytes-AreBytes zero i src dst h k = k
copy_bytes-AreBytes (suc n) i [] dst h k = tt
copy_bytes-AreBytes (suc n) i (b ∷ src) dst h k =
    bind-Holds AreBytes (assert (ltb i (length dst))) _ (λ u room.
      copy_bytes-AreBytes n (i + 1) src (set dst i b) h.1 (set-AllBelow 256 dst i b k h.0))

abbrev pub HasBytes : Packet → Type 0
HasBytes pkt = AreBytes pkt.payload

pub create_packet-HasBytes :
    (from to size : ℕ) (bytes : List ℕ) (flags : ℕ)
    → AreBytes bytes
    → Holds HasBytes (create_packet from to size bytes flags)
unfolding create_packet
create_packet-HasBytes from to size bytes flags h =
    bind-Holds HasBytes (assert (leb size 64)) _ (λ u a.
      bind-Holds HasBytes (assert (packet_align from == from)) _ (λ u b.
        bind-Holds HasBytes (packet_mask to size) _ (λ mask c.
          bind_with-Holds AreBytes HasBytes
            (if is_set
                (record empty_packet {
                  from = from;
                  to = packet_align to;
                  mask = mask;
                  flags = flags;
                })
                packet_write
              then copy_bytes size (to - packet_align to) bytes (replicate 64 0)
              else some (replicate 64 0))
            _
            (if-Holds AreBytes
              (is_set
                (record empty_packet {
                  from = from;
                  to = packet_align to;
                  mask = mask;
                  flags = flags;
                })
                packet_write)
              (copy_bytes size (to - packet_align to) bytes (replicate 64 0))
              (some (replicate 64 0))
              (λ w.
                copy_bytes-AreBytes size (to - packet_align to) bytes (replicate 64 0) h
                  (replicate-AllBelow 256 64 0 (omega arith)))
              (λ w. replicate-AllBelow 256 64 0 (omega arith)))
            (λ filled full. full))))
