-- ===== src/Packet.antt =====
-- include/gran/packet.h: the packet that every component sends and receives.
-- A `uint8_t data[64]` is a list of bytes (`payload`); `enum packet_flags` is a bit set. An
-- assertion that fails and a call of `abort` are `none`.
pub mod Forward
pub mod Flags
pub mod Mask
pub mod Copy
pub mod Create
use gran.Prelude.{
  ℕ, zero, suc, ◌+◌, ◌-◌, ◌*◌, ◌/◌, ◌%◌, ◌^◌, bit_and, bit_or, Bool, true, false, not, ◌||◌, Option,
  none, some, List, [], ◌∷◌, ltb, leb, ◌==◌, if◌then◌else◌, u64, ◌>>=◌, ◌>>◌, assert, length,
  get_elem?, set, replicate,
}
use gran.Prelude.Bits.{bit}

abbrev pub packet_read : ℕ
packet_read = 2 ^ 0

abbrev pub packet_write : ℕ
packet_write = 2 ^ 1

abbrev pub packet_atomic : ℕ
packet_atomic = 2 ^ 2

abbrev pub packet_error : ℕ
packet_error = 2 ^ 3

abbrev pub packet_done : ℕ
packet_done = 2 ^ 4

pub record Packet : Type 0 where
  pub from : ℕ
  pub to : ℕ
  pub mask : ℕ
  pub timestamp : ℕ
  pub payload : List ℕ
  pub flags : ℕ

-- `(struct packet){}`
abbrev pub empty_packet : Packet
empty_packet = record {
  from = 0;
  to = 0;
  mask = 0;
  timestamp = 0;
  payload = replicate 64 0;
  flags = 0;
}

abbrev pub response : Packet → Packet
response pkt = record pkt { from = pkt.to; to = pkt.from }

abbrev pub set_flags : Packet → ℕ → Packet
set_flags pkt f = record pkt { flags = bit_or pkt.flags f }

-- `flags &= ~f`; `~f` is taken at 32 bits, the width of the enumeration.
unfoldable pub clear_flags : Packet → ℕ → Packet
clear_flags pkt f = record pkt { flags = bit_and pkt.flags (2 ^ 32 - 1 - f) }

unfoldable pub is_set : Packet → ℕ → Bool
is_set pkt f = not (bit_and pkt.flags f == 0)

-- `addr & ~(64 - 1)`
abbrev pub packet_align : ℕ → ℕ
packet_align addr = addr / 64 * 64

unfoldable pub packet_mask : ℕ → ℕ → Option ℕ
packet_mask addr size = do
  assert (leb size 64)
  let mask = if size == 64 then 2 ^ 64 - 1 else 2 ^ size - 1
  let diff = addr - packet_align addr
  assert (diff == 0 || mask / 2 ^ (64 - diff) == 0)
  some (u64 (mask * 2 ^ diff))

-- `__builtin_ffsll`: one more than the place of the lowest set bit, 0 if there is none.
unfoldable pub ffs : ℕ → ℕ → ℕ
ffs zero x = 0
ffs (suc w) x =
    let rest = ffs w (x / 2) in if x % 2 == 1 then 1 else (if rest == 0 then 0 else rest + 1)

unfoldable pub ffsll : ℕ → ℕ
ffsll x = ffs 64 x

unfoldable pub packet_convsize : Packet → Option ℕ
packet_convsize pkt =
    let start = ffsll pkt.mask in
    let low = pkt.mask / 2 ^ (start - 1) % 256 in
    if start == 0
    then some 0
    else (if low == 0x01
        then some 1
        else (if low == 0x03
            then some 2
            else (if low == 0x0f then some 4 else (if low == 0xff then some 8 else none))))

unfoldable pub packet_convto : Packet → ℕ
packet_convto pkt =
    let start = ffsll pkt.mask in if start == 0 then pkt.to else u64 (pkt.to + (start - 1))

unfoldable pub packet_convfrom : Packet → ℕ
packet_convfrom pkt =
    let start = ffsll pkt.mask in if start == 0 then pkt.from else u64 (pkt.from + (start - 1))

-- `memcpy(&res, data + i, n)` into a number, on a little-endian host.
unfoldable pub load_le : ℕ → List ℕ → ℕ → Option ℕ
load_le zero bytes i = some 0
load_le (suc n) bytes i = do
  low ← get_elem? bytes i
  high ← load_le n bytes (i + 1)
  some (low + 256 * high)

-- The bytes of a number, lowest first.
unfoldable pub store_le : ℕ → ℕ → List ℕ
store_le zero v = []
store_le (suc n) v = v % 256 ∷ store_le n (v / 256)

unfoldable pub packet_conv : ℕ → Packet → Option ℕ
packet_conv n pkt = do
  let start = ffsll pkt.mask
  assert (not (start == 0))
  load_le n pkt.payload (start - 1)

-- A `w`-bit signed value, widened to 64 bits.
abbrev pub sign_extend : ℕ → ℕ → ℕ
sign_extend w v = if ltb v (2 ^ (w - 1)) then v else v + (2 ^ 64 - 2 ^ w)

unfoldable pub packet_convu8 : Packet → Option ℕ
packet_convu8 pkt = packet_conv 1 pkt

-- The byte is a `uint8_t`, so widening it to `int64_t` does not extend its sign.
unfoldable pub packet_convi8 : Packet → Option ℕ
packet_convi8 pkt = packet_conv 1 pkt

unfoldable pub packet_convu16 : Packet → Option ℕ
packet_convu16 pkt = packet_conv 2 pkt

unfoldable pub packet_convi16 : Packet → Option ℕ
packet_convi16 pkt = do v ← packet_conv 2 pkt; some (sign_extend 16 v)

unfoldable pub packet_convu32 : Packet → Option ℕ
packet_convu32 pkt = packet_conv 4 pkt

unfoldable pub packet_convi32 : Packet → Option ℕ
packet_convi32 pkt = do v ← packet_conv 4 pkt; some (sign_extend 32 v)

unfoldable pub packet_convu64 : Packet → Option ℕ
packet_convu64 pkt = packet_conv 8 pkt

unfoldable pub packet_convi64 : Packet → Option ℕ
packet_convi64 pkt = packet_conv 8 pkt

-- `memcpy(dst + i, src, n)`
unfoldable pub copy_bytes : ℕ → ℕ → List ℕ → List ℕ → Option (List ℕ)
copy_bytes zero i src dst = some dst
copy_bytes (suc n) i [] dst = none
copy_bytes (suc n) i (b ∷ src) dst = do
  assert (ltb i (length dst))
  copy_bytes n (i + 1) src (set dst i b)

unfoldable pub create_packet : ℕ → ℕ → ℕ → List ℕ → ℕ → Option Packet
create_packet from to size bytes flags = do
  assert (leb size 64)
  assert (packet_align from == from)
  let aligned = packet_align to
  mask ← packet_mask to size
  let pkt : Packet = record empty_packet { from = from; to = aligned; mask = mask; flags = flags }
  filled ←
      if is_set pkt packet_write
      then copy_bytes size (to - aligned) bytes pkt.payload
      else some pkt.payload
  some (record pkt { payload = filled })

-- One round of the loop of `checked_copyto`: `dst[i] = src[off + i]` if the mask has bit `i`.
copy_masked : ℕ → ℕ → ℕ → List ℕ → List ℕ → Option (List ℕ)
copy_masked mask i off src dst =
    if bit mask i == 1 then (do b ← get_elem? src (off + i); some (set dst i b)) else some dst

copyto_loop : ℕ → ℕ → ℕ → ℕ → List ℕ → List ℕ → Option (List ℕ)
copyto_loop zero i mask off src dst = some dst
copyto_loop (suc left) i mask off src dst = do
  dst' ← copy_masked mask i off src dst
  copyto_loop left (i + 1) mask off src dst'

-- `checked_copyto(pkt, data + off)`
pub checked_copyto : Packet → List ℕ → ℕ → Option Packet
checked_copyto pkt src off = do
  filled ← copyto_loop 64 0 pkt.mask off src pkt.payload
  some (record pkt { payload = filled })

-- One round of the loop of `checked_copyfrom`: `dst[off + i] = src[i]` if the mask has bit `i`.
store_masked : ℕ → ℕ → ℕ → List ℕ → List ℕ → Option (List ℕ)
store_masked mask i off src dst =
    if bit mask i == 1
    then (do b ← get_elem? src i; assert (ltb (off + i) (length dst)); some (set dst (off + i) b))
    else some dst

copyfrom_loop : ℕ → ℕ → ℕ → ℕ → List ℕ → List ℕ → Option (List ℕ)
copyfrom_loop zero i mask off src dst = some dst
copyfrom_loop (suc left) i mask off src dst = do
  dst' ← store_masked mask i off src dst
  copyfrom_loop left (i + 1) mask off src dst'

-- `checked_copyfrom(pkt, data + off)`: the memory after the call.
pub checked_copyfrom : Packet → List ℕ → ℕ → Option (List ℕ)
checked_copyfrom pkt dst off = copyfrom_loop 64 0 pkt.mask off pkt.payload dst
