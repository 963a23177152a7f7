-- ===== src/Packet/Create.antt =====
-- `create_packet`, and what the conversions read back from the packet that it makes.
use native.Mathlib.Decide.{ℕ_discrete}
use native.Mathlib.Nat.{mod-eq_of_lt, pow-suc}
use gran.Prelude.{
  ℕ, zero, suc, ◌≡◌, ◌≢◌, ◌+◌, ◌-◌, ◌/◌, ◌%◌, ◌^◌, ◌≤◌, ◌<◌, ◌⊎◌, inl, inr, true, false, none, some,
  List, [], ◌∷◌, arith, ◌==◌, refl, ap, ◌∙◌, ltb, leb, if◌then◌else◌, u64, length, get_elem?, set,
  length-set, get_elem?-set_self, get_elem?-set_ne, lt→ltb, ==_iff, Bool-cases, replicate,
}
use gran.Packet.{
  Packet, empty_packet, packet_read, packet_write, is_set, packet_align, ffsll, packet_convsize,
  packet_convto, load_le, store_le, packet_conv, copy_bytes, create_packet,
}
use gran.Packet.Mask.{
  offset_in, field_mask, packet_mask-fits, packet_mask-crosses, ffsll-field_mask, field_mask-div,
}

-- `memcpy` of `n` bytes into place `i`.
pub record IsWritten (n i : ℕ) (src dst out : List ℕ) : Type 0 where
  pub same_length : length out ≡ length dst
  pub inside : (j : ℕ) → j < n → get_elem? out (i + j) ≡ get_elem? src j
  pub outside : (k : ℕ) → (k < i) ⊎ (i + n ≤ k) → get_elem? out k ≡ get_elem? dst k

IsWritten-cons :
    (n i b : ℕ) (src dst out : List ℕ)
    → i < length dst
    → IsWritten n (i + 1) src (set dst i b) out
    → IsWritten (suc n) i (b ∷ src) dst out
IsWritten-cons n i b src dst out room w = record {
  same_length = w.same_length ∙ length-set dst i b;
  inside = first_or_later;
  outside = λ k p. w.outside k (omega arith) ∙ get_elem?-set_ne dst i k b (omega arith);
}
  where
    first_or_later : (j : ℕ) → j < suc n → get_elem? out (i + j) ≡ get_elem? (b ∷ src) j
    first_or_later zero p =
        let at : i + zero ≡ i = omega arith in
        rw at (w.outside i (omega arith) ∙ get_elem?-set_self dst i b room)
    first_or_later (suc j) p =
        let at : i + suc j ≡ i + 1 + j = omega arith in rw at (w.inside j (omega arith))

pub copy_bytes-IsWritten :
    (n i : ℕ) (src dst : List ℕ)
    → n ≤ length src
    → i + n ≤ length dst
    → (out : List ℕ) × (copy_bytes n i src dst ≡ some out) × IsWritten n i src dst out
unfolding copy_bytes
copy_bytes-IsWritten zero i src dst h k = (
  dst,
  refl,
  record { same_length = refl; inside = λ j p. absurd (omega arith); outside = λ m p. refl },
)
copy_bytes-IsWritten (suc n) i [] dst h k = absurd (omega arith)
copy_bytes-IsWritten (suc n) i (b ∷ src) dst h k =
    let (out, runs, w) =
      copy_bytes-IsWritten n (i + 1) src (set dst i b) (omega arith)
        (rw length-set (omega arith)) in
    let room : ltb i (length dst) ≡ true = lt→ltb i (length dst) (omega arith) in
    (out, rw room runs, IsWritten-cons n i b src dst out (omega arith) w)

-- Equal bytes are read as equal numbers.
pub load_le-same :
    (n i j : ℕ) (xs ys : List ℕ)
    → ((k : ℕ) → k < n → get_elem? xs (i + k) ≡ get_elem? ys (j + k))
    → load_le n xs i ≡ load_le n ys j
unfolding load_le
load_le-same zero i j xs ys h = refl
load_le-same (suc n) i j xs ys h =
    let i0 : i + 0 ≡ i = omega arith in
    let j0 : j + 0 ≡ j = omega arith in
    let first : get_elem? xs i ≡ get_elem? ys j = rw i0 at (rw j0 at (h 0 (omega arith))) in
    let rest : load_le n xs (i + 1) ≡ load_le n ys (j + 1) =
      load_le-same n (i + 1) (j + 1) xs ys later in
    rw (first, rest)
  where
    later : (k : ℕ) → k < n → get_elem? xs (i + 1 + k) ≡ get_elem? ys (j + 1 + k)
    later k p =
        let ik : i + 1 + k ≡ i + suc k = omega arith in
        let jk : j + 1 + k ≡ j + suc k = omega arith in rw (ik, jk) (h (suc k) (omega arith))

-- The bytes of a number, read back, are the number.
pub load_le-store_le : (n v : ℕ) → v < 256 ^ n → load_le n (store_le n v) 0 ≡ some v
unfolding load_le store_le
load_le-store_le zero v h = let e : ◌≡◌ {A = ℕ} v 0 = omega arith in rw e
load_le-store_le (suc n) v h =
    let rest : load_le n (v % 256 ∷ store_le n (v / 256)) (0 + 1)
        ≡ load_le n (store_le n (v / 256)) 0 =
      load_le-same n (0 + 1) 0 _ _ (λ k p. rw (shift k)) in
    let small : v / 256 < 256 ^ n = omega (arith, pow-suc 256 n) in
    rw (rest, load_le-store_le n (v / 256) small) (ap some (omega arith))
  where
    shift : (k : ℕ) → 0 + 1 + k ≡ suc (0 + k)
    shift k = omega arith

pub length-store_le : (n v : ℕ) → length (store_le n v) ≡ n
unfolding store_le
length-store_le zero v = refl
length-store_le (suc n) v = ap suc (length-store_le n (v / 256))

abbrev pub made : ℕ → ℕ → ℕ → ℕ → List ℕ → Packet
made from to size flags bytes = record empty_packet {
  from = from;
  to = packet_align to;
  mask = field_mask size (offset_in to);
  flags = flags;
  payload = bytes;
}

align_eq : (a : ℕ) → a % 64 ≡ 0 → (packet_align a == a) ≡ true
align_eq a h = (==_iff (packet_align a) a).1 (omega arith)

-- A read packet has no payload but zeros.
pub create_packet-read :
    (from to size : ℕ) (bytes : List ℕ)
    → from % 64 ≡ 0
    → offset_in to + size ≤ 64
    → create_packet from to size bytes packet_read
      ≡ some (made from to size packet_read (replicate 64 0))
unfolding create_packet is_set
create_packet-read from to size bytes h fits =
    let small : leb size 64 ≡ true = ground arith in
    rw (small, align_eq from h, packet_mask-fits to size fits)

filled-write :
    (from to size : ℕ) (bytes out : List ℕ)
    → from % 64 ≡ 0
    → offset_in to + size ≤ 64
    → copy_bytes size (offset_in to) bytes (replicate 64 0) ≡ some out
    → create_packet from to size bytes packet_write ≡ some (made from to size packet_write out)
unfolding create_packet is_set
filled-write from to size bytes out h fits runs =
    let small : leb size 64 ≡ true = ground arith in
    let at : to - packet_align to ≡ offset_in to = omega arith in
    rw (small, align_eq from h, packet_mask-fits to size fits, at, runs)

-- A write packet carries the bytes at the place of the address in its block.
pub create_packet-write :
    (from to size : ℕ) (bytes : List ℕ)
    → from % 64 ≡ 0
    → offset_in to + size ≤ 64
    → size ≤ length bytes
    → (out : List ℕ) × (create_packet from to size bytes packet_write
        ≡ some (made from to size packet_write out))
      × (length out ≡ 64)
      × ((j : ℕ) → j < size → get_elem? out (offset_in to + j) ≡ get_elem? bytes j)
create_packet-write from to size bytes h fits enough =
    let (out, runs, w) =
      copy_bytes-IsWritten size (offset_in to) bytes (replicate 64 0) enough (omega arith) in
    (out, filled-write from to size bytes out h fits runs, w.same_length, w.inside)

-- An access whose bytes do not stay inside one 64-byte block, or a source address that is not
-- aligned to one, fails an assertion of `create_packet`.
pub create_packet-aborts :
    (from to size flags : ℕ) (bytes : List ℕ)
    → (from % 64 ≢ 0) ⊎ (64 < offset_in to + size)
    → create_packet from to size bytes flags ≡ none
unfolding create_packet
create_packet-aborts from to size flags bytes h = elim (Bool-cases (leb size 64)) [
  | inr large ↦ rw large refl
  | inl small ↦ elim (ℕ_discrete (from % 64) 0) [
    | yes e ↦ rw (small, align_eq from e, packet_mask-crosses to size (ground arith)) refl
    | no ne ↦ let skew : (packet_align from == from) ≡ false = ground arith in rw (small, skew) refl
  ]
]

-- The widths of the loads and stores.
pub data IsWidth : ℕ → Type 0 where
  byte : IsWidth 1
  half : IsWidth 2
  word : IsWidth 4
  double : IsWidth 8

width_pos : {n : ℕ} → IsWidth n → 0 < n
width_pos byte = omega arith
width_pos half = omega arith
width_pos word = omega arith
width_pos double = omega arith

low_byte :
    {n : ℕ}
    → IsWidth n
    → (let low = (2 ^ n - 1) % 256 in
        if low == 0x01
        then some 1
        else (if low == 0x03
            then some 2
            else (if low == 0x0f then some 4 else (if low == 0xff then some 8 else none))))
      ≡ some n
low_byte byte = refl
low_byte half = refl
low_byte word = refl
low_byte double = refl

module _ (from to size flags : ℕ) (bytes : List ℕ) (width : IsWidth size)
    (fits : offset_in to + size ≤ 64) where
  start_lem : ffsll (field_mask size (offset_in to)) ≡ suc (offset_in to)
  start_lem = ffsll-field_mask size (offset_in to) (width_pos width) (omega arith)

  pred_suc : suc (offset_in to) - 1 ≡ offset_in to
  pred_suc = omega arith

  not_zero : (suc (offset_in to) == 0) ≡ false
  not_zero = ground arith

  whole : u64 (packet_align to + offset_in to) ≡ u64 to
  whole = ap u64 (omega arith)

  pub packet_convsize-mask :
      (p : Packet) → p.mask ≡ field_mask size (offset_in to) → packet_convsize p ≡ some size
  unfolding packet_convsize
  packet_convsize-mask p e =
      rw (e, start_lem, not_zero, pred_suc, field_mask-div size (offset_in to)) (low_byte width)

  pub packet_convto-made : to < 2 ^ 64 → packet_convto (made from to size flags bytes) ≡ to
  unfolding packet_convto
  packet_convto-made h = rw (start_lem, not_zero, pred_suc) (whole ∙ mod-eq_of_lt h)

  -- A conversion reads the payload from the place of the address on.
  pub packet_conv-mask :
      (n : ℕ) (p : Packet)
      → p.mask ≡ field_mask size (offset_in to)
      → packet_conv n p ≡ load_le n p.payload (offset_in to)
  unfolding packet_conv
  packet_conv-mask n p e = rw (e, start_lem, not_zero, pred_suc) refl

-- Storing the `size` low bytes of `v` at `to`, for a width of 1, 2, 4 or 8 bytes that stay inside one
-- 64-byte block, and from an aligned source address: `create_packet` makes a packet, addressed to
-- the block, from which `packet_convto` gives back `to`, `packet_convsize` gives back `size`, and
-- the conversion of that width gives back `v`.
pub create_packet-conv :
    (from to size v : ℕ)
    → IsWidth size
    → from % 64 ≡ 0
    → to < 2 ^ 64
    → offset_in to + size ≤ 64
    → v < 256 ^ size
    → (p : Packet) × (create_packet from to size (store_le size v) packet_write ≡ some p)
      × (p.to ≡ packet_align to)
      × (packet_convto p ≡ to)
      × (packet_convsize p ≡ some size)
      × (packet_conv size p ≡ some v)
create_packet-conv from to size v width h small fits range =
    let (out, runs, full, stored) =
      create_packet-write from to size (store_le size v) h fits
        (omega (arith, length-store_le size v)) in
    (
      made from to size packet_write out,
      runs,
      refl,
      packet_convto-made from to size packet_write out width fits small,
      packet_convsize-mask from to size packet_write out width fits
          (made from to size packet_write out) refl,
      packet_conv-mask from to size packet_write out width fits size
            (made from to size packet_write out) refl
          ∙ load_le-same size (offset_in to) 0 out (store_le size v)
              (λ k p. stored k p ∙ ap (get_elem? (store_le size v)) (omega arith))
          ∙ load_le-store_le size v range,
    )
