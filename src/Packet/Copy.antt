-- ===== src/Packet/Copy.antt =====
-- include/gran/packet.h: `checked_copyto` and `checked_copyfrom`, and which bytes they move.
use gran.Prelude.{
  ℕ, zero, suc, ◌≡◌, ◌≢◌, ◌+◌, ◌≤◌, ◌<◌, some, List, arith, refl, ap, ◌∙◌, sym, subst, length,
  get_elem?, set, length-set, get_elem?-set_self, get_elem?-set_ne, get_elem?-some, lt→ltb,
  >>=-eq-some, some_inj,
}
use native.Mathlib.Decide.{ℕ_discrete}
use gran.Prelude.Bits.{bit}
use gran.Packet.{
  Packet, copy_masked, copyto_loop, checked_copyto, store_masked, copyfrom_loop, checked_copyfrom,
}

-- Every masked byte from `i` up to `hi` lies inside an array of `n` bytes, `off` bytes in.
abbrev pub InRange : ℕ → ℕ → ℕ → ℕ → ℕ → Type 0
InRange mask i hi off n = (j : ℕ) → i ≤ j → j < hi → bit mask j ≡ 1 → off + j < n

-- `out` is `dst` with the masked bytes from `i` up to `hi` taken from `src`, `soff` bytes in there
-- and `doff` bytes in here.
pub record IsCopied (mask i hi soff doff : ℕ) (src dst out : List ℕ) : Type 0 where
  pub same_length : length out ≡ length dst
  pub inside :
      (j : ℕ)
      → i ≤ j
      → j < hi
      → bit mask j ≡ 1
      → get_elem? out (doff + j) ≡ get_elem? src (soff + j)
  pub outside :
      (k : ℕ)
      → ((j : ℕ) → i ≤ j → j < hi → bit mask j ≡ 1 → k ≢ doff + j)
      → get_elem? out k ≡ get_elem? dst k

IsCopied-refl : (mask i soff doff : ℕ) (src dst : List ℕ) → IsCopied mask i i soff doff src dst dst
IsCopied-refl mask i soff doff src dst = record {
  same_length = refl;
  inside = λ j p q b. absurd (omega arith);
  outside = λ k h. refl;
}

-- A round at a clear bit changes nothing; one at a set bit writes the byte.
IsCopied-skip :
    (mask i hi soff doff : ℕ) {src dst out : List ℕ}
    → bit mask i ≢ 1
    → IsCopied mask (i + 1) hi soff doff src dst out
    → IsCopied mask i hi soff doff src dst out
IsCopied-skip mask i hi soff doff {src} {dst} {out} clear rest = record {
  same_length = rest.same_length;
  inside = λ j p q b. rest.inside j (later j p b) q b;
  outside = λ k h. rest.outside k (λ j p q b. h j (omega arith) q b);
}
  where
    later : (j : ℕ) → i ≤ j → bit mask j ≡ 1 → i + 1 ≤ j
    later j p b = let ne : i ≢ j = (λ e. clear (ap (bit mask) e ∙ b)) in omega arith

IsCopied-write :
    (mask i hi soff doff b : ℕ) {src dst out : List ℕ}
    → get_elem? src (soff + i) ≡ some b
    → doff + i < length dst
    → bit mask i ≡ 1
    → i < hi
    → IsCopied mask (i + 1) hi soff doff src (set dst (doff + i) b) out
    → IsCopied mask i hi soff doff src dst out
IsCopied-write mask i hi soff doff b {src} {dst} {out} read room on below rest = record {
  same_length = rest.same_length ∙ length-set dst (doff + i) b;
  inside = λ j p q c. elim (ℕ_discrete i j) [
    | yes e ↦ subst (λ (t : ℕ). get_elem? out (doff + t) ≡ get_elem? src (soff + t)) e here
    | no ne ↦ rest.inside j (omega arith) q c
  ];
  outside = λ k h.
      rest.outside k (λ j p q c. h j (omega arith) q c)
      ∙ get_elem?-set_ne dst (doff + i) k b (λ e. h i (omega arith) below on (omega arith));
}
  where
    here : get_elem? out (doff + i) ≡ get_elem? src (soff + i)
    here =
        rest.outside (doff + i) (λ j p q c. omega arith)
        ∙ get_elem?-set_self dst (doff + i) b room
        ∙ sym read

copy_masked-set :
    (mask i off : ℕ) (src dst : List ℕ) (b : ℕ)
    → bit mask i ≡ 1
    → get_elem? src (off + i) ≡ some b
    → copy_masked mask i off src dst ≡ some (set dst (0 + i) b)
unfolding copy_masked
copy_masked-set mask i off src dst b on read = let at : 0 + i ≡ i = omega arith in rw (at, on, read)

copy_masked-keep :
    (mask i off : ℕ) (src dst : List ℕ) → bit mask i ≢ 1 → copy_masked mask i off src dst ≡ some dst
unfolding copy_masked
copy_masked-keep mask i off src dst clear = ground arith

-- With every masked byte in range on the memory's side, `checked_copyto` runs to its end.
copyto_loop-IsCopied :
    (left i hi mask off : ℕ) (src dst : List ℕ)
    → i + left ≡ hi
    → hi ≤ length dst
    → InRange mask i hi off (length src)
    → (out : List ℕ) × (copyto_loop left i mask off src dst ≡ some out)
      × IsCopied mask i hi off 0 src dst out
unfolding copyto_loop
copyto_loop-IsCopied zero i hi mask off src dst e fits ok =
    let stop : i ≡ hi = omega arith in (dst, refl, rw (← stop) (IsCopied-refl mask i off 0 src dst))
copyto_loop-IsCopied (suc left) i hi mask off src dst e fits ok = elim (ℕ_discrete (bit mask i) 1) [
  | yes on ↦
      let (b, read) = get_elem?-some src (off + i) (ok i (omega arith) (omega arith) on) in
      let (out, runs, copied) =
        copyto_loop-IsCopied left (i + 1) hi mask off src (set dst (0 + i) b) (omega arith)
          (rw length-set fits) (λ j p. ok j (omega arith)) in
      (
        out,
        rw (copy_masked-set mask i off src dst b on read) runs,
        IsCopied-write mask i hi off 0 b read (omega arith) on (omega arith) copied,
      )
  | no clear ↦
      let (out, runs, copied) =
        copyto_loop-IsCopied left (i + 1) hi mask off src dst (omega arith) fits
          (λ j p. ok j (omega arith)) in
      (
        out,
        rw (copy_masked-keep mask i off src dst clear) runs,
        IsCopied-skip mask i hi off 0 clear copied,
      )
]

store_masked-set :
    (mask i off : ℕ) (src dst : List ℕ) (b : ℕ)
    → bit mask i ≡ 1
    → get_elem? src (0 + i) ≡ some b
    → off + i < length dst
    → store_masked mask i off src dst ≡ some (set dst (off + i) b)
unfolding store_masked
store_masked-set mask i off src dst b on read room =
    let at : 0 + i ≡ i = omega arith in rw (on, (rw at at read), lt→ltb (off + i) (length dst) room)

store_masked-keep :
    (mask i off : ℕ) (src dst : List ℕ)
    → bit mask i ≢ 1
    → store_masked mask i off src dst ≡ some dst
unfolding store_masked
store_masked-keep mask i off src dst clear = ground arith

-- The same for `checked_copyfrom`.
copyfrom_loop-IsCopied :
    (left i hi mask off : ℕ) (src dst : List ℕ)
    → i + left ≡ hi
    → hi ≤ length src
    → InRange mask i hi off (length dst)
    → (out : List ℕ) × (copyfrom_loop left i mask off src dst ≡ some out)
      × IsCopied mask i hi 0 off src dst out
unfolding copyfrom_loop
copyfrom_loop-IsCopied zero i hi mask off src dst e fits ok =
    let stop : i ≡ hi = omega arith in (dst, refl, rw (← stop) (IsCopied-refl mask i 0 off src dst))
copyfrom_loop-IsCopied (suc left) i hi mask off src dst e fits ok =
    elim (ℕ_discrete (bit mask i) 1) [
      | yes on ↦
          let room = ok i (omega arith) (omega arith) on in
          let (b, read) = get_elem?-some src (0 + i) (omega arith) in
          let (out, runs, copied) =
            copyfrom_loop-IsCopied left (i + 1) hi mask off src (set dst (off + i) b) (omega arith)
              fits (λ j p. rw length-set (ok j (omega arith))) in
          (
            out,
            rw (store_masked-set mask i off src dst b on read room) runs,
            IsCopied-write mask i hi 0 off b read room on (omega arith) copied,
          )
      | no clear ↦
          let (out, runs, copied) =
            copyfrom_loop-IsCopied left (i + 1) hi mask off src dst (omega arith) fits
              (λ j p. ok j (omega arith)) in
          (
            out,
            rw (store_masked-keep mask i off src dst clear) runs,
            IsCopied-skip mask i hi 0 off clear copied,
          )
    ]

-- `checked_copyto(pkt, data + off)` fills the masked bytes of the packet from `data`, and leaves the
-- others and every other field alone.
pub checked_copyto-IsCopied :
    (pkt : Packet) (src : List ℕ) (off : ℕ)
    → length pkt.payload ≡ 64
    → InRange pkt.mask 0 64 off (length src)
    → (out : List ℕ) × (checked_copyto pkt src off ≡ some (record pkt { payload = out }))
      × IsCopied pkt.mask 0 64 off 0 src pkt.payload out
unfolding checked_copyto
checked_copyto-IsCopied pkt src off full ok =
    let (out, runs, copied) =
      copyto_loop-IsCopied 64 0 64 pkt.mask off src pkt.payload (omega arith) (omega arith) ok in
    (out, rw runs, copied)

-- `checked_copyfrom(pkt, data + off)` writes the masked bytes of the packet to `data`, and leaves the
-- others alone.
pub checked_copyfrom-IsCopied :
    (pkt : Packet) (dst : List ℕ) (off : ℕ)
    → length pkt.payload ≡ 64
    → InRange pkt.mask 0 64 off (length dst)
    → (out : List ℕ) × (checked_copyfrom pkt dst off ≡ some out)
      × IsCopied pkt.mask 0 64 0 off pkt.payload dst out
unfolding checked_copyfrom
checked_copyfrom-IsCopied pkt dst off full ok =
    copyfrom_loop-IsCopied 64 0 64 pkt.mask off pkt.payload dst (omega arith) (omega arith) ok

pub checked_copyto-flags :
    (p : Packet) (src : List ℕ) (off : ℕ) (q : Packet)
    → checked_copyto p src off ≡ some q
    → q.flags ≡ p.flags
unfolding checked_copyto
checked_copyto-flags p src off q e =
    let (filled, _, end) = >>=-eq-some (copyto_loop 64 0 p.mask off src p.payload) _ e in
    ap (λ (x : Packet). x.flags) (sym (some_inj end))
