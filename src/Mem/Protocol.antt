-- ===== src/Mem/Protocol.antt =====
-- src/mem/simple_mem.c: the reply of the memory, its flags and when it leaves.
use native.Mathlib.Nat.{mod-lt}
use gran.Prelude.{
  ℕ, ◌≡◌, ◌%◌, false, some, List, arith, ap, sym, ◌∙◌, inl, inr, >>=-eq-some, some_inj, none≢some,
  Bool-cases, leb, ◌==◌, not, if◌then◌else◌,
}
use gran.Packet.{
  Packet, response, is_set, packet_read, packet_write, packet_error, checked_copyto,
  checked_copyfrom,
}
use gran.Prelude.Bits.{bit}
use gran.Packet.Copy.{checked_copyto-flags}
use gran.Packet.Flags.{is_set-set_flags_ne, is_set-bit}
use gran.Component.{Stat, ok, is_ebusy, Env, send}
use gran.Mem.{SimpleMem, access, simple_mem_receive, simple_mem_clock}

access-flags :
    (pkt : Packet) (buf : List ℕ) (off : ℕ) (out : Packet × List ℕ)
    → access pkt buf off ≡ some out
    → out.0.flags ≡ pkt.flags
unfolding access
access-flags pkt buf off out e = elim (Bool-cases (is_set pkt packet_read)) [
  | inl reads ↦
      let (q, copied, end) = >>=-eq-some (checked_copyto pkt buf off) _ (rw reads at e) in
      ap (λ (x : Packet × List ℕ). x.0.flags) (sym (some_inj end))
      ∙ checked_copyto-flags pkt buf off q copied
  | inr other ↦ elim (Bool-cases (is_set pkt packet_write)) [
    | inl writes ↦
        let (b, _, end) = >>=-eq-some (checked_copyfrom pkt buf off) _ (rw (other, writes) at e) in
        ap (λ (x : Packet × List ℕ). x.0.flags) (sym (some_inj end))
    | inr neither ↦ absurd (none≢some (rw (other, neither) at e))
  ]
]

-- The memory never reports an address out of range: the reply that it prepares carries the error
-- flag only if the request did, whatever the address. (The address is taken modulo the size
-- before it is compared with the size.)
pub simple_mem_receive-is_set :
    (mem : SimpleMem) (from : ℕ) (pkt : Packet) (out : Stat × SimpleMem)
    → mem.busy ≡ false
    → simple_mem_receive mem from pkt ≡ some out
    → is_set out.1.pkt packet_error ≡ is_set pkt packet_error
unfolding simple_mem_receive
simple_mem_receive-is_set mem from pkt out free e = elim (Bool-cases (mem.size == 0)) [
  | inl zero_size ↦ absurd (none≢some (rw (free, zero_size) at e))
  | inr sized ↦
      let inside : leb mem.size (pkt.to % mem.size) ≡ false =
        ground (arith, mod-lt pkt.to {m = mem.size}) in
      let (p, runs, end) =
        >>=-eq-some (access pkt mem.buf (pkt.to % mem.size)) _ (rw (free, sized, inside) at e) in
      ap (λ (x : Stat × SimpleMem). is_set x.1.pkt packet_error) (sym (some_inj end))
      ∙ is_set-set_flags_ne (response p.0) 4 3 (λ (h : 4 ≡ 3). omega arith)
      ∙ is_set-bit (response p.0) 3
      ∙ ap (λ (f : ℕ). not (bit f 3 == 0)) (access-flags pkt mem.buf (pkt.to % mem.size) p runs)
      ∙ sym (is_set-bit pkt 3)
]

module _ (e : Env) where
  open e use {Rest}

  -- While its reply is refused with `EBUSY` the memory stays busy with the same reply; any other answer
  -- frees it. In both cases the storage stays as it is, and a free memory sends nothing.
  pub simple_mem_clock-send :
      (self : ℕ) (mem : SimpleMem) (rest rest' : Rest) (r : Stat)
      → send e self mem.reply_to mem.pkt rest ≡ some (r, rest')
      → simple_mem_clock e self mem rest ≡ (
          if mem.busy
          then some (ok, (if is_ebusy r then mem else record mem { busy = false }), rest')
          else some (ok, mem, rest))
  unfolding simple_mem_clock
  simple_mem_clock-send self mem rest rest' r sent = ground arith
