-- ===== src/Noc.antt =====
-- src/ideal_noc.c and include/gran/ideal_noc.h: an all-to-all network.
pub mod Addr
pub mod Latency
pub mod Gather
use gran.Prelude.{
  ℕ, zero, suc, ◌+◌, ◌*◌, ◌/◌, ◌%◌, ◌^◌, bit_or, Bool, true, false, not, ◌&&◌, Option, none, some,
  List, [], ◌∷◌, ltb, ◌==◌, if◌then◌else◌, ◌>>=◌, ◌>>◌, assert, get_elem?, set, replicate, u64,
}
use gran.Packet.{Packet}
use gran.Component.{Stat, ok, ebusy, is_ok, is_ebusy, Ptr, Env, send}
use gran.Reg.{Reg, empty_reg}

-- `addr_ideal_noc`: the element and the offset of an address.
abbrev pub noc_elem : ℕ → ℕ
noc_elem addr = addr / 2 ^ 32 % 2 ^ 32

abbrev pub noc_off : ℕ → ℕ
noc_off addr = addr % 2 ^ 32

unfoldable pub ideal_noc_addr : ℕ → ℕ → ℕ
ideal_noc_addr elem off = bit_or (u64 (elem * 2 ^ 32)) off

pub record Noc : Type 0 where
  pub elems : ℕ
  pub latency : ℕ
  pub counter : ℕ
  pub ins : List Reg
  pub outs : List Reg
  pub lower : List Ptr

unfoldable pub create_ideal_noc : ℕ → ℕ → Noc
create_ideal_noc elems latency = record {
  elems = elems;
  latency = latency;
  counter = 0;
  ins = replicate elems empty_reg;
  outs = replicate elems empty_reg;
  lower = replicate elems none;
}

abbrev is_null : Ptr → Bool
is_null none = true
is_null (some p) = false

unfoldable pub ideal_noc_connect : Noc → ℕ → ℕ → Option (Stat × Noc)
ideal_noc_connect n component elem = do
  assert (ltb elem n.elems)
  old ← get_elem? n.lower elem
  assert (is_null old)
  some (ok, record n { lower = set n.lower elem (some component) })

unfoldable pub ideal_noc_receive : Noc → Packet → Option (Stat × Noc)
ideal_noc_receive n pkt = do
  let elem = noc_elem pkt.to
  assert (ltb elem n.elems)
  r ← get_elem? n.ins elem
  some (
      if r.busy then (ebusy, n) else (
        ok,
        record n {
          ins = set n.ins elem (record { pkt = record pkt { timestamp = n.counter }; busy = true });
        },
      ))

-- The input and the output registers.
abbrev pub Banks : Type 0
Banks = List Reg × List Reg

-- The transfer of one round of the first loop, from the input `r` in place `i` to the output `o` of the
-- element `elem`.
unfoldable pub transfer : ℕ → ℕ → Reg → Reg → Banks → Banks
transfer i elem r o (ins, outs) =
    if o.busy && ltb o.pkt.timestamp r.pkt.timestamp then (ins, outs) else (
      set ins i (record r { busy = false }),
      set outs elem (record { pkt = r.pkt; busy = true }),
    )

-- One round of the first loop of `ideal_noc_clock`.
unfoldable pub gather_one : ℕ → ℕ → Banks → Option Banks
gather_one elems i (ins, outs) = do
  r ← get_elem? ins i
  if not r.busy then some (ins, outs) else (do
    let elem = noc_elem r.pkt.to
    assert (ltb elem elems)
    o ← get_elem? outs elem
    some (transfer i elem r o (ins, outs)))

-- The first loop, with `left` rounds to go.
unfoldable pub gather : ℕ → ℕ → ℕ → Banks → Option Banks
gather elems zero i banks = some banks
gather elems (suc left) i banks = do
  banks' ← gather_one elems i banks
  gather elems left (i + 1) banks'

module _ (e : Env) where
  open e use {Rest}

  -- One round of the second loop of `ideal_noc_clock`.
  unfoldable pub deliver_one : ℕ → List Ptr → ℕ → List Reg → Rest → Option (List Reg × Rest)
  deliver_one self lower i outs rest = do
    o ← get_elem? outs i
    if not o.busy then some (outs, rest) else (do
      target ← get_elem? lower (noc_elem o.pkt.to)
      (ret, rest') ← send e self target o.pkt rest
      if is_ebusy ret
          then some (outs, rest')
          else (do assert (is_ok ret); some (set outs i (record o { busy = false }), rest')))

  unfoldable pub deliver : ℕ → List Ptr → ℕ → ℕ → List Reg → Rest → Option (List Reg × Rest)
  deliver self lower zero i outs rest = some (outs, rest)
  deliver self lower (suc left) i outs rest = do
    (outs', rest') ← deliver_one self lower i outs rest
    deliver self lower left (i + 1) outs' rest'

  -- The clock computes a new count, and does not store it.
  unfoldable pub ideal_noc_clock : ℕ → Noc → Rest → Option (Stat × Noc × Rest)
  ideal_noc_clock self n rest =
      let counter = if n.latency == 0 then 0 else u64 (n.counter + 1) % n.latency in
      if not (counter == 0) then some (ok, n, rest) else (do
        (ins, outs) ← gather n.elems n.elems 0 (n.ins, n.outs)
        (outs', rest') ← deliver self n.lower n.elems 0 outs rest
        some (ok, record n { ins = ins; outs = outs' }, rest'))
