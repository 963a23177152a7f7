-- ===== src/Reg.antt =====
-- src/common.c: one-packet registers, and the arbitration between registers that feed one output.
pub mod Select
pub mod Propagate
use gran.Prelude.{
  ℕ, Bool, true, false, not, Option, none, some, List, [], ◌∷◌, ltb, if◌then◌else◌, ◌&&◌, ◌>>=◌,
  ◌>>◌, assert, get_elem?, set,
}
use gran.Packet.{Packet, empty_packet}
use gran.Component.{Stat, ok, ebusy}

pub record Reg : Type 0 where
  pub pkt : Packet
  pub busy : Bool

-- A register from `calloc`.
abbrev pub empty_reg : Reg
empty_reg = record { pkt = empty_packet; busy = false }

unfoldable pub place_reg : Reg → Packet → Stat × Reg
place_reg r pkt = if r.busy then (ebusy, r) else (ok, record { pkt = pkt; busy = true })

-- `copy_reg(r, s)`: the result, then `r` and `s` after the call.
unfoldable pub copy_reg : Reg → Reg → Option (Stat × Reg × Reg)
copy_reg r s = do
  assert s.busy
  if r.busy
      then some (ebusy, r, s)
      else some (ok, record { pkt = s.pkt; busy = true }, record s { busy = false })

-- A register that `propagate` has picked: its place in the array, and its contents.
abbrev pub Pick : Type 0
Pick = Option (ℕ × Reg)

-- One round of the loop of `propagate` at the register `r` in place `i`.
unfoldable pub better : (Reg → Bool) → ℕ → Reg → Pick → Pick
better sel i r none = if r.busy && sel r then some (i, r) else none
better sel i r (some (j, s)) =
    if r.busy && (sel r && ltb r.pkt.timestamp s.pkt.timestamp) then some (i, r) else some (j, s)

-- The loop of `propagate` over an array of pointers into the registers `regs`.
unfoldable pub select : (Reg → Bool) → List Reg → List (Option ℕ) → Pick → Option Pick
select sel regs [] best = some best
select sel regs (none ∷ ps) best = select sel regs ps best
select sel regs (some p ∷ ps) best = do
  r ← get_elem? regs p
  select sel regs ps (better sel p r best)

-- `copy_reg(out, r)` where `r` is the picked register of `regs`.
unfoldable pub forward : Reg → List Reg → Pick → Option (Reg × List Reg)
forward out regs none = some (out, regs)
forward out regs (some (i, r)) = do (_, out', r') ← copy_reg out r; some (out', set regs i r')

-- `propagate(out, …, in, sel, …)`, where the pointers of `in` point into `regs`.
unfoldable pub propagate : Reg → List Reg → List (Option ℕ) → (Reg → Bool) → Option (Reg × List Reg)
propagate out regs ps sel = do best ← select sel regs ps none; forward out regs best
