-- ===== src/Reg/Propagate.antt =====
-- src/common.c: `place_reg`, `copy_reg` and `propagate`, and the packets in flight.
use mathlib.Core.List.{Perm, perm_middle}
use mathlib.Core.List.Perm
use gran.Prelude.{
  ℕ, zero, suc, ◌≡◌, ◌⊎◌, inl, inr, Bool, true, false, Option, none, some, List, [], ◌∷◌, ◌++◌,
  arith, refl, length, get_elem?, set, length-set, set-get_elem?, Bool-cases, if◌then◌else◌,
  some_inj,
}
use gran.Packet.{Packet}
use gran.Component.{ok, ebusy}
use gran.Reg.{Reg, Pick, place_reg, copy_reg, forward, propagate}
use gran.Reg.Select.{InArray, IsOldest, NoneWanted, Chosen, nothing, taken, select-Chosen}

-- The packets that full registers hold.
abbrev pub held : Reg → List Packet → List Packet
held r rest = if r.busy then r.pkt ∷ rest else rest

abbrev pub in_flight : List Reg → List Packet
in_flight [] = []
in_flight (r ∷ regs) = held r (in_flight regs)

abbrev pub full_reg : Packet → Reg
full_reg pkt = record { pkt = pkt; busy = true }

-- `place_reg` fills an empty register with the packet and answers `OK`; a full one stays as it is,
-- with the answer `EBUSY`.
pub place_reg-Perm :
    (r : Reg) (pkt : Packet)
    → (((place_reg r pkt).0 ≡ ok) × (r.busy ≡ false) × ((place_reg r pkt).1 ≡ full_reg pkt))
      ⊎ (((place_reg r pkt).0 ≡ ebusy) × (r.busy ≡ true) × ((place_reg r pkt).1 ≡ r))
unfolding place_reg
place_reg-Perm r pkt = ground arith

-- What one call of `propagate` does.
pub data Arbitrated (sel : Reg → Bool) (ps : List (Option ℕ)) (out : Reg) (regs : List Reg)
    : Reg → List Reg → Type 0 where
  idle : NoneWanted sel regs ps → Arbitrated sel ps out regs out regs
  stalled : out.busy ≡ true → Arbitrated sel ps out regs out regs
  moved :
      {i : ℕ} {r : Reg}
      → IsOldest sel regs ps i r
      → out.busy ≡ false
      → Arbitrated sel ps out regs (full_reg r.pkt) (set regs i (record r { busy = false }))

-- `copy_reg(r, s)` moves the packet of a full `s` into an empty `r`, and leaves both alone if `r` is
-- full.
pub copy_reg-moves :
    (r s : Reg)
    → s.busy ≡ true
    → r.busy ≡ false
    → copy_reg r s ≡ some (ok, full_reg s.pkt, record s { busy = false })
unfolding copy_reg
copy_reg-moves r s full free = rw (full, free)

pub copy_reg-stalls :
    (r s : Reg) → s.busy ≡ true → r.busy ≡ true → copy_reg r s ≡ some (ebusy, r, s)
unfolding copy_reg
copy_reg-stalls r s full stall = rw (full, stall)

forward-moves :
    (out : Reg) (regs : List Reg) (i : ℕ) (r : Reg)
    → r.busy ≡ true
    → out.busy ≡ false
    → forward out regs (some (i, r)) ≡ some (full_reg r.pkt, set regs i (record r { busy = false }))
unfolding forward
forward-moves out regs i r full free = rw (copy_reg-moves out r full free)

forward-stalls :
    (out : Reg) (regs : List Reg) (i : ℕ) (r : Reg)
    → get_elem? regs i ≡ some r
    → r.busy ≡ true
    → out.busy ≡ true
    → forward out regs (some (i, r)) ≡ some (out, regs)
unfolding forward
forward-stalls out regs i r read full stall =
    rw (copy_reg-stalls out r full stall, set-get_elem? regs i r read)

forward-Arbitrated :
    (sel : Reg → Bool) (ps : List (Option ℕ)) (out : Reg) (regs : List Reg) (best : Pick)
    → Chosen sel regs ps best
    → (out' : Reg) × (regs' : List Reg) × (forward out regs best ≡ some (out', regs'))
      × Arbitrated sel ps out regs out' regs'
forward-Arbitrated sel ps out regs none (nothing h) = (out, regs, unfold forward in refl, idle h)
forward-Arbitrated sel ps out regs (some (i, r)) (taken o) = elim (Bool-cases out.busy) [
  | inl stall ↦ (out, regs, forward-stalls out regs i r o.wanted.0 o.wanted.1 stall, stalled stall)
  | inr free ↦ (
    full_reg r.pkt,
    set regs i (record r { busy = false }),
    forward-moves out regs i r o.wanted.1 free,
    moved o free,
  )
]

-- With its pointers inside the array, `propagate` returns, and moves the oldest packet that is wanted
-- into the output register if that one is free; it changes nothing if the output is full or
-- nothing is wanted.
pub propagate-Arbitrated :
    (sel : Reg → Bool) (ps : List (Option ℕ)) (out : Reg) (regs : List Reg)
    → InArray ps (length regs)
    → (out' : Reg) × (regs' : List Reg) × (propagate out regs ps sel ≡ some (out', regs'))
      × Arbitrated sel ps out regs out' regs'
unfolding propagate
propagate-Arbitrated sel ps out regs fits =
    let (best, runs, chosen) = select-Chosen sel regs ps fits in
    let (out', regs', done, a) = forward-Arbitrated sel ps out regs best chosen in
    (out', regs', rw runs done, a)

pub held-Perm : (r : Reg) (xs ys : List Packet) → Perm xs ys → Perm (held r xs) (held r ys)
held-Perm r xs ys p = elim (Bool-cases r.busy) [
  | inl full ↦ rw full (Perm.cons r.pkt p)
  | inr free ↦ rw free p
]

pub held-swap : (r : Reg) (p : Packet) (xs : List Packet) → Perm (held r (p ∷ xs)) (p ∷ held r xs)
held-swap r p xs = elim (Bool-cases r.busy) [
  | inl full ↦ rw full (Perm.swap p r.pkt xs)
  | inr free ↦ rw free (Perm.refl (p ∷ xs))
]

pub in_flight-free :
    (regs : List Reg) (i : ℕ) (r : Reg)
    → get_elem? regs i ≡ some r
    → r.busy ≡ true
    → Perm (in_flight regs) (r.pkt ∷ in_flight (set regs i (record r { busy = false })))
in_flight-free [] i r e b = absurd (cc)
in_flight-free (x ∷ regs) zero r e b = rw (some_inj e, b) (Perm.refl (r.pkt ∷ in_flight regs))
in_flight-free (x ∷ regs) (suc i) r e b =
    Perm.trans (held-Perm x _ _ (in_flight-free regs i r e b)) (held-swap x r.pkt _)

pub in_flight-fill :
    (regs : List Reg) (i : ℕ) (o : Reg) (p : Packet)
    → get_elem? regs i ≡ some o
    → o.busy ≡ false
    → Perm (p ∷ in_flight regs) (in_flight (set regs i (full_reg p)))
in_flight-fill [] i o p read free = absurd (cc)
in_flight-fill (x ∷ regs) zero o p read free =
    rw (some_inj read, free) (Perm.refl (p ∷ in_flight regs))
in_flight-fill (x ∷ regs) (suc i) o p read free =
    Perm.trans (Perm.symm (held-swap x p _)) (held-Perm x _ _ (in_flight-fill regs i o p read free))

-- A packet that moves from a full register of one array to a free one of another is neither lost
-- nor copied.
pub moved-Perm :
    (ins outs : List Reg) (i j : ℕ) (r o : Reg)
    → get_elem? ins i ≡ some r
    → r.busy ≡ true
    → get_elem? outs j ≡ some o
    → o.busy ≡ false
    → Perm
        (in_flight (set ins i (record r { busy = false }))
          ++ in_flight (set outs j (full_reg r.pkt)))
        (in_flight ins ++ in_flight outs)
moved-Perm ins outs i j r o read full target free =
    Perm.trans (Perm.append_left _ (Perm.symm (in_flight-fill outs j o r.pkt target free))) (
      Perm.trans (perm_middle _ _)
        (Perm.append_right _ (Perm.symm (in_flight-free ins i r read full))))

-- `propagate` keeps the packets in flight: none is lost, none is copied.
pub Arbitrated-Perm :
    {sel : Reg → Bool} {ps : List (Option ℕ)} {out : Reg} {regs : List Reg} {out' : Reg}
    {regs' : List Reg}
    → Arbitrated sel ps out regs out' regs'
    → Perm (in_flight (out' ∷ regs')) (in_flight (out ∷ regs))
Arbitrated-Perm {out} {regs} (idle h) = Perm.refl (in_flight (out ∷ regs))
Arbitrated-Perm {out} {regs} (stalled h) = Perm.refl (in_flight (out ∷ regs))
Arbitrated-Perm {out} {regs} (moved {i} {r} o free) =
    rw free (Perm.symm (in_flight-free regs i r o.wanted.0 o.wanted.1))

pub Arbitrated-length :
    {sel : Reg → Bool} {ps : List (Option ℕ)} {out : Reg} {regs : List Reg} {out' : Reg}
    {regs' : List Reg}
    → Arbitrated sel ps out regs out' regs'
    → length regs' ≡ length regs
Arbitrated-length (idle h) = refl
Arbitrated-length (stalled h) = refl
Arbitrated-length {regs} (moved {i} {r} o free) = length-set regs i (record r { busy = false })
