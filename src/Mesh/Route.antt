-- ===== src/Mesh/Route.antt =====
-- The arbitration inside a router: the selection of an element's packet, and the calls of `propagate`.
use mathlib.Core.List.{Perm}
use mathlib.Core.List.Perm
use gran.Prelude.{
  set-get_elem?, ℕ, zero, suc, ◌≡◌, ◌+◌, ◌≤◌, ◌<◌, Bool, true, false, Option, none, some, List, [],
  ◌∷◌, ◌++◌, arith, refl, ◌∙◌, length, get_elem?, set, get_elem?-some, length-set, Bool-cases,
  Option-cases, inl, inr,
}
use gran.Reg.{Reg, Pick, better, select}
use gran.Reg.Select.{InArray, Chosen, select-Chosen}
use gran.Reg.Propagate.{
  in_flight, Arbitrated, idle, stalled, moved, propagate-Arbitrated, full_reg, moved-Perm,
}
use gran.Mesh.{older, oldest_in, Call, Banks, run_call, run_calls, elem_calls}

-- The places from `i` on, as pointers.
abbrev pub places : ℕ → ℕ → List (Option ℕ)
places zero i = []
places (suc left) i = some i ∷ places left (i + 1)

abbrev pub any : Reg → Bool
any r = true

older-better : (i : ℕ) (r : Reg) (best : Pick) → older i r best ≡ better any i r best
unfolding older better
older-better i r none = elim (Bool-cases r.busy) [ inl b ↦ rw b refl | inr b ↦ rw b refl ]
older-better i r (some (j, s)) = refl

oldest_in-select :
    (ins : List Reg) (left i : ℕ) (best : Pick)
    → oldest_in ins left i best ≡ select any ins (places left i) best
unfolding oldest_in select
oldest_in-select ins zero i best = refl
oldest_in-select ins (suc left) i best = elim (Option-cases (get_elem? ins i)) [
  | inl gone ↦ rw gone refl
  | inr (r, read) ↦
      rw (read, older-better i r best) (oldest_in-select ins left (i + 1) (better any i r best))
]

places-InArray : (left i n : ℕ) → i + left ≤ n → InArray (places left i) n
places-InArray zero i n h = tt
places-InArray (suc left) i n h = (omega arith, places-InArray left (i + 1) n (omega arith))

-- The loop over the first `elems` input registers, all of them in the array, returns the oldest packet
-- that one of them holds, or no register if all are free.
pub oldest_in-Chosen :
    (ins : List Reg) (elems : ℕ)
    → elems ≤ length ins
    → (best : Pick) × (oldest_in ins elems 0 none ≡ some best)
      × Chosen any ins (places elems 0) best
oldest_in-Chosen ins elems fits =
    let (best, runs, chosen) =
      select-Chosen any ins (places elems 0) (places-InArray elems 0 (length ins) (omega arith)) in
    (best, oldest_in-select ins elems 0 none ∙ runs, chosen)

-- The registers keep their number, and the packets that they hold are the same.
abbrev pub Kept : Banks → Banks → Type 0
Kept old new =
    (length new.0 ≡ length old.0)
    × (length new.1 ≡ length old.1)
    × Perm (in_flight new.0 ++ in_flight new.1) (in_flight old.0 ++ in_flight old.1)

-- The places that the call names are in the arrays.
abbrev pub Fits : ℕ → Call → Type 0
Fits n c = (c.place < n) × InArray c.froms n

abbrev pub AllFit : ℕ → List Call → Type 0
AllFit n [] = Unit {0}
AllFit n (c ∷ cs) = Fits n c × AllFit n cs

pub elem_calls-AllFit :
    (n : ℕ) (froms : List (Option ℕ)) (wants : ℕ → Reg → Bool) (left i : ℕ)
    → InArray froms n
    → i + left ≤ n
    → AllFit n (elem_calls froms wants left i)
unfolding elem_calls
elem_calls-AllFit n froms wants zero i inside h = tt
elem_calls-AllFit n froms wants (suc left) i inside h =
    ((omega arith, inside), elem_calls-AllFit n froms wants left (i + 1) inside (omega arith))

Kept-stay :
    (ins outs : List Reg) (i : ℕ) (o : Reg)
    → get_elem? outs i ≡ some o
    → Kept (ins, outs) (ins, set outs i o)
Kept-stay ins outs i o read =
    rw (set-get_elem? outs i o read) (refl, refl, Perm.refl (in_flight ins ++ in_flight outs))

Arbitrated-Kept :
    (sel : Reg → Bool) (ps : List (Option ℕ)) (ins outs : List Reg) (i : ℕ) (o o' : Reg)
    (ins' : List Reg)
    → get_elem? outs i ≡ some o
    → Arbitrated sel ps o ins o' ins'
    → Kept (ins, outs) (ins', set outs i o')
Arbitrated-Kept sel ps ins outs i o o' ins' read (idle h) = Kept-stay ins outs i o read
Arbitrated-Kept sel ps ins outs i o o' ins' read (stalled h) = Kept-stay ins outs i o read
Arbitrated-Kept sel ps ins outs i o o' ins' read (moved {i = j} {r} old free) = (
  length-set ins j (record r { busy = false }),
  length-set outs i (full_reg r.pkt),
  moved-Perm ins outs j i r o old.wanted.0 old.wanted.1 read free,
)

-- One call of `propagate` between the two arrays.
pub run_call-Kept :
    (n : ℕ) (c : Call) (ins outs : List Reg)
    → Fits n c
    → length ins ≡ n
    → length outs ≡ n
    → (banks : Banks) × (run_call c (ins, outs) ≡ some banks) × Kept (ins, outs) banks
unfolding run_call
run_call-Kept n c ins outs fits in_size out_size =
    let (o, read) = get_elem?-some outs c.place (rw out_size fits.0) in
    let (o', ins', runs, a) = propagate-Arbitrated c.wants c.froms o ins (rw in_size fits.1) in
    (
      (ins', set outs c.place o'),
      rw (read, runs) refl,
      Arbitrated-Kept c.wants c.froms ins outs c.place o o' ins' read a,
    )

-- All calls of `propagate` of a router return, and no packet is lost or copied.
pub run_calls-Kept :
    (n : ℕ) (cs : List Call) (ins outs : List Reg)
    → AllFit n cs
    → length ins ≡ n
    → length outs ≡ n
    → (banks : Banks) × (run_calls cs (ins, outs) ≡ some banks) × Kept (ins, outs) banks
unfolding run_calls
run_calls-Kept n [] ins outs fits in_size out_size =
    ((ins, outs), refl, (refl, refl, Perm.refl (in_flight ins ++ in_flight outs)))
run_calls-Kept n (c ∷ cs) ins outs fits in_size out_size =
    let ((ins₁, outs₁), first, (same_in, same_out, same)) =
      run_call-Kept n c ins outs fits.0 in_size out_size in
    let (banks, then_, (same_in', same_out', same')) =
      run_calls-Kept n cs ins₁ outs₁ fits.1 (same_in ∙ in_size) (same_out ∙ out_size) in
    (banks, rw first then_, (same_in' ∙ same_in, same_out' ∙ same_out, Perm.trans same' same))
