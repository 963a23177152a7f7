-- ===== src/Mesh/Hops.antt =====
-- How many outputs of a router want a packet.
use gran.Prelude.{
  ℕ, zero, suc, ◌≡◌, ◌+◌, ◌-◌, Bool, Option, List, [], ◌∷◌, arith, ◌==◌, ltb, leb, ◌&&◌,
  if◌then◌else◌,
}
use gran.Reg.{Reg}
use gran.Mesh.{Call, elem_calls}

abbrev pub gap : ℕ → ℕ → ℕ
gap a b = (a - b) + (b - a)

-- How many of the calls want the packet in `r`.
abbrev pub claims : Reg → List Call → ℕ
claims r [] = 0
claims r (c ∷ cs) = (if c.wants r then 1 else 0) + claims r cs

-- The calls of the loop over the elements, where each wants the packets of its own element.
pub claims-elem_calls :
    (r : Reg) (froms : List (Option ℕ)) (wants : ℕ → Reg → Bool) (here : Bool) (elem left i : ℕ)
    → ((j : ℕ) → wants j r ≡ (here && elem == j))
    → claims r (elem_calls froms wants left i)
      ≡ (if here && (leb i elem && ltb elem (i + left)) then 1 else 0)
unfolding elem_calls
claims-elem_calls r froms wants here elem zero i h = ground arith
claims-elem_calls r froms wants here elem (suc left) i h =
    let rest = claims-elem_calls r froms wants here elem left (i + 1) h in
    let this = h i in ground arith
