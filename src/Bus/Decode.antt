-- ===== src/Bus/Decode.antt =====
-- The regions of the bus: which one an address selects, and which ones `simple_bus_add` admits.
use gran.Prelude.{
  ℕ, zero, suc, ◌≡◌, ◌+◌, ◌^◌, ◌≤◌, ◌<◌, ◌⊎◌, inl, inr, true, false, Option, none, some, List, [],
  ◌∷◌, arith, refl, ap, sym, ◌∙◌, u64, Bool-cases, some_inj, none≢some, get_elem?,
}
use gran.Component.{ok}
use gran.Vec.{VecOps}
use gran.Bus.{BusRegion, covers, find_bus_region, SimpleBus, admit, simple_bus_add}

-- `r`, in place `i`, covers the address, and no region before it does.
pub record IsFirst (rs : List BusRegion) (addr : ℕ) (r : BusRegion) : Type 0 where
  pub place : ℕ
  pub stored : get_elem? rs place ≡ some r
  pub hit : covers r addr ≡ true
  pub missed : (j : ℕ) (s : BusRegion) → j < place → get_elem? rs j ≡ some s → covers s addr ≡ false

abbrev pub NoneCovers : List BusRegion → ℕ → Type 0
NoneCovers rs addr = (j : ℕ) (s : BusRegion) → get_elem? rs j ≡ some s → covers s addr ≡ false

pub data Decoded (rs : List BusRegion) (addr : ℕ) : Option BusRegion → Type 0 where
  found : {r : BusRegion} → IsFirst rs addr r → Decoded rs addr (some r)
  unmapped : NoneCovers rs addr → Decoded rs addr none

IsFirst-cons :
    (x : BusRegion) (rs : List BusRegion) (addr : ℕ) (r : BusRegion)
    → covers x addr ≡ false
    → IsFirst rs addr r
    → IsFirst (x ∷ rs) addr r
IsFirst-cons x rs addr r miss f = record {
  place = suc f.place;
  stored = f.stored;
  hit = f.hit;
  missed = missed;
}
  where
    missed :
        (j : ℕ) (s : BusRegion)
        → j < suc f.place
        → get_elem? (x ∷ rs) j ≡ some s
        → covers s addr ≡ false
    missed zero s h e = ap (λ (y : BusRegion). covers y addr) (sym (some_inj e)) ∙ miss
    missed (suc j) s h e = f.missed j s (omega arith) e

NoneCovers-cons :
    (x : BusRegion) (rs : List BusRegion) (addr : ℕ)
    → covers x addr ≡ false
    → NoneCovers rs addr
    → NoneCovers (x ∷ rs) addr
NoneCovers-cons x rs addr miss n zero s e =
    ap (λ (y : BusRegion). covers y addr) (sym (some_inj e)) ∙ miss
NoneCovers-cons x rs addr miss n (suc j) s e = n j s e

Decoded-cons :
    (x : BusRegion) (rs : List BusRegion) (addr : ℕ) {o : Option BusRegion}
    → covers x addr ≡ false
    → Decoded rs addr o
    → Decoded (x ∷ rs) addr o
Decoded-cons x rs addr miss (found {r} f) = found (IsFirst-cons x rs addr r miss f)
Decoded-cons x rs addr miss (unmapped n) = unmapped (NoneCovers-cons x rs addr miss n)

-- `find_bus_region` returns the first region that covers the address, or NULL if none does.
pub find_bus_region-Decoded :
    (rs : List BusRegion) (addr : ℕ) → Decoded rs addr (find_bus_region rs addr)
unfolding find_bus_region
find_bus_region-Decoded [] addr = unmapped (λ j s e. absurd (none≢some e))
find_bus_region-Decoded (x ∷ rs) addr = elim (Bool-cases (covers x addr)) [
  | inl hit ↦ rw hit (
      found
        (record { place = 0; stored = refl; hit = hit; missed = λ j s h e. absurd (omega arith) }))
  | inr miss ↦ rw miss (Decoded-cons x rs addr miss (find_bus_region-Decoded rs addr))
]

-- The addresses of a region whose end does not wrap.
abbrev pub Holds : BusRegion → ℕ → Type 0
Holds r a = (r.addr ≤ a) × (a < r.addr + r.size)

abbrev pub Ends : BusRegion → Type 0
Ends r = r.addr + r.size < 2 ^ 64

abbrev pub AllInside : ℕ → ℕ → List BusRegion → Type 0
AllInside lo hi [] = Unit {0}
AllInside lo hi (r ∷ rs) = (lo < r.addr) × (r.addr + r.size ≤ hi) × AllInside lo hi rs

find_bus_region-outside :
    (rs : List BusRegion) (lo hi a : ℕ)
    → AllInside lo hi rs
    → hi < 2 ^ 64
    → (a ≤ lo) ⊎ (hi ≤ a)
    → find_bus_region rs a ≡ none
unfolding find_bus_region
find_bus_region-outside [] lo hi a h k o = refl
find_bus_region-outside (r ∷ rs) lo hi a h k o =
    let miss : covers r a ≡ false = ground (arith, h.0, h.1) in
    rw miss (find_bus_region-outside rs lo hi a h.2 k o)

module _ (V : VecOps BusRegion) where
  admitted :
      (bus : SimpleBus V) (component addr size : ℕ)
      → find_bus_region (V.items bus.regions) addr ≡ none
      → find_bus_region (V.items bus.regions) (u64 (addr + size)) ≡ none
      → simple_bus_add V bus component addr size ≡ (
        ok,
        record bus {
          regions =
              V.append bus.regions (record { addr = addr; size = size; component = component });
        },
      )
  unfolding simple_bus_add admit
  admitted bus component addr size low high = rw (low, high)

  holds_outer :
      (rs : List BusRegion) (lo hi i : ℕ) (r : BusRegion)
      → AllInside lo hi rs
      → get_elem? rs i ≡ some r
      → (lo < r.addr) × (r.addr + r.size ≤ hi)
  holds_outer [] lo hi i r h e = absurd (none≢some e)
  holds_outer (x ∷ rs) lo hi zero r h e = rw (← some_inj e) (h.0, h.1)
  holds_outer (x ∷ rs) lo hi (suc i) r h e = holds_outer rs lo hi i r h.2 e

  -- `simple_bus_add` looks only at the two ends of the new region: where every region that the bus has
  -- lies strictly inside the new one, it is admitted, and the new region then holds every
  -- address that an old one holds.
  pub simple_bus_add-overlap :
      (bus : SimpleBus V) (component addr size i a : ℕ) (r : BusRegion)
      → AllInside addr (addr + size) (V.items bus.regions)
      → addr + size < 2 ^ 64
      → get_elem? (V.items bus.regions) i ≡ some r
      → Holds r a
      → let new : BusRegion = record { addr = addr; size = size; component = component } in
        (simple_bus_add V bus component addr size
          ≡ (ok, record bus { regions = V.append bus.regions new }))
        × Holds new a
  simple_bus_add-overlap bus component addr size i a r h k e held =
      let regions = V.items bus.regions in
      let wrap : u64 (addr + size) ≡ addr + size = omega arith in
      (
        admitted bus component addr size
            (find_bus_region-outside regions addr (addr + size) addr h k (inl (omega arith)))
            (rw wrap (
              find_bus_region-outside regions addr (addr + size) (addr + size) h k
                (inr (omega arith)))),
        let outer = holds_outer regions addr (addr + size) i r h e in (omega arith, omega arith),
      )
