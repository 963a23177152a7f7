-- ===== src/Mesh/Plane/Path.antt =====
-- The way of a packet through a grid of routers: which output wants it, and how far it goes.
use gran.Prelude.{
  ℕ, zero, suc, ◌≡◌, ◌+◌, ◌-◌, ◌<◌, Option, some, [], ◌∷◌, arith, refl, ltb, leb, ◌==◌, ◌&&◌,
  if◌then◌else◌,
}
use gran.Reg.{Reg}
use gran.Mesh.Hops.{claims, claims-elem_calls, gap}
use gran.Mesh.Plane.{
  plane_x, plane_y, plane_elem, north_sel, south_sel, east_sel, west_sel, elem_sel, node2d_calls,
}

-- A router's place.
abbrev pub Place : Type 0
Place = ℕ × ℕ

-- The router to which the selectors of the router at a place hand a packet: north is one more in
-- the `y` direction, and so on. A packet that has arrived stays.
unfoldable pub next_place : Reg → Place → Place
next_place r (x, y) =
    if north_sel y r
    then (x, y + 1)
    else if south_sel y r
    then (x, y - 1)
    else if east_sel x y r
    then (x + 1, y)
    else if west_sel x y r
    then (x - 1, y)
    else (x, y)

unfoldable pub walk : ℕ → Reg → Place → Place
walk zero r place = place
walk (suc left) r place = walk left r (next_place r place)

abbrev pub distance : Reg → Place → ℕ
distance r (x, y) = gap x (plane_x r.pkt.to) + gap y (plane_y r.pkt.to)

one_way :
    (x y px py elem elems : ℕ)
    → elem < elems
    → (if ltb y py then 1 else 0)
        + ((if py == y && ltb x px then 1 else 0)
            + ((if ltb py y then 1 else 0)
                + ((if py == y && ltb px x then 1 else 0)
                    + (if (px == x && py == y) && (leb 0 elem && ltb elem (0 + elems))
                        then 1
                        else 0))))
      ≡ 1
one_way x y px py elem elems fits = ground arith

-- At any router of a grid that has the element of a packet's address, the packet is wanted by one
-- output, and by one only.
pub node2d_calls-exclusive :
    (x y elems : ℕ) (p : Option ℕ) (r : Reg)
    → plane_elem r.pkt.to < elems
    → claims r (node2d_calls x y elems p) ≡ 1
unfolding node2d_calls north_sel south_sel east_sel west_sel elem_sel
node2d_calls-exclusive x y elems p r fits =
    rw
      (claims-elem_calls r
        (p ∷ some elems ∷ some (elems + 1) ∷ some (elems + 2) ∷ some (elems + 3) ∷ [])
        (elem_sel x y) (plane_x r.pkt.to == x && plane_y r.pkt.to == y) (plane_elem r.pkt.to) elems
        0 (λ j. ground arith))
      (one_way x y (plane_x r.pkt.to) (plane_y r.pkt.to) (plane_elem r.pkt.to) elems fits)

-- Every hop brings the packet one router nearer.
pub next_place-nearer :
    (r : Reg) (place : Place) (d : ℕ)
    → distance r place ≡ suc d
    → distance r (next_place r place) ≡ d
unfolding next_place north_sel south_sel east_sel west_sel
next_place-nearer r (x, y) d far = ground arith

walk_from :
    (r : Reg) (place : Place) (d : ℕ)
    → distance r place ≡ d
    → walk d r place ≡ (plane_x r.pkt.to, plane_y r.pkt.to)
unfolding walk
walk_from r (x, y) zero far =
    let same_x : x ≡ plane_x r.pkt.to = omega arith in
    let same_y : y ≡ plane_y r.pkt.to = omega arith in rw (same_x, same_y) refl
walk_from r place (suc d) far = walk_from r (next_place r place) d (next_place-nearer r place d far)

-- From any router of a grid, following the selectors of the routers on its way, a packet is at the router of
-- its address after as many hops as the two are apart.
pub plane_walk-arrives :
    (r : Reg) (place : Place)
    → walk (distance r place) r place ≡ (plane_x r.pkt.to, plane_y r.pkt.to)
plane_walk-arrives r place = walk_from r place (distance r place) refl
