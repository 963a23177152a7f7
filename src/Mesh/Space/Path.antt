-- ===== src/Mesh/Space/Path.antt =====
-- The way of a packet through a space of routers: which output wants it, and how far it goes.
use gran.Prelude.{
  ℕ, zero, suc, ◌≡◌, ◌+◌, ◌-◌, ◌<◌, Option, some, [], ◌∷◌, arith, refl, ltb, leb, ◌==◌, ◌&&◌,
  if◌then◌else◌,
}
use gran.Reg.{Reg}
use gran.Mesh.Hops.{claims, claims-elem_calls, gap}
use gran.Mesh.Space.{
  space_x, space_y, space_z, space_elem, north_sel, south_sel, east_sel, west_sel, up_sel, down_sel,
  elem_sel, node3d_calls,
}

-- A router's place.
abbrev pub Place : Type 0
Place = ℕ × ℕ × ℕ

-- The router to which the selectors of the router at a place hand a packet: north is one more in
-- the `y` direction, and so on. A packet that has arrived stays.
unfoldable pub next_place : Reg → Place → Place
next_place r (x, y, z) =
    if north_sel y r
    then (x, y + 1, z)
    else if south_sel y r
    then (x, y - 1, z)
    else if east_sel x y r
    then (x + 1, y, z)
    else if west_sel x y r
    then (x - 1, y, z)
    else if up_sel x y z r
    then (x, y, z + 1)
    else if down_sel x y z r
    then (x, y, z - 1)
    else (x, y, z)

unfoldable pub walk : ℕ → Reg → Place → Place
walk zero r place = place
walk (suc left) r place = walk left r (next_place r place)

abbrev pub distance : Reg → Place → ℕ
distance r (x, y, z) =
    gap x (space_x r.pkt.to) + gap y (space_y r.pkt.to) + gap z (space_z r.pkt.to)

one_way :
    (x y z px py pz elem elems : ℕ)
    → elem < elems
    → (if ltb y py then 1 else 0)
        + ((if py == y && ltb x px then 1 else 0)
            + ((if ltb py y then 1 else 0)
                + ((if py == y && ltb px x then 1 else 0)
                    + ((if py == y && (px == x && ltb z pz) then 1 else 0)
                        + ((if py == y && (px == x && ltb pz z) then 1 else 0)
                            + (if (px == x && (py == y && pz == z))
                                  && (leb 0 elem && ltb elem (0 + elems))
                                then 1
                                else 0))))))
      ≡ 1
one_way x y z px py pz elem elems fits = ground arith

-- At any router of a space that has the element of a packet's address, the packet is wanted by one
-- output, and by one only.
pub node3d_calls-exclusive :
    (x y z elems : ℕ) (p : Option ℕ) (r : Reg)
    → space_elem r.pkt.to < elems
    → claims r (node3d_calls x y z elems p) ≡ 1
unfolding node3d_calls north_sel south_sel east_sel west_sel up_sel down_sel elem_sel
node3d_calls-exclusive x y z elems p r fits =
    rw
      (claims-elem_calls r
        (p
          ∷ some elems
          ∷ some (elems + 1)
          ∷ some (elems + 2)
          ∷ some (elems + 3)
          ∷ some (elems + 4)
          ∷ some (elems + 5)
          ∷ [])
        (elem_sel x y z) (space_x r.pkt.to == x && (space_y r.pkt.to == y && space_z r.pkt.to == z))
        (space_elem r.pkt.to) elems 0 (λ j. ground arith))
      (one_way x y z (space_x r.pkt.to) (space_y r.pkt.to) (space_z r.pkt.to) (space_elem r.pkt.to)
        elems fits)

-- Every hop brings the packet one router nearer.
pub next_place-nearer :
    (r : Reg) (place : Place) (d : ℕ)
    → distance r place ≡ suc d
    → distance r (next_place r place) ≡ d
unfolding next_place north_sel south_sel east_sel west_sel up_sel down_sel
next_place-nearer r (x, y, z) d far = ground arith

walk_from :
    (r : Reg) (place : Place) (d : ℕ)
    → distance r place ≡ d
    → walk d r place ≡ (space_x r.pkt.to, space_y r.pkt.to, space_z r.pkt.to)
unfolding walk
walk_from r (x, y, z) zero far =
    let same_x : x ≡ space_x r.pkt.to = omega arith in
    let same_y : y ≡ space_y r.pkt.to = omega arith in
    let same_z : z ≡ space_z r.pkt.to = omega arith in rw (same_x, same_y, same_z) refl
walk_from r place (suc d) far = walk_from r (next_place r place) d (next_place-nearer r place d far)

-- From any router of a space, following the selectors of the routers on its way, a packet is at the router of
-- its address after as many hops as the two are apart.
pub space_walk-arrives :
    (r : Reg) (place : Place)
    → walk (distance r place) r place ≡ (space_x r.pkt.to, space_y r.pkt.to, space_z r.pkt.to)
space_walk-arrives r place = walk_from r place (distance r place) refl
