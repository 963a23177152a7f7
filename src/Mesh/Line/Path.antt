-- ===== src/Mesh/Line/Path.antt =====
-- The way of a packet through a line of routers: which output wants it, and how far it goes.
use gran.Prelude.{
  ℕ, zero, suc, ◌≡◌, ◌+◌, ◌-◌, ◌<◌, Option, some, [], ◌∷◌, arith, refl, ltb, leb, ◌==◌, ◌&&◌,
  if◌then◌else◌,
}
use gran.Reg.{Reg}
use gran.Mesh.Hops.{claims, claims-elem_calls, gap}
use gran.Mesh.Line.{line_cluster, line_elem, north_sel, south_sel, elem_sel, node1d_calls}

-- The router to which the selectors of the router `cluster` hand a packet; one that has arrived
-- stays.
unfoldable pub next_cluster : Reg → ℕ → ℕ
next_cluster r cluster =
    if north_sel cluster r
    then cluster + 1
    else if south_sel cluster r
    then cluster - 1
    else cluster

unfoldable pub walk : ℕ → Reg → ℕ → ℕ
walk zero r cluster = cluster
walk (suc left) r cluster = walk left r (next_cluster r cluster)

one_way :
    (c pc elem elems : ℕ)
    → elem < elems
    → (if ltb c pc then 1 else 0)
        + ((if ltb pc c then 1 else 0)
            + (if pc == c && (leb 0 elem && ltb elem (0 + elems)) then 1 else 0))
      ≡ 1
one_way c pc elem elems fits = ground arith

-- At any router of a line that has the element of a packet's address, the packet is wanted by one
-- output, and by one only.
pub node1d_calls-exclusive :
    (cluster elems : ℕ) (p : Option ℕ) (r : Reg)
    → line_elem r.pkt.to < elems
    → claims r (node1d_calls cluster elems p) ≡ 1
unfolding node1d_calls north_sel south_sel elem_sel
node1d_calls-exclusive cluster elems p r fits =
    rw
      (claims-elem_calls r (p ∷ some elems ∷ some (elems + 1) ∷ []) (elem_sel cluster)
        (line_cluster r.pkt.to == cluster) (line_elem r.pkt.to) elems 0 (λ j. ground arith))
      (one_way cluster (line_cluster r.pkt.to) (line_elem r.pkt.to) elems fits)

next_cluster-nearer :
    (r : Reg) (cluster d : ℕ)
    → gap cluster (line_cluster r.pkt.to) ≡ suc d
    → gap (next_cluster r cluster) (line_cluster r.pkt.to) ≡ d
unfolding next_cluster north_sel south_sel
next_cluster-nearer r cluster d far = ground arith

walk_from :
    (r : Reg) (cluster d : ℕ)
    → gap cluster (line_cluster r.pkt.to) ≡ d
    → walk d r cluster ≡ line_cluster r.pkt.to
unfolding walk
walk_from r cluster zero far = omega arith
walk_from r cluster (suc d) far =
    walk_from r (next_cluster r cluster) d (next_cluster-nearer r cluster d far)

-- From any router of a line, following the selectors of the routers on its way, a packet is at the router of
-- its address after as many hops as the two are apart.
pub line_walk-arrives :
    (r : Reg) (cluster : ℕ)
    → walk (gap cluster (line_cluster r.pkt.to)) r cluster ≡ line_cluster r.pkt.to
line_walk-arrives r cluster = walk_from r cluster (gap cluster (line_cluster r.pkt.to)) refl
