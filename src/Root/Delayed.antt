-- ===== src/Root/Delayed.antt =====
-- `most_delayed_domain` finds a domain whose time no other domain is behind.
use gran.Prelude.{ℕ, suc, ◌≡◌, ◌≢◌, ◌+◌, ◌≤◌, some, List, [], ◌∷◌, arith, refl, ap, ◌∙◌, get_elem?}
use gran.Vec.{VecOps}
use gran.Clock.{ClockDomain, ClockTime}
use gran.Clock.Time.{IsNormal, total_fs}
use gran.Clock.Order.{lt_time_iff}
use gran.Root.{Root, Place, earlier, delayed_from, most_delayed_domain}

one_add : (j : ℕ) → 1 + j ≡ suc j
one_add j = omega arith

module _ (V : VecOps ℕ) where
  -- Every domain has a normal time.
  abbrev pub AllNormal : List (ClockDomain V) → Type 0
  AllNormal [] = Unit {0}
  AllNormal (d ∷ ds) = IsNormal d.time × AllNormal ds

  -- No domain of the list is behind the time `t`.
  abbrev pub NoneBehind : ClockTime → List (ClockDomain V) → Type 0
  NoneBehind t [] = Unit {0}
  NoneBehind t (d ∷ ds) = (total_fs t ≤ total_fs d.time) × NoneBehind t ds

  NoneBehind-le :
      (t u : ClockTime) (ds : List (ClockDomain V))
      → total_fs t ≤ total_fs u
      → NoneBehind u ds
      → NoneBehind t ds
  NoneBehind-le t u [] h n = tt
  NoneBehind-le t u (d ∷ ds) h n = (omega arith, NoneBehind-le t u ds h n.1)

  earlier-le :
      (min : Place V) (i : ℕ) (cur : ClockDomain V)
      → IsNormal min.1.time
      → IsNormal cur.time
      → (total_fs (earlier V min i cur).1.time ≤ total_fs min.1.time)
        × (total_fs (earlier V min i cur).1.time ≤ total_fs cur.time)
        × IsNormal (earlier V min i cur).1.time
  unfolding earlier
  earlier-le min i cur hm hc = ground (arith, lt_time_iff cur.time min.1.time hc hm)

  delayed_from-le :
      (ds : List (ClockDomain V)) (min : Place V) (i : ℕ)
      → IsNormal min.1.time
      → AllNormal ds
      → (total_fs (delayed_from V min i ds).1.time ≤ total_fs min.1.time)
        × NoneBehind (delayed_from V min i ds).1.time ds
  unfolding delayed_from
  delayed_from-le [] min i h n = (omega arith, tt)
  delayed_from-le (cur ∷ ds) min i h n =
      let (a, b, c) = earlier-le min i cur h n.0 in
      let (p, q) = delayed_from-le ds (earlier V min i cur) (suc i) c n.1 in
      (omega arith, (omega arith, q))

  -- `all` is the whole array, of which `ds` is what is left of the loop from place `i` on.
  delayed_from-get_elem? :
      (all ds : List (ClockDomain V)) (min : Place V) (i : ℕ)
      → get_elem? all min.0 ≡ some min.1
      → ((j : ℕ) → get_elem? all (i + j) ≡ get_elem? ds j)
      → get_elem? all (delayed_from V min i ds).0 ≡ some (delayed_from V min i ds).1
  unfolding delayed_from
  delayed_from-get_elem? all [] min i h s = h
  delayed_from-get_elem? all (cur ∷ ds) min i h s =
      delayed_from-get_elem? all ds (earlier V min i cur) (suc i) here
        (λ j. ap (get_elem? all) (omega arith) ∙ s (suc j))
    where
      here : get_elem? all (earlier V min i cur).0 ≡ some (earlier V min i cur).1
      here =
          let at : i + 0 ≡ i = omega arith in
          let cur_at : get_elem? all i ≡ some cur = rw at at (s 0) in unfold earlier in ground arith

  -- With a domain at all and normal times, `most_delayed_domain` returns a domain of the array whose
  -- time no domain is behind.
  pub most_delayed_domain-NoneBehind :
      (root : Root V)
      → root.domains ≢ []
      → AllNormal root.domains
      → (p : Place V) × (most_delayed_domain V root ≡ some p)
        × (get_elem? root.domains p.0 ≡ some p.1)
        × NoneBehind p.1.time root.domains
  unfolding most_delayed_domain
  most_delayed_domain-NoneBehind root ne n = cases root.domains ne n
    where
      cases :
          (all : List (ClockDomain V))
          → all ≢ []
          → AllNormal all
          → (p : Place V) × (most_delayed_domain V (record { domains = all }) ≡ some p)
            × (get_elem? all p.0 ≡ some p.1)
            × NoneBehind p.1.time all
      cases [] ne n = absurd (ne refl)
      cases (d ∷ ds) ne n =
          let (a, b) = delayed_from-le ds (0, d) 1 n.0 n.1 in
          (
            delayed_from V (0, d) 1 ds,
            refl,
            delayed_from-get_elem? (d ∷ ds) ds (0, d) 1 refl
                (λ j. ap (get_elem? (d ∷ ds)) (one_add j)),
            (a, b),
          )
