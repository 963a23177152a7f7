-- ===== src/Reg/Select.antt =====
-- Which register `propagate` takes: the oldest of those that are full and wanted.
use mathlib.Core.List.{Memᴰ}
use gran.Prelude.{
  ℕ, ◌≡◌, ◌≤◌, ◌<◌, Bool, true, Option, none, some, List, [], ◌∷◌, arith, refl, subst, length,
  get_elem?, get_elem?-some, >>=-eq-some, some_inj,
}
use gran.Reg.{Reg, Pick, better, select}

-- Every pointer that is not NULL points into the array.
abbrev pub InArray : List (Option ℕ) → ℕ → Type 0
InArray [] n = Unit {0}
InArray (none ∷ ps) n = InArray ps n
InArray (some p ∷ ps) n = (p < n) × InArray ps n

-- A full register of the array that `sel` wants.
abbrev pub Wanted : (Reg → Bool) → List Reg → ℕ → Reg → Type 0
Wanted sel regs i r = (get_elem? regs i ≡ some r) × (r.busy ≡ true) × (sel r ≡ true)

abbrev Holds : (Reg → Bool) → List Reg → Pick → Type 0
Holds sel regs none = Unit {0}
Holds sel regs (some (i, r)) = Wanted sel regs i r

-- The pick is no younger than `t`.
abbrev NoYounger : Pick → ℕ → Type 0
NoYounger none t = ⊥
NoYounger (some (i, r)) t = r.pkt.timestamp ≤ t

abbrev Among : List (Option ℕ) → Pick → Type 0
Among ps none = Unit {0}
Among ps (some (i, r)) = Memᴰ (some i) ps

module _ (sel : Reg → Bool) (regs : List Reg) where
  better-Holds :
      (p : ℕ) (r : Reg) (best : Pick)
      → get_elem? regs p ≡ some r
      → Holds sel regs best
      → Holds sel regs (better sel p r best)
  unfolding better
  better-Holds p r none read h = ground arith
  better-Holds p r (some (j, s)) read h = ground arith

  better-NoYounger :
      (p : ℕ) (r : Reg) (best : Pick) (t : ℕ) → NoYounger best t → NoYounger (better sel p r best) t
  unfolding better
  better-NoYounger p r none t h = absurd h
  better-NoYounger p r (some (j, s)) t h = ground arith

  better-takes :
      (p : ℕ) (r : Reg) (best : Pick)
      → r.busy ≡ true
      → sel r ≡ true
      → NoYounger (better sel p r best) r.pkt.timestamp
  unfolding better
  better-takes p r none b w = ground arith
  better-takes p r (some (j, s)) b w = ground arith

  select-total :
      (ps : List (Option ℕ)) (best : Pick)
      → InArray ps (length regs)
      → (out : Pick) × (select sel regs ps best ≡ some out)
  unfolding select
  select-total [] best ok = (best, refl)
  select-total (none ∷ ps) best ok = select-total ps best ok
  select-total (some p ∷ ps) best ok =
      let (r, read) = get_elem?-some regs p ok.0 in
      let (out, runs) = select-total ps (better sel p r best) ok.1 in (out, rw read runs)

  select-Holds :
      (ps : List (Option ℕ)) (best out : Pick)
      → select sel regs ps best ≡ some out
      → Holds sel regs best
      → Holds sel regs out
  unfolding select
  select-Holds [] best out e h = subst (Holds sel regs) (some_inj e) h
  select-Holds (none ∷ ps) best out e h = select-Holds ps best out e h
  select-Holds (some p ∷ ps) best out e h =
      let (r, read, rest) = >>=-eq-some (get_elem? regs p) _ e in
      select-Holds ps (better sel p r best) out rest (better-Holds p r best read h)

  select-NoYounger :
      (ps : List (Option ℕ)) (best out : Pick) (t : ℕ)
      → select sel regs ps best ≡ some out
      → NoYounger best t
      → NoYounger out t
  unfolding select
  select-NoYounger [] best out t e h = subst (λ (o : Pick). NoYounger o t) (some_inj e) h
  select-NoYounger (none ∷ ps) best out t e h = select-NoYounger ps best out t e h
  select-NoYounger (some p ∷ ps) best out t e h =
      let (r, read, rest) = >>=-eq-some (get_elem? regs p) _ e in
      select-NoYounger ps (better sel p r best) out t rest (better-NoYounger p r best t h)

  select-oldest :
      (ps : List (Option ℕ)) (best out : Pick) (i : ℕ) (s : Reg)
      → select sel regs ps best ≡ some out
      → Memᴰ (some i) ps
      → Wanted sel regs i s
      → NoYounger out s.pkt.timestamp
  unfolding select
  select-oldest [] best out i s e m w = elim m [ ]
  select-oldest (none ∷ ps) best out i s e (Memᴰ.head h) w = absurd (cc)
  select-oldest (none ∷ ps) best out i s e (Memᴰ.tail m) w = select-oldest ps best out i s e m w
  select-oldest (some p ∷ ps) best out i s e (Memᴰ.head h) w =
      let (r, read, rest) = >>=-eq-some (get_elem? regs p) _ e in
      let same : r ≡ s = cc in
      let taken : NoYounger (better sel p r best) r.pkt.timestamp =
        better-takes p r best (cc) (cc) in
      select-NoYounger ps (better sel p r best) out s.pkt.timestamp rest
        (subst (λ (q : Reg). NoYounger (better sel p r best) q.pkt.timestamp) same taken)
  select-oldest (some p ∷ ps) best out i s e (Memᴰ.tail m) w =
      let (r, read, rest) = >>=-eq-some (get_elem? regs p) _ e in
      select-oldest ps (better sel p r best) out i s rest m w

  better-Among :
      (ps : List (Option ℕ)) (p : ℕ) (r : Reg) (best : Pick)
      → Memᴰ (some p) ps
      → Among ps best
      → Among ps (better sel p r best)
  unfolding better
  better-Among ps p r none m h = ground (arith, m)
  better-Among ps p r (some (j, s)) m h = ground (arith, m)

  -- `all` is the whole array of pointers, of which `ps` is what is left of the loop.
  select-Among :
      (all ps : List (Option ℕ)) (best out : Pick)
      → ((o : Option ℕ) → Memᴰ o ps → Memᴰ o all)
      → select sel regs ps best ≡ some out
      → Among all best
      → Among all out
  unfolding select
  select-Among all [] best out sub e h = subst (Among all) (some_inj e) h
  select-Among all (none ∷ ps) best out sub e h =
      select-Among all ps best out (λ o m. sub o (Memᴰ.tail m)) e h
  select-Among all (some p ∷ ps) best out sub e h =
      let (r, read, rest) = >>=-eq-some (get_elem? regs p) _ e in
      select-Among all ps (better sel p r best) out (λ o m. sub o (Memᴰ.tail m)) rest
        (better-Among all p r best (sub (some p) (Memᴰ.head refl)) h)

  -- What the loop of `propagate` finds: the oldest wanted register among the pointers, or nothing
  -- if none is wanted.
  pub record IsOldest (ps : List (Option ℕ)) (i : ℕ) (r : Reg) : Type 0 where
    pub listed : Memᴰ (some i) ps
    pub wanted : Wanted sel regs i r
    pub oldest :
        (j : ℕ) (s : Reg)
        → Memᴰ (some j) ps
        → Wanted sel regs j s
        → r.pkt.timestamp ≤ s.pkt.timestamp

  abbrev pub NoneWanted : List (Option ℕ) → Type 0
  NoneWanted ps = (j : ℕ) (s : Reg) → Memᴰ (some j) ps → ¬ Wanted sel regs j s

  pub data Chosen (ps : List (Option ℕ)) : Pick → Type 0 where
    nothing : NoneWanted ps → Chosen ps none
    taken : {i : ℕ} {r : Reg} → IsOldest ps i r → Chosen ps (some (i, r))

  Chosen-of :
      (ps : List (Option ℕ)) (out : Pick)
      → Among ps out
      → Holds sel regs out
      → ((j : ℕ) (s : Reg) → Memᴰ (some j) ps → Wanted sel regs j s → NoYounger out s.pkt.timestamp)
      → Chosen ps out
  Chosen-of ps none a h o = nothing o
  Chosen-of ps (some (i, r)) a h o = taken (record { listed = a; wanted = h; oldest = o })

  pub select-Chosen :
      (ps : List (Option ℕ))
      → InArray ps (length regs)
      → (out : Pick) × (select sel regs ps none ≡ some out) × Chosen ps out
  select-Chosen ps ok =
      let (out, runs) = select-total ps none ok in
      (
        out,
        runs,
        Chosen-of ps out (select-Among ps ps none out (λ o m. m) runs tt)
            (select-Holds ps none out runs tt) (λ j s m w. select-oldest ps none out j s runs m w),
      )
