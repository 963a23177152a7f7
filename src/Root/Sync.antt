-- ===== src/Root/Sync.antt =====
-- The clock domains stay in step: none runs ahead of another by more than its own period.
use native.Mathlib.Decide.{ℕ_discrete}
use gran.Prelude.{
  ℕ, zero, suc, ◌≡◌, ◌+◌, ◌-◌, ◌/◌, ◌^◌, ◌≤◌, ◌<◌, none, some, List, [], ◌∷◌, arith, sym, subst,
  ◌∙◌, get_elem?, set, some_inj, >>=-eq-some, get_elem?-set_self, get_elem?-set_ne, lt_of_get_elem?,
  none≢some,
}
use gran.Component.{Stat}
use gran.Vec.{VecOps}
use gran.Clock.{Clocked, ClockDomain, sec, clock_domain_tick}
use gran.Clock.Time.{IsNormal, total_fs, advance_clock-exact}
use gran.Clock.Tick.{clock_domain_tick-IsTick}
use gran.Root.{Root, most_delayed_domain, root_step}
use gran.Root.Delayed.{AllNormal, NoneBehind, most_delayed_domain-NoneBehind}

module _ (V : VecOps ℕ) where
  -- No domain is ahead of another by more than its own period.
  abbrev pub InStep : List (ClockDomain V) → Type 0
  InStep ds =
      (i j : ℕ) (d c : ClockDomain V)
      → get_elem? ds i ≡ some d
      → get_elem? ds j ≡ some c
      → total_fs d.time ≤ total_fs c.time + d.period

  -- The next tick of a domain wraps neither its femtoseconds nor its seconds.
  abbrev pub HasRoom : ClockDomain V → Type 0
  HasRoom d = (d.period < 2 ^ 64 - sec) × (d.time.s + (d.time.fs + d.period) / sec < 2 ^ 64)

  NoneBehind-get_elem? :
      (ds : List (ClockDomain V)) (d c : ClockDomain V) (j : ℕ)
      → NoneBehind V d.time ds
      → get_elem? ds j ≡ some c
      → total_fs d.time ≤ total_fs c.time
  NoneBehind-get_elem? [] d c j n e = absurd (none≢some e)
  NoneBehind-get_elem? (x ∷ ds) d c zero n e =
      subst (λ (y : ClockDomain V). total_fs d.time ≤ total_fs y.time) (some_inj e) n.0
  NoneBehind-get_elem? (x ∷ ds) d c (suc j) n e = NoneBehind-get_elem? ds d c j n.1 e

  AllNormal-get_elem? :
      (ds : List (ClockDomain V)) (c : ClockDomain V) (j : ℕ)
      → AllNormal V ds
      → get_elem? ds j ≡ some c
      → IsNormal c.time
  AllNormal-get_elem? [] c j n e = absurd (none≢some e)
  AllNormal-get_elem? (x ∷ ds) c zero n e =
      subst (λ (y : ClockDomain V). IsNormal y.time) (some_inj e) n.0
  AllNormal-get_elem? (x ∷ ds) c (suc j) n e = AllNormal-get_elem? ds c j n.1 e

  AllNormal-set :
      (ds : List (ClockDomain V)) (i : ℕ) (c : ClockDomain V)
      → AllNormal V ds
      → IsNormal c.time
      → AllNormal V (set ds i c)
  AllNormal-set [] i c n h = tt
  AllNormal-set (x ∷ ds) zero c n h = (h, n.1)
  AllNormal-set (x ∷ ds) (suc i) c n h = (n.0, AllNormal-set ds i c n.1 h)

  -- Ticking a domain that no other is behind keeps them in step.
  InStep-set :
      (ds : List (ClockDomain V)) (k : ℕ) (d d' : ClockDomain V)
      → InStep ds
      → get_elem? ds k ≡ some d
      → NoneBehind V d.time ds
      → total_fs d'.time ≡ total_fs d.time + d.period
      → d'.period ≡ d.period
      → InStep (set ds k d')
  InStep-set ds k d d' step here none_behind later period i j a b ha hb = elim (ℕ_discrete k i) [
    | yes ki ↦ elim (ℕ_discrete k j) [
      | yes kj ↦
          let ea : d' ≡ a = some_inj (sym self ∙ (rw (← ki) at ha)) in
          let eb : d' ≡ b = some_inj (sym self ∙ (rw (← kj) at hb)) in rw (← ea, ← eb) (omega arith)
      | no kj ↦
          let ea : d' ≡ a = some_inj (sym self ∙ (rw (← ki) at ha)) in
          let old : get_elem? ds j ≡ some b = sym (get_elem?-set_ne ds k j d' kj) ∙ hb in
          let le = NoneBehind-get_elem? ds d b j none_behind old in rw (← ea) (omega arith)
    ]
    | no ki ↦
        let olda : get_elem? ds i ≡ some a = sym (get_elem?-set_ne ds k i d' ki) ∙ ha in
        elim (ℕ_discrete k j) [
          | yes kj ↦
              let eb : d' ≡ b = some_inj (sym self ∙ (rw (← kj) at hb)) in
              let le = step i k a d olda here in rw (← eb) (omega arith)
          | no kj ↦ step i j a b olda (sym (get_elem?-set_ne ds k j d' kj) ∙ hb)
        ]
  ]
    where
      self : get_elem? (set ds k d') k ≡ some d'
      self = get_elem?-set_self ds k d' (lt_of_get_elem? ds k d here)

  no_domain : (root : Root V) → root.domains ≡ [] → most_delayed_domain V root ≡ none
  unfolding most_delayed_domain
  no_domain root nil = rw (nil, most_delayed_domain)

  module _ (k : Clocked) where
    open k use {World}

    -- Where times are normal and the next tick of no domain wraps, a step of the simulation loop that
    -- returns keeps every two domains in step (none is ahead of another by more than its own
    -- period), and their times normal.
    pub root_step-InStep :
        (root : Root V) (w : World) (out : Stat × Root V × World)
        → AllNormal V root.domains
        → ((i : ℕ) (d : ClockDomain V) → get_elem? root.domains i ≡ some d → HasRoom d)
        → InStep root.domains
        → root_step V k root w ≡ some out
        → InStep out.1.domains × AllNormal V out.1.domains
    unfolding root_step
    root_step-InStep root w out normal room step e =
        let (p, found, rest) = >>=-eq-some (most_delayed_domain V root) _ e in
        let (o, ticks, end) = >>=-eq-some (clock_domain_tick V k p.1 w) _ rest in
        let (q, found', here, behind) =
          most_delayed_domain-NoneBehind V root
            (λ nil. none≢some (sym (no_domain root nil) ∙ found)) normal in
        let tick = clock_domain_tick-IsTick k V p.1 w o ticks in
        let pq : p ≡ q = some_inj (sym found ∙ found') in
        let here' : get_elem? root.domains p.0 ≡ some p.1 = rw pq here in
        let behind' : NoneBehind V p.1.time root.domains = rw pq behind in
        let roomy = room p.0 p.1 here' in
        let (time, adv, norm, exact) =
          advance_clock-exact p.1.time p.1.period
            (AllNormal-get_elem? root.domains p.1 p.0 normal here') roomy.0 roomy.1 in
        let same : o.1.time ≡ time = some_inj (sym tick.later ∙ adv) in
        let norm' : IsNormal o.1.time = rw same norm in
        let exact' : total_fs o.1.time ≡ total_fs p.1.time + p.1.period = rw same exact in
        subst (λ (x : Stat × Root V × World). InStep x.1.domains × AllNormal V x.1.domains)
          (some_inj end)
          (
            InStep-set root.domains p.0 p.1 o.1 step here' behind' exact' tick.same_period,
            AllNormal-set root.domains p.0 o.1 normal norm',
          )
