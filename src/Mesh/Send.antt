-- ===== src/Mesh/Send.antt =====
-- `clock_outputs` of a router: which packets leave it.
use mathlib.Core.List.{Perm}
use mathlib.Core.List.Perm
use native.Mathlib.Decide.{ℕ_discrete}
use gran.Prelude.{
  set-get_elem?, ℕ, zero, suc, ◌≡◌, ◌+◌, ◌≤◌, ◌<◌, true, false, none, some, List, [], ◌∷◌, ◌++◌,
  arith, refl, sym, ◌∙◌, length, get_elem?, set, get_elem?-some, length-set, get_elem?-set_self,
  get_elem?-set_ne, lt_of_get_elem?, Bool-cases, some_inj, inl, inr, subst,
}
use gran.Packet.{Packet}
use gran.Component.{Stat, enosuch, is_ebusy, Ptr, Env, send}
use gran.Reg.{Reg}
use gran.Reg.Propagate.{in_flight, in_flight-free}
use gran.Mesh.{is_null, offer, clock_outputs}

-- No callback around the router fails an assertion of its own.
abbrev pub Answers : Env → Type 0
Answers e =
    (to from : ℕ) (pkt : Packet) (rest : e.Rest)
    → (ret : Stat) × (rest' : e.Rest) × (e.receive to from pkt rest ≡ some (ret, rest'))

-- A register that holds a packet has a component at its port.
abbrev pub Connected : List Ptr → List Reg → Type 0
Connected ports outs =
    (i : ℕ) (o : Reg) (port : Ptr)
    → get_elem? outs i ≡ some o
    → o.busy ≡ true
    → get_elem? ports i ≡ some port
    → is_null port ≡ false

send-answers :
    (e : Env)
    → Answers e
    → (self : ℕ) (port : Ptr) (pkt : Packet) (rest : e.Rest) → is_null port ≡ false
    → (ret : Stat) × (rest' : e.Rest) × (send e self port pkt rest ≡ some (ret, rest'))
unfolding send
send-answers e answers self none pkt rest there = absurd (cc)
send-answers e answers self (some to) pkt rest there = elim (Bool-cases (e.has_receive to)) [
  | inl can ↦ let (ret, rest', runs) = answers to self pkt rest in (ret, rest', rw can runs)
  | inr not_there ↦ (enosuch, rest, rw not_there refl)
]

module _ (e : Env) (self : ℕ) (ports : List Ptr) where
  open e use {Rest}

  -- What one pass over the outputs from place `i` on does; the list holds the packets that left, in
  -- order. A packet whose receiver is busy stays.
  pub data Delivered : ℕ → ℕ → List Reg → Rest → List Packet → List Reg → Rest → Type 0 where
    finished : {i : ℕ} {outs : List Reg} {rest : Rest} → Delivered 0 i outs rest [] outs rest
    skipped :
        {left i : ℕ} {outs outs' : List Reg} {rest rest' : Rest} {ps : List Packet} {o : Reg}
        → get_elem? outs i ≡ some o
        → o.busy ≡ false
        → Delivered left (i + 1) outs rest ps outs' rest'
        → Delivered (suc left) i outs rest ps outs' rest'
    refused :
        {left i : ℕ} {outs outs' : List Reg} {rest rest₁ rest' : Rest} {ps : List Packet} {o : Reg}
        {port : Ptr} {ret : Stat}
        → get_elem? outs i ≡ some o
        → o.busy ≡ true
        → get_elem? ports i ≡ some port
        → send e self port o.pkt rest ≡ some (ret, rest₁)
        → is_ebusy ret ≡ true
        → Delivered left (i + 1) outs rest₁ ps outs' rest'
        → Delivered (suc left) i outs rest ps outs' rest'
    accepted :
        {left i : ℕ} {outs outs' : List Reg} {rest rest₁ rest' : Rest} {ps : List Packet} {o : Reg}
        {port : Ptr} {ret : Stat}
        → get_elem? outs i ≡ some o
        → o.busy ≡ true
        → get_elem? ports i ≡ some port
        → send e self port o.pkt rest ≡ some (ret, rest₁)
        → is_ebusy ret ≡ false
        → Delivered left (i + 1) (set outs i (record o { busy = false })) rest₁ ps outs' rest'
        → Delivered (suc left) i outs rest (o.pkt ∷ ps) outs' rest'

  -- What left and what stayed are the packets that were there before.
  pub Delivered-Perm :
      {left i : ℕ} {outs outs' : List Reg} {rest rest' : Rest} {ps : List Packet}
      → Delivered left i outs rest ps outs' rest'
      → Perm (ps ++ in_flight outs') (in_flight outs)
  Delivered-Perm {outs} finished = Perm.refl (in_flight outs)
  Delivered-Perm (skipped read free d) = Delivered-Perm d
  Delivered-Perm (refused read full port sent busy d) = Delivered-Perm d
  Delivered-Perm {i} {outs} (accepted {o} read full port sent taken d) =
      Perm.trans (Perm.cons o.pkt (Delivered-Perm d))
        (Perm.symm (in_flight-free outs i o read full))

  pub Delivered-length :
      {left i : ℕ} {outs outs' : List Reg} {rest rest' : Rest} {ps : List Packet}
      → Delivered left i outs rest ps outs' rest'
      → length outs' ≡ length outs
  Delivered-length finished = refl
  Delivered-length (skipped read free d) = Delivered-length d
  Delivered-length (refused read full port sent busy d) = Delivered-length d
  Delivered-length {i} {outs} (accepted {o} read full port sent taken d) =
      Delivered-length d ∙ length-set outs i (record o { busy = false })

Connected-set :
    (ports : List Ptr) (outs : List Reg) (i : ℕ) (o : Reg)
    → Connected ports outs
    → i < length outs
    → o.busy ≡ false
    → Connected ports (set outs i o)
Connected-set ports outs i o connected inside free j r port read full at = elim (ℕ_discrete i j) [
  | yes same ↦
      let there : get_elem? (set outs i o) j ≡ some o =
        subst (λ (m : ℕ). get_elem? (set outs i o) m ≡ some o) same
          (get_elem?-set_self outs i o inside) in
      let held : o ≡ r = some_inj (sym there ∙ read) in absurd (cc)
  | no other ↦ connected j r port (sym (get_elem?-set_ne outs i j o other) ∙ read) full at
]

module _ (e : Env) (self : ℕ) (ports : List Ptr) (answers : Answers e) where
  open e use {Rest}

  -- One round: what it does to the output at place `i`, and how the rounds after it go on.
  Stepped : ℕ → ℕ → List Reg → Reg → Ptr → Rest → Type 0
  Stepped left i outs o port rest =
      (o' : Reg) × (rest₁ : Rest) × (offer e self port o rest ≡ some (o', rest₁))
      × Connected ports (set outs i o')
      × ((outs' : List Reg) (rest' : Rest) (ps : List Packet)
          → Delivered e self ports left (i + 1) (set outs i o') rest₁ ps outs' rest'
          → (ps' : List Packet) × Delivered e self ports (suc left) i outs rest ps' outs' rest')

  offer-stays :
      (left i : ℕ) (outs : List Reg) (o : Reg) (port : Ptr) (rest rest₁ : Rest)
      → get_elem? outs i ≡ some o
      → Connected ports outs
      → offer e self port o rest ≡ some (o, rest₁)
      → ((outs' : List Reg) (rest' : Rest) (ps : List Packet)
          → Delivered e self ports left (i + 1) outs rest₁ ps outs' rest'
          → Delivered e self ports (suc left) i outs rest ps outs' rest')
      → Stepped left i outs o port rest
  unfolding Stepped
  offer-stays left i outs o port rest rest₁ read connected runs next =
      let same : set outs i o ≡ outs = set-get_elem? outs i o read in
      (
        o,
        rest₁,
        runs,
        rw same connected,
        λ outs' rest' ps d. (ps, next outs' rest' ps (rw (sym same) d)),
      )

  offer-sends :
      (left i : ℕ) (outs : List Reg) (o : Reg) (port : Ptr) (rest rest₁ : Rest) (ret : Stat)
      → get_elem? outs i ≡ some o
      → o.busy ≡ true
      → get_elem? ports i ≡ some port
      → Connected ports outs
      → send e self port o.pkt rest ≡ some (ret, rest₁)
      → Stepped left i outs o port rest
  offer-sends left i outs o port rest rest₁ ret read full at connected sent =
      elim (Bool-cases (is_ebusy ret)) [
        | inl busy ↦
            offer-stays left i outs o port rest rest₁ read connected
              (unfold offer in rw (full, sent, busy) refl)
              (λ outs' rest' ps d. refused read full at sent busy d)
        | inr taken ↦
            unfold Stepped in
            (
              record o { busy = false },
              rest₁,
              (unfold offer in rw (full, sent, taken) refl),
              Connected-set ports outs i (record o { busy = false }) connected
                  (lt_of_get_elem? outs i o read) refl,
              λ outs' rest' ps d. (o.pkt ∷ ps, accepted read full at sent taken d),
            )
      ]

  offer-Stepped :
      (left i : ℕ) (outs : List Reg) (o : Reg) (port : Ptr) (rest : Rest)
      → get_elem? outs i ≡ some o
      → get_elem? ports i ≡ some port
      → Connected ports outs
      → Stepped left i outs o port rest
  offer-Stepped left i outs o port rest read at connected = elim (Bool-cases o.busy) [
    | inl full ↦
        let (ret, rest₁, sent) =
          send-answers e answers self port o.pkt rest (connected i o port read full at) in
        offer-sends left i outs o port rest rest₁ ret read full at connected sent
    | inr free ↦
        offer-stays left i outs o port rest rest read connected (unfold offer in rw free refl)
          (λ outs' rest' ps d. skipped read free d)
  ]

  -- Among components that answer, with a component at the port of each full output, the pass over the
  -- outputs from place `i` on returns, and does to each in turn what `Delivered` says: a free one
  -- is skipped, a packet refused with `EBUSY` stays, and any other answer frees the output.
  pub clock_outputs-Delivered :
      (left i : ℕ) (outs : List Reg) (rest : Rest)
      → Connected ports outs
      → i + left ≤ length ports
      → i + left ≤ length outs
      → (outs' : List Reg) × (rest' : Rest) × (ps : List Packet) × (clock_outputs e self ports left
            i outs rest
          ≡ some (outs', rest'))
        × Delivered e self ports left i outs rest ps outs' rest'
  unfolding clock_outputs Stepped
  clock_outputs-Delivered zero i outs rest connected h k = (outs, rest, [], refl, finished)
  clock_outputs-Delivered (suc left) i outs rest connected h k =
      let (o, read) = get_elem?-some outs i (omega arith) in
      let (port, at) = get_elem?-some ports i (omega arith) in
      let (o', rest₁, runs, connected', next) =
        offer-Stepped left i outs o port rest read at connected in
      let (outs', rest', ps, runs', d) =
        clock_outputs-Delivered left (i + 1) (set outs i o') rest₁ connected' (omega arith)
          (omega (arith, length-set outs i o')) in
      let (ps', d') = next outs' rest' ps d in (outs', rest', ps', rw (read, at, runs) runs', d')
