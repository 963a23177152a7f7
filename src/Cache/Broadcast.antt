-- ===== src/Cache/Broadcast.antt =====
-- src/cache/simt_cache.c: `simt_cache_broadcast`, and the requests that wait for one address.
use mathlib.Core.List.{append_assoc}
use gran.Prelude.{
  ℕ, ◌≡◌, ◌+◌, ◌<◌, ◌≤◌, true, false, some, List, [], ◌∷◌, ◌++◌, arith, refl, ap, sym, ◌∙◌, length,
  length-append, get_elem?, set, get_elem?-middle, set-middle, Bool-cases, inl, inr,
}
use gran.Packet.{Packet, packet_read, is_set}
use gran.Component.{ok, Ptr, Env, send}
use gran.Vec.{VecOps}
use gran.Cache.{Req, SimtCache, put_req, waits_for, answer_one, answer_all, simt_cache_broadcast}

-- The request is under way, and reads from the address.
pub record IsWaiting (addr : ℕ) (r : Req) : Type 0 where
  pub busy : r.reg.busy ≡ true
  pub reads : is_set r.reg.pkt packet_read ≡ true
  pub place : r.reg.pkt.to ≡ addr

-- A request that was answered: free, and not queued.
abbrev pub free_req : Req → Req
free_req r = record { reg = record { pkt = r.reg.pkt; busy = false }; queued = false }

-- The response as it goes to the sender of a request: for its bytes, and to the address it came from.
abbrev pub reply_to : Packet → Req → Packet
reply_to pkt r = record pkt { mask = r.reg.pkt.mask; to = r.reg.pkt.from }

-- The packets differ at most in the two fields that are rewritten for each request.
abbrev IsSame : Packet → Packet → Type 0
IsSame pkt pkt' = (m t : ℕ) → record pkt' { mask = m; to = t } ≡ record pkt { mask = m; to = t }

module _ (L : VecOps Ptr) (Q : VecOps Req) (e : Env) (self : ℕ) where
  open e use {Rest}

  -- A component at the lane takes every packet: no reason for a core to be blocked.
  abbrev pub Listens : Ptr → Type 0
  Listens lane =
      (pkt : Packet) (rest : Rest) → (rest' : Rest) × (send e self lane pkt rest ≡ some (ok, rest'))

  abbrev AllHear : L.Vec → ℕ → Type 0
  AllHear lanes n = (i : ℕ) → i < n → (lane : Ptr) × (L.at lanes i ≡ some lane) × Listens lane

  abbrev pub AllListen : SimtCache L Q → Type 0
  AllListen c = AllHear c.lanes (length (Q.items c.reqs))

  -- What a broadcast of a response does to the requests from lane `i` on, and what it sends, in order: the
  -- lane of a request that waits to read the address gets the response, and the request is free and
  -- not queued afterwards; nothing is sent for any other request, and it stays as it is.
  pub data Broadcast (lanes : L.Vec) (pkt : Packet)
      : ℕ → List Req → Rest → List Req → Rest → Type 0 where
    finished : {i : ℕ} {rest : Rest} → Broadcast lanes pkt i [] rest [] rest
    kept :
        {i : ℕ} {r : Req} {rs rs' : List Req} {rest rest' : Rest}
        → (IsWaiting pkt.from r → ⊥)
        → Broadcast lanes pkt (i + 1) rs rest rs' rest'
        → Broadcast lanes pkt i (r ∷ rs) rest (r ∷ rs') rest'
    answered :
        {i : ℕ} {r : Req} {lane : Ptr} {rs rs' : List Req} {rest rest₁ rest' : Rest}
        → IsWaiting pkt.from r
        → L.at lanes i ≡ some lane
        → send e self lane (reply_to pkt r) rest ≡ some (ok, rest₁)
        → Broadcast lanes pkt (i + 1) rs rest₁ rs' rest'
        → Broadcast lanes pkt i (r ∷ rs) rest (free_req r ∷ rs') rest'

  waits_for-IsWaiting : (addr : ℕ) (r : Req) → waits_for L Q e addr r ≡ true → IsWaiting addr r
  waits_for-IsWaiting addr r h = record {
    busy = ground arith;
    reads = ground arith;
    place = ground arith;
  }

  IsWaiting-waits_for : (addr : ℕ) (r : Req) → waits_for L Q e addr r ≡ false → IsWaiting addr r → ⊥
  IsWaiting-waits_for addr r h w = ground (arith, w.busy, w.reads, w.place)

  -- Nothing but the requests of the cache has changed.
  abbrev pub OnlyRequests : SimtCache L Q → SimtCache L Q → Type 0
  OnlyRequests c c' = record c { reqs = c'.reqs } ≡ c'

  answer_one-answered :
      (i : ℕ) (pkt pkt₁ : Packet) (c : SimtCache L Q) (rest rest' : Rest) (r : Req) (lane : Ptr)
      → IsSame pkt pkt₁
      → Q.at c.reqs i ≡ some r
      → waits_for L Q e pkt₁.from r ≡ true
      → L.at c.lanes i ≡ some lane
      → send e self lane (reply_to pkt r) rest ≡ some (ok, rest')
      → answer_one L Q e self i pkt₁ c rest
        ≡ some (reply_to pkt₁ r, put_req L Q c i (free_req r), rest')
  unfolding answer_one
  answer_one-answered i pkt pkt₁ c rest rest' r lane same here waits at sent =
      let rewritten : send e self lane (reply_to pkt₁ r) rest ≡ some (ok, rest') =
        ap (λ (p : Packet). send e self lane p rest) (same r.reg.pkt.mask r.reg.pkt.from) ∙ sent in
      rw (here, waits, at, rewritten) refl

  answer_one-kept :
      (i : ℕ) (pkt : Packet) (c : SimtCache L Q) (rest : Rest) (r : Req)
      → Q.at c.reqs i ≡ some r
      → waits_for L Q e pkt.from r ≡ false
      → answer_one L Q e self i pkt c rest ≡ some (pkt, c, rest)
  unfolding answer_one
  answer_one-kept i pkt c rest r here other = rw (here, other) refl

  length-snoc : (rs : List Req) (r : Req) (i : ℕ) → length rs ≡ i → length (rs ++ r ∷ []) ≡ i + 1
  length-snoc rs r i h = omega (arith, length-append rs (r ∷ []), h)

  -- The rounds over the requests `todo`, when those before them are `past`.
  answer_all-Broadcast :
      (todo past : List Req) (i n : ℕ) (lanes : L.Vec) (pkt pkt₁ : Packet) (c : SimtCache L Q)
      (rest : Rest)
      → AllHear lanes n
      → i + length todo ≤ n
      → IsSame pkt pkt₁
      → c.lanes ≡ lanes
      → length past ≡ i
      → Q.items c.reqs ≡ past ++ todo
      → (pkt' : Packet) × (c' : SimtCache L Q) × (rest' : Rest) × (todo' : List Req) × (answer_all L
            Q e self
            (length todo)
            i
            pkt₁
            c
            rest
          ≡ some (pkt', c', rest'))
        × Broadcast lanes pkt i todo rest todo' rest'
        × (Q.items c'.reqs ≡ past ++ todo')
        × OnlyRequests c c'
  unfolding answer_all
  answer_all-Broadcast [] past i n lanes pkt pkt₁ c rest hear fits same on size items =
      (pkt₁, c, rest, [], refl, finished, items, refl)
  answer_all-Broadcast (r ∷ todo) past i n lanes pkt pkt₁ c rest hear fits same on size items =
      let here : Q.at c.reqs i ≡ some r =
        Q.at-items c.reqs i
        ∙ ap (λ rs. get_elem? rs i) items
        ∙ get_elem?-middle past todo r i size in
      let address : pkt₁.from ≡ pkt.from = ap (λ (p : Packet). p.from) (same 0 0) in
      elim (Bool-cases (waits_for L Q e pkt₁.from r)) [
        | inl waits ↦
            let (lane, at, takes) = hear i (omega (arith, fits)) in
            let (rest₁, sent) = takes (reply_to pkt r) rest in
            let w = waits_for-IsWaiting pkt₁.from r waits in
            let (pkt', c', rest', todo', runs, after, items', only) =
              answer_all-Broadcast todo (past ++ free_req r ∷ []) (i + 1) n lanes pkt
                (reply_to pkt₁ r) (put_req L Q c i (free_req r)) rest₁ hear (omega (arith, fits))
                same on (length-snoc past (free_req r) i size)
                (Q.items-put c.reqs i (free_req r)
                  ∙ ap (λ rs. set rs i (free_req r)) items
                  ∙ set-middle past todo r (free_req r) i size
                  ∙ sym (append_assoc past (free_req r ∷ []) todo)) in
            (
              pkt',
              c',
              rest',
              free_req r ∷ todo',
              rw
                  (answer_one-answered i pkt pkt₁ c rest rest₁ r lane same here waits
                    (ap (λ ls. L.at ls i) on ∙ at) sent)
                  runs,
              answered (record { busy = w.busy; reads = w.reads; place = w.place ∙ address }) at
                  sent after,
              items' ∙ append_assoc past (free_req r ∷ []) todo',
              only,
            )
        | inr other ↦
            let (pkt', c', rest', todo', runs, after, items', only) =
              answer_all-Broadcast todo (past ++ r ∷ []) (i + 1) n lanes pkt pkt₁ c rest hear
                (omega (arith, fits)) same on (length-snoc past r i size)
                (items ∙ sym (append_assoc past (r ∷ []) todo)) in
            (
              pkt',
              c',
              rest',
              r ∷ todo',
              rw (answer_one-kept i pkt₁ c rest r here other) runs,
              kept
                  (λ w.
                    IsWaiting-waits_for pkt₁.from r other
                      (record { busy = w.busy; reads = w.reads; place = w.place ∙ sym address }))
                  after,
              items' ∙ append_assoc past (r ∷ []) todo',
              only,
            )
      ]

  -- With components at all lanes that take every packet, the broadcast of a response to a read returns
  -- `OK`, and nothing but the requests changes in the cache. In the order of the lanes, each request
  -- that is under way and reads from the address of the response is answered by one packet to its
  -- lane, the response with the mask of the request and to where it came from, and is free and not
  -- queued afterwards; for every other request nothing is sent, and it is as it was.
  pub simt_cache_broadcast-Broadcast :
      (pkt : Packet) (c : SimtCache L Q) (rest : Rest)
      → is_set pkt packet_read ≡ true
      → AllListen c
      → (c' : SimtCache L Q) × (rest' : Rest) × (simt_cache_broadcast L Q e self pkt c rest
          ≡ some (ok, c', rest'))
        × Broadcast c.lanes pkt 0 (Q.items c.reqs) rest (Q.items c'.reqs) rest'
        × OnlyRequests c c'
  unfolding simt_cache_broadcast
  simt_cache_broadcast-Broadcast pkt c rest read listen =
      let (pkt', c', rest', todo', runs, after, items, only) =
        answer_all-Broadcast (Q.items c.reqs) [] 0 (length (Q.items c.reqs)) c.lanes pkt pkt c rest
          listen (omega arith) (λ m t. refl) refl refl refl in
      (c', rest', rw (read, Q.len-items c.reqs, runs) refl, rw items after, only)
