-- ===== src/Cache/Cycle.antt =====
-- src/cache/simt_cache.c: the whole of `simt_cache_clock`.
use native.Mathlib.Nat.{mod-eq_of_lt, mod-lt}
use gran.Prelude.{
  ℕ, zero, suc, ◌≡◌, ◌+◌, ◌%◌, ◌^◌, ◌<◌, true, false, Option, none, some, List, arith, refl, ap,
  sym, ◌∙◌, subst, ◌==◌, length, get_elem?, get_elem?-some, Bool-cases, inl, inr, u32,
}
use gran.Component.{Stat, ok, Ptr, Env}
use gran.Vec.{VecOps}
use gran.Cache.{
  Req, next_rr, SimtCache, advance, serve_one, or_stop, serve, finish_clock, simt_cache_clock,
}
use gran.Cache.Serve.{Served, MemAnswers, Keeps, Served-Keeps, serve_one-Served}

-- Where the turn goes from the lane `rr`, in at most the given number of moves around the lanes: to the
-- first lane with a request under way, or to the last one that is looked at.
pub data Turn (reqs : List Req) : ℕ → ℕ → ℕ → Type 0 where
  nobody : {rr : ℕ} → Turn reqs 0 rr rr
  found :
      {left rr : ℕ} (r : Req)
      → get_elem? reqs ((rr + 1) % length reqs) ≡ some r
      → r.reg.busy ≡ true
      → Turn reqs (suc left) rr ((rr + 1) % length reqs)
  passed :
      {left rr rr' : ℕ} (r : Req)
      → get_elem? reqs ((rr + 1) % length reqs) ≡ some r
      → r.reg.busy ≡ false
      → Turn reqs left ((rr + 1) % length reqs) rr'
      → Turn reqs (suc left) rr rr'

next_rr-runs : (n rr : ℕ) → rr < n → n < 2 ^ 32 → next_rr n rr ≡ some ((rr + 1) % n)
unfolding next_rr
next_rr-runs n rr h small =
    let some_lanes : (n == 0) ≡ false = ground arith in
    let whole : u32 (rr + 1) ≡ rr + 1 = mod-eq_of_lt {n = rr + 1} {m = 2 ^ 32} (omega arith) in
    let bound : (rr + 1) % n < n = mod-lt (rr + 1) (omega arith) in
    let inside : u32 ((rr + 1) % n) ≡ (rr + 1) % n =
      mod-eq_of_lt {n = (rr + 1) % n} {m = 2 ^ 32} (omega (arith, bound)) in
    rw (some_lanes, whole, inside) refl

module _ (L : VecOps Ptr) (Q : VecOps Req) where
  advance-Turn :
      (reqs : Q.Vec) (left rr : ℕ)
      → rr < length (Q.items reqs)
      → length (Q.items reqs) < 2 ^ 32
      → (rr' : ℕ) × (advance L Q reqs left rr ≡ some rr') × Turn (Q.items reqs) left rr rr'
  unfolding advance
  advance-Turn reqs zero rr h small = (rr, refl, nobody)
  advance-Turn reqs (suc left) rr h small =
      let n = length (Q.items reqs) in
      let size : Q.len reqs ≡ n = Q.len-items reqs in
      let next : next_rr (Q.len reqs) rr ≡ some ((rr + 1) % n) =
        rw size (next_rr-runs n rr h small) in
      let inside : (rr + 1) % n < n = mod-lt (rr + 1) (omega arith) in
      let (r, read) = get_elem?-some (Q.items reqs) ((rr + 1) % n) inside in
      let there : Q.at reqs ((rr + 1) % n) ≡ some r = Q.at-items reqs ((rr + 1) % n) ∙ read in
      let (rr', runs, turn) = advance-Turn reqs left ((rr + 1) % n) inside small in
      elim (Bool-cases r.reg.busy) [
        | inl busy ↦ ((rr + 1) % n, simp (next, there, busy) refl, found r read busy)
        | inr free ↦ (rr', simp (next, there, free) runs, passed r read free turn)
      ]

  module _ (e : Env) (self : ℕ) where
    open e use {Rest}

    -- The rounds over the requests from lane `i` on, up to one whose answer the clock returns.
    pub data Pass : ℕ → ℕ → SimtCache L Q → Rest → Option Stat → SimtCache L Q → Rest → Type 0 where
      finished : {i : ℕ} {c : SimtCache L Q} {rest : Rest} → Pass 0 i c rest none c rest
      round :
          {left i : ℕ} {c c₁ c' : SimtCache L Q} {rest rest₁ rest' : Rest} {stop : Option Stat}
          (shared r : Req)
          → get_elem? (Q.items c.reqs) c.rr ≡ some shared
          → get_elem? (Q.items c.reqs) i ≡ some r
          → Served L Q e self c i shared r rest none c₁ rest₁
          → Pass left (i + 1) c₁ rest₁ stop c' rest'
          → Pass (suc left) i c rest stop c' rest'
      stopped :
          {left i : ℕ} {c c' : SimtCache L Q} {rest rest' : Rest} {ret : Stat} (shared r : Req)
          → get_elem? (Q.items c.reqs) c.rr ≡ some shared
          → get_elem? (Q.items c.reqs) i ≡ some r
          → Served L Q e self c i shared r rest (some ret) c' rest'
          → Pass (suc left) i c rest (some ret) c' rest'

    Keeps-trans :
        (c c₁ c₂ : SimtCache L Q)
        → Keeps L Q e self c c₁
        → Keeps L Q e self c₁ c₂
        → Keeps L Q e self c c₂
    Keeps-trans c c₁ c₂ h k = (k.0 ∙ h.0, k.1 ∙ h.1, k.2 ∙ h.2)

    serve-Pass :
        (left i : ℕ) (c : SimtCache L Q) (rest : Rest)
        → c.rr < length (Q.items c.reqs)
        → i + left ≡ length (Q.items c.reqs)
        → MemAnswers L Q e self c.mem
        → (stop : Option Stat) × (c' : SimtCache L Q) × (rest' : Rest) × (serve L Q e self left c i
              rest
            ≡ some (stop, c', rest'))
          × Pass left i c rest stop c' rest'
          × Keeps L Q e self c c'
    unfolding serve or_stop
    serve-Pass zero i c rest at_turn size answers =
        (none, c, rest, refl, finished, (refl, refl, refl))
    serve-Pass (suc left) i c rest at_turn size answers =
        let (shared, here) = get_elem?-some (Q.items c.reqs) c.rr at_turn in
        let (r, there) = get_elem?-some (Q.items c.reqs) i (omega (arith, size)) in
        let (stop, c₁, rest₁, runs, served) =
          serve_one-Served L Q e self i c rest shared r (Q.at-items c.reqs c.rr ∙ here)
            (Q.at-items c.reqs i ∙ there) answers in
        after_round left i c c₁ rest rest₁ shared r stop here there runs served
          (Served-Keeps L Q e self served)
          (λ k.
            serve-Pass left (i + 1) c₁ rest₁ (omega (arith, k.1, k.2, at_turn))
              (omega (arith, k.2, size)) (subst (MemAnswers L Q e self) (sym k.0) answers))
      where
        after_round :
            (left i : ℕ) (c c₁ : SimtCache L Q) (rest rest₁ : Rest) (shared r : Req)
            (stop : Option Stat)
            → get_elem? (Q.items c.reqs) c.rr ≡ some shared
            → get_elem? (Q.items c.reqs) i ≡ some r
            → serve_one L Q e self c i rest ≡ some (stop, c₁, rest₁)
            → Served L Q e self c i shared r rest stop c₁ rest₁
            → Keeps L Q e self c c₁
            → (Keeps L Q e self c c₁
                → (stop' : Option Stat) × (c' : SimtCache L Q) × (rest' : Rest) × (serve L Q e self
                      left c₁
                      (i + 1)
                      rest₁
                    ≡ some (stop', c', rest'))
                  × Pass left (i + 1) c₁ rest₁ stop' c' rest'
                  × Keeps L Q e self c₁ c')
            → (stop' : Option Stat) × (c' : SimtCache L Q) × (rest' : Rest) × (serve L Q e self
                  (suc left)
                  c
                  i
                  rest
                ≡ some (stop', c', rest'))
              × Pass (suc left) i c rest stop' c' rest'
              × Keeps L Q e self c c'
        after_round left i c c₁ rest rest₁ shared r none here there runs served kept more =
            let (stop', c', rest', runs', pass, kept') = more kept in
            (
              stop',
              c',
              rest',
              rw runs runs',
              round shared r here there served pass,
              Keeps-trans c c₁ c' kept kept',
            )
        after_round left i c c₁ rest rest₁ shared r (some ret) here there runs served kept more =
            (some ret, c₁, rest₁, rw runs refl, stopped shared r here there served, kept)

    -- What a clock does: it serves the requests, and returns at once if the memory fails; otherwise the lane
    -- whose turn it is keeps it while its request is under way, and else the turn moves on.
    pub data Clocked (c : SimtCache L Q) (rest : Rest) : Stat → SimtCache L Q → Rest → Type 0 where
      fails :
          {ret : Stat} {c' : SimtCache L Q} {rest' : Rest}
          → Pass (length (Q.items c.reqs)) 0 c rest (some ret) c' rest'
          → Clocked c rest ret c' rest'
      keeps_turn :
          {c' : SimtCache L Q} {rest' : Rest} (shared : Req)
          → Pass (length (Q.items c.reqs)) 0 c rest none c' rest'
          → get_elem? (Q.items c'.reqs) c.rr ≡ some shared
          → shared.reg.busy ≡ true
          → Clocked c rest ok c' rest'
      passes_turn :
          {c' : SimtCache L Q} {rest' : Rest} (shared : Req) (rr' : ℕ)
          → Pass (length (Q.items c.reqs)) 0 c rest none c' rest'
          → get_elem? (Q.items c'.reqs) c.rr ≡ some shared
          → shared.reg.busy ≡ false
          → Turn (Q.items c'.reqs) (length (Q.items c.reqs)) c.rr rr'
          → Clocked c rest ok (record c' { rr = rr' }) rest'

    finish_clock-Clocked :
        (c c' : SimtCache L Q) (rest rest' : Rest) (stop : Option Stat)
        → c.rr < length (Q.items c.reqs)
        → length (Q.items c.reqs) < 2 ^ 32
        → Pass (length (Q.items c.reqs)) 0 c rest stop c' rest'
        → Keeps L Q e self c c'
        → (ret : Stat) × (c'' : SimtCache L Q) × (finish_clock L Q e stop c' rest'
            ≡ some (ret, c'', rest'))
          × Clocked c rest ret c'' rest'
    unfolding finish_clock
    finish_clock-Clocked c c' rest rest' (some ret) at_turn small pass kept =
        (ret, c', refl, fails pass)
    finish_clock-Clocked c c' rest rest' none at_turn small pass kept =
        let inside : c.rr < length (Q.items c'.reqs) = omega (arith, kept.2, at_turn) in
        let (shared, read) = get_elem?-some (Q.items c'.reqs) c.rr inside in
        let there : Q.at c'.reqs c'.rr ≡ some shared =
          ap (Q.at c'.reqs) kept.1 ∙ Q.at-items c'.reqs c.rr ∙ read in
        elim (Bool-cases shared.reg.busy) [
          | inl busy ↦ (ok, c', simp (there, busy) refl, keeps_turn shared pass read busy)
          | inr free ↦
              let (rr', runs, turn) =
                advance-Turn c'.reqs (length (Q.items c.reqs)) c.rr inside
                  (omega (arith, kept.2, small)) in
              let moved : advance L Q c'.reqs (Q.len c'.reqs) c'.rr ≡ some rr' =
                rw (kept.1, Q.len-items c'.reqs, kept.2) runs in
              (
                ok,
                record c' { rr = rr' },
                simp (there, free, moved) refl,
                passes_turn shared rr' pass read free turn,
              )
        ]

    -- A clock of a cache whose turn is at one of its lanes, fewer than 2^32, and whose memory answers, returns.
    -- In the order of the lanes, a request that is under way and queued is taken off the queue if it is a
    -- read of an address that the lane with the turn, another one, has a read of under way; otherwise, if
    -- its block has the port of the lane or it is the lane's turn, it is sent to the memory once, a read
    -- for all 64 bytes, to be answered at the lane's receive address; it is taken off the queue if the
    -- memory takes it, stays if that is busy, and any other answer is returned at once. Every other
    -- request stays as it is. Then, if the lane with the turn has no request under way, the turn goes to
    -- the next lane that has one, or once around if there is none.
    pub simt_cache_clock-Clocked :
        (c : SimtCache L Q) (rest : Rest)
        → c.rr < length (Q.items c.reqs)
        → length (Q.items c.reqs) < 2 ^ 32
        → MemAnswers L Q e self c.mem
        → (ret : Stat) × (c' : SimtCache L Q) × (rest' : Rest) × (simt_cache_clock L Q e self c rest
            ≡ some (ret, c', rest'))
          × Clocked c rest ret c' rest'
    unfolding simt_cache_clock
    simt_cache_clock-Clocked c rest at_turn small answers =
        let (shared, read) = get_elem?-some (Q.items c.reqs) c.rr at_turn in
        let there : Q.at c.reqs c.rr ≡ some shared = Q.at-items c.reqs c.rr ∙ read in
        let (stop, c₁, rest₁, runs, pass, kept) =
          serve-Pass (length (Q.items c.reqs)) 0 c rest at_turn (omega arith) answers in
        let (ret, c', ends, clocked) =
          finish_clock-Clocked c c₁ rest rest₁ stop at_turn small pass kept in
        let served : serve L Q e self (Q.len c.reqs) c 0 rest ≡ some (stop, c₁, rest₁) =
          rw (Q.len-items c.reqs) runs in
        (ret, c', rest₁, simp (there, served) ends, clocked)
