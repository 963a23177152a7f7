-- ===== src/Cache/Tidy.antt =====
-- src/cache/simt_cache.c: the requests of the lanes between two calls.
use native.Mathlib.Decide.{ℕ_discrete}
use gran.Prelude.{
  ℕ, zero, suc, ◌≡◌, ◌+◌, ◌<◌, Bool, true, false, not, ◌||◌, ◌%◌, Option, none, some, arith, refl,
  sym, ◌∙◌, subst, length, get_elem?, set, length-set, get_elem?-set_self, get_elem?-set_ne,
  lt_of_get_elem?, some_inj, none≢some, assert, if◌then◌else◌, Bool-cases, inl, inr, u32, ◌/◌, ◌^◌,
  ◌==◌,
}
use gran.Prelude.Outcome.{Holds, bind-Holds, bind_with-Holds, if-Holds}
use gran.Packet.{Packet, packet_read, packet_done, packet_error, is_set}
use gran.Component.{Stat, ok, ebusy, is_ok, is_ebusy, Ptr, Env, send}
use gran.Vec.{VecOps}
use gran.Mesh.{is_port}
use gran.Cache.{
  all_ones, Req, next_rr, SimtCache, put_req, shares, simt_cache_ext_send, serve_one, or_stop,
  serve, finish_clock, simt_cache_clock, waits_for, answer_one, answer_all, simt_cache_broadcast,
  answer_lane, simt_cache_handle_response, take_request, simt_cache_receive, advance,
}

module _ (L : VecOps Ptr) (Q : VecOps Req) where
  -- A request that waits to be sent is there.
  abbrev pub IsTidy : SimtCache L Q → Type 0
  IsTidy c =
      (i : ℕ) (r : Req)
      → get_elem? (Q.items c.reqs) i ≡ some r
      → r.queued ≡ true
      → r.reg.busy ≡ true

  put_req-IsTidy :
      (c : SimtCache L Q) (i : ℕ) (r : Req)
      → IsTidy c
      → (r.queued ≡ true → r.reg.busy ≡ true)
      → IsTidy (put_req L Q c i r)
  put_req-IsTidy c i r tidy new j s read waits =
      let read' : get_elem? (set (Q.items c.reqs) i r) j ≡ some s =
        subst (λ xs. get_elem? xs j ≡ some s) (Q.items-put c.reqs i r) read in
      elim (ℕ_discrete i j) [
        | yes same ↦
            let inside : j < length (Q.items c.reqs) = omega (
              arith,
              lt_of_get_elem? (set (Q.items c.reqs) i r) j s read',
              length-set (Q.items c.reqs) i r,
            ) in
            let there : get_elem? (set (Q.items c.reqs) i r) j ≡ some r =
              subst (λ (m : ℕ). get_elem? (set (Q.items c.reqs) m r) j ≡ some r) (sym same)
                (get_elem?-set_self (Q.items c.reqs) j r inside) in
            let held : r ≡ s = some_inj (sym there ∙ read') in
            subst (λ (q : Req). q.queued ≡ true → q.reg.busy ≡ true) held new waits
        | no other ↦ tidy j s (sym (get_elem?-set_ne (Q.items c.reqs) i j r other) ∙ read') waits
      ]

  module _ (e : Env) where
    open e use {Rest}

    abbrev AfterServe : Option Stat × SimtCache L Q × Rest → Type 0
    AfterServe out = IsTidy out.1

    abbrev pub After : Stat × SimtCache L Q × Rest → Type 0
    After out = IsTidy out.1

    after_send :
        (c : SimtCache L Q) (i : ℕ) (r : Req)
        → IsTidy c
        → (ret : Stat) (rest' : Rest)
        → AfterServe (
            if is_ok ret
            then (none, put_req L Q c i (record r { queued = false }), rest')
            else if is_ebusy ret
            then (none, c, rest')
            else (some ret, c, rest'))
    after_send c i r tidy ret rest' = elim (Bool-cases (is_ok ret)) [
      | inl b ↦ rw b (put_req-IsTidy c i (record r { queued = false }) tidy (λ q. absurd (cc)))
      | inr b ↦ elim (Bool-cases (is_ebusy ret)) [ inl d ↦ rw (b, d) tidy | inr d ↦ rw (b, d) tidy ]
    ]

    serve_one-IsTidy :
        (self : ℕ) (c : SimtCache L Q) (i : ℕ) (rest : Rest)
        → IsTidy c
        → Holds AfterServe (serve_one L Q e self c i rest)
    unfolding serve_one
    serve_one-IsTidy self c i rest tidy = bind-Holds AfterServe (Q.at c.reqs c.rr) _ (λ shared at.
        bind-Holds AfterServe (Q.at c.reqs i) _ (λ r read.
          if-Holds AfterServe (not r.queued || not r.reg.busy) _ _ (λ b. tidy)
            (λ b.
              if-Holds AfterServe (shares L Q c.rr shared i r) _ _
                (λ s. put_req-IsTidy c i (record r { queued = false }) tidy (λ q. absurd (cc)))
                (λ s.
                  if-Holds AfterServe (r.reg.pkt.to / 64 % Q.len c.reqs == i || c.rr == i) _ _
                    (λ t.
                      bind-Holds AfterServe (simt_cache_ext_send L Q e self c i r rest) _
                        (λ sent runs. after_send c i r tidy sent.0 sent.1))
                    (λ t. tidy)))))

    stop-IsTidy :
        (stop : Option Stat) (c : SimtCache L Q) (rest : Rest)
        (more : Option (Option Stat × SimtCache L Q × Rest))
        → IsTidy c
        → Holds AfterServe more
        → Holds AfterServe (or_stop L Q e stop c rest more)
    unfolding or_stop
    stop-IsTidy none c rest more kept go = go
    stop-IsTidy (some ret) c rest more kept go = kept

    serve-IsTidy :
        (self left : ℕ) (c : SimtCache L Q) (i : ℕ) (rest : Rest)
        → IsTidy c
        → Holds AfterServe (serve L Q e self left c i rest)
    unfolding serve
    serve-IsTidy self zero c i rest tidy = tidy
    serve-IsTidy self (suc left) c i rest tidy =
        bind_with-Holds AfterServe AfterServe (serve_one L Q e self c i rest) _
          (serve_one-IsTidy self c i rest tidy)
          (λ out kept.
            stop-IsTidy out.0 out.1 out.2 _ kept (serve-IsTidy self left out.1 (i + 1) out.2 kept))

    finish_clock-IsTidy :
        (stop : Option Stat) (c : SimtCache L Q) (rest : Rest)
        → IsTidy c
        → Holds After (finish_clock L Q e stop c rest)
    unfolding finish_clock
    finish_clock-IsTidy (some ret) c rest tidy = tidy
    finish_clock-IsTidy none c rest tidy = bind-Holds After (Q.at c.reqs c.rr) _ (λ shared at.
        if-Holds After shared.reg.busy _ _ (λ b. tidy)
          (λ b. bind-Holds After (advance L Q c.reqs (Q.len c.reqs) c.rr) _ (λ rr runs. tidy)))

    -- If every queued request is full, and a clock of the cache returns, every queued request is full after
    -- it.
    simt_cache_clock-IsTidy :
        (self : ℕ) (c : SimtCache L Q) (rest : Rest)
        → IsTidy c
        → Holds After (simt_cache_clock L Q e self c rest)
    unfolding simt_cache_clock
    simt_cache_clock-IsTidy self c rest tidy = bind-Holds After (Q.at c.reqs c.rr) _ (λ shared at.
        bind_with-Holds AfterServe After (serve L Q e self (Q.len c.reqs) c 0 rest) _
          (serve-IsTidy self (Q.len c.reqs) c 0 rest tidy)
          (λ out kept. finish_clock-IsTidy out.0 out.1 out.2 kept))

    abbrev AfterAnswer : Packet × SimtCache L Q × Rest → Type 0
    AfterAnswer out = IsTidy out.1

    answer_one-IsTidy :
        (self i : ℕ) (pkt : Packet) (c : SimtCache L Q) (rest : Rest)
        → IsTidy c
        → Holds AfterAnswer (answer_one L Q e self i pkt c rest)
    unfolding answer_one
    answer_one-IsTidy self i pkt c rest tidy = bind-Holds AfterAnswer (Q.at c.reqs i) _ (λ r read.
        if-Holds AfterAnswer (waits_for L Q e pkt.from r) _ _
          (λ b. bind-Holds AfterAnswer (L.at c.lanes i) _ (λ lane at.
            bind-Holds AfterAnswer
              (send e self lane (record pkt { mask = r.reg.pkt.mask; to = r.reg.pkt.from }) rest) _
              (λ sent runs. bind-Holds AfterAnswer (assert (is_ok sent.0)) _ (λ u fine.
                put_req-IsTidy c i
                  (record r { reg = record r.reg { busy = false }; queued = false }) tidy
                  (λ q. absurd (cc))))))
          (λ b. tidy))

    answer_all-IsTidy :
        (self left i : ℕ) (pkt : Packet) (c : SimtCache L Q) (rest : Rest)
        → IsTidy c
        → Holds AfterAnswer (answer_all L Q e self left i pkt c rest)
    unfolding answer_all
    answer_all-IsTidy self zero i pkt c rest tidy = tidy
    answer_all-IsTidy self (suc left) i pkt c rest tidy =
        bind_with-Holds AfterAnswer AfterAnswer (answer_one L Q e self i pkt c rest) _
          (answer_one-IsTidy self i pkt c rest tidy)
          (λ out kept. answer_all-IsTidy self left (i + 1) out.0 out.1 out.2 kept)

    no_assert : {A : Type 0} (b : Bool) {u : Unit {0}} → assert (not b) ≡ some u → b ≡ true → A
    no_assert true e h = absurd (none≢some e)
    no_assert false e h = absurd (cc)

    answer_lane-IsTidy :
        (self : ℕ) (pkt : Packet) (idx : ℕ) (c : SimtCache L Q) (rest : Rest)
        → IsTidy c
        → Holds After (answer_lane L Q e self pkt idx c rest)
    unfolding answer_lane
    answer_lane-IsTidy self pkt idx c rest tidy = bind-Holds After (Q.at c.reqs idx) _ (λ r read.
        bind-Holds After (assert (not r.queued)) _ (λ u idle.
          bind-Holds After (assert r.reg.busy) _ (λ u full.
            bind-Holds After (assert (r.reg.pkt.to == pkt.from)) _ (λ u mine.
              bind-Holds After (L.at c.lanes idx) _ (λ lane at.
                bind-Holds After
                  (send e self lane (record pkt { mask = r.reg.pkt.mask; to = r.reg.pkt.from })
                    rest)
                  _
                  (λ sent runs. bind-Holds After (assert (is_ok sent.0)) _ (λ u fine.
                    put_req-IsTidy c idx (record r { reg = record r.reg { busy = false } }) tidy
                      (λ q. no_assert r.queued idle q))))))))

    simt_cache_handle_response-IsTidy :
        (self : ℕ) (pkt : Packet) (c : SimtCache L Q) (rest : Rest)
        → IsTidy c
        → Holds After (simt_cache_handle_response L Q e self pkt c rest)
    unfolding simt_cache_handle_response simt_cache_broadcast
    simt_cache_handle_response-IsTidy self pkt c rest tidy =
        bind-Holds After (assert (not (is_set pkt packet_error))) _ (λ u a.
          bind-Holds After (assert (is_set pkt packet_done)) _ (λ u b.
            bind-Holds After (assert (not (is_set pkt packet_read) || pkt.mask == all_ones)) _
              (λ u d.
                if-Holds After (c.rr == u32 pkt.to) _ _
                  (λ mine. bind-Holds After (next_rr (Q.len c.reqs) c.rr) _ (λ rr runs.
                    if-Holds After (is_set pkt packet_read) _ _
                      (λ read. bind-Holds After (assert (is_set pkt packet_read)) _ (λ u f.
                        bind_with-Holds AfterAnswer After
                          (answer_all L Q e self (Q.len c.reqs) 0 pkt (record c { rr = rr }) rest) _
                          (answer_all-IsTidy self (Q.len c.reqs) 0 pkt (record c { rr = rr }) rest
                            tidy)
                          (λ out kept. kept)))
                      (λ write.
                        answer_lane-IsTidy self pkt (u32 pkt.to) (record c { rr = rr }) rest tidy)))
                  (λ other. answer_lane-IsTidy self pkt (u32 pkt.to) c rest tidy))))

    -- Where queued requests are full, a packet of a lane that is connected and has a request record is taken,
    -- or refused with `EBUSY` while the lane has a request under way; no assertion fails.
    pub take_request-runs :
        (from : ℕ) (pkt : Packet) (c : SimtCache L Q) (r : Req)
        → IsTidy c
        → L.at c.lanes (u32 (pkt.from / 2 ^ 32)) ≡ some (some from)
        → Q.at c.reqs (u32 (pkt.from / 2 ^ 32)) ≡ some r
        → take_request L Q e from pkt c
          ≡ some (
              if r.reg.busy then (ebusy, c) else (
                ok,
                put_req L Q c
                    (u32 (pkt.from / 2 ^ 32))
                    (record { reg = record { pkt = pkt; busy = true }; queued = true }),
              ))
    unfolding take_request
    take_request-runs from pkt c r tidy lane here =
        let mine : is_port from (some from) ≡ true = ground arith in
        let listed : get_elem? (Q.items c.reqs) (u32 (pkt.from / 2 ^ 32)) ≡ some r =
          sym (Q.at-items c.reqs (u32 (pkt.from / 2 ^ 32))) ∙ here in
        elim (Bool-cases r.reg.busy) [
          | inl full ↦ rw (lane, mine, here, full) refl
          | inr free ↦ elim (Bool-cases r.queued) [
            | inl waits ↦ let full = tidy (u32 (pkt.from / 2 ^ 32)) r listed waits in absurd (cc)
            | inr idle ↦ rw (lane, mine, here, free, idle) refl
          ]
        ]

    take_request-IsTidy :
        (from : ℕ) (pkt : Packet) (c : SimtCache L Q)
        → IsTidy c
        → Holds (λ (out : Stat × SimtCache L Q). IsTidy out.1) (take_request L Q e from pkt c)
    unfolding take_request
    take_request-IsTidy from pkt c tidy =
        bind-Holds (λ out. IsTidy out.1) (L.at c.lanes (u32 (pkt.from / 2 ^ 32))) _
          (λ lane at.
            if-Holds (λ out. IsTidy out.1) (not (is_port from lane)) _ _ (λ b. tidy)
              (λ b.
                bind-Holds (λ out. IsTidy out.1) (Q.at c.reqs (u32 (pkt.from / 2 ^ 32))) _
                  (λ r read.
                    if-Holds (λ out. IsTidy out.1) r.reg.busy _ _ (λ full. tidy)
                      (λ free.
                        bind-Holds (λ out. IsTidy out.1) (assert (not r.queued)) _
                          (λ u idle.
                            put_req-IsTidy c (u32 (pkt.from / 2 ^ 32))
                              (record { reg = record { pkt = pkt; busy = true }; queued = true })
                              tidy (λ q. refl))))))

    -- If every queued request is full, and the cache takes or refuses a packet of a lane or of the memory
    -- without a fault, every queued request is full after it.
    pub simt_cache_receive-IsTidy :
        (self from : ℕ) (pkt : Packet) (c : SimtCache L Q) (rest : Rest)
        → IsTidy c
        → Holds After (simt_cache_receive L Q e self from pkt c rest)
    unfolding simt_cache_receive
    simt_cache_receive-IsTidy self from pkt c rest tidy =
        if-Holds After (is_port from c.mem) _ _
          (λ m. simt_cache_handle_response-IsTidy self pkt c rest tidy)
          (λ m.
            bind_with-Holds (λ (out : Stat × SimtCache L Q). IsTidy out.1) After
              (take_request L Q e from pkt c) _ (take_request-IsTidy from pkt c tidy)
              (λ out kept. kept))
