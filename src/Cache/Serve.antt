-- ===== src/Cache/Serve.antt =====
-- src/cache/simt_cache.c: what the first loop of `simt_cache_clock` sends to the memory.
use gran.Prelude.{
  ℕ, ◌≡◌, ◌≢◌, ◌⊎◌, inl, inr, ◌/◌, ◌%◌, bit_or, true, false, not, ◌||◌, Option, none, some, arith,
  refl, ap, ◌∙◌, ◌==◌, length, length-set, Bool-cases, if◌then◌else◌,
}
use gran.Packet.{Packet, packet_read, is_set}
use gran.Packet.Forward.{IsForwarded}
use gran.Component.{Stat, ok, ebusy, is_ok, is_ebusy, Ptr, Env, send}
use gran.Component.Answer.{Answer, takes, refuses, fails, every-Answer}
use gran.Vec.{VecOps}
use gran.Cache.{all_ones, Req, SimtCache, put_req, shares, simt_cache_ext_send, serve_one}

-- The lane `i` reads what the lane `rr`, another one, has a read of under way.
pub record IsShared (rr i : ℕ) (shared r : Req) : Type 0 where
  pub busy : shared.reg.busy ≡ true
  pub shared_reads : is_set shared.reg.pkt packet_read ≡ true
  pub reads : is_set r.reg.pkt packet_read ≡ true
  pub place : r.reg.pkt.to ≡ shared.reg.pkt.to
  pub other : i ≢ rr

-- A request that no longer waits to be sent.
abbrev pub unqueued : Req → Req
unqueued r = record { reg = r.reg; queued = false }

module _ (L : VecOps Ptr) (Q : VecOps Req) (e : Env) (self : ℕ) where
  open e use {Rest}

  -- The lane may send: its port is the one of the block that it asks for, or it is its turn.
  abbrev pub HasPort : SimtCache L Q → ℕ → Req → Type 0
  HasPort c i r = (r.reg.pkt.to / 64 % length (Q.items c.reqs) ≡ i) ⊎ (c.rr ≡ i)

  -- The request waits to be sent, and not to share a read.
  abbrev pub IsDue : SimtCache L Q → ℕ → Req → Req → Type 0
  IsDue c i shared r = (r.queued ≡ true) × (r.reg.busy ≡ true) × (IsShared c.rr i shared r → ⊥)

  -- What a round does with the request `r` of lane `i`: the answer with which the clock returns at once, if
  -- it does, the cache and the environment after it.
  pub data Served (c : SimtCache L Q) (i : ℕ) (shared r : Req) (rest : Rest)
      : Option Stat → SimtCache L Q → Rest → Type 0 where
    idle : (r.queued ≡ false) ⊎ (r.reg.busy ≡ false) → Served c i shared r rest none c rest
    shares_read :
        r.queued ≡ true
        → r.reg.busy ≡ true
        → IsShared c.rr i shared r
        → Served c i shared r rest none (put_req L Q c i (unqueued r)) rest
    waits : IsDue c i shared r → (HasPort c i r → ⊥) → Served c i shared r rest none c rest
    sends :
        (sent : Packet) (rest' : Rest)
        → IsDue c i shared r
        → HasPort c i r
        → IsForwarded (bit_or c.rcv i) r.reg.pkt sent
        → send e self c.mem sent rest ≡ some (ok, rest')
        → Served c i shared r rest none (put_req L Q c i (unqueued r)) rest'
    refused :
        (sent : Packet) (rest' : Rest)
        → IsDue c i shared r
        → HasPort c i r
        → IsForwarded (bit_or c.rcv i) r.reg.pkt sent
        → send e self c.mem sent rest ≡ some (ebusy, rest')
        → Served c i shared r rest none c rest'
    failed :
        (sent : Packet) (ret : Stat) (rest' : Rest)
        → IsDue c i shared r
        → HasPort c i r
        → IsForwarded (bit_or c.rcv i) r.reg.pkt sent
        → send e self c.mem sent rest ≡ some (ret, rest')
        → (ret ≢ ok) × (ret ≢ ebusy)
        → Served c i shared r rest (some ret) c rest'

  -- The memory answers what is sent to it.
  abbrev pub MemAnswers : Ptr → Type 0
  MemAnswers mem =
      (pkt : Packet) (rest : Rest) → (o : Stat × Rest) × (send e self mem pkt rest ≡ some o)

  abbrev outgoing : SimtCache L Q → ℕ → Req → Packet
  outgoing c i r = record r.reg.pkt {
    mask = if is_set r.reg.pkt packet_read then all_ones else r.reg.pkt.mask;
    from = bit_or c.rcv i;
  }

  outgoing-IsForwarded :
      (c : SimtCache L Q) (i : ℕ) (r : Req)
      → IsForwarded (bit_or c.rcv i) r.reg.pkt (outgoing c i r)
  outgoing-IsForwarded c i r = record {
    from = refl;
    to = refl;
    all_bytes = λ h. rw h refl;
    own_bytes = λ h. rw h refl;
    timestamp = refl;
    payload = refl;
    flags = refl;
  }

  ext_send-outgoing :
      (c : SimtCache L Q) (i : ℕ) (r : Req) (rest : Rest)
      → r.reg.busy ≡ true
      → simt_cache_ext_send L Q e self c i r rest ≡ send e self c.mem (outgoing c i r) rest
  unfolding simt_cache_ext_send
  ext_send-outgoing c i r rest full = rw full refl

  shares-IsShared :
      (rr i : ℕ) (shared r : Req) → shares L Q rr shared i r ≡ true → IsShared rr i shared r
  shares-IsShared rr i shared r h = record {
    busy = ground arith;
    shared_reads = ground arith;
    reads = ground arith;
    place = ground arith;
    other = ground arith;
  }

  IsShared-shares :
      (rr i : ℕ) (shared r : Req) → shares L Q rr shared i r ≡ false → IsShared rr i shared r → ⊥
  IsShared-shares rr i shared r h s =
      ground (arith, s.busy, s.shared_reads, s.reads, s.place, s.other)

  -- What a round leaves as it is.
  abbrev pub Keeps : SimtCache L Q → SimtCache L Q → Type 0
  Keeps c c' =
      (c'.mem ≡ c.mem) × (c'.rr ≡ c.rr) × (length (Q.items c'.reqs) ≡ length (Q.items c.reqs))

  put_req-Keeps : (c : SimtCache L Q) (i : ℕ) (r : Req) → Keeps c (put_req L Q c i r)
  put_req-Keeps c i r =
      (refl, refl, ap length (Q.items-put c.reqs i r) ∙ length-set (Q.items c.reqs) i r)

  pub Served-Keeps :
      {c : SimtCache L Q} {i : ℕ} {shared r : Req} {rest : Rest} {stop : Option Stat}
      {c' : SimtCache L Q} {rest' : Rest}
      → Served c i shared r rest stop c' rest'
      → Keeps c c'
  Served-Keeps (idle h) = (refl, refl, refl)
  Served-Keeps {c} {i = i} {r = r} (shares_read h k s) = put_req-Keeps c i (unqueued r)
  Served-Keeps (waits h k) = (refl, refl, refl)
  Served-Keeps {c} {i = i} {r = r} (sends _ _ h k f s) = put_req-Keeps c i (unqueued r)
  Served-Keeps (refused _ _ h k f s) = (refl, refl, refl)
  Served-Keeps (failed _ _ _ h k f s n) = (refl, refl, refl)

  -- The round after the memory has answered.
  after_send :
      (c : SimtCache L Q) (i : ℕ) (shared r : Req) (rest rest' : Rest) (ret : Stat)
      → Answer ret
      → IsDue c i shared r
      → HasPort c i r
      → send e self c.mem (outgoing c i r) rest ≡ some (ret, rest')
      → (stop : Option Stat) × (c' : SimtCache L Q) × (◌≡◌ {A = Option Stat × SimtCache L Q × Rest}
          (if is_ok ret
            then (none, put_req L Q c i (unqueued r), rest')
            else if is_ebusy ret
            then (none, c, rest')
            else (some ret, c, rest'))
          (stop, c', rest'))
        × Served c i shared r rest stop c' rest'
  after_send c i shared r rest rest' ok takes due port sent = (
    none,
    put_req L Q c i (unqueued r),
    refl,
    sends (outgoing c i r) rest' due port (outgoing-IsForwarded c i r) sent,
  )
  after_send c i shared r rest rest' ebusy refuses due port sent =
      (none, c, refl, refused (outgoing c i r) rest' due port (outgoing-IsForwarded c i r) sent)
  after_send c i shared r rest rest' ret (fails a b) due port sent = (
    some ret,
    c,
    rw (a, b) refl,
    failed (outgoing c i r) ret rest' due port (outgoing-IsForwarded c i r) sent
        (λ same. cc, λ same. cc),
  )

  has_port :
      (c : SimtCache L Q) (i : ℕ) (r : Req)
      → (r.reg.pkt.to / 64 % Q.len c.reqs == i || c.rr == i) ≡ true
      → HasPort c i r
  has_port c i r h =
      let size : Q.len c.reqs ≡ length (Q.items c.reqs) = Q.len-items c.reqs in
      rw (← size) (ground arith)

  no_port :
      (c : SimtCache L Q) (i : ℕ) (r : Req)
      → (r.reg.pkt.to / 64 % Q.len c.reqs == i || c.rr == i) ≡ false
      → HasPort c i r
      → ⊥
  no_port c i r h =
      let size : Q.len c.reqs ≡ length (Q.items c.reqs) = Q.len-items c.reqs in
      rw (← size) (λ p. ground arith)

  due_round :
      (i : ℕ) (c : SimtCache L Q) (rest : Rest) (shared r : Req)
      → Q.at c.reqs c.rr ≡ some shared
      → Q.at c.reqs i ≡ some r
      → MemAnswers c.mem
      → (not r.queued || not r.reg.busy) ≡ false
      → shares L Q c.rr shared i r ≡ false
      → (stop : Option Stat) × (c' : SimtCache L Q) × (rest' : Rest) × (serve_one L Q e self c i
            rest
          ≡ some (stop, c', rest'))
        × Served c i shared r rest stop c' rest'
  unfolding serve_one
  due_round i c rest shared r at_rr at_i answers live alone =
      let due : IsDue c i shared r =
        (ground arith, ground arith, IsShared-shares c.rr i shared r alone) in
      elim (Bool-cases (r.reg.pkt.to / 64 % Q.len c.reqs == i || c.rr == i)) [
        | inl turn ↦
            let ((ret, rest'), sent) = answers (outgoing c i r) rest in
            let (stop, c', same, served) =
              after_send c i shared r rest rest' ret (every-Answer ret) due (has_port c i r turn)
                sent in
            (
              stop,
              c',
              rest',
              simp (at_rr, at_i, live, alone, turn, ext_send-outgoing c i r rest due.1, sent)
                  (ap some same),
              served,
            )
        | inr other ↦ (
          none,
          c,
          rest,
          simp (at_rr, at_i, live, alone, other) refl,
          waits due (no_port c i r other),
        )
      ]

  pub serve_one-Served :
      (i : ℕ) (c : SimtCache L Q) (rest : Rest) (shared r : Req)
      → Q.at c.reqs c.rr ≡ some shared
      → Q.at c.reqs i ≡ some r
      → MemAnswers c.mem
      → (stop : Option Stat) × (c' : SimtCache L Q) × (rest' : Rest) × (serve_one L Q e self c i
            rest
          ≡ some (stop, c', rest'))
        × Served c i shared r rest stop c' rest'
  unfolding serve_one
  serve_one-Served i c rest shared r at_rr at_i answers =
      elim (Bool-cases (not r.queued || not r.reg.busy)) [
        | inl rests ↦ (none, c, rest, simp (at_rr, at_i, rests) refl, idle (ground arith))
        | inr live ↦ elim (Bool-cases (shares L Q c.rr shared i r)) [
          | inl both ↦ (
            none,
            put_req L Q c i (unqueued r),
            rest,
            simp (at_rr, at_i, live, both) refl,
            shares_read (ground arith) (ground arith) (shares-IsShared c.rr i shared r both),
          )
          | inr alone ↦ due_round i c rest shared r at_rr at_i answers live alone
        ]
      ]
