-- ===== src/Simt/Request.antt =====
-- src/cpu/riscv/simt_riscv64.c: what the group does with the request of a lane.
use mathlib.Core.Bool.{true≢false}
use gran.Prelude.{
  ℕ, zero, suc, ◌≡◌, ◌≢◌, ◌+◌, ◌/◌, ◌^◌, ◌<◌, bit_or, inl, inr, Bool, true, false, ◌&&◌, some, List,
  [], ◌∷◌, arith, refl, sym, subst, ◌∙◌, ltb, ◌==◌, if◌then◌else◌, u32, get_elem?, Bool-cases,
  lt→ltb, some_inj,
}
use gran.Packet.{Packet, packet_read, is_set}
use gran.Packet.Forward.{IsForwarded}
use gran.Component.{Stat, ok, ebusy, is_ebusy, Env, send}
use gran.Component.Answer.{Answer, takes, refuses, fails, every-Answer}
use gran.Vec.{VecOps}
use gran.Simt.{
  LaneReq, Lane, Side, data_side, inst_side, ext_packet, waits_to_read, can_share, Simt, rcv_of,
  mem_of, intf_of, reqs_of, put_req, simt_riscv64_ext_send, pass_on, lane_request,
}

-- The request is under way, and reads from the address.
pub record IsReading (req : LaneReq) (to : ℕ) : Type 0 where
  pub busy : req.reg.busy ≡ true
  pub reads : is_set req.reg.pkt packet_read ≡ true
  pub place : req.reg.pkt.to ≡ to

waits_to_read-IsReading : (req : LaneReq) (to : ℕ) → waits_to_read req to ≡ true → IsReading req to
waits_to_read-IsReading req to h = record {
  busy = ground arith;
  reads = ground arith;
  place = ground arith;
}

IsReading-waits_to_read :
    (req : LaneReq) (to : ℕ) → waits_to_read req to ≡ false → IsReading req to → ⊥
IsReading-waits_to_read req to h r = ground (arith, r.busy, r.reads, r.place)

-- Another request, not at `self`, reads from the address.
abbrev pub IsAwaited : List LaneReq → ℕ → ℕ → Type 0
IsAwaited reqs self to =
    (j : ℕ) × (req : LaneReq) × (get_elem? reqs j ≡ some req) × (j ≢ self) × IsReading req to

ext_packet-IsForwarded :
    (rcv : ℕ) (pkt : Packet)
    → IsForwarded (bit_or rcv (u32 (pkt.from / 2 ^ 32))) pkt (ext_packet rcv pkt)
unfolding ext_packet
ext_packet-IsForwarded rcv pkt = record {
  from = refl;
  to = refl;
  all_bytes = λ h. rw h refl;
  own_bytes = λ h. rw h refl;
  timestamp = refl;
  payload = refl;
  flags = refl;
}

later_Awaited :
    (req : LaneReq) (reqs : List LaneReq) (i self to : ℕ)
    → ((j : ℕ) × (r : LaneReq) × (get_elem? reqs j ≡ some r)
        × (i + 1 + j ≢ self)
        × (waits_to_read r to ≡ true))
    → (j : ℕ) × (r : LaneReq) × (get_elem? (req ∷ reqs) j ≡ some r)
      × (i + j ≢ self)
      × (waits_to_read r to ≡ true)
later_Awaited req reqs i self to (j, r, read, ne, waits) =
    (suc j, r, read, omega (arith, ne), waits)

-- The loop finds a request exactly if there is one.
can_share-true :
    (reqs : List LaneReq) (i self to : ℕ)
    → can_share reqs i self to ≡ true
    → (j : ℕ) × (r : LaneReq) × (get_elem? reqs j ≡ some r)
      × (i + j ≢ self)
      × (waits_to_read r to ≡ true)
unfolding can_share
can_share-true [] i self to h = cc
can_share-true (req ∷ reqs) i self to h = elim (Bool-cases (i == self)) [
  | inl me ↦ later_Awaited req reqs i self to (can_share-true reqs (i + 1) self to (rw me at h))
  | inr other ↦ elim (Bool-cases (waits_to_read req to)) [
    | inl waits ↦ (0, req, refl, ground arith, waits)
    | inr idle ↦
        later_Awaited req reqs i self to
          (can_share-true reqs (i + 1) self to (rw (other, idle) at h))
  ]
]

can_share-false :
    (reqs : List LaneReq) (i self to : ℕ)
    → can_share reqs i self to ≡ false
    → (j : ℕ) (r : LaneReq) → get_elem? reqs j ≡ some r
    → i + j ≢ self
    → waits_to_read r to ≡ false
unfolding can_share
can_share-false [] i self to h j r read ne = cc
can_share-false (req ∷ reqs) i self to h zero r read ne = elim (Bool-cases (i == self)) [
  | inl me ↦ absurd (ne (ground arith))
  | inr other ↦ elim (Bool-cases (waits_to_read req to)) [
    | inl waits ↦ absurd (true≢false (rw (other, waits) at h))
    | inr idle ↦ subst (λ (t : LaneReq). waits_to_read t to ≡ false) (some_inj read) idle
  ]
]
can_share-false (req ∷ reqs) i self to h (suc j) r read ne = elim (Bool-cases (i == self)) [
  | inl me ↦ can_share-false reqs (i + 1) self to (rw me at h) j r read (omega (arith, ne))
  | inr other ↦ elim (Bool-cases (waits_to_read req to)) [
    | inl waits ↦ absurd (true≢false (rw (other, waits) at h))
    | inr idle ↦
        can_share-false reqs (i + 1) self to (rw (other, idle) at h) j r read (omega (arith, ne))
  ]
]

module _ (V : VecOps LaneReq) (W : VecOps Lane) (e : Env) where
  open e use {Rest}

  abbrev pub lane_of : Packet → ℕ
  lane_of pkt = u32 (pkt.from / 2 ^ 32)

  -- The group after the request of a lane was stored.
  abbrev pub stored : Simt V W → Side → Packet → Bool → Simt V W
  stored c side pkt queued =
      put_req V W c side (lane_of pkt)
        (record { reg = record { pkt = pkt; busy = true }; queued = queued })

  -- The group after the memory refused the request.
  abbrev pub queued_again : Simt V W → Side → Packet → Simt V W
  queued_again c side pkt =
      put_req V W (stored c side pkt false) side (lane_of pkt)
        (record { reg = record { pkt = pkt; busy = true }; queued = true })

  -- The packet is no read of an address that another lane has a read of under way.
  abbrev pub IsAlone : Simt V W → Side → Packet → Type 0
  IsAlone c side pkt =
      is_set pkt packet_read ≡ true
      → IsAwaited (V.items (reqs_of V W (stored c side pkt false) side)) (lane_of pkt) pkt.to
      → ⊥

  -- What can become of a packet of a lane: it is refused while the lane has a request under way; a read that
  -- another lane already waits for is stored only; anything else is stored and sent to the memory, and
  -- queued if that is busy.
  pub data Taken (c : Simt V W) (side : Side) (pkt : Packet) (req : LaneReq) (rest : Rest)
      : Stat → Simt V W → Rest → Type 0 where
    refused : req.reg.busy ≡ true → Taken c side pkt req rest ebusy c rest
    shared :
        req.reg.busy ≡ false
        → is_set pkt packet_read ≡ true
        → IsAwaited (V.items (reqs_of V W (stored c side pkt false) side)) (lane_of pkt) pkt.to
        → Taken c side pkt req rest ok (stored c side pkt false) rest
    passed :
        (sent : Packet) (r : Stat) (rest' : Rest)
        → req.reg.busy ≡ false
        → IsAlone c side pkt
        → IsForwarded (bit_or (rcv_of V W c side) (lane_of pkt)) pkt sent
        → send e (intf_of V W c side) (mem_of V W c side) sent rest ≡ some (r, rest')
        → r ≢ ebusy
        → Taken c side pkt req rest r (stored c side pkt false) rest'
    delayed :
        (sent : Packet) (rest' : Rest)
        → req.reg.busy ≡ false
        → IsAlone c side pkt
        → IsForwarded (bit_or (rcv_of V W c side) (lane_of pkt)) pkt sent
        → send e (intf_of V W c side) (mem_of V W c side) sent rest ≡ some (ebusy, rest')
        → Taken c side pkt req rest ebusy (queued_again c side pkt) rest'

  -- The memory answers what is sent to it.
  abbrev pub IsAnswered : Simt V W → Side → Rest → Type 0
  IsAnswered c side rest =
      (pkt : Packet)
      → (o : Stat × Rest) × (send e (intf_of V W c side) (mem_of V W c side) pkt rest ≡ some o)

  pass_on-run :
      (c : Simt V W) (side : Side) (pkt : Packet) (r : Stat) (rest rest' : Rest)
      → send e (intf_of V W c side) (mem_of V W c side) (ext_packet (rcv_of V W c side) pkt) rest
        ≡ some (r, rest')
      → pass_on V W e (stored c side pkt false) side (lane_of pkt) pkt rest
        ≡ some (r, if is_ebusy r then queued_again c side pkt else stored c side pkt false, rest')
  unfolding pass_on simt_riscv64_ext_send
  pass_on-run c data_side pkt r rest rest' sent = rw sent refl
  pass_on-run c inst_side pkt r rest rest' sent = rw sent refl

  pass_on-Taken :
      (c : Simt V W) (side : Side) (pkt : Packet) (req : LaneReq) (r : Stat) (rest rest' : Rest)
      → req.reg.busy ≡ false
      → IsAlone c side pkt
      → send e (intf_of V W c side) (mem_of V W c side) (ext_packet (rcv_of V W c side) pkt) rest
        ≡ some (r, rest')
      → Answer r
      → (c' : Simt V W) × (pass_on V W e (stored c side pkt false) side (lane_of pkt) pkt rest
          ≡ some (r, c', rest'))
        × Taken c side pkt req rest r c' rest'
  pass_on-Taken c side pkt req ok rest rest' free alone sent takes = (
    stored c side pkt false,
    pass_on-run c side pkt ok rest rest' sent,
    passed (ext_packet (rcv_of V W c side) pkt) ok rest' free alone
        (ext_packet-IsForwarded (rcv_of V W c side) pkt) sent (λ same. cc),
  )
  pass_on-Taken c side pkt req ebusy rest rest' free alone sent refuses = (
    queued_again c side pkt,
    pass_on-run c side pkt ebusy rest rest' sent,
    delayed (ext_packet (rcv_of V W c side) pkt) rest' free alone
        (ext_packet-IsForwarded (rcv_of V W c side) pkt) sent,
  )
  pass_on-Taken c side pkt req r rest rest' free alone sent (fails other b) = (
    stored c side pkt false,
    rw b at (pass_on-run c side pkt r rest rest' sent),
    passed (ext_packet (rcv_of V W c side) pkt) r rest' free alone
        (ext_packet-IsForwarded (rcv_of V W c side) pkt) sent (λ same. cc),
  )

  free_request :
      (c : Simt V W) (side : Side) (pkt : Packet) (req : LaneReq) (rest : Rest)
      → req.reg.busy ≡ false
      → IsAnswered c side rest
      → (ret : Stat) × (c' : Simt V W) × (rest' : Rest) × ((if is_set pkt packet_read
              && can_share
                  (V.items (reqs_of V W (stored c side pkt false) side))
                  0
                  (lane_of pkt)
                  pkt.to
            then some (ok, stored c side pkt false, rest)
            else pass_on V W e (stored c side pkt false) side (lane_of pkt) pkt rest)
          ≡ some (ret, c', rest'))
        × Taken c side pkt req rest ret c' rest'
  free_request c side pkt req rest free answers =
      let reqs = V.items (reqs_of V W (stored c side pkt false) side) in
      let ((r, rest'), sent) = answers (ext_packet (rcv_of V W c side) pkt) in
      let pass = λ (alone : IsAlone c side pkt).
        pass_on-Taken c side pkt req r rest rest' free alone sent (every-Answer r) in
      elim (Bool-cases (is_set pkt packet_read)) [
        | inr write ↦
            let (c', runs, taken) = pass (λ is_read a. true≢false (sym is_read ∙ write)) in
            (r, c', rest', rw write runs, taken)
        | inl is_read ↦ elim (Bool-cases (can_share reqs 0 (lane_of pkt) pkt.to)) [
          | inl share ↦ (
            ok,
            _,
            rest,
            rw (is_read, share) refl,
            shared free is_read (
                let (j, q, read, ne, waits) = can_share-true reqs 0 (lane_of pkt) pkt.to share in
                (j, q, read, omega (arith, ne), waits_to_read-IsReading q pkt.to waits)),
          )
          | inr alone ↦
              let (c', runs, taken) = pass (λ is_read (j, q, read, ne, reading).
                IsReading-waits_to_read q pkt.to
                  (can_share-false reqs 0 (lane_of pkt) pkt.to alone j q read (omega (arith, ne)))
                  reading) in
              (r, c', rest', rw (is_read, alone) runs, taken)
        ]
      ]

  -- A packet of a lane that the group has, while the memory answers: it is refused, and nothing changes, while
  -- the lane has a request under way; a read of an address that another lane has a read of under way is
  -- stored and nothing is sent; anything else is stored and sent to the memory once, to the same
  -- address, a read for all 64 bytes and a write for its own, to be answered at the receive address with
  -- the number of the lane, and the request is queued exactly if the memory is busy.
  pub lane_request-Taken :
      (c : Simt V W) (side : Side) (pkt : Packet) (req : LaneReq) (rest : Rest)
      → lane_of pkt < 2 ^ 31
      → V.at (reqs_of V W c side) (lane_of pkt) ≡ some req
      → IsAnswered c side rest
      → (ret : Stat) × (c' : Simt V W) × (rest' : Rest) × (lane_request V W e c side pkt rest
          ≡ some (ret, c', rest'))
        × Taken c side pkt req rest ret c' rest'
  unfolding lane_request
  lane_request-Taken c side pkt req rest small there answers =
      let inside : ltb (lane_of pkt) (2 ^ 31) ≡ true = lt→ltb (lane_of pkt) (2 ^ 31) small in
      elim (Bool-cases req.reg.busy) [
        | inl busy ↦ (ebusy, c, rest, simp (inside, there, busy) refl, refused busy)
        | inr free ↦
            let (ret, c', rest', runs, taken) = free_request c side pkt req rest free answers in
            (ret, c', rest', simp (inside, there, free) runs, taken)
      ]
