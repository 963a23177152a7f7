-- ===== src/Tests/Caches.antt =====
-- The cache at concrete inputs.
use gran.Prelude.{
  ℕ, zero, suc, ◌≡◌, ◌*◌, ◌^◌, true, false, some, List, [], ◌∷◌, arith, refl, some_inj, none≢some,
}
use gran.Prelude.Outcome.{Holds}
use gran.Packet.{Packet, packet_read, is_set}
use gran.Component.{Stat, ok, Ptr, send}
use gran.Reg.{empty_reg}
use gran.Reg.Propagate.{full_reg}
use gran.Vec.{list_vec}
use gran.Cache.{
  Req, SimtCache, take_request, simt_cache_clock, simt_cache_receive, simt_cache_broadcast, put_req,
}
use gran.Cache.Tidy.{IsTidy, After, take_request-runs, simt_cache_receive-IsTidy}
use gran.Cache.Broadcast.{
  Listens, AllListen, Broadcast, OnlyRequests, simt_cache_broadcast-Broadcast,
}
use gran.Cache.Serve.{MemAnswers}
use gran.Cache.Cycle.{Clocked, simt_cache_clock-Clocked}
use gran.Tests.Setup.{mailbox, letter}

abbrev question : Packet
question = record (letter 64) { flags = packet_read; from = 3 }

abbrev memory_response : Packet
memory_response = record (letter 0) { flags = packet_read; from = 64 }

-- Two lanes that read one address, of which the first was sent.
abbrev cache : SimtCache (list_vec Ptr) (list_vec Req)
cache = record {
  mem = some 8;
  lanes = some 3 ∷ some 4 ∷ some 5 ∷ [];
  reqs =
      record { reg = full_reg question; queued = false }
      ∷ record { reg = full_reg question; queued = true }
      ∷ record { reg = empty_reg; queued = false }
      ∷ [];
  rcv = 2 ^ 40;
  rr = 0;
}

cache-IsTidy : IsTidy (list_vec Ptr) (list_vec Req) cache
cache-IsTidy zero r e q = rw (← some_inj e) refl
cache-IsTidy (suc zero) r e q = rw (← some_inj e) refl
cache-IsTidy (suc (suc zero)) r e q = absurd (cc)
cache-IsTidy (suc (suc (suc i))) r e q = absurd (none≢some e)

lane-Listens : (to : ℕ) → Listens (list_vec Ptr) (list_vec Req) mailbox 9 (some to)
unfolding send
lane-Listens to pkt rest = (pkt ∷ rest, refl)

cache-AllListen : AllListen (list_vec Ptr) (list_vec Req) mailbox 9 cache
cache-AllListen zero h = (some 3, refl, lane-Listens 3)
cache-AllListen (suc zero) h = (some 4, refl, lane-Listens 4)
cache-AllListen (suc (suc zero)) h = (some 5, refl, lane-Listens 5)
cache-AllListen (suc (suc (suc i))) h = absurd (omega arith)

simt_cache_receive-IsTidy_example :
    Holds
      (After (list_vec Ptr) (list_vec Req) mailbox)
      (simt_cache_receive (list_vec Ptr) (list_vec Req) mailbox 9 3 question cache [])
simt_cache_receive-IsTidy_example =
    simt_cache_receive-IsTidy (list_vec Ptr) (list_vec Req) mailbox 9 3 question cache []
      cache-IsTidy

-- A request of the lane 2, which has none under way.
abbrev of_lane : Packet
of_lane = record question { from = 2 * 2 ^ 32 }

take_request-runs_example :
    take_request (list_vec Ptr) (list_vec Req) mailbox 5 of_lane cache
    ≡ some (
      ok,
      put_req
          (list_vec Ptr)
          (list_vec Req)
          cache
          2
          (record { reg = full_reg of_lane; queued = true }),
    )
take_request-runs_example =
    take_request-runs (list_vec Ptr) (list_vec Req) mailbox 5 of_lane cache
      (record { reg = empty_reg; queued = false }) cache-IsTidy refl refl

simt_cache_broadcast-Broadcast_example :
    (c' : SimtCache (list_vec Ptr) (list_vec Req)) × (rest' : List Packet) × (simt_cache_broadcast
        (list_vec Ptr)
        (list_vec Req)
        mailbox
        9
        memory_response
        cache
        []
      ≡ some (ok, c', rest'))
    × Broadcast
        (list_vec Ptr)
        (list_vec Req)
        mailbox
        9
        cache.lanes
        memory_response
        0
        cache.reqs
        []
        c'.reqs
        rest'
    × OnlyRequests (list_vec Ptr) (list_vec Req) mailbox 9 cache c'
unfolding is_set
simt_cache_broadcast-Broadcast_example =
    simt_cache_broadcast-Broadcast (list_vec Ptr) (list_vec Req) mailbox 9 memory_response cache []
      refl cache-AllListen

-- The memory takes what the cache sends.
cache-MemAnswers : MemAnswers (list_vec Ptr) (list_vec Req) mailbox 9 cache.mem
unfolding send
cache-MemAnswers pkt rest = ((ok, pkt ∷ rest), refl)

simt_cache_clock-Clocked_example :
    (ret : Stat) × (c' : SimtCache (list_vec Ptr) (list_vec Req)) × (rest' : List Packet)
    × (simt_cache_clock (list_vec Ptr) (list_vec Req) mailbox 9 cache [] ≡ some (ret, c', rest'))
    × Clocked (list_vec Ptr) (list_vec Req) mailbox 9 cache [] ret c' rest'
simt_cache_clock-Clocked_example =
    simt_cache_clock-Clocked (list_vec Ptr) (list_vec Req) mailbox 9 cache [] (omega arith)
      (omega arith) cache-MemAnswers
