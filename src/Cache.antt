-- ===== src/Cache.antt =====
-- src/cache/simt_cache.c: a cache of no lines between the lanes of a processor and a memory: one request
-- for each lane, and reads of one address that are answered together.
pub mod Tidy
pub mod Broadcast
pub mod Serve
pub mod Cycle
use gran.Prelude.{
  ℕ, zero, suc, ◌+◌, ◌-◌, ◌/◌, ◌%◌, ◌^◌, bit_or, Bool, true, false, not, ◌&&◌, ◌||◌, Option, none,
  some, List, [], ◌∷◌, ◌==◌, if◌then◌else◌, ◌>>=◌, ◌>>◌, assert, u32,
}
use gran.Packet.{Packet, packet_read, packet_done, packet_error, is_set}
use gran.Component.{Stat, ok, ebusy, enosuch, is_ok, is_ebusy, Ptr, Env, send}
use gran.Reg.{Reg, empty_reg}
use gran.Vec.{VecOps}
use gran.Mesh.{is_port}

pub record Req : Type 0 where
  pub reg : Reg
  pub queued : Bool

abbrev pub all_ones : ℕ
all_ones = 2 ^ 64 - 1

-- The round robin's next place; the modulus must not be 0.
unfoldable pub next_rr : ℕ → ℕ → Option ℕ
next_rr len rr = do assert (not (len == 0)); some (u32 (u32 (rr + 1) % len))

module _ (L : VecOps Ptr) (Q : VecOps Req) where
  pub record SimtCache : Type 0 where
    pub mem : Ptr
    pub lanes : L.Vec
    pub reqs : Q.Vec
    pub rcv : ℕ
    pub rr : ℕ

  -- The loop of `create_simt_cache`.
  unfoldable pub fill : ℕ → L.Vec → Q.Vec → L.Vec × Q.Vec
  fill zero lanes reqs = (lanes, reqs)
  fill (suc left) lanes reqs =
      fill left (L.append lanes none) (Q.append reqs (record { reg = empty_reg; queued = false }))

  unfoldable pub create_simt_cache : ℕ → ℕ → Ptr → SimtCache
  create_simt_cache rcv num_lanes mem =
      let (lanes, reqs) = fill num_lanes (L.create num_lanes) (Q.create num_lanes) in
      record { mem = mem; lanes = lanes; reqs = reqs; rcv = rcv; rr = 0 }

  -- A write through the pointer to a lane that is not there is a fault.
  unfoldable pub simt_cache_connect_lane : SimtCache → ℕ → Ptr → Option SimtCache
  simt_cache_connect_lane c i component = do
    old ← L.at c.lanes i
    some (record c { lanes = L.put c.lanes i component })

  -- The request of lane `i`, changed.
  abbrev pub put_req : SimtCache → ℕ → Req → SimtCache
  put_req c i r = record c { reqs = Q.put c.reqs i r }

  -- The loop at the end of `simt_cache_clock`.
  unfoldable pub advance : Q.Vec → ℕ → ℕ → Option ℕ
  advance reqs zero rr = some rr
  advance reqs (suc left) rr = do
    rr' ← next_rr (Q.len reqs) rr
    r ← Q.at reqs rr'
    let more = advance reqs left rr'
    if r.reg.busy then some rr' else more

  -- Whether the read of the shared register answers the request `r` of lane `i` too.
  abbrev pub shares : ℕ → Req → ℕ → Req → Bool
  shares rr shared i r =
      shared.reg.busy
      && (is_set shared.reg.pkt packet_read
          && (is_set r.reg.pkt packet_read && (r.reg.pkt.to == shared.reg.pkt.to && not (i == rr))))

  module _ (e : Env) where
    open e use {Rest}

    unfoldable pub simt_cache_ext_send : ℕ → SimtCache → ℕ → Req → Rest → Option (Stat × Rest)
    simt_cache_ext_send self c i r rest = do
      assert r.reg.busy
      let mask = if is_set r.reg.pkt packet_read then all_ones else r.reg.pkt.mask
      send e self c.mem (record r.reg.pkt { mask = mask; from = bit_or c.rcv i }) rest

    -- One round of the first loop of `simt_cache_clock`: the result that the clock returns at once, if it
    -- does.
    unfoldable pub serve_one : ℕ → SimtCache → ℕ → Rest → Option (Option Stat × SimtCache × Rest)
    serve_one self c i rest = do
      shared ← Q.at c.reqs c.rr
      r ← Q.at c.reqs i
      if not r.queued || not r.reg.busy
          then some (none, c, rest)
          else if shares c.rr shared i r
          then some (none, put_req c i (record r { queued = false }), rest)
          else if r.reg.pkt.to / 64 % Q.len c.reqs == i || c.rr == i
          then (do
            (ret, rest') ← simt_cache_ext_send self c i r rest
            some (
                if is_ok ret
                then (none, put_req c i (record r { queued = false }), rest')
                else if is_ebusy ret
                then (none, c, rest')
                else (some ret, c, rest')))
          else some (none, c, rest)

    unfoldable pub or_stop :
        Option Stat
        → SimtCache
        → Rest
        → Option (Option Stat × SimtCache × Rest)
        → Option (Option Stat × SimtCache × Rest)
    or_stop none c rest more = more
    or_stop (some ret) c rest more = some (some ret, c, rest)

    unfoldable pub serve : ℕ → ℕ → SimtCache → ℕ → Rest → Option (Option Stat × SimtCache × Rest)
    serve self zero c i rest = some (none, c, rest)
    serve self (suc left) c i rest = do
      (stop, c', rest') ← serve_one self c i rest
      or_stop stop c' rest' (serve self left c' (i + 1) rest')

    -- The end of `simt_cache_clock`, after its first loop.
    unfoldable pub finish_clock : Option Stat → SimtCache → Rest → Option (Stat × SimtCache × Rest)
    finish_clock (some ret) c rest = some (ret, c, rest)
    finish_clock none c rest = do
      shared ← Q.at c.reqs c.rr
      if shared.reg.busy
          then some (ok, c, rest)
          else (do rr ← advance c.reqs (Q.len c.reqs) c.rr; some (ok, record c { rr = rr }, rest))

    unfoldable pub simt_cache_clock : ℕ → SimtCache → Rest → Option (Stat × SimtCache × Rest)
    simt_cache_clock self c rest = do
      shared ← Q.at c.reqs c.rr
      (stop, c', rest') ← serve self (Q.len c.reqs) c 0 rest
      finish_clock stop c' rest'

    -- Whether the response with the address `addr` answers the request.
    abbrev pub waits_for : ℕ → Req → Bool
    waits_for addr r = r.reg.busy && (r.reg.pkt.to == addr && is_set r.reg.pkt packet_read)

    -- One round of `simt_cache_broadcast`.
    unfoldable pub answer_one :
        ℕ → ℕ → Packet → SimtCache → Rest → Option (Packet × SimtCache × Rest)
    answer_one self i pkt c rest = do
      r ← Q.at c.reqs i
      if waits_for pkt.from r
          then (do
            lane ← L.at c.lanes i
            let pkt' = record pkt { mask = r.reg.pkt.mask; to = r.reg.pkt.from }
            (ret, rest') ← send e self lane pkt' rest
            assert (is_ok ret)
            some (
              pkt',
              put_req c i (record r { reg = record r.reg { busy = false }; queued = false }),
              rest',
            ))
          else some (pkt, c, rest)

    unfoldable pub answer_all :
        ℕ → ℕ → ℕ → Packet → SimtCache → Rest → Option (Packet × SimtCache × Rest)
    answer_all self zero i pkt c rest = some (pkt, c, rest)
    answer_all self (suc left) i pkt c rest = do
      (pkt', c', rest') ← answer_one self i pkt c rest
      answer_all self left (i + 1) pkt' c' rest'

    unfoldable pub simt_cache_broadcast :
        ℕ → Packet → SimtCache → Rest → Option (Stat × SimtCache × Rest)
    simt_cache_broadcast self pkt c rest = do
      assert (is_set pkt packet_read)
      (_, c', rest') ← answer_all self (Q.len c.reqs) 0 pkt c rest
      some (ok, c', rest')

    -- The end of `simt_cache_handle_response`: the answer to the lane `idx` alone.
    unfoldable pub answer_lane :
        ℕ → Packet → ℕ → SimtCache → Rest → Option (Stat × SimtCache × Rest)
    answer_lane self pkt idx c rest = do
      r ← Q.at c.reqs idx
      assert (not r.queued)
      assert r.reg.busy
      assert (r.reg.pkt.to == pkt.from)
      lane ← L.at c.lanes idx
      (ret, rest') ←
          send e self lane (record pkt { mask = r.reg.pkt.mask; to = r.reg.pkt.from }) rest
      assert (is_ok ret)
      some (ret, put_req c idx (record r { reg = record r.reg { busy = false } }), rest')

    unfoldable pub simt_cache_handle_response :
        ℕ → Packet → SimtCache → Rest → Option (Stat × SimtCache × Rest)
    simt_cache_handle_response self pkt c rest = do
      assert (not (is_set pkt packet_error))
      assert (is_set pkt packet_done)
      assert (not (is_set pkt packet_read) || pkt.mask == all_ones)
      let idx = u32 pkt.to
      if c.rr == idx
          then (do
            rr ← next_rr (Q.len c.reqs) c.rr
            let c' = record c { rr = rr }
            if is_set pkt packet_read
                then simt_cache_broadcast self pkt c' rest
                else answer_lane self pkt idx c' rest)
          else answer_lane self pkt idx c rest

    -- The part of `simt_cache_receive` for a packet of a lane.
    unfoldable pub take_request : ℕ → Packet → SimtCache → Option (Stat × SimtCache)
    take_request from pkt c = do
      let idx = u32 (pkt.from / 2 ^ 32)
      lane ← L.at c.lanes idx
      if not (is_port from lane) then some (enosuch, c) else (do
        r ← Q.at c.reqs idx
        if r.reg.busy then some (ebusy, c) else (do
          assert (not r.queued)
          some (
            ok,
            put_req c idx (record { reg = record { pkt = pkt; busy = true }; queued = true }),
          )))

    unfoldable pub simt_cache_receive :
        ℕ → ℕ → Packet → SimtCache → Rest → Option (Stat × SimtCache × Rest)
    simt_cache_receive self from pkt c rest =
        if is_port from c.mem
        then simt_cache_handle_response self pkt c rest
        else (do (ret, c') ← take_request from pkt c; some (ret, c', rest))
