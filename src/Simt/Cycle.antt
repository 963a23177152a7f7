-- ===== src/Simt/Cycle.antt =====
-- src/cpu/riscv/simt_riscv64.c: the responses to the lanes, the clock, and the creation of the group.
use gran.Prelude.{
  ℕ, zero, suc, ◌+◌, ◌-◌, ◌*◌, ◌^◌, Bool, true, false, not, Option, some, ◌==◌, if◌then◌else◌,
  ◌>>=◌, ◌>>◌, assert, u64, u32,
}
use gran.Packet.{Packet, packet_read, packet_done, packet_error, is_set}
use gran.Component.{Stat, ok, is_ok, is_ebusy, Ptr, Env}
use gran.Reg.{empty_reg}
use gran.Vec.{VecOps}
use gran.Cpu.Cycle.{
  create_simple_riscv64, simple_riscv64_set_reg, simple_riscv64_receive, simple_riscv64_clock,
}
use gran.Simt.{
  LaneReq, Lane, SimtConf, Side, data_side, inst_side, waits_to_read, is_ptr, Simt, rcv_of, mem_of,
  intf_of, reqs_of, put_req, simt_riscv64_ext_send, lane_request, lane_env,
}

module _ (V : VecOps LaneReq) (W : VecOps Lane) where
  module _ (e : Env) where
    open e use {Rest}

    -- `SEND(intf, lane, pkt)`, with the assertion that the lane takes it.
    unfoldable pub send_lane : Simt V W → Side → ℕ → Packet → Rest → Option (Simt V W × Rest)
    send_lane c side i pkt rest = do
      lane ← W.at c.lanes i
      (ret, cpu, (c', rest')) ←
          simple_riscv64_receive (lane_env V W e c.imem_intf c.dmem_intf) lane.id
            (intf_of V W c side) lane.cpu pkt (c, rest)
      assert (is_ok ret)
      some (record c' { lanes = W.put c'.lanes i (record lane { cpu = cpu }) }, rest')

    -- `req->reg.busy = false`
    unfoldable pub free_req : Simt V W → Side → ℕ → Option (Simt V W)
    free_req c side i = do
      req ← V.at (reqs_of V W c side) i
      some (put_req V W c side i (record req { reg = record req.reg { busy = false } }))

    -- The loop of `simt_riscv64_handle_response` over the lanes, from lane `i` on.
    unfoldable pub share_response :
        ℕ → ℕ → Simt V W → Side → Packet → Rest → Option (Stat × Simt V W × Rest)
    share_response zero i c side pkt rest = some (ok, c, rest)
    share_response (suc left) i c side pkt rest = do
      req ← V.at (reqs_of V W c side) i
      let pkt' : Packet = record pkt { mask = req.reg.pkt.mask; to = req.reg.pkt.from }
      let skipped = share_response left (i + 1) c side pkt rest
      if not (waits_to_read req pkt.from) then skipped else (do
        (c', rest') ← send_lane c side i pkt' rest
        c'' ← free_req c' side i
        share_response left (i + 1) c'' side pkt' rest')

    unfoldable pub simt_riscv64_handle_response :
        Simt V W → Side → Packet → Rest → Option (Stat × Simt V W × Rest)
    simt_riscv64_handle_response c side pkt rest = do
      let idx = u32 pkt.to
      s ← V.at (reqs_of V W c side) idx
      assert (s.reg.pkt.to == pkt.from)
      assert s.reg.busy
      assert (is_set pkt packet_done)
      assert (not (is_set pkt packet_error))
      assert (if is_set pkt packet_read then pkt.mask == 2 ^ 64 - 1 else true)
      let pkt' : Packet = record pkt { mask = s.reg.pkt.mask; to = s.reg.pkt.from }
      (c', rest') ← send_lane c side idx pkt' rest
      c'' ← free_req c' side idx
      if is_set pkt' packet_read
          then share_response c''.conf.num_lanes 0 c'' side pkt' rest'
          else some (ok, c'', rest')

    unfoldable pub simt_riscv64_receive :
        Simt V W → Side → ℕ → Packet → Rest → Option (Stat × Simt V W × Rest)
    simt_riscv64_receive c side from pkt rest =
        if is_ptr (mem_of V W c side) from
        then simt_riscv64_handle_response c side pkt rest
        else lane_request V W e c side pkt rest

    unfoldable pub simt_riscv64_data_receive :
        Simt V W → ℕ → Packet → Rest → Option (Stat × Simt V W × Rest)
    simt_riscv64_data_receive c from pkt rest = simt_riscv64_receive c data_side from pkt rest

    unfoldable pub simt_riscv64_inst_receive :
        Simt V W → ℕ → Packet → Rest → Option (Stat × Simt V W × Rest)
    simt_riscv64_inst_receive c from pkt rest = simt_riscv64_receive c inst_side from pkt rest

    -- A loop of `simt_riscv64_clock` over the requests of one side, from request `i` on; `r` is the last result. The
    -- first component tells whether the function returns.
    unfoldable pub send_queued :
        ℕ → ℕ → Simt V W → Side → Stat → Rest → Option (Bool × Stat × Simt V W × Rest)
    send_queued zero i c side r rest = some (false, r, c, rest)
    send_queued (suc left) i c side r rest = do
      req ← V.at (reqs_of V W c side) i
      let skipped = send_queued left (i + 1) c side r rest
      if not req.queued then skipped else (do
        (r', rest') ←
            simt_riscv64_ext_send V W e (rcv_of V W c side) (intf_of V W c side) (mem_of V W c side)
              req.reg.pkt rest
        let sent : Simt V W = put_req V W c side i (record req { queued = false })
        let after_sent = send_queued left (i + 1) sent side r' rest'
        let after_busy = send_queued left (i + 1) c side r' rest'
        if is_ok r'
            then after_sent
            else if is_ebusy r'
            then after_busy
            else some (true, r', c, rest'))

    -- The loop of `simt_riscv64_clock` over the lanes, from lane `i` on.
    unfoldable pub clock_lanes : ℕ → ℕ → Simt V W → Stat → Rest → Option (Stat × Simt V W × Rest)
    clock_lanes zero i c r rest = some (r, c, rest)
    clock_lanes (suc left) i c r rest = do
      lane ← W.at c.lanes i
      (ret, cpu, (c', rest')) ←
          simple_riscv64_clock (lane_env V W e c.imem_intf c.dmem_intf) lane.id lane.cpu (c, rest)
      let c'' : Simt V W = record c' { lanes = W.put c'.lanes i (record lane { cpu = cpu }) }
      let later = clock_lanes left (i + 1) c'' ret rest'
      if is_ok ret then later else some (ret, c'', rest')

    unfoldable pub simt_riscv64_clock : Simt V W → Rest → Option (Stat × Simt V W × Rest)
    simt_riscv64_clock c rest = do
      (stop, r, c', rest') ← send_queued (V.len c.data_rqs) 0 c data_side ok rest
      if stop then some (r, c', rest') else (do
        (stop', r', c'', rest'') ← send_queued (V.len c'.inst_rqs) 0 c' inst_side r rest'
        if stop' then some (r', c'', rest'') else clock_lanes (W.len c''.lanes) 0 c'' r' rest'')

  abbrev empty_req : LaneReq
  empty_req = record { reg = empty_reg; queued = false }

  -- The loop of `create_simt_riscv64`, from lane `i` on; `new_id` gives the addresses of the lanes.
  unfoldable pub add_lanes : ℕ → ℕ → (ℕ → ℕ) → Simt V W → Option (Simt V W)
  add_lanes zero i new_id c = some c
  add_lanes (suc left) i new_id c = do
    cpu ←
        create_simple_riscv64 (u64 (i * 2 ^ 32)) c.conf.start_pc (some c.imem_intf)
          (some c.dmem_intf)
    add_lanes left (i + 1) new_id (record c {
      lanes = W.append c.lanes (record { id = new_id i; cpu = cpu });
      data_rqs = V.append c.data_rqs empty_req;
      inst_rqs = V.append c.inst_rqs empty_req;
    })

  unfoldable pub create_simt_riscv64 : SimtConf → Ptr → Ptr → ℕ → ℕ → (ℕ → ℕ) → Option (Simt V W)
  create_simt_riscv64 conf imem dmem imem_intf dmem_intf new_id =
      add_lanes conf.num_lanes 0 new_id (record {
        conf = conf;
        imem = imem;
        dmem = dmem;
        lanes = W.create conf.num_lanes;
        imem_intf = imem_intf;
        dmem_intf = dmem_intf;
        data_rqs = V.create conf.num_lanes;
        inst_rqs = V.create conf.num_lanes;
        rr = 0;
      })

  unfoldable pub simt_riscv64_data_intf : Simt V W → ℕ
  simt_riscv64_data_intf c = c.dmem_intf

  unfoldable pub simt_riscv64_inst_intf : Simt V W → ℕ
  simt_riscv64_inst_intf c = c.imem_intf

  unfoldable pub simt_riscv64_set_reg : Simt V W → ℕ → ℕ → ℕ → Option (Simt V W)
  simt_riscv64_set_reg c i reg val = do
    lane ← W.at c.lanes i
    cpu ← simple_riscv64_set_reg lane.cpu reg val
    some (record c { lanes = W.put c.lanes i (record lane { cpu = cpu }) })
