-- ===== src/Tests/Lanes.antt =====
-- The group of lanes at a concrete input.
use gran.Prelude.{ℕ, ◌≡◌, ◌*◌, ◌^◌, true, false, some, List, [], ◌∷◌, arith, refl}
use gran.Packet.{Packet, packet_read}
use gran.Component.{Stat, ok, send}
use gran.Reg.{empty_reg}
use gran.Vec.{list_vec}
use gran.Simt.{LaneReq, Lane, Simt, data_side, lane_request}
use gran.Simt.Request.{Taken, lane_request-Taken}
use gran.Tests.Setup.{mailbox, letter}

abbrev reads_block : ℕ → Packet
reads_block lane = record (letter 128) { from = lane * 2 ^ 32; flags = packet_read }

abbrev idle_req : LaneReq
idle_req = record { reg = empty_reg; queued = false }

-- The lane 0 waits to read the block that the lane 1 asks for.
abbrev two_lanes : Simt (list_vec LaneReq) (list_vec Lane)
two_lanes = record {
  conf = record { data_rcv = 4096; inst_rcv = 8192; start_pc = 0; num_lanes = 2 };
  imem = some 1;
  dmem = some 2;
  lanes = [];
  imem_intf = 3;
  dmem_intf = 4;
  data_rqs =
      record { reg = record { pkt = reads_block 0; busy = true }; queued = false } ∷ idle_req ∷ [];
  inst_rqs = idle_req ∷ idle_req ∷ [];
  rr = 0;
}

lane_request-Taken_example :
    (ret : Stat) × (c' : Simt (list_vec LaneReq) (list_vec Lane)) × (rest' : List Packet)
    × (lane_request
          (list_vec LaneReq)
          (list_vec Lane)
          mailbox
          two_lanes
          data_side
          (reads_block 1)
          []
        ≡ some (ret, c', rest'))
    × Taken
        (list_vec LaneReq)
        (list_vec Lane)
        mailbox
        two_lanes
        data_side
        (reads_block 1)
        idle_req
        []
        ret
        c'
        rest'
unfolding send
lane_request-Taken_example =
    lane_request-Taken (list_vec LaneReq) (list_vec Lane) mailbox two_lanes data_side
      (reads_block 1) idle_req [] (omega arith) refl (λ pkt. ((ok, pkt ∷ []), refl))
