-- ===== src/Simt.antt =====
-- src/cpu/riscv/simt_riscv64.c: a group of RV64 processors, the lanes, that share requests to the memories.
-- A lane is the processor behind its pointer, with the address of that pointer.
pub mod Cycle
pub mod Request
use gran.Prelude.{
  ℕ, zero, suc, ◌+◌, ◌-◌, ◌*◌, ◌/◌, ◌%◌, ◌^◌, Bool, true, false, not, ◌&&◌, ◌||◌, Option, none,
  some, List, [], ◌∷◌, ltb, ◌==◌, if◌then◌else◌, ◌>>=◌, ◌>>◌, assert, bit_or, u64, u32,
}
use gran.Packet.{Packet, packet_read, packet_done, packet_error, is_set}
use gran.Component.{Stat, ok, ebusy, is_ok, is_ebusy, Ptr, Env, send}
use gran.Reg.{Reg, empty_reg}
use gran.Vec.{VecOps}
use gran.Cpu.State.{Cpu}
use gran.Cpu.Cycle.{
  create_simple_riscv64, simple_riscv64_set_reg, simple_riscv64_receive, simple_riscv64_clock,
}

pub record LaneReq : Type 0 where
  pub reg : Reg
  pub queued : Bool

pub record Lane : Type 0 where
  pub id : ℕ
  pub cpu : Cpu

pub record SimtConf : Type 0 where
  pub data_rcv : ℕ
  pub inst_rcv : ℕ
  pub start_pc : ℕ
  pub num_lanes : ℕ

-- The two interfaces of the group.
pub data Side : Type 0 where
  data_side inst_side : Side

-- What `simt_riscv64_ext_send` sends: a read asks for the whole block, and the lane takes the place of the sender's
-- offset.
unfoldable pub ext_packet : ℕ → Packet → Packet
ext_packet rcv pkt = record pkt {
  mask = if is_set pkt packet_read then 2 ^ 64 - 1 else pkt.mask;
  from = bit_or rcv (u32 (pkt.from / 2 ^ 32));
}

-- Whether the request at `i` is not `self` and waits to read the address.
abbrev pub waits_to_read : LaneReq → ℕ → Bool
waits_to_read req to = req.reg.busy && (is_set req.reg.pkt packet_read && to == req.reg.pkt.to)

-- The loop over the other requests of `simt_riscv64_receive`, from place `i` on.
unfoldable pub can_share : List LaneReq → ℕ → ℕ → ℕ → Bool
can_share [] i self to = false
can_share (req ∷ reqs) i self to =
    let rest = can_share reqs (i + 1) self to in
    if i == self then rest else if waits_to_read req to then true else rest

abbrev pub is_ptr : Ptr → ℕ → Bool
is_ptr none c = false
is_ptr (some p) c = p == c

module _ (V : VecOps LaneReq) (W : VecOps Lane) where
  pub record Simt : Type 0 where
    pub conf : SimtConf
    pub imem : Ptr
    pub dmem : Ptr
    pub lanes : W.Vec
    pub imem_intf : ℕ
    pub dmem_intf : ℕ
    pub data_rqs : V.Vec
    pub inst_rqs : V.Vec
    pub rr : ℕ

  -- The arguments that `simt_riscv64_data_receive` and `simt_riscv64_inst_receive` pass on.
  abbrev pub rcv_of : Simt → Side → ℕ
  rcv_of c data_side = c.conf.data_rcv
  rcv_of c inst_side = c.conf.inst_rcv

  abbrev pub mem_of : Simt → Side → Ptr
  mem_of c data_side = c.dmem
  mem_of c inst_side = c.imem

  abbrev pub intf_of : Simt → Side → ℕ
  intf_of c data_side = c.dmem_intf
  intf_of c inst_side = c.imem_intf

  abbrev pub reqs_of : Simt → Side → V.Vec
  reqs_of c data_side = c.data_rqs
  reqs_of c inst_side = c.inst_rqs

  abbrev pub put_req : Simt → Side → ℕ → LaneReq → Simt
  put_req c data_side i req = record c { data_rqs = V.put c.data_rqs i req }
  put_req c inst_side i req = record c { inst_rqs = V.put c.inst_rqs i req }

  module _ (e : Env) where
    open e use {Rest}

    unfoldable pub simt_riscv64_ext_send : ℕ → ℕ → Ptr → Packet → Rest → Option (Stat × Rest)
    simt_riscv64_ext_send rcv intf mem pkt rest = send e intf mem (ext_packet rcv pkt) rest

    -- The end of `simt_riscv64_receive` for a request that is stored at `idx`.
    unfoldable pub pass_on : Simt → Side → ℕ → Packet → Rest → Option (Stat × Simt × Rest)
    pass_on c side idx pkt rest = do
      (r, rest') ← simt_riscv64_ext_send (rcv_of c side) (intf_of c side) (mem_of c side) pkt rest
      some (
        r,
        if is_ebusy r
            then put_req c side idx
                (record { reg = record { pkt = pkt; busy = true }; queued = true })
            else c,
        rest',
      )

    -- `simt_riscv64_receive` for a packet of a lane. An index from 2^31 on is negative as an `int32_t`.
    unfoldable pub lane_request : Simt → Side → Packet → Rest → Option (Stat × Simt × Rest)
    lane_request c side pkt rest = do
      let idx = u32 (pkt.from / 2 ^ 32)
      assert (ltb idx (2 ^ 31))
      req ← V.at (reqs_of c side) idx
      let c' : Simt =
          put_req c side idx (record { reg = record { pkt = pkt; busy = true }; queued = false })
      if req.reg.busy
          then some (ebusy, c, rest)
          else if is_set pkt packet_read && can_share (V.items (reqs_of c' side)) 0 idx pkt.to
          then some (ok, c', rest)
          else pass_on c' side idx pkt rest

  -- What a lane sends to goes back into the group: no lane is a memory of the group.
  abbrev pub lane_env : Env → ℕ → ℕ → Env
  lane_env e imem_intf dmem_intf = record {
    Rest = Simt × e.Rest;
    has_receive = λ to. to == dmem_intf || (to == imem_intf || e.has_receive to);
    receive = λ to from pkt (c, rest).
        if to == dmem_intf
        then (do (r, c', rest') ← lane_request e c data_side pkt rest; some (r, (c', rest')))
        else if to == imem_intf
        then (do (r, c', rest') ← lane_request e c inst_side pkt rest; some (r, (c', rest')))
        else (do (r, rest') ← e.receive to from pkt rest; some (r, (c, rest')));
  }
