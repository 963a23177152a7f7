-- ===== src/Cpu/Words/Cycle.antt =====
-- src/cpu/riscv/simple_riscv64.c: the clock and the receive callback in a well-formed state.
use gran.Prelude.{
  ℕ, ◌+◌, ◌^◌, ◌<◌, Bool, true, false, not, Option, none, some, arith, ◌==◌, if◌then◌else◌, ◌>>=◌,
  u64, length-replicate, replicate-AllBelow,
}
use gran.Prelude.Outcome.{Holds, bind-Holds, bind_with-Holds, assert-Holds, if-Holds, if_lem}
use gran.Packet.{
  Packet, packet_error, response, is_set, packet_convsize, packet_convu32, packet_convu64,
}
use gran.Component.{Stat, is_ok, is_ebusy, Ptr, Env, send}
use gran.Cpu.Insn.{
  insn_op, opcode_load, opcode_misc_mem, opcode_op_imm, opcode_auipc, opcode_op_imm_32,
  opcode_store, opcode_op, opcode_lui, opcode_branch, opcode_jalr, opcode_jal, opcode_system,
}
use gran.Cpu.State.{LdstState, ldst_idle, ldst_blocked, ldst_sent, ldst_done, Ldst, Cpu}
use gran.Cpu.Alu.{op_imm, op_imm_32, lui, auipc, op, jal, jalr, branch}
use gran.Cpu.Access.{set_dls_state, finalize_dls}
use gran.Cpu.Cycle.{
  set_ils_state, set_cls_state, is_blocked, finalize_ils, fetch_packet, create_simple_riscv64,
  answer_control, receive_control, simple_riscv64_receive, with_rest, dispatch, send_fetch, fetch,
  execute, insn_phase, data_phase, awake_phase, control_phase, simple_riscv64_clock,
}
use gran.Cpu.Words.Bytes.{HasBytes}
use gran.Cpu.Words.Steps.{
  IsCpu, IsControl, Leaves, op_imm-IsCpu, op_imm_32-IsCpu, lui-IsCpu, auipc-IsCpu, op-IsCpu,
  jal-IsCpu, jalr-IsCpu, branch-IsCpu,
}
use gran.Cpu.Words.Access.{
  Left, set_dls_state-IsCpu, with_ils-IsCpu, with_dls-IsCpu, finalize_dls-IsCpu, load-IsCpu,
  store-IsCpu,
}

module _ (e : Env) where
  open e use {Rest}

  abbrev pub Kept : Stat × Cpu × Rest → Type 0
  Kept = Left e

  with_rest-IsCpu :
      (rest : Rest) (o : Option (Stat × Cpu)) → Holds Leaves o → Holds Kept (with_rest e rest o)
  with_rest-IsCpu rest none h = tt
  with_rest-IsCpu rest (some (ret, cpu)) h = h

  dispatch-IsCpu :
      (self : ℕ) (cpu : Cpu) (insn : ℕ) (rest : Rest)
      → IsCpu cpu
      → Holds Kept (dispatch e self cpu insn rest)
  unfolding dispatch
  dispatch-IsCpu self cpu insn rest h =
      let Good : Option (Stat × Cpu × Rest) → Type 0 = Holds Kept in
      if_lem Good (insn_op insn == opcode_op_imm) _ _
        (with_rest-IsCpu rest (op_imm cpu insn) (op_imm-IsCpu cpu insn h))
        (if_lem Good (insn_op insn == opcode_op_imm_32) _ _
          (with_rest-IsCpu rest (op_imm_32 cpu insn) (op_imm_32-IsCpu cpu insn h))
          (if_lem Good (insn_op insn == opcode_lui) _ _
            (with_rest-IsCpu rest (lui cpu insn) (lui-IsCpu cpu insn h))
            (if_lem Good (insn_op insn == opcode_auipc) _ _
              (with_rest-IsCpu rest (auipc cpu insn) (auipc-IsCpu cpu insn h))
              (if_lem Good (insn_op insn == opcode_op) _ _
                (with_rest-IsCpu rest (op cpu insn) (op-IsCpu cpu insn h))
                (if_lem Good (insn_op insn == opcode_jal) _ _
                  (with_rest-IsCpu rest (jal cpu insn) (jal-IsCpu cpu insn h))
                  (if_lem Good (insn_op insn == opcode_jalr) _ _
                    (with_rest-IsCpu rest (jalr cpu insn) (jalr-IsCpu cpu insn h))
                    (if_lem Good (insn_op insn == opcode_branch) _ _
                      (with_rest-IsCpu rest (branch cpu insn) (branch-IsCpu cpu insn h))
                      (if_lem Good (insn_op insn == opcode_load) _ _
                        (load-IsCpu e self cpu insn rest h)
                        (if_lem Good (insn_op insn == opcode_store) _ _
                          (store-IsCpu e self cpu insn rest h)
                          (if_lem Good (insn_op insn == opcode_misc_mem) _ _ h
                            (if_lem Good (insn_op insn == opcode_system) _ _ h h)))))))))))

  send_fetch-IsCpu :
      (self : ℕ) (cpu : Cpu) (rest : Rest) → IsCpu cpu → Holds Kept (send_fetch e self cpu rest)
  unfolding send_fetch
  send_fetch-IsCpu self cpu rest h =
      if-Holds Kept (not (is_blocked cpu.ils.state)) _ _ (λ z. h)
        (λ z. bind-Holds Kept (send e self cpu.imem cpu.ils.pkt rest) _ (λ a sent.
          if_lem Kept (is_ebusy a.0) _ _ h (
            if_lem Kept (is_ok a.0) _ _
              (with_ils-IsCpu cpu (record cpu.ils { state = ldst_sent }) h) h)))

  fetch-IsCpu :
      (self : ℕ) (s : LdstState) (cpu : Cpu) (rest : Rest)
      → IsCpu cpu
      → Holds Kept (fetch e self s cpu rest)
  unfolding fetch
  fetch-IsCpu self ldst_idle cpu rest h =
      bind-Holds Kept (fetch_packet cpu.rcv cpu.pc) _ (λ pkt made.
        send_fetch-IsCpu self
          (record cpu { ils = record cpu.ils { pkt = pkt; state = ldst_blocked } }) rest
          (with_ils-IsCpu cpu (record cpu.ils { pkt = pkt; state = ldst_blocked }) h))
  fetch-IsCpu self ldst_blocked cpu rest h = send_fetch-IsCpu self cpu rest h
  fetch-IsCpu self ldst_sent cpu rest h = send_fetch-IsCpu self cpu rest h
  fetch-IsCpu self ldst_done cpu rest h = send_fetch-IsCpu self cpu rest h

  execute-IsCpu :
      (self : ℕ) (cpu : Cpu) (insn : ℕ) (rest : Rest)
      → IsCpu cpu
      → Holds Kept (execute e self cpu insn rest)
  unfolding execute
  execute-IsCpu self cpu insn rest h =
      bind_with-Holds Kept Kept (dispatch e self cpu insn rest) _
        (dispatch-IsCpu self cpu insn rest h)
        (λ a next.
          if-Holds Kept (is_ok a.0) _ _ (λ z. fetch-IsCpu self a.1.ils.state a.1 a.2 next)
            (λ z. next))

  insn_phase-IsCpu :
      (self : ℕ) (s : LdstState) (cpu : Cpu) (rest : Rest)
      → IsCpu cpu
      → Holds Kept (insn_phase e self s cpu rest)
  unfolding insn_phase finalize_ils
  insn_phase-IsCpu self ldst_blocked cpu rest h = send_fetch-IsCpu self cpu rest h
  insn_phase-IsCpu self ldst_sent cpu rest h = h
  insn_phase-IsCpu self ldst_idle cpu rest h = execute-IsCpu self cpu opcode_op_imm rest h
  insn_phase-IsCpu self ldst_done cpu rest h =
      assert-Holds Kept (not (is_set cpu.dls.pkt packet_error)) _ (λ z.
        bind_with-Holds (λ (a : ℕ × Cpu). IsCpu a.1) Kept
          (packet_convu32 cpu.ils.pkt >>= λ insn. some (insn, set_ils_state cpu ldst_idle)) _
          (bind-Holds (λ (a : ℕ × Cpu). IsCpu a.1) (packet_convu32 cpu.ils.pkt) _
            (λ insn read. with_ils-IsCpu cpu (record cpu.ils { state = ldst_idle }) h))
          (λ a next. execute-IsCpu self a.1 a.0 rest next))

  data_phase-IsCpu :
      (self : ℕ) (s : LdstState) (cpu : Cpu) (rest : Rest)
      → IsCpu cpu
      → Holds Kept (data_phase e self s cpu rest)
  unfolding data_phase
  data_phase-IsCpu self ldst_idle cpu rest h = insn_phase-IsCpu self cpu.ils.state cpu rest h
  data_phase-IsCpu self ldst_blocked cpu rest h =
      assert-Holds Kept (not (is_set cpu.dls.pkt packet_error)) _ (λ z.
        bind-Holds Kept (send e self cpu.dmem cpu.dls.pkt rest) _ (λ a sent.
          if_lem IsCpu (is_ebusy a.0) cpu (set_dls_state cpu ldst_sent) h
            (set_dls_state-IsCpu cpu ldst_sent h)))
  data_phase-IsCpu self ldst_sent cpu rest h =
      assert-Holds Kept (not (is_set cpu.dls.pkt packet_error)) _ (λ z. h)
  data_phase-IsCpu self ldst_done cpu rest h =
      assert-Holds Kept (not (is_set cpu.dls.pkt packet_error)) _ (λ z.
        bind_with-Holds IsCpu Kept (finalize_dls cpu) _ (finalize_dls-IsCpu cpu h) (λ cpu' next.
          insn_phase-IsCpu self cpu'.ils.state (set_dls_state cpu' ldst_idle) rest
            (set_dls_state-IsCpu cpu' ldst_idle next)))

  awake_phase-IsCpu :
      (self : ℕ) (cpu : Cpu) (rest : Rest) → IsCpu cpu → Holds Kept (awake_phase e self cpu rest)
  unfolding awake_phase
  awake_phase-IsCpu self cpu rest h =
      if-Holds Kept cpu.sleep _ _ (λ z. h) (λ z. data_phase-IsCpu self cpu.dls.state cpu rest h)

  with_cls-IsCpu :
      (cpu : Cpu) (ctrl : Ptr) (cls : Ldst)
      → IsCpu cpu
      → IsControl cls.state
      → IsCpu (record cpu { ctrl = ctrl; cls = cls })
  with_cls-IsCpu cpu ctrl cls h k = record {
    regs = h.regs;
    words = h.words;
    pc = h.pc;
    bytes = h.bytes;
    reg = h.reg;
    control = k;
  }

  control_phase-IsCpu :
      (self : ℕ) (s : LdstState) (cpu : Cpu) (rest : Rest)
      → IsCpu cpu
      → Holds Kept (control_phase e self s cpu rest)
  unfolding control_phase
  control_phase-IsCpu self ldst_idle cpu rest h = awake_phase-IsCpu self cpu rest h
  control_phase-IsCpu self ldst_blocked cpu rest h =
      bind-Holds Kept (send e self cpu.ctrl cpu.cls.pkt rest) _ (λ a sent.
        if-Holds Kept (is_ebusy a.0) _ _ (λ z. h)
          (λ z.
            awake_phase-IsCpu self (set_cls_state cpu ldst_idle) a.1
              (with_cls-IsCpu cpu cpu.ctrl (record cpu.cls { state = ldst_idle }) h tt)))
  control_phase-IsCpu self ldst_sent cpu rest h = tt
  control_phase-IsCpu self ldst_done cpu rest h = tt

  -- A clock cycle of the processor keeps its state well formed, whatever the memories and the sender of
  -- control packets do: 32 registers that hold 64-bit words, a 64-bit program counter, a data packet of
  -- bytes, a register to load into that exists, and a control answer that is either sent or blocked.
  pub simple_riscv64_clock-IsCpu :
      (self : ℕ) (cpu : Cpu) (rest : Rest)
      → IsCpu cpu
      → Holds Kept (simple_riscv64_clock e self cpu rest)
  unfolding simple_riscv64_clock
  simple_riscv64_clock-IsCpu self cpu rest h = control_phase-IsCpu self cpu.cls.state cpu rest h

  blocked_or_idle : (b : Bool) → IsControl (if b then ldst_blocked else ldst_idle)
  blocked_or_idle b = if_lem IsControl b ldst_blocked ldst_idle tt tt

  answer_control-IsCpu :
      (self from : ℕ) (cpu : Cpu) (pkt : Packet) (rest : Rest)
      → IsCpu cpu
      → Holds Kept (answer_control e self from cpu pkt rest)
  unfolding answer_control
  answer_control-IsCpu self from cpu pkt rest h =
      bind-Holds Kept (send e self (some from) pkt rest) _ (λ a sent.
        with_cls-IsCpu cpu (some from)
          (record {
            pkt = pkt;
            state = if is_ebusy a.0 then ldst_blocked else ldst_idle;
            reg = 0;
            u = false;
          })
          h (blocked_or_idle (is_ebusy a.0)))

  with_sleep-IsCpu : (cpu : Cpu) (b : Bool) → IsCpu cpu → IsCpu (record cpu { sleep = b })
  with_sleep-IsCpu cpu b h = record {
    regs = h.regs;
    words = h.words;
    pc = h.pc;
    bytes = h.bytes;
    reg = h.reg;
    control = h.control;
  }

  receive_control-IsCpu :
      (self from : ℕ) (cpu : Cpu) (pkt : Packet) (rest : Rest)
      → IsCpu cpu
      → Holds Kept (receive_control e self from cpu pkt rest)
  unfolding receive_control
  receive_control-IsCpu self from cpu pkt rest h =
      bind-Holds Kept (packet_convsize pkt) _ (λ size known. assert-Holds Kept (size == 8) _ (λ z.
        if-Holds Kept (is_blocked cpu.cls.state) _ _ (λ z. h)
          (λ z. bind-Holds Kept (packet_convu64 pkt) _ (λ v read.
            if-Holds Kept (v == 0) _ _
              (λ z.
                answer_control-IsCpu self from (record cpu { sleep = true }) (response pkt) rest
                  (with_sleep-IsCpu cpu true h))
              (λ z.
                if-Holds Kept (v == 1) _ _
                  (λ z.
                    answer_control-IsCpu self from (record cpu { sleep = false }) (response pkt)
                      rest (with_sleep-IsCpu cpu false h))
                  (λ z. h))))))

  -- The receive callback keeps the state of the processor well formed when the packet it gets holds bytes.
  pub simple_riscv64_receive-IsCpu :
      (self from : ℕ) (cpu : Cpu) (pkt : Packet) (rest : Rest)
      → IsCpu cpu
      → HasBytes pkt
      → Holds Kept (simple_riscv64_receive e self from cpu pkt rest)
  unfolding simple_riscv64_receive
  simple_riscv64_receive-IsCpu self from cpu pkt rest h bytes =
      if-Holds Kept (pkt.to == cpu.rcv) _ _
        (λ z.
          with_dls-IsCpu cpu (record cpu.dls { pkt = pkt; state = ldst_done }) cpu.pc h bytes h.reg
            h.pc)
        (λ z.
          if-Holds Kept (pkt.to == u64 (cpu.rcv + 64)) _ _
            (λ z. with_ils-IsCpu cpu (record cpu.ils { pkt = pkt; state = ldst_done }) h)
            (λ z.
              if-Holds Kept (pkt.to == u64 (cpu.rcv + 128)) _ _
                (λ z. receive_control-IsCpu self from cpu pkt rest h) (λ z. h)))

-- A new processor is in a well-formed state.
pub create_simple_riscv64-IsCpu :
    (rcv start_pc : ℕ) (imem dmem : Ptr)
    → start_pc < 2 ^ 64
    → Holds IsCpu (create_simple_riscv64 rcv start_pc imem dmem)
unfolding create_simple_riscv64
create_simple_riscv64-IsCpu rcv start_pc imem dmem h =
    bind-Holds IsCpu (fetch_packet rcv start_pc) _ (λ pkt made. record {
      regs = length-replicate {A = ℕ} 32 0;
      words = replicate-AllBelow (2 ^ 64) 32 0 (omega arith);
      pc = h;
      bytes = replicate-AllBelow 256 64 0 (omega arith);
      reg = omega arith;
      control = tt;
    })
