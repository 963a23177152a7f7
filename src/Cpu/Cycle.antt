-- ===== src/Cpu/Cycle.antt =====
-- src/cpu/riscv/simple_riscv64.c: what the processor receives, and its clock.
use gran.Prelude.{
  ℕ, ◌+◌, Bool, true, false, not, Option, none, some, [], ◌==◌, if◌then◌else◌, ◌>>=◌, ◌>>◌, assert,
  replicate, u64,
}
use gran.Packet.{
  Packet, packet_read, packet_error, response, is_set, create_packet, packet_convsize,
  packet_convu32, packet_convu64,
}
use gran.Component.{Stat, ok, done, ebus, ebusy, enosuch, is_ok, is_ebusy, Ptr, Env, send}
use gran.Cpu.Insn.{
  insn_op, opcode_load, opcode_misc_mem, opcode_op_imm, opcode_auipc, opcode_op_imm_32,
  opcode_store, opcode_op, opcode_lui, opcode_branch, opcode_jalr, opcode_jal, opcode_system,
}
use gran.Cpu.State.{
  LdstState, ldst_idle, ldst_blocked, ldst_sent, ldst_done, empty_ldst, Cpu, set_reg,
}
use gran.Cpu.Alu.{op_imm, op_imm_32, lui, auipc, op, jal, jalr, branch}
use gran.Cpu.Access.{set_dls_state, finalize_dls, load, store}

abbrev pub set_ils_state : Cpu → LdstState → Cpu
set_ils_state cpu s = record cpu { ils = record cpu.ils { state = s } }

abbrev pub set_cls_state : Cpu → LdstState → Cpu
set_cls_state cpu s = record cpu { cls = record cpu.cls { state = s } }

abbrev pub is_blocked : LdstState → Bool
is_blocked ldst_blocked = true
is_blocked _ = false

unfoldable pub finalize_ils : Cpu → Option (ℕ × Cpu)
finalize_ils cpu = do insn ← packet_convu32 cpu.ils.pkt; some (insn, set_ils_state cpu ldst_idle)

-- The packet that fetches the next instruction.
unfoldable pub fetch_packet : ℕ → ℕ → Option Packet
fetch_packet rcv pc = create_packet (u64 (rcv + 64)) pc 4 [] packet_read

unfoldable pub create_simple_riscv64 : ℕ → ℕ → Ptr → Ptr → Option Cpu
create_simple_riscv64 rcv start_pc imem dmem = do
  pkt ← fetch_packet rcv start_pc
  some (record {
    imem = imem;
    dmem = dmem;
    ctrl = none;
    dls = empty_ldst;
    ils = record empty_ldst { pkt = pkt; state = ldst_blocked };
    cls = empty_ldst;
    rcv = rcv;
    regs = replicate 32 0;
    pc = start_pc;
    sleep = false;
  })

unfoldable pub simple_riscv64_set_reg : Cpu → ℕ → ℕ → Option Cpu
simple_riscv64_set_reg cpu reg val = set_reg cpu reg val

module _ (e : Env) where
  open e use {Rest}

  -- The answer to a control packet that was obeyed.
  unfoldable pub answer_control : ℕ → ℕ → Cpu → Packet → Rest → Option (Stat × Cpu × Rest)
  answer_control self from cpu pkt rest = do
    (ret, rest') ← send e self (some from) pkt rest
    let state = if is_ebusy ret then ldst_blocked else ldst_idle
    some (
      ok,
      record cpu {
        ctrl = some from;
        cls = record { pkt = pkt; state = state; reg = 0; u = false };
      },
      rest',
    )

  -- A packet to the control address.
  unfoldable pub receive_control : ℕ → ℕ → Cpu → Packet → Rest → Option (Stat × Cpu × Rest)
  receive_control self from cpu pkt rest = do
    size ← packet_convsize pkt
    assert (size == 8)
    if is_blocked cpu.cls.state then some (ebusy, cpu, rest) else (do
      v ← packet_convu64 pkt
      if v == 0
          then answer_control self from (record cpu { sleep = true }) (response pkt) rest
          else if v == 1
          then answer_control self from (record cpu { sleep = false }) (response pkt) rest
          else some (ebus, cpu, rest))

  unfoldable pub simple_riscv64_receive : ℕ → ℕ → Cpu → Packet → Rest → Option (Stat × Cpu × Rest)
  simple_riscv64_receive self from cpu pkt rest =
      if pkt.to == cpu.rcv
      then some (ok, record cpu { dls = record cpu.dls { pkt = pkt; state = ldst_done } }, rest)
      else if pkt.to == u64 (cpu.rcv + 64)
      then some (ok, record cpu { ils = record cpu.ils { pkt = pkt; state = ldst_done } }, rest)
      else if pkt.to == u64 (cpu.rcv + 128)
      then receive_control self from cpu pkt rest
      else some (ebus, cpu, rest)

  abbrev pub with_rest : Rest → Option (Stat × Cpu) → Option (Stat × Cpu × Rest)
  with_rest rest none = none
  with_rest rest (some (ret, cpu)) = some (ret, cpu, rest)

  -- The `switch` over the opcodes.
  unfoldable pub dispatch : ℕ → Cpu → ℕ → Rest → Option (Stat × Cpu × Rest)
  dispatch self cpu insn rest =
      let opcode = insn_op insn in
      if opcode == opcode_op_imm
      then with_rest rest (op_imm cpu insn)
      else if opcode == opcode_op_imm_32
      then with_rest rest (op_imm_32 cpu insn)
      else if opcode == opcode_lui
      then with_rest rest (lui cpu insn)
      else if opcode == opcode_auipc
      then with_rest rest (auipc cpu insn)
      else if opcode == opcode_op
      then with_rest rest (op cpu insn)
      else if opcode == opcode_jal
      then with_rest rest (jal cpu insn)
      else if opcode == opcode_jalr
      then with_rest rest (jalr cpu insn)
      else if opcode == opcode_branch
      then with_rest rest (branch cpu insn)
      else if opcode == opcode_load
      then load e self cpu insn rest
      else if opcode == opcode_store
      then store e self cpu insn rest
      else if opcode == opcode_misc_mem
      then some (ok, cpu, rest)
      else if opcode == opcode_system
      then some (done, cpu, rest)
      else some (enosuch, cpu, rest)

  -- From the label `send` on.
  unfoldable pub send_fetch : ℕ → Cpu → Rest → Option (Stat × Cpu × Rest)
  send_fetch self cpu rest = if not (is_blocked cpu.ils.state) then some (ok, cpu, rest) else (do
    (ret, rest') ← send e self cpu.imem cpu.ils.pkt rest
    some (
        if is_ebusy ret
        then (ok, cpu, rest')
        else if is_ok ret
        then (ok, set_ils_state cpu ldst_sent, rest')
        else (ret, cpu, rest')))

  -- After the instruction: the next one is fetched.
  unfoldable pub fetch : ℕ → LdstState → Cpu → Rest → Option (Stat × Cpu × Rest)
  fetch self ldst_idle cpu rest = do
    pkt ← fetch_packet cpu.rcv cpu.pc
    send_fetch self (record cpu { ils = record cpu.ils { pkt = pkt; state = ldst_blocked } }) rest
  fetch self ldst_blocked cpu rest = send_fetch self cpu rest
  fetch self ldst_sent cpu rest = send_fetch self cpu rest
  fetch self ldst_done cpu rest = send_fetch self cpu rest

  unfoldable pub execute : ℕ → Cpu → ℕ → Rest → Option (Stat × Cpu × Rest)
  execute self cpu insn rest = do
    (ret, cpu', rest') ← dispatch self cpu insn rest
    if is_ok ret then fetch self cpu'.ils.state cpu' rest' else some (ret, cpu', rest')

  -- The clock from the first test of `ils` on, by the state of `ils`. The word 0x13 encodes a NOP.
  unfoldable pub insn_phase : ℕ → LdstState → Cpu → Rest → Option (Stat × Cpu × Rest)
  insn_phase self ldst_blocked cpu rest = send_fetch self cpu rest
  insn_phase self ldst_sent cpu rest = some (ok, cpu, rest)
  insn_phase self ldst_idle cpu rest = execute self cpu opcode_op_imm rest
  insn_phase self ldst_done cpu rest = do
    assert (not (is_set cpu.dls.pkt packet_error))
    (insn, cpu') ← finalize_ils cpu
    execute self cpu' insn rest

  -- The clock from the test of `dls` on, by the state of `dls`.
  unfoldable pub data_phase : ℕ → LdstState → Cpu → Rest → Option (Stat × Cpu × Rest)
  data_phase self ldst_idle cpu rest = insn_phase self cpu.ils.state cpu rest
  data_phase self ldst_blocked cpu rest = do
    assert (not (is_set cpu.dls.pkt packet_error))
    (r, rest') ← send e self cpu.dmem cpu.dls.pkt rest
    some (ok, (if is_ebusy r then cpu else set_dls_state cpu ldst_sent), rest')
  data_phase self ldst_sent cpu rest = do
    assert (not (is_set cpu.dls.pkt packet_error))
    some (ok, cpu, rest)
  data_phase self ldst_done cpu rest = do
    assert (not (is_set cpu.dls.pkt packet_error))
    cpu' ← finalize_dls cpu
    insn_phase self cpu'.ils.state (set_dls_state cpu' ldst_idle) rest

  -- The clock after the control answer.
  unfoldable pub awake_phase : ℕ → Cpu → Rest → Option (Stat × Cpu × Rest)
  awake_phase self cpu rest =
      if cpu.sleep then some (ok, cpu, rest) else data_phase self cpu.dls.state cpu rest

  -- The clock, by the state of `cls`.
  unfoldable pub control_phase : ℕ → LdstState → Cpu → Rest → Option (Stat × Cpu × Rest)
  control_phase self ldst_idle cpu rest = awake_phase self cpu rest
  control_phase self ldst_blocked cpu rest = do
    (r, rest') ← send e self cpu.ctrl cpu.cls.pkt rest
    if is_ebusy r
        then some (ok, cpu, rest')
        else awake_phase self (set_cls_state cpu ldst_idle) rest'
  control_phase self ldst_sent cpu rest = none
  control_phase self ldst_done cpu rest = none

  unfoldable pub simple_riscv64_clock : ℕ → Cpu → Rest → Option (Stat × Cpu × Rest)
  simple_riscv64_clock self cpu rest = control_phase self cpu.cls.state cpu rest
