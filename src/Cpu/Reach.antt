-- ===== src/Cpu/Reach.antt =====
-- src/cpu/riscv/simple_riscv64.c: the states that a processor can come to.
use gran.Prelude.{ℕ, ◌≡◌, ◌^◌, ◌<◌, some}
use gran.Prelude.Outcome.{Holds-some}
use gran.Packet.{Packet}
use gran.Component.{Stat, Ptr, Env}
use gran.Cpu.State.{Cpu}
use gran.Cpu.Cycle.{
  create_simple_riscv64, simple_riscv64_set_reg, simple_riscv64_receive, simple_riscv64_clock,
}
use gran.Cpu.Words.Bytes.{HasBytes}
use gran.Cpu.Words.Steps.{IsCpu, set_reg-IsCpu}
use gran.Cpu.Words.Cycle.{
  create_simple_riscv64-IsCpu, simple_riscv64_clock-IsCpu, simple_riscv64_receive-IsCpu, Kept,
}

module _ (e : Env) (self : ℕ) where
  open e use {Rest}

  -- A processor after it was created, after a register was set from outside, after a clock cycle, and
  -- after it received a packet. The other components do as they like in between.
  pub data Reachable : Cpu → Type 0 where
    created :
        (rcv start_pc : ℕ) (imem dmem : Ptr) (cpu : Cpu)
        → start_pc < 2 ^ 64
        → create_simple_riscv64 rcv start_pc imem dmem ≡ some cpu
        → Reachable cpu
    was_set :
        (cpu cpu' : Cpu) (reg val : ℕ)
        → Reachable cpu
        → val < 2 ^ 64
        → simple_riscv64_set_reg cpu reg val ≡ some cpu'
        → Reachable cpu'
    clocked :
        (cpu cpu' : Cpu) (ret : Stat) (rest rest' : Rest)
        → Reachable cpu
        → simple_riscv64_clock e self cpu rest ≡ some (ret, cpu', rest')
        → Reachable cpu'
    received :
        (cpu cpu' : Cpu) (from : ℕ) (pkt : Packet) (ret : Stat) (rest rest' : Rest)
        → Reachable cpu
        → HasBytes pkt
        → simple_riscv64_receive e self from cpu pkt rest ≡ some (ret, cpu', rest')
        → Reachable cpu'

  -- In every state that a processor can come to, it has 32 registers that hold 64-bit words, a 64-bit program
  -- counter, a data packet of bytes, an existing register to load into, and a control answer that is
  -- either sent or blocked, when its first program counter and the values set from outside are 64-bit
  -- words and the packets that it receives hold bytes.
  pub Reachable-IsCpu : (cpu : Cpu) → Reachable cpu → IsCpu cpu
  unfolding simple_riscv64_set_reg
  Reachable-IsCpu _ (created rcv start_pc imem dmem cpu h made) =
      Holds-some IsCpu (create_simple_riscv64 rcv start_pc imem dmem) cpu
        (create_simple_riscv64-IsCpu rcv start_pc imem dmem h) made
  Reachable-IsCpu _ (was_set cpu cpu' reg val before h set) =
      Holds-some IsCpu (simple_riscv64_set_reg cpu reg val) cpu'
        (set_reg-IsCpu cpu reg val (Reachable-IsCpu cpu before) h) set
  Reachable-IsCpu _ (clocked cpu cpu' ret rest rest' before ran) =
      Holds-some (Kept e) (simple_riscv64_clock e self cpu rest) (ret, cpu', rest')
        (simple_riscv64_clock-IsCpu e self cpu rest (Reachable-IsCpu cpu before)) ran
  Reachable-IsCpu _ (received cpu cpu' from pkt ret rest rest' before bytes ran) =
      Holds-some (Kept e) (simple_riscv64_receive e self from cpu pkt rest) (ret, cpu', rest')
        (simple_riscv64_receive-IsCpu e self from cpu pkt rest (Reachable-IsCpu cpu before) bytes)
        ran
