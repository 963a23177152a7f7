-- ===== src/Lib.antt =====
-- A model of gran, a simulator of computer hardware that is built of components.
--
-- The simulated machine is a set of components, which send packets to one another. A component has two
-- callbacks: `receive` takes a packet or refuses it with EBUSY, and `clock` does one cycle of work.
-- Clock domains tick their components, and the root ticks the domain that is furthest behind. The
-- routers and the ideal network carry packets between components; a bus does so by regions of
-- addresses; the memory, the serial port, the cache and the allocator answer them. The processor fetches
-- instructions and accesses data by packets.
--
-- The files, and the code that each is about:
--   Prelude: tests, arrays, machine words, single bits, and `Option` as the monad of failed assertions.
--   Packet: include/gran/packet.h. A packet is a record, its data a list of 64 bytes, its flags a number.
--     Each function keeps its name; the conversions to u8 ... i64 share one little-endian load.
--   Component: include/gran/component.h and the codes of include/gran/common.h. `send`, and the interface
--     `Env` to the components around one component.
--   Reg: src/common.c. `place_reg`, `copy_reg` and `propagate`.
--   Vec: the interface to the vector of conts/vec.h, which other repositories provide.
--   Clock: src/clock_domain.c. `advance_clock`, `clock_domain_tick` and the comparisons of times.
--   Root: src/root.c. `most_delayed_domain` and `root_run`.
--   Mem: src/mem/simple_mem.c. Uart: src/uart/simple_uart.c. Bus: src/bus/simple_bus.c.
--   Noc: src/ideal_noc.c and include/gran/ideal_noc.h.
--   Mesh: what src/mesh/node1d.c, node2d.c and node3d.c have in common; Mesh/Line, Mesh/Plane and
--     Mesh/Space are these three routers.
--   Cache: src/cache/simt_cache.c.
--   Bfly: src/bfly/fat_bfly.c, include/gran/bfly/fat_bfly.h and include/gran/utils.h.
--   Alloc: src/mem/ideal_alloc.c and include/gran/if/alloc.h. Tree: the interface to the ordered set of
--     conts/sptree.h, which other repositories provide.
--   Cpu: src/cpu/riscv/simple_riscv64.c. Cpu/Insn decodes, Cpu/State is the state, Cpu/Alu the instructions
--     that touch no memory, Cpu/Access the loads and stores, Cpu/Cycle the callbacks.
--   Simt: src/cpu/riscv/simt_riscv64.c. A lane is a processor of Cpu; what it sends comes back into the
--     group through the environment `lane_env`. Simt/Cycle answers the lanes and clocks them.
--   Tests: runs at concrete inputs.
-- Below each of these stand the modules of its proofs.
--
-- State is passed explicitly: an operation takes the record of its component and returns it with the
-- code that the C function returns. `none` is a program that has stopped: a failed assert, abort, or
-- an access that C leaves undefined (out of range, through NULL, a division by zero). Assertions are
-- kept, as in a debug build. Machine integers are natural numbers, with their wrap-around written
-- out (`u64`, `u32`). A pointer to a component is a number, and NULL is `none`.
--
-- What other components do in a callback is a parameter (`Env`, `Clocked`): a function on their own
-- state. It is assumed not to call back into the sender during the call. A pointer into an array of
-- registers is its place in the array, read again at each use, so that two pointers to one register
-- see each other's writes.
--
-- Loops over an array are recursion on the number of rounds that are left. Two loops need fuel. The
-- loop of `advance_clock` makes at most 2^64 / SEC(1) rounds, which is less than the fuel
-- `carry_fuel`; `root_run` may run for ever, and takes its fuel as an argument.
--
-- In the processor a signed sum wraps and a shift by 64 or more is undefined, which is `none`. What its
-- callbacks do in one call is one function for each phase of the C function, by the state of the request
-- that the phase tests.
--
-- Not modelled: memory that runs out, destructors, log messages, the device tree and statistics
-- callbacks; conts/vec.h and conts/sptree.h, which are not in the repository.
pub mod Prelude
pub mod Packet
pub mod Component
pub mod Reg
pub mod Tree
pub mod Vec
pub mod Clock
pub mod Root
pub mod Mem
pub mod Uart
pub mod Alloc
pub mod Bfly
pub mod Bus
pub mod Noc
pub mod Mesh
pub mod Cache
pub mod Cpu
pub mod Simt
pub mod Tests
