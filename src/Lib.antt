-- ===== src/Lib.antt =====
-- The core of rvsim's cycle-accurate RISC-V simulator (crates/hardware), as definitions that
-- compute and theorems about them.
--
-- The program and the files that model it. Paths are from the repository's root;
-- core/ stands for crates/hardware/src/core.
--
-- - Base: lists, slots of a circular buffer, and tests on numbers, shared by the components.
-- - Trap: crates/hardware/src/common/error.rs, the traps and the pipeline stages.
-- - Signals: core/pipeline/signals.rs, the control signals of a decoded instruction.
-- - Rob: core/pipeline/rob.rs, the reorder buffer. Rob/Spec is the queue that it promises to be,
--   Rob/Invariant its representation invariant.
-- - Scoreboard: core/pipeline/scoreboard.rs. Scoreboard/Tracking has the steps by which the
--   stages of the in-order engine change reorder buffer and scoreboard together.
-- - StoreBuffer: core/pipeline/store_buffer.rs, the pending stores. StoreBuffer/Spec is the queue
--   that it promises to be, StoreBuffer/Memory the little-endian memory that its stores drain to, as
--   core/pipeline/backend/shared/commit.rs writes them.
-- - Pmp: core/units/mmu/pmp.rs, physical memory protection.
-- - Tlb: core/units/mmu/tlb.rs, the translation lookaside buffer.
-- - Btb, Ras: core/units/bru/btb.rs and ras.rs, the branch target buffer and the return address
--   stack.
-- - Bru: static_bp.rs, gshare.rs and tournament.rs beside them, the predictors of directions.
-- - Cache: core/units/cache/, the tags of a set-associative cache (Cache/Sim) and its replacement
--   policies, which Cache/Policy puts behind one interface.
-- - Prefetch: core/units/prefetch/, the prefetchers, behind one interface.
-- - Fpu: core/units/fpu/nan_handling.rs, the boxing of single-precision numbers, on their bits.
-- - Fence: core/units/lsu/ordering.rs, the operands of FENCE.
-- - Csr, Privilege, Gpr: core/arch/csr.rs, mode.rs and gpr.rs, the control and status registers, the
--   privilege modes and the general-purpose registers.
-- - Cpu: core/cpu/mod.rs, trap.rs and csr.rs, the entry of traps and the returns (Cpu/Trap), CSR
--   accesses (Cpu/Csr), and, of core/pipeline/backend/shared/commit.rs, the choice of an interrupt
--   (Cpu/Interrupts).
-- - Mmu: core/units/mmu/ptw.rs and mod.rs, the page table walk (Mmu/Walk) and the translation of
--   addresses (Mmu/Translate).
-- - Bus: crates/hardware/src/soc/interconnect.rs and memory/mod.rs, the 64-bit accesses of the bus to
--   the memory, which stands behind it as its one device.
-- - Alu: core/units/alu/, the integer operations.
-- - Lsu: core/units/lsu/atomic.rs and unaligned.rs, atomic operations and split accesses.
-- - Plic, Clint: crates/hardware/src/soc/devices/plic.rs and clint.rs, the interrupt controller and
--   the timer. The processor takes their results as bits of the register MIP, which stands in Csr.
--
-- How they interact: the stages of the in-order engine call the reorder buffer and the scoreboard
-- together, and Scoreboard/Tracking states these calls as the steps of one relation. Stores stand in
-- the store buffer under the tag of their reorder buffer entry until they commit and drain. A
-- CSR write reaches the translation buffers, the caches and physical memory protection; the walk
-- fills the translation buffers and reaches memory through an interface, Mmu's BusOps. Its laws
-- (BusLaws) speak of the aligned words of memory only, and Bus/Words has them of the bus with the
-- memory, whose words are eight bytes, the lowest first. Devices, unmapped addresses and the other
-- state of the bus (which device it found last) are outside them.
--
-- Machine integers are natural numbers, with the wrap-around written out where the code's sums and
-- shifts can overflow; there the model is that of a build without overflow checks. Tags are u32 and
-- wrap at 2 ^ 32; a theorem that needs the next tag to be free says so. Fuel: the two unbounded
-- loops of `Rob::flush_after` are given the capacity, which is more than the rounds that they make on
-- a valid buffer; `next_power_of_two` is given 64 doublings, which reach 2 ^ 64. All other loops
-- count their rounds as the code does.
--
-- Signed integers stand by their two's complements. The walk counts its three levels down.
--
-- Not modelled: floating-point arithmetic, which is the machine's; the decoder and the pipeline
-- stages, which stand on these components; the other direction predictors, which affect timing only;
-- the routing of the bus to other devices than the memory, and the memory controller; those devices,
-- the loader, the Python bindings, tracing and statistics, which are input and output.
pub mod Base
pub mod Trap
pub mod Signals
pub mod Rob
pub mod Scoreboard
pub mod StoreBuffer
pub mod Pmp
pub mod Prefetch
pub mod Tlb
pub mod Mmu
pub mod Bus
pub mod Alu
pub mod Lsu
pub mod Plic
pub mod Clint
pub mod Btb
pub mod Bru
pub mod Ras
pub mod Fpu
pub mod Fence
pub mod Cache
pub mod Csr
pub mod Cpu
pub mod Gpr
pub mod Privilege
