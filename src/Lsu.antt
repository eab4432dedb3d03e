-- ===== src/Lsu.antt =====
-- core/units/lsu/: atomic read-modify-write operations and unaligned accesses.
pub mod Atomic
pub mod Unaligned
mod Tests
