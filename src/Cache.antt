-- ===== src/Cache.antt =====
-- core/units/cache/policies/: which way of a set is replaced.
pub mod Fifo
pub mod Lru
pub mod Plru
pub mod Random
pub mod Policy
pub mod Sim
mod Tests
