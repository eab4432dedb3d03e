-- ===== src/Cache/Fifo.antt =====
-- core/units/cache/policies/fifo.rs: replacement in the order of the ways.
pub mod Rotation
use inspectre.Base.{◌==◌, if◌then◌else◌, get_or, set, replicate, slot, ℕ, List}

pub record FifoPolicy : Type 0 where
  pub next_way : List ℕ
  pub ways : ℕ

unfoldable pub new : ℕ → ℕ → FifoPolicy
new sets ways = record { next_way = replicate sets 0; ways = ways }

abbrev pub get_victim : FifoPolicy → ℕ → ℕ
get_victim p idx = get_or p.next_way idx 0

pub update : FifoPolicy → ℕ → ℕ → FifoPolicy
update p idx way =
    if get_victim p idx == way
    then record p { next_way = set p.next_way idx (slot p.ways (get_victim p idx) 1) }
    else p
