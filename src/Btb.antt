-- ===== src/Btb.antt =====
-- core/units/bru/btb.rs: the direct-mapped branch target buffer. Addresses are u64.
pub mod Targets
mod Tests
use inspectre.Base.{
  ◌==◌, if◌then◌else◌, get_or, set, replicate, ℕ, ◌-◌, ◌/◌, ◌^◌, bit_and, Bool, true, false, ◌&&◌,
  Option, none, some, List,
}

pub record BtbEntry : Type 0 where
  pub tag : ℕ
  pub target : ℕ
  pub valid : Bool

abbrev pub default_entry : BtbEntry
default_entry = record { tag = 0; target = 0; valid = false }

pub record Btb : Type 0 where
  pub table : List BtbEntry
  pub size : ℕ

unfoldable pub new : ℕ → Btb
new size = record { table = replicate size default_entry; size = size }

abbrev pub index : Btb → ℕ → ℕ
index b pc = bit_and (pc / 2 ^ 2) (b.size - 1)

abbrev pub predicts : BtbEntry → ℕ → Option ℕ
predicts e pc = if e.valid && e.tag == pc then some e.target else none

pub lookup : Btb → ℕ → Option ℕ
lookup b pc = predicts (get_or b.table (index b pc) default_entry) pc

pub update : Btb → ℕ → ℕ → Btb
update b pc target = record b {
  table = set b.table (index b pc) (record { tag = pc; target = target; valid = true });
}
