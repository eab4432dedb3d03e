-- ===== src/Mmu.antt =====
-- core/units/mmu/: the translation of addresses. The bus is what the walk needs of it.
pub mod Walk
pub mod Translate
mod Tests
use inspectre.Base.{
  ◌==◌, if◌then◌else◌, ℕ, ◌%◌, ◌^◌, ◌<◌, ◌≡◌, Bool, true, false, Option, none, some,
}
use inspectre.Tlb.{Tlb}
use inspectre.Tlb
use inspectre.Trap.{Trap}

-- `AccessType` of common/data.rs.
pub data AccessType : Type 0 where
  fetch read write : AccessType

abbrev pub is_fetch : AccessType → Bool
is_fetch AccessType.fetch = true
is_fetch AccessType.read = false
is_fetch AccessType.write = false

abbrev pub is_read : AccessType → Bool
is_read AccessType.fetch = false
is_read AccessType.read = true
is_read AccessType.write = false

abbrev pub is_write : AccessType → Bool
is_write AccessType.fetch = false
is_write AccessType.read = false
is_write AccessType.write = true

-- `TranslationResult` of common/error.rs.
pub record TranslationResult : Type 0 where
  pub paddr : ℕ
  pub cycles : ℕ
  pub trap : Option Trap

abbrev pub success : ℕ → ℕ → TranslationResult
success paddr cycles = record { paddr = paddr; cycles = cycles; trap = none }

abbrev pub fault : Trap → ℕ → TranslationResult
fault trap cycles = record { paddr = 0; cycles = cycles; trap = some trap }

unfoldable pub page_fault : ℕ → AccessType → Trap
page_fault addr AccessType.fetch = Trap.instruction_page_fault addr
page_fault addr AccessType.read = Trap.load_page_fault addr
page_fault addr AccessType.write = Trap.store_page_fault addr

pub record Mmu : Type 0 where
  pub dtlb : Tlb
  pub itlb : Tlb

unfoldable pub new : ℕ → Mmu
new tlb_size = record { dtlb = Tlb.new tlb_size; itlb = Tlb.new tlb_size }

-- The operations of the bus that a walk calls; `peek` is the word that a read would see, and
-- `in_ram` tells the addresses whose eight bytes are in memory.
pub record BusOps (B : Type 0) : Type 0 where
  pub calculate_transit_time : B → ℕ → ℕ
  pub read_u64 : B → ℕ → ℕ × B
  pub write_u64 : B → ℕ → ℕ → B
  pub peek : B → ℕ → ℕ
  pub in_ram : ℕ → Bool

-- An aligned word of memory.
abbrev pub Word : {B : Type 0} → BusOps B → ℕ → Type 0
Word ops addr = (ops.in_ram addr ≡ true) × (addr % 8 ≡ 0)

-- On memory: a read yields what is stored, a u64, and changes no word of it, and a write of a u64
-- changes the word at its address and no other. Nothing is asked of other addresses.
pub record BusLaws (B : Type 0) (ops : BusOps B) : Type 0 where
  pub word : (b : B) (addr : ℕ) → Word ops addr → ops.peek b addr < 2 ^ 64
  pub read-value : (b : B) (addr : ℕ) → Word ops addr → (ops.read_u64 b addr).0 ≡ ops.peek b addr
  pub read-keeps :
      (b : B) (addr a : ℕ)
      → Word ops addr
      → Word ops a
      → ops.peek (ops.read_u64 b addr).1 a ≡ ops.peek b a
  pub write-value :
      (b : B) (addr val a : ℕ)
      → Word ops addr
      → Word ops a
      → val < 2 ^ 64
      → ops.peek (ops.write_u64 b addr val) a ≡ (if a == addr then val else ops.peek b a)
