-- ===== src/Cpu.antt =====
-- core/cpu/mod.rs: the state of the processor that the CSRs, the traps and the reservations touch.
--
-- Left out are the units that these never read or write: the bus and the memory, the second- and
-- third-level caches, the predictors, the pipeline, and what only the tracing output uses.
pub mod Trap
pub mod Csr
pub mod Interrupts
pub mod Status
pub mod Taken
pub mod Returns
pub mod Masks
pub mod Warl
mod Tests
use inspectre.Base.{◌==◌, clear, ℕ, ◌-◌, Bool, false, Option, none, some}
use inspectre.Cache.Sim.{CacheSim}
use inspectre.Csr.{Csrs}
use inspectre.Gpr.{Gpr}
use inspectre.Pmp.{Pmp}
use inspectre.Privilege.{PrivilegeMode}
use inspectre.Mmu.{Mmu}

pub record SimStats : Type 0 where
  pub cycles : ℕ
  pub instructions_retired : ℕ
  pub traps_taken : ℕ

pub record Cpu : Type 0 where
  pub regs : Gpr
  pub pc : ℕ
  pub direct_mode : Bool
  pub exit_code : Option ℕ
  pub csrs : Csrs
  pub privilege : PrivilegeMode
  pub load_reservation : Option ℕ
  pub mmu : Mmu
  pub pmp : Pmp
  pub l1_i_cache : CacheSim
  pub l1_d_cache : CacheSim
  pub stats : SimStats
  pub clint_divider : ℕ

abbrev pub reservation_granule : ℕ
reservation_granule = 64

unfoldable pub align_reservation_address : ℕ → ℕ
align_reservation_address addr = clear addr (reservation_granule - 1)

unfoldable pub set_reservation : Cpu → ℕ → Cpu
set_reservation c addr = record c { load_reservation = some (align_reservation_address addr) }

abbrev pub reserves : Option ℕ → ℕ → Bool
reserves none addr = false
reserves (some reserved_addr) addr = reserved_addr == align_reservation_address addr

unfoldable pub check_reservation : Cpu → ℕ → Bool
check_reservation c addr = reserves c.load_reservation addr

unfoldable pub clear_reservation : Cpu → Cpu
clear_reservation c = record c { load_reservation = none }

-- What was the exit code, and the processor without it.
unfoldable pub take_exit : Cpu → Option ℕ × Cpu
take_exit c = (c.exit_code, record c { exit_code = none })
