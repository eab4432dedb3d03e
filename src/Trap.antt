-- ===== src/Trap.antt =====
-- crates/hardware/src/common/error.rs: the traps, their priority and the stage that found one.
use inspectre.Base.{ℕ}

pub data ExceptionStage : Type 0 where
  fetch decode execute memory : ExceptionStage

pub data Trap : Type 0 where
  instruction_address_misaligned : ℕ → Trap
  instruction_access_fault : ℕ → Trap
  illegal_instruction : ℕ → Trap
  breakpoint : ℕ → Trap
  load_address_misaligned : ℕ → Trap
  load_access_fault : ℕ → Trap
  store_address_misaligned : ℕ → Trap
  store_access_fault : ℕ → Trap
  environment_call_from_u_mode : Trap
  environment_call_from_s_mode : Trap
  environment_call_from_m_mode : Trap
  instruction_page_fault : ℕ → Trap
  load_page_fault : ℕ → Trap
  store_page_fault : ℕ → Trap
  user_software_interrupt : Trap
  supervisor_software_interrupt : Trap
  machine_software_interrupt : Trap
  machine_timer_interrupt : Trap
  supervisor_timer_interrupt : Trap
  machine_external_interrupt : Trap
  supervisor_external_interrupt : Trap
  user_external_interrupt : Trap
  requested_trap : ℕ → Trap
  double_fault : ℕ → Trap
