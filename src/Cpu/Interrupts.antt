-- ===== src/Cpu/Interrupts.antt =====
-- core/pipeline/backend/shared/commit.rs and core/arch/trap.rs: which pending interrupt is taken.
pub mod Priority
use inspectre.Base.{
  ltb, ◌==◌, if◌then◌else◌, has, ℕ, ◌^◌, Bool, true, false, not, ◌&&◌, ◌||◌, Option, none, some,
}
use inspectre.Cpu.{Cpu}
use inspectre.Csr.Fields
use inspectre.Privilege.{PrivilegeMode, is_mode, to_u8}
use inspectre.Trap.{Trap}

-- `TrapHandler::irq_to_trap`.
unfoldable pub irq_to_trap : ℕ → Trap
irq_to_trap irq =
    if irq == Fields.mip_usip
    then Trap.user_software_interrupt
    else if irq == Fields.mip_ssip
    then Trap.supervisor_software_interrupt
    else if irq == Fields.mip_msip
    then Trap.machine_software_interrupt
    else if irq == Fields.mip_stip
    then Trap.supervisor_timer_interrupt
    else if irq == Fields.mip_mtip
    then Trap.machine_timer_interrupt
    else if irq == Fields.mip_ueip
    then Trap.user_external_interrupt
    else if irq == Fields.mip_seip
    then Trap.supervisor_external_interrupt
    else if irq == Fields.mip_meip
    then Trap.machine_external_interrupt
    else Trap.machine_timer_interrupt

abbrev pub target_priv : Cpu → ℕ → PrivilegeMode
target_priv c deleg_bit =
    if has c.csrs.mideleg deleg_bit then PrivilegeMode.supervisor else PrivilegeMode.machine

-- Whether the processor's mode lets an interrupt of the target mode in.
unfoldable pub admits : Cpu → PrivilegeMode → Bool
admits c target =
    if ltb (to_u8 c.privilege) (to_u8 target)
    then true
    else (if is_mode c.privilege target
        then is_mode target PrivilegeMode.machine && has c.csrs.mstatus Fields.mstatus_mie
          || is_mode target PrivilegeMode.supervisor && has c.csrs.mstatus Fields.mstatus_sie
        else false)

-- The closure `check`.
unfoldable pub check : Cpu → ℕ → ℕ → ℕ → Option Trap
check c irq enable_bit deleg_bit =
    if not (has c.csrs.mip irq) || not (has c.csrs.mie enable_bit)
    then none
    else (if admits c (target_priv c deleg_bit) then some (irq_to_trap irq) else none)

abbrev pub or_else {ℓ} : {A : Type ℓ} → Option A → Option A → Option A
or_else none b = b
or_else (some a) b = some a

unfoldable pub check_interrupts : Cpu → Option Trap
check_interrupts c = or_else (check c Fields.mip_meip Fields.mie_meip (2 ^ 11)) (
    or_else (check c Fields.mip_msip Fields.mie_msip (2 ^ 3)) (
      or_else (check c Fields.mip_mtip Fields.mie_mtie (2 ^ 7)) (
        or_else (check c Fields.mip_seip Fields.mie_seip (2 ^ 9)) (
          or_else (check c Fields.mip_ssip Fields.mie_ssip (2 ^ 1))
            (check c Fields.mip_stip Fields.mie_stie (2 ^ 5))))))
