-- ===== src/Cpu/Trap.antt =====
-- core/cpu/trap.rs: the entry of a trap, and the returns from one. Nothing of the tracing output is
-- modelled. Sums wrap at 2 ^ 64 and shift counts at 64, as in a build without overflow checks.
use inspectre.Base.{
  ltb, leb, ◌==◌, if◌then◌else◌, has, clear, merge, assign, ℕ, ◌+◌, ◌-◌, ◌*◌, ◌/◌, ◌%◌, ◌^◌,
  bit_and, bit_or, Bool, true, false, not, ◌&&◌, ◌||◌, none, some,
}
use inspectre.Cpu.{Cpu, SimStats, clear_reservation}
use inspectre.Csr.{Csrs}
use inspectre.Csr.Fields
use inspectre.Gpr.{read}
use inspectre.Privilege.{PrivilegeMode, is_mode, to_u8, from_u8}
use inspectre.Trap.{Trap}

abbrev pub is_ecall : Trap → Bool
is_ecall t = elim t [
  | Trap.environment_call_from_u_mode ↦ true
  | Trap.environment_call_from_s_mode ↦ true
  | Trap.environment_call_from_m_mode ↦ true
  | _ ↦ false
]

-- Whether the trap is an interrupt, and its code without the interrupt bit.
abbrev pub cause_code : Trap → Bool × ℕ
cause_code t = elim t [
  | Trap.instruction_address_misaligned a ↦ (false, 0)
  | Trap.instruction_access_fault a ↦ (false, 1)
  | Trap.illegal_instruction i ↦ (false, 2)
  | Trap.breakpoint a ↦ (false, 3)
  | Trap.load_address_misaligned a ↦ (false, 4)
  | Trap.load_access_fault a ↦ (false, 5)
  | Trap.store_address_misaligned a ↦ (false, 6)
  | Trap.store_access_fault a ↦ (false, 7)
  | Trap.environment_call_from_u_mode ↦ (false, 8)
  | Trap.environment_call_from_s_mode ↦ (false, 9)
  | Trap.environment_call_from_m_mode ↦ (false, 11)
  | Trap.instruction_page_fault a ↦ (false, 12)
  | Trap.load_page_fault a ↦ (false, 13)
  | Trap.store_page_fault a ↦ (false, 15)
  | Trap.user_software_interrupt ↦ (true, 0)
  | Trap.supervisor_software_interrupt ↦ (true, 1)
  | Trap.machine_software_interrupt ↦ (true, 3)
  | Trap.supervisor_timer_interrupt ↦ (true, 5)
  | Trap.machine_timer_interrupt ↦ (true, 7)
  | Trap.user_external_interrupt ↦ (true, 8)
  | Trap.supervisor_external_interrupt ↦ (true, 9)
  | Trap.machine_external_interrupt ↦ (true, 11)
  | Trap.requested_trap code ↦ (false, code)
  | Trap.double_fault a ↦ (false, 18)
]

abbrev pub tval_of : Trap → ℕ
tval_of t = elim t [
  | Trap.instruction_address_misaligned a ↦ a
  | Trap.instruction_access_fault a ↦ a
  | Trap.load_address_misaligned a ↦ a
  | Trap.load_access_fault a ↦ a
  | Trap.store_address_misaligned a ↦ a
  | Trap.store_access_fault a ↦ a
  | Trap.instruction_page_fault a ↦ a
  | Trap.load_page_fault a ↦ a
  | Trap.store_page_fault a ↦ a
  | Trap.illegal_instruction i ↦ i
  | _ ↦ 0
]

abbrev pub sys_exit : ℕ
sys_exit = 93

abbrev pub is_illegal_zero : Trap → Bool
is_illegal_zero t = elim t [ Trap.illegal_instruction i ↦ i == 0 | _ ↦ false ]

-- The exit code of a trap in direct mode, where every trap ends the run.
unfoldable pub direct_exit : Cpu → Trap → ℕ
direct_exit c cause =
    if is_ecall cause
    then (if read c.regs 17 == sys_exit
        then read c.regs 10
        else (if read c.regs 10 == sys_exit then read c.regs 11 else 1))
    else (if is_illegal_zero cause then 0 else 1)

abbrev pub deleg_mask : Cpu → Bool → ℕ
deleg_mask c is_interrupt = if is_interrupt then c.csrs.mideleg else c.csrs.medeleg

-- Whether the mask hands the trap to supervisor mode.
unfoldable pub delegated : Cpu → Bool → ℕ → Bool
delegated c is_interrupt code =
    leb (to_u8 c.privilege) 1 && has (deleg_mask c is_interrupt / 2 ^ (code % 64)) 1

-- An exception in user mode goes to supervisor mode although it is not delegated, where that mode
-- has a handler.
unfoldable pub delegate_to_s : Cpu → Bool → ℕ → Bool
delegate_to_s c is_interrupt code =
    delegated c is_interrupt code
    || is_mode c.privilege PrivilegeMode.user && not is_interrupt && not (clear c.csrs.stvec 3 == 0)

abbrev pub vector_offset : ℕ → Bool → ℕ → ℕ
vector_offset tvec is_interrupt code = if has tvec 1 && is_interrupt then 4 * code % 2 ^ 64 else 0

-- `trap_handler_pc`.
unfoldable pub handler_pc : ℕ → Bool → ℕ → ℕ
handler_pc tvec is_interrupt code = (clear tvec 3 + vector_offset tvec is_interrupt code) % 2 ^ 64

abbrev pub cause_value : Bool → ℕ → ℕ
cause_value is_interrupt code =
    if is_interrupt then bit_or Fields.cause_interrupt_bit code else code

abbrev pub kernel_phys_base : ℕ
kernel_phys_base = 2149580800

abbrev pub kernel_virt_base : ℕ
kernel_virt_base = 2 ^ 64 - 2 ^ 31

-- The relocation of a program counter that still is physical while translation is on.
unfoldable pub relocated : ℕ → ℕ → ℕ
relocated satp epc =
    if not (satp / 2 ^ 60 == 0)
      && (leb kernel_phys_base epc && ltb epc (kernel_phys_base + 33554432))
      && ltb epc kernel_virt_base
    then (epc + (kernel_virt_base - kernel_phys_base)) % 2 ^ 64
    else epc

-- `sstatus` on entry to supervisor mode.
unfoldable pub entered_sstatus : ℕ → PrivilegeMode → ℕ
entered_sstatus sstatus privilege =
    let saved = assign (has sstatus Fields.mstatus_sie) sstatus Fields.mstatus_spie in
    let pushed = assign (is_mode privilege PrivilegeMode.supervisor) saved Fields.mstatus_spp in
    clear pushed Fields.mstatus_sie

unfoldable pub entered_mstatus : ℕ → PrivilegeMode → ℕ
entered_mstatus mstatus privilege =
    let saved = assign (has mstatus Fields.mstatus_mie) mstatus Fields.mstatus_mpie in
    let pushed = bit_or (clear saved Fields.mstatus_mpp) (to_u8 privilege * 2 ^ 11) in
    clear pushed Fields.mstatus_mie

abbrev pub count_trap : SimStats → SimStats
count_trap s = record s { traps_taken = s.traps_taken + 1 }

unfoldable pub enter_s : Cpu → Trap → ℕ → Cpu
enter_s c cause epc =
    let is_interrupt = (cause_code cause).0 in
    let code = (cause_code cause).1 in
    let sstatus = entered_sstatus c.csrs.sstatus c.privilege in
    record c {
      csrs = record c.csrs {
        scause = cause_value is_interrupt code;
        sepc = relocated c.csrs.satp epc;
        stval = tval_of cause;
        sstatus = sstatus;
        mstatus = merge Fields.sstatus_mask c.csrs.mstatus sstatus;
      };
      privilege = PrivilegeMode.supervisor;
      pc = handler_pc c.csrs.stvec is_interrupt code;
      stats = count_trap c.stats;
    }

-- Without a machine handler the one of supervisor mode is used.
unfoldable pub machine_pc : Csrs → Bool → ℕ → ℕ
machine_pc csrs is_interrupt code =
    if clear csrs.mtvec 3 == 0
    then (if not (clear csrs.stvec 3 == 0) then clear csrs.stvec 3 else clear csrs.mtvec 3)
    else handler_pc csrs.mtvec is_interrupt code

unfoldable pub enter_m : Cpu → Trap → ℕ → Cpu
enter_m c cause epc =
    let is_interrupt = (cause_code cause).0 in
    let code = (cause_code cause).1 in
    record c {
      csrs = record c.csrs {
        mcause = cause_value is_interrupt code;
        mepc = epc;
        mtval = tval_of cause;
        mstatus = entered_mstatus c.csrs.mstatus c.privilege;
      };
      privilege = PrivilegeMode.machine;
      pc = machine_pc c.csrs is_interrupt code;
      stats = count_trap c.stats;
    }

-- The entry, or the end of the run where the trap came from its own handler.
unfoldable pub dispatch : Cpu → Trap → ℕ → Cpu
dispatch c cause epc =
    let is_interrupt = (cause_code cause).0 in
    let code = (cause_code cause).1 in
    if delegate_to_s c is_interrupt code
    then (if epc == handler_pc c.csrs.stvec is_interrupt code
        then record c { exit_code = some 102 }
        else enter_s c cause epc)
    else (if epc == handler_pc c.csrs.mtvec is_interrupt code
        then record c { exit_code = some 102 }
        else enter_m c cause epc)

unfoldable pub trap : Cpu → Trap → ℕ → Cpu
trap c cause epc =
    let d = record c { load_reservation = none } in
    if d.direct_mode
    then record d { exit_code = some (direct_exit d cause) }
    else dispatch d cause epc

unfoldable pub returned_mstatus : ℕ → ℕ
returned_mstatus mstatus =
    let enabled = assign (has mstatus Fields.mstatus_mpie) mstatus Fields.mstatus_mie in
    clear (bit_or enabled Fields.mstatus_mpie) Fields.mstatus_mpp

unfoldable pub do_mret : Cpu → Cpu
do_mret c =
    let d = clear_reservation c in
    record d {
      pc = clear d.csrs.mepc 1;
      privilege = from_u8 (bit_and (d.csrs.mstatus / 2 ^ 11) 3);
      csrs = record d.csrs { mstatus = returned_mstatus d.csrs.mstatus };
    }

unfoldable pub returned_sstatus : ℕ → ℕ
returned_sstatus sstatus =
    let enabled = assign (has sstatus Fields.mstatus_spie) sstatus Fields.mstatus_sie in
    clear (bit_or enabled Fields.mstatus_spie) Fields.mstatus_spp

unfoldable pub do_sret : Cpu → Cpu
do_sret c =
    let d = clear_reservation c in
    let sstatus = returned_sstatus d.csrs.sstatus in
    record d {
      pc = relocated d.csrs.satp (clear d.csrs.sepc 1);
      privilege =
          if has d.csrs.sstatus Fields.mstatus_spp
          then PrivilegeMode.supervisor
          else PrivilegeMode.user;
      csrs = record d.csrs {
        sstatus = sstatus;
        mstatus = merge Fields.sstatus_mask d.csrs.mstatus sstatus;
      };
    }
