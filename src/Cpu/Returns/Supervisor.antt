-- ===== src/Cpu/Returns/Supervisor.antt =====
-- core/cpu/trap.rs: SRET after a trap to supervisor mode.
use inspectre.Base.{
  ◌==◌, if◌then◌else◌, has, clear, Within, chain-Within, ℕ, ◌≤◌, ◌≡◌, refl, sym, ap, subst, ◌∙◌,
  true, false, none, arith,
}
use inspectre.Cpu.{Cpu, clear_reservation}
use inspectre.Cpu.Returns.{entered-spie, entered-spp, returned-sie, mode_bit}
use inspectre.Cpu.Status.{entered_sstatus-Within, returned_sstatus-Within}
use inspectre.Cpu.Taken.{trap-enter_s, delegate_to_s-below}
use inspectre.Cpu.Trap.{
  trap, enter_s, delegate_to_s, do_sret, entered_sstatus, returned_sstatus, cause_code, handler_pc,
  relocated,
}
use inspectre.Csr.Fields
use inspectre.Privilege.{PrivilegeMode, to_u8}
use inspectre.Trap.{Trap}

pub IsRestored : ℕ → Cpu → Cpu → Type 0
IsRestored pc d c =
    (d.pc ≡ pc)
    × (d.privilege ≡ c.privilege)
    × (has d.csrs.sstatus Fields.mstatus_sie ≡ has c.csrs.sstatus Fields.mstatus_sie)
    × Within Fields.sstatus_mask d.csrs.sstatus c.csrs.sstatus
    × (d.load_reservation ≡ none)

-- The mode that SPP stands for, below machine mode.
popped :
    (p : PrivilegeMode)
    → to_u8 p ≤ 1
    → (if mode_bit p then PrivilegeMode.supervisor else PrivilegeMode.user) ≡ p
unfolding to_u8
popped PrivilegeMode.user h = refl
popped PrivilegeMode.supervisor h = refl
popped PrivilegeMode.machine h = absurd (omega arith)

do_sret-enter_s :
    (c : Cpu) (t : Trap) (epc : ℕ)
    → to_u8 c.privilege ≤ 1
    → IsRestored
        (relocated c.csrs.satp (clear (relocated c.csrs.satp epc) 1))
        (do_sret (enter_s c t epc))
        c
unfolding IsRestored do_sret enter_s clear_reservation
do_sret-enter_s c t epc h =
    let s = c.csrs.sstatus in
    let e = entered_sstatus s c.privilege in
    (
      refl,
      ap (λ b. if b then PrivilegeMode.supervisor else PrivilegeMode.user)
            (entered-spp s c.privilege)
          ∙ popped c.privilege h,
      returned-sie e ∙ entered-spie s c.privilege,
      chain-Within Fields.sstatus_mask (returned_sstatus e) e s (returned_sstatus-Within e)
          (entered_sstatus-Within s c.privilege),
      refl,
    )

-- Outside direct mode, an SRET right after a trap to supervisor mode (one that did not come from the
-- handler's own first instruction) resumes at the address of the trap, relocated and with its lowest
-- bit cleared, in the mode and with the supervisor interrupt enable from before the trap; outside SIE,
-- SPIE and SPP the supervisor status is unchanged, and there is no reservation.
pub do_sret-trap :
    (c : Cpu) (t : Trap) (epc : ℕ)
    → c.direct_mode ≡ false
    → delegate_to_s c (cause_code t).0 (cause_code t).1 ≡ true
    → (epc == handler_pc c.csrs.stvec (cause_code t).0 (cause_code t).1) ≡ false
    → IsRestored
        (relocated c.csrs.satp (clear (relocated c.csrs.satp epc) 1))
        (do_sret (trap c t epc))
        c
unfolding IsRestored
do_sret-trap c t epc direct deleg loop =
    subst
      (λ d. IsRestored (relocated c.csrs.satp (clear (relocated c.csrs.satp epc) 1)) (do_sret d) c)
      (sym (trap-enter_s c t epc direct deleg loop))
      (do_sret-enter_s (record c { load_reservation = none }) t epc
        (delegate_to_s-below c (cause_code t).0 (cause_code t).1 deleg))
