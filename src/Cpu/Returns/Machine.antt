-- ===== src/Cpu/Returns/Machine.antt =====
-- core/cpu/trap.rs: MRET after a trap to machine mode.
use inspectre.Base.{
  ◌==◌, has, clear, has-bit, Within, chain-Within, ℕ, ◌≡◌, refl, sym, subst, ◌∙◌, false, none,
}
use inspectre.Cpu.{Cpu, clear_reservation}
use inspectre.Cpu.Returns.{entered-mpie, entered-mpp, returned-mie}
use inspectre.Cpu.Status.{machine_mask, entered_mstatus-Within, returned_mstatus-Within}
use inspectre.Cpu.Taken.{trap-enter_m}
use inspectre.Cpu.Trap.{
  trap, enter_m, delegate_to_s, do_mret, entered_mstatus, returned_mstatus, cause_code, handler_pc,
}
use inspectre.Csr.Fields
use inspectre.Trap.{Trap}

-- The processor `d` stands where `c` stood, at `pc`, but for the interrupt stack of machine mode.
pub IsRestored : ℕ → Cpu → Cpu → Type 0
IsRestored pc d c =
    (d.pc ≡ pc)
    × (d.privilege ≡ c.privilege)
    × (has d.csrs.mstatus Fields.mstatus_mie ≡ has c.csrs.mstatus Fields.mstatus_mie)
    × Within machine_mask d.csrs.mstatus c.csrs.mstatus
    × (d.load_reservation ≡ none)

do_mret-enter_m :
    (c : Cpu) (t : Trap) (epc : ℕ) → IsRestored (clear epc 1) (do_mret (enter_m c t epc)) c
unfolding IsRestored do_mret enter_m clear_reservation
do_mret-enter_m c t epc =
    let m = c.csrs.mstatus in
    let e = entered_mstatus m c.privilege in
    (
      refl,
      entered-mpp m c.privilege,
      returned-mie e ∙ has-bit e 7 ∙ entered-mpie m c.privilege,
      chain-Within machine_mask (returned_mstatus e) e m (returned_mstatus-Within e)
          (entered_mstatus-Within m c.privilege),
      refl,
    )

-- Outside direct mode, an MRET right after a trap to machine mode (one that did not come from the
-- handler's own first instruction) resumes at the address of the trap with its lowest bit cleared, in
-- the mode and with the machine interrupt enable from before the trap; outside MIE, MPIE and MPP the
-- status is unchanged, and there is no reservation.
pub do_mret-trap :
    (c : Cpu) (t : Trap) (epc : ℕ)
    → c.direct_mode ≡ false
    → delegate_to_s c (cause_code t).0 (cause_code t).1 ≡ false
    → (epc == handler_pc c.csrs.mtvec (cause_code t).0 (cause_code t).1) ≡ false
    → IsRestored (clear epc 1) (do_mret (trap c t epc)) c
unfolding IsRestored
do_mret-trap c t epc direct deleg loop =
    subst (λ d. IsRestored (clear epc 1) (do_mret d) c)
      (sym (trap-enter_m c t epc direct deleg loop))
      (do_mret-enter_m (record c { load_reservation = none }) t epc)
