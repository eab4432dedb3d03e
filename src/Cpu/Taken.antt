-- ===== src/Cpu/Taken.antt =====
-- core/cpu/trap.rs: which mode takes a trap.
use native.Mathlib.Nat.{le_refl}
use inspectre.Base.{
  leb, ◌==◌, if◌then◌else◌, Bool-cases, if_either, if_true, if_false, has, clear, ℕ, ◌/◌, ◌%◌, ◌^◌,
  ◌≤◌, ◌≡◌, sym, subst, ◌∙◌, inl, inr, Bool, true, false, not, ◌&&◌, ◌||◌, none, some, arith,
}
use inspectre.Cpu.{Cpu}
use inspectre.Cpu.Trap.{
  trap, dispatch, direct_exit, enter_s, enter_m, delegate_to_s, delegated, deleg_mask, cause_code,
  handler_pc,
}
use inspectre.Privilege.{PrivilegeMode, is_mode, to_u8}
use inspectre.Trap.{Trap}

-- The entry that a trap outside direct mode is, when it does not come from its own handler.
module _ (c : Cpu) (t : Trap) (epc : ℕ) (direct : c.direct_mode ≡ false) where
  pub trap-enter_m :
      delegate_to_s c (cause_code t).0 (cause_code t).1 ≡ false
      → (epc == handler_pc c.csrs.mtvec (cause_code t).0 (cause_code t).1) ≡ false
      → trap c t epc ≡ enter_m (record c { load_reservation = none }) t epc
  unfolding trap dispatch delegate_to_s delegated
  trap-enter_m deleg loop =
      if_false c.direct_mode _ _ direct
      ∙ if_false (delegate_to_s c (cause_code t).0 (cause_code t).1) _ _ deleg
      ∙ if_false (epc == handler_pc c.csrs.mtvec (cause_code t).0 (cause_code t).1) _ _ loop

  pub trap-enter_s :
      delegate_to_s c (cause_code t).0 (cause_code t).1 ≡ true
      → (epc == handler_pc c.csrs.stvec (cause_code t).0 (cause_code t).1) ≡ false
      → trap c t epc ≡ enter_s (record c { load_reservation = none }) t epc
  unfolding trap dispatch delegate_to_s delegated
  trap-enter_s deleg loop =
      if_false c.direct_mode _ _ direct
      ∙ if_true (delegate_to_s c (cause_code t).0 (cause_code t).1) _ _ deleg
      ∙ if_false (epc == handler_pc c.csrs.stvec (cause_code t).0 (cause_code t).1) _ _ loop

-- Supervisor mode takes no trap from machine mode.
pub delegate_to_s-below :
    (c : Cpu) (i : Bool) (code : ℕ) → delegate_to_s c i code ≡ true → to_u8 c.privilege ≤ 1
unfolding delegate_to_s delegated to_u8
delegate_to_s-below c i code h =
    below c.privilege (has (deleg_mask c i / 2 ^ (code % 64)) 1) (not i)
      (not (clear c.csrs.stvec 3 == 0)) h
  where
    below :
        (p : PrivilegeMode) (a b d : Bool)
        → (leb (to_u8 p) 1 && a || is_mode p PrivilegeMode.user && b && d) ≡ true
        → to_u8 p ≤ 1
    below PrivilegeMode.user a b d e = omega arith
    below PrivilegeMode.supervisor a b d e = omega arith
    below PrivilegeMode.machine a b d e = absurd (cc)

abbrev Above : Cpu → Cpu → Type 0
Above c d = to_u8 c.privilege ≤ to_u8 d.privilege

highest : (p : PrivilegeMode) → to_u8 p ≤ 3
unfolding to_u8
highest PrivilegeMode.user = omega arith
highest PrivilegeMode.supervisor = omega arith
highest PrivilegeMode.machine = omega arith

enter_s-Above : (c : Cpu) (t : Trap) (epc : ℕ) → to_u8 c.privilege ≤ 1 → Above c (enter_s c t epc)
unfolding enter_s to_u8
enter_s-Above c t epc h = h

enter_m-Above : (c : Cpu) (t : Trap) (epc : ℕ) → Above c (enter_m c t epc)
unfolding enter_m to_u8
enter_m-Above c t epc = highest c.privilege

dispatch-Above : (c : Cpu) (t : Trap) (epc : ℕ) → Above c (dispatch c t epc)
unfolding dispatch
dispatch-Above c t epc =
    let looped = record c { exit_code = some 102 } in
    let s = epc == handler_pc c.csrs.stvec (cause_code t).0 (cause_code t).1 in
    let m = epc == handler_pc c.csrs.mtvec (cause_code t).0 (cause_code t).1 in
    elim (Bool-cases (delegate_to_s c (cause_code t).0 (cause_code t).1)) [
      | inl e ↦
          subst (Above c)
            (sym (
              if_true _ (if s then looped else enter_s c t epc)
                (if m then looped else enter_m c t epc) e))
            (if_either (Above c) s looped (enter_s c t epc) (le_refl (to_u8 c.privilege))
              (enter_s-Above c t epc (delegate_to_s-below c _ _ e)))
      | inr e ↦
          subst (Above c)
            (sym (
              if_false _ (if s then looped else enter_s c t epc)
                (if m then looped else enter_m c t epc) e))
            (if_either (Above c) m looped (enter_m c t epc) (le_refl (to_u8 c.privilege))
              (enter_m-Above c t epc))
    ]

-- A trap does not lower the privilege.
pub privilege-trap :
    (c : Cpu) (t : Trap) (epc : ℕ) → to_u8 c.privilege ≤ to_u8 (trap c t epc).privilege
unfolding trap
privilege-trap c t epc =
    let d = record c { load_reservation = none } in
    if_either (Above c) d.direct_mode (record d { exit_code = some (direct_exit d t) })
      (dispatch d t epc) (le_refl (to_u8 c.privilege)) (dispatch-Above d t epc)
