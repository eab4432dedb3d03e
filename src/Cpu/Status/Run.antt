-- ===== src/Cpu/Status/Run.antt =====
-- The operations that write the status registers, one after another.
use inspectre.Base.{
  [], ◌==◌, if◌then◌else◌, if_either, bit_and-le, clear, bit_or-lt, merge-lt, clear-word, set_seen,
  ℕ, ◌-◌, bit_and, bit_or, refl, ap, ◌∙◌, none, some, List, ◌∷◌, arith,
}
use inspectre.Cpu.{Cpu, clear_reservation}
use inspectre.Cpu.Csr.{
  csr_write, write_arms, write_satp, write_mstatus, write_sstatus, written_mstatus, is_pmpaddr,
  set_cfgs,
}
use inspectre.Pmp.{set_addr}
use inspectre.Cpu.Trap.{
  trap, direct_exit, dispatch, enter_s, enter_m, delegate_to_s, do_mret, do_sret, entered_sstatus,
  entered_mstatus, returned_mstatus, returned_sstatus, cause_code, handler_pc,
}
use inspectre.Cpu.Status.{
  entered_sstatus-word, entered_mstatus-word, returned_sstatus-word, returned_mstatus-word,
  IsSynced, mark_fp_dirty, merged-IsSynced, unseen-IsSynced, machine_mask, entered_sstatus-Within,
  returned_sstatus-Within, entered_mstatus-Within, returned_mstatus-Within,
}
use inspectre.Csr.{Csrs, select, AllArms, select-All}
use inspectre.Csr.Addr
use inspectre.Csr.Fields
use inspectre.Trap.{Trap}

enter_s-IsSynced :
    (c : Cpu) (t : Trap) (epc : ℕ) → IsSynced c.csrs → IsSynced (enter_s c t epc).csrs
unfolding enter_s IsSynced
enter_s-IsSynced c t epc h =
    merged-IsSynced c.csrs (entered_sstatus c.csrs.sstatus c.privilege) h
      (entered_sstatus-word c.csrs.sstatus c.privilege)
      (entered_sstatus-Within c.csrs.sstatus c.privilege)

enter_m-IsSynced :
    (c : Cpu) (t : Trap) (epc : ℕ) → IsSynced c.csrs → IsSynced (enter_m c t epc).csrs
unfolding enter_m IsSynced
enter_m-IsSynced c t epc h =
    unseen-IsSynced c.csrs machine_mask (entered_mstatus c.csrs.mstatus c.privilege) h
      (entered_mstatus-word c.csrs.mstatus c.privilege) refl
      (entered_mstatus-Within c.csrs.mstatus c.privilege)

abbrev SyncedCpu : Cpu → Type 0
SyncedCpu c = IsSynced c.csrs

dispatch-IsSynced :
    (c : Cpu) (t : Trap) (epc : ℕ) → IsSynced c.csrs → IsSynced (dispatch c t epc).csrs
unfolding dispatch
dispatch-IsSynced c t epc h =
    let looped = record c { exit_code = some 102 } in
    let i = (cause_code t).0 in
    let code = (cause_code t).1 in
    let s = epc == handler_pc c.csrs.stvec i code in
    let m = epc == handler_pc c.csrs.mtvec i code in
    if_either SyncedCpu (delegate_to_s c i code) (if s then looped else enter_s c t epc)
      (if m then looped else enter_m c t epc)
      (if_either SyncedCpu s looped (enter_s c t epc) h (enter_s-IsSynced c t epc h))
      (if_either SyncedCpu m looped (enter_m c t epc) h (enter_m-IsSynced c t epc h))

trap-IsSynced : (c : Cpu) (t : Trap) (epc : ℕ) → IsSynced c.csrs → IsSynced (trap c t epc).csrs
unfolding trap
trap-IsSynced c t epc h =
    let d = record c { load_reservation = none } in
    if_either SyncedCpu d.direct_mode (record d { exit_code = some (direct_exit d t) })
      (dispatch d t epc) h (dispatch-IsSynced d t epc h)

do_mret-IsSynced : (c : Cpu) → IsSynced c.csrs → IsSynced (do_mret c).csrs
unfolding do_mret clear_reservation IsSynced
do_mret-IsSynced c h =
    unseen-IsSynced c.csrs machine_mask (returned_mstatus c.csrs.mstatus) h
      (returned_mstatus-word c.csrs.mstatus) refl (returned_mstatus-Within c.csrs.mstatus)

do_sret-IsSynced : (c : Cpu) → IsSynced c.csrs → IsSynced (do_sret c).csrs
unfolding do_sret clear_reservation IsSynced
do_sret-IsSynced c h =
    merged-IsSynced c.csrs (returned_sstatus c.csrs.sstatus) h
      (returned_sstatus-word c.csrs.sstatus) (returned_sstatus-Within c.csrs.sstatus)

mark_fp_dirty-IsSynced : (c : Csrs) → IsSynced c → IsSynced (mark_fp_dirty c)
unfolding mark_fp_dirty IsSynced
mark_fp_dirty-IsSynced c (bound, view) = (
  bit_or-lt 64 (clear c.mstatus Fields.mstatus_fs) Fields.mstatus_fs
      (clear-word c.mstatus Fields.mstatus_fs) (omega arith),
  ap (λ t. bit_or (clear t Fields.mstatus_fs) Fields.mstatus_fs) view
      ∙ set_seen Fields.mstatus_fs Fields.read_mask c.mstatus (omega arith) (omega arith) refl,
)

-- Every arm of a write.
write_mstatus-IsSynced : (c : Csrs) (val : ℕ) → IsSynced c → IsSynced (write_mstatus c val)
unfolding write_mstatus IsSynced written_mstatus
write_mstatus-IsSynced c val (bound, view) = (
  bit_or-lt 64 (clear val Fields.uxl_sxl_mask) (bit_and c.mstatus Fields.uxl_sxl_mask)
      (clear-word val Fields.uxl_sxl_mask)
      (omega (arith, bit_and-le c.mstatus Fields.uxl_sxl_mask)),
  refl,
)

write_sstatus-IsSynced : (c : Csrs) (val : ℕ) → IsSynced c → IsSynced (write_sstatus c val)
unfolding write_sstatus IsSynced
write_sstatus-IsSynced c val (bound, view) =
    (merge-lt 64 Fields.writable_mask c.mstatus val bound (omega arith), refl)

write_arms-IsSynced : (c : Csrs) (val : ℕ) → IsSynced c → AllArms IsSynced (write_arms c val)
unfolding write_arms AllArms IsSynced
write_arms-IsSynced c val h = (
  h,
  (
    h,
    (
      h,
      (
        write_mstatus-IsSynced c val h,
        (
          h,
          (
            h,
            (
              h,
              (
                h,
                (
                  h,
                  (
                    h,
                    (
                      h,
                      (
                        h,
                        (
                          h,
                          (
                            h,
                            (
                              write_sstatus-IsSynced c val h,
                              (h, (h, (h, (h, (h, (h, (h, (h, (h, (h, tt)))))))))),
                            ),
                          ),
                        ),
                      ),
                    ),
                  ),
                ),
              ),
            ),
          ),
        ),
      ),
    ),
  ),
)

pub csr_write-IsSynced :
    (c : Cpu) (addr val : ℕ) → IsSynced c.csrs → IsSynced (csr_write c addr val).csrs
unfolding csr_write AllArms write_satp clear_reservation IsSynced
csr_write-IsSynced c addr val h =
    select-All SyncedCpu
      ((Addr.csr_sim_panic, trap c (Trap.requested_trap val) c.pc)
        ∷ (Addr.mcycle, record c { stats = record c.stats { cycles = val } })
        ∷ (Addr.minstret, record c { stats = record c.stats { instructions_retired = val } })
        ∷ (928, record c { pmp = set_cfgs c.pmp 0 val 0 8 })
        ∷ (930, record c { pmp = set_cfgs c.pmp 8 val 0 8 })
        ∷ (Addr.satp, write_satp c val)
        ∷ [])
      addr
      (if is_pmpaddr addr
        then record c { pmp = set_addr c.pmp (addr - 944) val }
        else record c { csrs = select (write_arms c.csrs val) addr c.csrs })
      (trap-IsSynced c (Trap.requested_trap val) c.pc h, (h, (h, (h, (h, (h, tt))))))
      (if_either SyncedCpu (is_pmpaddr addr) (record c { pmp = set_addr c.pmp (addr - 944) val })
        (record c { csrs = select (write_arms c.csrs val) addr c.csrs }) h
        (select-All IsSynced (write_arms c.csrs val) addr c.csrs (write_arms-IsSynced c.csrs val h)
          h))

-- One operation on the status registers.
pub data Op : Type 0 where
  enter : Trap → ℕ → Op
  mret : Op
  sret : Op
  write : ℕ → ℕ → Op
  write_fp : Op

unfoldable pub apply : Cpu → Op → Cpu
apply c (Op.enter cause epc) = trap c cause epc
apply c Op.mret = do_mret c
apply c Op.sret = do_sret c
apply c (Op.write addr val) = csr_write c addr val
apply c Op.write_fp = record c { csrs = mark_fp_dirty c.csrs }

unfoldable pub run : Cpu → List Op → Cpu
run c [] = c
run c (op ∷ ops) = run (apply c op) ops

apply-IsSynced : (c : Cpu) (op : Op) → IsSynced c.csrs → IsSynced (apply c op).csrs
unfolding apply
apply-IsSynced c (Op.enter cause epc) h = trap-IsSynced c cause epc h
apply-IsSynced c Op.mret h = do_mret-IsSynced c h
apply-IsSynced c Op.sret h = do_sret-IsSynced c h
apply-IsSynced c (Op.write addr val) h = csr_write-IsSynced c addr val h
apply-IsSynced c Op.write_fp h = mark_fp_dirty-IsSynced c.csrs h

-- From a state in which SSTATUS is the view of MSTATUS, and whatever traps, returns, CSR writes and
-- floating-point commits follow, SSTATUS is the view of MSTATUS.
pub run-IsSynced : (c : Cpu) (ops : List Op) → IsSynced c.csrs → IsSynced (run c ops).csrs
unfolding run
run-IsSynced c [] h = h
run-IsSynced c (op ∷ ops) h = run-IsSynced (apply c op) ops (apply-IsSynced c op h)
