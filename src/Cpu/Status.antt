-- ===== src/Cpu/Status.antt =====
-- core/cpu/trap.rs, core/cpu/csr.rs and core/pipeline/backend/shared/commit.rs: SSTATUS stays what
-- it shows of MSTATUS.
pub mod Run
use inspectre.Base.{
  bit_and-le, has, clear, merge, assign, merge-lt, clear-word, Within, chain-Within, assign-Within,
  clear-Within, bit_or-Within, bit_and-Within, merge_seen, ℕ, ◌*◌, ◌^◌, ◌<◌, bit_and, bit_or, ◌≡◌,
  refl, sym, subst, ◌∙◌, arith,
}
use inspectre.Cpu.{Cpu, clear_reservation}
use inspectre.Cpu.Csr.{
  csr_write, write_arms, write_satp, write_mstatus, write_sstatus, written_mstatus, is_pmpaddr,
}
use inspectre.Cpu.Trap.{
  trap, dispatch, enter_s, enter_m, delegate_to_s, do_mret, do_sret, entered_sstatus,
  entered_mstatus, returned_mstatus, returned_sstatus, cause_code, handler_pc,
}
use inspectre.Csr.{Csrs, select}
use inspectre.Csr.Fields
use inspectre.Privilege.{PrivilegeMode, is_mode, to_u8}
use inspectre.Trap.{Trap}

-- The marking of the floating-point state as changed, when an instruction that wrote it commits.
unfoldable pub mark_fp_dirty : Csrs → Csrs
mark_fp_dirty c = record c {
  mstatus = bit_or (clear c.mstatus Fields.mstatus_fs) Fields.mstatus_fs_dirty;
  sstatus = bit_or (clear c.sstatus Fields.mstatus_fs) Fields.mstatus_fs_dirty;
}

-- MSTATUS is a word, and SSTATUS is its view.
unfoldable pub IsSynced : Csrs → Type 0
IsSynced c = (c.mstatus < 2 ^ 64) × (c.sstatus ≡ bit_and c.mstatus Fields.read_mask)

view-lt : (m : ℕ) → bit_and m Fields.read_mask < 2 ^ 64
view-lt m = omega (arith, bit_and-le m Fields.read_mask)

-- A supervisor status word that differs from the view only in what a trap changes.
pub merged-IsSynced :
    (c : Csrs) (s : ℕ)
    → IsSynced c
    → s < 2 ^ 64
    → Within Fields.sstatus_mask s c.sstatus
    → IsSynced (record c { sstatus = s; mstatus = merge Fields.sstatus_mask c.mstatus s })
unfolding IsSynced
merged-IsSynced c s (bound, view) hs h = (
  merge-lt 64 Fields.sstatus_mask c.mstatus s bound (omega arith),
  sym (
      merge_seen Fields.sstatus_mask Fields.read_mask c.mstatus s (omega arith) (omega arith) hs
        refl (subst (λ t. Within Fields.sstatus_mask s t) view h)),
)

-- A machine status word that differs only where SSTATUS does not show it.
pub unseen-IsSynced :
    (c : Csrs) (mask m : ℕ)
    → IsSynced c
    → m < 2 ^ 64
    → bit_and Fields.read_mask mask ≡ 0
    → Within mask m c.mstatus
    → IsSynced (record c { mstatus = m })
unfolding IsSynced
unseen-IsSynced c mask m (bound, view) hm apart h =
    (hm, view ∙ sym (bit_and-Within mask Fields.read_mask m c.mstatus (omega arith) apart h))

pub entered_sstatus-Within :
    (s : ℕ) (p : PrivilegeMode) → Within Fields.sstatus_mask (entered_sstatus s p) s
unfolding entered_sstatus
entered_sstatus-Within s p =
    let b = has s Fields.mstatus_sie in
    let c = is_mode p PrivilegeMode.supervisor in
    let saved = assign b s Fields.mstatus_spie in
    let pushed = assign c saved Fields.mstatus_spp in
    chain-Within Fields.sstatus_mask (clear pushed Fields.mstatus_sie) pushed s
      (clear-Within Fields.sstatus_mask pushed Fields.mstatus_sie (omega arith) refl)
      (chain-Within Fields.sstatus_mask pushed saved s
        (assign-Within Fields.sstatus_mask c saved Fields.mstatus_spp (omega arith) refl)
        (assign-Within Fields.sstatus_mask b s Fields.mstatus_spie (omega arith) refl))

pub returned_sstatus-Within : (s : ℕ) → Within Fields.sstatus_mask (returned_sstatus s) s
unfolding returned_sstatus
returned_sstatus-Within s =
    let b = has s Fields.mstatus_spie in
    let enabled = assign b s Fields.mstatus_sie in
    let saved = bit_or enabled Fields.mstatus_spie in
    chain-Within Fields.sstatus_mask (clear saved Fields.mstatus_spp) saved s
      (clear-Within Fields.sstatus_mask saved Fields.mstatus_spp (omega arith) refl)
      (chain-Within Fields.sstatus_mask saved enabled s
        (bit_or-Within Fields.sstatus_mask enabled Fields.mstatus_spie (omega arith) refl)
        (assign-Within Fields.sstatus_mask b s Fields.mstatus_sie (omega arith) refl))

-- What a machine trap and its return change.
abbrev pub machine_mask : ℕ
machine_mask = bit_or (bit_or Fields.mstatus_mie Fields.mstatus_mpie) Fields.mstatus_mpp

mode-part : (p : PrivilegeMode) → bit_and (to_u8 p * 2 ^ 11) machine_mask ≡ to_u8 p * 2 ^ 11
unfolding to_u8
mode-part PrivilegeMode.user = refl
mode-part PrivilegeMode.supervisor = refl
mode-part PrivilegeMode.machine = refl

mode-lt : (p : PrivilegeMode) → to_u8 p * 2 ^ 11 < 2 ^ 64
unfolding to_u8
mode-lt PrivilegeMode.user = omega arith
mode-lt PrivilegeMode.supervisor = omega arith
mode-lt PrivilegeMode.machine = omega arith

pub entered_mstatus-Within :
    (m : ℕ) (p : PrivilegeMode) → Within machine_mask (entered_mstatus m p) m
unfolding entered_mstatus
entered_mstatus-Within m p =
    let b = has m Fields.mstatus_mie in
    let saved = assign b m Fields.mstatus_mpie in
    let emptied = clear saved Fields.mstatus_mpp in
    let pushed = bit_or emptied (to_u8 p * 2 ^ 11) in
    chain-Within machine_mask (clear pushed Fields.mstatus_mie) pushed m
      (clear-Within machine_mask pushed Fields.mstatus_mie (omega arith) refl)
      (chain-Within machine_mask pushed emptied m
        (bit_or-Within machine_mask emptied (to_u8 p * 2 ^ 11) (mode-lt p) (mode-part p))
        (chain-Within machine_mask emptied saved m
          (clear-Within machine_mask saved Fields.mstatus_mpp (omega arith) refl)
          (assign-Within machine_mask b m Fields.mstatus_mpie (omega arith) refl)))

pub returned_mstatus-Within : (m : ℕ) → Within machine_mask (returned_mstatus m) m
unfolding returned_mstatus
returned_mstatus-Within m =
    let b = has m Fields.mstatus_mpie in
    let enabled = assign b m Fields.mstatus_mie in
    let saved = bit_or enabled Fields.mstatus_mpie in
    chain-Within machine_mask (clear saved Fields.mstatus_mpp) saved m
      (clear-Within machine_mask saved Fields.mstatus_mpp (omega arith) refl)
      (chain-Within machine_mask saved enabled m
        (bit_or-Within machine_mask enabled Fields.mstatus_mpie (omega arith) refl)
        (assign-Within machine_mask b m Fields.mstatus_mie (omega arith) refl))

-- The new status words are words.
pub entered_sstatus-word : (s : ℕ) (p : PrivilegeMode) → entered_sstatus s p < 2 ^ 64
unfolding entered_sstatus
entered_sstatus-word s p =
    clear-word
      (assign (is_mode p PrivilegeMode.supervisor)
        (assign (has s Fields.mstatus_sie) s Fields.mstatus_spie) Fields.mstatus_spp)
      Fields.mstatus_sie

pub entered_mstatus-word : (m : ℕ) (p : PrivilegeMode) → entered_mstatus m p < 2 ^ 64
unfolding entered_mstatus
entered_mstatus-word m p =
    clear-word
      (bit_or (clear (assign (has m Fields.mstatus_mie) m Fields.mstatus_mpie) Fields.mstatus_mpp)
        (to_u8 p * 2 ^ 11))
      Fields.mstatus_mie

pub returned_sstatus-word : (s : ℕ) → returned_sstatus s < 2 ^ 64
unfolding returned_sstatus
returned_sstatus-word s =
    clear-word
      (bit_or (assign (has s Fields.mstatus_spie) s Fields.mstatus_sie) Fields.mstatus_spie)
      Fields.mstatus_spp

pub returned_mstatus-word : (m : ℕ) → returned_mstatus m < 2 ^ 64
unfolding returned_mstatus
returned_mstatus-word m =
    clear-word
      (bit_or (assign (has m Fields.mstatus_mpie) m Fields.mstatus_mie) Fields.mstatus_mpie)
      Fields.mstatus_mpp
