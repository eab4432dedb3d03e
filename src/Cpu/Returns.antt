-- ===== src/Cpu/Returns.antt =====
-- core/cpu/trap.rs: a return undoes the entry of a trap.
pub mod Machine
pub mod Supervisor
use inspectre.Base.{
  if◌then◌else◌, test_bit, test_bit-or, has, clear, assign, has-bit, clear_hit, clear_miss,
  assign_hit, assign_miss, bit_or_miss, test_bit-shift, two_bits, ℕ, ◌+◌, ◌*◌, ◌/◌, ◌^◌, ◌<◌,
  bit_and, bit_or, ◌≡◌, refl, ap, ◌∙◌, Bool, true, false, ◌||◌, arith,
}
use inspectre.Cpu.{Cpu, clear_reservation}
use inspectre.Cpu.Trap.{
  trap, dispatch, enter_s, enter_m, delegate_to_s, delegated, do_mret, do_sret, entered_sstatus,
  entered_mstatus, returned_mstatus, returned_sstatus, cause_code, handler_pc, relocated,
}
use inspectre.Cpu.Status.{machine_mask, entered_mstatus-Within, returned_mstatus-Within}
use inspectre.Csr.{Csrs}
use inspectre.Csr.Fields
use inspectre.Privilege.{PrivilegeMode, is_mode, to_u8, from_u8}
use inspectre.Trap.{Trap}

mode_bits-mpie : (p : PrivilegeMode) → test_bit (to_u8 p * 2 ^ 11) 7 ≡ false
unfolding to_u8 test_bit
mode_bits-mpie PrivilegeMode.user = refl
mode_bits-mpie PrivilegeMode.supervisor = refl
mode_bits-mpie PrivilegeMode.machine = refl

-- The status word after the entry: the enable bit is saved and cleared, the mode is in its field.
module _ (m : ℕ) (p : PrivilegeMode) where
  abbrev saved : ℕ
  saved = assign (has m Fields.mstatus_mie) m Fields.mstatus_mpie

  abbrev emptied : ℕ
  emptied = clear saved Fields.mstatus_mpp

  abbrev pushed : ℕ
  pushed = bit_or emptied (to_u8 p * 2 ^ 11)

  pub entered-mpie : test_bit (entered_mstatus m p) 7 ≡ has m Fields.mstatus_mie
  unfolding entered_mstatus test_bit
  entered-mpie =
      clear_miss pushed Fields.mstatus_mie 7 (omega arith) (omega arith) refl
      ∙ bit_or_miss emptied (to_u8 p * 2 ^ 11) 7 (mode_bits-mpie p)
      ∙ clear_miss saved Fields.mstatus_mpp 7 (omega arith) (omega arith) refl
      ∙ assign_hit m Fields.mstatus_mpie 7 (omega arith) (omega arith) (has m Fields.mstatus_mie)
          refl

  -- A bit of the mode field.
  field :
      (k : ℕ)
      → k < 64
      → test_bit Fields.mstatus_mie k ≡ false
      → test_bit Fields.mstatus_mpp k ≡ true
      → test_bit (entered_mstatus m p) k ≡ test_bit (to_u8 p * 2 ^ 11) k
  unfolding entered_mstatus
  field k hk off on =
      clear_miss pushed Fields.mstatus_mie k (omega arith) hk off
      ∙ test_bit-or emptied (to_u8 p * 2 ^ 11) k
      ∙ ap (λ t. t || test_bit (to_u8 p * 2 ^ 11) k)
          (clear_hit saved Fields.mstatus_mpp k (omega arith) hk on)

  pub entered-mpp : from_u8 (bit_and (entered_mstatus m p / 2 ^ 11) 3) ≡ p
  unfolding test_bit to_u8 from_u8
  entered-mpp =
      ap from_u8 (
        two_bits (entered_mstatus m p / 2 ^ 11)
        ∙ ap
            (λ t.
              (if t then 2 else 0) + (if test_bit (entered_mstatus m p / 2 ^ 11) 0 then 1 else 0))
            (test_bit-shift 11 1 (entered_mstatus m p) ∙ field 12 (omega arith) refl refl)
        ∙ ap (λ t. (if test_bit (to_u8 p * 2 ^ 11) 12 then 2 else 0) + (if t then 1 else 0))
            (test_bit-shift 11 0 (entered_mstatus m p) ∙ field 11 (omega arith) refl refl))
      ∙ decoded p
    where
      decoded :
          (p : PrivilegeMode)
          → from_u8 (
              (if test_bit (to_u8 p * 2 ^ 11) 12 then 2 else 0)
              + (if test_bit (to_u8 p * 2 ^ 11) 11 then 1 else 0))
            ≡ p
      decoded PrivilegeMode.user = refl
      decoded PrivilegeMode.supervisor = refl
      decoded PrivilegeMode.machine = refl

-- The status word after a return: the saved enable bit is back.
pub returned-mie : (m : ℕ) → has (returned_mstatus m) Fields.mstatus_mie ≡ has m Fields.mstatus_mpie
unfolding returned_mstatus test_bit
returned-mie m =
    let b = has m Fields.mstatus_mpie in
    let enabled = assign b m Fields.mstatus_mie in
    has-bit (returned_mstatus m) 3
    ∙ clear_miss (bit_or enabled Fields.mstatus_mpie) Fields.mstatus_mpp 3 (omega arith)
        (omega arith) refl
    ∙ bit_or_miss enabled Fields.mstatus_mpie 3 refl
    ∙ assign_hit m Fields.mstatus_mie 3 (omega arith) (omega arith) b refl

-- The same for supervisor mode.
abbrev pub mode_bit : PrivilegeMode → Bool
mode_bit p = is_mode p PrivilegeMode.supervisor

module _ (s : ℕ) (p : PrivilegeMode) where
  abbrev saved_s : ℕ
  saved_s = assign (has s Fields.mstatus_sie) s Fields.mstatus_spie

  abbrev pushed_s : ℕ
  pushed_s = assign (mode_bit p) saved_s Fields.mstatus_spp

  pub entered-spie : has (entered_sstatus s p) Fields.mstatus_spie ≡ has s Fields.mstatus_sie
  unfolding entered_sstatus test_bit
  entered-spie =
      has-bit (entered_sstatus s p) 5
      ∙ clear_miss pushed_s Fields.mstatus_sie 5 (omega arith) (omega arith) refl
      ∙ assign_miss saved_s Fields.mstatus_spp 5 (omega arith) (omega arith) (mode_bit p) refl
      ∙ assign_hit s Fields.mstatus_spie 5 (omega arith) (omega arith) (has s Fields.mstatus_sie)
          refl

  pub entered-spp : has (entered_sstatus s p) Fields.mstatus_spp ≡ mode_bit p
  unfolding entered_sstatus test_bit
  entered-spp =
      has-bit (entered_sstatus s p) 8
      ∙ clear_miss pushed_s Fields.mstatus_sie 8 (omega arith) (omega arith) refl
      ∙ assign_hit saved_s Fields.mstatus_spp 8 (omega arith) (omega arith) (mode_bit p) refl

pub returned-sie : (s : ℕ) → has (returned_sstatus s) Fields.mstatus_sie ≡ has s Fields.mstatus_spie
unfolding returned_sstatus test_bit
returned-sie s =
    let b = has s Fields.mstatus_spie in
    let enabled = assign b s Fields.mstatus_sie in
    has-bit (returned_sstatus s) 1
    ∙ clear_miss (bit_or enabled Fields.mstatus_spie) Fields.mstatus_spp 1 (omega arith)
        (omega arith) refl
    ∙ bit_or_miss enabled Fields.mstatus_spie 1 refl
    ∙ assign_hit s Fields.mstatus_sie 1 (omega arith) (omega arith) b refl
