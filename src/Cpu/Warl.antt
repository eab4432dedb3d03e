-- ===== src/Cpu/Warl.antt =====
-- core/cpu/csr.rs: a write of SATP.
use inspectre.Base.{
  ◌==◌, Bool-cases, if_true, if_false, test_bit, test_bit-zero, test_bit-and, test_bit-above,
  bits_ext, clear, clear_hit, test_bit-shift, ℕ, ◌+◌, ◌*◌, ◌/◌, ◌^◌, ◌≤◌, ◌<◌, bit_and, ◌≡◌, refl,
  sym, ap, subst, ◌∙◌, ◌⊎◌, inl, inr, Bool, true, false, ◌&&◌, ◌||◌, none, arith,
}
use inspectre.Cpu.{Cpu, clear_reservation}
use inspectre.Cpu.Csr.{csr_write, write_satp, legal_satp}
use inspectre.Csr.{select}
use inspectre.Csr.Addr
use inspectre.Csr.Fields
use inspectre.Tlb.{lookup}
use inspectre.Tlb.Lookup.{IsValid, lookup-flush}

abbrev pub mode : ℕ → ℕ
mode satp = bit_and (satp / 2 ^ Fields.satp_mode_shift) Fields.satp_mode_mask

abbrev cleared : ℕ → ℕ
cleared val = clear val (15 * 2 ^ 60)

-- Clearing the mode field leaves mode 0.
mode-clear : (val : ℕ) → mode (clear val (15 * 2 ^ 60)) ≡ 0
mode-clear val = bits_ext (mode (cleared val)) 0 (λ k.
    test_bit-and (cleared val / 2 ^ 60) 15 k
    ∙ at k (Bool-cases (test_bit 15 k)) (split k)
    ∙ sym (test_bit-zero k))
  where
    split : (k : ℕ) → (k < 4) ⊎ (4 ≤ k)
    split k = ground arith

    dark : (a : Bool) → (a && false) ≡ false
    dark true = refl
    dark false = refl

    off :
        (k : ℕ)
        → test_bit 15 k ≡ false
        → (test_bit (cleared val / 2 ^ 60) k && test_bit 15 k) ≡ false
    off k e =
        ap (λ t. test_bit (cleared val / 2 ^ 60) k && t) e
        ∙ dark (test_bit (cleared val / 2 ^ 60) k)

    at :
        (k : ℕ)
        → (test_bit 15 k ≡ true) ⊎ (test_bit 15 k ≡ false)
        → (k < 4) ⊎ (4 ≤ k)
        → (test_bit (cleared val / 2 ^ 60) k && test_bit 15 k) ≡ false
    at k (inr e) s = off k e
    at k (inl e) (inr ge) = off k (test_bit-above 4 k 15 (omega arith) ge)
    at k (inl e) (inl lt) =
        ap (λ t. t && test_bit 15 k)
          (test_bit-shift 60 k (cleared val)
            ∙ clear_hit val (15 * 2 ^ 60) (k + 60) (omega arith) (omega arith)
                (sym (test_bit-shift 60 k (15 * 2 ^ 60)) ∙ e))

legal_satp-mode : (val : ℕ) → (mode (legal_satp val) ≡ 0) ⊎ (mode (legal_satp val) ≡ 8)
unfolding legal_satp
legal_satp-mode val = elim (Bool-cases (mode val == 8 || mode val == 0)) [
  | inl e ↦
      subst (λ t. (mode t ≡ 0) ⊎ (mode t ≡ 8)) (sym (if_true _ val (cleared val) e))
        (either (mode val) e)
  | inr e ↦ inl (ap mode (if_false _ val (cleared val) e) ∙ mode-clear val)
]
  where
    either : (n : ℕ) → (n == 8 || n == 0) ≡ true → (n ≡ 0) ⊎ (n ≡ 8)
    either n e = ground arith

-- After a write of SATP its mode is Bare or Sv39, both translation buffers (valid before) are empty
-- and there is no reservation.
pub satp_write :
    (c : Cpu) (val : ℕ)
    → IsValid c.mmu.dtlb
    → IsValid c.mmu.itlb
    → let d = csr_write c Addr.satp val in
      ((mode d.csrs.satp ≡ 0) ⊎ (mode d.csrs.satp ≡ 8))
      × ((page : ℕ) → (lookup d.mmu.dtlb page ≡ none) × (lookup d.mmu.itlb page ≡ none))
      × (d.load_reservation ≡ none)
unfolding csr_write select write_satp clear_reservation
satp_write c val vd vi = (
  legal_satp-mode val,
  λ page. ((lookup-flush c.mmu.dtlb vd page).1, (lookup-flush c.mmu.itlb vi page).1),
  refl,
)
