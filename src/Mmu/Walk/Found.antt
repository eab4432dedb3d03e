-- ===== src/Mmu/Walk/Found.antt =====
-- core/units/mmu/ptw.rs: what a walk puts into the translation buffers, on any bus.
use inspectre.Base.{
  ◌==◌, if◌then◌else◌, Bool-cases, if_either, if_true, if_false, ℕ, zero, suc, ◌+◌, ◌/◌, ◌^◌,
  bit_and, ◌≡◌, refl, sym, subst, ◌⊎◌, inl, inr, Bool, true, false, not, ◌||◌, some,
}
use inspectre.Csr.{Csrs}
use inspectre.Mmu.{AccessType, TranslationResult, success, fault, page_fault, Mmu, BusOps}
use inspectre.Mmu.Walk.{
  is_valid, is_pointer, ppn_of, pte_addr, is_misaligned, check_permissions, update_access_bits,
  final_paddr, insert_tlb, page_of, leaf, visit, walk, page_table_walk, satp_ppn_mask,
}
use inspectre.Privilege.{PrivilegeMode}
use inspectre.Trap.{Trap}

module _ {B : Type 0} (ops : BusOps B) (mmu : Mmu) (va : ℕ) (access : AccessType)
    (privilege : PrivilegeMode) (csrs : Csrs) where
  -- A walk faults, or it answers with the address in the page of a leaf that permits the access, and
  -- has put that page and the updated leaf into the buffer of the access.
  unfoldable pub Found : TranslationResult × Mmu × B → Type 0
  Found t =
      ((x : Trap) × (t.0.trap ≡ some x))
      ⊎ ((level : ℕ) × (pte : ℕ) × (check_permissions pte access privilege csrs ≡ true)
          × (t.0.paddr ≡ final_paddr level (update_access_bits pte access).0 va)
          × (t.1
              ≡ insert_tlb mmu access (page_of va)
                  (final_paddr level (update_access_bits pte access).0 va / 2 ^ 12)
                  (update_access_bits pte access).0))

  refused-Found : (trap : Trap) (cycles : ℕ) (bus : B) → Found (fault trap cycles, mmu, bus)
  unfolding Found
  refused-Found trap cycles bus = inl (trap, refl)

  leaf-Found :
      (bus : B) (level addr pte cycles : ℕ)
      → Found (leaf ops mmu bus va access privilege csrs level addr pte cycles)
  unfolding leaf Found
  leaf-Found bus level addr pte cycles =
      let new_pte = (update_access_bits pte access).0 in
      let updated = (update_access_bits pte access).1 in
      let paddr = final_paddr level new_pte va in
      let refused : TranslationResult × Mmu × B = (fault (page_fault va access) cycles, mmu, bus) in
      let granted : TranslationResult × Mmu × B = (
        success paddr (cycles + (if updated then 10 else 0)),
        insert_tlb mmu access (page_of va) (paddr / 2 ^ 12) new_pte,
        (if updated then ops.write_u64 bus addr new_pte else bus),
      ) in
      elim (Bool-cases
        (is_misaligned level pte || not (check_permissions pte access privilege csrs))) [
          | inl e ↦
              subst Found (sym (if_true _ refused granted e))
                (refused-Found (page_fault va access) cycles bus)
          | inr e ↦
              subst Found (sym (if_false _ refused granted e))
                (inr (level, pte, permitted _ _ e, refl, refl))
        ]
    where
      permitted : (a b : Bool) → (a || not b) ≡ false → b ≡ true
      permitted true b e = absurd (cc)
      permitted false true e = refl
      permitted false false e = absurd (cc)

  walk-Found :
      (levels : ℕ) (bus : B) (ppn cycles : ℕ)
      → Found (walk ops mmu bus va access privilege csrs levels ppn cycles)
  unfolding walk visit
  walk-Found zero bus ppn cycles = refused-Found (page_fault va access) cycles bus
  walk-Found (suc level) bus ppn cycles =
      let addr = pte_addr ppn va level in
      let spent = cycles + ops.calculate_transit_time bus 8 in
      let pte = (ops.read_u64 bus addr).0 in
      let after = (ops.read_u64 bus addr).1 in
      let no = refused-Found (page_fault va access) spent after in
      if_either Found (not (is_valid pte)) _ _ no (
        if_either Found (is_pointer pte) _ _
          (if_either Found (level == 0) _ _ no (walk-Found level after (ppn_of pte) spent))
          (leaf-Found after level addr pte spent))

  pub page_table_walk-Found :
      (bus : B) → Found (page_table_walk ops mmu bus va access privilege csrs)
  unfolding page_table_walk
  page_table_walk-Found bus = walk-Found 3 bus (bit_and csrs.satp satp_ppn_mask) 0
