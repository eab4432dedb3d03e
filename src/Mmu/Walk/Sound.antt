-- ===== src/Mmu/Walk/Sound.antt =====
-- core/units/mmu/ptw.rs: what a walk finds is a permitted leaf of the page table.
use inspectre.Base.{
  ◌==◌, if◌then◌else◌, ==_iff, Bool-cases, and_true, if_either, if_true, if_false, ℕ, zero, suc,
  ◌+◌, ◌/◌, ◌^◌, ◌<◌, bit_and, ◌≡◌, refl, sym, ap, subst, ◌∙◌, inl, inr, Bool, true, false, not,
  ◌&&◌, ◌||◌,
}
use inspectre.Csr.{Csrs}
use inspectre.Mmu.{
  AccessType, TranslationResult, success, fault, page_fault, Mmu, BusOps, BusLaws, Word,
}
use inspectre.Mmu.Walk.{
  is_valid, is_pointer, ppn_of, pte_addr, is_misaligned, check_permissions, update_access_bits,
  final_paddr, insert_tlb, page_of, leaf, visit, walk, page_table_walk, satp_ppn_mask,
}
use inspectre.Mmu.Walk.Table.{Maps, tables_in_ram, Outcome, unchanged, update-lt, pte_addr-aligned}
use inspectre.Privilege.{PrivilegeMode}

module _ {B : Type 0} (ops : BusOps B) (laws : BusLaws B ops) (mem : ℕ → ℕ) (va : ℕ)
    (access : AccessType) (privilege : PrivilegeMode) (csrs : Csrs) where
  -- The bus holds the memory.
  abbrev Holds : B → Type 0
  Holds bus = (a : ℕ) → Word ops a → ops.peek bus a ≡ mem a

  abbrev Good : ℕ → ℕ → TranslationResult × Mmu × B → Type 0
  Good levels ppn t =
      Outcome (Word ops) mem va access privilege csrs levels ppn t.0 (λ a. ops.peek t.2 a)

  -- The memory after a leaf.
  written :
      (bus : B) (addr : ℕ)
      → Holds bus
      → Word ops addr
      → (a : ℕ) → Word ops a
      → ops.peek
          (if (update_access_bits (mem addr) access).1
            then ops.write_u64 bus addr (update_access_bits (mem addr) access).0
            else bus)
          a
        ≡ (if a == addr then (update_access_bits (mem addr) access).0 else mem a)
  written bus addr same there a word = elim (Bool-cases (update_access_bits (mem addr) access).1) [
    | inl e ↦
        ap (λ b. ops.peek b a) (if_true _ _ bus e)
        ∙ laws.write-value bus addr (update_access_bits (mem addr) access).0 a there word (
            update-lt (mem addr) access
              (subst (λ v. v < 2 ^ 64) (same addr there) (laws.word bus addr there)))
        ∙ ap (λ v. if a == addr then (update_access_bits (mem addr) access).0 else v) (same a word)
    | inr e ↦
        ap (λ b. ops.peek b a) (if_false _ _ bus e)
        ∙ same a word
        ∙ kept
        ∙ ap (λ v. if a == addr then v else mem a) (sym (unchanged (mem addr) access e))
  ]
    where
      kept : mem a ≡ (if a == addr then mem addr else mem a)
      kept = elim (Bool-cases (a == addr)) [
        | inl e ↦ ap mem ((==_iff a addr).0 e) ∙ sym (if_true _ (mem addr) (mem a) e)
        | inr e ↦ sym (if_false _ (mem addr) (mem a) e)
      ]

  leaf-Good :
      (mmu : Mmu) (bus : B) (levels ppn level addr cycles : ℕ)
      → Holds bus
      → Word ops addr
      → Maps mem va levels ppn level addr
      → Good levels ppn (leaf ops mmu bus va access privilege csrs level addr (mem addr) cycles)
  unfolding leaf Outcome
  leaf-Good mmu bus levels ppn level addr cycles same there maps =
      let pte = mem addr in
      let new_pte = (update_access_bits pte access).0 in
      let updated = (update_access_bits pte access).1 in
      let paddr = final_paddr level new_pte va in
      let refused : TranslationResult × Mmu × B = (fault (page_fault va access) cycles, mmu, bus) in
      let granted : TranslationResult × Mmu × B = (
        success paddr (cycles + (if updated then 10 else 0)),
        insert_tlb mmu access (page_of va) (paddr / 2 ^ 12) new_pte,
        (if updated then ops.write_u64 bus addr new_pte else bus),
      ) in
      elim (Bool-cases
        (is_misaligned level pte || not (check_permissions pte access privilege csrs))) [
          | inl e ↦ subst (Good levels ppn) (sym (if_true _ refused granted e)) (inl (refl, same))
          | inr e ↦ subst (Good levels ppn) (sym (if_false _ refused granted e)) (
              inr (
                level,
                addr,
                maps,
                (neither _ _ e).0,
                (neither _ _ e).1,
                refl,
                refl,
                written bus addr same there,
              ))
        ]
    where
      neither : (a b : Bool) → (a || not b) ≡ false → (a ≡ false) × (b ≡ true)
      neither true b e = absurd (cc)
      neither false true e = (refl, refl)
      neither false false e = absurd (cc)

  -- An outcome below a pointer is one of the table above it.
  lift :
      (level ppn : ℕ) (r : TranslationResult) (after : ℕ → ℕ)
      → is_valid (mem (pte_addr ppn va level)) ≡ true
      → is_pointer (mem (pte_addr ppn va level)) ≡ true
      → Outcome
          (Word ops)
          mem
          va
          access
          privilege
          csrs
          level
          (ppn_of (mem (pte_addr ppn va level)))
          r
          after
      → Outcome (Word ops) mem va access privilege csrs (suc level) ppn r after
  unfolding Outcome
  lift level ppn r words v p (inl f) = inl f
  lift level ppn r words v p (inr (l, addr, maps, al, ok, tr, at, after)) =
      inr (l, addr, Maps.below level ppn l addr v p maps, al, ok, tr, at, after)

  visit-Good :
      (level : ℕ) (mmu : Mmu) (bus : B) (ppn spent : ℕ) (rest : TranslationResult × Mmu × B)
      → Holds bus
      → Word ops (pte_addr ppn va level)
      → (is_valid (mem (pte_addr ppn va level)) ≡ true
          → is_pointer (mem (pte_addr ppn va level)) ≡ true
          → Good level (ppn_of (mem (pte_addr ppn va level))) rest)
      → Good (suc level) ppn (
          visit ops mmu bus va access privilege csrs level
            (pte_addr ppn va level)
            (mem (pte_addr ppn va level))
            spent
            rest)
  unfolding visit Outcome
  visit-Good level mmu bus ppn spent rest same there good =
      let addr = pte_addr ppn va level in
      let pte = mem addr in
      let refused : TranslationResult × Mmu × B = (fault (page_fault va access) spent, mmu, bus) in
      let under = if level == 0 then refused else rest in
      let found = leaf ops mmu bus va access privilege csrs level addr pte spent in
      let entry = if is_pointer pte then under else found in
      let no : Good (suc level) ppn refused = inl (refl, same) in
      elim (Bool-cases (is_valid pte)) [
        | inr e ↦ subst (Good (suc level) ppn) (sym (if_true _ refused entry (ap not e))) no
        | inl v ↦
            subst (Good (suc level) ppn) (sym (if_false _ refused entry (ap not v)))
              (elim (Bool-cases (is_pointer pte)) [
                | inl p ↦ subst (Good (suc level) ppn) (sym (if_true _ under found p)) (
                    if_either (Good (suc level) ppn) (level == 0) refused rest no
                      (lift level ppn rest.0 (λ a. ops.peek rest.2 a) v p (good v p)))
                | inr p ↦ subst (Good (suc level) ppn) (sym (if_false _ under found p)) (
                    leaf-Good mmu bus (suc level) ppn level addr spent same there
                      (Maps.here level ppn v p))
              ])
      ]

  walk-Good :
      (levels : ℕ) (mmu : Mmu) (bus : B) (ppn cycles : ℕ)
      → Holds bus
      → tables_in_ram ops.in_ram mem va levels ppn ≡ true
      → Good levels ppn (walk ops mmu bus va access privilege csrs levels ppn cycles)
  unfolding walk Outcome tables_in_ram
  walk-Good zero mmu bus ppn cycles same inside = inl (refl, same)
  walk-Good (suc level) mmu bus ppn cycles same inside =
      let addr = pte_addr ppn va level in
      let spent = cycles + ops.calculate_transit_time bus 8 in
      let after = (ops.read_u64 bus addr).1 in
      let there : Word ops addr = ((and_true _ _ inside).0, pte_addr-aligned ppn va level) in
      let kept : Holds after = λ a word. laws.read-keeps bus addr a there word ∙ same a word in
      let below : ℕ → TranslationResult × Mmu × B =
        λ pte. walk ops mmu after va access privilege csrs level (ppn_of pte) spent in
      subst
        (λ pte.
          Good (suc level) ppn
            (visit ops mmu after va access privilege csrs level addr pte spent (below pte)))
        (sym (laws.read-value bus addr there ∙ same addr there))
        (visit-Good level mmu after ppn spent (below (mem addr)) kept there (λ v p.
          walk-Good level mmu after (ppn_of (mem addr)) spent kept (
            sym (if_true _ _ true (ap (λ t. t && is_pointer (mem addr)) v ∙ p))
            ∙ (and_true _ _ inside).1)))

-- On a bus with the laws of memory, when the entries that lead to the address are in memory, a walk
-- from SATP ends in a page fault of the access that leaves every word of memory as it was, or in the
-- address of the page of a leaf that the table maps the address to, which is aligned and permits the
-- access; then the leaf is rewritten with its accessed bit, and its dirty bit for a write, as the
-- update has them, and no other word of the memory changes.
pub page_table_walk-Outcome :
    {B : Type 0} (ops : BusOps B)
    → BusLaws B ops
    → (mmu : Mmu) (bus : B) (va : ℕ) (access : AccessType) (privilege : PrivilegeMode) (csrs : Csrs)
    → tables_in_ram ops.in_ram (λ a. ops.peek bus a) va 3 (bit_and csrs.satp satp_ppn_mask) ≡ true
    → let t = page_table_walk ops mmu bus va access privilege csrs in
      Outcome
        (Word ops)
        (λ a. ops.peek bus a)
        va
        access
        privilege
        csrs
        3
        (bit_and csrs.satp satp_ppn_mask)
        t.0
        (λ a. ops.peek t.2 a)
unfolding page_table_walk
page_table_walk-Outcome ops laws mmu bus va access privilege csrs inside =
    walk-Good ops laws (λ a. ops.peek bus a) va access privilege csrs 3 mmu bus
      (bit_and csrs.satp satp_ppn_mask) 0 (λ a word. refl) inside
