-- ===== src/Mmu/Translate/Hit.antt =====
-- core/units/mmu/: a translation that a walk put in the buffer answers as the walk did.
use inspectre.Base.{
  ◌==◌, if◌then◌else◌, ==_iff, Bool-cases, if_either, if_true, if_false, test_bit, test_bit-and,
  test_bit-or, test_bit-above, bits_ext, has, bit_or-lt, bit_and-le_left, has-bit, bit_or_hit,
  bit_or_miss, test_bit-shift, test_bit-mask, test_bit-rem, test_bit-multiple, test_bit-page, ℕ,
  ◌+◌, ◌-◌, ◌*◌, ◌/◌, ◌%◌, ◌^◌, ◌≤◌, ◌<◌, bit_and, bit_or, ◌≡◌, refl, sym, ap, subst, ◌∙◌, ◌⊎◌, inl,
  inr, Bool, true, false, not, ◌&&◌, ◌||◌, some, arith,
}
use inspectre.Csr.{Csrs}
use inspectre.Mmu.{AccessType, is_fetch, is_write, success, Mmu, BusOps}
use inspectre.Mmu.Translate.{
  permits, needs_dirty, hit_paddr, is_canonical, mode_of, resolve, translate,
}
use inspectre.Mmu.Walk.{
  is_accessed, is_dirty, check_permissions, update_access_bits, final_paddr, insert_tlb, page_of,
  ppn_of,
}
use inspectre.Privilege.{PrivilegeMode, is_mode}
use inspectre.Tlb.{bit, filled, translation, lookup}
use inspectre.Tlb.Lookup.{IsValid, lookup-insert}

-- The buffer and the walk read the same bits.
bit-has : (pte k : ℕ) → bit pte k ≡ has pte (2 ^ k)
unfolding has
bit-has pte k =
    has-bit (pte / 2 ^ k) 0
    ∙ test_bit-shift k 0 pte
    ∙ ap (λ t. test_bit pte t) same
    ∙ sym (has-bit pte k)
  where
    same : 0 + k ≡ k
    same = omega arith

-- A buffered translation permits what its entry permits.
pub permits-filled :
    (vpn ppn pte : ℕ) (access : AccessType) (privilege : PrivilegeMode) (csrs : Csrs)
    → permits (translation (filled vpn ppn pte)) access privilege csrs
      ≡ check_permissions pte access privilege csrs
unfolding permits check_permissions
permits-filled vpn ppn pte access privilege csrs =
    rw (bit-has pte 1, bit-has pte 2, bit-has pte 3, bit-has pte 4) refl

-- The entry with its accessed bit.
abbrev accessed : ℕ → ℕ
accessed pte = if not (is_accessed pte) then bit_or pte (2 ^ 6) else pte

accessed-keeps :
    (pte k : ℕ) → test_bit (2 ^ 6) k ≡ false → test_bit (accessed pte) k ≡ test_bit pte k
accessed-keeps pte k off =
    if_either (λ t. test_bit t k ≡ test_bit pte k) (not (is_accessed pte)) (bit_or pte (2 ^ 6)) pte
      (bit_or_miss pte (2 ^ 6) k off) refl

-- The update leaves the bits below the accessed bit.
update-low :
    (pte k : ℕ) (access : AccessType)
    → k < 6
    → has (update_access_bits pte access).0 (2 ^ k) ≡ has pte (2 ^ k)
unfolding update_access_bits
update-low pte k access h =
    has-bit (update_access_bits pte access).0 k
    ∙ if_either {A = ℕ × Bool} (λ t. test_bit t.0 k ≡ test_bit pte k)
        (is_write access && not (is_dirty pte)) (bit_or (accessed pte) (2 ^ 7), true)
        (accessed pte, not (is_accessed pte))
        (bit_or_miss (accessed pte) (2 ^ 7) k (clear_below 7 (omega arith)) ∙ first) first
    ∙ sym (has-bit pte k)
  where
    clear_below : (j : ℕ) → k < j → test_bit (2 ^ j) k ≡ false
    clear_below j lt = ap (λ t. test_bit t k) one ∙ test_bit-multiple j k 1 lt
      where
        one : 2 ^ j ≡ 1 * 2 ^ j
        one = omega arith

    first : test_bit (accessed pte) k ≡ test_bit pte k
    first = accessed-keeps pte k (clear_below 6 h)

-- After a write the entry is dirty.
update-dirty : (pte : ℕ) → has (update_access_bits pte AccessType.write).0 (2 ^ 7) ≡ true
unfolding update_access_bits test_bit
update-dirty pte =
    has-bit (update_access_bits pte AccessType.write).0 7 ∙ elim (Bool-cases (is_dirty pte)) [
      | inl e ↦
          ap (λ t. test_bit t.0 7) (if_false _ dirtied kept (ap not e))
          ∙ accessed-keeps pte 7 refl
          ∙ sym (has-bit pte 7)
          ∙ e
      | inr e ↦
          ap (λ t. test_bit t.0 7) (if_true _ dirtied kept (ap not e))
          ∙ bit_or_hit (accessed pte) (2 ^ 7) 7 refl
    ]
  where
    dirtied : ℕ × Bool
    dirtied = (bit_or (accessed pte) (2 ^ 7), true)

    kept : ℕ × Bool
    kept = (accessed pte, not (is_accessed pte))

-- A page number and the offset put an address together.
recomposed :
    (x v : ℕ)
    → x < 2 ^ 64
    → ((k : ℕ) → k < 12 → test_bit x k ≡ test_bit v k)
    → bit_or (x / 2 ^ 12 * 2 ^ 12 % 2 ^ 64) (bit_and v 4095) ≡ x
recomposed x v hx low = bits_ext (bit_or (x / 2 ^ 12 * 2 ^ 12 % 2 ^ 64) (bit_and v 4095)) x (λ k.
    test_bit-or (x / 2 ^ 12 * 2 ^ 12 % 2 ^ 64) (bit_and v 4095) k
    ∙ ap (λ t. test_bit t k || test_bit (bit_and v 4095) k) fits
    ∙ ap (λ t. test_bit (x / 2 ^ 12 * 2 ^ 12) k || t) (test_bit-and v 4095 k)
    ∙ at k (split k))
  where
    fits : x / 2 ^ 12 * 2 ^ 12 % 2 ^ 64 ≡ x / 2 ^ 12 * 2 ^ 12
    fits = omega arith

    le-cases : (k : ℕ) → (k < 12) ⊎ (12 ≤ k)
    le-cases k = ground arith

    split : (k : ℕ) → (k < 12) ⊎ ((i : ℕ) × (k ≡ i + 12))
    split k = elim (le-cases k) [ inl lt ↦ inl lt | inr ge ↦ inr (k - 12, omega arith) ]

    at :
        (k : ℕ)
        → (k < 12) ⊎ ((i : ℕ) × (k ≡ i + 12))
        → (test_bit (x / 2 ^ 12 * 2 ^ 12) k || test_bit v k && test_bit 4095 k) ≡ test_bit x k
    at k (inl lt) =
        ap (λ t. t || test_bit v k && test_bit 4095 k) (test_bit-multiple 12 k (x / 2 ^ 12) lt)
        ∙ ap (λ t. test_bit v k && t) (test_bit-mask 12 k lt)
        ∙ keep (test_bit v k)
        ∙ sym (low k lt)
      where
        keep : (a : Bool) → (a && true) ≡ a
        keep true = refl
        keep false = refl
    at k (inr (i, e)) =
        ap (λ t. test_bit (x / 2 ^ 12 * 2 ^ 12) k || test_bit v k && t)
          (test_bit-above 12 k 4095 (omega arith) (omega arith))
        ∙ drop (test_bit (x / 2 ^ 12 * 2 ^ 12) k) (test_bit v k)
        ∙ subst (λ t. test_bit (x / 2 ^ 12 * 2 ^ 12) t ≡ test_bit x t) (sym e)
            (test_bit-page 12 i x)
      where
        drop : (a b : Bool) → (a || b && false) ≡ a
        drop true b = refl
        drop false true = refl
        drop false false = refl

-- The page offset of the address of a leaf is that of the virtual address.
final_paddr-low :
    (level pte va k : ℕ) → k < 12 → test_bit (final_paddr level pte va) k ≡ test_bit va k
unfolding final_paddr
final_paddr-low level pte va k h =
    test_bit-or (ppn_of pte * 2 ^ 12 % 2 ^ 64) (bit_and va (2 ^ (12 + level * 9) - 1)) k
    ∙ ap (λ t. t || test_bit (bit_and va (2 ^ (12 + level * 9) - 1)) k)
        (test_bit-rem 64 k (ppn_of pte * 2 ^ 12) (omega arith)
          ∙ test_bit-multiple 12 k (ppn_of pte) h)
    ∙ test_bit-and va (2 ^ (12 + level * 9) - 1) k
    ∙ ap (λ t. test_bit va k && t) (test_bit-mask (12 + level * 9) k (omega arith))
    ∙ keep (test_bit va k)
  where
    keep : (a : Bool) → (a && true) ≡ a
    keep true = refl
    keep false = refl

final_paddr-lt : (level pte va : ℕ) → va < 2 ^ 64 → final_paddr level pte va < 2 ^ 64
unfolding final_paddr
final_paddr-lt level pte va h =
    bit_or-lt 64 (ppn_of pte * 2 ^ 12 % 2 ^ 64) (bit_and va (2 ^ (12 + level * 9) - 1))
      (omega arith) (omega (arith, bit_and-le_left va (2 ^ (12 + level * 9) - 1)))

-- The entry that a walk leaves permits what the one it found did.
updated-permits :
    (pte : ℕ) (access : AccessType) (privilege : PrivilegeMode) (csrs : Csrs)
    → check_permissions (update_access_bits pte access).0 access privilege csrs
      ≡ check_permissions pte access privilege csrs
unfolding check_permissions
updated-permits pte access privilege csrs =
    rw
      (
        update-low pte 1 access (omega arith),
        update-low pte 2 access (omega arith),
        update-low pte 3 access (omega arith),
        update-low pte 4 access (omega arith),
      )
      refl

not_needed :
    (vpn ppn pte : ℕ) (access : AccessType)
    → needs_dirty (translation (filled vpn ppn (update_access_bits pte access).0)) access ≡ false
not_needed vpn ppn pte AccessType.fetch = refl
not_needed vpn ppn pte AccessType.read = refl
not_needed vpn ppn pte AccessType.write =
    ap not (bit-has (update_access_bits pte AccessType.write).0 7 ∙ update-dirty pte)

-- A lookup after the walk's insertion.
lookup-insert_tlb :
    (mmu : Mmu) (access : AccessType) (vpn ppn pte : ℕ)
    → IsValid mmu.dtlb
    → IsValid mmu.itlb
    → let m = insert_tlb mmu access vpn ppn pte in
      (if is_fetch access then lookup m.itlb vpn else lookup m.dtlb vpn)
      ≡ some (translation (filled vpn ppn pte))
unfolding insert_tlb
lookup-insert_tlb mmu AccessType.fetch vpn ppn pte vd vi =
    lookup-insert mmu.itlb vi vpn ppn pte vpn ∙ if_true (vpn == vpn) _ _ ((==_iff vpn vpn).1 refl)
lookup-insert_tlb mmu AccessType.read vpn ppn pte vd vi =
    lookup-insert mmu.dtlb vd vpn ppn pte vpn ∙ if_true (vpn == vpn) _ _ ((==_iff vpn vpn).1 refl)
lookup-insert_tlb mmu AccessType.write vpn ppn pte vd vi =
    lookup-insert mmu.dtlb vd vpn ppn pte vpn ∙ if_true (vpn == vpn) _ _ ((==_iff vpn vpn).1 refl)

-- Outside machine mode, under Sv39 and for a canonical address, once a walk has put the leaf `pte`,
-- which permits the access, into the buffer (valid before), the same access is translated from the
-- buffer: to the same address as by the walk, in no cycles, and without a change of the buffers or of
-- the bus.
pub translate-insert_tlb :
    {B : Type 0} (ops : BusOps B) (mmu : Mmu) (bus : B) (va level pte : ℕ) (access : AccessType)
    (privilege : PrivilegeMode) (csrs : Csrs)
    → IsValid mmu.dtlb
    → IsValid mmu.itlb
    → va < 2 ^ 64
    → is_mode privilege PrivilegeMode.machine ≡ false
    → mode_of csrs ≡ 8
    → is_canonical va ≡ true
    → check_permissions pte access privilege csrs ≡ true
    → let new_pte = (update_access_bits pte access).0 in
      let paddr = final_paddr level new_pte va in
      let after = insert_tlb mmu access (page_of va) (paddr / 2 ^ 12) new_pte in
      translate ops after bus va access privilege csrs ≡ (success paddr 0, after, bus)
unfolding translate resolve hit_paddr
translate-insert_tlb ops mmu bus va level pte access privilege csrs vd vi hva user mode canonical
      ok =
    let new_pte = (update_access_bits pte access).0 in
    let paddr = final_paddr level new_pte va in
    let after = insert_tlb mmu access (page_of va) (paddr / 2 ^ 12) new_pte in
    let t = translation (filled (page_of va) (paddr / 2 ^ 12) new_pte) in
    if_false (is_mode privilege PrivilegeMode.machine || mode_of csrs == 0) _ _
      (rw (user, mode) refl)
    ∙ if_false (not (mode_of csrs == 8)) _ _ (rw mode refl)
    ∙ if_false _ _ _ (ap not canonical)
    ∙ ap (λ o. resolve ops o after bus va access privilege csrs)
        (lookup-insert_tlb mmu access (page_of va) (paddr / 2 ^ 12) new_pte vd vi)
    ∙ if_false (needs_dirty t access) _ _ (not_needed (page_of va) (paddr / 2 ^ 12) pte access)
    ∙ if_true (permits t access privilege csrs) _ _ (
        permits-filled (page_of va) (paddr / 2 ^ 12) new_pte access privilege csrs
        ∙ updated-permits pte access privilege csrs
        ∙ ok)
    ∙ ap (λ p. (success p 0, after, bus))
        (recomposed paddr va (final_paddr-lt level new_pte va hva)
          (final_paddr-low level new_pte va))
