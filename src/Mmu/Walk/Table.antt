-- ===== src/Mmu/Walk/Table.antt =====
-- core/units/mmu/ptw.rs: the page table that a memory holds, and the outcomes of a walk in it.
use inspectre.Base.{
  ◌==◌, if◌then◌else◌, if_either, bit_or-lt, ℕ, zero, suc, ◌%◌, ◌^◌, ◌<◌, bit_or, ◌≡◌, refl, ◌⊎◌,
  Bool, true, false, not, ◌&&◌, none, some, arith,
}
use inspectre.Csr.{Csrs}
use inspectre.Mmu.{AccessType, is_write, TranslationResult, page_fault}
use inspectre.Mmu.Walk.{
  is_valid, is_pointer, is_accessed, is_dirty, ppn_of, pte_addr, is_misaligned, check_permissions,
  update_access_bits, final_paddr,
}
use inspectre.Privilege.{PrivilegeMode}

-- In the table of page `ppn`, with `levels` levels left, the address leads to the leaf of a level at
-- an address of memory.
pub data Maps (mem : ℕ → ℕ) (va : ℕ) : ℕ → ℕ → ℕ → ℕ → Type 0 where
  here :
      (level ppn : ℕ)
      → is_valid (mem (pte_addr ppn va level)) ≡ true
      → is_pointer (mem (pte_addr ppn va level)) ≡ false
      → Maps mem va (suc level) ppn level (pte_addr ppn va level)
  below :
      (level ppn l a : ℕ)
      → is_valid (mem (pte_addr ppn va level)) ≡ true
      → is_pointer (mem (pte_addr ppn va level)) ≡ true
      → Maps mem va level (ppn_of (mem (pte_addr ppn va level))) l a
      → Maps mem va (suc level) ppn l a

-- The entries that lead to the address, from the table of page `ppn` down, are in memory.
unfoldable pub tables_in_ram : (ℕ → Bool) → (ℕ → ℕ) → ℕ → ℕ → ℕ → Bool
tables_in_ram ram mem va zero ppn = true
tables_in_ram ram mem va (suc level) ppn =
    let pte = mem (pte_addr ppn va level) in
    let rest = tables_in_ram ram mem va level (ppn_of pte) in
    ram (pte_addr ppn va level) && (if is_valid pte && is_pointer pte then rest else true)

-- The outcome of a walk in a memory, whose words the predicate tells: a page fault that leaves the
-- memory, or the address of the page of a leaf that is aligned and permits the access, whose accessed
-- bit is set, and its dirty bit for a write, and no other word of the memory is changed.
unfoldable pub Outcome :
    (ℕ → Type 0)
    → (ℕ → ℕ)
    → ℕ
    → AccessType
    → PrivilegeMode
    → Csrs
    → ℕ
    → ℕ
    → TranslationResult
    → (ℕ → ℕ)
    → Type 0
Outcome at mem va access privilege csrs levels ppn r after =
    ((r.trap ≡ some (page_fault va access)) × ((a : ℕ) → at a → after a ≡ mem a))
    ⊎ ((l : ℕ) × (addr : ℕ) × Maps mem va levels ppn l addr
        × (is_misaligned l (mem addr) ≡ false)
        × (check_permissions (mem addr) access privilege csrs ≡ true)
        × (r.trap ≡ none)
        × (r.paddr ≡ final_paddr l (update_access_bits (mem addr) access).0 va)
        × ((a : ℕ)
            → at a
            → after a ≡ (if a == addr then (update_access_bits (mem addr) access).0 else mem a)))

pub unchanged :
    (pte : ℕ) (access : AccessType)
    → (update_access_bits pte access).1 ≡ false
    → (update_access_bits pte access).0 ≡ pte
unfolding update_access_bits
unchanged pte access h = cases (is_write access && not (is_dirty pte)) (is_accessed pte) h
  where
    cases :
        (w a : Bool)
        → (if◌then◌else◌ {A = ℕ × Bool} w
            (bit_or (if not a then bit_or pte (2 ^ 6) else pte) (2 ^ 7), true)
            (if not a then bit_or pte (2 ^ 6) else pte, not a)).1
          ≡ false
        → (if◌then◌else◌ {A = ℕ × Bool} w
            (bit_or (if not a then bit_or pte (2 ^ 6) else pte) (2 ^ 7), true)
            (if not a then bit_or pte (2 ^ 6) else pte, not a)).0
          ≡ pte
    cases true a e = absurd (cc)
    cases false true e = refl
    cases false false e = absurd (cc)

pub update-lt :
    (pte : ℕ) (access : AccessType) → pte < 2 ^ 64 → (update_access_bits pte access).0 < 2 ^ 64
unfolding update_access_bits
update-lt pte access h =
    if_either {A = ℕ × Bool} (λ t. t.0 < 2 ^ 64) (is_write access && not (is_dirty pte))
      (bit_or accessed (2 ^ 7), true) (accessed, not (is_accessed pte))
      (bit_or-lt 64 accessed (2 ^ 7) first (omega arith)) first
  where
    accessed : ℕ
    accessed = if not (is_accessed pte) then bit_or pte (2 ^ 6) else pte

    first : accessed < 2 ^ 64
    first =
        if_either (λ t. t < 2 ^ 64) (not (is_accessed pte)) (bit_or pte (2 ^ 6)) pte
          (bit_or-lt 64 pte (2 ^ 6) h (omega arith)) h

pub pte_addr-aligned : (ppn va level : ℕ) → pte_addr ppn va level % 8 ≡ 0
unfolding pte_addr
pte_addr-aligned ppn va level = omega arith
