-- ===== src/Mmu/Walk.antt =====
-- core/units/mmu/ptw.rs: the walk of the Sv39 page table.
pub mod Found
pub mod Table
pub mod Sound
use inspectre.Base.{
  ltb, ◌==◌, if◌then◌else◌, has, ℕ, zero, suc, ◌+◌, ◌-◌, ◌*◌, ◌/◌, ◌%◌, ◌^◌, bit_and, bit_or, Bool,
  true, false, not, ◌&&◌, ◌||◌,
}
use inspectre.Csr.{Csrs}
use inspectre.Mmu.{
  AccessType, is_fetch, is_read, is_write, TranslationResult, success, fault, page_fault, Mmu,
  BusOps,
}
use inspectre.Privilege.{PrivilegeMode, is_mode}
use inspectre.Tlb.{insert}

abbrev pub satp_ppn_mask : ℕ
satp_ppn_mask = 2 ^ 44 - 1

abbrev pub vpn_mask : ℕ
vpn_mask = 2 ^ 27 - 1

-- A page table entry is its raw word.
abbrev pub is_valid : ℕ → Bool
is_valid pte = has pte (2 ^ 0)

abbrev pub can_read : ℕ → Bool
can_read pte = has pte (2 ^ 1)

abbrev pub can_write : ℕ → Bool
can_write pte = has pte (2 ^ 2)

abbrev pub can_exec : ℕ → Bool
can_exec pte = has pte (2 ^ 3)

abbrev pub is_user : ℕ → Bool
is_user pte = has pte (2 ^ 4)

abbrev pub is_accessed : ℕ → Bool
is_accessed pte = has pte (2 ^ 6)

abbrev pub is_dirty : ℕ → Bool
is_dirty pte = has pte (2 ^ 7)

unfoldable pub ppn_of : ℕ → ℕ
ppn_of pte = bit_and (pte / 2 ^ 10) satp_ppn_mask

abbrev pub is_pointer : ℕ → Bool
is_pointer pte = not (can_read pte) && not (can_write pte) && not (can_exec pte)

abbrev pub with_accessed : ℕ → ℕ
with_accessed pte = bit_or pte (2 ^ 6)

abbrev pub with_dirty : ℕ → ℕ
with_dirty pte = bit_or pte (2 ^ 7)

abbrev pub status_bit : Csrs → ℕ → Bool
status_bit csrs k = not (bit_and (csrs.sstatus / 2 ^ k) 1 == 0)

-- Whether the access is permitted: `Ok` of the source.
unfoldable pub check_permissions : ℕ → AccessType → PrivilegeMode → Csrs → Bool
check_permissions pte access privilege csrs =
    if is_write access && not (can_write pte)
    then false
    else if is_fetch access && not (can_exec pte)
    then false
    else if is_read access && not (can_read pte || can_exec pte && status_bit csrs 19)
    then false
    else if is_mode privilege PrivilegeMode.user && not (is_user pte)
    then false
    else if is_mode privilege PrivilegeMode.supervisor && is_user pte
    then (if not (status_bit csrs 18) then false else not (is_fetch access))
    else true

-- The entry with its accessed and dirty bits, and whether it changed.
unfoldable pub update_access_bits : ℕ → AccessType → ℕ × Bool
update_access_bits pte access =
    let a = if not (is_accessed pte) then with_accessed pte else pte in
    if is_write access && not (is_dirty pte)
    then (with_dirty a, true)
    else (a, not (is_accessed pte))

abbrev pub vpn_shift : ℕ → ℕ
vpn_shift level = 12 + level * 9

unfoldable pub pte_addr : ℕ → ℕ → ℕ → ℕ
pte_addr ppn vaddr level =
    (ppn * 2 ^ 12 % 2 ^ 64 + bit_and (vaddr / 2 ^ vpn_shift level) 511 * 8) % 2 ^ 64

-- A superpage starts at a multiple of its size.
unfoldable pub is_misaligned : ℕ → ℕ → Bool
is_misaligned level pte = ltb 0 level && not (bit_and (ppn_of pte) (2 ^ (level * 9) - 1) == 0)

unfoldable pub final_paddr : ℕ → ℕ → ℕ → ℕ
final_paddr level pte vaddr =
    bit_or (ppn_of pte * 2 ^ 12 % 2 ^ 64) (bit_and vaddr (2 ^ vpn_shift level - 1))

abbrev pub page_of : ℕ → ℕ
page_of vaddr = bit_and (vaddr / 2 ^ 12) vpn_mask

unfoldable pub insert_tlb : Mmu → AccessType → ℕ → ℕ → ℕ → Mmu
insert_tlb mmu access vpn ppn pte =
    if is_fetch access
    then record mmu { itlb = insert mmu.itlb vpn ppn pte }
    else record mmu { dtlb = insert mmu.dtlb vpn ppn pte }

-- The state of the walk: the MMU and the bus.
module _ {B : Type 0} (ops : BusOps B) where
  -- What becomes of a leaf at `addr`, after `cycles`.
  unfoldable pub leaf :
      Mmu → B → ℕ → AccessType → PrivilegeMode → Csrs → ℕ → ℕ → ℕ → ℕ → TranslationResult × Mmu × B
  leaf mmu bus vaddr access privilege csrs level addr pte cycles =
      let new_pte = (update_access_bits pte access).0 in
      let updated = (update_access_bits pte access).1 in
      let paddr = final_paddr level new_pte vaddr in
      if is_misaligned level pte || not (check_permissions pte access privilege csrs)
      then (fault (page_fault vaddr access) cycles, mmu, bus)
      else (
        success paddr (cycles + (if updated then 10 else 0)),
        insert_tlb mmu access (page_of vaddr) (paddr / 2 ^ 12) new_pte,
        (if updated then ops.write_u64 bus addr new_pte else bus),
      )

  -- What becomes of the entry `pte` at `addr`; `rest` is the walk below it.
  unfoldable pub visit :
      Mmu
      → B
      → ℕ
      → AccessType
      → PrivilegeMode
      → Csrs
      → ℕ
      → ℕ
      → ℕ
      → ℕ
      → TranslationResult × Mmu × B
      → TranslationResult × Mmu × B
  visit mmu bus vaddr access privilege csrs level addr pte cycles rest =
      let refused = fault (page_fault vaddr access) cycles in
      if not (is_valid pte)
      then (refused, mmu, bus)
      else (if is_pointer pte
          then (if level == 0 then (refused, mmu, bus) else rest)
          else leaf mmu bus vaddr access privilege csrs level addr pte cycles)

  -- The levels below `levels`, the highest first.
  unfoldable pub walk :
      Mmu → B → ℕ → AccessType → PrivilegeMode → Csrs → ℕ → ℕ → ℕ → TranslationResult × Mmu × B
  walk mmu bus vaddr access privilege csrs zero ppn cycles =
      (fault (page_fault vaddr access) cycles, mmu, bus)
  walk mmu bus vaddr access privilege csrs (suc level) ppn cycles =
      let addr = pte_addr ppn vaddr level in
      let spent = cycles + ops.calculate_transit_time bus 8 in
      let pte = (ops.read_u64 bus addr).0 in
      let bus' = (ops.read_u64 bus addr).1 in
      visit mmu bus' vaddr access privilege csrs level addr pte spent
        (walk mmu bus' vaddr access privilege csrs level (ppn_of pte) spent)

  unfoldable pub page_table_walk :
      Mmu → B → ℕ → AccessType → PrivilegeMode → Csrs → TranslationResult × Mmu × B
  page_table_walk mmu bus vaddr access privilege csrs =
      walk mmu bus vaddr access privilege csrs 3 (bit_and csrs.satp satp_ppn_mask) 0
