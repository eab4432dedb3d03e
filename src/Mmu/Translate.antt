-- ===== src/Mmu/Translate.antt =====
-- core/units/mmu/mod.rs: a translation, from the buffers or by a walk.
pub mod Again
pub mod Hit
use inspectre.Base.{
  ◌==◌, if◌then◌else◌, ℕ, ◌-◌, ◌*◌, ◌/◌, ◌%◌, ◌^◌, bit_and, bit_or, Bool, true, false, not, ◌&&◌,
  ◌||◌, Option, none, some,
}
use inspectre.Csr.{Csrs}
use inspectre.Mmu.{
  AccessType, is_fetch, is_read, is_write, TranslationResult, success, fault, page_fault, Mmu,
  BusOps,
}
use inspectre.Mmu.Walk.{page_table_walk, page_of, status_bit}
use inspectre.Privilege.{PrivilegeMode, is_mode}
use inspectre.Tlb.{Translation, lookup, invalidate}
use inspectre.Trap.{Trap}

abbrev pub access_fault : ℕ → AccessType → Trap
access_fault addr AccessType.fetch = Trap.instruction_access_fault addr
access_fault addr AccessType.read = Trap.load_access_fault addr
access_fault addr AccessType.write = Trap.store_access_fault addr

-- The bits above 38 repeat bit 38.
unfoldable pub is_canonical : ℕ → Bool
is_canonical va = va / 2 ^ 39 == (if bit_and (va / 2 ^ 38) 1 == 1 then 2 ^ 25 - 1 else 0)

-- Whether a buffered translation permits the access.
unfoldable pub permits : Translation → AccessType → PrivilegeMode → Csrs → Bool
permits (ppn, r, w, x, u, d) access privilege csrs =
    if is_write access && not w
    then false
    else if is_fetch access && not x
    then false
    else if is_read access && not (r || x && status_bit csrs 19)
    then false
    else if is_mode privilege PrivilegeMode.user && not u
    then false
    else if is_mode privilege PrivilegeMode.supervisor && u
    then (if not (status_bit csrs 18) then false else not (is_fetch access))
    else true

-- A write through a translation that is not dirty.
abbrev pub needs_dirty : Translation → AccessType → Bool
needs_dirty (ppn, r, w, x, u, d) access = is_write access && not d

unfoldable pub hit_paddr : Translation → ℕ → ℕ
hit_paddr t va = bit_or (t.0 * 2 ^ 12 % 2 ^ 64) (bit_and va 4095)

abbrev pub mode_of : Csrs → ℕ
mode_of csrs = bit_and (csrs.satp / 2 ^ 60) 15

module _ {B : Type 0} (ops : BusOps B) where
  -- After a lookup in the buffer of the access.
  unfoldable pub resolve :
      Option Translation
      → Mmu
      → B
      → ℕ
      → AccessType
      → PrivilegeMode
      → Csrs
      → TranslationResult × Mmu × B
  resolve none mmu bus va access privilege csrs =
      page_table_walk ops mmu bus va access privilege csrs
  resolve (some t) mmu bus va access privilege csrs =
      if needs_dirty t access
      then page_table_walk ops (record mmu { dtlb = invalidate mmu.dtlb (page_of va) }) bus va
          access privilege csrs
      else (if permits t access privilege csrs
          then (success (hit_paddr t va) 0, mmu, bus)
          else (fault (page_fault va access) 0, mmu, bus))

  unfoldable pub translate :
      Mmu → B → ℕ → AccessType → PrivilegeMode → Csrs → TranslationResult × Mmu × B
  translate mmu bus va access privilege csrs =
      if is_mode privilege PrivilegeMode.machine || mode_of csrs == 0
      then (success va 0, mmu, bus)
      else if not (mode_of csrs == 8)
      then (fault (Trap.instruction_access_fault va) 0, mmu, bus)
      else if not (is_canonical va)
      then (fault (access_fault va access) 0, mmu, bus)
      else resolve
          (if is_fetch access then lookup mmu.itlb (page_of va) else lookup mmu.dtlb (page_of va))
          mmu bus va access privilege csrs
