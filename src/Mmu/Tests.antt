-- ===== src/Mmu/Tests.antt =====
-- A page table in the memory behind the bus, its walk, and the translation that follows.
use inspectre.Base.{◌==◌, if◌then◌else◌, has, ℕ, ◌+◌, ◌^◌, bit_and, ◌≡◌, refl, arith}
use inspectre.Bus.{
  Bus, in_ram, read_u64, read_at, read_le_bytes, find_device, calculate_transit_time, walk_ops,
}
use inspectre.Bus.Words.{walk_ops_laws}
use inspectre.Csr.{Csrs, zeroed}
use inspectre.Mmu.{AccessType, Word, success, new}
use inspectre.Mmu.Translate.{translate, resolve, is_canonical}
use inspectre.Mmu.Translate.Again.{translate-translate}
use inspectre.Mmu.Walk.{
  page_table_walk, insert_tlb, update_access_bits, final_paddr, satp_ppn_mask, check_permissions,
  ppn_of, pte_addr, visit, leaf, walk, is_misaligned,
}
use inspectre.Mmu.Walk.Sound.{page_table_walk-Outcome}
use inspectre.Mmu.Walk.Table.{Outcome, tables_in_ram}
use inspectre.Privilege.{PrivilegeMode, to_u8}
use inspectre.Tlb
use inspectre.Tlb.{lookup}
use inspectre.Tlb.Lookup.{new-IsValid}

-- A bus of eight bytes with a megabyte of memory from 2 ^ 31 on.
abbrev board : Bus
board = record {
  memory = record { base_addr = 2 ^ 31; size = 2 ^ 20 };
  width_bytes = 8;
  latency_cycles = 4;
}

-- The root table is in the second page of the memory, with a readable and writable superpage of page
-- number 2 ^ 18 in its first entry.
abbrev table : ℕ → ℕ
table offset = if offset == 4096 then 23 else if offset == 4099 then 16 else 0

abbrev sv39 : Csrs
sv39 = record zeroed { satp = 2 ^ 63 + 2 ^ 19 + 1 }

abbrev walked_va : ℕ
walked_va = 4660

root_entry : read_u64 board table (2 ^ 31 + 4096) ≡ 2 ^ 28 + 23
unfolding read_u64 read_at read_le_bytes find_device
root_entry = refl

walk_result :
    (page_table_walk
      (walk_ops board)
      (new 4)
      table
      walked_va
      AccessType.write
      PrivilegeMode.user
      sv39).0
    ≡ success (2 ^ 30 + 4660) 15
unfolding page_table_walk walk visit leaf check_permissions is_misaligned update_access_bits
    final_paddr ppn_of pte_addr has to_u8 new insert_tlb read_u64 read_at read_le_bytes find_device
    calculate_transit_time
walk_result = refl

page_table_walk-Outcome_example :
    let t =
      page_table_walk
        (walk_ops board)
        (new 4)
        table
        walked_va
        AccessType.write
        PrivilegeMode.user
        sv39 in
    Outcome
      (Word (walk_ops board))
      (λ a. read_u64 board table a)
      walked_va
      AccessType.write
      PrivilegeMode.user
      sv39
      3
      (bit_and sv39.satp satp_ppn_mask)
      t.0
      (λ a. read_u64 board t.2 a)
unfolding tables_in_ram in_ram read_u64 read_at read_le_bytes find_device pte_addr ppn_of has
page_table_walk-Outcome_example =
    page_table_walk-Outcome (walk_ops board) (walk_ops_laws board) (new 4) table walked_va
      AccessType.write PrivilegeMode.user sv39 refl

translate-translate_example :
    let t =
      translate (walk_ops board) (new 4) table walked_va AccessType.write PrivilegeMode.user sv39 in
    translate (walk_ops board) t.1 t.2 walked_va AccessType.write PrivilegeMode.user sv39
    ≡ (success t.0.paddr 0, t.1, t.2)
unfolding translate resolve is_canonical page_table_walk walk visit leaf check_permissions
    is_misaligned update_access_bits final_paddr ppn_of pte_addr has to_u8 new insert_tlb read_u64
    read_at read_le_bytes find_device lookup Tlb.new
translate-translate_example =
    translate-translate (walk_ops board) (new 4) table walked_va AccessType.write PrivilegeMode.user
      sv39 (record { dtlb = new-IsValid 4; itlb = new-IsValid 4 }) (omega arith) refl
