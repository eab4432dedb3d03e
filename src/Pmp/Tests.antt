-- ===== src/Pmp/Tests.antt =====
-- Runs of the protection unit, and the theorems at them.
use inspectre.Base.{[], length, ℕ, ◌-◌, ◌^◌, ◌<◌, ◌≡◌, refl, ◌⊎◌, true, false, List, ◌∷◌}
use inspectre.Pmp.{
  Pmp, PmpResult, Access, entry_at, covers, permitted, verdict, default_verdict, is_locked,
  is_readable, is_writable, is_executable, napot_range, na4_range, range_of, check,
}
use inspectre.Pmp.First.{IsFirst, check_decides, check-allow}
use inspectre.Pmp.Locked.{PmpWrite, writes, writes-locked}

-- Entry 0 is a locked read-only region of 4 KiB at 0x8000_0000, entry 1 opens what lies below
-- 0x9000_0000 to all.
abbrev guarded : Pmp
guarded = record {
  entries =
      record { cfg = 0x99; addr = 0x200001ff } ∷ record { cfg = 0x0f; addr = 0x24000000 } ∷ [];
}

abbrev user_load : Access
user_load = record {
  byte_addr = 0x80000010;
  size = 8;
  is_read = true;
  is_write = false;
  is_exec = false;
  is_machine_mode = false;
}

abbrev machine_store : Access
machine_store = record user_load { is_read = false; is_write = true; is_machine_mode = true }

napot_4k : napot_range 0x200001ff ≡ (0x80000000, 0x80001000)
unfolding napot_range
napot_4k = refl

-- All ones: the shift count wraps, and so the region is 8 bytes and not the whole space.
napot_all : napot_range (2 ^ 64 - 1) ≡ (2 ^ 64 - 8, 0)
unfolding napot_range
napot_all = refl

loads : check guarded user_load ≡ PmpResult.allow
unfolding check range_of napot_range na4_range is_readable is_writable is_executable is_locked
loads = refl

stores_not : check guarded machine_store ≡ PmpResult.deny
unfolding check range_of napot_range na4_range is_readable is_writable is_executable is_locked
stores_not = refl

locked_0 : is_locked (entry_at guarded 0) ≡ true
unfolding is_locked
locked_0 = refl

check_decides_example :
    ((k : ℕ) × IsFirst guarded user_load k
      × (check guarded user_load ≡ verdict (entry_at guarded k) user_load))
    ⊎ (((j : ℕ) → j < length guarded.entries → covers guarded j user_load ≡ false)
        × (check guarded user_load ≡ default_verdict user_load))
check_decides_example = check_decides guarded user_load

check-allow_example :
    (k : ℕ) × IsFirst guarded user_load k × (permitted (entry_at guarded k) user_load ≡ true)
check-allow_example = check-allow guarded user_load refl loads

abbrev attack : List PmpWrite
attack = PmpWrite.cfg_write 0 0 ∷ PmpWrite.addr_write 0 0 ∷ PmpWrite.addr_write 1 4 ∷ []

writes-locked_example :
    (entry_at (writes guarded attack) 0 ≡ entry_at guarded 0)
    × (is_locked (entry_at (writes guarded attack) 0) ≡ true)
writes-locked_example = writes-locked guarded 0 attack locked_0
