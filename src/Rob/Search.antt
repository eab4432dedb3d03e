-- ===== src/Rob/Search.antt =====
-- The walks over the live entries (crates/hardware/src/core/pipeline/rob.rs): backwards from the
-- newest for a register's producer, and forwards from the oldest with a closure.
pub mod Laws
use inspectre.Base.{
  ℕ, zero, suc, Bool, true, false, ◌&&◌, ◌||◌, not, Option, none, some, List, length, get_or, slot,
  prev_slot, ◌==◌, if◌then◌else◌,
}
use inspectre.Rob.{Rob, RobEntry, default_entry, is_completed, capacity}

abbrev pub same_class : Bool → Bool → Bool
same_class true b = b
same_class false b = not b

-- The entry has this destination register.
abbrev pub targets : ℕ → Bool → RobEntry → Bool
targets reg is_fp e = e.valid && (e.rd == reg && same_class e.rd_fp is_fp)

abbrev pub writes : Bool → RobEntry → Bool
writes is_fp e = if is_fp then e.ctrl.fp_reg_write else e.ctrl.reg_write

abbrev pub result_of : RobEntry → Option ℕ
result_of e = if is_completed e.state then some e.result else none

-- The loop of `find_latest_result`, from `idx` backwards.
pub scan_result : List RobEntry → ℕ → Bool → ℕ → ℕ → Option ℕ
scan_result es reg is_fp zero idx = none
scan_result es reg is_fp (suc rounds) idx =
    let rest = scan_result es reg is_fp rounds (prev_slot (length es) idx) in
    let entry = get_or es idx default_entry in
    if targets reg is_fp entry then result_of entry else rest

pub find_latest_result : Rob → ℕ → Bool → Option ℕ
unfolding scan_result
find_latest_result r reg is_fp =
    if r.count == 0 || (not is_fp && reg == 0)
    then none
    else scan_result r.entries reg is_fp r.count (prev_slot (capacity r) r.tail)

-- The loop of `find_latest_producer`.
pub scan_producer : List RobEntry → ℕ → Bool → ℕ → ℕ → Option (ℕ × Bool)
scan_producer es reg is_fp zero idx = none
scan_producer es reg is_fp (suc rounds) idx =
    let rest = scan_producer es reg is_fp rounds (prev_slot (length es) idx) in
    let entry = get_or es idx default_entry in
    if targets reg is_fp entry && writes is_fp entry
    then some (entry.result, is_completed entry.state)
    else rest

pub find_latest_producer : Rob → ℕ → Bool → Option (ℕ × Bool)
unfolding scan_producer
find_latest_producer r reg is_fp =
    if r.count == 0 || (not is_fp && reg == 0)
    then none
    else scan_producer r.entries reg is_fp r.count (prev_slot (capacity r) r.tail)

-- The loop of `for_each_valid`; the closure's captured state is threaded.
pub fold_slots {ℓ} : {S : Type ℓ} → List RobEntry → (S → RobEntry → S) → ℕ → ℕ → S → S
fold_slots es f zero idx s = s
fold_slots es f (suc rounds) idx s =
    let entry = get_or es idx default_entry in
    fold_slots es f rounds (slot (length es) idx 1) (if entry.valid then f s entry else s)

pub for_each_valid {ℓ} : {S : Type ℓ} → Rob → (S → RobEntry → S) → S → S
unfolding fold_slots
for_each_valid r f s = if r.count == 0 then s else fold_slots r.entries f r.count r.head s
