-- ===== src/Scoreboard.antt =====
-- crates/hardware/src/core/pipeline/scoreboard.rs: for each architectural register the tag of its
-- latest in-flight producer. A register number of 32 or more panics in the source; here such a
-- read finds no producer and such a write changes nothing.
pub mod Latest
pub mod Coherent
pub mod Changes
pub mod Tracking
mod Tests
use inspectre.Base.{
  ℕ, Bool, true, false, ◌&&◌, ◌||◌, not, Option, none, some, List, length, get_or, set, replicate,
  ◌==◌, if◌then◌else◌,
}
use inspectre.Rob.{Rob, RobTag, RobEntry}
use inspectre.Rob.Search.{for_each_valid}

pub record Scoreboard : Type 0 where
  pub gpr : List (Option RobTag)
  pub fpr : List (Option RobTag)

pub new : Scoreboard
new = record { gpr = replicate 32 none; fpr = replicate 32 none }

-- The table of a register class, read and written.
abbrev pub table : Bool → Scoreboard → List (Option RobTag)
table is_fp s = if is_fp then s.fpr else s.gpr

abbrev pub put : Bool → ℕ → Option RobTag → Scoreboard → Scoreboard
put is_fp reg o s =
    if is_fp then record s { fpr = set s.fpr reg o } else record s { gpr = set s.gpr reg o }

pub set_producer : Scoreboard → ℕ → Bool → RobTag → Scoreboard
set_producer s reg is_fp tag =
    if is_fp
    then put true reg (some tag) s
    else if not (reg == 0)
    then put false reg (some tag) s
    else s

pub get_producer : Scoreboard → ℕ → Bool → Option RobTag
get_producer s reg is_fp = get_or (table is_fp s) reg none

abbrev pub is_tag : Option RobTag → RobTag → Bool
is_tag none t = false
is_tag (some u) t = u == t

pub clear_if_match : Scoreboard → ℕ → Bool → RobTag → Scoreboard
clear_if_match s reg is_fp tag =
    if is_tag (get_or (table is_fp s) reg none) tag then put is_fp reg none s else s

pub flush : Scoreboard → Scoreboard
flush s = record { gpr = replicate 32 none; fpr = replicate 32 none }

-- The closure that `rebuild_from_rob` hands to `for_each_valid`.
abbrev pub mark : Scoreboard → RobEntry → Scoreboard
mark s e =
    if e.ctrl.fp_reg_write
    then put true e.rd (some e.tag) s
    else if e.ctrl.reg_write && not (e.rd == 0)
    then put false e.rd (some e.tag) s
    else s

pub rebuild_from_rob : Scoreboard → Rob → Scoreboard
unfolding flush
rebuild_from_rob s r = for_each_valid r mark (flush s)

-- Rename marks a destination with the instruction's own tag (frontend/rename.rs).
pub mark_renamed : Scoreboard → RobEntry → Scoreboard
mark_renamed s e =
    if e.ctrl.reg_write || e.ctrl.fp_reg_write
    then set_producer s e.rd e.ctrl.fp_reg_write e.tag
    else s

-- Commit clears the destination of the retired entry (backend/shared/commit.rs).
pub clear_committed : Scoreboard → RobEntry → Scoreboard
clear_committed s e =
    if e.ctrl.fp_reg_write
    then clear_if_match s e.rd true e.tag
    else if e.ctrl.reg_write && not (e.rd == 0)
    then clear_if_match s e.rd false e.tag
    else s
