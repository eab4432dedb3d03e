-- ===== src/Tlb.antt =====
-- core/units/mmu/tlb.rs: the direct-mapped translation lookaside buffer.
pub mod Lookup
pub mod History
mod Tests
use inspectre.Base.{
  leb, ◌==◌, if◌then◌else◌, get_or, set, replicate, ℕ, zero, suc, ◌-◌, ◌*◌, ◌/◌, ◌^◌, bit_and, Bool,
  true, false, not, ◌&&◌, Option, none, some, List, map,
}

pub record TlbEntry : Type 0 where
  pub vpn : ℕ
  pub ppn : ℕ
  pub valid : Bool
  pub r : Bool
  pub w : Bool
  pub x : Bool
  pub u : Bool
  pub d : Bool

abbrev pub default_entry : TlbEntry
default_entry = record {
  vpn = 0;
  ppn = 0;
  valid = false;
  r = false;
  w = false;
  x = false;
  u = false;
  d = false;
}

pub record Tlb : Type 0 where
  pub entries : List TlbEntry
  pub mask : ℕ

abbrev pub is_power_of_two : ℕ → Bool
is_power_of_two n = not (n == 0) && bit_and n (n - 1) == 0

-- The least power of two that is at least `n`, from `acc` on; 64 doublings reach 2 ^ 64.
abbrev pub next_power_of_two : ℕ → ℕ → ℕ → ℕ
next_power_of_two zero acc n = acc
next_power_of_two (suc rounds) acc n =
    let rest = next_power_of_two rounds (acc * 2) n in if leb n acc then acc else rest

abbrev pub safe_size : ℕ → ℕ
safe_size size = if is_power_of_two size then size else next_power_of_two 64 1 size

unfoldable pub new : ℕ → Tlb
new size = record { entries = replicate (safe_size size) default_entry; mask = safe_size size - 1 }

abbrev pub index : Tlb → ℕ → ℕ
index t vpn = bit_and vpn t.mask

-- What a lookup returns: the physical page, and whether the page may be read, written, executed and
-- used by user mode, and whether it is dirty.
abbrev pub Translation : Type 0
Translation = ℕ × Bool × Bool × Bool × Bool × Bool

abbrev pub translation : TlbEntry → Translation
translation e = (e.ppn, e.r, e.w, e.x, e.u, e.d)

abbrev pub hit : TlbEntry → ℕ → Option Translation
hit e vpn = if e.valid && e.vpn == vpn then some (translation e) else none

unfoldable pub lookup : Tlb → ℕ → Option Translation
lookup t vpn = hit (get_or t.entries (index t vpn) default_entry) vpn

abbrev pub bit : ℕ → ℕ → Bool
bit pte k = not (bit_and (pte / 2 ^ k) 1 == 0)

abbrev pub filled : ℕ → ℕ → ℕ → TlbEntry
filled vpn ppn pte = record {
  vpn = vpn;
  ppn = ppn;
  valid = true;
  r = bit pte 1;
  w = bit pte 2;
  x = bit pte 3;
  u = bit pte 4;
  d = bit pte 7;
}

pub insert : Tlb → ℕ → ℕ → ℕ → Tlb
insert t vpn ppn pte = record t { entries = set t.entries (index t vpn) (filled vpn ppn pte) }

abbrev pub dropped : TlbEntry → TlbEntry
dropped e = record e { valid = false }

pub invalidate : Tlb → ℕ → Tlb
invalidate t vpn =
    let entry = get_or t.entries (index t vpn) default_entry in
    if entry.valid && entry.vpn == vpn
    then record t { entries = set t.entries (index t vpn) (dropped entry) }
    else t

pub flush : Tlb → Tlb
flush t = record t { entries = map dropped t.entries }
