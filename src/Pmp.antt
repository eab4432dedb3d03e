-- ===== src/Pmp.antt =====
-- core/units/mmu/pmp.rs: physical memory protection.
--
-- Addresses are u64 and configurations are u8. Sums and shifts wrap at 2 ^ 64 and shift counts at
-- 64, as they do in a build without overflow checks.
pub mod First
pub mod Locked
mod Tests
use inspectre.Base.{
  ltb, leb, ◌==◌, if◌then◌else◌, length, get_or, set, replicate, ℕ, zero, suc, ◌+◌, ◌-◌, ◌*◌, ◌/◌,
  ◌%◌, ◌^◌, bit_and, Bool, false, not, ◌&&◌, ◌||◌, Option, none, some, List,
}

unfoldable pub pmp_count : ℕ
pmp_count = 16

pub data PmpAddrMatch : Type 0 where
  off tor na4 napot : PmpAddrMatch

abbrev pub match_of : ℕ → PmpAddrMatch
match_of zero = PmpAddrMatch.off
match_of (suc zero) = PmpAddrMatch.tor
match_of (suc (suc zero)) = PmpAddrMatch.na4
match_of (suc (suc (suc n))) = PmpAddrMatch.napot

abbrev pub from_bits : ℕ → PmpAddrMatch
from_bits bits = match_of (bit_and bits 3)

pub data PmpResult : Type 0 where
  allow deny no_match : PmpResult

pub record PmpEntry : Type 0 where
  pub cfg : ℕ
  pub addr : ℕ

abbrev pub match_mode : PmpEntry → PmpAddrMatch
match_mode e = from_bits (bit_and (e.cfg / 2 ^ 3) 3)

unfoldable pub is_readable : PmpEntry → Bool
is_readable e = not (bit_and e.cfg 1 == 0)

unfoldable pub is_writable : PmpEntry → Bool
is_writable e = not (bit_and e.cfg 2 == 0)

unfoldable pub is_executable : PmpEntry → Bool
is_executable e = not (bit_and e.cfg 4 == 0)

unfoldable pub is_locked : PmpEntry → Bool
is_locked e = not (bit_and e.cfg 128 == 0)

pub record Pmp : Type 0 where
  pub entries : List PmpEntry

abbrev pub disabled : PmpEntry
disabled = record { cfg = 0; addr = 0 }

unfoldable pub new : Pmp
unfolding pmp_count
new = record { entries = replicate pmp_count disabled }

abbrev pub entry_at : Pmp → ℕ → PmpEntry
entry_at p idx = get_or p.entries idx disabled

unfoldable pub set_cfg : Pmp → ℕ → ℕ → Pmp
set_cfg p idx cfg =
    if ltb idx (length p.entries)
    then (if is_locked (entry_at p idx)
        then p
        else record p { entries = set p.entries idx (record (entry_at p idx) { cfg = cfg }) })
    else p

unfoldable pub set_addr : Pmp → ℕ → ℕ → Pmp
set_addr p idx addr =
    if ltb idx (length p.entries)
    then (if is_locked (entry_at p idx)
        then p
        else record p { entries = set p.entries idx (record (entry_at p idx) { addr = addr }) })
    else p

unfoldable pub get_cfg : Pmp → ℕ → ℕ
get_cfg p idx = if ltb idx (length p.entries) then (entry_at p idx).cfg else 0

unfoldable pub get_addr : Pmp → ℕ → ℕ
get_addr p idx = if ltb idx (length p.entries) then (entry_at p idx).addr else 0

-- `trailing_zeros` of a number of `n` bits.
abbrev pub trailing_zeros : ℕ → ℕ → ℕ
trailing_zeros zero x = 0
trailing_zeros (suc n) x = let rest = trailing_zeros n (x / 2) in if x % 2 == 0 then suc rest else 0

-- `x << 2`.
abbrev pub byte_address : ℕ → ℕ
byte_address x = x * 4 % 2 ^ 64

unfoldable pub napot_range : ℕ → ℕ × ℕ
napot_range pmpaddr =
    let trailing = trailing_zeros 64 (2 ^ 64 - 1 - pmpaddr) in
    let size = 2 ^ ((trailing + 3) % 64) in
    let base = bit_and (byte_address pmpaddr) (2 ^ 64 - 1 - (size - 1)) in
    (base, (base + size) % 2 ^ 64)

unfoldable pub na4_range : ℕ → ℕ × ℕ
na4_range pmpaddr = (byte_address pmpaddr, (byte_address pmpaddr + 4) % 2 ^ 64)

abbrev pub tor_range : Pmp → ℕ → ℕ × ℕ
tor_range p zero = (0, byte_address (entry_at p 0).addr)
tor_range p (suc i) = (byte_address (entry_at p i).addr, byte_address (entry_at p (suc i)).addr)

-- The range of entry `i`, unless it is off.
pub range_of : PmpAddrMatch → Pmp → ℕ → Option (ℕ × ℕ)
range_of PmpAddrMatch.off p i = none
range_of PmpAddrMatch.tor p i = some (tor_range p i)
range_of PmpAddrMatch.na4 p i = some (na4_range (entry_at p i).addr)
range_of PmpAddrMatch.napot p i = some (napot_range (entry_at p i).addr)

-- An access: its address, its size and what it does.
pub record Access : Type 0 where
  pub byte_addr : ℕ
  pub size : ℕ
  pub is_read : Bool
  pub is_write : Bool
  pub is_exec : Bool
  pub is_machine_mode : Bool

abbrev pub inside : Option (ℕ × ℕ) → Access → Bool
inside none a = false
inside (some (lo, hi)) a = leb lo a.byte_addr && leb ((a.byte_addr + a.size) % 2 ^ 64) hi

-- Entry `i` decides the access.
abbrev pub covers : Pmp → ℕ → Access → Bool
covers p i a = inside (range_of (match_mode (entry_at p i)) p i) a

abbrev pub permitted : PmpEntry → Access → Bool
permitted e a =
    (not a.is_read || is_readable e)
    && (not a.is_write || is_writable e)
    && (not a.is_exec || is_executable e)

-- What an entry that covers the access answers.
abbrev pub verdict : PmpEntry → Access → PmpResult
verdict e a =
    if a.is_machine_mode && not (is_locked e)
    then PmpResult.allow
    else (if permitted e a then PmpResult.allow else PmpResult.deny)

abbrev pub default_verdict : Access → PmpResult
default_verdict a = if a.is_machine_mode then PmpResult.allow else PmpResult.no_match

-- The loop of `check` from entry `i`, with the rounds that are left.
abbrev pub check_from : Pmp → Access → ℕ → ℕ → PmpResult
check_from p a zero i = default_verdict a
check_from p a (suc n) i =
    let rest = check_from p a n (suc i) in if covers p i a then verdict (entry_at p i) a else rest

unfoldable pub check : Pmp → Access → PmpResult
check p a = check_from p a (length p.entries) 0
