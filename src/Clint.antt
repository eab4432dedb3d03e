-- ===== src/Clint.antt =====
-- crates/hardware/src/soc/devices/clint.rs: the timer and the software interrupt.
pub mod Time
mod Tests
use inspectre.Base.{
  leb, ◌==◌, if◌then◌else◌, clear, ℕ, ◌+◌, ◌-◌, ◌*◌, ◌/◌, ◌%◌, ◌^◌, bit_and, bit_or, Bool, not,
  ◌||◌,
}

pub record Clint : Type 0 where
  pub base_addr : ℕ
  pub mtime : ℕ
  pub mtimecmp : ℕ
  pub msip : ℕ
  pub divider : ℕ
  pub counter : ℕ

unfoldable pub new : ℕ → ℕ → Clint
new base_addr divider = record {
  base_addr = base_addr;
  mtime = 0;
  mtimecmp = 2 ^ 64 - 1;
  msip = 0;
  divider = if divider == 0 then 1 else divider;
  counter = 0;
}

unfoldable pub read_u64 : Clint → ℕ → ℕ
read_u64 c offset =
    if offset == 0
    then c.msip
    else if offset == 16384
    then c.mtimecmp
    else if offset == 49144
    then c.mtime
    else 0

unfoldable pub read_u8 : Clint → ℕ → ℕ
read_u8 c offset = bit_and (read_u64 c (clear offset 7) / 2 ^ (bit_and offset 7 * 8)) 255

unfoldable pub read_u32 : Clint → ℕ → ℕ
read_u32 c offset =
    if offset == 0
    then c.msip
    else if offset == 16384
    then c.mtimecmp % 2 ^ 32
    else if offset == 16388
    then c.mtimecmp / 2 ^ 32 % 2 ^ 32
    else if offset == 49144
    then c.mtime % 2 ^ 32
    else if offset == 49148
    then c.mtime / 2 ^ 32 % 2 ^ 32
    else 0

-- A word with its lower half replaced, and with its upper half.
abbrev pub with_low : ℕ → ℕ → ℕ
with_low word val = bit_or (bit_and word (2 ^ 64 - 2 ^ 32)) val

abbrev pub with_high : ℕ → ℕ → ℕ
with_high word val = bit_or (bit_and word (2 ^ 32 - 1)) (val * 2 ^ 32 % 2 ^ 64)

unfoldable pub write_u32 : Clint → ℕ → ℕ → Clint
write_u32 c offset val =
    if offset == 0
    then record c { msip = bit_and val 1 }
    else if offset == 16384
    then record c { mtimecmp = with_low c.mtimecmp val }
    else if offset == 16388
    then record c { mtimecmp = with_high c.mtimecmp val }
    else if offset == 49144
    then record c { mtime = with_low c.mtime val }
    else if offset == 49148
    then record c { mtime = with_high c.mtime val }
    else c

unfoldable pub write_u64 : Clint → ℕ → ℕ → Clint
write_u64 c offset val =
    if offset == 0
    then record c { msip = bit_and (val % 2 ^ 32) 1 }
    else if offset == 16384
    then record c { mtimecmp = val }
    else if offset == 49144
    then record c { mtime = val }
    else c

unfoldable pub advanced : Clint → Clint
advanced c =
    if leb c.divider (c.counter + 1)
    then record c { counter = 0; mtime = (c.mtime + 1) % 2 ^ 64 }
    else record c { counter = c.counter + 1 }

-- Whether an interrupt is pending, and the timer after one cycle.
unfoldable pub tick : Clint → Bool × Clint
tick c = let d = advanced c in (leb d.mtimecmp d.mtime || not (bit_and d.msip 1 == 0), d)
