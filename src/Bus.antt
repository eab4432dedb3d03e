-- ===== src/Bus.antt =====
-- crates/hardware/src/soc/interconnect.rs and soc/memory/mod.rs: the bus, with the memory attached to
-- it and no other device.
--
-- The memory's buffer is a function from offsets to bytes; a cell holds a u8, and is read so.
pub mod Words
mod Tests
use inspectre.Base.{
  ltb, leb, ◌==◌, if◌then◌else◌, ℕ, zero, suc, ◌+◌, ◌-◌, ◌*◌, ◌/◌, ◌%◌, Bool, ◌&&◌, Option, none,
  some,
}
use inspectre.Mmu.{BusOps}

pub record Memory : Type 0 where
  pub base_addr : ℕ
  pub size : ℕ

pub record Bus : Type 0 where
  pub memory : Memory
  pub width_bytes : ℕ
  pub latency_cycles : ℕ

-- `u64::from_le_bytes` of a slice of the buffer, and the write of a slice of `to_le_bytes`.
unfoldable pub read_le_bytes : (ℕ → ℕ) → ℕ → ℕ → ℕ
read_le_bytes buffer i zero = 0
read_le_bytes buffer i (suc n) = buffer i % 256 + 256 * read_le_bytes buffer (i + 1) n

unfoldable pub write_le_bytes : (ℕ → ℕ) → ℕ → ℕ → ℕ → ℕ → ℕ
write_le_bytes buffer i zero val = buffer
write_le_bytes buffer i (suc n) val =
    write_le_bytes (λ a. if a == i then val % 256 else buffer a) (i + 1) n (val / 256)

-- The offset in the memory that claims the address.
unfoldable pub find_device : Bus → ℕ → Option ℕ
find_device b paddr =
    let start = b.memory.base_addr in
    if leb start paddr && ltb paddr (start + b.memory.size) then some (paddr - start) else none

unfoldable pub read_at : (ℕ → ℕ) → Option ℕ → ℕ
read_at buffer (some offset) = read_le_bytes buffer offset 8
read_at buffer none = 0

unfoldable pub write_at : (ℕ → ℕ) → Option ℕ → ℕ → ℕ → ℕ
write_at buffer (some offset) val = write_le_bytes buffer offset 8 val
write_at buffer none val = buffer

unfoldable pub read_u64 : Bus → (ℕ → ℕ) → ℕ → ℕ
read_u64 b buffer paddr = read_at buffer (find_device b paddr)

unfoldable pub write_u64 : Bus → (ℕ → ℕ) → ℕ → ℕ → ℕ → ℕ
write_u64 b buffer paddr val = write_at buffer (find_device b paddr) val

-- With `div_ceil` of the source.
unfoldable pub calculate_transit_time : Bus → ℕ → ℕ
calculate_transit_time b bytes =
    b.latency_cycles
    + (if bytes % b.width_bytes == 0 then bytes / b.width_bytes else bytes / b.width_bytes + 1)

-- All eight bytes at the address are in the memory.
unfoldable pub in_ram : Bus → ℕ → Bool
in_ram b addr = leb b.memory.base_addr addr && leb (addr + 8) (b.memory.base_addr + b.memory.size)

-- What a walk needs of the bus; its state is the buffer.
abbrev pub walk_ops : Bus → BusOps (ℕ → ℕ)
walk_ops b = record {
  calculate_transit_time = λ buffer n. calculate_transit_time b n;
  read_u64 = λ buffer addr. (read_u64 b buffer addr, buffer);
  write_u64 = λ buffer addr val. write_u64 b buffer addr val;
  peek = λ buffer addr. read_u64 b buffer addr;
  in_ram = in_ram b;
}
