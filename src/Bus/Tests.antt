-- ===== src/Bus/Tests.antt =====
-- Runs of the bus: words overlap byte by byte, and what is not in the memory reads as zero.
use inspectre.Base.{ℕ, ◌≡◌, refl}
use inspectre.Bus.{
  Bus, read_le_bytes, write_le_bytes, find_device, read_at, write_at, read_u64, write_u64,
}

abbrev board : Bus
board = record {
  memory = record { base_addr = 4096; size = 64 };
  width_bytes = 8;
  latency_cycles = 4;
}

abbrev empty : ℕ → ℕ
empty offset = 0

overlaps : read_u64 board (write_u64 board empty 4096 0x1122334455667788) 4100 ≡ 0x11223344
unfolding read_u64 write_u64 read_at write_at find_device read_le_bytes write_le_bytes
overlaps = refl

unmapped : read_u64 board (write_u64 board empty 0 7) 0 ≡ 0
unfolding read_u64 read_at find_device
unmapped = refl
