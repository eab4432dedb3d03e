-- ===== src/Lsu/Unaligned.antt =====
-- core/units/lsu/unaligned.rs: alignment, and accesses split into bytes. Sums wrap at 2 ^ 64 and
-- shift counts at 64, as in a build without overflow checks.
pub mod Bytes
use inspectre.Base.{
  leb, ◌==◌, if◌then◌else◌, ℕ, zero, suc, ◌+◌, ◌-◌, ◌*◌, ◌/◌, ◌%◌, ◌^◌, bit_and, bit_or, Bool, true,
  false, not, ◌||◌,
}
use inspectre.Signals.{MemWidth}
use inspectre.Trap.{Trap}

unfoldable pub is_aligned : ℕ → ℕ → Bool
is_aligned addr size = if size == 0 || size == 1 then true else bit_and addr (size - 1) == 0

-- The sum of the offset in the line and the size cannot wrap where the size is that of an access.
unfoldable pub crosses_cache_line : ℕ → ℕ → ℕ → Bool
crosses_cache_line addr size cache_line_size =
    if size == 0
    then false
    else leb cache_line_size ((bit_and addr (cache_line_size - 1) + (size - 1)) % 2 ^ 64)

unfoldable pub calculate_unaligned_latency : ℕ → ℕ → ℕ → ℕ
calculate_unaligned_latency addr size cache_line_size =
    if is_aligned addr size
    then 0
    else (if not (crosses_cache_line addr size cache_line_size) then 1 else 2)

abbrev pub load_misaligned_trap : ℕ → Trap
load_misaligned_trap addr = Trap.load_address_misaligned addr

abbrev pub store_misaligned_trap : ℕ → Trap
store_misaligned_trap addr = Trap.store_address_misaligned addr

unfoldable pub width_to_bytes : MemWidth → ℕ
width_to_bytes MemWidth.nop = 0
width_to_bytes MemWidth.byte = 1
width_to_bytes MemWidth.half = 2
width_to_bytes MemWidth.word = 4
width_to_bytes MemWidth.double = 8

-- The bytes `i`, `i + 1`, … of a load; the callback reads a byte of the state, which it may change.
unfoldable pub load_bytes {ℓ} : {S : Type ℓ} → (S → ℕ → ℕ × S) → ℕ → ℕ → ℕ → S → ℕ → ℕ × S
load_bytes read_byte addr i zero s result = (result, s)
load_bytes read_byte addr i (suc n) s result =
    let r = read_byte s ((addr + i) % 2 ^ 64) in
    load_bytes read_byte addr (i + 1) n r.1 (bit_or result (r.0 * 2 ^ (i * 8 % 64) % 2 ^ 64))

unfoldable pub split_load {ℓ} : {S : Type ℓ} → (S → ℕ → ℕ × S) → ℕ → ℕ → S → ℕ × S
split_load read_byte addr size s = load_bytes read_byte addr 0 size s 0

-- The bytes `i`, `i + 1`, … of a store.
unfoldable pub store_bytes {ℓ} : {S : Type ℓ} → (S → ℕ → ℕ → S) → ℕ → ℕ → ℕ → ℕ → S → S
store_bytes write_byte addr val i zero s = s
store_bytes write_byte addr val i (suc n) s =
    store_bytes write_byte addr val (i + 1) n
      (write_byte s ((addr + i) % 2 ^ 64) (bit_and (val / 2 ^ (i * 8 % 64)) 255))

unfoldable pub split_store {ℓ} : {S : Type ℓ} → (S → ℕ → ℕ → S) → ℕ → ℕ → ℕ → S → S
split_store write_byte addr size val s = store_bytes write_byte addr val 0 size s
