-- ===== src/Fpu.antt =====
-- core/units/fpu/nan_handling.rs: the boxing of single-precision numbers and the canonical NaN. A
-- number of floating point stands by its bits (`to_bits`, `from_bits`).
pub mod Boxing
mod Tests
use inspectre.Base.{◌==◌, if◌then◌else◌, ℕ, ◌%◌, ◌^◌, bit_and, bit_or, Bool, not, ◌&&◌}

abbrev pub canonical_nan_f32 : ℕ
canonical_nan_f32 = 0x7fc00000

abbrev pub canonical_nan_f64 : ℕ
canonical_nan_f64 = 0x7ff8000000000000

abbrev pub nan_box_mask : ℕ
nan_box_mask = 0xFFFFFFFF00000000

-- An exponent of ones and a mantissa that is not zero.
unfoldable pub is_nan_f32 : ℕ → Bool
is_nan_f32 bits = bit_and bits 0x7F800000 == 0x7F800000 && not (bit_and bits 0x7FFFFF == 0)

unfoldable pub is_nan_f64 : ℕ → Bool
is_nan_f64 bits =
    bit_and bits 0x7FF0000000000000 == 0x7FF0000000000000 && not (bit_and bits 0xFFFFFFFFFFFFF == 0)

unfoldable pub box_f32 : ℕ → ℕ
box_f32 f = bit_or f nan_box_mask

unfoldable pub box_f32_canon : ℕ → ℕ
box_f32_canon f = bit_or (if is_nan_f32 f then canonical_nan_f32 else f) nan_box_mask

unfoldable pub canonicalize_f64_bits : ℕ → ℕ
canonicalize_f64_bits f = if is_nan_f64 f then canonical_nan_f64 else f

unfoldable pub unbox_f32 : ℕ → ℕ
unbox_f32 val = if bit_and val nan_box_mask == nan_box_mask then val % 2 ^ 32 else canonical_nan_f32
