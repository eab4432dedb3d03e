-- ===== src/Fpu/Tests.antt =====
-- The theorems on boxing at concrete numbers.
use inspectre.Base.{if◌then◌else◌, ◌≡◌, refl, arith}
use inspectre.Fpu.{
  canonical_nan_f32, canonical_nan_f64, is_nan_f32, is_nan_f64, box_f32_canon,
  canonicalize_f64_bits, unbox_f32,
}
use inspectre.Fpu.Boxing.{unbox_f32-box_f32_canon}

not_boxed : unbox_f32 0x3f800000 ≡ canonical_nan_f32
unfolding unbox_f32
not_boxed = refl

payload_lost : canonicalize_f64_bits 0x7ff0000000000001 ≡ canonical_nan_f64
unfolding canonicalize_f64_bits is_nan_f64
payload_lost = refl

unbox_f32-box_f32_canon_example :
    unbox_f32 (box_f32_canon 0x7f800001)
    ≡ (if is_nan_f32 0x7f800001 then canonical_nan_f32 else 0x7f800001)
unbox_f32-box_f32_canon_example = unbox_f32-box_f32_canon 0x7f800001 (omega arith)
