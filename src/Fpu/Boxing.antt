-- ===== src/Fpu/Boxing.antt =====
-- core/units/fpu/nan_handling.rs: what unboxing makes of a boxed number.
use inspectre.Base.{
  ◌==◌, if◌then◌else◌, ==_iff, if_true, if_false, test_bit, test_bit-and, test_bit-or,
  test_bit-above, bits_ext, bit_or_miss, test_bit-rem, test_bit-multiple, ℕ, ◌%◌, ◌^◌, ◌≤◌, ◌<◌,
  bit_and, bit_or, ◌≡◌, refl, sym, ap, ◌∙◌, ◌≢◌, ◌⊎◌, inl, inr, Bool, true, false, ◌&&◌, ◌||◌,
  arith,
}
use inspectre.Fpu.{canonical_nan_f32, nan_box_mask, is_nan_f32, box_f32, box_f32_canon, unbox_f32}

boxed-mask : (x : ℕ) → bit_and (box_f32 x) nan_box_mask ≡ nan_box_mask
unfolding box_f32
boxed-mask x = bits_ext (bit_and (bit_or x nan_box_mask) nan_box_mask) nan_box_mask (λ k.
    test_bit-and (bit_or x nan_box_mask) nan_box_mask k
    ∙ ap (λ t. t && test_bit nan_box_mask k) (test_bit-or x nan_box_mask k)
    ∙ absorb (test_bit x k) (test_bit nan_box_mask k))
  where
    absorb : (a b : Bool) → ((a || b) && b) ≡ b
    absorb true true = refl
    absorb true false = refl
    absorb false true = refl
    absorb false false = refl

boxed-low : (x : ℕ) → x < 2 ^ 32 → box_f32 x % 2 ^ 32 ≡ x
unfolding box_f32
boxed-low x h = bits_ext (bit_or x nan_box_mask % 2 ^ 32) x (λ k. elim (side k) [
  | inl low ↦
      test_bit-rem 32 k (bit_or x nan_box_mask) low
      ∙ bit_or_miss x nan_box_mask k (test_bit-multiple 32 k 0xFFFFFFFF low)
  | inr high ↦
      test_bit-above 32 k (bit_or x nan_box_mask % 2 ^ 32) (omega arith) high
      ∙ sym (test_bit-above 32 k x h high)
])
  where
    side : (k : ℕ) → (k < 32) ⊎ (32 ≤ k)
    side k = ground arith

-- A boxed number of 32 bits is unboxed to itself.
pub unbox_f32-box_f32 : (x : ℕ) → x < 2 ^ 32 → unbox_f32 (box_f32 x) ≡ x
unfolding unbox_f32
unbox_f32-box_f32 x h =
    if_true (bit_and (box_f32 x) nan_box_mask == nan_box_mask) (box_f32 x % 2 ^ 32)
      canonical_nan_f32 ((==_iff (bit_and (box_f32 x) nan_box_mask) nan_box_mask).1 (boxed-mask x))
    ∙ boxed-low x h

-- A result of 32 bits that is boxed with its NaN made canonical is unboxed to the canonical NaN where it
-- is a NaN, and to itself where it is not.
pub unbox_f32-box_f32_canon :
    (x : ℕ)
    → x < 2 ^ 32
    → unbox_f32 (box_f32_canon x) ≡ (if is_nan_f32 x then canonical_nan_f32 else x)
unfolding box_f32_canon box_f32
unbox_f32-box_f32_canon x h =
    unbox_f32-box_f32 (if is_nan_f32 x then canonical_nan_f32 else x) (small (is_nan_f32 x))
  where
    small : (b : Bool) → (if b then canonical_nan_f32 else x) < 2 ^ 32
    small true = omega arith
    small false = h

-- A word whose upper half is not all ones is unboxed to the canonical NaN.
pub unbox_f32-unboxed :
    (val : ℕ) → bit_and val nan_box_mask ≢ nan_box_mask → unbox_f32 val ≡ canonical_nan_f32
unfolding unbox_f32
unbox_f32-unboxed val h =
    if_false (bit_and val nan_box_mask == nan_box_mask) (val % 2 ^ 32) canonical_nan_f32
      (ground arith)
