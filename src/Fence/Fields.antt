-- ===== src/Fence/Fields.antt =====
-- The fields of a FENCE instruction.
use inspectre.Base.{
  bit_and-mask, ℕ, ◌+◌, ◌*◌, ◌/◌, ◌^◌, ◌<◌, bit_and, ◌≡◌, refl, ap, ◌∙◌, Bool, true, false, arith,
}
use inspectre.Fence.{FenceSet, Fence, from_bits, to_bits, decode}

-- All sixteen sets, one by one.
sets-fields :
    (i o r w : Bool)
    → (from_bits (to_bits (record { i = i; o = o; r = r; w = w }))
        ≡ record { i = i; o = o; r = r; w = w })
      × (to_bits (record { i = i; o = o; r = r; w = w }) < 16)
unfolding from_bits to_bits
sets-fields true true true true = (refl, omega arith)
sets-fields true true true false = (refl, omega arith)
sets-fields true true false true = (refl, omega arith)
sets-fields true true false false = (refl, omega arith)
sets-fields true false true true = (refl, omega arith)
sets-fields true false true false = (refl, omega arith)
sets-fields true false false true = (refl, omega arith)
sets-fields true false false false = (refl, omega arith)
sets-fields false true true true = (refl, omega arith)
sets-fields false true true false = (refl, omega arith)
sets-fields false true false true = (refl, omega arith)
sets-fields false true false false = (refl, omega arith)
sets-fields false false true true = (refl, omega arith)
sets-fields false false true false = (refl, omega arith)
sets-fields false false false true = (refl, omega arith)
sets-fields false false false false = (refl, omega arith)

-- The word with these fields, whatever the others hold.
abbrev pub encode : Fence → ℕ → ℕ → ℕ
encode f high low = high * 2 ^ 28 + to_bits f.pred * 2 ^ 24 + to_bits f.succ * 2 ^ 20 + low

-- Decoding a FENCE finds the two sets that its fields hold, whatever the fields above them and the
-- 20 bits below them are.
pub decode-encode : (f : Fence) (high low : ℕ) → low < 2 ^ 20 → decode (encode f high low) ≡ f
unfolding decode
decode-encode f high low p = λ j. record { pred = field_p j; succ = field_s j }
  where
    bound : (s : FenceSet) → to_bits s < 16
    bound s = (sets-fields s.i s.o s.r s.w).1

    round : (s : FenceSet) → from_bits (to_bits s) ≡ s
    round s = (sets-fields s.i s.o s.r s.w).0

    field_p : from_bits (bit_and (encode f high low / 2 ^ 24) 15) ≡ f.pred
    field_p =
        ap from_bits
          (bit_and-mask 4 (encode f high low / 2 ^ 24) ∙ omega (arith, bound f.pred, bound f.succ))
        ∙ round f.pred

    field_s : from_bits (bit_and (encode f high low / 2 ^ 20) 15) ≡ f.succ
    field_s =
        ap from_bits
          (bit_and-mask 4 (encode f high low / 2 ^ 20) ∙ omega (arith, bound f.pred, bound f.succ))
        ∙ round f.succ
