-- ===== src/Base/Changes.antt =====
-- Words that differ only within a mask, and what a mask shows of them.
use Prim.Native.Nat.{ℕ, ◌^◌, ◌≤◌, ◌<◌, bit_and, bit_or}
use mathlib.Core.Path.{◌≡◌, refl, ap, sym, ◌∙◌}
use mathlib.Core.Bool.{Bool, true, false, not, ◌&&◌, ◌||◌}
use mathlib.Core.Logic.{◌⊎◌, inl, inr}
use native.Mathlib.Omega.{arith}
use inspectre.Base.Tests.{Bool-cases}
use inspectre.Base.Masks.{bit_and-le}
use inspectre.Base.Bits.{
  test_bit, test_bit-zero, test_bit-and, test_bit-or, test_bit-above, bits_ext,
}
use inspectre.Base.Words.{
  clear, merge, assign, test_bit-clear, test_bit-merge, test_bit-assign, words_ext, bit_or-lt,
  clear-lt,
}

-- Outside the mask the two words have the same bits.
pub Within : ℕ → ℕ → ℕ → Type 0
Within mask x y = (k : ℕ) → k < 64 → test_bit mask k ≡ false → test_bit x k ≡ test_bit y k

pub same-Within : (mask x : ℕ) → Within mask x x
unfolding Within
same-Within mask x k hk off = refl

pub chain-Within : (mask x y z : ℕ) → Within mask x y → Within mask y z → Within mask x z
unfolding Within
chain-Within mask x y z f g k hk off = f k hk off ∙ g k hk off

-- A bit of a part of a mask is one of the mask.
inside : (m mask k : ℕ) → bit_and m mask ≡ m → test_bit mask k ≡ false → test_bit m k ≡ false
inside m mask k part off =
    ap (λ t. test_bit t k) (sym part)
    ∙ test_bit-and m mask k
    ∙ ap (λ t. test_bit m k && t) off
    ∙ and_false (test_bit m k)
  where
    and_false : (a : Bool) → (a && false) ≡ false
    and_false true = refl
    and_false false = refl

pub assign-Within :
    (mask : ℕ) (b : Bool) (x m : ℕ) → m < 2 ^ 64 → bit_and m mask ≡ m → Within mask (assign b x m) x
unfolding Within
assign-Within mask b x m hm part k hk off =
    test_bit-assign b x m k hm hk
    ∙ ap (λ t. test_bit x k && not t || b && t) (inside m mask k part off)
    ∙ keep (test_bit x k) b
  where
    keep : (a b : Bool) → (a && true || b && false) ≡ a
    keep true b = refl
    keep false true = refl
    keep false false = refl

pub clear-Within : (mask x m : ℕ) → m < 2 ^ 64 → bit_and m mask ≡ m → Within mask (clear x m) x
unfolding Within assign
clear-Within mask x m hm part = assign-Within mask false x m hm part

pub bit_or-Within : (mask x m : ℕ) → m < 2 ^ 64 → bit_and m mask ≡ m → Within mask (bit_or x m) x
unfolding Within assign
bit_or-Within mask x m hm part = assign-Within mask true x m hm part

-- What lies outside the mask that changed shows nothing of the change.
pub bit_and-Within :
    (mask r x y : ℕ) → r < 2 ^ 64 → bit_and r mask ≡ 0 → Within mask x y → bit_and x r ≡ bit_and y r
unfolding Within
bit_and-Within mask r x y hr apart h = bits_ext (bit_and x r) (bit_and y r) (λ k.
    test_bit-and x r k
    ∙ pick (test_bit x k) (test_bit y k) (test_bit r k)
        (at k (split k) (Bool-cases (test_bit mask k)))
    ∙ sym (test_bit-and y r k))
  where
    split : (k : ℕ) → (k < 64) ⊎ (64 ≤ k)
    split k = ground arith

    dark : (b c : Bool) → b ≡ true → (c && b) ≡ false → c ≡ false
    dark b true e f = sym e ∙ f
    dark b false e f = refl

    pick : (a b c : Bool) → (c ≡ false) ⊎ (a ≡ b) → (a && c) ≡ (b && c)
    pick a b c (inr e) = ap (λ t. t && c) e
    pick true true c (inl e) = refl
    pick false false c (inl e) = refl
    pick true false c (inl e) = e
    pick false true c (inl e) = sym e

    at :
        (k : ℕ)
        → (k < 64) ⊎ (64 ≤ k)
        → (test_bit mask k ≡ true) ⊎ (test_bit mask k ≡ false)
        → (test_bit r k ≡ false) ⊎ (test_bit x k ≡ test_bit y k)
    at k (inr ge) t = inl (test_bit-above 64 k r hr ge)
    at k (inl lt) (inr off) = inr (h k lt off)
    at k (inl lt) (inl on) = inl (
        dark (test_bit mask k) (test_bit r k) on
          (sym (test_bit-and r mask k) ∙ ap (λ t. test_bit t k) apart ∙ test_bit-zero k))

-- A merge of a word that differs from what `r` shows only within the mask shows that word.
pub merge_seen :
    (mask r m s : ℕ)
    → mask < 2 ^ 64
    → r < 2 ^ 64
    → s < 2 ^ 64
    → bit_and mask r ≡ mask
    → Within mask s (bit_and m r)
    → bit_and (merge mask m s) r ≡ s
unfolding Within
merge_seen mask r m s hm hr hs part h =
    words_ext (bit_and (merge mask m s) r) s (omega (arith, bit_and-le (merge mask m s) r)) hs
      (λ k hk.
        test_bit-and (merge mask m s) r k
        ∙ ap (λ t. t && test_bit r k) (test_bit-merge mask m s k hm hk)
        ∙ pick (test_bit m k) (test_bit s k) (test_bit mask k) (test_bit r k)
            (ap (λ t. test_bit t k) (sym part) ∙ test_bit-and mask r k)
            (λ off. h k hk off ∙ test_bit-and m r k))
  where
    pick :
        (m s c r : Bool)
        → c ≡ (c && r)
        → (c ≡ false → s ≡ (m && r))
        → ((m && not c || s && c) && r) ≡ s
    pick true true true r e f = sym e
    pick false true true r e f = sym e
    pick true false true r e f = refl
    pick false false true r e f = refl
    pick true true false r e f = sym (f refl)
    pick false true false r e f = sym (f refl)
    pick true false false r e f = sym (f refl)
    pick false false false r e f = sym (f refl)

-- A field set in a word and in what `r` shows of it.
pub set_seen :
    (f r m : ℕ)
    → f < 2 ^ 64
    → r < 2 ^ 64
    → bit_and f r ≡ f
    → bit_or (clear (bit_and m r) f) f ≡ bit_and (bit_or (clear m f) f) r
set_seen f r m hf hr part =
    words_ext (bit_or (clear (bit_and m r) f) f) (bit_and (bit_or (clear m f) f) r)
      (bit_or-lt 64 (clear (bit_and m r) f) f
        (clear-lt 64 (bit_and m r) f (omega (arith, bit_and-le m r))) hf)
      (omega (arith, bit_and-le (bit_or (clear m f) f) r))
      (λ k hk.
        test_bit-or (clear (bit_and m r) f) f k
        ∙ ap (λ t. t || test_bit f k)
            (test_bit-clear (bit_and m r) f k hf hk
              ∙ ap (λ t. t && not (test_bit f k)) (test_bit-and m r k))
        ∙ pick (test_bit m k) (test_bit f k) (test_bit r k)
            (ap (λ t. test_bit t k) (sym part) ∙ test_bit-and f r k)
        ∙ sym (
            test_bit-and (bit_or (clear m f) f) r k
            ∙ ap (λ t. t && test_bit r k)
                (test_bit-or (clear m f) f k
                  ∙ ap (λ t. t || test_bit f k) (test_bit-clear m f k hf hk))))
  where
    pick : (m f r : Bool) → f ≡ (f && r) → (m && r && not f || f) ≡ ((m && not f || f) && r)
    pick true true true e = refl
    pick true true false e = e
    pick true false true e = refl
    pick true false false e = refl
    pick false true true e = refl
    pick false true false e = e
    pick false false true e = refl
    pick false false false e = refl

pub merge-Within : (mask x y : ℕ) → mask < 2 ^ 64 → Within mask (merge mask x y) x
unfolding Within
merge-Within mask x y hm k hk off =
    test_bit-merge mask x y k hm hk
    ∙ ap (λ t. test_bit x k && not t || test_bit y k && t) off
    ∙ keep (test_bit x k) (test_bit y k)
  where
    keep : (a b : Bool) → (a && true || b && false) ≡ a
    keep true b = refl
    keep false true = refl
    keep false false = refl
