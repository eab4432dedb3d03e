-- ===== src/Base/Bits.antt =====
-- Words as their bits: one test of a bit for each operation on words, and words that agree in all
-- bits are equal. A u64 is a number below 2 ^ 64.
use Prim.Native.Nat.{
  ℕ, zero, suc, ◌+◌, ◌-◌, ◌*◌, ◌/◌, ◌%◌, ◌^◌, ◌≤◌, ◌<◌, min, max, digits, bit_and, bit_or,
  bit_and-bitwise, bit_or-bitwise,
}
use mathlib.Core.Path.{◌≡◌, refl, ap, sym, ◌∙◌}
use mathlib.Core.Bool.{Bool, false, not, ◌&&◌, ◌||◌}
use native.Mathlib.Nat.{pow-suc, le_refl}
use native.Mathlib.Omega.{arith}
use inspectre.Base.Tests.{◌==◌}

unfoldable pub test_bit : ℕ → ℕ → Bool
test_bit x zero = x % 2 == 1
test_bit x (suc k) = test_bit (x / 2) k

pub test_bit-zero : (k : ℕ) → test_bit 0 k ≡ false
unfolding test_bit
test_bit-zero zero = refl
test_bit-zero (suc k) = test_bit-zero k

-- The digit recursions, read at a bit.
test_bit-digits_and :
    (n k a b : ℕ) → a ≤ n → test_bit (digits (λ b. 0) min n a b) k ≡ (test_bit a k && test_bit b k)
unfolding test_bit
test_bit-digits_and zero k zero b h =
    test_bit-zero k ∙ ap (λ t. t && test_bit b k) (sym (test_bit-zero k))
test_bit-digits_and zero k (suc a) b h = absurd (omega arith)
test_bit-digits_and (suc n) k zero b h =
    test_bit-zero k ∙ ap (λ t. t && test_bit b k) (sym (test_bit-zero k))
test_bit-digits_and (suc n) zero (suc a) b h = ground arith
test_bit-digits_and (suc n) (suc k) (suc a) b h =
    ap (λ t. test_bit t k) (half (digits (λ b. 0) min n (suc a / 2) (b / 2)))
    ∙ test_bit-digits_and n k (suc a / 2) (b / 2) (omega arith)
  where
    half : (x : ℕ) → (x * 2 + min (suc a % 2) (b % 2)) / 2 ≡ x
    half x = ground arith

test_bit-digits_or :
    (n k a b : ℕ) → a ≤ n → test_bit (digits (λ b. b) max n a b) k ≡ (test_bit a k || test_bit b k)
unfolding test_bit
test_bit-digits_or zero k zero b h = ap (λ t. t || test_bit b k) (sym (test_bit-zero k))
test_bit-digits_or zero k (suc a) b h = absurd (omega arith)
test_bit-digits_or (suc n) k zero b h = ap (λ t. t || test_bit b k) (sym (test_bit-zero k))
test_bit-digits_or (suc n) zero (suc a) b h = ground arith
test_bit-digits_or (suc n) (suc k) (suc a) b h =
    ap (λ t. test_bit t k) (half (digits (λ b. b) max n (suc a / 2) (b / 2)))
    ∙ test_bit-digits_or n k (suc a / 2) (b / 2) (omega arith)
  where
    half : (x : ℕ) → (x * 2 + max (suc a % 2) (b % 2)) / 2 ≡ x
    half x = ground arith

pub test_bit-and : (a b k : ℕ) → test_bit (bit_and a b) k ≡ (test_bit a k && test_bit b k)
test_bit-and a b k =
    ap (λ t. test_bit t k) (bit_and-bitwise a b) ∙ test_bit-digits_and a k a b (le_refl a)

pub test_bit-or : (a b k : ℕ) → test_bit (bit_or a b) k ≡ (test_bit a k || test_bit b k)
test_bit-or a b k =
    ap (λ t. test_bit t k) (bit_or-bitwise a b) ∙ test_bit-digits_or a k a b (le_refl a)

-- Above its width a number has no bits.
pub test_bit-above : (n k x : ℕ) → x < 2 ^ n → n ≤ k → test_bit x k ≡ false
unfolding test_bit
test_bit-above zero k x h p = ap (λ t. test_bit t k) (omega arith) ∙ test_bit-zero k
test_bit-above (suc n) zero x h p = absurd (omega arith)
test_bit-above (suc n) (suc k) x h p =
    test_bit-above n k (x / 2) (omega (arith, pow-suc 2 n)) (omega arith)

-- The complement within `n` bits flips each.
pub test_bit-flip :
    (n k x : ℕ) → x < 2 ^ n → k < n → test_bit (2 ^ n - 1 - x) k ≡ not (test_bit x k)
unfolding test_bit
test_bit-flip zero k x h p = absurd (omega arith)
test_bit-flip (suc n) zero x h p = ground (arith, pow-suc 2 n)
test_bit-flip (suc n) (suc k) x h p =
    ap (λ t. test_bit t k) half
    ∙ test_bit-flip n k (x / 2) (omega (arith, pow-suc 2 n)) (omega arith)
  where
    half : (2 ^ suc n - 1 - x) / 2 ≡ 2 ^ n - 1 - x / 2
    half = omega (arith, pow-suc 2 n)

-- Numbers with the same bits are equal.
ext_below : (n x y : ℕ) → x ≤ n → y ≤ n → ((k : ℕ) → test_bit x k ≡ test_bit y k) → x ≡ y
unfolding test_bit
ext_below zero x y p q h = omega arith
ext_below (suc n) x y p q h =
    ground (arith, h 0, ext_below n (x / 2) (y / 2) (omega arith) (omega arith) (λ k. h (suc k)))

pub bits_ext : (x y : ℕ) → ((k : ℕ) → test_bit x k ≡ test_bit y k) → x ≡ y
bits_ext x y h = ext_below (x + y) x y (omega arith) (omega arith) h
