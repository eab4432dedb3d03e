-- ===== src/Base/Masks.antt =====
-- A mask of low bits as a remainder, and the remainder by a product, digit by digit.
use Prim.Native.Nat.{
  ℕ, zero, suc, ◌+◌, ◌-◌, ◌*◌, ◌/◌, ◌%◌, ◌^◌, ◌≤◌, ◌<◌, min, digits, bit_and, bit_and-bitwise,
}
use mathlib.Core.Path.{◌≡◌, ap, sym, subst, ◌∙◌}
use native.Mathlib.Nat.{
  pow-suc, one-le-pow, mod-eq_of_lt, mod-lt, add-mul-mod_self_left, div-add-mod, le_refl,
}
use native.Mathlib.Omega.{arith}

-- The lowest two-valued digit first.
pub mod-two_mul : (x p : ℕ) → 0 < p → x % (2 * p) ≡ x % 2 + 2 * (x / 2 % p)
mod-two_mul x p h =
    ap (λ t. t % (2 * p)) split
    ∙ add-mul-mod_self_left (x % 2 + 2 * (x / 2 % p)) (2 * p) (x / 2 / p)
    ∙ mod-eq_of_lt (omega (arith, mod-lt (x / 2) h))
  where
    split : x ≡ x % 2 + 2 * (x / 2 % p) + 2 * p * (x / 2 / p)
    split = omega (arith, div-add-mod (x / 2) p)

-- The lowest byte first.
pub mod-byte_mul : (x p : ℕ) → 0 < p → x % (256 * p) ≡ x % 256 + 256 * (x / 256 % p)
mod-byte_mul x p h =
    ap (λ t. t % (256 * p)) split
    ∙ add-mul-mod_self_left (x % 256 + 256 * (x / 256 % p)) (256 * p) (x / 256 / p)
    ∙ mod-eq_of_lt (omega (arith, mod-lt (x / 256) h))
  where
    split : x ≡ x % 256 + 256 * (x / 256 % p) + 256 * p * (x / 256 / p)
    split = omega (arith, div-add-mod (x / 256) p)

-- With any count of digits that is enough.
digits-low : (k n a : ℕ) → a ≤ n → digits (λ b. 0) min n a (2 ^ k - 1) ≡ a % 2 ^ k
digits-low k zero zero h = omega arith
digits-low k zero (suc a) h = absurd (omega arith)
digits-low k (suc n) zero h = omega arith
digits-low zero (suc n) (suc a) h = ground (arith, digits-low 0 n (suc a / 2) (omega arith))
digits-low (suc k) (suc n) (suc a) h = ground (
  arith,
  digits-low k n (suc a / 2) (omega arith),
  pow-suc 2 k,
  one-le-pow k 2,
  mod-two_mul (suc a) (2 ^ k),
)

-- A mask of `k` low bits is the remainder by `2 ^ k`.
pub bit_and-mask : (k a : ℕ) → bit_and a (2 ^ k - 1) ≡ a % 2 ^ k
bit_and-mask k a = bit_and-bitwise a (2 ^ k - 1) ∙ digits-low k a a (le_refl a)

pub digits-le : (n a b : ℕ) → digits (λ b. 0) min n a b ≤ b
digits-le zero a b = omega arith
digits-le (suc n) zero b = omega arith
digits-le (suc n) (suc a) b = ground (arith, digits-le n (suc a / 2) (b / 2))

-- A masked number is at most the mask.
pub bit_and-le : (a b : ℕ) → bit_and a b ≤ b
bit_and-le a b = subst (λ t. t ≤ b) (sym (bit_and-bitwise a b)) (digits-le a a b)
