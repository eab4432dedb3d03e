-- ===== src/Base/Words.antt =====
-- Words of 64 bits: the masks of the source, read bit by bit.
use Prim.Native.Nat.{
  ℕ, zero, suc, ◌+◌, ◌-◌, ◌*◌, ◌/◌, ◌%◌, ◌^◌, ◌≤◌, ◌<◌, min, max, digits, bit_and, bit_or,
  bit_and-bitwise, bit_or-bitwise, bit_xor, bit_xor-bitwise, differ,
}
use mathlib.Core.Path.{◌≡◌, refl, ap, sym, subst, ◌∙◌}
use mathlib.Core.Bool.{Bool, true, false, not, ◌&&◌, ◌||◌}
use mathlib.Core.Logic.{◌⊎◌, inl, inr}
use native.Mathlib.Nat.{
  pow-suc, one-le-pow, le_refl, div-div-eq-div-mul, mul-mod_left, mul-div_cancel,
}
use native.Mathlib.Omega.{arith}
use inspectre.Base.Tests.{◌==◌, if◌then◌else◌}
use inspectre.Base.Masks.{bit_and-le, bit_and-mask, digits-le}
use inspectre.Base.Bits.{
  test_bit, test_bit-zero, test_bit-and, test_bit-or, test_bit-above, test_bit-flip, bits_ext,
}

-- `(x & m) != 0`.
unfoldable pub has : ℕ → ℕ → Bool
has x m = not (bit_and x m == 0)

-- `!x`.
abbrev pub complement : ℕ → ℕ
complement x = 2 ^ 64 - 1 - x

-- `x & !m`.
unfoldable pub clear : ℕ → ℕ → ℕ
clear x m = bit_and x (complement m)

-- `(x & !m) | (y & m)`.
unfoldable pub merge : ℕ → ℕ → ℕ → ℕ
merge m x y = bit_or (clear x m) (bit_and y m)

-- `if b { x | m } else { x & !m }`.
unfoldable pub assign : Bool → ℕ → ℕ → ℕ
assign b x m = if b then bit_or x m else clear x m

pub test_bit-clear :
    (x m k : ℕ)
    → m < 2 ^ 64
    → k < 64
    → test_bit (clear x m) k ≡ (test_bit x k && not (test_bit m k))
unfolding clear
test_bit-clear x m k hm hk =
    test_bit-and x (complement m) k ∙ ap (λ t. test_bit x k && t) (test_bit-flip 64 k m hm hk)

pub test_bit-merge :
    (m x y k : ℕ)
    → m < 2 ^ 64
    → k < 64
    → test_bit (merge m x y) k
      ≡ (test_bit x k && not (test_bit m k) || test_bit y k && test_bit m k)
unfolding merge
test_bit-merge m x y k hm hk =
    test_bit-or (clear x m) (bit_and y m) k
    ∙ ap (λ t. t || test_bit (bit_and y m) k) (test_bit-clear x m k hm hk)
    ∙ ap (λ t. test_bit x k && not (test_bit m k) || t) (test_bit-and y m k)

pub test_bit-assign :
    (b : Bool) (x m k : ℕ)
    → m < 2 ^ 64
    → k < 64
    → test_bit (assign b x m) k ≡ (test_bit x k && not (test_bit m k) || b && test_bit m k)
unfolding assign
test_bit-assign true x m k hm hk = test_bit-or x m k ∙ absorb (test_bit x k) (test_bit m k)
  where
    absorb : (a c : Bool) → (a || c) ≡ (a && not c || true && c)
    absorb true true = refl
    absorb true false = refl
    absorb false true = refl
    absorb false false = refl
test_bit-assign false x m k hm hk =
    test_bit-clear x m k hm hk ∙ drop (test_bit x k && not (test_bit m k))
  where
    drop : (a : Bool) → a ≡ (a || false)
    drop true = refl
    drop false = refl

digits_or-lt : (n w a b : ℕ) → a < 2 ^ w → b < 2 ^ w → digits (λ b. b) max n a b < 2 ^ w
digits_or-lt zero w a b p q = q
digits_or-lt (suc n) w zero b p q = q
digits_or-lt (suc n) zero (suc a) b p q = absurd (omega arith)
digits_or-lt (suc n) (suc w) (suc a) b p q = ground (
  arith,
  pow-suc 2 w,
  digits_or-lt n w (suc a / 2) (b / 2) (omega (arith, pow-suc 2 w)) (omega (arith, pow-suc 2 w)),
)

pub bit_or-lt : (w a b : ℕ) → a < 2 ^ w → b < 2 ^ w → bit_or a b < 2 ^ w
bit_or-lt w a b p q = subst (λ t. t < 2 ^ w) (sym (bit_or-bitwise a b)) (digits_or-lt a w a b p q)

digits_xor-lt : (n w a b : ℕ) → a < 2 ^ w → b < 2 ^ w → digits (λ b. b) differ n a b < 2 ^ w
digits_xor-lt zero w a b p q = q
digits_xor-lt (suc n) w zero b p q = q
digits_xor-lt (suc n) zero (suc a) b p q = absurd (omega arith)
digits_xor-lt (suc n) (suc w) (suc a) b p q = ground (
  arith,
  pow-suc 2 w,
  digits_xor-lt n w (suc a / 2) (b / 2) (omega (arith, pow-suc 2 w)) (omega (arith, pow-suc 2 w)),
  differ-le (suc a % 2) (b % 2) (omega arith) (omega arith),
)
  where
    differ-le : (x y : ℕ) → x ≤ 1 → y ≤ 1 → differ x y ≤ 1
    differ-le zero y h k = k
    differ-le (suc x) zero h k = h
    differ-le (suc x) (suc y) h k = differ-le x y (omega arith) (omega arith)

pub bit_xor-lt : (w a b : ℕ) → a < 2 ^ w → b < 2 ^ w → bit_xor a b < 2 ^ w
bit_xor-lt w a b p q =
    subst (λ t. t < 2 ^ w) (sym (bit_xor-bitwise a b)) (digits_xor-lt a w a b p q)

digits_and-le : (n a b : ℕ) → a ≤ n → digits (λ b. 0) min n a b ≤ a
digits_and-le zero a b h = omega arith
digits_and-le (suc n) zero b h = omega arith
digits_and-le (suc n) (suc a) b h =
    ground (arith, digits_and-le n (suc a / 2) (b / 2) (omega arith))

pub bit_and-le_left : (a b : ℕ) → bit_and a b ≤ a
bit_and-le_left a b =
    subst (λ t. t ≤ a) (sym (bit_and-bitwise a b)) (digits_and-le a a b (le_refl a))

pub clear-lt : (w x m : ℕ) → x < 2 ^ w → clear x m < 2 ^ w
unfolding clear
clear-lt w x m h = omega (arith, bit_and-le_left x (complement m))

pub assign-lt : (b : Bool) (w x m : ℕ) → x < 2 ^ w → m < 2 ^ w → assign b x m < 2 ^ w
unfolding assign
assign-lt true w x m h hm = bit_or-lt w x m h hm
assign-lt false w x m h hm = clear-lt w x m h

pub merge-lt : (w m x y : ℕ) → x < 2 ^ w → m < 2 ^ w → merge m x y < 2 ^ w
unfolding merge
merge-lt w m x y h hm =
    bit_or-lt w (clear x m) (bit_and y m) (clear-lt w x m h) (omega (arith, bit_and-le y m))

-- Words that agree in their 64 bits are equal.
pub words_ext :
    (x y : ℕ) → x < 2 ^ 64 → y < 2 ^ 64 → ((k : ℕ) → k < 64 → test_bit x k ≡ test_bit y k) → x ≡ y
words_ext x y p q h = bits_ext x y (λ k. at k (split k))
  where
    split : (k : ℕ) → (k < 64) ⊎ (64 ≤ k)
    split k = ground arith

    at : (k : ℕ) → (k < 64) ⊎ (64 ≤ k) → test_bit x k ≡ test_bit y k
    at k (inl lt) = h k lt
    at k (inr ge) = test_bit-above 64 k x p ge ∙ sym (test_bit-above 64 k y q ge)

-- A power of two has its one bit.
digits-pow :
    (n j a : ℕ) → a ≤ n → digits (λ b. 0) min n a (2 ^ j) ≡ (if test_bit a j then 2 ^ j else 0)
unfolding test_bit
digits-pow zero j zero h = ap (λ t. if t then 2 ^ j else 0) (sym (test_bit-zero j))
digits-pow zero j (suc a) h = absurd (omega arith)
digits-pow (suc n) j zero h = ap (λ t. if t then 2 ^ j else 0) (sym (test_bit-zero j))
digits-pow (suc n) zero (suc a) h = ground (arith, digits-le n (suc a / 2) 0)
digits-pow (suc n) (suc j) (suc a) h =
    ground (arith, pow-suc 2 j, digits-pow n j (suc a / 2) (omega arith))

pub has-bit : (x j : ℕ) → has x (2 ^ j) ≡ test_bit x j
unfolding has
has-bit x j =
    ap (λ t. not (t == 0)) (bit_and-bitwise x (2 ^ j) ∙ digits-pow x j x (le_refl x))
    ∙ test (test_bit x j)
  where
    test : (b : Bool) → not ((if b then 2 ^ j else 0) == 0) ≡ b
    test true = ground (arith, one-le-pow j 2)
    test false = refl

pub clear-word : (x m : ℕ) → clear x m < 2 ^ 64
unfolding clear
clear-word x m = omega (arith, bit_and-le x (complement m))

-- One bit of a word after a field was cleared, assigned or set.
module _ (x m k : ℕ) (hm : m < 2 ^ 64) (hk : k < 64) where
  pub clear_hit : test_bit m k ≡ true → test_bit (clear x m) k ≡ false
  clear_hit on =
      test_bit-clear x m k hm hk ∙ ap (λ t. test_bit x k && not t) on ∙ dark (test_bit x k)
    where
      dark : (a : Bool) → (a && false) ≡ false
      dark true = refl
      dark false = refl

  pub clear_miss : test_bit m k ≡ false → test_bit (clear x m) k ≡ test_bit x k
  clear_miss off =
      test_bit-clear x m k hm hk ∙ ap (λ t. test_bit x k && not t) off ∙ keep (test_bit x k)
    where
      keep : (a : Bool) → (a && true) ≡ a
      keep true = refl
      keep false = refl

  pub assign_hit : (b : Bool) → test_bit m k ≡ true → test_bit (assign b x m) k ≡ b
  assign_hit b on =
      test_bit-assign b x m k hm hk
      ∙ ap (λ t. test_bit x k && not t || b && t) on
      ∙ lit (test_bit x k) b
    where
      lit : (a b : Bool) → (a && false || b && true) ≡ b
      lit true true = refl
      lit true false = refl
      lit false true = refl
      lit false false = refl

  pub assign_miss : (b : Bool) → test_bit m k ≡ false → test_bit (assign b x m) k ≡ test_bit x k
  assign_miss b off =
      test_bit-assign b x m k hm hk
      ∙ ap (λ t. test_bit x k && not t || b && t) off
      ∙ keep (test_bit x k) b
    where
      keep : (a b : Bool) → (a && true || b && false) ≡ a
      keep true b = refl
      keep false true = refl
      keep false false = refl

pub bit_or_hit : (x m k : ℕ) → test_bit m k ≡ true → test_bit (bit_or x m) k ≡ true
bit_or_hit x m k on = test_bit-or x m k ∙ ap (λ t. test_bit x k || t) on ∙ lit (test_bit x k)
  where
    lit : (a : Bool) → (a || true) ≡ true
    lit true = refl
    lit false = refl

pub bit_or_miss : (x m k : ℕ) → test_bit m k ≡ false → test_bit (bit_or x m) k ≡ test_bit x k
bit_or_miss x m k off = test_bit-or x m k ∙ ap (λ t. test_bit x k || t) off ∙ keep (test_bit x k)
  where
    keep : (a : Bool) → (a || false) ≡ a
    keep true = refl
    keep false = refl

-- A shift moves the bits.
pub test_bit-shift : (j k x : ℕ) → test_bit (x / 2 ^ j) k ≡ test_bit x (k + j)
unfolding test_bit
test_bit-shift zero k x = ap (λ t. test_bit t k) whole ∙ ap (λ t. test_bit x t) same
  where
    same : k ≡ k + 0
    same = omega arith

    whole : x / 2 ^ 0 ≡ x
    whole = omega arith
test_bit-shift (suc j) k x =
    ap (λ t. test_bit t k) (ap (λ t. x / t) double ∙ sym (div-div-eq-div-mul x 2 (2 ^ j)))
    ∙ test_bit-shift j k (x / 2)
    ∙ ap (λ t. test_bit x t) next
  where
    double : 2 ^ suc j ≡ 2 * 2 ^ j
    double = omega (arith, pow-suc 2 j)

    next : suc (k + j) ≡ k + suc j
    next = omega arith

-- A field of two bits.
pub two_bits :
    (x : ℕ) → bit_and x 3 ≡ (if test_bit x 1 then 2 else 0) + (if test_bit x 0 then 1 else 0)
unfolding test_bit
two_bits x = bit_and-mask 2 x ∙ ground arith

-- The bits of a remainder, and of a multiple.
pub test_bit-mask : (j k : ℕ) → k < j → test_bit (2 ^ j - 1) k ≡ true
test_bit-mask j k h =
    ap (λ t. test_bit t k) whole
    ∙ test_bit-flip j k 0 (omega (arith, one-le-pow j 2)) h
    ∙ ap not (test_bit-zero k)
  where
    whole : 2 ^ j - 1 ≡ 2 ^ j - 1 - 0
    whole = omega arith

pub test_bit-rem : (j k x : ℕ) → k < j → test_bit (x % 2 ^ j) k ≡ test_bit x k
test_bit-rem j k x h =
    ap (λ t. test_bit t k) (sym (bit_and-mask j x))
    ∙ test_bit-and x (2 ^ j - 1) k
    ∙ ap (λ t. test_bit x k && t) (test_bit-mask j k h)
    ∙ keep (test_bit x k)
  where
    keep : (a : Bool) → (a && true) ≡ a
    keep true = refl
    keep false = refl

pub test_bit-multiple : (j k x : ℕ) → k < j → test_bit (x * 2 ^ j) k ≡ false
test_bit-multiple j k x h =
    sym (test_bit-rem j k (x * 2 ^ j) h) ∙ ap (λ t. test_bit t k) whole ∙ test_bit-zero k
  where
    whole : x * 2 ^ j % 2 ^ j ≡ 0
    whole = mul-mod_left x (2 ^ j)

pub test_bit-scaled : (j i x : ℕ) → test_bit (x * 2 ^ j) (i + j) ≡ test_bit x i
test_bit-scaled j i x =
    sym (test_bit-shift j i (x * 2 ^ j))
    ∙ ap (λ t. test_bit t i) (mul-div_cancel x (one-le-pow j 2 (omega arith)))

-- Rounding down to a multiple keeps the bits from the rounding on.
pub test_bit-page : (j i x : ℕ) → test_bit (x / 2 ^ j * 2 ^ j) (i + j) ≡ test_bit x (i + j)
test_bit-page j i x = test_bit-scaled j i (x / 2 ^ j) ∙ test_bit-shift j i x
