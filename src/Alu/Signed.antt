-- ===== src/Alu/Signed.antt =====
-- The casts and the signed operations of the integers of `w` bits, on their two's complements.
use inspectre.Base.{
  ltb, leb, if◌then◌else◌, ℕ, ◌+◌, ◌-◌, ◌*◌, ◌/◌, ◌%◌, ◌^◌, Bool, true, false, not,
}

abbrev pub truncate : ℕ → ℕ → ℕ
truncate w x = x % 2 ^ w

abbrev pub is_negative : ℕ → ℕ → Bool
is_negative w x = leb (2 ^ (w - 1)) x

-- `as i64 as u64` of an i32.
unfoldable pub sign_extend : ℕ → ℕ
sign_extend x = if is_negative 32 x then x + (2 ^ 64 - 2 ^ 32) else x

unfoldable pub negate : ℕ → ℕ → ℕ
negate w x = (2 ^ w - x) % 2 ^ w

unfoldable pub magnitude : ℕ → ℕ → ℕ
magnitude w x = if is_negative w x then 2 ^ w - x else x

abbrev pub with_sign : ℕ → Bool → ℕ → ℕ
with_sign w minus x = if minus then negate w x else x

abbrev pub differ : Bool → Bool → Bool
differ true b = not b
differ false b = b

-- Division rounds to zero, and the remainder has the sign of the dividend. The quotient of the least
-- number by -1 wraps to itself.
unfoldable pub wrapping_div : ℕ → ℕ → ℕ → ℕ
wrapping_div w x y =
    with_sign w (differ (is_negative w x) (is_negative w y)) (magnitude w x / magnitude w y)

unfoldable pub wrapping_rem : ℕ → ℕ → ℕ → ℕ
wrapping_rem w x y = with_sign w (is_negative w x) (magnitude w x % magnitude w y)

-- The product of two signed integers of `w` bits, in 2 * w bits.
unfoldable pub product : ℕ → ℕ → ℕ → ℕ
product w x y =
    with_sign (2 * w) (differ (is_negative w x) (is_negative w y)) (magnitude w x * magnitude w y)

-- The product of a signed by an unsigned integer of `w` bits, in 2 * w bits.
unfoldable pub product_su : ℕ → ℕ → ℕ → ℕ
product_su w x y = with_sign (2 * w) (is_negative w x) (magnitude w x * y)

unfoldable pub less : ℕ → ℕ → ℕ → Bool
less w x y = if differ (is_negative w x) (is_negative w y) then is_negative w x else ltb x y

-- A shift to the right by `k < w` that copies the sign.
unfoldable pub shift_right : ℕ → ℕ → ℕ → ℕ
shift_right w x k = if is_negative w x then x / 2 ^ k + (2 ^ w - 2 ^ (w - k)) else x / 2 ^ k
