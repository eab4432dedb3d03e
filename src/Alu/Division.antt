-- ===== src/Alu/Division.antt =====
-- core/units/alu/arithmetic.rs: quotient and remainder, and the two halves of a product, belong
-- together.
use inspectre.Base.{
  ◌==◌, if◌then◌else◌, ==_iff, ==_ne, leb→le, zero-cases, if_true, if_false, ℕ, ◌+◌, ◌-◌, ◌*◌, ◌/◌,
  ◌%◌, ◌^◌, ◌≤◌, ◌<◌, ◌≡◌, refl, sym, ap, subst, ◌∙◌, ◌⊎◌, inl, inr, Bool, true, false, arith,
}
use native.Mathlib.Nat.{div-le_self, div-add-mod, mod-lt, add-mul, mul-add}
use inspectre.Alu
use inspectre.Alu.Arithmetic.{execute, execute64}
use inspectre.Signals.{AluOp}
use inspectre.Alu.Signed.{
  negate, magnitude, is_negative, wrapping_div, wrapping_rem, with_sign, differ,
}

-- What is left of a sum of whole words.
rest : (k x t : ℕ) → x < 2 ^ 64 → t ≡ 2 ^ 64 * k + x → t % 2 ^ 64 ≡ x
rest k x t h e = omega arith

negated : (z : ℕ) → z < 2 ^ 64 → ((z ≡ 0) × (negate 64 z ≡ 0)) ⊎ (negate 64 z + z ≡ 2 ^ 64)
unfolding negate
negated z h = elim (zero-cases z) [ inl e ↦ inl (e, rw e refl) | inr (k, e) ↦ inr (omega arith) ]

-- The identity for each pair of signs: `m` is the magnitude of the divisor and `q * m + r` that of
-- the dividend `x`; `u`, `v` and `s` are the negatives of `q`, `m` and `r`.
module _ (q r m x u : ℕ) (hx : x < 2 ^ 64) where
  negative_quotient : u + q ≡ 2 ^ 64 → 2 ^ 64 * m ≡ u * m + q * m
  negative_quotient e = ap (λ t. t * m) (sym e) ∙ add-mul u q m

  below_negative :
      (v : ℕ) → x ≡ q * m + r → u + q ≡ 2 ^ 64 → v + m ≡ 2 ^ 64 → q ≤ v → (u * v + r) % 2 ^ 64 ≡ x
  below_negative v e hu hv hq =
      let p : 2 ^ 64 * v ≡ u * v + q * v = ap (λ t. t * v) (sym hu) ∙ add-mul u q v in
      let n : q * 2 ^ 64 ≡ q * v + q * m = ap (λ t. q * t) (sym hv) ∙ mul-add q v m in
      rest (v - q) x (u * v + r) hx (omega arith)

  above_positive :
      (s : ℕ)
      → x + (q * m + r) ≡ 2 ^ 64
      → 0 < m
      → u + q ≡ 2 ^ 64
      → ((r ≡ 0) × (s ≡ 0)) ⊎ (s + r ≡ 2 ^ 64)
      → (u * m + s) % 2 ^ 64 ≡ x
  above_positive s e hm hu (inl (z, w)) =
      let p = negative_quotient hu in rest (m - 1) x (u * m + s) hx (omega arith)
  above_positive s e hm hu (inr w) =
      let p = negative_quotient hu in rest m x (u * m + s) hx (omega arith)

  above_negative :
      (v s : ℕ)
      → x + (q * m + r) ≡ 2 ^ 64
      → 0 < q
      → v + m ≡ 2 ^ 64
      → ((r ≡ 0) × (s ≡ 0)) ⊎ (s + r ≡ 2 ^ 64)
      → (q * v + s) % 2 ^ 64 ≡ x
  above_negative v s e hq hv (inl (z, w)) =
      let n : q * 2 ^ 64 ≡ q * v + q * m = ap (λ t. q * t) (sym hv) ∙ mul-add q v m in
      rest (q - 1) x (q * v + s) hx (omega arith)
  above_negative v s e hq hv (inr w) =
      let n : q * 2 ^ 64 ≡ q * v + q * m = ap (λ t. q * t) (sym hv) ∙ mul-add q v m in
      rest q x (q * v + s) hx (omega arith)

abbrev size_of : Bool → ℕ → ℕ
size_of true x = 2 ^ 64 - x
size_of false x = x

sized : (x : ℕ) (s : Bool) → is_negative 64 x ≡ s → magnitude 64 x ≡ size_of s x
unfolding magnitude
sized x true e = if_true (is_negative 64 x) (2 ^ 64 - x) x e
sized x false e = if_false (is_negative 64 x) (2 ^ 64 - x) x e

-- The signed operations, once the signs are known.
signed_div :
    (a b : ℕ) (s t : Bool)
    → is_negative 64 a ≡ s
    → is_negative 64 b ≡ t
    → wrapping_div 64 a b ≡ with_sign 64 (differ s t) (size_of s a / size_of t b)
unfolding wrapping_div
signed_div a b s t ea eb =
    ap (λ c. with_sign 64 (differ c (is_negative 64 b)) (magnitude 64 a / magnitude 64 b)) ea
    ∙ ap (λ c. with_sign 64 (differ s c) (magnitude 64 a / magnitude 64 b)) eb
    ∙ ap (λ x. with_sign 64 (differ s t) (x / magnitude 64 b)) (sized a s ea)
    ∙ ap (λ x. with_sign 64 (differ s t) (size_of s a / x)) (sized b t eb)

signed_rem :
    (a b : ℕ) (s t : Bool)
    → is_negative 64 a ≡ s
    → is_negative 64 b ≡ t
    → wrapping_rem 64 a b ≡ with_sign 64 s (size_of s a % size_of t b)
unfolding wrapping_rem
signed_rem a b s t ea eb =
    ap (λ c. with_sign 64 c (magnitude 64 a % magnitude 64 b)) ea
    ∙ ap (λ x. with_sign 64 s (x % magnitude 64 b)) (sized a s ea)
    ∙ ap (λ x. with_sign 64 s (size_of s a % x)) (sized b t eb)

-- A dividend below the divisor is the remainder.
without : (q m r a : ℕ) → q ≡ 0 → m * q + r ≡ a → a < 2 ^ 64 → (b : ℕ) → (0 * b + r) % 2 ^ 64 ≡ a
without q m r a z e ha b = let f : m * 0 + r ≡ a = ap (λ t. m * t + r) (sym z) ∙ e in omega arith

alone :
    (q m r a : ℕ)
    → q ≡ 0
    → m * q + r ≡ 2 ^ 64 - a
    → a < 2 ^ 64
    → is_negative 64 a ≡ true
    → (b : ℕ) → (0 * b + negate 64 r) % 2 ^ 64 ≡ a
unfolding negate
alone q m r a z e ha neg b =
    let f : m * 0 + r ≡ 2 ^ 64 - a = ap (λ t. m * t + r) (sym z) ∙ e in
    omega (arith, leb→le (2 ^ 63) a neg)

below : (a : ℕ) → is_negative 64 a ≡ false → a < 2 ^ 63
below a e = ground arith

-- The identity, once the signs are known.
identity :
    (a b : ℕ) (s t : Bool)
    → is_negative 64 a ≡ s
    → is_negative 64 b ≡ t
    → a < 2 ^ 64
    → b < 2 ^ 64
    → 0 < b
    → (with_sign 64 (differ s t) (size_of s a / size_of t b) * b
          + with_sign 64 s (size_of s a % size_of t b))
        % 2 ^ 64
      ≡ a
identity a b false false ea eb ha hb pos = omega (arith, div-add-mod a b)
identity a b false true ea eb ha hb pos =
    let m = 2 ^ 64 - b in
    let q = a / m in
    let r = a % m in
    elim (negated q (omega (arith, div-le_self a m))) [
      | inl (z, w) ↦ ap (λ t. (t * b + r) % 2 ^ 64) w ∙ without q m r a z (div-add-mod a m) ha b
      | inr w ↦
          below_negative q r m a (negate 64 q) ha b (omega (arith, div-add-mod a m)) w (omega arith)
            (omega (arith, div-le_self a m, leb→le (2 ^ 63) b eb, below a ea))
    ]
identity a b true false ea eb ha hb pos =
    let q = (2 ^ 64 - a) / b in
    let r = (2 ^ 64 - a) % b in
    elim (negated q (omega (arith, div-le_self (2 ^ 64 - a) b, leb→le (2 ^ 63) a ea))) [
      | inl (z, w) ↦
          ap (λ t. (t * b + negate 64 r) % 2 ^ 64) w
          ∙ alone q b r a z (div-add-mod (2 ^ 64 - a) b) ha ea b
      | inr w ↦
          above_positive q r b a (negate 64 q) ha (negate 64 r)
            (omega (arith, div-add-mod (2 ^ 64 - a) b)) pos w
            (negated r (omega (arith, mod-lt (2 ^ 64 - a) pos)))
    ]
identity a b true true ea eb ha hb pos =
    let m = 2 ^ 64 - b in
    let q = (2 ^ 64 - a) / m in
    let r = (2 ^ 64 - a) % m in
    let some : 0 < m = omega arith in
    elim (zero-cases q) [
      | inl z ↦
          ap (λ t. (t * b + negate 64 r) % 2 ^ 64) z
          ∙ alone q m r a z (div-add-mod (2 ^ 64 - a) m) ha ea b
      | inr (k, z) ↦
          above_negative q r m a (negate 64 q) ha b (negate 64 r)
            (omega (arith, div-add-mod (2 ^ 64 - a) m)) (omega arith) (omega arith)
            (negated r (omega (arith, mod-lt (2 ^ 64 - a) some)))
    ]

-- A sum of two choices by one test.
chosen :
    (t : Bool) (u v x y b : ℕ)
    → ((if t then u else v) * b + (if t then x else y)) % 2 ^ 64
      ≡ (if t then (u * b + x) % 2 ^ 64 else (v * b + y) % 2 ^ 64)
chosen true u v x y b = refl
chosen false u v x y b = refl

-- For any 64-bit operands, a divisor of zero and the overflow of the least number by -1 included, the
-- signed quotient times the divisor, plus the signed remainder, is the dividend, with wrap-around.
pub div-rem :
    (a b : ℕ)
    → a < 2 ^ 64
    → b < 2 ^ 64
    → (Alu.execute AluOp.div a b false * b + Alu.execute AluOp.rem a b false) % 2 ^ 64 ≡ a
unfolding Alu.execute execute execute64
div-rem a b ha hb =
    let d = wrapping_div 64 a b in
    let m = wrapping_rem 64 a b in
    chosen (b == 0) (2 ^ 64 - 1) d a m b ∙ elim (zero-cases b) [
      | inl z ↦ if_true (b == 0) _ _ ((==_iff b 0).1 z) ∙ by_zero z
      | inr (k, z) ↦
          if_false (b == 0) _ _ (==_ne b 0 (λ e. absurd (omega arith)))
          ∙ ap (λ t. (t * b + m) % 2 ^ 64)
              (signed_div a b (is_negative 64 a) (is_negative 64 b) refl refl)
          ∙ ap
              (λ t.
                (with_sign 64 (differ (is_negative 64 a) (is_negative 64 b))
                      (size_of (is_negative 64 a) a / size_of (is_negative 64 b) b)
                    * b
                  + t)
                % 2 ^ 64)
              (signed_rem a b (is_negative 64 a) (is_negative 64 b) refl refl)
          ∙ identity a b (is_negative 64 a) (is_negative 64 b) refl refl ha hb (omega arith)
    ]
  where
    by_zero : b ≡ 0 → ((2 ^ 64 - 1) * b + a) % 2 ^ 64 ≡ a
    by_zero z = omega arith

-- For any 64-bit operands the unsigned quotient times the divisor, plus the unsigned remainder, is
-- the dividend, a divisor of zero included, and the remainder is below a divisor that is not zero;
-- and the high half of an unsigned product with the low half is the whole product.
pub divu-remu :
    (a b : ℕ)
    → a < 2 ^ 64
    → b < 2 ^ 64
    → ((Alu.execute AluOp.divu a b false * b + Alu.execute AluOp.remu a b false) % 2 ^ 64 ≡ a)
      × (0 < b → Alu.execute AluOp.remu a b false < b)
      × (Alu.execute AluOp.mulhu a b false * 2 ^ 64 + Alu.execute AluOp.mul a b false ≡ a * b)
unfolding Alu.execute execute execute64
divu-remu a b ha hb = (
  chosen (b == 0) (2 ^ 64 - 1) (a / b) a (a % b) b ∙ elim (zero-cases b) [
    | inl z ↦ if_true (b == 0) _ _ ((==_iff b 0).1 z) ∙ by_zero z
    | inr (k, z) ↦
        if_false (b == 0) _ _ (==_ne b 0 (λ e. absurd (omega arith)))
        ∙ omega (arith, div-add-mod a b)
  ],
  λ pos.
      subst (λ t. t < b) (sym (if_false (b == 0) a (a % b) (==_ne b 0 (λ e. absurd (omega arith)))))
        (mod-lt a pos),
  omega arith,
)
  where
    by_zero : b ≡ 0 → ((2 ^ 64 - 1) * b + a) % 2 ^ 64 ≡ a
    by_zero z = omega arith
