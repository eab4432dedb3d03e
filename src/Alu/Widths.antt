-- ===== src/Alu/Widths.antt =====
-- core/units/alu/: results are words, and the 32-bit forms are the sign-extended low halves.
use native.Mathlib.Nat.{add-mul, mul-add, mul_assoc, mul_comm}
use inspectre.Base.{ℕ, ◌+◌, ◌*◌, ◌/◌, ◌%◌, ◌^◌, ◌<◌, ◌≡◌, sym, ap, ◌∙◌, true, false, arith}
use inspectre.Alu
use inspectre.Alu.Arithmetic
use inspectre.Alu.Arithmetic.{execute32, execute64}
use inspectre.Alu.Signed.{sign_extend}
use inspectre.Signals.{AluOp}

-- A product of remainders.
low_product : (a b : ℕ) → a % 2 ^ 32 * (b % 2 ^ 32) % 2 ^ 32 ≡ a * b % 2 ^ 32
low_product a b =
    let e : a * b ≡ a % 2 ^ 32 * b + 2 ^ 32 * (a / 2 ^ 32 * b) =
      ap (λ t. t * b) (split a)
      ∙ add-mul (a % 2 ^ 32) (2 ^ 32 * (a / 2 ^ 32)) b
      ∙ ap (λ t. a % 2 ^ 32 * b + t) (mul_assoc (2 ^ 32) (a / 2 ^ 32) b) in
    let f : a % 2 ^ 32 * b ≡ a % 2 ^ 32 * (b % 2 ^ 32) + a % 2 ^ 32 * (2 ^ 32 * (b / 2 ^ 32)) =
      ap (λ t. a % 2 ^ 32 * t) (split b)
      ∙ mul-add (a % 2 ^ 32) (b % 2 ^ 32) (2 ^ 32 * (b / 2 ^ 32)) in
    finish (a * b) (a % 2 ^ 32 * b) (a % 2 ^ 32 * (b % 2 ^ 32)) (a / 2 ^ 32 * b)
      (a % 2 ^ 32 * (b / 2 ^ 32)) e
      (f ∙ ap (λ t. a % 2 ^ 32 * (b % 2 ^ 32) + t) (swap (a % 2 ^ 32) (b / 2 ^ 32)))
  where
    split : (x : ℕ) → x ≡ x % 2 ^ 32 + 2 ^ 32 * (x / 2 ^ 32)
    split x = omega arith

    swap : (x y : ℕ) → x * (2 ^ 32 * y) ≡ 2 ^ 32 * (x * y)
    swap x y =
        sym (mul_assoc x (2 ^ 32) y)
        ∙ ap (λ t. t * y) (mul_comm x (2 ^ 32))
        ∙ mul_assoc (2 ^ 32) x y

    finish : (p q r k l : ℕ) → p ≡ q + 2 ^ 32 * k → q ≡ r + 2 ^ 32 * l → r % 2 ^ 32 ≡ p % 2 ^ 32
    finish p q r k l e f = omega arith

-- For 64-bit operands, the 32-bit sum, difference and product are the low 32 bits of the 64-bit ones,
-- sign-extended; and a difference undoes a sum.
pub execute-low :
    (a b : ℕ)
    → a < 2 ^ 64
    → b < 2 ^ 64
    → (Alu.execute AluOp.add a b true ≡ sign_extend (Alu.execute AluOp.add a b false % 2 ^ 32))
      × (Alu.execute AluOp.sub a b true ≡ sign_extend (Alu.execute AluOp.sub a b false % 2 ^ 32))
      × (Alu.execute AluOp.mul a b true ≡ sign_extend (Alu.execute AluOp.mul a b false % 2 ^ 32))
      × (Alu.execute AluOp.sub (Alu.execute AluOp.add a b false) b false ≡ a)
unfolding Alu.execute Arithmetic.execute execute32 execute64
execute-low a b ha hb = (
  ap sign_extend (omega arith),
  ap sign_extend (omega arith),
  ap sign_extend (low_product a b ∙ low (a * b)),
  omega arith,
)
  where
    low : (x : ℕ) → x % 2 ^ 32 ≡ x % 2 ^ 64 % 2 ^ 32
    low x = omega arith
