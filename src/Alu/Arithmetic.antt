-- ===== src/Alu/Arithmetic.antt =====
-- core/units/alu/arithmetic.rs: sums, products and quotients, of 64 bits and of the low 32.
use inspectre.Base.{◌==◌, if◌then◌else◌, ℕ, ◌+◌, ◌-◌, ◌*◌, ◌/◌, ◌%◌, ◌^◌, Bool}
use inspectre.Alu.Signed.{truncate, sign_extend, wrapping_div, wrapping_rem, product, product_su}
use inspectre.Signals.{AluOp}

-- The operation on the low 32 bits `x` and `y` of its operands.
unfoldable pub execute32 : AluOp → ℕ → ℕ → ℕ
execute32 op x y = elim op [
  | AluOp.add ↦ sign_extend ((x + y) % 2 ^ 32)
  | AluOp.sub ↦ sign_extend ((x + (2 ^ 32 - y)) % 2 ^ 32)
  | AluOp.mul ↦ sign_extend (x * y % 2 ^ 32)
  | AluOp.mulh ↦ sign_extend (product 32 x y / 2 ^ 32)
  | AluOp.mulhsu ↦ sign_extend (product_su 32 x y / 2 ^ 32)
  | AluOp.mulhu ↦ x * y / 2 ^ 32
  | AluOp.div ↦ if y == 0 then 2 ^ 64 - 1 else sign_extend (wrapping_div 32 x y)
  | AluOp.divu ↦ if y == 0 then 2 ^ 64 - 1 else sign_extend (x / y)
  | AluOp.rem ↦ if y == 0 then sign_extend x else sign_extend (wrapping_rem 32 x y)
  | AluOp.remu ↦ if y == 0 then sign_extend x else sign_extend (x % y)
  | _ ↦ 0
]

unfoldable pub execute64 : AluOp → ℕ → ℕ → ℕ
execute64 op a b = elim op [
  | AluOp.add ↦ (a + b) % 2 ^ 64
  | AluOp.sub ↦ (a + (2 ^ 64 - b)) % 2 ^ 64
  | AluOp.mul ↦ a * b % 2 ^ 64
  | AluOp.mulh ↦ product 64 a b / 2 ^ 64
  | AluOp.mulhsu ↦ product_su 64 a b / 2 ^ 64
  | AluOp.mulhu ↦ a * b / 2 ^ 64
  | AluOp.div ↦ if b == 0 then 2 ^ 64 - 1 else wrapping_div 64 a b
  | AluOp.divu ↦ if b == 0 then 2 ^ 64 - 1 else a / b
  | AluOp.rem ↦ if b == 0 then a else wrapping_rem 64 a b
  | AluOp.remu ↦ if b == 0 then a else a % b
  | _ ↦ 0
]

unfoldable pub execute : AluOp → ℕ → ℕ → Bool → ℕ
execute op a b is32 =
    if is32 then execute32 op (truncate 32 a) (truncate 32 b) else execute64 op a b
