-- ===== src/Alu.antt =====
-- core/units/alu/mod.rs: the integer unit, whose operations are in its children. A word is a number
-- below 2 ^ 64, and a signed integer of w bits stands by its two's complement below 2 ^ w.
pub mod Signed
pub mod Arithmetic
pub mod Logic
pub mod Shifts
pub mod Division
pub mod Widths
mod Tests
use inspectre.Base.{ℕ, Bool}
use inspectre.Alu.Arithmetic
use inspectre.Alu.Logic
use inspectre.Alu.Shifts
use inspectre.Signals.{AluOp}

-- `Alu::execute`; the third operand of the source is not used.
unfoldable pub execute : AluOp → ℕ → ℕ → Bool → ℕ
execute op a b is32 = elim op [
  | AluOp.add ↦ Arithmetic.execute AluOp.add a b is32
  | AluOp.sub ↦ Arithmetic.execute AluOp.sub a b is32
  | AluOp.mul ↦ Arithmetic.execute AluOp.mul a b is32
  | AluOp.mulh ↦ Arithmetic.execute AluOp.mulh a b is32
  | AluOp.mulhsu ↦ Arithmetic.execute AluOp.mulhsu a b is32
  | AluOp.mulhu ↦ Arithmetic.execute AluOp.mulhu a b is32
  | AluOp.div ↦ Arithmetic.execute AluOp.div a b is32
  | AluOp.divu ↦ Arithmetic.execute AluOp.divu a b is32
  | AluOp.rem ↦ Arithmetic.execute AluOp.rem a b is32
  | AluOp.remu ↦ Arithmetic.execute AluOp.remu a b is32
  | AluOp.or ↦ Logic.execute AluOp.or a b is32
  | AluOp.and ↦ Logic.execute AluOp.and a b is32
  | AluOp.xor ↦ Logic.execute AluOp.xor a b is32
  | AluOp.slt ↦ Logic.execute AluOp.slt a b is32
  | AluOp.sltu ↦ Logic.execute AluOp.sltu a b is32
  | AluOp.sll ↦ Shifts.execute AluOp.sll a b is32
  | AluOp.srl ↦ Shifts.execute AluOp.srl a b is32
  | AluOp.sra ↦ Shifts.execute AluOp.sra a b is32
  | _ ↦ 0
]
