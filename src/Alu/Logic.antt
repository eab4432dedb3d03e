-- ===== src/Alu/Logic.antt =====
-- core/units/alu/logic.rs: bitwise operations and comparisons.
use inspectre.Base.{ltb, if◌then◌else◌, ℕ, bit_and, bit_or, bit_xor, Bool, true, false}
use inspectre.Alu.Signed.{truncate, less}
use inspectre.Signals.{AluOp}

-- `as u64` of a Boolean.
abbrev pub as_u64 : Bool → ℕ
as_u64 true = 1
as_u64 false = 0

unfoldable pub execute : AluOp → ℕ → ℕ → Bool → ℕ
execute op a b is32 = elim op [
  | AluOp.or ↦ bit_or a b
  | AluOp.and ↦ bit_and a b
  | AluOp.xor ↦ bit_xor a b
  | AluOp.slt ↦ as_u64 (if is32 then less 32 (truncate 32 a) (truncate 32 b) else less 64 a b)
  | AluOp.sltu ↦ as_u64 (if is32 then ltb (truncate 32 a) (truncate 32 b) else ltb a b)
  | _ ↦ 0
]
