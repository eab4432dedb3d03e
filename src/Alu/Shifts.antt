-- ===== src/Alu/Shifts.antt =====
-- core/units/alu/shifts.rs: shifts by the low six bits of the second operand, or the low five.
use inspectre.Base.{if◌then◌else◌, ℕ, ◌*◌, ◌/◌, ◌%◌, ◌^◌, bit_and, Bool}
use inspectre.Alu.Signed.{truncate, sign_extend, shift_right}
use inspectre.Signals.{AluOp}

unfoldable pub execute : AluOp → ℕ → ℕ → Bool → ℕ
execute op a b is32 =
    let sh6 = bit_and b 63 in
    let sh5 = bit_and b 31 in
    elim op [
      | AluOp.sll ↦
          (if is32 then sign_extend (truncate 32 a * 2 ^ sh5 % 2 ^ 32) else a * 2 ^ sh6 % 2 ^ 64)
      | AluOp.srl ↦ if is32 then sign_extend (truncate 32 a / 2 ^ sh5) else a / 2 ^ sh6
      | AluOp.sra ↦
          (if is32 then sign_extend (shift_right 32 (truncate 32 a) sh5) else shift_right 64 a sh6)
      | _ ↦ 0
    ]
