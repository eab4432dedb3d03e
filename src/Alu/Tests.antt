-- ===== src/Alu/Tests.antt =====
-- Operations at their edges.
use inspectre.Base.{◌+◌, ◌-◌, ◌*◌, ◌%◌, ◌^◌, ◌<◌, ◌≡◌, refl, true, false, arith}
use inspectre.Alu.{execute}
use inspectre.Alu.Arithmetic
use inspectre.Alu.Arithmetic.{execute32, execute64}
use inspectre.Alu.Division.{div-rem, divu-remu}
use inspectre.Alu.Signed.{sign_extend, wrapping_div, magnitude, negate}
use inspectre.Alu.Widths.{execute-low}
use inspectre.Signals.{AluOp}

-- The least number by -1.
overflow : execute AluOp.div (2 ^ 63) (2 ^ 64 - 1) false ≡ 2 ^ 63
unfolding execute Arithmetic.execute execute64 wrapping_div magnitude negate
overflow = refl

div-rem_example :
    (execute AluOp.div (2 ^ 63) (2 ^ 64 - 1) false * (2 ^ 64 - 1)
        + execute AluOp.rem (2 ^ 63) (2 ^ 64 - 1) false)
      % 2 ^ 64
    ≡ 2 ^ 63
div-rem_example = div-rem (2 ^ 63) (2 ^ 64 - 1) (omega arith) (omega arith)

divu-remu_example :
    ((execute AluOp.divu 100 7 false * 7 + execute AluOp.remu 100 7 false) % 2 ^ 64 ≡ 100)
    × (0 < 7 → execute AluOp.remu 100 7 false < 7)
    × (execute AluOp.mulhu 100 7 false * 2 ^ 64 + execute AluOp.mul 100 7 false ≡ 100 * 7)
divu-remu_example = divu-remu 100 7 (omega arith) (omega arith)

execute-low_example :
    (execute AluOp.add 4294967295 3 true
      ≡ sign_extend (execute AluOp.add 4294967295 3 false % 2 ^ 32))
    × (execute AluOp.sub 4294967295 3 true
        ≡ sign_extend (execute AluOp.sub 4294967295 3 false % 2 ^ 32))
    × (execute AluOp.mul 4294967295 3 true
        ≡ sign_extend (execute AluOp.mul 4294967295 3 false % 2 ^ 32))
    × (execute AluOp.sub (execute AluOp.add 4294967295 3 false) 3 false ≡ 4294967295)
execute-low_example = execute-low 4294967295 3 (omega arith) (omega arith)
