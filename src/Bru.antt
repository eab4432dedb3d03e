-- ===== src/Bru.antt =====
-- core/units/bru/: the predictors of branch directions, each with its target buffer and return stack.
pub mod StaticPredictor
pub mod GShare
pub mod Tournament
mod Tests
use inspectre.Base.{
  ltb, if◌then◌else◌, ℕ, ◌+◌, ◌-◌, ◌*◌, ◌%◌, ◌^◌, bit_and, bit_or, Bool, true, false, Option, none,
  some,
}
use inspectre.Alu.Logic.{as_u64}
use inspectre.Btb
use inspectre.Btb.{Btb}

-- A counter of two bits after an outcome.
unfoldable pub train : Bool → ℕ → ℕ
train taken counter =
    if taken
    then (if ltb counter 3 then counter + 1 else counter)
    else (if ltb 0 counter then counter - 1 else counter)

-- The history with an outcome shifted in.
unfoldable pub shift_in : ℕ → Bool → ℕ → ℕ
shift_in ghr taken mask = bit_and (bit_or (ghr * 2 % 2 ^ 64) (as_u64 taken)) mask

-- The target buffer after a branch, where its target is known.
unfoldable pub learn : Btb → ℕ → Option ℕ → Btb
learn btb pc (some tgt) = Btb.update btb pc tgt
learn btb pc none = btb

-- The prediction of a direction: a branch taken has its target looked up.
unfoldable pub predicted : Btb → ℕ → Bool → Bool × Option ℕ
predicted btb pc taken = if taken then (true, Btb.lookup btb pc) else (false, none)
