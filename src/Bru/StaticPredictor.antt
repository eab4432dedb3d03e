-- ===== src/Bru/StaticPredictor.antt =====
-- core/units/bru/static_bp.rs: the predictor that takes no branch.
use inspectre.Base.{ℕ, Bool, false, Option, none}
use inspectre.Btb
use inspectre.Btb.{Btb}
use inspectre.Ras
use inspectre.Ras.{Ras}
use inspectre.Bru.{learn}

pub record StaticPredictor : Type 0 where
  pub btb : Btb
  pub ras : Ras

unfoldable pub new : ℕ → ℕ → StaticPredictor
new btb_size ras_size = record { btb = Btb.new btb_size; ras = Ras.new ras_size }

unfoldable pub predict_branch : StaticPredictor → ℕ → Bool × Option ℕ
predict_branch s pc = (false, none)

unfoldable pub update_branch : StaticPredictor → ℕ → Bool → Option ℕ → StaticPredictor
update_branch s pc taken target = record s { btb = learn s.btb pc target }

unfoldable pub predict_btb : StaticPredictor → ℕ → Option ℕ
predict_btb s pc = Btb.lookup s.btb pc

unfoldable pub on_call : StaticPredictor → ℕ → ℕ → ℕ → StaticPredictor
on_call s pc ret_addr target = record s {
  ras = Ras.push s.ras ret_addr;
  btb = Btb.update s.btb pc target;
}

unfoldable pub predict_return : StaticPredictor → Option ℕ
predict_return s = Ras.top s.ras

unfoldable pub on_return : StaticPredictor → StaticPredictor
on_return s = record s { ras = (Ras.pop s.ras).0 }
