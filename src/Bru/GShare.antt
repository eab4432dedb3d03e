-- ===== src/Bru/GShare.antt =====
-- core/units/bru/gshare.rs: the predictor that hashes the address with the global history.
pub mod Training
use inspectre.Base.{
  leb, get_or, set, replicate, ℕ, ◌-◌, ◌/◌, ◌^◌, bit_and, bit_xor, Bool, Option, List,
}
use inspectre.Btb
use inspectre.Btb.{Btb}
use inspectre.Ras
use inspectre.Ras.{Ras}
use inspectre.Bru.{train, shift_in, learn, predicted}

abbrev pub table_size : ℕ
table_size = 2 ^ 12

pub record GSharePredictor : Type 0 where
  pub ghr : ℕ
  pub pht : List ℕ
  pub btb : Btb
  pub ras : Ras

unfoldable pub new : ℕ → ℕ → GSharePredictor
new btb_size ras_size = record {
  ghr = 0;
  pht = replicate table_size 1;
  btb = Btb.new btb_size;
  ras = Ras.new ras_size;
}

unfoldable pub index : GSharePredictor → ℕ → ℕ
index g pc = bit_xor (bit_and (pc / 2 ^ 2) (table_size - 1)) (bit_and g.ghr (table_size - 1))

unfoldable pub predict_branch : GSharePredictor → ℕ → Bool × Option ℕ
predict_branch g pc = predicted g.btb pc (leb 2 (get_or g.pht (index g pc) 0))

unfoldable pub update_branch : GSharePredictor → ℕ → Bool → Option ℕ → GSharePredictor
update_branch g pc taken target = record g {
  pht = set g.pht (index g pc) (train taken (get_or g.pht (index g pc) 0));
  ghr = shift_in g.ghr taken (table_size - 1);
  btb = learn g.btb pc target;
}

unfoldable pub predict_btb : GSharePredictor → ℕ → Option ℕ
predict_btb g pc = Btb.lookup g.btb pc

unfoldable pub on_call : GSharePredictor → ℕ → ℕ → ℕ → GSharePredictor
on_call g pc ret_addr target = record g {
  ras = Ras.push g.ras ret_addr;
  btb = Btb.update g.btb pc target;
}

unfoldable pub predict_return : GSharePredictor → Option ℕ
predict_return g = Ras.top g.ras

unfoldable pub on_return : GSharePredictor → GSharePredictor
on_return g = record g { ras = (Ras.pop g.ras).0 }

unfoldable pub speculate : GSharePredictor → ℕ → Bool → GSharePredictor
speculate g pc taken = record g { ghr = shift_in g.ghr taken (table_size - 1) }

unfoldable pub snapshot_history : GSharePredictor → ℕ
snapshot_history g = g.ghr

unfoldable pub repair_history : GSharePredictor → ℕ → GSharePredictor
repair_history g ghr = record g { ghr = ghr }
