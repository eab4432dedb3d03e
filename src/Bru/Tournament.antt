-- ===== src/Bru/Tournament.antt =====
-- core/units/bru/tournament.rs: the predictor that chooses between a global and a local one. The
-- sizes are those of the configuration, in bits.
use inspectre.Base.{
  leb, if◌then◌else◌, get_or, set, replicate, ℕ, ◌-◌, ◌*◌, ◌%◌, ◌^◌, bit_and, bit_or, bit_xor, Bool,
  not, ◌&&◌, ◌||◌, Option, List,
}
use inspectre.Alu.Logic.{as_u64}
use inspectre.Btb
use inspectre.Btb.{Btb}
use inspectre.Ras
use inspectre.Ras.{Ras}
use inspectre.Bru.{train, shift_in, learn, predicted}

pub record TournamentPredictor : Type 0 where
  pub btb : Btb
  pub ras : Ras
  pub ghr : ℕ
  pub global_pht : List ℕ
  pub global_mask : ℕ
  pub local_history_table : List ℕ
  pub local_hist_mask : ℕ
  pub local_pht : List ℕ
  pub local_pred_mask : ℕ
  pub choice_pht : List ℕ

unfoldable pub new : ℕ → ℕ → ℕ → ℕ → ℕ → TournamentPredictor
new global_size_bits local_hist_bits local_pred_bits btb_size ras_size = record {
  btb = Btb.new btb_size;
  ras = Ras.new ras_size;
  ghr = 0;
  global_pht = replicate (2 ^ global_size_bits) 1;
  global_mask = 2 ^ global_size_bits - 1;
  local_history_table = replicate (2 ^ local_hist_bits) 0;
  local_hist_mask = 2 ^ local_hist_bits - 1;
  local_pht = replicate (2 ^ local_pred_bits) 1;
  local_pred_mask = 2 ^ local_pred_bits - 1;
  choice_pht = replicate (2 ^ global_size_bits) 1;
}

unfoldable pub get_global_prediction : TournamentPredictor → ℕ → Bool
get_global_prediction t idx = leb 2 (get_or t.global_pht idx 0)

abbrev pub lh_index : TournamentPredictor → ℕ → ℕ
lh_index t pc = bit_and pc t.local_hist_mask

abbrev pub pattern_of : TournamentPredictor → ℕ → ℕ
pattern_of t pc = get_or t.local_history_table (lh_index t pc) 0

abbrev pub pred_index : TournamentPredictor → ℕ → ℕ
pred_index t pc = bit_and (pattern_of t pc) t.local_pred_mask

unfoldable pub get_local_prediction : TournamentPredictor → ℕ → Bool
get_local_prediction t pc = leb 2 (get_or t.local_pht (pred_index t pc) 0)

abbrev pub global_index : TournamentPredictor → ℕ → ℕ
global_index t pc = bit_and (bit_xor t.ghr pc) t.global_mask

unfoldable pub predict_branch : TournamentPredictor → ℕ → Bool × Option ℕ
predict_branch t pc = predicted t.btb pc (
    if leb 2 (get_or t.choice_pht (global_index t pc) 0)
    then get_global_prediction t (global_index t pc)
    else get_local_prediction t pc)

-- Whether a prediction was right.
unfoldable pub correct : Bool → Bool → Bool
correct predicted taken = (predicted && taken) || (not predicted && not taken)

-- The choice moves towards the one that was right, where one was.
unfoldable pub choose : TournamentPredictor → ℕ → Bool → List ℕ
choose t pc taken =
    let global_correct = correct (get_global_prediction t (global_index t pc)) taken in
    let local_correct = correct (get_local_prediction t pc) taken in
    if correct global_correct local_correct
    then t.choice_pht
    else set t.choice_pht (global_index t pc)
        (train global_correct (get_or t.choice_pht (global_index t pc) 0))

unfoldable pub update_branch : TournamentPredictor → ℕ → Bool → Option ℕ → TournamentPredictor
update_branch t pc taken target = record t {
  choice_pht = choose t pc taken;
  global_pht =
      set t.global_pht (global_index t pc)
        (train taken (get_or t.global_pht (global_index t pc) 0));
  ghr = shift_in t.ghr taken t.global_mask;
  local_pht =
      set t.local_pht (pred_index t pc) (train taken (get_or t.local_pht (pred_index t pc) 0));
  local_history_table =
      set t.local_history_table (lh_index t pc) (
        bit_and (bit_or (pattern_of t pc * 2 % 2 ^ 16) (as_u64 taken))
          (t.local_pred_mask % 2 ^ 16));
  btb = learn t.btb pc target;
}

unfoldable pub predict_btb : TournamentPredictor → ℕ → Option ℕ
predict_btb t pc = Btb.lookup t.btb pc

unfoldable pub on_call : TournamentPredictor → ℕ → ℕ → ℕ → TournamentPredictor
on_call t pc ret_addr target = record t {
  ras = Ras.push t.ras ret_addr;
  btb = Btb.update t.btb pc target;
}

unfoldable pub predict_return : TournamentPredictor → Option ℕ
predict_return t = Ras.top t.ras

unfoldable pub on_return : TournamentPredictor → TournamentPredictor
on_return t = record t { ras = (Ras.pop t.ras).0 }

unfoldable pub speculate : TournamentPredictor → ℕ → Bool → TournamentPredictor
speculate t pc taken = record t { ghr = shift_in t.ghr taken t.global_mask }

unfoldable pub snapshot_history : TournamentPredictor → ℕ
snapshot_history t = t.ghr

unfoldable pub repair_history : TournamentPredictor → ℕ → TournamentPredictor
repair_history t ghr = record t { ghr = ghr }
