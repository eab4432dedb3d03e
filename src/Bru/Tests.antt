-- ===== src/Bru/Tests.antt =====
-- Runs of the direction predictors, and the theorem at one.
use inspectre.Base.{◌≡◌, refl, true, none, some}
use inspectre.Bru.{train, predicted}
use inspectre.Bru.GShare
use inspectre.Bru.GShare.{GSharePredictor}
use inspectre.Bru.GShare.Training.{resolve, predict-resolve, new-IsValid}
use inspectre.Bru.Tournament
use inspectre.Bru.Tournament.{TournamentPredictor, choose, correct, get_local_prediction}

abbrev gshare : GSharePredictor
gshare = GShare.new 4 2

abbrev tournament : TournamentPredictor
tournament = Tournament.new 2 2 2 4 2

-- A new counter needs one branch to be taken.
one_is_enough : (GShare.predict_branch (resolve gshare 0x1000 true (some 0x2000)) 0x1000).0 ≡ true
unfolding resolve GShare.predict_branch predicted GShare.repair_history GShare.update_branch
    GShare.new GShare.index GShare.snapshot_history train
one_is_enough = refl

-- The choice stays while both components are wrong.
both_wrong :
    (Tournament.update_branch tournament 0x1000 true none).choice_pht ≡ tournament.choice_pht
unfolding Tournament.update_branch Tournament.new choose correct Tournament.get_global_prediction
    get_local_prediction
both_wrong = refl

predict-resolve_example :
    (GShare.predict_branch
      (resolve (resolve gshare 0x1000 true (some 0x2000)) 0x1000 true none)
      0x1000).0
    ≡ true
predict-resolve_example = predict-resolve gshare 0x1000 true (some 0x2000) none (new-IsValid 4 2)
