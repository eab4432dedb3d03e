-- ===== src/Bru/GShare/Training.antt =====
-- core/units/bru/gshare.rs: what training makes of a prediction.
use inspectre.Base.{
  leb, ◌==◌, if◌then◌else◌, Bool-cases, if_true, if_false, length, get_or, set, replicate,
  length-set, length-replicate, get_or-set_self, get_or-set, bit_and-le, bit_xor-lt, ℕ, zero, suc,
  ◌-◌, ◌/◌, ◌^◌, ◌≤◌, ◌<◌, bit_and, ◌≡◌, refl, sym, ap, subst, ◌∙◌, inl, inr, Bool, true, false,
  Option, arith,
}
use inspectre.Bru.{train, predicted}
use inspectre.Bru.GShare.{
  GSharePredictor, table_size, new, index, predict_branch, update_branch, snapshot_history,
  repair_history,
}

-- Every counter has two bits, and there are as many as the index reaches.
unfoldable pub IsValid : GSharePredictor → Type 0
IsValid g = (length g.pht ≡ table_size) × ((i : ℕ) → get_or g.pht i 0 ≤ 3)

pub new-IsValid : (btb_size ras_size : ℕ) → IsValid (new btb_size ras_size)
unfolding IsValid new
new-IsValid btb_size ras_size = (length-replicate {A = ℕ} table_size 1, bounded table_size)
  where
    bounded : (n i : ℕ) → get_or (replicate n 1) i 0 ≤ 3
    bounded zero i = omega arith
    bounded (suc n) zero = omega arith
    bounded (suc n) (suc i) = bounded n i

train-le : (taken : Bool) (c : ℕ) → c ≤ 3 → train taken c ≤ 3
unfolding train
train-le true c h = ground arith
train-le false c h = ground arith

after_two : (taken : Bool) (c : ℕ) → c ≤ 3 → leb 2 (train taken (train taken c)) ≡ taken
unfolding train
after_two true c h = ground arith
after_two false c h = ground arith

counter-le : (g : GSharePredictor) (pc : ℕ) → IsValid g → get_or g.pht (index g pc) 0 ≤ 3
unfolding IsValid
counter-le g pc v = v.1 (index g pc)

index-lt : (g : GSharePredictor) (pc : ℕ) → index g pc < 2 ^ 12
unfolding index
index-lt g pc =
    bit_xor-lt 12 (bit_and (pc / 2 ^ 2) (2 ^ 12 - 1)) (bit_and g.ghr (2 ^ 12 - 1))
      (omega (arith, bit_and-le (pc / 2 ^ 2) (2 ^ 12 - 1)))
      (omega (arith, bit_and-le g.ghr (2 ^ 12 - 1)))

in_range : (g : GSharePredictor) (pc : ℕ) → IsValid g → index g pc < length g.pht
unfolding IsValid
in_range g pc v = subst (λ n. index g pc < n) (sym v.0) (index-lt g pc)

-- A resolved branch: the counters are trained and the history is as before it.
unfoldable pub resolve : GSharePredictor → ℕ → Bool → Option ℕ → GSharePredictor
resolve g pc taken target = repair_history (update_branch g pc taken target) (snapshot_history g)

pub resolve-IsValid :
    (g : GSharePredictor) (pc : ℕ) (taken : Bool) (target : Option ℕ)
    → IsValid g
    → IsValid (resolve g pc taken target)
unfolding IsValid resolve repair_history update_branch snapshot_history
resolve-IsValid g pc taken target v = (
  length-set g.pht (index g pc) (train taken counter) ∙ v.0,
  λ i. elim (Bool-cases (index g pc == i)) [
    | inl e ↦
        subst (λ t. t ≤ 3)
          (sym (stored i ∙ if_true (index g pc == i) (train taken counter) (get_or g.pht i 0) e))
          (train-le taken counter (v.1 (index g pc)))
    | inr e ↦
        subst (λ t. t ≤ 3)
          (sym (stored i ∙ if_false (index g pc == i) (train taken counter) (get_or g.pht i 0) e))
          (v.1 i)
  ],
)
  where
    counter : ℕ
    counter = get_or g.pht (index g pc) 0

    stored :
        (i : ℕ)
        → get_or (set g.pht (index g pc) (train taken counter)) i 0
          ≡ (if index g pc == i then train taken counter else get_or g.pht i 0)
    stored i = get_or-set g.pht (index g pc) i (train taken counter) 0 (in_range g pc v)

-- What the counter of a branch becomes.
counter-resolve :
    (g : GSharePredictor) (pc : ℕ) (taken : Bool) (target : Option ℕ)
    → IsValid g
    → get_or (resolve g pc taken target).pht (index g pc) 0
      ≡ train taken (get_or g.pht (index g pc) 0)
unfolding resolve repair_history update_branch snapshot_history
counter-resolve g pc taken target v =
    get_or-set_self g.pht (index g pc) (train taken (get_or g.pht (index g pc) 0)) 0
      (in_range g pc v)

-- In a valid predictor, a branch that is resolved twice the same way under one history is predicted that
-- way under this history, whatever its counter was.
pub predict-resolve :
    (g : GSharePredictor) (pc : ℕ) (taken : Bool) (first second : Option ℕ)
    → IsValid g
    → (predict_branch (resolve (resolve g pc taken first) pc taken second) pc).0 ≡ taken
unfolding predict_branch predicted index resolve repair_history update_branch snapshot_history
predict-resolve g pc taken first second v =
    direction (leb 2 counter)
    ∙ ap (leb 2) trained
    ∙ after_two taken (get_or g.pht (index g pc) 0) (counter-le g pc v)
  where
    once : GSharePredictor
    once = resolve g pc taken first

    counter : ℕ
    counter = get_or (resolve once pc taken second).pht (index once pc) 0

    trained : counter ≡ train taken (train taken (get_or g.pht (index g pc) 0))
    trained =
        counter-resolve once pc taken second (resolve-IsValid g pc taken first v)
        ∙ ap (train taken) (counter-resolve g pc taken first v)

    direction : (b : Bool) → (predicted (resolve once pc taken second).btb pc b).0 ≡ b
    direction true = refl
    direction false = refl
