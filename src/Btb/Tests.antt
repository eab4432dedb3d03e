-- ===== src/Btb/Tests.antt =====
-- Runs of the branch target buffer, and the theorems at them.
use inspectre.Base.{[], ℕ, ◌≡◌, refl, none, List, ◌∷◌, arith}
use inspectre.Btb.{Btb, new, lookup, update}
use inspectre.Btb.Targets.{new-IsValid, new-Agrees, last_target, train, Agrees, train-Agrees}

abbrev empty : Btb
empty = new 4

abbrev branches : List (ℕ × ℕ)
branches = (0x1000, 0x2000) ∷ (0x1010, 0x3000) ∷ (0x1004, 0x4000) ∷ []

-- The second branch takes the slot of the first.
shares : lookup (update (update (new 4) 0x1000 0x2000) 0x1010 0x3000) 0x1000 ≡ none
unfolding new lookup update
shares = refl

train-Agrees_example : Agrees (train empty branches) (last_target (λ branch. none) branches)
train-Agrees_example =
    train-Agrees empty (λ branch. none) branches (new-IsValid 4 (omega arith)) (new-Agrees 4)
