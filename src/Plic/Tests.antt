-- ===== src/Plic/Tests.antt =====
-- A controller with three pending interrupts.
use inspectre.Base.{[], has, ℕ, ◌*◌, ◌≡◌, refl, ◌∷◌}
use inspectre.Plic.{Plic, num_words, calc_max_id, scan_from, scan_word, better, qualifies, active}
use inspectre.Plic.Highest.{Best, calc_max_id-Best}

-- Interrupts 1, 2 and 3 are pending and enabled, with priorities 1, 7 and 7, above a threshold of 1.
abbrev busy : Plic
busy = record {
  base_addr = 0;
  priorities = 0 ∷ 1 ∷ 7 ∷ 7 ∷ [];
  pending = 14 ∷ [];
  enables = (14 ∷ []) ∷ [];
  thresholds = 1 ∷ [];
  claims = 0 ∷ [];
}

second_wins : calc_max_id busy 0 ≡ 2
unfolding calc_max_id scan_from scan_word better qualifies active num_words has
second_wins = refl

calc_max_id-Best_example :
    (max_prio : ℕ) × Best busy 0 (num_words busy 0 * 32) (max_prio, calc_max_id busy 0)
calc_max_id-Best_example = calc_max_id-Best busy 0
