-- ===== src/Rob/Flush/Find.antt =====
-- The search of `flush_after` for the entry to keep, followed slot by slot.
use inspectre.Base.{
  ℕ, zero, suc, ◌+◌, ◌≡◌, ◌≢◌, refl, ◌≤◌, ◌<◌, inl, inr, none, some, List, length, slot, slot-suc,
  ring_at, ◌==◌, ==_iff, ==_false, ==_ne, Bool-cases, arith,
}
use inspectre.Rob.{RobTag, RobEntry, default_entry}
use inspectre.Rob.Flush.{find_slot}

-- The search finds the first place whose entry has the tag.
pub find_slot-at :
    (es : List RobEntry) (t : RobTag) (h i k n : ℕ)
    → h < length es
    → i ≤ k
    → k < i + n
    → i + n ≤ length es
    → (ring_at default_entry es h k).tag ≡ t
    → ((j : ℕ) → j < k → (ring_at default_entry es h j).tag ≢ t)
    → find_slot es t n (slot (length es) h i) ≡ some (slot (length es) h k)
unfolding find_slot
find_slot-at es t h i k zero hh lo hi top e before = absurd (omega arith)
find_slot-at es t h i k (suc n) hh lo hi top e before = elim (Bool-cases (i == k)) [
  | inl same ↦ rw ((==_iff i k).0 same) (rw ((==_iff _ t).1 e))
  | inr differ ↦
      rw (==_ne _ _ (before i (omega (arith, ==_false i k differ))), slot-suc (length es) h i)
        (find_slot-at es t h (suc i) k n hh (omega (arith, ==_false i k differ)) (omega arith)
          (omega arith) e before)
]

pub find_slot-none :
    (es : List RobEntry) (t : RobTag) (h i n : ℕ)
    → ((j : ℕ) → j < i + n → (ring_at default_entry es h j).tag ≢ t)
    → find_slot es t n (slot (length es) h i) ≡ none
unfolding find_slot
find_slot-none es t h i zero before = refl
find_slot-none es t h i (suc n) before =
    rw (==_ne _ _ (before i (omega arith)), slot-suc (length es) h i)
      (find_slot-none es t h (suc i) n (λ j p. before j (omega arith)))
