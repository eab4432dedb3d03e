-- ===== src/Rob/Flush/Keep.antt =====
-- `flush_after` against the queue: what it keeps, and the state in which it loses everything.
use inspectre.Base.{
  ℕ, suc, ◌-◌, ◌≡◌, refl, ap, sym, ◌∙◌, ◌<◌, inl, inr, some, [], tabulate, tabulate_ext, slot,
  slot-cases, Option-cases, arith,
}
use native.Mathlib.Decide.{dec_lt}
use inspectre.Rob.{Rob, RobTag, capacity}
use inspectre.Rob.Flush.{flush_after, count_until}
use inspectre.Rob.Flush.Refine.{
  flush_after-missing, flush_after-found, flush_from-count, spec-found, counted, left-IsValid,
  entry_at-left, removed, left,
}
use inspectre.Rob.Flush.Remove.{count_until-here}
use inspectre.Rob.Spec
use inspectre.Rob.Invariant.{IsValid, entry_at, contents}

-- The buffer is full and the tag is that of its newest entry.
abbrev pub IsNewestOfFull : Rob → RobTag → Type 0
IsNewestOfFull r t = (r.count ≡ capacity r) × ((entry_at r (r.count - 1)).tag ≡ t)

abbrev Flushed : Rob → RobTag → Type 0
Flushed r t =
    (s : Rob) × (flush_after r t ≡ some s)
    × IsValid s
    × (contents s ≡ Spec.flush_after t (contents r))

module _ (r : Rob) (t : RobTag) (v : IsValid r) where
  Flushed-short : (k : ℕ) → k < r.count → (entry_at r k).tag ≡ t → suc k < capacity r → Flushed r t
  Flushed-short k below tagged room = (
    left r t v k below tagged (suc k),
    flush_after-found r t v k below tagged
        ∙ flush_from-count r t v k below tagged (suc k) (counted r t v k below tagged room),
    left-IsValid r t v k below tagged (omega arith),
    tabulate_ext _ _ (suc k) (λ j p. entry_at-left r t v k below tagged (suc k) j p)
        ∙ sym (spec-found r t v k below tagged),
  )

-- On a valid buffer, unless it is full and the tag is that of its newest entry, `flush_after`
-- ends, keeps the buffer valid, and leaves exactly the instructions up to the tag, in order; a tag
-- that is not in flight changes nothing.
pub flush_after_refines :
    (r : Rob) (t : RobTag)
    → IsValid r
    → ¬ IsNewestOfFull r t
    → (s : Rob) × (flush_after r t ≡ some s)
      × IsValid s
      × (contents s ≡ Spec.flush_after t (contents r))
flush_after_refines r t v ok = elim (Option-cases (r.tag_index t)) [
  | inl e ↦ (r, (flush_after-missing r t v e).0, v, sym (flush_after-missing r t v e).1)
  | inr (i, e) ↦ at (v.index_live t i e)
]
  where
    at :
        {i : ℕ}
        → (k : ℕ) × (k < r.count) × (slot (capacity r) r.head k ≡ i) × ((entry_at r k).tag ≡ t)
        → Flushed r t
    at (k, below, here, tagged) = elim (dec_lt (suc k) (capacity r)) [
      | yes room ↦ Flushed-short r t v k below tagged room
      | no full ↦ absurd (
          ok (
            omega (arith, v.count_le),
            ap (λ j. (entry_at r j).tag) (omega (arith, v.count_le)) ∙ tagged,
          ))
    ]

-- With a valid buffer full and the tag that of its newest entry, nothing is younger than the tag
-- and the queue's flush keeps all of it; but `flush_after` leaves a buffer that counts no entry.
pub flush_after_loses :
    (r : Rob) (t : RobTag)
    → IsValid r
    → IsNewestOfFull r t
    → (s : Rob) × (flush_after r t ≡ some s)
      × (contents s ≡ [])
      × (Spec.flush_after t (contents r) ≡ contents r)
flush_after_loses r t v (full, tagged) = (
  left r t v k below tagged 0,
  flush_after-found r t v k below tagged ∙ flush_from-count r t v k below tagged 0 stops,
  refl,
  spec-found r t v k below tagged ∙ ap (tabulate (entry_at r)) last,
)
  where
    k : ℕ
    k = r.count - 1

    below : k < r.count
    below = omega (arith, v.head_in)

    last : suc k ≡ r.count
    last = omega (arith, v.head_in)

    stops :
        count_until
          (capacity r)
          (slot (capacity r) r.head (suc k))
          r.head
          (removed r t v k below tagged).rest
          0
        ≡ some 0
    stops = count_until-here (capacity r) _ r.head _ 0 (omega (arith, v.head_in)) round
      where
        round : r.head ≡ slot (capacity r) r.head (suc (r.count - 1))
        round = omega (
          arith,
          slot-cases (capacity r) r.head (suc (r.count - 1)) v.head_in (omega (arith, v.head_in)),
          v.head_in,
        )
